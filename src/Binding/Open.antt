-- ===== src/Binding/Open.antt =====
-- `luaopen_service_c` of src/lservice.c, with `luv_loader_error` of src/loadluv.c: the module as Lua loads it.
mod Tests
use service_lua.Base.{
  ℕ, ◌≡◌, ◌≢◌, ◌⊎◌, sym, ◌∙◌, Bool, true, false, not, Option, none, some, List, [], ◌∷◌,
  if◌then◌else◌, ◌==◌,
}
use service_lua.Log.{codes}
use service_lua.Service.Types.{same_name}
use service_lua.Luv.{
  LoaderError, Loader, Linker, not_in_cpath, not_opened, missing_symbol, enoent, luv_loader_prepare,
}
use service_lua.Luv.Once.{Outcome}

-- The text of the error; none is "unknown luv loader error".
unfoldable pub luv_loader_error : Loader → Option LoaderError
luv_loader_error g = g.error

-- The C functions that the module names
pub data Function : Type 0 where
  pool_new pool_delete lookup get_pool get_async get_addr get_uv_loop : Function
  new start stop join get_exit_error get_id send_message recv_message : Function
  log log_error log_enabled log_config : Function
  remove pack unpack unpack_remove : Function

abbrev pub registered : List (List ℕ × Function)
registered =
    (codes "_pool_new", pool_new)
    ∷ (codes "_pool_delete", pool_delete)
    ∷ (codes "_lookup", lookup)
    ∷ (codes "_get_pool", get_pool)
    ∷ (codes "_get_async", get_async)
    ∷ (codes "_get_addr", get_addr)
    ∷ (codes "_get_uv_loop", get_uv_loop)
    ∷ (codes "_new", new)
    ∷ (codes "_start", start)
    ∷ (codes "_stop", stop)
    ∷ (codes "_join", join)
    ∷ (codes "_get_exit_error", get_exit_error)
    ∷ (codes "_get_id", get_id)
    ∷ (codes "_send_message", send_message)
    ∷ (codes "_recv_message", recv_message)
    ∷ (codes "_log", log)
    ∷ (codes "_log_error", log_error)
    ∷ (codes "_log_enabled", log_enabled)
    ∷ (codes "_log_config", log_config)
    ∷ (codes "remove", remove)
    ∷ (codes "pack", pack)
    ∷ (codes "unpack", unpack)
    ∷ (codes "unpack_remove", unpack_remove)
    ∷ []

-- How the load ends: an error with the loader's text, or the table of the module
pub data Opened : Type 0 where
  failed : Option LoaderError → Opened
  opened : List (List ℕ × Function) → Opened

unfoldable pub luaopen_service_c :
    (List ℕ → Bool) → Option (List ℕ) → Linker → Loader → Opened × Loader
unfolding luv_loader_prepare luv_loader_error
luaopen_service_c readable cpath dl g =
    let (error, g') = luv_loader_prepare readable cpath dl g in
    (if not (error == 0) then failed (luv_loader_error g') else opened registered, g')

-- Whether a name of the table stands in it again
unfoldable pub stands_in : List ℕ → List (List ℕ × Function) → Bool
stands_in n [] = false
stands_in n ((m, f) ∷ rest) = let later = stands_in n rest in if same_name n m then true else later

unfoldable pub all_distinct : List (List ℕ × Function) → Bool
unfolding stands_in
all_distinct [] = true
all_distinct ((n, f) ∷ rest) =
    let others = all_distinct rest in if stands_in n rest then false else others

-- A loader that has failed has a text.
abbrev HasText : Loader → Type 0
HasText g = (g.status ≡ 0) ⊎ ((e : LoaderError) × (g.error ≡ some e))
