-- ===== src/Service/Init/Handles.antt =====
-- `service_close_luv_handles` of src/service.c: the handles that a service's Lua code has left open.
pub mod Closed
use service_lua.Base.{
  ℕ, zero, suc, Bool, true, false, ◌&&◌, not, Option, none, some, List, [], ◌∷◌, ◌++◌,
  if◌then◌else◌,
}
use service_lua.Luv.{LuaKind, table, function, is_table, is_function, enoent}
use service_lua.Service.Types.{einval, Service}
use service_lua.Service.Life.{inbox_handle_closed, control_handle_closed}

-- A handle of luv: its number, what `is_closing` returns, none if it raises an error, and whether `close`
-- returns.
pub record LuvHandle : Type 0 where
  pub id : ℕ
  pub closing : Option Bool
  pub closes : Bool

-- What luv answers: the kinds of `package`, `package.loaded`, `package.loaded.luv` and of its three
-- functions, whether `walk` returns, and the handles that it visits.
pub record LuvTable : Type 0 where
  pub package_kind : LuaKind
  pub loaded : LuaKind
  pub luv : LuaKind
  pub walk : LuaKind
  pub is_closing : LuaKind
  pub close : LuaKind
  pub walk_ok : Bool
  pub handles : List LuvHandle

-- `close_luv_handle`: `context->error`, and the handles closed so far.
unfoldable pub close_luv_handle : LuvHandle → ℕ × List ℕ → ℕ × List ℕ
close_luv_handle h (error, closed) = elim h.closing [
  | none ↦ (einval, closed)
  | some closing ↦
      if closing
      then (error, closed)
      else if h.closes
      then (error, closed ++ (h.id ∷ []))
      else (einval, closed)
]

-- `walk` calls it for each handle.
unfoldable pub walk_handles : List LuvHandle → ℕ × List ℕ → ℕ × List ℕ
unfolding close_luv_handle
walk_handles [] context = context
walk_handles (h ∷ hs) context = walk_handles hs (close_luv_handle h context)

-- The values that the function looks for are there.
abbrev pub is_available : LuvTable → Bool
is_available t =
    is_table t.package_kind
    && is_table t.loaded
    && is_table t.luv
    && is_function t.walk
    && is_function t.is_closing
    && is_function t.close

-- `service_close_luv_handles`, for a service whose Lua state is there or not
unfoldable pub service_close_luv_handles : Bool → LuvTable → ℕ × List ℕ
unfolding walk_handles
service_close_luv_handles has_state t =
    if not has_state
    then (0, [])
    else if not (is_available t)
    then (enoent, [])
    else (let (error, closed) = walk_handles t.handles (0, []) in
        (if t.walk_ok then error else einval, closed))

-- The handle that `service_runtime_handle_closed` is called for
pub data RuntimeHandle : Type 0 where
  inbox_async control_async another : RuntimeHandle

unfoldable pub handle_closed : RuntimeHandle → Service → Service
unfolding inbox_handle_closed control_handle_closed
handle_closed inbox_async s = inbox_handle_closed s
handle_closed control_async s = control_handle_closed s
handle_closed another s = s

-- `service_runtime_handle_closed`, with the handles of luv that it closes: behind the lock, once both handles
-- of the service are closed
unfoldable pub service_runtime_handle_closed :
    RuntimeHandle → Bool → LuvTable → Service → Service × List ℕ
unfolding handle_closed service_close_luv_handles
service_runtime_handle_closed handle has_state t s =
    let s' = handle_closed handle s in
    let closed = not s'.inbox_async_ready && not s'.control_async_ready in
    (s', if closed then (service_close_luv_handles has_state t).1 else [])
