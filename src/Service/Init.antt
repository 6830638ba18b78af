-- ===== src/Service/Init.antt =====
-- The Lua state of a service in src/service.c: `service_init_lua` and what it calls, and the closing of luv's
-- handles. What Lua answers comes in; an error message that is left on the stack for the log is not kept.
pub mod Config
pub mod Handles
mod Tests
use service_lua.Base.{
  ℕ, zero, suc, Bool, true, false, ◌&&◌, ◌||◌, not, Option, none, some, List, [], ◌∷◌, ◌++◌,
  if◌then◌else◌, ◌==◌, ℤ, pos, negsuc, length,
}
use service_lua.Luv.{LuaKind, table, function, other, is_table, is_function, enoent}
use service_lua.Service.Types.{Service, einval}

abbrev pub enomem : ℕ
enomem = 12

-- The status of a chunk, as far as the code asks: LUA_OK, or what went wrong.
pub data LoadStatus : Type 0 where
  loaded file_error memory_error chunk_error : LoadStatus

abbrev pub is_loaded : LoadStatus → Bool
is_loaded LoadStatus.loaded = true
is_loaded _ = false

-- What the file system answers for a path: it cannot be opened, its size cannot be found, or its size and
-- the bytes that fread returns.
pub data File : Type 0 where
  unopened unseekable : File
  opened : ℕ → List ℕ → File

-- What `service_init_lua` meets: `luaL_loadstring` and `luaL_loadbuffer`, the files, and malloc.
pub record LoadEnv : Type 0 where
  pub loadstring : List ℕ → LoadStatus
  pub loadbuffer : List ℕ → LoadStatus
  pub file : List ℕ → File
  pub malloc_ok : Bool

-- `lua_loadfile_as_buffer` behind fopen
unfoldable pub load_opened : LoadEnv → File → LoadStatus
load_opened e File.unopened = LoadStatus.file_error
load_opened e File.unseekable = LoadStatus.file_error
load_opened e (File.opened size read) =
    if not e.malloc_ok
    then LoadStatus.memory_error
    else if length read == size
    then e.loadbuffer read
    else LoadStatus.file_error

-- `lua_loadfile_as_buffer`, for a name that is there: an at sign, and a path that is not empty.
unfoldable pub lua_loadfile_as_buffer : LoadEnv → List ℕ → LoadStatus
unfolding load_opened
lua_loadfile_as_buffer e [] = LoadStatus.file_error
lua_loadfile_as_buffer e (c ∷ []) = LoadStatus.file_error
lua_loadfile_as_buffer e (c ∷ d ∷ path) =
    if c == 64 then load_opened e (e.file (d ∷ path)) else LoadStatus.file_error

-- The first test of `service_init_lua` on its source
unfoldable pub load_source : LoadEnv → List ℕ → LoadStatus
unfolding lua_loadfile_as_buffer
load_source e [] = e.loadstring []
load_source e (c ∷ cs) =
    if c == 64 then lua_loadfile_as_buffer e (c ∷ cs) else e.loadstring (c ∷ cs)

-- What `require "service"` comes to: what `require` is, and what it returns, none if it raised an error.
pub record Required : Type 0 where
  pub require : LuaKind
  pub returned : Option LuaKind

-- `service_push_lservice_module`: whether it returns 0.
unfoldable pub service_push_lservice_module : Required → Bool
service_push_lservice_module r =
    is_function r.require && (elim r.returned [ none ↦ false | some kind ↦ is_table kind ])

-- A function of the module: what it is, and what it returns, none if it raised an error.
pub record Called : Type 0 where
  pub required : Required
  pub field : LuaKind
  pub returned : Option LuaKind

-- `service_bind_lservice`, which calls `service.input`: whether it returns 0.
unfoldable pub service_bind_lservice : Called → Bool
unfolding service_push_lservice_module
service_bind_lservice c =
    service_push_lservice_module c.required
    && is_function c.field
    && (elim c.returned [ none ↦ false | some kind ↦ true ])

-- `service_normalize_handler`, which calls `service.dispatch`: whether it returns 0, with a function in
-- the place of the table.
unfoldable pub service_normalize_handler : Called → Bool
unfolding service_push_lservice_module
service_normalize_handler c =
    service_push_lservice_module c.required
    && is_function c.field
    && (elim c.returned [ none ↦ false | some kind ↦ is_function kind ])

-- Whether an int is negative
abbrev pub is_negative : ℤ → Bool
is_negative (pos n) = false
is_negative (negsuc n) = true

-- What `service_init_lua` meets, in turn. `luv` is the result of `service_load_luv`.
pub record InitEnv : Type 0 where
  pub newstate_ok : Bool
  pub status : LoadStatus
  pub luv : ℤ
  pub input : Called
  pub chunk : Option LuaKind
  pub dispatch : Called

-- `free(service->config); service->config = NULL;`, and what is freed
unfoldable pub free_config : Service → Service × List ℕ
free_config s = (record s { config = 0 }, if s.config == 0 then [] else s.config ∷ [])

-- `service_init_lua` behind the call of the chunk, whose result is a handler or a table
unfoldable pub finish_init : Called → LuaKind → Service → ℕ × Service × List ℕ
unfolding service_normalize_handler free_config
finish_init dispatch kind s =
    let (s', freed) = free_config s in
    if is_table kind && not (service_normalize_handler dispatch)
    then (einval, s', freed)
    else if not (is_table kind || is_function kind)
    then (einval, s', freed)
    else (0, s', freed)

-- `service_init_lua`: the error, the service, and what has been freed.
unfoldable pub service_init_lua : InitEnv → Service → ℕ × Service × List ℕ
unfolding service_bind_lservice finish_init
service_init_lua e s =
    if not e.newstate_ok
    then (enomem, s, [])
    else if not (is_loaded e.status)
    then (einval, s, [])
    else if is_negative e.luv
    then (einval, s, [])
    else if not (service_bind_lservice e.input)
    then (let (s', freed) = free_config s in (einval, s', freed))
    else elim e.chunk [
      | none ↦ let (s', freed) = free_config s in (einval, s', freed)
      | some kind ↦ finish_init e.dispatch kind s
    ]
