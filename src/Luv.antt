-- ===== src/Luv.antt =====
-- src/loadluv.c: finding luv's library along `package.cpath`, opening it once, and loading it into a Lua state.
-- Paths are lists of bytes without the final zero. What dlopen, dlsym, access and Lua answer comes in.
pub mod Search
pub mod Once
mod Tests
use service_lua.Base.{
  ℕ, zero, suc, ◌+◌, ◌<◌, Bool, true, false, ◌&&◌, not, Option, none, some, List, [], ◌∷◌, ◌++◌,
  if◌then◌else◌, ◌==◌, ltb, length,
}
use service_lua.Service.Types.{einval}

abbrev pub enoent : ℕ
enoent = 2

abbrev pub enosys : ℕ
enosys = 38

-- `sizeof(loader.path)`, which is PATH_MAX
abbrev pub path_max : ℕ
path_max = 4096

-- `strchr` and `memchr`: what stands before the first `c`, and what stands behind it; none is NULL.
unfoldable pub split_at : ℕ → List ℕ → List ℕ × Option (List ℕ)
split_at c [] = ([], none)
split_at c (x ∷ xs) =
    let (before, after) = split_at c xs in if x == c then ([], some xs) else (x ∷ before, after)

-- The path that a template gives, if it has a question mark and the path fits the buffer.
unfoldable pub candidate : ℕ → List ℕ → Option (List ℕ)
unfolding split_at
candidate out_size template =
    let (prefix, question) = split_at 63 template in
    elim question [
      | none ↦ none
      | some suffix ↦
          if ltb (length prefix + 3 + length suffix) out_size
          then some (prefix ++ ((108 ∷ 117 ∷ 118 ∷ []) ++ suffix))
          else none
    ]

-- A path that can be read: `access(out, R_OK) == 0`.
unfoldable pub readable_candidate : (List ℕ → Bool) → ℕ → List ℕ → Option (List ℕ)
unfolding candidate
readable_candidate readable out_size template = elim (candidate out_size template) [
  | none ↦ none
  | some path ↦ if readable path then some path else none
]

-- The loop of `find_luv_so` from `cursor` on. Each round but the last passes a semicolon.
unfoldable pub scan_cpath : (List ℕ → Bool) → ℕ → ℕ → List ℕ → Option (List ℕ)
scan_cpath readable out_size fuel [] = none
scan_cpath readable out_size zero (c ∷ cs) = none
scan_cpath readable out_size (suc fuel) (c ∷ cs) =
    let (template, separator) = split_at 59 (c ∷ cs) in
    elim (readable_candidate readable out_size template) [
      | some path ↦ some path
      | none ↦ elim separator [ none ↦ none | some next ↦ scan_cpath readable out_size fuel next ]
    ]

-- `find_luv_so`: none is ENOENT. `cpath` is none if `package` is no table or `cpath` no string.
unfoldable pub find_luv_so : (List ℕ → Bool) → Option (List ℕ) → ℕ → Option (List ℕ)
unfolding scan_cpath
find_luv_so readable none out_size = none
find_luv_so readable (some cpath) out_size = scan_cpath readable out_size (length cpath) cpath

-- What stands in `loader.error`, with the path and the text of dlerror; none is the empty string.
pub data LoaderError : Type 0 where
  not_in_cpath : LoaderError
  not_opened : List ℕ → Option (List ℕ) → LoaderError
  missing_symbol : List ℕ → List ℕ → LoaderError

-- `luv_loader_t`. Addresses are 0 for NULL. `done` is the state of `loader_once`, and `closed` lists the
-- handles that dlclose has been called with.
pub record Loader : Type 0 where
  pub handle : ℕ
  pub luaopen_luv : ℕ
  pub luv_set_loop : ℕ
  pub path : List ℕ
  pub error : Option LoaderError
  pub status : ℕ
  pub prepared : Bool
  pub done : Bool
  pub closed : List ℕ

-- The loader as the program starts
abbrev pub fresh_loader : Loader
fresh_loader = record {
  handle = 0;
  luaopen_luv = 0;
  luv_set_loop = 0;
  path = [];
  error = none;
  status = 0;
  prepared = false;
  done = false;
  closed = [];
}

-- What dlsym answers: an address, or the text of dlerror.
pub data Symbol : Type 0 where
  address : ℕ → Symbol
  unknown : List ℕ → Symbol

-- What the dynamic linker answers: the handle of a path, 0 for NULL; the text of dlerror; the symbols.
pub record Linker : Type 0 where
  pub dlopen : List ℕ → ℕ
  pub dlerror : Option (List ℕ)
  pub dlsym_open : Symbol
  pub dlsym_set_loop : Symbol

-- The label `missing_symbol`
unfoldable pub symbol_missing : List ℕ → Loader → Loader
symbol_missing detail g = record g {
  error = some (missing_symbol g.path detail);
  status = enosys;
  closed = g.handle ∷ g.closed;
  handle = 0;
}

-- `initialize_loader`
unfoldable pub initialize_loader : Linker → Loader → Loader
unfolding symbol_missing
initialize_loader dl g =
    if not (g.status == 0)
    then g
    else if dl.dlopen g.path == 0
    then record g { handle = 0; error = some (not_opened g.path dl.dlerror); status = enoent }
    else elim dl.dlsym_open [
      | unknown detail ↦ symbol_missing detail (record g { handle = dl.dlopen g.path })
      | address f ↦ elim dl.dlsym_set_loop [
        | unknown detail ↦
            symbol_missing detail (record g { handle = dl.dlopen g.path; luaopen_luv = f })
        | address h ↦ record g { handle = dl.dlopen g.path; luaopen_luv = f; luv_set_loop = h }
      ]
    ]

-- The part of `luv_loader_prepare` under `loader_lock`. A search that fails may leave its last candidate in
-- `path`, which nobody reads then.
unfoldable pub prepare_path : (List ℕ → Bool) → Option (List ℕ) → Loader → Loader
unfolding find_luv_so
prepare_path readable cpath g =
    if g.prepared then g else elim (find_luv_so readable cpath path_max) [
      | none ↦ record g { status = enoent; error = some not_in_cpath; prepared = true }
      | some path ↦ record g { path = path; status = 0; prepared = true }
    ]

-- `pthread_once(&loader_once, initialize_loader)`, which succeeds
unfoldable pub once_loader : Linker → Loader → Loader
unfolding initialize_loader
once_loader dl g = if g.done then g else record (initialize_loader dl g) { done = true }

-- `luv_loader_prepare` for a state that is there: the result, and the loader.
unfoldable pub luv_loader_prepare : (List ℕ → Bool) → Option (List ℕ) → Linker → Loader → ℕ × Loader
unfolding prepare_path once_loader
luv_loader_prepare readable cpath dl g =
    let g' = once_loader dl (prepare_path readable cpath g) in (g'.status, g')

-- What a Lua value is, as far as the code asks
pub data LuaKind : Type 0 where
  table function other : LuaKind

abbrev pub is_table : LuaKind → Bool
is_table table = true
is_table _ = false

abbrev pub is_function : LuaKind → Bool
is_function function = true
is_function _ = false

-- What Lua answers to `service_load_luv`: the results of `luaopen_luv`, none if it raised an error, and
-- what `package` and `package.loaded` are.
pub record LuvModule : Type 0 where
  pub results : Option (List LuaKind)
  pub package_kind : LuaKind
  pub loaded : LuaKind

-- `cache_luv_module`: whether the module has been stored.
unfoldable pub cache_luv_module : LuvModule → Bool
cache_luv_module l = is_table l.package_kind && is_table l.loaded

-- The checks of `service_load_luv` behind the call
unfoldable pub check_module : LuvModule → Bool
unfolding cache_luv_module
check_module l = elim l.results [
  | none ↦ false
  | some kinds ↦ elim kinds [
    | [] ↦ false
    | kind ∷ more ↦ elim more [ [] ↦ is_table kind && cache_luv_module l | _ ↦ false ]
  ]
]

-- `service_load_luv` for a state and a loop that are there: the result of type int, none of whose values
-- is negative.
unfoldable pub service_load_luv :
    (List ℕ → Bool) → Option (List ℕ) → Linker → LuvModule → Loader → ℕ × Loader
unfolding luv_loader_prepare check_module
service_load_luv readable cpath dl l g =
    let (error, g') = luv_loader_prepare readable cpath dl g in
    if not (error == 0) then (error, g') else (if check_module l then 0 else einval, g')
