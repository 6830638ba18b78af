-- ===== src/Binding/Open/Tests.antt =====
-- A library without one of luv's functions.
use service_lua.Base.{ℕ, ◌≡◌, refl, Bool, none, some, List, length, ◌==◌}
use service_lua.Log.{codes}
use service_lua.Luv.{
  Linker, address, unknown, fresh_loader, missing_symbol, find_luv_so, scan_cpath,
  readable_candidate, candidate, split_at, luv_loader_prepare,
}
use service_lua.Luv.Once.{IsShut, IsShut}
use service_lua.Binding.Open.{failed, luaopen_service_c}

abbrev readable : List ℕ → Bool
readable path = length path == 8

abbrev without_set_loop : Linker
without_set_loop = record {
  dlopen = λ path. 5;
  dlerror = none;
  dlsym_open = address 6;
  dlsym_set_loop = unknown (codes "no luv_set_loop");
}

fails :
    (luaopen_service_c readable (some (codes "./?.so")) without_set_loop fresh_loader).0
    ≡ failed (some (missing_symbol (codes "./luv.so") (codes "no luv_set_loop")))
unfolding luaopen_service_c find_luv_so scan_cpath readable_candidate candidate split_at
    luv_loader_prepare
fails = refl
