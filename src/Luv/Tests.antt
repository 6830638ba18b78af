-- ===== src/Luv/Tests.antt =====
-- A cpath of two templates, the second of which is there.
use service_lua.Base.{ℕ, ◌≡◌, refl, Bool, none, some, List, [], ◌∷◌, length, ◌==◌}
use service_lua.Luv.{
  Linker, address, unknown, fresh_loader, find_luv_so, luv_loader_prepare, path_max, split_at,
  candidate, readable_candidate, scan_cpath,
}
use service_lua.Luv.Once.{luv_loader_prepare_once, Outcome, luv_loader_prepare-Outcome}

-- "x?;./?.so"
abbrev cpath : List ℕ
cpath = 120 ∷ 63 ∷ 59 ∷ 46 ∷ 47 ∷ 63 ∷ 46 ∷ 115 ∷ 111 ∷ []

-- Only paths of eight bytes can be read: "./luv.so" and not "xluv".
abbrev readable : List ℕ → Bool
readable path = length path == 8

abbrev linker : Linker
linker = record {
  dlopen = λ path. 5;
  dlerror = none;
  dlsym_open = address 6;
  dlsym_set_loop = address 7;
}

abbrev broken : Linker
broken = record linker { dlsym_set_loop = unknown (110 ∷ []) }

second_template :
    find_luv_so readable (some cpath) path_max
    ≡ some (46 ∷ 47 ∷ 108 ∷ 117 ∷ 118 ∷ 46 ∷ 115 ∷ 111 ∷ [])
unfolding find_luv_so scan_cpath readable_candidate candidate split_at
second_template = refl

prepared : (luv_loader_prepare readable (some cpath) linker fresh_loader).0 ≡ 0
unfolding luv_loader_prepare find_luv_so scan_cpath readable_candidate candidate split_at
prepared = refl

prepared_twice :
    luv_loader_prepare readable none linker
      (luv_loader_prepare readable (some cpath) broken fresh_loader).1
    ≡ luv_loader_prepare readable (some cpath) broken fresh_loader
prepared_twice =
    luv_loader_prepare_once readable readable (some cpath) none broken linker fresh_loader

broken_prepare :
    let (error, g) = luv_loader_prepare readable (some cpath) broken fresh_loader in
    Outcome readable (some cpath) broken error g
broken_prepare = luv_loader_prepare-Outcome readable (some cpath) broken
