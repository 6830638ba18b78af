-- ===== src/Luv/Once.antt =====
-- The loader is set up once, and is ready to be called when it says so.
use service_lua.Base.{
  ℕ, ◌≡◌, ◌≢◌, ◌⊎◌, refl, ap, sym, subst, ◌∙◌, Bool, true, false, Option, none, some, List, [], ◌∷◌,
  if◌then◌else◌, ◌==◌, arith, inl, inr,
}
use native.Mathlib.Decide.{ℕ_discrete}
use service_lua.Luv.{
  not_in_cpath, enoent, Loader, fresh_loader, Symbol, Linker, address, unknown, path_max,
  find_luv_so, symbol_missing, initialize_loader, prepare_path, once_loader, luv_loader_prepare,
}

prepare_path-prepared :
    (readable : List ℕ → Bool) (cpath : Option (List ℕ)) (g : Loader)
    → (prepare_path readable cpath g).prepared ≡ true
unfolding prepare_path
prepare_path-prepared readable cpath g = ground arith

initialize_loader-prepared :
    (dl : Linker) (g : Loader) → (initialize_loader dl g).prepared ≡ g.prepared
unfolding initialize_loader
initialize_loader-prepared dl g = ground arith

once_loader-settled :
    (dl : Linker) (g : Loader)
    → g.prepared ≡ true
    → ((once_loader dl g).prepared ≡ true) × ((once_loader dl g).done ≡ true)
unfolding once_loader
once_loader-settled dl g h = ground (arith, initialize_loader-prepared dl g)

prepare_path-again :
    (readable : List ℕ → Bool) (cpath : Option (List ℕ)) (g : Loader)
    → g.prepared ≡ true
    → prepare_path readable cpath g ≡ g
unfolding prepare_path
prepare_path-again readable cpath g h = ground arith

once_loader-again : (dl : Linker) (g : Loader) → g.done ≡ true → once_loader dl g ≡ g
unfolding once_loader
once_loader-again dl g h = ground arith

-- Once the loader has been prepared, every later `luv_loader_prepare` returns what the first one did and
-- changes nothing, whatever the cpath, the files and the linker are by then.
pub luv_loader_prepare_once :
    (readable readable' : List ℕ → Bool) (cpath cpath' : Option (List ℕ)) (dl dl' : Linker)
    (g : Loader)
    → luv_loader_prepare readable' cpath' dl' (luv_loader_prepare readable cpath dl g).1
      ≡ luv_loader_prepare readable cpath dl g
unfolding luv_loader_prepare
luv_loader_prepare_once readable readable' cpath cpath' dl dl' g =
    let (prepared, done) =
      once_loader-settled dl (prepare_path readable cpath g)
        (prepare_path-prepared readable cpath g) in
    settled (once_loader dl (prepare_path readable cpath g)) prepared done
  where
    settled :
        (h : Loader)
        → h.prepared ≡ true
        → h.done ≡ true
        → ◌≡◌ {A = ℕ × Loader}
            (
              (once_loader dl' (prepare_path readable' cpath' h)).status,
              once_loader dl' (prepare_path readable' cpath' h),
            )
            (h.status, h)
    settled h p d =
        ap (λ (x : Loader). (x.status, x))
          (ap (once_loader dl') (prepare_path-again readable' cpath' h p)
            ∙ once_loader-again dl' h d)

-- The loader may be used: its library is open, at the path that the search found, and both functions are
-- those of the library.
pub record IsReady (readable : List ℕ → Bool) (cpath : Option (List ℕ)) (dl : Linker) (g : Loader)
    : Type 0 where
  pub found : find_luv_so readable cpath path_max ≡ some g.path
  pub opened : g.handle ≡ dl.dlopen g.path
  pub is_open : g.handle ≢ 0
  pub kept : g.closed ≡ []
  pub has_open : dl.dlsym_open ≡ address g.luaopen_luv
  pub has_set_loop : dl.dlsym_set_loop ≡ address g.luv_set_loop

-- The loader once the search has found a path
abbrev at_path : List ℕ → Loader
at_path path = record fresh_loader { path = path; prepared = true }

abbrev pub handle_at : Linker → Option (List ℕ) → List ℕ
handle_at dl none = []
handle_at dl (some path) = if dl.dlopen path == 0 then [] else dl.dlopen path ∷ []

-- The handle of the library at the path that the search finds, if dlopen gives one
abbrev pub opened_handle : (List ℕ → Bool) → Option (List ℕ) → Linker → List ℕ
opened_handle readable cpath dl = handle_at dl (find_luv_so readable cpath path_max)

-- The loader has no handle, and has closed the one that it opened.
abbrev pub IsShut : (List ℕ → Bool) → Option (List ℕ) → Linker → Loader → Type 0
IsShut readable cpath dl g = (g.handle ≡ 0) × (g.closed ≡ opened_handle readable cpath dl)

-- What `luv_loader_prepare` comes to
abbrev pub Outcome : (List ℕ → Bool) → Option (List ℕ) → Linker → ℕ → Loader → Type 0
Outcome readable cpath dl error g =
    ((error ≡ 0) × IsReady readable cpath dl g) ⊎ ((error ≢ 0) × IsShut readable cpath dl g)

module _ (readable : List ℕ → Bool) (cpath : Option (List ℕ)) (dl : Linker) where
  loaded : List ℕ → Loader
  loaded path = initialize_loader dl (at_path path)

  shut : (path : List ℕ) → dl.dlopen path ≢ 0 → (dl.dlopen path == 0) ≡ false
  shut path h = ground arith

  module _ (path : List ℕ) (opened : dl.dlopen path ≢ 0) where
    loaded-first :
        (detail : List ℕ)
        → dl.dlsym_open ≡ unknown detail
        → loaded path ≡ symbol_missing detail (record (at_path path) { handle = dl.dlopen path })
    unfolding loaded initialize_loader
    loaded-first detail e = rw (shut path opened, e)

    loaded-second :
        (f : ℕ) (detail : List ℕ)
        → dl.dlsym_open ≡ address f
        → dl.dlsym_set_loop ≡ unknown detail
        → loaded path
          ≡ symbol_missing detail
              (record (at_path path) { handle = dl.dlopen path; luaopen_luv = f })
    unfolding loaded initialize_loader
    loaded-second f detail e e' = rw (shut path opened, e, e')

    loaded-both :
        (f h : ℕ)
        → dl.dlsym_open ≡ address f
        → dl.dlsym_set_loop ≡ address h
        → loaded path
          ≡ record (at_path path) { handle = dl.dlopen path; luaopen_luv = f; luv_set_loop = h }
    unfolding loaded initialize_loader
    loaded-both f h e e' = rw (shut path opened, e, e')

    opened_handle-shut :
        find_luv_so readable cpath path_max ≡ some path
        → dl.dlopen path ∷ [] ≡ opened_handle readable cpath dl
    opened_handle-shut found = sym (ap (handle_at dl) found ∙ rw (shut path opened) refl)

    loaded-Outcome :
        (open_answer set_answer : Symbol)
        → find_luv_so readable cpath path_max ≡ some path
        → dl.dlsym_open ≡ open_answer
        → dl.dlsym_set_loop ≡ set_answer
        → Outcome readable cpath dl (loaded path).status (loaded path)
    unfolding symbol_missing
    loaded-Outcome (unknown detail) set_answer found e e' =
        rw (loaded-first detail e) (inr (λ z. cc z, (refl, opened_handle-shut found)))
    loaded-Outcome (address f) (unknown detail) found e e' =
        rw (loaded-second f detail e e') (inr (λ z. cc z, (refl, opened_handle-shut found)))
    loaded-Outcome (address f) (address h) found e e' = rw (loaded-both f h e e') (
        inl (
          refl,
          record {
            found = found;
            opened = refl;
            is_open = opened;
            kept = refl;
            has_open = e;
            has_set_loop = e';
          },
        ))

  not_loaded-Outcome :
      (path : List ℕ)
      → find_luv_so readable cpath path_max ≡ some path
      → dl.dlopen path ≡ 0
      → Outcome readable cpath dl (loaded path).status (loaded path)
  unfolding loaded initialize_loader
  not_loaded-Outcome path found null =
      rw null (inr (λ z. cc z, (refl, sym (ap (handle_at dl) found ∙ rw null refl))))

  path-Outcome :
      (path : List ℕ)
      → find_luv_so readable cpath path_max ≡ some path
      → Outcome readable cpath dl (loaded path).status (loaded path)
  path-Outcome path found = elim (ℕ_discrete (dl.dlopen path) 0) [
    | yes null ↦ not_loaded-Outcome path found null
    | no opened ↦ loaded-Outcome path opened dl.dlsym_open dl.dlsym_set_loop found refl refl
  ]

  done-Outcome :
      (error : ℕ) (g : Loader)
      → Outcome readable cpath dl error g
      → Outcome readable cpath dl error (record g { done = true })
  done-Outcome error g (inl (z, r)) = inl (
    z,
    record {
      found = r.found;
      opened = r.opened;
      is_open = r.is_open;
      kept = r.kept;
      has_open = r.has_open;
      has_set_loop = r.has_set_loop;
    },
  )
  done-Outcome error g (inr h) = inr h

  prepare_path-some :
      (path : List ℕ)
      → find_luv_so readable cpath path_max ≡ some path
      → prepare_path readable cpath fresh_loader ≡ at_path path
  unfolding prepare_path
  prepare_path-some path found = rw found

  prepare_path-none :
      find_luv_so readable cpath path_max ≡ none
      → prepare_path readable cpath fresh_loader
        ≡ record fresh_loader { status = enoent; error = some not_in_cpath; prepared = true }
  unfolding prepare_path
  prepare_path-none nothing = rw nothing

  once_loader-at_path :
      (path : List ℕ) → once_loader dl (at_path path) ≡ record (loaded path) { done = true }
  unfolding once_loader loaded
  once_loader-at_path path = refl

  prepared-Outcome :
      (o : Option (List ℕ))
      → find_luv_so readable cpath path_max ≡ o
      → let g = once_loader dl (prepare_path readable cpath fresh_loader) in
        Outcome readable cpath dl g.status g
  unfolding once_loader initialize_loader
  prepared-Outcome none e =
      rw (prepare_path-none e) (inr (λ z. cc z, (refl, sym (ap (handle_at dl) e))))
  prepared-Outcome (some path) e =
      subst (λ (g : Loader). Outcome readable cpath dl g.status g)
        (sym (ap (once_loader dl) (prepare_path-some path e) ∙ once_loader-at_path path))
        (done-Outcome (loaded path).status (loaded path) (path-Outcome path e))

-- From the start of the program, `luv_loader_prepare` returns 0 if the search found a path, the library
-- there could be opened, and it has both functions, which the loader then holds; otherwise it returns an
-- error, and a library that was opened has been closed, once.
pub luv_loader_prepare-Outcome :
    (readable : List ℕ → Bool) (cpath : Option (List ℕ)) (dl : Linker)
    → let (error, g) = luv_loader_prepare readable cpath dl fresh_loader in
      Outcome readable cpath dl error g
unfolding luv_loader_prepare
luv_loader_prepare-Outcome readable cpath dl =
    prepared-Outcome readable cpath dl (find_luv_so readable cpath path_max) refl
