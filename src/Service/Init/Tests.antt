-- ===== src/Service/Init/Tests.antt =====
-- A service with a configuration whose chunk fails, and one that leaves two handles open.
use service_lua.Base.{◌≡◌, ◌≢◌, ◌⊎◌, ◌↔◌, refl, true, false, none, some, [], ◌∷◌, ◌++◌, pos}
use service_lua.Luv.{table, function}
use service_lua.Service.Types.{Service, einval}
use service_lua.Service.Drain.Tests.{busy}
use service_lua.Service.Init.{LoadStatus, Called, InitEnv, service_init_lua, free_config}
use service_lua.Service.Init.Config.{held, service_init_lua-held}
use service_lua.Service.Init.Handles.{LuvTable, service_close_luv_handles}
use service_lua.Service.Init.Handles.Closed.{closed_ids, all_fine, service_close_luv_handles_lem}

abbrev configured : Service
configured = record busy { config = 12 }

abbrev call : Called
call = record {
  required = record { require = function; returned = some table };
  field = function;
  returned = some function;
}

abbrev failing : InitEnv
failing = record {
  newstate_ok = true;
  status = LoadStatus.loaded;
  luv = pos 0;
  input = call;
  chunk = none;
  dispatch = call;
}

init_fails :
    service_init_lua failing configured ≡ (einval, record configured { config = 0 }, 12 ∷ [])
unfolding service_init_lua free_config
init_fails = refl

service_init_lua-held_example :
    let (error, s, freed) = service_init_lua failing configured in
    (freed ++ held s ≡ held configured) × ((error ≢ 0) ⊎ (held s ≡ []))
service_init_lua-held_example = service_init_lua-held failing configured

-- The second one cannot be closed.
abbrev left_open : LuvTable
left_open = record {
  package_kind = table;
  loaded = table;
  luv = table;
  walk = function;
  is_closing = function;
  close = function;
  walk_ok = true;
  handles =
      record { id = 1; closing = some true; closes = true }
      ∷ record { id = 2; closing = some false; closes = false }
      ∷ record { id = 3; closing = some false; closes = true }
      ∷ [];
}

close_runs : service_close_luv_handles true left_open ≡ (einval, 3 ∷ [])
unfolding service_close_luv_handles
close_runs = refl

service_close_luv_handles_lem_example :
    let (error, closed) = service_close_luv_handles true left_open in
    (closed ≡ closed_ids left_open.handles)
    × ((error ≡ 0) ↔ ((left_open.walk_ok ≡ true) × (all_fine left_open.handles ≡ true)))
service_close_luv_handles_lem_example = service_close_luv_handles_lem left_open refl
