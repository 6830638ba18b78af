-- ===== src/Service/Start/Tests.antt =====
-- A service whose thread starts, and is stopped before its Lua state is set up.
use service_lua.Base.{◌≡◌, refl, true, some, ◌++◌, pos}
use service_lua.Luv.{table, function}
use service_lua.Service.Types.{Service, ecanceled}
use service_lua.Service.Life.{start_begin, thread_ready, service_init_loop}
use service_lua.Service.Drain.Tests.{busy}
use service_lua.Service.Init.{LoadStatus, Called, service_init_lua}
use service_lua.Service.Init.Config.{held}
use service_lua.Service.Start.{StartEnv, service_start}
use service_lua.Service.Start.Outcome.{Started, service_start-Started}

abbrev configured : Service
configured = record busy { config = 12 }

abbrev call : Called
call = record {
  required = record { require = function; returned = some table };
  field = function;
  returned = some function;
}

abbrev starting : StartEnv
starting = record {
  created = 0;
  loop_error = 0;
  inbox_error = 0;
  control_error = 0;
  init = record {
    newstate_ok = true;
    status = LoadStatus.loaded;
    luv = pos 0;
    input = call;
    chunk = some table;
    dispatch = call;
  };
  before = λ s. s;
  behind = λ s. s;
}

abbrev stopped_early : StartEnv
stopped_early = record starting { before = λ s. record s { stop_requested = true } }

starts : (service_start starting configured).0 ≡ 0
unfolding service_start start_begin thread_ready service_init_loop service_init_lua
starts = refl

cancelled : (service_start stopped_early configured).0 ≡ ecanceled
unfolding service_start start_begin thread_ready service_init_loop
cancelled = refl

service_start-Started_example :
    let (error, s, freed) = service_start starting configured in
    Started 0 configured error s × (freed ++ held s ≡ held configured)
service_start-Started_example = service_start-Started starting configured ((λ s. refl), (λ s. refl))
