-- ===== src/Examples/Serving.antt =====
-- The theorems about cmd/epp that put the parts together, at concrete inputs.
use ai_gateway_epp.Poller.Assignment.{resolve_role}
use ai_gateway_epp.Base.{
  take_at, str_eq, Str, codes, ℕ, ◌≡◌, ◌≢◌, ◌⊎◌, refl, Bool, true, false, Option, none, some, List,
  [], ◌∷◌, arith, inr, lookup, str_eq_instance,
}
use ai_gateway_epp.Cell.Compile.{Router}
use ai_gateway_epp.Cell.Model.{Plane, get}
use ai_gateway_epp.Cell.Tagged.{ReturnsHashed}
use ai_gateway_epp.Cmd.Compose.{plaintext, compose}
use ai_gateway_epp.Cmd.Config.{Config, parse_config}
use ai_gateway_epp.Cmd.Ended.{run_result-cause}
use ai_gateway_epp.Cmd.Ends.{run_result-clean_ends}
use ai_gateway_epp.Cmd.Launch.{
  Started, started, run_epp, discovery_loop, readiness_gate, health_server, epp_data_loop,
  metrics_server, ext_proc_server,
}
use ai_gateway_epp.Cmd.Serving.{handled, process-handle_data}
use ai_gateway_epp.Cmd.Shutdown.{
  Group, GroupLaws, RunEvent, Returned, waiting, run_events, run_result, clean_ends, first_error,
  RunError, signal, task_ends, metrics_error, context_done, server_stopped, no_listener,
}
use ai_gateway_epp.Demux.Requests.{tagged}
use ai_gateway_epp.Demux.Server.{process, answer, choose_pool, extract_pool}
use ai_gateway_epp.Examples.Polls.{self, snapshot_one}
use ai_gateway_epp.Examples.Requests.{calm, request}
use ai_gateway_epp.Examples.Worlds.{options, chat, config_one}
use ai_gateway_epp.Poller.Endpoints.{HasDistinctKeys}
use ai_gateway_epp.Poller.Watcher.{handle_data}
use ai_gateway_epp.Poller.Handled.{assigned_role}
use ai_gateway_epp.Cell.Role.{role_primary, state_primary}
use ai_gateway_epp.Cell.Reachable.{init}
use ai_gateway_epp.Cell.Events.{run}

hashed_engines : ReturnsHashed options
hashed_engines key raw p eng built = ground (arith, built)

one_good : (handle_data options self (run options init []) snapshot_one).1 ≡ true
unfolding handle_data run
one_good = refl

one_distinct : HasDistinctKeys snapshot_one.assignment
unfolding lookup
one_distinct = (refl, tt)

one_distinct_configs : HasDistinctKeys snapshot_one.epp_config
unfolding lookup
one_distinct_configs = (refl, tt)

one_primary : assigned_role self snapshot_one.assignment chat ≡ some role_primary
unfolding lookup str_eq resolve_role
one_primary = refl

one_given : lookup chat snapshot_one.epp_config ≡ some config_one
unfolding lookup str_eq
one_given = refl

one_compiles : (p : Plane) → (options.compile chat config_one p).1 ≢ none
unfolding str_eq
one_compiles p e = ground (arith, e)

one_found : get (handled options [] self snapshot_one) chat ≡ some 0
unfolding get lookup handle_data run
one_found = refl

one_state : ((handled options [] self snapshot_one).cells 0).state ≡ state_primary
unfolding handle_data run
one_state = refl

request_for_chat : choose_pool (extract_pool request) calm.default_pool ≡ some chat
unfolding choose_pool extract_pool str_eq
request_for_chat = refl

process-handle_data_example :
    let w = handled options [] self snapshot_one in
    let m' = tagged calm w request none refl in
    (e : ℕ) × ((w.engines e).version ≡ config_one)
    × ((process calm w (inr request)).1 ≡ answer e m' (calm.serve e m'))
process-handle_data_example =
    process-handle_data options [] self snapshot_one hashed_engines chat config_one 0 one_good
      one_distinct one_distinct_configs one_primary one_given one_compiles one_found
      (λ e. ground (arith, one_state, e)) calm request none refl request_for_chat refl

-- An error group: whether its context is done, and its first error.
abbrev first_of : Option RunError → Option RunError → Option RunError
first_of none x = x
first_of (some e) x = some e

abbrev ends_context : Bool → Option RunError → Bool
ends_context b none = b
ends_context b (some e) = true

abbrev group : Group (Bool × Option RunError)
group = record {
  with_context = (false, none);
  is_done = λ x. x.0;
  error = λ x. x.1;
  returned = λ x r. (ends_context x.0 r, first_of x.1 r);
  cancelled = λ x. (true, x.1);
}

none_after : (x : Option RunError) → first_of x none ≡ x
none_after none = refl
none_after (some e) = refl

some_after :
    (x : Option RunError) (e : RunError)
    → first_of x (some e) ≡ (elim x [ none ↦ some e | some d ↦ some d ])
some_after none e = refl
some_after (some d) e = refl

group_laws : GroupLaws group
group_laws = record {
  new_open = refl;
  new_clean = refl;
  clean_done = λ x. refl;
  clean_error = λ x. none_after x.1;
  failed_done = λ x e. refl;
  failed_error = λ x e. some_after x.1 e;
  cancelled_done = λ x. refl;
  cancelled_error = λ x. refl;
}

-- No text flag is given, and the environment has no variable.
abbrev bare : Config
bare =
    parse_config (record { environment = λ name. []; hostname = some (codes "node") })
      (record { text = λ name. none; number = λ name. none; switch = λ name. none })

abbrev stub_router : Router
stub_router = record {
  load_raw_config = λ raw. none;
  instantiate = λ conf. none;
  create_missing_producers = λ ps. some ps;
  register_dependencies = λ p. true;
  order_dependencies = λ ps. true;
  is_stable = λ b ps. true;
  configure = λ c. true;
  find_plugin = λ ps r. none;
  sum256_hex = λ raw. raw;
}

abbrev load_none : Str → Str → Option ℕ
load_none cert key = none

abbrev join : Str → Str → Str
join dir name = name

abbrev bare_run : Started ℕ
bare_run = record {
  parts = compose join stub_router bare;
  server_opts = plaintext;
  tasks =
      ext_proc_server bare.bind_address bare.grpc_port
      ∷ health_server bare.bind_address bare.health_port
      ∷ metrics_server bare.bind_address bare.metrics_port
      ∷ discovery_loop
      ∷ epp_data_loop
      ∷ readiness_gate
      ∷ [];
}

bare_launched : run_epp load_none join stub_router bare false false ≡ started bare_run
unfolding run_epp parse_config
bare_launched = refl

-- The metrics server cannot bind, and the other goroutines end after it.
abbrev failing_run : List RunEvent
failing_run = task_ends 2 (no_listener 98) ∷ []

abbrev whole_run : List RunEvent
whole_run =
    task_ends 2 (no_listener 98)
    ∷ task_ends 0 server_stopped
    ∷ task_ends 0 server_stopped
    ∷ task_ends 0 context_done
    ∷ task_ends 0 context_done
    ∷ task_ends 0 context_done
    ∷ []

abbrev failed_run : Returned
failed_run = record {
  ext_proc_stopped = true;
  health_stopped = true;
  result = some (metrics_error 98);
}

whole_ends :
    run_result group (run_events group (waiting group bare_run.tasks) whole_run) ≡ some failed_run
unfolding run_result run_events take_at
whole_ends = refl

run_result-cause_example :
    (failed_run.ext_proc_stopped ≡ true)
    × (failed_run.health_stopped ≡ true)
    × (((run_events group (waiting group bare_run.tasks) whole_run).signalled ≡ true)
        ⊎ (failed_run.result ≢ none))
run_result-cause_example =
    run_result-cause group group_laws load_none join stub_router bare false false bare_run
      bare_launched whole_run failed_run whole_ends

failing_done :
    group.is_done (run_events group (waiting group bare_run.tasks) failing_run).group ≡ true
unfolding run_events take_at
failing_done = refl

run_result-clean_ends_example :
    let r = run_events group (waiting group bare_run.tasks) failing_run in
    let q = run_events group r (signal ∷ []) in
    run_result group (run_events group q (clean_ends q.live))
    ≡ some (record {
      ext_proc_stopped = true;
      health_stopped = true;
      result = first_error (group.error r.group) (group.error q.group);
    })
run_result-clean_ends_example =
    run_result-clean_ends group group_laws bare_run.tasks failing_run (signal ∷ []) failing_done
