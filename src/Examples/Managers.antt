-- ===== src/Examples/Managers.antt =====
-- The theorems about races, requests in flight and metrics of pkg/cell at concrete inputs.
use ai_gateway_epp.Base.{
  delete, str_eq, insert, lookup, Str, ℕ, ◌≤◌, ◌≡◌, ◌≢◌, refl, true, false, none, some, List, [],
  ◌∷◌, ◌++◌, arith, take_at, length, ◌⊎◌, if◌then◌else◌, ◌==◌, str_eq_instance,
}
use ai_gateway_epp.Cell.Apply.{track, apply_config}
use ai_gateway_epp.Cell.Events.{
  step, Event, run, ensures, configures, worker_takes, request_starts, request_ends, drops,
  drain_end, drain_ends,
}
use ai_gateway_epp.Cell.Gauges.{run-cell_state, cell_state}
use ai_gateway_epp.Cell.Inflight.{count, run_flights, ReturnsIdle, drain_end-run_flights}
use ai_gateway_epp.Cell.Manager.{drop, ensure, finish_drain}
use ai_gateway_epp.Cell.Promoted.{both_run-outcome, ensure-both_run, lost_schedule}
use ai_gateway_epp.Cell.Atomics.{both_run, begin_both, promoted, readied}
use ai_gateway_epp.Cell.Model.{DrainTask, get, World, fresh_cell, modify_cell, Cell}
use ai_gateway_epp.Cell.Race.{Race, race, holds, makes}
use ai_gateway_epp.Cell.Raced.{begin_race, race-agreed, race-settled}
use ai_gateway_epp.Cell.Reachable.{init}
use ai_gateway_epp.Cell.Retired.{apply_config-run_flights}
use ai_gateway_epp.Cell.Role.{
  role_primary, state_primary, state_standby, role_standby, state_creating,
}
use ai_gateway_epp.Cell.Versions.{run-versions_of, versions_of}
use ai_gateway_epp.Examples.Worlds.{options, chat, config_one, config_two, served_events, new_plane}
use ai_gateway_epp.Cell.Compile.{new_engine}

idle_engines : ReturnsIdle options
idle_engines key raw p eng built = ground (arith, built)

-- A request is in flight on the first engine when a worker takes up its drain.
abbrev swap_events : List Event
swap_events =
    ensures chat role_primary
    ∷ configures chat config_one
    ∷ request_starts 0 0
    ∷ configures chat config_two
    ∷ worker_takes
    ∷ []

abbrev swap_task : DrainTask
swap_task = record { cell = 0; eng = 0; teardown = false }

taken : take_at 0 (run options init swap_events).draining ≡ some (swap_task, [])
unfolding take_at run step apply_config lookup track ensure insert str_eq
taken = refl

drain_end-run_flights_example :
    let w = run options init swap_events in
    let l = run_flights options init [] swap_events in
    ((e : ℕ) → (w.engines e).wg ≡ count e l)
    × (drain_end w 0 false
        ≡ (if count 0 l == 0 then finish_drain (record w { draining = [] }) swap_task else w))
drain_end-run_flights_example =
    drain_end-run_flights options idle_engines swap_events 0 swap_task [] taken

-- One request is in flight, as the count of the first engine says.
one_flight : count 0 (run_flights options init [] swap_events) ≡ 1
unfolding count run_flights track step apply_config lookup ensure insert str_eq
one_flight = refl

abbrev busy_events : List Event
busy_events = ensures chat role_primary ∷ configures chat config_one ∷ request_starts 0 0 ∷ []

abbrev after_swap : List Event
after_swap = request_starts 0 0 ∷ request_ends 0 ∷ []

busy_found : get (run options init busy_events) chat ≡ some 0
unfolding get lookup run step track apply_config ensure insert str_eq
busy_found = refl

busy_state : ((run options init busy_events).cells 0).state ≡ state_primary
unfolding run step track apply_config lookup ensure insert str_eq
busy_state = refl

busy_engine : ((run options init busy_events).cells 0).engine ≡ some 0
unfolding run step track apply_config lookup ensure insert str_eq
busy_engine = refl

busy_hash : ((run options init busy_events).cells 0).current_hash ≡ some config_one
unfolding run step track apply_config lookup ensure insert str_eq
busy_hash = refl

busy_built :
    (options.compile chat config_two ((run options init busy_events).cells 0).plane).1
    ≡ some (new_engine config_two [])
unfolding str_eq
busy_built = refl

apply_config-run_flights_example :
    let w' = (apply_config options (run options init busy_events) chat config_two).0 in
    let l = run_flights options init [] busy_events in
    ((d : ℕ) → (w'.cells d).engine ≢ some 0)
    × (count 0 (run_flights options w' l after_swap) ≤ count 0 l)
apply_config-run_flights_example =
    apply_config-run_flights options busy_events after_swap chat config_two 0 0
      (new_engine config_two []) busy_found (λ e. ground (arith, busy_state, e)) busy_engine
      (λ e. ground (arith, busy_hash, e)) busy_built

-- Two calls for one key, whose steps alternate.
abbrev schedule : List ℕ
schedule = 0 ∷ 1 ∷ 0 ∷ 1 ∷ 0 ∷ 1 ∷ []

abbrev raced : Race
raced = race options (begin_race (run options init []) (λ i. chat)) schedule

first_holds : raced.phases 0 ≡ holds chat 0
unfolding race lookup run
first_holds = refl

second_holds : raced.phases 1 ≡ holds chat 0
unfolding race lookup run insert str_eq
second_holds = refl

race-agreed_example :
    (◌≡◌ {A = ℕ} 0 0) × (get raced.world chat ≡ some 0) × ((raced.world.cells 0).closed ≡ false)
race-agreed_example =
    race-agreed options [] (λ i. chat) schedule 0 1 chat 0 0 first_holds second_holds

all_stored : (i : ℕ) (k : Str) (c : ℕ) → raced.phases i ≢ makes k c
unfolding race lookup run
all_stored i k c e = ground (arith, e)

no_cells : (run options init []).next_cell ≡ 0
unfolding run
no_cells = refl

two_cells : raced.world.next_cell ≡ 2
unfolding race lookup run insert str_eq
two_cells = refl

race-settled_example :
    (get raced.world (raced.world.cells 1).key ≡ some 1) ⊎ ((raced.world.cells 1).closed ≡ true)
race-settled_example =
    race-settled options [] (λ i. chat) schedule 1 all_stored (rw no_cells (omega arith))
      (rw two_cells (omega arith))

served_found : get (run options init served_events) chat ≡ some 0
unfolding get lookup run step apply_config ensure insert str_eq
served_found = refl

served_engine : ((run options init served_events).cells 0).engine ≡ some 0
unfolding run step apply_config lookup ensure insert str_eq
served_engine = refl

run-versions_of_example :
    let w = run options init served_events in
    (versions_of chat w.metrics.current_versions ≡ (w.engines 0).version ∷ [])
    × ((k : Str) → length (versions_of k w.metrics.current_versions) ≤ 1)
run-versions_of_example = run-versions_of options served_events chat 0 0 served_found served_engine

-- The series of a cluster that is dropped for good stays.
dropped_version :
    let w =
      run options init (served_events ++ drops chat ∷ worker_takes ∷ drain_ends 0 true ∷ []) in
    (get w chat ≡ none) × (versions_of chat w.metrics.current_versions ≡ config_one ∷ [])
unfolding get lookup run step take_at drop apply_config ensure insert str_eq delete versions_of
dropped_version = (refl, refl)

one_cell : (run options init served_events).next_cell ≡ 1
unfolding run step apply_config lookup ensure insert str_eq
one_cell = refl

run-cell_state_example :
    let w = run options init served_events in
    let x = w.cells 0 in
    (cell_state w x.key x.role x.state ≡ true)
    × (cell_state (run options w (drops chat ∷ [])) x.key x.role x.state ≡ true)
run-cell_state_example =
    run-cell_state options served_events (drops chat ∷ []) 0 (rw one_cell (omega arith))

abbrev young_events : List Event
young_events = ensures chat role_standby ∷ []

abbrev young : World
young = run options init young_events

young_found : get young chat ≡ some 0
unfolding get lookup run step ensure insert str_eq
young_found = refl

young_state : (young.cells 0).state ≡ state_creating
unfolding run step ensure lookup
young_state = refl

young_unready : (young.cells 0).ready ≡ false
unfolding run step ensure lookup
young_unready = refl

ensure-both_run_example :
    let x = (both_run 5 (begin_both (young.cells 0)) lost_schedule).cell in
    let u = modify_cell young 0 (λ _. x) in
    (x.role ≡ role_primary)
    × (x.state ≡ state_standby)
    × (ensure options u chat role_primary ≡ (u, some 0))
ensure-both_run_example =
    ensure-both_run options young chat 0 5 young_found young_state young_unready

abbrev new_cell : Cell
new_cell = fresh_cell chat new_plane

both_over :
    ((both_run 5 (begin_both new_cell) lost_schedule).promoting ≡ promoted)
    × ((both_run 5 (begin_both new_cell) lost_schedule).readying ≡ readied)
unfolding both_run
both_over = (refl, refl)

both_run-outcome_example :
    let y = (both_run 5 (begin_both new_cell) lost_schedule).cell in
    (y.ready ≡ true)
    × (y.role ≡ role_primary)
    × ((y.state ≡ state_primary) ⊎ (y.state ≡ state_standby))
both_run-outcome_example =
    both_run-outcome 5 new_cell lost_schedule (λ e. ground (arith, e)) both_over.0 both_over.1
