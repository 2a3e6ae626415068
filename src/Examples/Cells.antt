-- ===== src/Examples/Cells.antt =====
-- The theorems about pkg/cell at concrete inputs.
use ai_gateway_epp.Cell.Role.{
  role_primary, role_standby, state_draining, state_primary, role_eq, state_creating, state_standby,
  state_eq,
}
use ai_gateway_epp.Cell.Model.{World, get}
use ai_gateway_epp.Cell.Manager.{ensure, drop, demote, promote}
use ai_gateway_epp.Cell.Events.{
  step, run, ensures, drops, worker_take, drain_end, worker_takes, Event, configures,
}
use ai_gateway_epp.Cell.Apply.{apply_config, failed, compile_failed, swapped, unchanged}
use ai_gateway_epp.Cell.Compile.{new_engine}
use ai_gateway_epp.Cell.Reachable.{init, run_init-Inv}
use ai_gateway_epp.Base.{
  str_eq, insert, lookup, length, ◌≡◌, refl, ◌≢◌, none, some, [], arith, str_eq_instance, take_at,
  true, List, ◌∷◌, if◌then◌else◌, false, ◌+◌, ◌⊎◌, ◌||◌, ◌++◌, ℕ,
}
use ai_gateway_epp.Cell.Lifecycle.{apply_config_failure}
use ai_gateway_epp.Cell.Swapped.{apply_config_success, is_empty, waits_for, Retires}
use ai_gateway_epp.Cell.Invariant.{Inv}
use ai_gateway_epp.Cell.Progress.{drain_rounds, drop_completes}
use ai_gateway_epp.Examples.Worlds.{
  served, served_events, served-Inv, options, config_one, chat, config_two, config_bad, new_plane,
  code_pool,
}
use ai_gateway_epp.Cell.Teardown.{promoted_cancelled, reassigned_lost}
use ai_gateway_epp.Cell.Transitions.{ensure_new, ensure_live}

run_init-Inv_example : Inv (run options init served_events)
run_init-Inv_example = run_init-Inv options served_events

found : get served chat ≡ some 0
unfolding get lookup run step apply_config ensure insert str_eq
found = refl

is_primary : (served.cells 0).state ≡ state_primary
unfolding run step apply_config lookup ensure insert str_eq
is_primary = refl

is_live : (served.cells 0).state ≢ state_draining
is_live e = ground (arith, is_primary)

hashed : (served.cells 0).current_hash ≡ some config_one
unfolding run step apply_config lookup ensure insert str_eq
hashed = refl

engined : (served.cells 0).engine ≡ some 0
unfolding run step apply_config lookup ensure insert str_eq
engined = refl

one_engine : served.next_engine ≡ 1
unfolding run step apply_config lookup ensure insert str_eq
one_engine = refl

not_bad : (served.cells 0).current_hash ≢ some config_bad
not_bad e = ground (arith, hashed, e)

not_two : (served.cells 0).current_hash ≢ some config_two
not_two e = ground (arith, hashed, e)

bad_refused : (options.compile chat config_bad (served.cells 0).plane).1 ≡ none
unfolding str_eq
bad_refused = refl

two_compiled :
    (options.compile chat config_two (served.cells 0).plane).1 ≡ some (new_engine config_two [])
unfolding str_eq
two_compiled = refl

apply_config_failure_example :
    let (w', r) = apply_config options served chat config_bad in
    (r ≡ failed compile_failed)
    × (w'.metrics
        ≡ record served.metrics { reloads = served.metrics.reloads ++ (chat, false) ∷ [] })
    × (w'.registry ≡ served.registry)
    × (w'.engines ≡ served.engines)
    × (w'.next_engine ≡ served.next_engine)
    × (w'.queue ≡ served.queue)
    × (w'.draining ≡ served.draining)
    × (w'.awaits ≡ served.awaits)
    × (w'.cells 1 ≡ record (served.cells 1) { plane = (w'.cells 1).plane })
    × (◌≡◌ {A = ℕ} 1 0 ⊎ ((w'.cells 1).plane ≡ (served.cells 1).plane))
    × ((w'.cells 0).plane ≡ (options.compile chat config_bad (served.cells 0).plane).0)
    × ((apply_config options w' chat config_bad).1 ≢ unchanged)
apply_config_failure_example =
    apply_config_failure options served chat config_bad 0 found is_live 1 not_bad bad_refused

apply_config_success_example :
    let (w', r) = apply_config options served chat config_two in
    (r ≡ swapped)
    × (w'.engines served.next_engine ≡ new_engine config_two [])
    × (w'.next_engine ≡ served.next_engine + 1)
    × ((w'.cells 0).engine ≡ some served.next_engine)
    × ((w'.cells 0).current_hash ≡ some config_two)
    × ((w'.cells 0).role ≡ (served.cells 0).role)
    × ((w'.cells 0).ready ≡ is_empty [] || (served.cells 0).ready)
    × (w'.awaits ≡ served.awaits ++ waits_for 0 served.next_engine [])
    × Retires served w' 0 (served.cells 0).engine
    × (w'.metrics.reloads ≡ served.metrics.reloads ++ (chat, true) ∷ [])
    × (w'.registry ≡ served.registry)
    × (w'.draining ≡ served.draining)
    × (w'.cells 1 ≡ served.cells 1)
    × (w'.engines 5 ≡ served.engines 5)
apply_config_success_example =
    apply_config_success options served chat config_two 0 found is_live (new_engine config_two []) 1
      5 served-Inv not_two two_compiled (λ e. ground arith) (λ e. ground (arith, one_engine, e))
      (λ e. ground (arith, engined, e))

no_drains : served.draining ≡ []
unfolding run step apply_config lookup ensure insert str_eq
no_drains = refl

no_queue : served.queue ≡ []
unfolding run step apply_config lookup ensure insert str_eq
no_queue = refl

drop_completes_example :
    let w' = drop served chat in get (run options w' (drain_rounds (length w'.queue))) chat ≡ none
drop_completes_example =
    drop_completes options (omega arith) served chat 0 served-Inv no_drains found

ensure_live_example :
    let (w', d) = ensure options served chat role_standby in
    (d ≡ some 0)
    × (get w' chat ≡ some 0)
    × ((w'.cells 0).role ≡ role_standby)
    × ((w'.cells 0).engine ≡ (served.cells 0).engine)
    × ((w'.cells 0).state ≡ (
        if role_eq role_standby role_primary
        then state_primary
        else if state_eq (served.cells 0).state state_primary
        then state_standby
        else (served.cells 0).state))
ensure_live_example =
    ensure_live options served chat 0 found role_standby (λ e. ground arith) is_live
      (served-Inv.cells_inv 0)

no_code_pool : get served code_pool ≡ none
unfolding get lookup run step apply_config ensure insert str_eq
no_code_pool = refl

ensure_new_example :
    let (w', c) = ensure options served code_pool role_primary in
    (c ≡ some served.next_cell)
    × (get w' code_pool ≡ some served.next_cell)
    × ((w'.cells served.next_cell).role ≡ role_primary)
    × ((w'.cells served.next_cell).state
        ≡ (if role_eq role_primary role_primary then state_primary else state_creating))
    × ((w'.cells served.next_cell).engine ≡ none)
    × ((w'.cells served.next_cell).ready ≡ false)
ensure_new_example =
    ensure_new options served code_pool new_plane role_primary (λ e. ground arith) no_code_pool refl

can_cancel : (served.engines 0).has_cancel ≡ true
unfolding run step apply_config lookup ensure insert str_eq
can_cancel = refl

promoted_cancelled_example :
    let w' = promote (worker_take options (demote served chat)) chat in
    (apply_config options w' chat config_one ≡ (w', unchanged))
    × ((w'.cells 0).role ≡ role_primary)
    × ((w'.cells 0).engine ≡ some 0)
    × ((w'.engines 0).cancelled ≡ true)
promoted_cancelled_example =
    promoted_cancelled options served chat config_one 0 0 found engined is_primary hashed can_cancel
      no_queue (rw no_drains (omega arith))

-- The chat cell is dropped, and a worker waits for the requests of its engine.
abbrev dying_events : List Event
dying_events =
    ensures chat role_primary ∷ configures chat config_one ∷ drops chat ∷ worker_takes ∷ []

abbrev dying : World
dying = run options init dying_events

dying_found : get dying chat ≡ some 0
unfolding get lookup run step drop apply_config ensure insert str_eq
dying_found = refl

is_dying : (dying.cells 0).state ≡ state_draining
unfolding run step drop lookup apply_config ensure insert str_eq
is_dying = refl

taken : take_at 0 dying.draining ≡ some (record { cell = 0; eng = 0; teardown = true }, [])
unfolding take_at run step drop lookup apply_config ensure insert str_eq
taken = refl

reassigned_lost_example :
    let (w', d) = ensure options dying chat role_primary in
    (d ≡ some 0) × (get (drain_end w' 0 true) chat ≡ none)
reassigned_lost_example =
    reassigned_lost options dying chat role_primary 0 0
      (record { cell = 0; eng = 0; teardown = true }) [] (run_init-Inv options dying_events)
      dying_found is_dying taken refl refl
