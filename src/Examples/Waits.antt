-- ===== src/Examples/Waits.antt =====
-- The theorems about the wait for ready cells at concrete inputs.
use ai_gateway_epp.Base.{
  str_eq, insert, lookup, ℕ, ◌≡◌, refl, true, false, some, List, [], ◌∷◌, arith, str_eq_instance,
}
use ai_gateway_epp.Cell.Apply.{apply_config}
use ai_gateway_epp.Cell.Events.{step, Event, run, ensures, configures}
use ai_gateway_epp.Cell.Manager.{ensure, Options}
use ai_gateway_epp.Cell.Model.{get, World}
use ai_gateway_epp.Cell.Reachable.{init}
use ai_gateway_epp.Cell.Role.{role_primary}
use ai_gateway_epp.Cell.Eventually.{channels}
use ai_gateway_epp.Cell.Awaited.{run-wait_ready, opened}
use ai_gateway_epp.Cell.WaitReady.{Poll, PollLaws, Look, wait_ready, all_found, not_yet, cut_off}
use ai_gateway_epp.Examples.Worlds.{options, chat, config_one, new_plane}
use ai_gateway_epp.Cell.Compile.{new_engine}

-- A discovery plugin with two channels: the cell waits until both are closed.
abbrev slow_options : Options
slow_options = record options {
  compile = λ key raw plane. (new_plane, some (new_engine raw (4 ∷ 7 ∷ [])));
}

abbrev slow_events : List Event
slow_events = ensures chat role_primary ∷ configures chat config_one ∷ []

abbrev slow : World
slow = run slow_options init slow_events

slow_waits : ((slow.cells 0).ready ≡ false) × (channels slow.awaits ≡ 2)
unfolding run step apply_config lookup ensure insert str_eq channels
slow_waits = (refl, refl)

slow_found : get slow chat ≡ some 0
unfolding get lookup run step apply_config ensure insert str_eq
slow_found = refl

slow_engine : ((slow.cells 0).engine ≡ some 0) × ((slow.engines 0).cancelled ≡ false)
unfolding run step apply_config lookup ensure insert str_eq
slow_engine = (refl, refl)

-- A polling that looks only once.
abbrev look_once : Poll
look_once interval timeout immediate f = elim (f 0) [
  | all_found ↦ true
  | not_yet ↦ false
  | cut_off ↦ false
]

look_once-PollLaws : PollLaws look_once
look_once-PollLaws = record {
  finds =
      λ interval timeout immediate f h. (0, ground (arith, h), λ j b. absurd (omega (arith, b)));
  at_once = λ interval timeout f h. ground (arith, h);
}

abbrev looks : ℕ → Look
looks i = record { world = opened slow_options slow_events; ctx_done = false; picks_ready = true }

run-wait_ready_example : wait_ready look_once (chat ∷ []) looks ≡ true
run-wait_ready_example =
    run-wait_ready slow_options slow_events look_once (chat ∷ []) looks look_once-PollLaws
      ((0, 0, slow_found, slow_engine.0, slow_engine.1), tt) refl refl
