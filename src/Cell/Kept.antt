-- ===== src/Cell/Kept.antt =====
-- pkg/cell: how a property of a manager is carried over all events. It has to be kept by the elementary
-- changes and by a store to the request counter of an engine.
use ai_gateway_epp.Cell.Moves.{Moves-keep, Move}
use ai_gateway_epp.Cell.Apply.{track, done}
use ai_gateway_epp.Cell.Model.{modify_engine, World}
use ai_gateway_epp.Cell.Stepped.{step-Moves, is_request}
use ai_gateway_epp.Cell.Events.{
  step, channel_ready, await_quits, promotes, ensures, clock_moves, run, worker_takes, drops, Event,
  request_end, request_starts, demotes, drain_ends, configures, request_ends,
}
use ai_gateway_epp.Cell.Manager.{Options}
use ai_gateway_epp.Base.{
  ℕ, ◌+◌, refl, inl, inr, List, [], ◌∷◌, Option-cases, Bool-cases, ◌==◌, ◌≡◌, false,
}

abbrev pub set_wg : World → ℕ → ℕ → World
set_wg w e n = modify_engine w e (λ g. record g { wg = n })

module _ {ℓ} (o : Options) (P : World → Type ℓ) (moved : (w u : World) → Move o w u → P w → P u)
    (counted : (w : World) (e n : ℕ) → P w → P (set_wg w e n)) where
  track-keep : (w : World) (c e : ℕ) → P w → P (track w c e).0
  unfolding track
  track-keep w c e p =
      let one : P (set_wg w e ((w.engines e).wg + 1)) = counted w e _ p in
      let none_left = counted (set_wg w e ((w.engines e).wg + 1)) e _ one in
      elim (Option-cases (w.cells c).engine) [
        | inl idle ↦ rw (idle, track) none_left
        | inr (d, busy) ↦ elim (Bool-cases (d == e)) [
          | inl same ↦ rw (busy, track, same) one
          | inr other ↦ rw (busy, track, other) none_left
        ]
      ]

  request_end-keep : (w : World) (e : ℕ) → P w → P (request_end w e)
  unfolding request_end done
  request_end-keep w e p = elim (Bool-cases ((w.engines e).wg == 0)) [
    | inl idle ↦ rw (idle, request_end) p
    | inr busy ↦ rw (busy, request_end) (counted w e _ p)
  ]

  quiet : (w : World) (e : Event) → is_request e ≡ false → P w → P (step o w e)
  quiet w e h p = Moves-keep o P moved (step-Moves o w e h) p

  pub step-keep : (w : World) (e : Event) → P w → P (step o w e)
  unfolding step is_request
  step-keep w (request_starts c e) p = track-keep w c e p
  step-keep w (request_ends e) p = request_end-keep w e p
  step-keep w (ensures key role) p = quiet w (ensures key role) refl p
  step-keep w (promotes key) p = quiet w (promotes key) refl p
  step-keep w (demotes key) p = quiet w (demotes key) refl p
  step-keep w (drops key) p = quiet w (drops key) refl p
  step-keep w (configures key raw) p = quiet w (configures key raw) refl p
  step-keep w worker_takes p = quiet w worker_takes refl p
  step-keep w (drain_ends i timed_out) p = quiet w (drain_ends i timed_out) refl p
  step-keep w (channel_ready i) p = quiet w (channel_ready i) refl p
  step-keep w (await_quits i) p = quiet w (await_quits i) refl p
  step-keep w (clock_moves n) p = quiet w (clock_moves n) refl p

  pub run-keep : (es : List Event) (w : World) → P w → P (run o w es)
  unfolding run
  run-keep [] w p = p
  run-keep (e ∷ es) w p = run-keep es (step o w e) (step-keep w e p)
