-- ===== src/Cell/Stepped.antt =====
-- pkg/cell: ApplyConfig, the drain workers and the goroutines of `start` are made of elementary
-- changes, and so is every event but the start and the end of a request.
use ai_gateway_epp.Cell.Steps.{
  ensure-Moves, mark_ready-Moves, finish_drain-Moves, demote-Moves, promote-Moves,
  schedule_drain-Moves, drop-Moves,
}
use ai_gateway_epp.Cell.Moves.{
  store, Moves, both, rejects, schedules, installs, once, rebuilds, moves_on, cancels, still,
}
use ai_gateway_epp.Cell.Apply.{
  swap_engine, compile_and_swap, apply_config, count_reload, set_version, same_hash,
}
use ai_gateway_epp.Cell.Model.{
  get, modify_cell, World, Plane, DrainTask, Engine, Await, modify_engine,
}
use ai_gateway_epp.Cell.Manager.{mark_ready, Options, start, cancel_engine}
use ai_gateway_epp.Base.{
  Str, ℕ, ◌≡◌, inl, inr, some, List, [], ◌∷◌, ◌++◌, Option-cases, take_at, length, refl, Bool, true,
  false, ◌||◌, arith, Bool-cases, ◌==◌, ltb,
}
use ai_gateway_epp.Cell.Role.{state_eq, state_draining}
use ai_gateway_epp.Cell.Events.{
  Event, configures, demotes, worker_take, drops, ensures, drain_end, promotes, worker_takes,
  await_ready, step, clock_moves, request_ends, await_quit, channel_ready, request_starts,
  await_quits, await_advance, drain_ends,
}

-- The events of requests.
unfoldable pub is_request : Event → Bool
is_request (request_starts c e) = true
is_request (request_ends e) = true
is_request _ = false

module _ (o : Options) where
  start-Moves : (w : World) (c e : ℕ) → Moves o w (start w c e)
  unfolding start
  start-Moves w c e = go (w.engines e).discovery
    where
      go :
          (ds : List ℕ)
          → Moves o w (elim ds [
            | [] ↦ modify_cell w c (mark_ready w.now)
            | d ∷ ds' ↦ record w {
              awaits = w.awaits ++ record { cell = c; eng = e; todo = d ∷ ds' } ∷ [];
            }
          ])
      go [] = mark_ready-Moves o w c w.now
      go (d ∷ ds') = once o w (schedules w.queue w.draining _ w.now)

  swap_engine-Moves :
      (w : World) (c : ℕ) (key raw : Str) (plane : Plane) (eng : Engine)
      → get w key ≡ some c
      → (o.compile key raw plane).1 ≡ some eng
      → Moves o w (
          swap_engine
            (record w { metrics = set_version key eng.version (count_reload key true w.metrics) })
            c
            (o.hash raw)
            eng)
  unfolding swap_engine
  swap_engine-Moves w c key raw plane eng found got =
      let s =
        both o (once o w (installs key raw plane c eng found got))
          (start-Moves _ c w.next_engine) in
      elim (Option-cases (w.cells c).engine) [
        | inl first ↦ rw (first, swap_engine) s
        | inr (old, had) ↦ rw (had, swap_engine) (both o s (schedule_drain-Moves o _ c old false))
      ]

  compile_and_swap-Moves :
      (w : World) (c : ℕ) (key raw : Str)
      → get w key ≡ some c
      → Moves o w (compile_and_swap o w c key raw).0
  unfolding compile_and_swap get
  compile_and_swap-Moves w c key raw found =
      let (plane, built) = o.compile key raw (w.cells c).plane in
      let m = store o w c _ (rebuilds plane) in
      elim (Option-cases built) [
        | inl refused ↦ rw (refused, compile_and_swap) (moves_on m (rejects key))
        | inr (eng, got) ↦
            rw (got, compile_and_swap)
              (both o m (swap_engine-Moves _ c key raw (w.cells c).plane eng found got))
      ]

  pub apply_config-Moves : (w : World) (key raw : Str) → Moves o w (apply_config o w key raw).0
  unfolding apply_config
  apply_config-Moves w key raw = elim (Option-cases (get w key)) [
    | inl missing ↦ rw (missing, apply_config) still
    | inr (c, found) ↦ elim (Bool-cases (state_eq (w.cells c).state state_draining)) [
      | inl dying ↦ rw (found, apply_config, dying) still
      | inr live ↦ elim (Bool-cases (same_hash (w.cells c).current_hash (o.hash raw))) [
        | inl old ↦ rw (found, apply_config, live, old) still
        | inr new ↦ rw (found, apply_config, live, new) (compile_and_swap-Moves w c key raw found)
      ]
    ]
  ]

  worker_take-Moves : (w : World) → Moves o w (worker_take o w)
  unfolding worker_take
  worker_take-Moves w = go w.queue refl
    where
      go : (q : List DrainTask) → w.queue ≡ q → Moves o w (worker_take o w)
      go [] h = let e : worker_take o w ≡ w = ground arith in rw e still
      go (t ∷ rest) h = elim (Bool-cases (ltb (length w.draining) o.drain_workers)) [
        | inl free ↦
            let taken = record w { queue = rest; draining = w.draining ++ t ∷ [] } in
            let e : worker_take o w ≡ modify_engine taken t.eng cancel_engine = ground arith in
            rw e (
              moves_on (once o w (schedules rest (w.draining ++ t ∷ []) w.awaits w.now))
                (cancels t.eng))
        | inr busy ↦ let e : worker_take o w ≡ w = ground arith in rw e still
      ]

  drain_end-Moves : (w : World) (i : ℕ) (timed_out : Bool) → Moves o w (drain_end w i timed_out)
  unfolding drain_end
  drain_end-Moves w i timed_out = elim (Option-cases (take_at i w.draining)) [
    | inl missing ↦ rw (missing, drain_end) still
    | inr ((t, rest), found) ↦ elim (Bool-cases (timed_out || (w.engines t.eng).wg == 0)) [
      | inl over ↦
          rw (found, drain_end, over)
            (both o (once o w (schedules w.queue rest w.awaits w.now)) (finish_drain-Moves o _ t))
      | inr waits ↦ rw (found, drain_end, waits) still
    ]
  ]

  await_advance-Moves : (w : World) (a : Await) → Moves o w (await_advance w a)
  unfolding await_advance
  await_advance-Moves w a = go a.todo refl
    where
      go : (ds : List ℕ) → a.todo ≡ ds → Moves o w (await_advance w a)
      go [] h = rw (h, await_advance) (mark_ready-Moves o w a.cell w.now)
      go (d ∷ []) h = rw (h, await_advance) (mark_ready-Moves o w a.cell w.now)
      go (d ∷ d' ∷ ds) h = rw (h, await_advance) (once o w (schedules w.queue w.draining _ w.now))

  await_ready-Moves : (w : World) (i : ℕ) → Moves o w (await_ready w i)
  unfolding await_ready
  await_ready-Moves w i = elim (Option-cases (take_at i w.awaits)) [
    | inl missing ↦ rw (missing, await_ready) still
    | inr ((a, rest), found) ↦
        rw (found, await_ready)
          (both o (once o w (schedules w.queue w.draining rest w.now)) (await_advance-Moves _ a))
  ]

  await_quit-Moves : (w : World) (i : ℕ) → Moves o w (await_quit w i)
  unfolding await_quit
  await_quit-Moves w i = elim (Option-cases (take_at i w.awaits)) [
    | inl missing ↦ rw (missing, await_quit) still
    | inr ((a, rest), found) ↦
        elim (Bool-cases ((w.engines a.eng).cancelled || (w.cells a.cell).closed)) [
          | inl over ↦
              rw (found, await_quit, over) (once o w (schedules w.queue w.draining rest w.now))
          | inr waits ↦ rw (found, await_quit, waits) still
        ]
  ]

  pub step-Moves : (w : World) (e : Event) → is_request e ≡ false → Moves o w (step o w e)
  unfolding step is_request
  step-Moves w (ensures key role) h = ensure-Moves o w key role
  step-Moves w (promotes key) h = promote-Moves o w key
  step-Moves w (demotes key) h = demote-Moves o w key
  step-Moves w (drops key) h = drop-Moves o w key
  step-Moves w (configures key raw) h = apply_config-Moves w key raw
  step-Moves w worker_takes h = worker_take-Moves w
  step-Moves w (drain_ends i timed_out) h = drain_end-Moves w i timed_out
  step-Moves w (channel_ready i) h = await_ready-Moves w i
  step-Moves w (await_quits i) h = await_quit-Moves w i
  step-Moves w (request_starts c e) h = ground arith
  step-Moves w (request_ends e) h = ground arith
  step-Moves w (clock_moves n) h = once o w (schedules w.queue w.draining w.awaits _)
