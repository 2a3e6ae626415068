-- ===== src/Cell/Progress.antt =====
-- pkg/cell/manager.go: the drain workers over a queue of tasks, and the key of a dropped cell.
use mathlib.Core.Path.{subst}
use ai_gateway_epp.Base.{
  Str, take_at, ℕ, zero, suc, ◌<◌, ◌≡◌, refl, ap, true, List, [], ◌∷◌, arith, str_eq_instance,
  lookup-delete, ◌∙◌, ◌&&◌, none, some, if◌then◌else◌, ◌==◌, length, All, sym, ◌⊎◌, inl, inr,
  Option-cases, ◌++◌, Bool-cases, ltb,
}
use ai_gateway_epp.Cell.Model.{DrainTask, modify_engine, World, get, update}
use ai_gateway_epp.Cell.Events.{worker_takes, drain_end, run, step, Event, drain_ends, worker_take}
use ai_gateway_epp.Cell.Manager.{
  cancel_engine, compare_and_delete, finish_drain, Options, delete_if_same, drop, drain_capacity,
}
use ai_gateway_epp.Cell.Teardown.{get-finish_drain, drop_full, drop_idle, drop_busy}
use ai_gateway_epp.Cell.Invariant.{Inv, TaskInv}
use ai_gateway_epp.Cell.Reachable.{step-Inv}
use ai_gateway_epp.Cell.Updates.{rebuild-Inv}
use ai_gateway_epp.Cell.Scheduling.{drop-Scheduled}
use ai_gateway_epp.Cell.Roles.{drop-Inv}

-- A worker takes the next task, and its wait runs into the drain timeout.
abbrev pub drain_rounds : ℕ → List Event
drain_rounds zero = []
drain_rounds (suc n) = worker_takes ∷ drain_ends 0 true ∷ drain_rounds n

Queued : DrainTask → List DrainTask → Type 0
Queued t [] = ⊥
Queued t (s ∷ q) = (s ≡ t) ⊎ Queued t q

Queued-last : (t : DrainTask) (q : List DrainTask) → Queued t (q ++ t ∷ [])
unfolding Queued
Queued-last t [] = inl refl
Queued-last t (s ∷ q) = inr (Queued-last t q)

still-Queued :
    (t : DrainTask) (q : List DrainTask) (c d e : ℕ)
    → Queued (record { cell = c; eng = e; teardown = true }) (t ∷ q)
    → (if t.teardown && c == t.cell then none else some c) ≡ some d
    → (c ≡ d) × Queued (record { cell = c; eng = e; teardown = true }) q
unfolding Queued
still-Queued t q c d e (inl this) h = ground arith
still-Queued t q c d e (inr later) h = (ground arith, later)

module _ (o : Options) (works : 0 < o.drain_workers) where
  -- The world after one round, and after it the registry for one key.
  abbrev after_round : World → DrainTask → List DrainTask → World
  after_round w t rest =
      finish_drain (modify_engine (record w { queue = rest; draining = [] }) t.eng cancel_engine) t

  abbrev taken : World → DrainTask → List DrainTask → World
  taken w t rest = modify_engine (record w { queue = rest; draining = t ∷ [] }) t.eng cancel_engine

  module _ (w : World) (t : DrainTask) (rest : List DrainTask) (head : w.queue ≡ t ∷ rest)
      (idle : w.draining ≡ []) where
    take_step : worker_take o w ≡ taken w t rest
    unfolding worker_take
    take_step = ground arith

    end_step : drain_end (taken w t rest) 0 true ≡ after_round w t rest
    unfolding drain_end take_at
    end_step = refl

    round_step : drain_end (worker_take o w) 0 true ≡ after_round w t rest
    round_step = ap (λ u. drain_end u 0 true) take_step ∙ end_step

    run_round :
        (n : ℕ) → run o w (drain_rounds (suc n)) ≡ run o (after_round w t rest) (drain_rounds n)
    unfolding run step
    run_round n = ap (λ u. run o u (drain_rounds n)) round_step

    after_round_queue :
        ((after_round w t rest).queue ≡ rest) × ((after_round w t rest).draining ≡ [])
    unfolding finish_drain compare_and_delete
    after_round_queue = (ground arith, ground arith)

    after_round-Inv : Inv w → Inv (after_round w t rest)
    unfolding step
    after_round-Inv v =
        subst Inv round_step
          (step-Inv o (worker_take o w) (drain_ends 0 true) (step-Inv o w worker_takes v))

    queued : Inv w → TaskInv w t × All (TaskInv w) rest
    queued v = subst (All (TaskInv w)) head v.queued

    -- The key of a torn-down cell is free after its round, and other rounds give a key no new cell.
    get-after_round :
        (k : Str) (d : ℕ)
        → Inv w
        → get w k ≡ some d
        → get (after_round w t rest) k ≡ (if t.teardown && d == t.cell then none else some d)
    unfolding get
    get-after_round k d v found =
        get-finish_drain
          (modify_engine (record w { queue = rest; draining = [] }) t.eng cancel_engine) t k d
          (rebuild-Inv w v (update w.engines t.eng (cancel_engine (w.engines t.eng))) w.next_engine
            rest [] w.awaits w.now (omega arith) (queued v).1 tt)
          found

    after_round_free : (k : Str) → get w k ≡ none → get (after_round w t rest) k ≡ none
    unfolding finish_drain compare_and_delete delete_if_same get
    after_round_free k free = ground (arith, lookup-delete (w.cells t.cell).key k w.registry)

  -- Free keys stay free while the workers drain, and a key whose tear-down is queued becomes free.
  rounds_free :
      (q : List DrainTask) (w : World) (k : Str)
      → w.queue ≡ q
      → w.draining ≡ []
      → get w k ≡ none
      → get (run o w (drain_rounds (length q))) k ≡ none
  unfolding run
  rounds_free [] w k head idle free = free
  rounds_free (t ∷ q) w k head idle free =
      let a = after_round_queue w t q head idle in
      rw (run_round w t q head idle (length q))
        (rounds_free q (after_round w t q) k a.0 a.1 (after_round_free w t q head idle k free))

  rounds_torn_down :
      (q : List DrainTask) (w : World) (k : Str) (c : ℕ) (e : ℕ)
      → w.queue ≡ q
      → w.draining ≡ []
      → Inv w
      → get w k ≡ some c
      → Queued (record { cell = c; eng = e; teardown = true }) q
      → get (run o w (drain_rounds (length q))) k ≡ none
  unfolding Queued
  rounds_torn_down [] w k c e head idle v found h = absurd h
  rounds_torn_down (t ∷ q) w k c e head idle v found h =
      let a = after_round_queue w t q head idle in
      let g = get-after_round w t q head idle k c v found in
      rw (run_round w t q head idle (length q)) (elim (Option-cases (get (after_round w t q) k)) [
        | inl free ↦ rounds_free q (after_round w t q) k a.0 a.1 free
        | inr (d, kept) ↦
            let later = still-Queued t q c d e h (sym g ∙ kept) in
            rounds_torn_down q (after_round w t q) k c e a.0 a.1 (after_round-Inv w t q head idle v)
              (kept ∙ ap some (sym later.0)) later.1
      ])

  -- In a manager whose parts agree, with at least one worker and no drain in the workers, after
  -- Drop of a registered cell as many rounds of one worker as there are tasks in the queue make
  -- the key of the cell free, even if every wait for the requests of an engine runs into its
  -- timeout.
  pub drop_completes :
      (w : World) (key : Str) (c : ℕ)
      → Inv w
      → w.draining ≡ []
      → get w key ≡ some c
      → let w' = drop w key in get (run o w' (drain_rounds (length w'.queue))) key ≡ none
  drop_completes w key c v idle found =
      let u = drop-Inv w v key in
      let idle' : (drop w key).draining ≡ [] = (drop-Scheduled w key).1 ∙ idle in
      elim (Option-cases (w.cells c).engine) [
        | inl never ↦
            let d = drop_idle w key c v found never in
            rounds_free (drop w key).queue (drop w key) key refl idle' d.0
        | inr (e, busy) ↦ elim (Bool-cases (ltb (length w.queue) drain_capacity)) [
          | inl room ↦
              let d = drop_busy w key c v found e busy (ground arith) in
              rounds_torn_down (drop w key).queue (drop w key) key c e refl idle' u d.0 (
                subst (Queued (record { cell = c; eng = e; teardown = true })) (sym d.3)
                  (Queued-last _ w.queue))
          | inr full ↦
              let d = drop_full w key c v found e busy (ground arith) in
              rounds_free (drop w key).queue (drop w key) key refl idle' d.0
        ]
      ]
