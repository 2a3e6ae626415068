-- ===== src/Cell/Reachable.antt =====
-- pkg/cell: the invariant of the manager over the events, from a new manager on.
use ai_gateway_epp.Base.{
  ℕ, ◌+◌, str_eq_instance, Bool, List, [], ◌∷◌, ◌++◌, arith, All, All-append, All-take_at, take_at,
  Option-cases, Bool-cases, inl, inr, ltb, length, ◌||◌, ◌==◌, if◌then◌else◌, lookup,
}
use ai_gateway_epp.Cell.Model.{
  World, Engine, DrainTask, Await, modify_cell, modify_engine, no_engine, no_cell,
}
use ai_gateway_epp.Cell.Manager.{Options, mark_ready, cancel_engine}
use ai_gateway_epp.Cell.Events.{
  Event, ensures, promotes, demotes, drops, configures, worker_takes, drain_ends, channel_ready,
  await_quits, request_starts, request_ends, clock_moves, worker_take, drain_end, await_advance,
  await_ready, await_quit, request_end, step, run,
}
use ai_gateway_epp.Cell.Invariant.{TaskInv, Inv}
use ai_gateway_epp.Cell.Updates.{rebuild-Inv, mark_ready-Inv, finish_drain-Inv}
use ai_gateway_epp.Cell.Roles.{promote-Inv, demote-Inv, drop-Inv, ensure-Inv}
use ai_gateway_epp.Cell.Swaps.{apply_config-Inv}
use ai_gateway_epp.Cell.Apply.{track}

module _ (o : Options) (w : World) (v : Inv w) where
  pub worker_take-Inv : Inv (worker_take o w)
  unfolding worker_take
  worker_take-Inv = go w.queue v.queued
    where
      go :
          (q : List DrainTask)
          → All (TaskInv w) q
          → Inv (elim q [
            | [] ↦ w
            | t ∷ rest ↦
                if ltb (length w.draining) o.drain_workers
                then modify_engine
                    (record w { queue = rest; draining = w.draining ++ t ∷ [] })
                    t.eng
                    cancel_engine
                else w
          ])
      go [] h = v
      go (t ∷ rest) h = elim (Bool-cases (ltb (length w.draining) o.drain_workers)) [
        | inl free ↦ rw free (
            rebuild-Inv w v _ w.next_engine rest _ w.awaits w.now (omega arith) h.1
              (All-append (TaskInv w) w.draining _ v.drained (h.0, tt)))
        | inr busy ↦ rw busy v
      ]

module _ (w : World) (v : Inv w) where
  pub drain_end-Inv : (i : ℕ) (timed_out : Bool) → Inv (drain_end w i timed_out)
  unfolding drain_end
  drain_end-Inv i timed_out = elim (Option-cases (take_at i w.draining)) [
    | inl missing ↦ rw (missing, drain_end) v
    | inr ((t, rest), found) ↦
        let h = All-take_at (TaskInv w) i w.draining t rest found v.drained in
        elim (Bool-cases (timed_out || (w.engines t.eng).wg == 0)) [
          | inl over ↦
              rw (found, drain_end, over)
                (finish_drain-Inv _
                  (rebuild-Inv w v w.engines w.next_engine w.queue rest w.awaits w.now (omega arith)
                    v.queued h.1)
                  t h.0)
          | inr waits ↦ rw (found, drain_end, waits) v
        ]
  ]

  with_awaits-Inv : (awaits : List Await) → Inv (record w { awaits = awaits })
  with_awaits-Inv awaits =
      rebuild-Inv w v w.engines w.next_engine w.queue w.draining awaits w.now (omega arith) v.queued
        v.drained

  with_engines-Inv : (engines : ℕ → Engine) → Inv (record w { engines = engines })
  with_engines-Inv engines =
      rebuild-Inv w v engines w.next_engine w.queue w.draining w.awaits w.now (omega arith) v.queued
        v.drained

module _ (w : World) (v : Inv w) where
  await_advance-Inv : (a : Await) → Inv (await_advance w a)
  unfolding await_advance
  await_advance-Inv a = go a.todo
    where
      go :
          (ds : List ℕ)
          → Inv (elim ds [
            | [] ↦ modify_cell w a.cell (mark_ready w.now)
            | d ∷ ds' ↦ elim ds' [
              | [] ↦ modify_cell w a.cell (mark_ready w.now)
              | d' ∷ ds'' ↦ record w { awaits = record a { todo = d' ∷ ds'' } ∷ w.awaits }
            ]
          ])
      go [] = mark_ready-Inv w v a.cell
      go (d ∷ []) = mark_ready-Inv w v a.cell
      go (d ∷ d' ∷ ds) = with_awaits-Inv w v _

module _ (w : World) (v : Inv w) where
  pub await_ready-Inv : (i : ℕ) → Inv (await_ready w i)
  unfolding await_ready
  await_ready-Inv i = elim (Option-cases (take_at i w.awaits)) [
    | inl missing ↦ rw (missing, await_ready) v
    | inr ((a, rest), found) ↦
        rw (found, await_ready) (await_advance-Inv _ (with_awaits-Inv w v rest) a)
  ]

  pub await_quit-Inv : (i : ℕ) → Inv (await_quit w i)
  unfolding await_quit
  await_quit-Inv i = elim (Option-cases (take_at i w.awaits)) [
    | inl missing ↦ rw (missing, await_quit) v
    | inr ((a, rest), found) ↦
        elim (Bool-cases ((w.engines a.eng).cancelled || (w.cells a.cell).closed)) [
          | inl over ↦ rw (found, await_quit, over) (with_awaits-Inv w v rest)
          | inr waits ↦ rw (found, await_quit, waits) v
        ]
  ]

  pub request_end-Inv : (e : ℕ) → Inv (request_end w e)
  unfolding request_end
  request_end-Inv e = elim (Bool-cases ((w.engines e).wg == 0)) [
    | inl idle ↦ rw idle v
    | inr busy ↦ rw busy (with_engines-Inv w v _)
  ]

  pub track-Inv : (c e : ℕ) → Inv (track w c e).0
  unfolding track
  track-Inv c e = elim (Option-cases (w.cells c).engine) [
    | inl idle ↦ rw (idle, track) (with_engines-Inv w v _)
    | inr (d, had) ↦ elim (Bool-cases (d == e)) [
      | inl same ↦ rw (had, track, same) (with_engines-Inv w v _)
      | inr other ↦ rw (had, track, other) (with_engines-Inv w v _)
    ]
  ]

pub step-Inv : (o : Options) (w : World) (e : Event) → Inv w → Inv (step o w e)
unfolding step
step-Inv o w (ensures key role) v = ensure-Inv o w v key role
step-Inv o w (promotes key) v = promote-Inv w v key
step-Inv o w (demotes key) v = demote-Inv w v key
step-Inv o w (drops key) v = drop-Inv w v key
step-Inv o w (configures key raw) v = apply_config-Inv o w v key raw
step-Inv o w worker_takes v = worker_take-Inv o w v
step-Inv o w (drain_ends i timed_out) v = drain_end-Inv w v i timed_out
step-Inv o w (channel_ready i) v = await_ready-Inv w v i
step-Inv o w (await_quits i) v = await_quit-Inv w v i
step-Inv o w (request_starts c e) v = track-Inv w v c e
step-Inv o w (request_ends e) v = request_end-Inv w v e
step-Inv o w (clock_moves n) v =
    rebuild-Inv w v w.engines w.next_engine w.queue w.draining w.awaits (w.now + n) (omega arith)
      v.queued v.drained

pub run-Inv : (o : Options) (w : World) (es : List Event) → Inv w → Inv (run o w es)
unfolding run
run-Inv o w [] v = v
run-Inv o w (e ∷ es) v = run-Inv o (step o w e) es (step-Inv o w e v)

-- NewManager: no cell, no engine, no task.
abbrev pub init : World
init = record {
  registry = [];
  cells = λ _. no_cell;
  engines = λ _. no_engine;
  next_cell = 0;
  next_engine = 0;
  queue = [];
  draining = [];
  awaits = [];
  now = 0;
  metrics = record { reloads = []; current_versions = []; demux_errors = [] };
}

pub init-Inv : Inv init
unfolding lookup
init-Inv = record {
  cells_inv = λ c. ground arith;
  engines_known = λ c e h. ground arith;
  registered = λ k c h. ground arith;
  queued = tt;
  drained = tt;
}

-- Whatever events a new manager goes through, in whatever order, the invariant holds afterwards: in
-- every cell the role, the lifecycle state, the readiness, the engine and the config hash agree, and
-- only a draining cell is closed; a registered cell exists, carries its key and is not closed; and a
-- drain task that tears down its cell belongs to a draining cell.
pub run_init-Inv : (o : Options) (es : List Event) → Inv (run o init es)
run_init-Inv o es = run-Inv o init es init-Inv
