-- ===== src/Cell/Events.antt =====
-- pkg/cell: everything that may happen to the heap of a manager, one event at a time. The calls of the
-- epp_data watcher, the drain workers, the goroutines of `start` and the requests interleave in any
-- order; an event that cannot happen leaves the world as it is.
use ai_gateway_epp.Base.{
  ℕ, ◌+◌, Str, Bool, ◌||◌, none, some, List, [], ◌∷◌, ◌++◌, ◌==◌, ltb, if◌then◌else◌, length,
  take_at,
}
use ai_gateway_epp.Cell.Role.{Role}
use ai_gateway_epp.Cell.Model.{World, Await, modify_cell, modify_engine}
use ai_gateway_epp.Cell.Manager.{
  Options, mark_ready, cancel_engine, finish_drain, promote, demote, drop, ensure,
}
use ai_gateway_epp.Cell.Apply.{apply_config, done, track}

pub data Event : Type 0 where
  ensures : Str → Role → Event
  promotes demotes drops : Str → Event
  configures : Str → Str → Event
  worker_takes : Event
  -- the wait of the task at a position is over, by the timeout or not
  drain_ends : ℕ → Bool → Event
  -- the channel that a goroutine of `start` waits for is closed
  channel_ready : ℕ → Event
  await_quits : ℕ → Event
  request_starts : ℕ → ℕ → Event
  request_ends : ℕ → Event
  clock_moves : ℕ → Event

-- One round of drainWorker, up to the wait in Engine.drain.
unfoldable pub worker_take : Options → World → World
unfolding cancel_engine
worker_take o w = elim w.queue [
  | [] ↦ w
  | t ∷ rest ↦
      if ltb (length w.draining) o.drain_workers
      then modify_engine (record w { queue = rest; draining = w.draining ++ t ∷ [] }) t.eng
          cancel_engine
      else w
]

-- The rest of that round: `wg.Wait` has returned, or `time.After`.
unfoldable pub drain_end : World → ℕ → Bool → World
unfolding finish_drain
drain_end w i timed_out = elim (take_at i w.draining) [
  | none ↦ w
  | some (t, rest) ↦
      if timed_out || (w.engines t.eng).wg == 0
      then finish_drain (record w { draining = rest }) t
      else w
]

unfoldable pub await_advance : World → Await → World
unfolding mark_ready
await_advance w a = elim a.todo [
  | [] ↦ modify_cell w a.cell (mark_ready w.now)
  | d ∷ ds ↦ elim ds [
    | [] ↦ modify_cell w a.cell (mark_ready w.now)
    | d' ∷ ds' ↦ record w { awaits = record a { todo = d' ∷ ds' } ∷ w.awaits }
  ]
]

unfoldable pub await_ready : World → ℕ → World
unfolding await_advance
await_ready w i = elim (take_at i w.awaits) [
  | none ↦ w
  | some (a, rest) ↦ await_advance (record w { awaits = rest }) a
]

-- `e.ctx.Done()`: the engine is cancelled, or its parent, the context of the cell.
unfoldable pub await_quit : World → ℕ → World
await_quit w i = elim (take_at i w.awaits) [
  | none ↦ w
  | some (a, rest) ↦
      if (w.engines a.eng).cancelled || (w.cells a.cell).closed
      then record w { awaits = rest }
      else w
]

unfoldable pub request_end : World → ℕ → World
unfolding done
request_end w e = if (w.engines e).wg == 0 then w else done w e

unfoldable pub step : Options → World → Event → World
unfolding worker_take drain_end await_ready await_quit request_end
step o w (ensures key role) = (ensure o w key role).0
step o w (promotes key) = promote w key
step o w (demotes key) = demote w key
step o w (drops key) = drop w key
step o w (configures key raw) = (apply_config o w key raw).0
step o w worker_takes = worker_take o w
step o w (drain_ends i timed_out) = drain_end w i timed_out
step o w (channel_ready i) = await_ready w i
step o w (await_quits i) = await_quit w i
step o w (request_starts c e) = (track w c e).0
step o w (request_ends e) = request_end w e
step o w (clock_moves n) = record w { now = w.now + n }

unfoldable pub run : Options → World → List Event → World
run o w [] = w
run o w (e ∷ es) = run o (step o w e) es
