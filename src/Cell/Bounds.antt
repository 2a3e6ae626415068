-- ===== src/Cell/Bounds.antt =====
-- pkg/cell/manager.go: the bounds of the drain queue and of the drain workers, over all events.
use ai_gateway_epp.Base.{
  take_at, length, length-append, ℕ, zero, suc, ◌+◌, ◌≤◌, ◌≡◌, refl, inl, inr, Bool, some, List, [],
  ◌∷◌, arith, Option-cases, str_eq_instance,
}
use ai_gateway_epp.Cell.Apply.{track, done}
use ai_gateway_epp.Cell.Model.{DrainTask, World}
use ai_gateway_epp.Cell.Scheduling.{
  Scheduled, promote-Scheduled, demote-Scheduled, apply_config-Scheduled, drop-Scheduled,
  ensure-Scheduled,
}
use ai_gateway_epp.Cell.Reachable.{init}
use ai_gateway_epp.Cell.Events.{
  clock_moves, Event, run, worker_take, demotes, await_advance, request_starts, request_ends,
  channel_ready, drain_ends, await_quit, drain_end, drops, worker_takes, promotes, step,
  request_end, configures, await_ready, await_quits, ensures,
}
use ai_gateway_epp.Cell.Manager.{compare_and_delete, finish_drain, drain_capacity, Options}

-- At most 64 tasks wait, and at most as many are drained as there are workers.
pub record Bounded (o : Options) (w : World) : Type 0 where
  pub queue_bound : length w.queue ≤ drain_capacity
  pub workers_bound : length w.draining ≤ o.drain_workers

module _ (o : Options) (w : World) (b : Bounded o w) where
  Scheduled-Bounded : (u : World) → Scheduled w u → Bounded o u
  Scheduled-Bounded u s = record {
    queue_bound = s.0 b.queue_bound;
    workers_bound = rw s.1 b.workers_bound;
  }

  same-Bounded : (u : World) → u.queue ≡ w.queue → u.draining ≡ w.draining → Bounded o u
  same-Bounded u h k = record {
    queue_bound = rw h b.queue_bound;
    workers_bound = rw k b.workers_bound;
  }

  worker_take-Bounded : Bounded o (worker_take o w)
  unfolding worker_take
  worker_take-Bounded = go w.queue refl
    where
      go : (q : List DrainTask) → w.queue ≡ q → Bounded o (worker_take o w)
      go [] h = same-Bounded (worker_take o w) (ground arith) (ground arith)
      go (t ∷ rest) h = record {
        queue_bound = ground (arith, b.queue_bound);
        workers_bound = ground (arith, b.workers_bound, length-append w.draining (t ∷ []));
      }

length-take_at {ℓ} :
    {A : Type ℓ} (i : ℕ) (xs : List A) (x : A) (rest : List A)
    → take_at i xs ≡ some (x, rest)
    → length xs ≡ suc (length rest)
unfolding take_at
length-take_at i [] x rest e = ground arith
length-take_at zero (y ∷ xs) x rest e = ground arith
length-take_at (suc i) (y ∷ xs) x rest e = elim (Option-cases (take_at i xs)) [
  | inl missing ↦ ground arith
  | inr ((z, zs), found) ↦ ground (arith, length-take_at i xs z zs found)
]

module _ (o : Options) (w : World) (b : Bounded o w) where
  drain_end-Bounded : (i : ℕ) (timed_out : Bool) → Bounded o (drain_end w i timed_out)
  unfolding drain_end finish_drain compare_and_delete
  drain_end-Bounded i timed_out = elim (Option-cases (take_at i w.draining)) [
    | inl missing ↦ same-Bounded o w b (drain_end w i timed_out) (ground arith) (ground arith)
    | inr ((t, rest), found) ↦
        let l = length-take_at i w.draining t rest found in
        record {
          queue_bound = ground (arith, b.queue_bound);
          workers_bound = ground (arith, b.workers_bound, l);
        }
  ]

  await_ready-Bounded : (i : ℕ) → Bounded o (await_ready w i)
  unfolding await_ready await_advance
  await_ready-Bounded i = same-Bounded o w b (await_ready w i) (ground arith) (ground arith)

  await_quit-Bounded : (i : ℕ) → Bounded o (await_quit w i)
  unfolding await_quit
  await_quit-Bounded i = same-Bounded o w b (await_quit w i) (ground arith) (ground arith)

  track-Bounded : (c e : ℕ) → Bounded o (track w c e).0
  unfolding track
  track-Bounded c e = same-Bounded o w b (track w c e).0 (ground arith) (ground arith)

  request_end-Bounded : (e : ℕ) → Bounded o (request_end w e)
  unfolding request_end done
  request_end-Bounded e = same-Bounded o w b (request_end w e) (ground arith) (ground arith)

pub step-Bounded : (o : Options) (w : World) (e : Event) → Bounded o w → Bounded o (step o w e)
unfolding step
step-Bounded o w (ensures key role) b = Scheduled-Bounded o w b _ (ensure-Scheduled o w key role)
step-Bounded o w (promotes key) b = Scheduled-Bounded o w b _ (promote-Scheduled w key)
step-Bounded o w (demotes key) b = Scheduled-Bounded o w b _ (demote-Scheduled w key)
step-Bounded o w (drops key) b = Scheduled-Bounded o w b _ (drop-Scheduled w key)
step-Bounded o w (configures key raw) b =
    Scheduled-Bounded o w b _ (apply_config-Scheduled o w key raw)
step-Bounded o w worker_takes b = worker_take-Bounded o w b
step-Bounded o w (drain_ends i timed_out) b = drain_end-Bounded o w b i timed_out
step-Bounded o w (channel_ready i) b = await_ready-Bounded o w b i
step-Bounded o w (await_quits i) b = await_quit-Bounded o w b i
step-Bounded o w (request_starts c e) b = track-Bounded o w b c e
step-Bounded o w (request_ends e) b = request_end-Bounded o w b e
step-Bounded o w (clock_moves n) b = same-Bounded o w b (record w { now = w.now + n }) refl refl

run-Bounded : (o : Options) (es : List Event) (w : World) → Bounded o w → Bounded o (run o w es)
unfolding run
run-Bounded o [] w b = b
run-Bounded o (e ∷ es) w b = run-Bounded o es (step o w e) (step-Bounded o w e b)

-- Whatever events a new manager goes through, at most 64 drain tasks wait in its queue, and never more
-- drains run in the workers than there are workers.
run-init-Bounded : (o : Options) (es : List Event) → Bounded o (run o init es)
run-init-Bounded o es =
    run-Bounded o es init (record { queue_bound = omega arith; workers_bound = omega arith })
