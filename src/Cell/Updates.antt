-- ===== src/Cell/Updates.antt =====
-- pkg/cell: the parts of the manager's calls that rewrite one cell or move a task, and the invariant.
use ai_gateway_epp.Base.{
  ℕ, ◌≤◌, ◌<◌, ◌≡◌, ◌≢◌, refl, Str, str_eq_instance, str_eq_iff, Bool, true, some, List, [], ◌∷◌,
  ◌++◌, arith, lookup-delete, All, All-append, Option-cases, Bool-cases, ltb, length, inl, inr,
  All-mono,
}
use ai_gateway_epp.Cell.Role.{role_none, role_standby, state_draining}
use ai_gateway_epp.Cell.Model.{World, Cell, Engine, Plane, DrainTask, Await, modify_cell}
use ai_gateway_epp.Cell.Manager.{
  set_role, set_state, close_cell, mark_ready, start, compare_and_delete, finish_drain, drain,
  schedule_drain, drain_current, drain_capacity, promote_cell, demote_cell,
}
use ai_gateway_epp.Cell.Invariant.{CellInv, Lawful, TaskInv, Inv, replace-Inv}

module _ (w : World) (x : Cell) (i : CellInv x)
    (known : (e : ℕ) → x.engine ≡ some e → e < w.next_engine) where
  pub mark_ready-Lawful : (now : ℕ) → Lawful w x (mark_ready now x)
  unfolding mark_ready
  mark_ready-Lawful now = record {
    inv = ground arith;
    key_kept = ground arith;
    open_kept = ground arith;
    draining_kept = ground arith;
    engine_known = λ e. ground (arith, known e);
  }

  pub promote_cell-Lawful : x.state ≢ state_draining → Lawful w x (promote_cell x)
  unfolding promote_cell
  promote_cell-Lawful live = record {
    inv = ground arith;
    key_kept = ground arith;
    open_kept = ground arith;
    draining_kept = ground arith;
    engine_known = λ e. ground (arith, known e);
  }

  pub demote_cell-Lawful : x.state ≢ state_draining → Lawful w x (demote_cell x)
  unfolding demote_cell
  demote_cell-Lawful live = record {
    inv = ground arith;
    key_kept = ground arith;
    open_kept = ground arith;
    draining_kept = ground arith;
    engine_known = λ e. ground (arith, known e);
  }

  pub set_draining-Lawful : Lawful w x (set_state state_draining x)
  unfolding set_state
  set_draining-Lawful = record {
    inv = ground arith;
    key_kept = ground arith;
    open_kept = ground arith;
    draining_kept = ground arith;
    engine_known = known;
  }

  pub set_standby-Lawful : x.role ≡ role_none → Lawful w x (set_role role_standby x)
  unfolding set_role
  set_standby-Lawful fresh = record {
    inv = ground arith;
    key_kept = ground arith;
    open_kept = ground arith;
    draining_kept = ground arith;
    engine_known = known;
  }

  pub plane-Lawful : (p : Plane) → Lawful w x (record x { plane = p })
  plane-Lawful p = record {
    inv = ground arith;
    key_kept = ground arith;
    open_kept = ground arith;
    draining_kept = ground arith;
    engine_known = known;
  }

module _ (w : World) (v : Inv w) where
  -- Engines, goroutines and the clock are not in the invariant; the tasks may be moved.
  pub rebuild-Inv :
      (engines : ℕ → Engine) (next : ℕ) (queue draining : List DrainTask) (awaits : List Await)
      (now : ℕ)
      → w.next_engine ≤ next
      → All (TaskInv w) queue
      → All (TaskInv w) draining
      → Inv (record w {
        engines = engines;
        next_engine = next;
        queue = queue;
        draining = draining;
        awaits = awaits;
        now = now;
      })
  rebuild-Inv engines next queue draining awaits now le q d = record {
    cells_inv = v.cells_inv;
    engines_known = λ c e h. let below = v.engines_known c e h in omega arith;
    registered = λ k c h.
        let r = v.registered k c h in
        record { known = r.known; named = r.named; is_open = r.is_open };
    queued = q;
    drained = d;
  }

  pub mark_ready-Inv : (c : ℕ) → Inv (modify_cell w c (mark_ready w.now))
  mark_ready-Inv c =
      replace-Inv w c _ v
        (mark_ready-Lawful w (w.cells c) (v.cells_inv c) (v.engines_known c) w.now)

  pub start-Inv : (c e : ℕ) → Inv (start w c e)
  unfolding start
  start-Inv c e = go (w.engines e).discovery
    where
      go :
          (ds : List ℕ)
          → Inv (elim ds [
            | [] ↦ modify_cell w c (mark_ready w.now)
            | d ∷ ds' ↦ record w {
              awaits = w.awaits ++ record { cell = c; eng = e; todo = d ∷ ds' } ∷ [];
            }
          ])
      go [] = mark_ready-Inv c
      go (d ∷ ds') =
          rebuild-Inv w.engines w.next_engine w.queue w.draining _ w.now (omega arith) v.queued
            v.drained

  -- Closing a draining cell takes it out of the registry, if it is there.
  pub close-Inv :
      (c : ℕ) (key : Str)
      → (w.cells c).key ≡ key
      → (w.cells c).state ≡ state_draining
      → Inv (compare_and_delete (modify_cell w c close_cell) key c)
  unfolding compare_and_delete close_cell
  close-Inv c key named draining = record {
    cells_inv = λ i. ground (arith, v.cells_inv i);
    engines_known = λ i e. ground (arith, v.engines_known i e);
    registered = λ k i h. record {
      known = ground (arith, v.registered k i, lookup-delete key k w.registry);
      named = ground (arith, v.registered k i, lookup-delete key k w.registry);
      is_open = ground (arith, v.registered k i, lookup-delete key k w.registry, str_eq_iff key k);
    };
    queued = All-mono (TaskInv w) (TaskInv closed) keep w.queue v.queued;
    drained = All-mono (TaskInv w) (TaskInv closed) keep w.draining v.drained;
  }
    where
      closed : World
      closed = modify_cell w c close_cell

      keep : (t : DrainTask) → TaskInv w t → TaskInv closed t
      keep t h = (h.0, λ e. ground (arith, h.1 e))

module _ (w : World) (v : Inv w) where
  pub finish_drain-Inv : (t : DrainTask) → TaskInv w t → Inv (finish_drain w t)
  unfolding finish_drain
  finish_drain-Inv t h = elim (Bool-cases t.teardown) [
    | inl whole ↦ rw whole (close-Inv w v t.cell _ refl (h.1 whole))
    | inr part ↦ rw part v
  ]

module _ (w : World) (v : Inv w) where
  pub drain-Inv : (t : DrainTask) → TaskInv w t → Inv (drain w t)
  unfolding drain
  drain-Inv t h =
      finish_drain-Inv _
        (rebuild-Inv w v _ w.next_engine w.queue w.draining w.awaits w.now (omega arith) v.queued
          v.drained)
        t h

  pub schedule_drain-Inv :
      (c e : ℕ) (teardown : Bool)
      → c < w.next_cell
      → (teardown ≡ true → (w.cells c).state ≡ state_draining)
      → Inv (schedule_drain w c e teardown)
  unfolding schedule_drain
  schedule_drain-Inv c e teardown known draining =
      elim (Bool-cases (ltb (length w.queue) drain_capacity)) [
        | inl room ↦ rw room (
            rebuild-Inv w v w.engines w.next_engine _ w.draining w.awaits w.now (omega arith)
              (All-append (TaskInv w) w.queue _ v.queued ((known, draining), tt)) v.drained)
        | inr full ↦ rw full (drain-Inv _ (known, draining))
      ]

  -- Demote and Drop, up to what they do without an engine.
  pub drain_current-Inv :
      (c : ℕ) (teardown : Bool) (otherwise : World)
      → c < w.next_cell
      → (teardown ≡ true → (w.cells c).state ≡ state_draining)
      → Inv otherwise
      → Inv (drain_current w c teardown otherwise)
  unfolding drain_current
  drain_current-Inv c teardown otherwise known draining u = elim (Option-cases (w.cells c).engine) [
    | inl idle ↦ rw (idle, drain_current) u
    | inr (e, busy) ↦ rw (busy, drain_current) (schedule_drain-Inv c e teardown known draining)
  ]
