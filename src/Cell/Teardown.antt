-- ===== src/Cell/Teardown.antt =====
-- pkg/cell: Drop, the end of a drain, and a demotion, with what they leave behind.
use ai_gateway_epp.Cell.Apply.{unchanged, apply_config}
use ai_gateway_epp.Cell.Invariant.{Inv, TaskInv}
use ai_gateway_epp.Cell.Role.{Role, state_draining, role_primary, state_primary}
use ai_gateway_epp.Cell.Model.{World, DrainTask, get, modify_cell, update, modify_engine}
use ai_gateway_epp.Cell.Events.{worker_take, drain_end}
use ai_gateway_epp.Cell.Manager.{
  Options, promote, demote, ensure, drop, finish_drain, drain_capacity, cancel_engine, demote_cell,
  promote_cell,
}
use ai_gateway_epp.Base.{
  Str, str_eq_iff, lookup-delete, take_at, length, ℕ, ◌≤◌, ◌<◌, ◌≡◌, true, false, ◌&&◌, ◌||◌, none,
  some, List, [], ◌∷◌, ◌++◌, arith, ◌==◌, if◌then◌else◌, str_eq_instance, All-take_at, ◌≢◌,
}
use ai_gateway_epp.Cell.Lifecycle.{apply_config_unchanged}
use ai_gateway_epp.Cell.Updates.{rebuild-Inv}
use ai_gateway_epp.Cell.Transitions.{ensure_draining}
use ai_gateway_epp.Cell.Roles.{ensure-Inv}

-- In a manager whose parts agree, the end of a tear-down takes exactly the cell of its task out of
-- the registry: a key that leads to another cell, such as one created later under the same name,
-- keeps it, and a key that leads to the torn-down cell leads nowhere. Without tear-down every such
-- key keeps its cell.
pub get-finish_drain :
    (w : World) (t : DrainTask) (k : Str) (d : ℕ)
    → Inv w
    → get w k ≡ some d
    → get (finish_drain w t) k ≡ (if t.teardown && d == t.cell then none else some d)
unfolding finish_drain get
get-finish_drain w t k d v found = ground (
  arith,
  v.registered k d found,
  str_eq_iff (w.cells t.cell).key k,
  lookup-delete (w.cells t.cell).key k w.registry,
)

module _ (w : World) (key : Str) (c : ℕ) (v : Inv w) (found : get w key ≡ some c) where
  -- Drop of a cell that never had an engine: the cell is draining and closed, and its key is free.
  pub drop_idle :
      (w.cells c).engine ≡ none
      → let w' = drop w key in
        (get w' key ≡ none)
        × ((w'.cells c).closed ≡ true)
        × ((w'.cells c).state ≡ state_draining)
        × (w'.queue ≡ w.queue)
  unfolding drop get
  drop_idle idle = ground (arith, str_eq_iff key key, lookup-delete key key w.registry)

  -- Drop of a cell with an engine, with room in the queue: the cell is draining and stays
  -- registered and open, and a task to tear it down stands at the end of the queue.
  pub drop_busy :
      (e : ℕ)
      → (w.cells c).engine ≡ some e
      → length w.queue < drain_capacity
      → let w' = drop w key in
        (get w' key ≡ some c)
        × ((w'.cells c).closed ≡ false)
        × ((w'.cells c).state ≡ state_draining)
        × (w'.queue ≡ w.queue ++ record { cell = c; eng = e; teardown = true } ∷ [])
  unfolding drop get
  drop_busy e busy room = ground (arith, v.registered key c found)

  -- With a full queue the caller drains the engine itself: it is cancelled if it can be, the cell is
  -- closed and its key is free when Drop returns.
  pub drop_full :
      (e : ℕ)
      → (w.cells c).engine ≡ some e
      → drain_capacity ≤ length w.queue
      → let w' = drop w key in
        (get w' key ≡ none)
        × ((w'.cells c).closed ≡ true)
        × ((w'.engines e).cancelled ≡ ((w.engines e).has_cancel || (w.engines e).cancelled))
        × (w'.queue ≡ w.queue)
  unfolding drop get
  drop_full e busy full =
      ground (arith, v.registered key c found, str_eq_iff key key, lookup-delete key key w.registry)

worker_take_head :
    (o : Options) (w : World) (t : DrainTask) (rest : List DrainTask)
    → w.queue ≡ t ∷ rest
    → length w.draining < o.drain_workers
    → worker_take o w
      ≡ modify_engine
          (record w { queue = rest; draining = w.draining ++ t ∷ [] })
          t.eng
          cancel_engine
unfolding worker_take
worker_take_head o w t rest head free = ground arith

module _ (o : Options) (w : World) (key raw : Str) (c e : ℕ) (found : get w key ≡ some c)
    (running : (w.cells c).engine ≡ some e) where
  -- The world after a demotion whose task was taken by a free worker.
  abbrev demoted : World
  demoted = record w {
    cells = update w.cells c (demote_cell (w.cells c));
    engines = update w.engines e (cancel_engine (w.engines e));
    queue = [];
    draining = w.draining ++ record { cell = c; eng = e; teardown = false } ∷ [];
  }

  demote_busy :
      (w.cells c).state ≢ state_draining
      → length w.queue < drain_capacity
      → demote w key ≡ record w {
        cells = update w.cells c (demote_cell (w.cells c));
        queue = w.queue ++ record { cell = c; eng = e; teardown = false } ∷ [];
      }
  unfolding demote
  demote_busy live room = ground arith

  demote-worker_take :
      (w.cells c).state ≢ state_draining
      → w.queue ≡ []
      → length w.draining < o.drain_workers
      → worker_take o (demote w key) ≡ demoted
  demote-worker_take live empty free =
      rw (demote_busy live (rw empty (omega arith)))
        (worker_take_head o _ (record { cell = c; eng = e; teardown = false }) [] (rw empty) free)

  promote-demoted :
      (w.cells c).state ≡ state_primary → promote demoted key ≡ modify_cell demoted c promote_cell
  unfolding promote get demote_cell
  promote-demoted primary = ground arith

  -- A primary cell whose drain a free worker takes when it is demoted, and that is promoted again:
  -- a config with the hash it had counts as unchanged, and the cell is primary with the engine
  -- that the demotion cancelled.
  pub promoted_cancelled :
      (w.cells c).state ≡ state_primary
      → (w.cells c).current_hash ≡ some (o.hash raw)
      → (w.engines e).has_cancel ≡ true
      → w.queue ≡ []
      → length w.draining < o.drain_workers
      → let w' = promote (worker_take o (demote w key)) key in
        (apply_config o w' key raw ≡ (w', unchanged))
        × ((w'.cells c).role ≡ role_primary)
        × ((w'.cells c).engine ≡ some e)
        × ((w'.engines e).cancelled ≡ true)
  unfolding demote_cell promote_cell cancel_engine get
  promoted_cancelled primary applied can empty free =
      rw (demote-worker_take (ground arith) empty free, promote-demoted primary)
        (
          apply_config_unchanged o (modify_cell demoted c promote_cell) key raw c found
              (ground arith) (ground arith),
          ground arith,
          ground arith,
          ground arith,
        )

-- In a manager whose parts agree, a key that is ensured while its cell drains, with the tear-down
-- in a worker: Ensure returns that cell and no error, and when the wait of the drain ends the key
-- leads nowhere.
pub reassigned_lost :
    (o : Options) (w : World) (key : Str) (role : Role) (c i : ℕ) (t : DrainTask)
    (rest : List DrainTask)
    → Inv w
    → get w key ≡ some c
    → (w.cells c).state ≡ state_draining
    → take_at i w.draining ≡ some (t, rest)
    → t.teardown ≡ true
    → t.cell ≡ c
    → let (w', d) = ensure o w key role in (d ≡ some c) × (get (drain_end w' i true) key ≡ none)
unfolding drain_end get
reassigned_lost o w key role c i t rest v found dying taken whole this =
    let w' : World = (ensure o w key role).0 in
    let u : Inv w' = ensure-Inv o w v key role in
    let kept = ensure_draining o w key c found role [] dying in
    let taken' : take_at i w'.draining ≡ some (t, rest) = rw kept.3 taken in
    let h = All-take_at (TaskInv w') i w'.draining t rest taken' u.drained in
    let x : Inv (record w' { draining = rest }) =
      rebuild-Inv w' u w'.engines w'.next_engine w'.queue rest w'.awaits w'.now (omega arith)
        u.queued h.1 in
    let found' : get w' key ≡ some c = rw kept.2 found in
    (
      kept.0,
      rw (taken', drain_end)
          (ground (arith, get-finish_drain (record w' { draining = rest }) t key c x found')),
    )
