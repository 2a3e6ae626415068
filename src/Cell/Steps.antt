-- ===== src/Cell/Steps.antt =====
-- pkg/cell/manager.go: the calls of the manager but ApplyConfig are made of elementary changes.
use ai_gateway_epp.Cell.Moves.{
  store, schedules, still, closes, Moves, signals, forgets, rewrites, cancels, once, then_moves,
  at_rest, CellMoves, both, sets_state, sets_role, creates,
}
use ai_gateway_epp.Cell.Role.{
  state_creating, state_eq, state_standby, state_draining, Role, role_standby, state_primary,
  role_eq, role_primary, role_none,
}
use ai_gateway_epp.Cell.Model.{modify_cell, Cell, World, DrainTask, get}
use ai_gateway_epp.Cell.Manager.{
  drain, finish_drain, drain_current, Options, delete_if_same, set_state, schedule_drain,
  drain_capacity, mark_ready, compare_and_delete, promote, promote_cell, set_role, apply_role,
  demote_cell, demote, ensure, drop,
}
use ai_gateway_epp.Base.{
  Str, lookup, length, ℕ, inl, inr, Bool, Option-cases, Bool-cases, ltb, ◌==◌, str_eq_instance,
  true, false, ◌||◌, if◌then◌else◌,
}
use ai_gateway_epp.Cell.Roles.{find_refused, find_new, find_existing}

promote_cell-CellMoves : (x : Cell) → CellMoves x (promote_cell x)
unfolding promote_cell
promote_cell-CellMoves x =
    elim (Bool-cases (state_eq x.state state_standby || state_eq x.state state_creating)) [
      | inl waiting ↦
          rw (waiting, promote_cell)
            (then_moves (then_moves at_rest (sets_role role_primary)) (sets_state _))
      | inr other ↦ rw (other, promote_cell) (then_moves at_rest (sets_role role_primary))
    ]

demote_cell-CellMoves : (x : Cell) → CellMoves x (demote_cell x)
unfolding demote_cell
demote_cell-CellMoves x = elim (Bool-cases (state_eq x.state state_primary)) [
  | inl serving ↦
      rw (serving, demote_cell)
        (then_moves (then_moves at_rest (sets_role role_standby)) (sets_state _))
  | inr other ↦ rw (other, demote_cell) (then_moves at_rest (sets_role role_standby))
]

module _ (o : Options) where
  compare_and_delete-Moves :
      (w : World) (key : Str) (c : ℕ) → Moves o w (compare_and_delete w key c)
  unfolding compare_and_delete delete_if_same
  compare_and_delete-Moves w key c = elim (Option-cases (lookup key w.registry)) [
    | inl missing ↦ rw (missing, delete_if_same) still
    | inr (d, found) ↦ elim (Bool-cases (d == c)) [
      | inl same ↦ rw (found, delete_if_same, same) (once o w (forgets key))
      | inr other ↦ rw (found, delete_if_same, other) still
    ]
  ]

  pub finish_drain-Moves : (w : World) (t : DrainTask) → Moves o w (finish_drain w t)
  unfolding finish_drain
  finish_drain-Moves w t = elim (Bool-cases t.teardown) [
    | inl whole ↦ rw whole (
        both o (store o w t.cell _ closes) (compare_and_delete-Moves _ (w.cells t.cell).key t.cell))
    | inr part ↦ rw part still
  ]

  pub schedule_drain-Moves :
      (w : World) (c e : ℕ) (teardown : Bool) → Moves o w (schedule_drain w c e teardown)
  unfolding schedule_drain drain
  schedule_drain-Moves w c e teardown = elim (Bool-cases (ltb (length w.queue) drain_capacity)) [
    | inl room ↦ rw room (once o w (schedules _ w.draining w.awaits w.now))
    | inr full ↦ rw full (
        both o (once o w (cancels e))
          (finish_drain-Moves _ (record { cell = c; eng = e; teardown = teardown })))
  ]

  drain_current-Moves :
      (w : World) (c : ℕ) (teardown : Bool) (u : World)
      → Moves o w u
      → Moves o w (drain_current w c teardown u)
  unfolding drain_current
  drain_current-Moves w c teardown u m = elim (Option-cases (w.cells c).engine) [
    | inl idle ↦ rw (idle, drain_current) m
    | inr (e, busy) ↦ rw (busy, drain_current) (schedule_drain-Moves w c e teardown)
  ]

  pub mark_ready-Moves : (w : World) (c now : ℕ) → Moves o w (modify_cell w c (mark_ready now))
  unfolding mark_ready set_state
  mark_ready-Moves w c now = once o w (rewrites c _ (go (w.cells c)))
    where
      go : (x : Cell) → CellMoves x (mark_ready now x)
      go x = elim (Bool-cases x.ready) [
        | inl old ↦ rw (old, mark_ready) at_rest
        | inr new ↦ elim (Bool-cases (state_eq x.state state_creating)) [
          | inl first ↦
              rw (new, mark_ready, first)
                (then_moves (then_moves at_rest (signals now)) (sets_state _))
          | inr later ↦ rw (new, mark_ready, later) (then_moves at_rest (signals now))
        ]
      ]

  pub promote-Moves : (w : World) (key : Str) → Moves o w (promote w key)
  unfolding promote
  promote-Moves w key = elim (Option-cases (get w key)) [
    | inl missing ↦ rw (missing, promote) still
    | inr (c, found) ↦ elim (Bool-cases (state_eq (w.cells c).state state_draining)) [
      | inl dying ↦ rw (found, promote, dying) still
      | inr live ↦
          rw (found, promote, live) (once o w (rewrites c _ (promote_cell-CellMoves (w.cells c))))
    ]
  ]

  pub demote-Moves : (w : World) (key : Str) → Moves o w (demote w key)
  unfolding demote
  demote-Moves w key = elim (Option-cases (get w key)) [
    | inl missing ↦ rw (missing, demote) still
    | inr (c, found) ↦ elim (Bool-cases (state_eq (w.cells c).state state_draining)) [
      | inl dying ↦ rw (found, demote, dying) still
      | inr live ↦
          let m = once o w (rewrites c _ (demote_cell-CellMoves (w.cells c))) in
          rw (found, demote, live) (both o m (drain_current-Moves _ c false _ still))
    ]
  ]

  pub drop-Moves : (w : World) (key : Str) → Moves o w (drop w key)
  unfolding drop
  drop-Moves w key = elim (Option-cases (get w key)) [
    | inl missing ↦ rw (missing, drop) still
    | inr (c, found) ↦
        rw (found, drop)
          (both o (store o w c _ (sets_state state_draining)) (
            drain_current-Moves _ c true _
              (both o (store o _ c _ closes) (compare_and_delete-Moves _ key c))))
  ]

  apply_role-Moves :
      (w : World) (key : Str) (c : ℕ) (role : Role) → Moves o w (apply_role w key c role)
  unfolding apply_role
  apply_role-Moves w key c role = elim (Bool-cases (role_eq (w.cells c).role role)) [
    | inl same ↦ rw same still
    | inr new ↦ rw new (change role)
  ]
    where
      change :
          (r : Role)
          → Moves o w (
              if role_eq r role_primary
              then promote w key
              else if role_eq r role_standby
              then (if role_eq (w.cells c).role role_none
                  then modify_cell w c (set_role role_standby)
                  else demote w key)
              else w)
      change role_none = still
      change role_primary = promote-Moves w key
      change role_standby = elim (Bool-cases (role_eq (w.cells c).role role_none)) [
        | inl fresh ↦ rw fresh (store o w c _ (sets_role role_standby))
        | inr old ↦ rw old (demote-Moves w key)
      ]

  pub ensure-Moves : (w : World) (key : Str) (role : Role) → Moves o w (ensure o w key role).0
  unfolding ensure set_state
  ensure-Moves w key role = elim (Option-cases (get w key)) [
    | inr (c, found) ↦ rw (find_existing o w key c found, ensure) (apply_role-Moves w key c role)
    | inl missing ↦ elim (Option-cases (o.new_cell key)) [
      | inl refused ↦ rw (find_refused o w key missing refused, ensure) still
      | inr (plane, built) ↦
          rw (find_new o w key plane missing built, ensure)
            (both o (once o w (creates key plane missing))
              (apply_role-Moves _ key w.next_cell role))
    ]
  ]
