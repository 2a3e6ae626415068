-- ===== src/Cell/Roles.antt =====
-- pkg/cell/manager.go: Ensure, Promote, Demote and Drop, and the invariant of the manager.
use ai_gateway_epp.Base.{
  ℕ, ◌+◌, ◌≡◌, ◌≢◌, Str, str_eq_instance, str_eq_iff, true, false, none, some, arith, insert,
  lookup-insert, Option-cases, Bool-cases, inl, inr, if◌then◌else◌, All-mono,
}
use ai_gateway_epp.Cell.Role.{
  Role, role_none, role_standby, role_primary, role_eq, state_eq, state_draining, state_creating,
}
use ai_gateway_epp.Cell.Model.{World, Cell, Plane, DrainTask, update, modify_cell, get, fresh_cell}
use ai_gateway_epp.Cell.Manager.{
  Options, set_role, set_state, promote, demote, drop, find_or_create, apply_role, ensure,
  demote_cell, allocate_cell, load_or_store,
}
use ai_gateway_epp.Cell.Invariant.{TaskInv, Registered, Inv, replace-Inv}
use ai_gateway_epp.Cell.Updates.{
  promote_cell-Lawful, demote_cell-Lawful, set_draining-Lawful, set_standby-Lawful, close-Inv,
  drain_current-Inv,
}

pub state_eq_draining :
    (s : Cell) → state_eq s.state state_draining ≡ false → s.state ≢ state_draining
state_eq_draining s h e = ground arith

module _ (w : World) (v : Inv w) (key : Str) where
  pub promote-Inv : Inv (promote w key)
  unfolding promote
  promote-Inv = elim (Option-cases (get w key)) [
    | inl missing ↦ rw (missing, promote) v
    | inr (c, found) ↦ elim (Bool-cases (state_eq (w.cells c).state state_draining)) [
      | inl dying ↦ rw (found, promote, dying) v
      | inr live ↦
          rw (found, promote, live)
            (replace-Inv w c _ v (
              promote_cell-Lawful w (w.cells c) (v.cells_inv c) (v.engines_known c)
                (state_eq_draining (w.cells c) live)))
    ]
  ]

  pub demote-Inv : Inv (demote w key)
  unfolding demote get
  demote-Inv = elim (Option-cases (get w key)) [
    | inl missing ↦ rw (missing, demote) v
    | inr (c, found) ↦ elim (Bool-cases (state_eq (w.cells c).state state_draining)) [
      | inl dying ↦ rw (found, demote, dying) v
      | inr live ↦
          let u : Inv (modify_cell w c demote_cell) = replace-Inv w c _ v (
            demote_cell-Lawful w (w.cells c) (v.cells_inv c) (v.engines_known c)
              (state_eq_draining (w.cells c) live)) in
          rw (found, demote, live)
            (drain_current-Inv _ u c false _ (v.registered key c found).known (λ e. cc) u)
    ]
  ]

  pub drop-Inv : Inv (drop w key)
  unfolding drop get set_state
  drop-Inv = elim (Option-cases (get w key)) [
    | inl missing ↦ rw (missing, drop) v
    | inr (c, found) ↦
        let u : Inv (modify_cell w c (set_state state_draining)) =
          replace-Inv w c _ v
            (set_draining-Lawful w (w.cells c) (v.cells_inv c) (v.engines_known c)) in
        let r : Registered w key c = v.registered key c found in
        rw (found, drop)
          (drain_current-Inv _ u c true _ r.known (λ e. ground arith)
            (close-Inv _ u c key (ground (arith, r.named)) (ground arith)))
  ]

module _ (o : Options) (w : World) (v : Inv w) (key : Str) where
  pub apply_role-Inv : (c : ℕ) (role : Role) → Inv (apply_role w key c role)
  unfolding apply_role
  apply_role-Inv c role = elim (Bool-cases (role_eq (w.cells c).role role)) [
    | inl same ↦ rw (same, apply_role) v
    | inr other ↦ rw (other, apply_role) (change role)
  ]
    where
      change :
          (r : Role)
          → Inv (
              if role_eq r role_primary
              then promote w key
              else if role_eq r role_standby
              then (if role_eq (w.cells c).role role_none
                  then modify_cell w c (set_role role_standby)
                  else demote w key)
              else w)
      change role_none = v
      change role_primary = promote-Inv w v key
      change role_standby = elim (Bool-cases (role_eq (w.cells c).role role_none)) [
        | inl fresh ↦ rw fresh (
            replace-Inv w c _ v
              (set_standby-Lawful w (w.cells c) (v.cells_inv c) (v.engines_known c) (ground arith)))
        | inr old ↦ rw old (demote-Inv w v key)
      ]

  -- A cell for a key that has none.
  pub create-Inv :
      (plane : Plane)
      → get w key ≡ none
      → Inv (record w {
        cells = update w.cells w.next_cell (set_state state_creating (fresh_cell key plane));
        next_cell = w.next_cell + 1;
        registry = insert key w.next_cell w.registry;
      })
  unfolding get set_state
  create-Inv plane missing = record {
    cells_inv = λ i. ground (arith, v.cells_inv i);
    engines_known = λ i e. ground (arith, v.engines_known i e);
    registered = λ k i h. record {
      known = ground (arith, v.registered k i, lookup-insert key k w.next_cell w.registry);
      named =
          ground
            (arith, v.registered k i, lookup-insert key k w.next_cell w.registry, str_eq_iff key k);
      is_open = ground (arith, v.registered k i, lookup-insert key k w.next_cell w.registry);
    };
    queued = All-mono (TaskInv w) (TaskInv created) keep w.queue v.queued;
    drained = All-mono (TaskInv w) (TaskInv created) keep w.draining v.drained;
  }
    where
      created : World
      created = record w {
        cells = update w.cells w.next_cell (set_state state_creating (fresh_cell key plane));
        next_cell = w.next_cell + 1;
        registry = insert key w.next_cell w.registry;
      }

      keep : (t : DrainTask) → TaskInv w t → TaskInv created t
      keep t h = (omega (arith, h.0), λ e. ground (arith, h.1 e, h.0))

module _ (o : Options) (w : World) (key : Str) where
  pub find_existing : (c : ℕ) → get w key ≡ some c → find_or_create o w key ≡ some (w, c)
  unfolding find_or_create
  find_existing c found = ground arith

  pub find_refused : get w key ≡ none → o.new_cell key ≡ none → find_or_create o w key ≡ none
  unfolding find_or_create
  find_refused missing refused = ground arith

  pub find_new :
      (plane : Plane)
      → get w key ≡ none
      → o.new_cell key ≡ some plane
      → find_or_create o w key
        ≡ some (
          record w {
            cells = update w.cells w.next_cell (set_state state_creating (fresh_cell key plane));
            next_cell = w.next_cell + 1;
            registry = insert key w.next_cell w.registry;
          },
          w.next_cell,
        )
  unfolding find_or_create allocate_cell load_or_store get
  find_new plane missing built = ground arith

module _ (o : Options) (w : World) (v : Inv w) (key : Str) where
  pub ensure-Inv : (role : Role) → Inv (ensure o w key role).0
  unfolding ensure
  ensure-Inv role = elim (Option-cases (get w key)) [
    | inr (c, found) ↦ rw (find_existing o w key c found, ensure) (apply_role-Inv o w v key c role)
    | inl missing ↦ elim (Option-cases (o.new_cell key)) [
      | inl refused ↦ rw (find_refused o w key missing refused, ensure) v
      | inr (plane, built) ↦
          rw (find_new o w key plane missing built, ensure)
            (apply_role-Inv o _ (create-Inv o w v key plane missing) key w.next_cell role)
    ]
  ]
