-- ===== src/Cell/Transitions.antt =====
-- pkg/cell: the role transitions of Ensure, and what becomes of a cell that is assigned again.
use ai_gateway_epp.Cell.Apply.{not_assigned, apply_config, failed}
use ai_gateway_epp.Cell.Invariant.{CellInv}
use ai_gateway_epp.Cell.Role.{
  role_none, state_standby, state_draining, state_creating, state_primary, Role, state_eq,
  role_primary, role_eq, role_standby,
}
use ai_gateway_epp.Cell.Model.{World, get, Plane}
use ai_gateway_epp.Cell.Manager.{find_or_create, Options, apply_role, ensure}
use ai_gateway_epp.Base.{
  Str, ℕ, ◌≡◌, ◌≢◌, none, some, arith, if◌then◌else◌, str_eq_iff, lookup-insert, refl,
  str_eq_instance, false,
}
use ai_gateway_epp.Cell.Roles.{find_new}

module _ (o : Options) (w : World) (key : Str) (plane : Plane) where
  -- Ensure of a key without a cell, in a role other than none and without an error, registers a
  -- new cell in that role, without an engine and not ready. A primary is in the state primary at
  -- once; a standby stays creating.
  pub ensure_new :
      (role : Role)
      → role ≢ role_none
      → get w key ≡ none
      → o.new_cell key ≡ some plane
      → let (w', c) = ensure o w key role in
        (c ≡ some w.next_cell)
        × (get w' key ≡ some w.next_cell)
        × ((w'.cells w.next_cell).role ≡ role)
        × ((w'.cells w.next_cell).state
            ≡ (if role_eq role role_primary then state_primary else state_creating))
        × ((w'.cells w.next_cell).engine ≡ none)
        × ((w'.cells w.next_cell).ready ≡ false)
  unfolding ensure apply_role get
  ensure_new role_none given missing built = absurd (given refl)
  ensure_new role_standby given missing built =
      rw (find_new o w key plane missing built, ensure)
        (ground (arith, lookup-insert key key w.next_cell w.registry, str_eq_iff key key))
  ensure_new role_primary given missing built =
      rw (find_new o w key plane missing built, ensure)
        (ground (arith, lookup-insert key key w.next_cell w.registry, str_eq_iff key key))

module _ (o : Options) (w : World) (key : Str) (c : ℕ) (found : get w key ≡ some c) where
  -- Ensure of a live cell whose parts agree, in a role other than none, gives it the role, and the
  -- state follows: primary for a primary; for a standby, standby if the cell was primary, and as
  -- before if not. The cell keeps its identity and its engine.
  pub ensure_live :
      (role : Role)
      → role ≢ role_none
      → (w.cells c).state ≢ state_draining
      → CellInv (w.cells c)
      → let (w', d) = ensure o w key role in
        (d ≡ some c)
        × (get w' key ≡ some c)
        × ((w'.cells c).role ≡ role)
        × ((w'.cells c).engine ≡ (w.cells c).engine)
        × ((w'.cells c).state ≡ (
            if role_eq role role_primary
            then state_primary
            else if state_eq (w.cells c).state state_primary
            then state_standby
            else (w.cells c).state))
  unfolding ensure apply_role find_or_create get
  ensure_live role given live i = ground arith

  -- Ensure of a cell that is draining, in whatever role, reports no error, leaves the registry,
  -- the drains and the state of the cell as they are, and a config for the cell is refused after
  -- it.
  pub ensure_draining :
      (role : Role) (raw : Str)
      → (w.cells c).state ≡ state_draining
      → let (w', d) = ensure o w key role in
        (d ≡ some c)
        × ((w'.cells c).state ≡ state_draining)
        × (w'.registry ≡ w.registry)
        × (w'.draining ≡ w.draining)
        × (apply_config o w' key raw ≡ (w', failed not_assigned))
  unfolding ensure apply_role find_or_create get apply_config
  ensure_draining role raw dying = ground arith
