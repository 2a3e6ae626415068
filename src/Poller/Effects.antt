-- ===== src/Poller/Effects.antt =====
-- pkg/cell as pkg/poller sees it: what the manager's calls leave alone.
use ai_gateway_epp.Cell.Role.{state_draining, state_eq, Role, role_none, state_creating}
use ai_gateway_epp.Cell.Manager.{set_state, Options, drop, apply_role, ensure}
use ai_gateway_epp.Cell.Model.{World, get, fresh_cell, update}
use ai_gateway_epp.Cell.Apply.{apply_config, done}
use ai_gateway_epp.Cell.Invariant.{Inv}
use ai_gateway_epp.Base.{
  Str, str_eq_iff, lookup-delete, ℕ, ◌≡◌, ◌≢◌, some, arith, str_eq_instance, inl, inr, Option-cases,
  refl, ◌⊎◌, none, [], Bool-cases, insert, lookup-insert, ◌+◌, ◌∙◌,
}
use ai_gateway_epp.Cell.Transitions.{ensure_live, ensure_draining, ensure_new}
use ai_gateway_epp.Cell.Roles.{find_existing, find_refused, find_new, create-Inv}

module _ (w : World) (key : Str) (v : Inv w) where
  -- Drop registers nothing, marks the cell of its key, and wakes no draining cell.
  pub drop-get : (k : Str) (c : ℕ) → get (drop w key) k ≡ some c → get w k ≡ some c
  unfolding drop get
  drop-get k c h = elim (Option-cases (get w key)) [
    | inl missing ↦ ground arith
    | inr (d, found) ↦ ground (arith, lookup-delete key k w.registry, v.registered key d found)
  ]

  pub drop-marks : (c : ℕ) → get w key ≡ some c → ((drop w key).cells c).state ≡ state_draining
  unfolding drop
  drop-marks c found = ground arith

  pub drop-draining :
      (c : ℕ) → (w.cells c).state ≡ state_draining → ((drop w key).cells c).state ≡ state_draining
  unfolding drop
  drop-draining c dying = ground arith

  pub drop-other :
      (k : Str) (c : ℕ)
      → k ≢ key
      → get w k ≡ some c
      → (get (drop w key) k ≡ some c) × ((drop w key).cells c ≡ w.cells c)
  unfolding drop get
  drop-other k c other found = elim (Option-cases (get w key)) [
    | inl missing ↦ ground arith
    | inr (d, held) ↦ ground (
      arith,
      lookup-delete key k w.registry,
      str_eq_iff key k,
      v.registered k c found,
      v.registered key d held,
    )
  ]

module _ (o : Options) (w : World) (key raw : Str) (v : Inv w) where
  -- ApplyConfig changes neither the registry nor the role or the state of a draining cell.
  pub apply_config-get : (k : Str) → get (apply_config o w key raw).0 k ≡ get w k
  unfolding apply_config get
  apply_config-get k = ground arith

  pub apply_config-draining :
      (c : ℕ)
      → (w.cells c).state ≡ state_draining
      → ((apply_config o w key raw).0.cells c).state ≡ state_draining
  unfolding apply_config
  apply_config-draining c dying = ground arith

  pub apply_config-role : (c : ℕ) → ((apply_config o w key raw).0.cells c).role ≡ (w.cells c).role
  unfolding apply_config
  apply_config-role c = ground arith

-- The switch of Ensure touches the cell of its key only.
apply_role-other :
    (w : World) (key : Str) (role : Role) (d : ℕ) (k : Str) (c : ℕ)
    → Inv w
    → get w key ≡ some d
    → k ≢ key
    → get w k ≡ some c
    → (get (apply_role w key d role) k ≡ some c) × ((apply_role w key d role).cells c ≡ w.cells c)
unfolding apply_role get
apply_role-other w key role d k c v held other found =
    let r = v.registered k c found in let s = v.registered key d held in ground arith

-- Ensure leaves the cells of the other keys as they are.
pub ensure-other :
    (o : Options) (w : World) (key : Str) (role : Role) (k : Str) (c : ℕ)
    → Inv w
    → k ≢ key
    → get w k ≡ some c
    → let w' = (ensure o w key role).0 in (get w' k ≡ some c) × (w'.cells c ≡ w.cells c)
unfolding ensure get set_state
ensure-other o w key role k c v other found = elim (Option-cases (get w key)) [
  | inr (d, held) ↦
      rw (find_existing o w key d held, ensure)
        (apply_role-other w key role d k c v held other found)
  | inl missing ↦ elim (Option-cases (o.new_cell key)) [
    | inl rejected ↦ rw (find_refused o w key missing rejected, ensure) (found, refl)
    | inr (plane, built) ↦
        let u : World = record w {
          cells = update w.cells w.next_cell (set_state state_creating (fresh_cell key plane));
          next_cell = w.next_cell + 1;
          registry = insert key w.next_cell w.registry;
        } in
        let r = v.registered k c found in
        let held : get u key ≡ some w.next_cell =
          ground (arith, lookup-insert key key w.next_cell w.registry, str_eq_iff key key) in
        let found' : get u k ≡ some c =
          ground (arith, lookup-insert key k w.next_cell w.registry, str_eq_iff key k) in
        let same : u.cells c ≡ w.cells c = ground arith in
        let moved =
          apply_role-other u key role w.next_cell k c (create-Inv o w v key plane missing) held
            other found' in
        rw (find_new o w key plane missing built, ensure) (moved.0, moved.1 ∙ same)
  ]
]

-- After Ensure without an error the key has a cell, in the requested role or draining.
abbrev pub IsPlaced : World → Str → Role → Type 0
IsPlaced w k role =
    (c : ℕ) × (get w k ≡ some c)
    × (((w.cells c).role ≡ role) ⊎ ((w.cells c).state ≡ state_draining))

pub ensure-IsPlaced :
    (o : Options) (w : World) (key : Str) (role : Role)
    → Inv w
    → role ≢ role_none
    → (ensure o w key role).1 ≢ none
    → IsPlaced (ensure o w key role).0 key role
unfolding ensure get
ensure-IsPlaced o w key role v given done = elim (Option-cases (get w key)) [
  | inl missing ↦ elim (Option-cases (o.new_cell key)) [
    | inl rejected ↦ absurd (done (rw (find_refused o w key missing rejected, ensure)))
    | inr (plane, built) ↦
        let e = ensure_new o w key plane role given missing built in (w.next_cell, e.1, inl e.2)
  ]
  | inr (c, found) ↦ elim (Bool-cases (state_eq (w.cells c).state state_draining)) [
    | inl dying ↦
        let e = ensure_draining o w key c found role [] (ground arith) in (c, rw e.2 found, inr e.1)
    | inr live ↦
        let e = ensure_live o w key c found role given (ground arith) (v.cells_inv c) in
        (c, e.1, inl e.2)
  ]
]
