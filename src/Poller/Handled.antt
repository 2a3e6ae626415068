-- ===== src/Poller/Handled.antt =====
-- pkg/poller/epp_data.go: what EppDataWatcher.Handle leaves in the cell manager.
use ai_gateway_epp.Cell.Role.{Role, state_draining}
use ai_gateway_epp.Base.{
  Str, str_eq_iff, lookup, insert, lookup-insert, ◌≡◌, refl, Option, none, some, List, [], ◌∷◌,
  arith, if◌then◌else◌, str_eq_instance, str_eq, ℕ, sym, ◌∙◌, inl, inr, map, Option-cases,
  Bool-cases, true, false,
}
use ai_gateway_epp.Poller.Assignment.{resolve_role, resolve_all, AssignmentEntry}
use ai_gateway_epp.Poller.Endpoints.{HasDistinctKeys}
use ai_gateway_epp.Poller.Watcher.{
  apply_if_mine, apply_all, EppDataConfig, ensure_all, drop_missing, handle_data,
}
use ai_gateway_epp.Poller.Effects.{
  apply_config-draining, IsPlaced, apply_config-role, apply_config-get,
}
use ai_gateway_epp.Poller.Drops.{
  Member, drop_missing-Pending, drop_missing-IsPlaced, drop_missing-Inv,
}
use ai_gateway_epp.Cell.Swaps.{apply_config-Inv}
use ai_gateway_epp.Cell.Apply.{apply_config}
use ai_gateway_epp.Cell.Invariant.{Inv}
use ai_gateway_epp.Cell.Model.{get, World, list}
use ai_gateway_epp.Cell.Manager.{Options}
use ai_gateway_epp.Poller.Sync.{
  ensure_all-IsPlaced, ensure_all-Inv, resolve_all-IsRoleMap, IsRoleMap,
}

-- The role that the assignment view gives to an instance in a cluster, if it gives one.
abbrev pub assigned_role : Str → List (Str × AssignmentEntry) → Str → Option Role
assigned_role self a k = elim (lookup k a) [
  | none ↦ none
  | some e ↦ let (role, ok) = resolve_role self e in if ok then some role else none
]

pub resolve_all_lem :
    (self k : Str) (a : List (Str × AssignmentEntry)) (m : List (Str × Role))
    → HasDistinctKeys a
    → lookup k (resolve_all self a m)
      ≡ elim (assigned_role self a k) [ none ↦ lookup k m | some role ↦ some role ]
unfolding resolve_all lookup
resolve_all_lem self k [] m h = refl
resolve_all_lem self k ((j, e) ∷ a) m h = ground (
  arith,
  resolve_all_lem self k a m h.1,
  resolve_all_lem self k a (insert j (resolve_role self e).0 m) h.1,
  lookup-insert j k (resolve_role self e).0 m,
  str_eq_iff j k,
)

lookup-Member :
    (m : List (Str × ℕ)) (k : Str) (c : ℕ) → lookup k m ≡ some c → Member c (map (λ r. r.1) m)
unfolding lookup
lookup-Member [] k c h = ground arith
lookup-Member ((j, d) ∷ m) k c h = elim (Bool-cases (str_eq j k)) [
  | inl this ↦ ground arith
  | inr other ↦ inr (lookup-Member m k c (ground arith))
]

-- A run of ApplyConfig over the map keeps what the two loops before it have reached.
abbrev pub Reached : List (Str × Role) → World → Type 0
Reached mine w =
    Inv w
    × ((k : Str) (role : Role) → lookup k mine ≡ some role → IsPlaced w k role)
    × ((k : Str) (c : ℕ)
        → lookup k mine ≡ none
        → get w k ≡ some c
        → (w.cells c).state ≡ state_draining)

module _ (o : Options) (mine : List (Str × Role)) where
  apply_config-Reached :
      (w : World) (key raw : Str) → Reached mine w → Reached mine (apply_config o w key raw).0
  apply_config-Reached w key raw (v, placed, gone) = (
    apply_config-Inv o w v key raw,
    λ k role h.
        let (c, found, p) = placed k role h in
        (
          c,
          apply_config-get o w key raw v k ∙ found,
          ground
              (arith, p, apply_config-role o w key raw v c, apply_config-draining o w key raw v c),
        ),
    λ k c h held.
        let found : get w k ≡ some c = sym (apply_config-get o w key raw v k) ∙ held in
        apply_config-draining o w key raw v c (gone k c h found),
  )

  apply_all-Reached :
      (cs : List (Str × Str)) (w : World) → Reached mine w → Reached mine (apply_all o mine cs w)
  unfolding apply_all apply_if_mine
  apply_all-Reached [] w h = h
  apply_all-Reached ((key, raw) ∷ cs) w h = elim (Option-cases (lookup key mine)) [
    | inl other ↦ rw (other, apply_all, apply_if_mine) (apply_all-Reached cs w h)
    | inr (r, found) ↦
        rw (found, apply_all, apply_if_mine)
          (apply_all-Reached cs _ (apply_config-Reached w key raw h))
  ]

-- A cluster with a role has a registered cell in that role, or one that is draining; a cluster
-- without one has none, or one that is draining.
unfoldable pub IsSettled : World → Str → Option Role → Type 0
IsSettled w k (some role) = IsPlaced w k role
IsSettled w k none = elim (get w k) [ none ↦ Unit | some c ↦ (w.cells c).state ≡ state_draining ]

Reached-IsSettled :
    (mine : List (Str × Role)) (w : World) (k : Str)
    → Reached mine w
    → (r : Option Role) → lookup k mine ≡ elim r [ none ↦ none | some role ↦ some role ]
    → IsSettled w k r
unfolding IsSettled
Reached-IsSettled mine w k h (some role) e = h.1 k role e
Reached-IsSettled mine w k h none e = elim (Option-cases (get w k)) [
  | inl missing ↦ rw (missing, IsSettled) tt
  | inr (c, found) ↦ rw (found, IsSettled) (h.2 k c e found)
]

module _ (o : Options) (self : Str) (w : World) (cfg : EppDataConfig) (v : Inv w) where
  abbrev mine : List (Str × Role)
  mine = resolve_all self cfg.assignment []

  pub after_drops-Reached :
      (ensure_all o w mine).1 ≡ true
      → let u = (ensure_all o w mine).0 in Reached mine (drop_missing mine (list u) u)
  unfolding list get
  after_drops-Reached good =
      let u = (ensure_all o w mine).0 in
      let i : Inv u = ensure_all-Inv o mine w v in
      (
        drop_missing-Inv mine (list u) u i,
        λ k role h. drop_missing-IsPlaced mine (list u) u k role i h (
            ensure_all-IsPlaced o mine w k role v
              (resolve_all-IsRoleMap self cfg.assignment [] (unfold IsRoleMap in tt)) good h),
        λ k c out held.
            elim (drop_missing-Pending mine (list u) u i
              (λ j d h found. inr (lookup-Member u.registry j d found)) k c out held) [
                | inl dying ↦ dying
                | inr never ↦ absurd never
              ],
      )

  -- When Handle ends without an error, from a manager whose parts agree and for an assignment view
  -- whose clusters differ, the parts still agree and every cluster k is settled: with a role in
  -- the view its registered cell is in that role or draining, and without one it has no registered
  -- cell or a draining one.
  pub handle_data_synced :
      (k : Str)
      → HasDistinctKeys cfg.assignment
      → (handle_data o self w cfg).1 ≡ true
      → let w' = (handle_data o self w cfg).0 in
        Inv w' × IsSettled w' k (assigned_role self cfg.assignment k)
  unfolding handle_data lookup IsSettled
  handle_data_synced k distinct good = elim (Bool-cases (ensure_all o w mine).1) [
    | inr broken ↦ ground arith
    | inl through ↦
        let r = apply_all-Reached o mine cfg.epp_config _ (after_drops-Reached through) in
        rw (through, handle_data)
          (r.0, Reached-IsSettled mine _ k r _ (resolve_all_lem self k cfg.assignment [] distinct))
  ]

  -- When Handle ends with an error, from a manager whose parts agree, it has run the loop over
  -- Ensure only, and the parts still agree.
  handle_data_broken :
      (handle_data o self w cfg).1 ≡ false
      → ((handle_data o self w cfg).0 ≡ (ensure_all o w mine).0) × Inv (handle_data o self w cfg).0
  unfolding handle_data
  handle_data_broken bad = elim (Bool-cases (ensure_all o w mine).1) [
    | inl through ↦ ground arith
    | inr broken ↦ rw (broken, handle_data) (refl, ensure_all-Inv o mine w v)
  ]

  pub handle_data-Inv : Inv (handle_data o self w cfg).0
  unfolding handle_data
  handle_data-Inv = elim (Bool-cases (ensure_all o w mine).1) [
    | inl through ↦
        rw (through, handle_data)
          (apply_all-Reached o mine cfg.epp_config _ (after_drops-Reached through)).0
    | inr broken ↦ rw (broken, handle_data) (ensure_all-Inv o mine w v)
  ]
