-- ===== src/Poller/Sync.antt =====
-- pkg/poller/epp_data.go: the loop over Ensure in Handle.
use ai_gateway_epp.Cell.Role.{Role, role_none}
use ai_gateway_epp.Cell.Model.{World}
use ai_gateway_epp.Cell.Manager.{Options, ensure}
use ai_gateway_epp.Cell.Invariant.{Inv}
use ai_gateway_epp.Cell.Roles.{ensure-Inv}
use ai_gateway_epp.Poller.Watcher.{ensure_all}
use ai_gateway_epp.Poller.Effects.{IsPlaced, ensure-other, ensure-IsPlaced}
use ai_gateway_epp.Poller.Assignment.{resolve_role, AssignmentEntry, resolve_all}
use ai_gateway_epp.Base.{
  Str, str_eq_iff, str_eq, lookup, insert, lookup-insert, ℕ, ◌≡◌, refl, ◌≢◌, inl, inr, true, none,
  some, List, [], ◌∷◌, arith, Bool-cases, Option-cases, str_eq_instance, false,
}

-- The roles of a map of assignments: distinct clusters, each with a role.
unfoldable pub IsRoleMap : List (Str × Role) → Type 0
IsRoleMap [] = Unit
IsRoleMap ((k, r) ∷ m) = (lookup k m ≡ none) × (r ≢ role_none) × IsRoleMap m

insert-IsRoleMap :
    (k : Str) (r : Role) (m : List (Str × Role))
    → r ≢ role_none
    → IsRoleMap m
    → IsRoleMap (insert k r m)
unfolding insert IsRoleMap
insert-IsRoleMap k r [] given h = (unfold lookup in refl, given, tt)
insert-IsRoleMap k r ((j, s) ∷ m) given h = elim (Bool-cases (str_eq j k)) [
  | inl same ↦ rw same (ground (arith, str_eq_iff j k, h.0), given, h.2)
  | inr other ↦ rw other (
    ground (arith, lookup-insert k j r m, str_eq_iff j k, str_eq_iff k j, h.0),
    h.1,
    insert-IsRoleMap k r m given h.2,
  )
]

resolve_role_given :
    (self : Str) (e : AssignmentEntry)
    → (resolve_role self e).1 ≡ true
    → (resolve_role self e).0 ≢ role_none
unfolding resolve_role
resolve_role_given self e h n = ground arith

pub resolve_all-IsRoleMap :
    (self : Str) (a : List (Str × AssignmentEntry)) (m : List (Str × Role))
    → IsRoleMap m
    → IsRoleMap (resolve_all self a m)
unfolding resolve_all
resolve_all-IsRoleMap self [] m h = h
resolve_all-IsRoleMap self ((k, e) ∷ a) m h = elim (Bool-cases (resolve_role self e).1) [
  | inl mine ↦ rw mine (
      resolve_all-IsRoleMap self a _
        (insert-IsRoleMap k (resolve_role self e).0 m (resolve_role_given self e mine) h))
  | inr other ↦ rw other (resolve_all-IsRoleMap self a m h)
]

module _ (o : Options) (w : World) (k : Str) (r : Role) (m : List (Str × Role)) where
  pub ensure_all_broken :
      (ensure o w k r).1 ≡ none → ensure_all o w ((k, r) ∷ m) ≡ ((ensure o w k r).0, false)
  unfolding ensure_all
  ensure_all_broken broken = ground arith

  pub ensure_all_next :
      (c : ℕ)
      → (ensure o w k r).1 ≡ some c
      → ensure_all o w ((k, r) ∷ m) ≡ ensure_all o (ensure o w k r).0 m
  unfolding ensure_all
  ensure_all_next c made = ground arith

module _ (o : Options) where
  -- What the loop over Ensure leaves, when it ends without an error.
  pub ensure_all-Inv : (m : List (Str × Role)) (w : World) → Inv w → Inv (ensure_all o w m).0
  ensure_all-Inv [] w v = unfold ensure_all in v
  ensure_all-Inv ((k, r) ∷ m) w v = elim (Option-cases (ensure o w k r).1) [
    | inl broken ↦ rw (ensure_all_broken o w k r m broken) (ensure-Inv o w v k r)
    | inr (c, made) ↦
        rw (ensure_all_next o w k r m c made) (ensure_all-Inv m _ (ensure-Inv o w v k r))
  ]

  ensure_all-IsPlaced_kept :
      (m : List (Str × Role)) (w : World) (k : Str) (role : Role)
      → Inv w
      → lookup k m ≡ none
      → IsPlaced w k role
      → IsPlaced (ensure_all o w m).0 k role
  unfolding lookup
  ensure_all-IsPlaced_kept [] w k role v h p = unfold ensure_all in p
  ensure_all-IsPlaced_kept ((j, r) ∷ m) w k role v h (c, found, placed) =
      let e = ensure-other o w j r k c v (ground (arith, str_eq_iff j k)) found in
      let p : IsPlaced (ensure o w j r).0 k role = (c, e.0, rw e.1 placed) in
      elim (Option-cases (ensure o w j r).1) [
        | inl broken ↦ rw (ensure_all_broken o w j r m broken) p
        | inr (d, made) ↦
            rw (ensure_all_next o w j r m d made)
              (ensure_all-IsPlaced_kept m _ k role (ensure-Inv o w v j r) (ground arith) p)
      ]

  pub ensure_all-IsPlaced :
      (m : List (Str × Role)) (w : World) (k : Str) (role : Role)
      → Inv w
      → IsRoleMap m
      → (ensure_all o w m).1 ≡ true
      → lookup k m ≡ some role
      → IsPlaced (ensure_all o w m).0 k role
  unfolding lookup IsRoleMap
  ensure_all-IsPlaced [] w k role v h good found = cc
  ensure_all-IsPlaced ((j, r) ∷ m) w k role v h good found =
      elim (Option-cases (ensure o w j r).1) [
        | inl broken ↦ cc (ensure_all_broken o w j r m broken, good)
        | inr (d, made) ↦ rw (ensure_all_next o w j r m d made) (elim (Bool-cases (str_eq j k)) [
          | inl this ↦
              let here = ensure-IsPlaced o w j r v h.1 (ground arith) in
              let e : j ≡ k = (str_eq_iff j k).0 this in
              let e' : r ≡ role = ground arith in
              ensure_all-IsPlaced_kept m _ k role (ensure-Inv o w v j r) (rw (← e) h.0)
                (rw (← e, ← e') here)
          | inr other ↦
              ensure_all-IsPlaced m _ k role (ensure-Inv o w v j r) h.2
                (rw (ensure_all_next o w j r m d made) at good) (ground arith)
        ])
      ]
