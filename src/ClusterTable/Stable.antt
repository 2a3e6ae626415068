-- ===== src/ClusterTable/Stable.antt =====
-- pkg/eppplugin/clustertable/discovery.go: the order of the calls of apply, and their absence when
-- nothing has changed.
use ai_gateway_epp.ClusterTable.Endpoint.{Endpoint, id_beq_iff, NamespacedName, id_eq}
use ai_gateway_epp.ClusterTable.Discovery.{
  delete_stale, delete_call, Call, upsert_call, apply, Applied, upsert_all, contains_id, is_applied,
}
use ai_gateway_epp.Base.{
  insert, delete, All, ◌≡◌, refl, inl, inr, Bool, true, false, List, [], ◌∷◌, ◌++◌, arith,
  Bool-cases, str_eq_instance, lookup, All-mono, ◌∙◌, ◌≢◌, ◌↔◌, none, some,
}
use mathlib.Core.List.{append_assoc}
use ai_gateway_epp.ClusterTable.Diff.{contains_id-last_of, last_of, lookup-apply}

abbrev pub IsDelete : List Endpoint → Call → Type 0
IsDelete desired (delete_call id) = contains_id desired id ≡ false
IsDelete desired (upsert_call m) = ⊥

abbrev pub IsUpsert : List Endpoint → Call → Type 0
IsUpsert desired (delete_call id) = ⊥
IsUpsert desired (upsert_call m) = contains_id desired m.id ≡ true

delete_stale-IsDelete :
    (it : Applied) (desired : List Endpoint) (applied : Applied)
    → All (IsDelete desired) (delete_stale it desired applied).1
unfolding delete_stale
delete_stale-IsDelete [] desired applied = tt
delete_stale-IsDelete ((id, x) ∷ it) desired applied = elim (Bool-cases (contains_id desired id)) [
  | inl kept ↦ rw kept (delete_stale-IsDelete it desired applied)
  | inr stale ↦ rw stale (stale, delete_stale-IsDelete it desired (delete id applied))
]

contains_id-append : (xs ms : List Endpoint) (m : Endpoint) → contains_id (xs ++ m ∷ ms) m.id ≡ true
unfolding contains_id
contains_id-append [] ms m = ground (arith, id_beq_iff m.id m.id)
contains_id-append (x ∷ xs) ms m = ground (arith, contains_id-append xs ms m)

All-contained : (ms xs : List Endpoint) → All (λ m. contains_id (xs ++ ms) m.id ≡ true) ms
All-contained [] xs = tt
All-contained (m ∷ ms) xs =
    (contains_id-append xs ms m, rw append_assoc at (All-contained ms (xs ++ m ∷ [])))

module _ (equal : Endpoint → Endpoint → Bool) where
  upsert_all-IsUpsert :
      (desired ms : List Endpoint) (applied : Applied)
      → All (λ m. contains_id desired m.id ≡ true) ms
      → All (IsUpsert desired) (upsert_all equal ms applied).1
  unfolding upsert_all
  upsert_all-IsUpsert desired [] applied h = tt
  upsert_all-IsUpsert desired (m ∷ ms) applied h = elim (Bool-cases (is_applied equal applied m)) [
    | inl old ↦ rw old (upsert_all-IsUpsert desired ms applied h.1)
    | inr new ↦ rw new (h.0, upsert_all-IsUpsert desired ms (insert m.id m applied) h.1)
  ]

  -- The calls of apply are deletes of ids that are not desired, followed by upserts of endpoints
  -- whose ids are: no delete comes after an upsert.
  apply_ordered :
      (desired : List Endpoint) (applied : Applied)
      → (ds us : List Call) × ((apply equal desired applied).1 ≡ ds ++ us)
        × All (IsDelete desired) ds
        × All (IsUpsert desired) us
  unfolding apply
  apply_ordered desired applied = (
    (delete_stale applied desired applied).1,
    (upsert_all equal desired (delete_stale applied desired applied).0).1,
    refl,
    delete_stale-IsDelete applied desired applied,
    upsert_all-IsUpsert desired desired _ (All-contained desired []),
  )

-- No id stands twice.
unfoldable pub HasDistinctIds : List Endpoint → Type 0
HasDistinctIds [] = Unit
HasDistinctIds (m ∷ ms) = (contains_id ms m.id ≡ false) × HasDistinctIds ms

distinct-last_of : (ms : List Endpoint) → HasDistinctIds ms → All (λ m. last_of m.id ms ≡ some m) ms
unfolding last_of HasDistinctIds
distinct-last_of [] h = tt
distinct-last_of (m ∷ ms) h = (
  ground (arith, contains_id-last_of m.id ms h.0, id_beq_iff m.id m.id),
  All-mono (λ x. last_of x.id ms ≡ some x) _ (λ x e. ground arith) ms (distinct-last_of ms h.1),
)

-- What holds of every id that a map finds holds of the keys of its entries.
All-found :
    (P : NamespacedName → Type 0) (a : Applied)
    → ((id : NamespacedName) → lookup id a ≢ none → P id)
    → All (λ e. P e.0) a
unfolding lookup
All-found P [] f = tt
All-found P ((id, x) ∷ a) f =
    (f id (ground (arith, id_beq_iff id id)), All-found P a (λ j h. f j (ground arith)))

delete_stale_none :
    (it : Applied) (desired : List Endpoint) (a : Applied)
    → All (λ e. contains_id desired e.0 ≡ true) it
    → delete_stale it desired a ≡ (a, [])
unfolding delete_stale
delete_stale_none [] desired a h = refl
delete_stale_none ((id, x) ∷ it) desired a h = rw h.0 (delete_stale_none it desired a h.1)

module _ (equal : Endpoint → Endpoint → Bool) where
  upsert_all_none :
      (ms : List Endpoint) (a : Applied)
      → All (λ m. is_applied equal a m ≡ true) ms
      → upsert_all equal ms a ≡ (a, [])
  unfolding upsert_all
  upsert_all_none [] a h = refl
  upsert_all_none (m ∷ ms) a h = rw h.0 (upsert_all_none ms a h.1)

module _ (equal : Endpoint → Endpoint → Bool)
    (equal_iff : (a b : Endpoint) → (equal a b ≡ true) ↔ (a ≡ b)) where
  lookup-is_applied :
      (a : Applied) (m : Endpoint) → lookup m.id a ≡ some m → is_applied equal a m ≡ true
  unfolding is_applied
  lookup-is_applied a m found = ground (arith, equal_iff m m)

  -- If Equal is equality, a second apply of the same endpoints, no id of which stands twice, sends
  -- nothing and leaves the applied map as it is.
  apply_again :
      (desired : List Endpoint) (applied : Applied)
      → HasDistinctIds desired
      → let a = (apply equal desired applied).0 in apply equal desired a ≡ (a, [])
  apply_again desired applied distinct =
      let a : Applied = (apply equal desired applied).0 in
      let at = lookup-apply equal (λ x y. (equal_iff x y).0) desired applied in
      let kept : All (λ e. contains_id desired e.0 ≡ true) a =
        All-found (λ id. contains_id desired id ≡ true) a
          (λ id h. ground (arith, at id, contains_id-last_of id desired)) in
      let same : All (λ m. is_applied equal a m ≡ true) desired =
        All-mono (λ m. last_of m.id desired ≡ some m) _ (λ m e. lookup-is_applied a m (at m.id ∙ e))
          desired (distinct-last_of desired distinct) in
      unfold apply in rw (delete_stale_none a desired a kept, upsert_all_none equal desired a same)
