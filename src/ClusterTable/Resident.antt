-- ===== src/ClusterTable/Resident.antt =====
-- pkg/eppplugin/clustertable/discovery.go: a new plugin over the datastore of its cell, which stays when
-- the engine is replaced.
use ai_gateway_epp.ClusterTable.Endpoint.{id_eq, Endpoint, NamespacedName, id_beq_iff}
use ai_gateway_epp.ClusterTable.Discovery.{
  delete_stale, contains_id, upsert_all, Applied, apply, start_rounds, notify, is_applied,
}
use ai_gateway_epp.ClusterTable.Diff.{
  last_of, or_else, notify-append, lookup-start_rounds, is_applied-lookup, contains_id-last_of,
  last_of-contains_id,
}
use ai_gateway_epp.ClusterTable.Hub.{snapshot, Hub}
use ai_gateway_epp.Base.{
  lookup, insert, delete, lookup-insert, lookup-delete, ◌≡◌, refl, Bool, true, false, ◌||◌, Option,
  none, List, [], ◌∷◌, ◌++◌, arith, if◌then◌else◌, Str, inl, inr, Bool-cases, str_eq_instance, some,
}

-- Some of the hubs has the id among the endpoints of the cluster.
pub is_seen : Str → NamespacedName → List Hub → Bool
is_seen cluster id [] = false
is_seen cluster id (h ∷ hs) = contains_id (snapshot cluster h).0 id || is_seen cluster id hs

-- The applied map and the store at one id: they agree once the plugin has met the id, and before that
-- the map has nothing for it and the store what it had.
abbrev Follows : NamespacedName → Option Endpoint → Bool → Applied → Applied → Type 0
Follows id base met applied store =
    (lookup id store ≡ (if met then lookup id applied else base))
    × (lookup id applied ≡ (if met then lookup id applied else none))

module _ (id : NamespacedName) (base : Option Endpoint) where
  delete_stale-Follows :
      (it : Applied) (desired : List Endpoint) (met : Bool) (applied store : Applied)
      → Follows id base met applied store
      → lookup id it ≡ (if met then lookup id it else none)
      → Follows id base met
          (delete_stale it desired applied).0
          (notify store (delete_stale it desired applied).1)
  unfolding delete_stale notify lookup
  delete_stale-Follows [] desired met applied store f h = f
  delete_stale-Follows ((j, x) ∷ it) desired met applied store f h =
      elim (Bool-cases (contains_id desired j)) [
        | inl kept ↦
            rw kept (delete_stale-Follows it desired met applied store f (ground (arith, h)))
        | inr stale ↦ rw stale (
            delete_stale-Follows it desired met (delete j applied) (delete j store)
              (ground (
                arith,
                f,
                h,
                lookup-delete j id store,
                lookup-delete j id applied,
                id_beq_iff j id,
              ))
              (ground (arith, h)))
      ]

or_assoc : (a b c : Bool) → ((a || b) || c) ≡ (a || (b || c))
or_assoc true b c = refl
or_assoc false b c = refl

or_false : (a : Bool) → (a || false) ≡ a
or_false true = refl
or_false false = refl

is_seen-append :
    (cluster : Str) (id : NamespacedName) (hs : List Hub) (h : Hub)
    → is_seen cluster id (hs ++ h ∷ [])
      ≡ is_seen cluster id hs || contains_id (snapshot cluster h).0 id
unfolding is_seen
is_seen-append cluster id [] h = ground arith
is_seen-append cluster id (g ∷ gs) h = ground (arith, is_seen-append cluster id gs h)

module _ (equal : Endpoint → Endpoint → Bool)
    (equal_sound : (a b : Endpoint) → equal a b ≡ true → a ≡ b) (id : NamespacedName)
    (base : Option Endpoint) where
  upsert_all-Follows :
      (ms : List Endpoint) (met : Bool) (applied store : Applied)
      → Follows id base met applied store
      → Follows id base
          (met || contains_id ms id)
          (upsert_all equal ms applied).0
          (notify store (upsert_all equal ms applied).1)
  unfolding upsert_all notify contains_id
  upsert_all-Follows [] met applied store f = ground (arith, f)
  upsert_all-Follows (m ∷ ms) met applied store f =
      rw (← or_assoc met (id_eq.beq m.id id) (contains_id ms id))
        (elim (Bool-cases (is_applied equal applied m)) [
          | inl old ↦ rw old (
              upsert_all-Follows ms (met || id_eq.beq m.id id) applied store
                (already f (is_applied-lookup equal equal_sound applied m old)))
          | inr new ↦ rw new (
              upsert_all-Follows ms (met || id_eq.beq m.id id) (insert m.id m applied)
                (insert m.id m store) (arrived f))
        ])
    where
      already :
          Follows id base met applied store
          → lookup m.id applied ≡ some m
          → Follows id base (met || id_eq.beq m.id id) applied store
      already g known = ground (arith, g, known, id_beq_iff m.id id)

      arrived :
          Follows id base met applied store
          → Follows id base (met || id_eq.beq m.id id) (insert m.id m applied) (insert m.id m store)
      arrived g = ground (
        arith,
        g,
        lookup-insert m.id id m applied,
        lookup-insert m.id id m store,
        id_beq_iff m.id id,
      )

  apply-Follows :
      (desired : List Endpoint) (met : Bool) (applied store : Applied)
      → Follows id base met applied store
      → Follows id base
          (met || contains_id desired id)
          (apply equal desired applied).0
          (notify store (apply equal desired applied).1)
  unfolding apply
  apply-Follows desired met applied store f = rw notify-append (
      upsert_all-Follows desired met _ _
        (delete_stale-Follows id base applied desired met applied store f f.1))

  start_rounds-Follows :
      (cluster : Str) (hs : List Hub) (met : Bool) (applied store : Applied)
      → Follows id base met applied store
      → Follows id base
          (met || is_seen cluster id hs)
          (start_rounds equal cluster hs applied).0
          (notify store (start_rounds equal cluster hs applied).1)
  unfolding start_rounds notify is_seen
  start_rounds-Follows cluster [] met applied store f = rw or_false f
  start_rounds-Follows cluster (h ∷ hs) met applied store f =
      rw
        (
          notify-append,
          ← or_assoc met (contains_id (snapshot cluster h).0 id) (is_seen cluster id hs),
        )
        (start_rounds-Follows cluster hs (met || contains_id (snapshot cluster h).0 id) _ _
          (apply-Follows (snapshot cluster h).0 met applied store f))

  -- After any rounds of Start of a new plugin over a store that holds `base` for an id, the store has
  -- for it the endpoint of the last round's hub; if that has none, nothing when an earlier round's
  -- hub had one, and `base` when none had.
  pub start_rounds-resident :
      (cluster : Str) (hs : List Hub) (h : Hub) (store : Applied)
      → lookup id store ≡ base
      → lookup id (notify store (start_rounds equal cluster (hs ++ h ∷ []) []).1)
        ≡ or_else (last_of id (snapshot cluster h).0) (if is_seen cluster id hs then none else base)
  unfolding lookup
  start_rounds-resident cluster hs h store holds =
      let ms = (snapshot cluster h).0 in
      let f = start_rounds-Follows cluster (hs ++ h ∷ []) false [] store (holds, refl) in
      ground (
        arith,
        f.0,
        is_seen-append cluster id hs h,
        lookup-start_rounds equal equal_sound cluster hs h [] id,
        contains_id-last_of id ms,
        last_of-contains_id id ms,
      )
