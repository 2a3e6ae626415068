-- ===== src/ClusterTable/Diff.antt =====
-- pkg/eppplugin/clustertable/discovery.go: apply against the applied map, and the datastore behind the
-- notifier.
use ai_gateway_epp.ClusterTable.Endpoint.{id_eq, Endpoint, NamespacedName, id_beq_iff}
use ai_gateway_epp.ClusterTable.Discovery.{
  delete_stale, contains_id, upsert_all, Applied, delete_call, Call, apply, start_rounds, notify,
  is_applied, upsert_call,
}
use ai_gateway_epp.Base.{
  lookup, insert, delete, lookup-insert, lookup-delete, ◌≡◌, refl, ◌≢◌, Bool, true, false, Option,
  none, some, List, [], ◌∷◌, arith, if◌then◌else◌, str_eq_instance, Str, ◌∙◌, inl, inr, ◌++◌,
  Option-cases, Bool-cases,
}
use ai_gateway_epp.ClusterTable.Hub.{snapshot, Hub}

-- The endpoint that a desired list has for an id: the last one, if it has several.
unfoldable pub last_of : NamespacedName → List Endpoint → Option Endpoint
last_of id [] = none
last_of id (m ∷ ms) = elim (last_of id ms) [
  | some x ↦ some x
  | none ↦ if id_eq.beq m.id id then some m else none
]

abbrev pub or_else : Option Endpoint → Option Endpoint → Option Endpoint
or_else (some x) o = some x
or_else none o = o

pub contains_id-last_of :
    (id : NamespacedName) (ms : List Endpoint) → contains_id ms id ≡ false → last_of id ms ≡ none
unfolding contains_id last_of
contains_id-last_of id [] h = refl
contains_id-last_of id (m ∷ ms) h = ground (arith, contains_id-last_of id ms)

pub last_of-contains_id :
    (id : NamespacedName) (ms : List Endpoint) → contains_id ms id ≡ true → last_of id ms ≢ none
unfolding contains_id last_of
last_of-contains_id id [] h = ground arith
last_of-contains_id id (m ∷ ms) h = ground (arith, last_of-contains_id id ms)

-- The first loop takes out exactly the ids that it meets and that are not desired.
lookup-delete_stale :
    (it : Applied) (desired : List Endpoint) (applied : Applied) (id : NamespacedName)
    → lookup id (delete_stale it desired applied).0 ≡ (
        if contains_id desired id
        then lookup id applied
        else elim (lookup id it) [ some _ ↦ none | none ↦ lookup id applied ])
unfolding delete_stale lookup
lookup-delete_stale [] desired applied id = ground arith
lookup-delete_stale ((j, x) ∷ it) desired applied id = ground (
  arith,
  lookup-delete_stale it desired applied id,
  lookup-delete_stale it desired (delete j applied) id,
  lookup-delete j id applied,
  id_beq_iff j id,
)

module _ (equal : Endpoint → Endpoint → Bool)
    (equal_sound : (a b : Endpoint) → equal a b ≡ true → a ≡ b) where
  pub is_applied-lookup :
      (applied : Applied) (m : Endpoint)
      → is_applied equal applied m ≡ true
      → lookup m.id applied ≡ some m
  unfolding is_applied
  is_applied-lookup applied m h = elim (Option-cases (lookup m.id applied)) [
    | inl missing ↦ ground arith
    | inr (old, found) ↦ ground (arith, equal_sound old m)
  ]

  -- The second loop leaves, for each id, the last endpoint that the list has for it.
  lookup-upsert_all :
      (ms : List Endpoint) (applied : Applied) (id : NamespacedName)
      → lookup id (upsert_all equal ms applied).0 ≡ or_else (last_of id ms) (lookup id applied)
  unfolding upsert_all last_of
  lookup-upsert_all [] applied id = refl
  lookup-upsert_all (m ∷ ms) applied id = elim (Bool-cases (is_applied equal applied m)) [
    | inl old ↦ ground (
      arith,
      lookup-upsert_all ms applied id,
      is_applied-lookup applied m old,
      id_beq_iff m.id id,
    )
    | inr new ↦
        ground
          (arith, lookup-upsert_all ms (insert m.id m applied) id, lookup-insert m.id id m applied)
  ]

  -- After apply, the applied map has, for every id, exactly the endpoint that the desired list has
  -- for it (the last, if there are several), and nothing for the ids that are not desired.
  pub lookup-apply :
      (desired : List Endpoint) (applied : Applied) (id : NamespacedName)
      → lookup id (apply equal desired applied).0 ≡ last_of id desired
  unfolding apply
  lookup-apply desired applied id = ground (
    arith,
    lookup-upsert_all desired (delete_stale applied desired applied).0 id,
    lookup-delete_stale applied desired applied id,
    contains_id-last_of id desired,
    last_of-contains_id id desired,
  )

-- The calls of each loop, sent to a store that agrees with the map, lead to a store that agrees with
-- the new map.
abbrev pub Agree : Applied → Applied → Type 0
Agree a b = (id : NamespacedName) → lookup id a ≡ lookup id b

pub notify-append :
    (store : Applied) (cs ds : List Call) → notify store (cs ++ ds) ≡ notify (notify store cs) ds
unfolding notify
notify-append store [] ds = refl
notify-append store (delete_call id ∷ cs) ds = notify-append (delete id store) cs ds
notify-append store (upsert_call m ∷ cs) ds = notify-append (insert m.id m store) cs ds

delete-Agree : (id : NamespacedName) (a b : Applied) → Agree a b → Agree (delete id a) (delete id b)
delete-Agree id a b h j = ground (arith, lookup-delete id j a, lookup-delete id j b, h j)

insert-Agree :
    (id : NamespacedName) (m : Endpoint) (a b : Applied)
    → Agree a b
    → Agree (insert id m a) (insert id m b)
insert-Agree id m a b h j = ground (arith, lookup-insert id j m a, lookup-insert id j m b, h j)

notify-delete_stale :
    (it : Applied) (desired : List Endpoint) (applied store : Applied)
    → Agree store applied
    → Agree (notify store (delete_stale it desired applied).1) (delete_stale it desired applied).0
unfolding delete_stale notify
notify-delete_stale [] desired applied store h = h
notify-delete_stale ((j, x) ∷ it) desired applied store h =
    elim (Bool-cases (contains_id desired j)) [
      | inl kept ↦ rw kept (notify-delete_stale it desired applied store h)
      | inr stale ↦ rw stale (
          notify-delete_stale it desired (delete j applied) (delete j store)
            (delete-Agree j store applied h))
    ]

module _ (equal : Endpoint → Endpoint → Bool) where
  notify-upsert_all :
      (ms : List Endpoint) (applied store : Applied)
      → Agree store applied
      → Agree (notify store (upsert_all equal ms applied).1) (upsert_all equal ms applied).0
  unfolding upsert_all notify
  notify-upsert_all [] applied store h = h
  notify-upsert_all (m ∷ ms) applied store h = elim (Bool-cases (is_applied equal applied m)) [
    | inl old ↦ rw old (notify-upsert_all ms applied store h)
    | inr new ↦ rw new (
        notify-upsert_all ms (insert m.id m applied) (insert m.id m store)
          (insert-Agree m.id m store applied h))
  ]

  -- The notifier's store goes with the applied map: if the two agree before apply, they agree after.
  pub notify-apply :
      (desired : List Endpoint) (applied store : Applied)
      → Agree store applied
      → Agree (notify store (apply equal desired applied).1) (apply equal desired applied).0
  unfolding apply
  notify-apply desired applied store h =
      rw notify-append
        (notify-upsert_all desired _ _ (notify-delete_stale applied desired applied store h))

  notify-start_rounds :
      (cluster : Str) (hs : List Hub) (applied store : Applied)
      → Agree store applied
      → Agree
          (notify store (start_rounds equal cluster hs applied).1)
          (start_rounds equal cluster hs applied).0
  unfolding start_rounds notify
  notify-start_rounds cluster [] applied store h = h
  notify-start_rounds cluster (g ∷ gs) applied store h =
      rw notify-append
        (notify-start_rounds cluster gs _ _ (notify-apply (snapshot cluster g).0 applied store h))

module _ (equal : Endpoint → Endpoint → Bool)
    (equal_sound : (a b : Endpoint) → equal a b ≡ true → a ≡ b) where
  pub lookup-start_rounds :
      (cluster : Str) (hs : List Hub) (h : Hub) (applied : Applied) (id : NamespacedName)
      → lookup id (start_rounds equal cluster (hs ++ h ∷ []) applied).0
        ≡ last_of id (snapshot cluster h).0
  unfolding start_rounds
  lookup-start_rounds cluster [] h applied id =
      lookup-apply equal equal_sound (snapshot cluster h).0 applied id
  lookup-start_rounds cluster (g ∷ gs) h applied id =
      lookup-start_rounds cluster gs h (apply equal (snapshot cluster g).0 applied).0 id

  -- If endpoints that are Equal are equal, then after any rounds of Start, from an empty plugin
  -- and an empty store, the store has for every id exactly what the hub of the last round has for
  -- it; what hubs were seen before, and how often, makes no difference.
  pub start_rounds_synced :
      (cluster : Str) (hs : List Hub) (h : Hub) (id : NamespacedName)
      → lookup id (notify [] (start_rounds equal cluster (hs ++ h ∷ []) []).1)
        ≡ last_of id (snapshot cluster h).0
  start_rounds_synced cluster hs h id =
      notify-start_rounds equal cluster (hs ++ h ∷ []) [] [] (λ j. refl) id
      ∙ lookup-start_rounds cluster hs h [] id
