-- ===== src/ClusterTable/Discovery.antt =====
-- pkg/eppplugin/clustertable/discovery.go: one engine generation's view of its cluster's endpoints.
use ai_gateway_epp.ClusterTable.Hub.{snapshot, Hub}
use ai_gateway_epp.ClusterTable.Endpoint.{NamespacedName, Endpoint, id_eq}
use ai_gateway_epp.Base.{
  Str, lookup, insert, delete, Bool, false, ◌||◌, none, some, List, [], ◌∷◌, ◌++◌, if◌then◌else◌,
  str_eq_instance,
}

-- What the plugin tells the DiscoveryNotifier.
pub data Call : Type 0 where
  delete_call : NamespacedName → Call
  upsert_call : Endpoint → Call

abbrev pub Applied : Type 0
Applied = List (NamespacedName × Endpoint)

unfoldable pub contains_id : List Endpoint → NamespacedName → Bool
contains_id [] id = false
contains_id (m ∷ ms) id = id_eq.beq m.id id || contains_id ms id

-- The first loop of apply, over the keys of the map at its start.
unfoldable pub delete_stale : Applied → List Endpoint → Applied → Applied × List Call
unfolding contains_id delete
delete_stale [] desired applied = (applied, [])
delete_stale ((id, _) ∷ it) desired applied =
    let kept = contains_id desired id in
    let (a, cs) = delete_stale it desired (if kept then applied else delete id applied) in
    if kept then (a, cs) else (a, delete_call id ∷ cs)

module _ (equal : Endpoint → Endpoint → Bool) where
  unfoldable pub is_applied : Applied → Endpoint → Bool
  unfolding lookup
  is_applied applied m = elim (lookup m.id applied) [ none ↦ false | some old ↦ equal old m ]

  -- The second loop. `equal` is EndpointMetadata.Equal.
  unfoldable pub upsert_all : List Endpoint → Applied → Applied × List Call
  unfolding is_applied insert
  upsert_all [] applied = (applied, [])
  upsert_all (m ∷ ms) applied =
      let old = is_applied applied m in
      let (a, cs) = upsert_all ms (if old then applied else insert m.id m applied) in
      if old then (a, cs) else (a, upsert_call m ∷ cs)

  unfoldable pub apply : List Endpoint → Applied → Applied × List Call
  unfolding delete_stale upsert_all
  apply desired applied =
      let (a, ds) = delete_stale applied desired applied in
      let (b, us) = upsert_all desired a in (b, ds ++ us)

  -- Start, over the hubs that its rounds take a snapshot of: the map and the calls of all rounds.
  unfoldable pub start_rounds : Str → List Hub → Applied → Applied × List Call
  unfolding apply snapshot
  start_rounds cluster [] applied = (applied, [])
  start_rounds cluster (h ∷ hs) applied =
      let (a, cs) = apply (snapshot cluster h).0 applied in
      let (b, ds) = start_rounds cluster hs a in (b, cs ++ ds)

-- The datastore behind the notifier, as it is documented: it deletes and replaces by id.
unfoldable pub notify : Applied → List Call → Applied
unfolding insert delete
notify store [] = store
notify store (delete_call id ∷ cs) = notify (delete id store) cs
notify store (upsert_call m ∷ cs) = notify (insert m.id m store) cs
