-- ===== src/Poller/Endpoints.antt =====
-- pkg/poller/discovery.go: what a cluster table becomes in the hub and in a cell's datastore.
use mathlib.Core.Option
use ai_gateway_epp.ClusterTable.Endpoint.{Endpoint, NamespacedName, id_eq}
use ai_gateway_epp.ClusterTable.Hub.{Table, or_empty, replace_all, snapshot, u64, Hub}
use mathlib.Core.List.{append-nil, append_assoc}
use ai_gateway_epp.Poller.Table.{
  ClusterTableConfig, add_backends, add_clusters, is_zero, add_sub_clusters, BackendConf,
  endpoint_of, convert, filter_clusters, handle_table,
}
use ai_gateway_epp.Base.{
  Str, str_eq_iff, lookup, insert, lookup-insert, ◌≡◌, refl, sym, ◌∙◌, inl, inr, none, some, List,
  [], ◌∷◌, ◌++◌, arith, if◌then◌else◌, Bool-cases, str_eq_instance, ℕ, ◌+◌, ◌%◌, Bool, true, not,
  str_eq, Option,
}
use ai_gateway_epp.ClusterTable.Diff.{last_of, or_else}
use ai_gateway_epp.ClusterTable.Discovery.{start_rounds, notify, Applied}
use ai_gateway_epp.ClusterTable.Resident.{start_rounds-resident, is_seen}

-- The keys of a Go map are distinct.
abbrev pub HasDistinctKeys {ℓ} : {V : Type ℓ} → List (Str × V) → Type ℓ
HasDistinctKeys [] = Unit
HasDistinctKeys ((k, v) ∷ m) = (lookup k m ≡ none) × HasDistinctKeys m

-- The endpoints of the backends that have a weight other than 0, in order.
pub weighted : Str → List BackendConf → List Endpoint
weighted cluster [] = []
weighted cluster (b ∷ bs) =
    let rest = weighted cluster bs in
    if is_zero b.weight then rest else endpoint_of cluster b ∷ rest

-- Those of all sub-clusters.
pub endpoints_of : Str → List (Str × List BackendConf) → List Endpoint
endpoints_of cluster [] = []
endpoints_of cluster ((_, bs) ∷ subs) = weighted cluster bs ++ endpoints_of cluster subs

add_backends-weighted :
    (cluster : Str) (bs : List BackendConf) (eps : List Endpoint)
    → add_backends cluster bs eps ≡ eps ++ weighted cluster bs
unfolding add_backends weighted
add_backends-weighted cluster [] eps = sym (append-nil eps)
add_backends-weighted cluster (b ∷ bs) eps = elim (Bool-cases (is_zero b.weight)) [
  | inl off ↦ rw off (add_backends-weighted cluster bs eps)
  | inr on ↦ rw on (
      add_backends-weighted cluster bs (eps ++ endpoint_of cluster b ∷ [])
      ∙ append_assoc eps (endpoint_of cluster b ∷ []) (weighted cluster bs))
]

add_sub_clusters-endpoints_of :
    (cluster : Str) (subs : List (Str × List BackendConf)) (eps : List Endpoint)
    → add_sub_clusters cluster subs eps ≡ eps ++ endpoints_of cluster subs
unfolding add_sub_clusters endpoints_of
add_sub_clusters-endpoints_of cluster [] eps = sym (append-nil eps)
add_sub_clusters-endpoints_of cluster ((_, bs) ∷ subs) eps =
    add_sub_clusters-endpoints_of cluster subs (add_backends cluster bs eps)
    ∙ (rw add_backends-weighted
        (append_assoc eps (weighted cluster bs) (endpoints_of cluster subs)))

lookup-add_clusters :
    (t : ClusterTableConfig) (d : Table) (k : Str)
    → HasDistinctKeys t
    → lookup k (add_clusters t d)
      ≡ (elim (lookup k t) [ some subs ↦ some (endpoints_of k subs) | none ↦ lookup k d ])
unfolding add_clusters lookup
lookup-add_clusters [] d k h = refl
lookup-add_clusters ((c, subs) ∷ t) d k h = ground (
  arith,
  lookup-add_clusters t (insert c (add_sub_clusters c subs []) d) k h.1,
  lookup-insert c k (add_sub_clusters c subs []) d,
  add_sub_clusters-endpoints_of c subs [],
  str_eq_iff c k,
  h.0,
)

-- If the clusters of a table differ, the converted table has, for every one of them, the endpoints
-- of exactly its backends with a weight other than 0, of all sub-clusters in order, and no other
-- cluster.
lookup-convert :
    (t : ClusterTableConfig) (k : Str)
    → HasDistinctKeys t
    → lookup k (convert t) ≡ Option.map (endpoints_of k) (lookup k t)
unfolding convert lookup
lookup-convert t k h = ground (arith, lookup-add_clusters t [] k h)

filter_clusters-lookup :
    (assigned : Str → Bool) (t : Table) (acc : Table × ℕ) (k : Str)
    → HasDistinctKeys t
    → lookup k (filter_clusters assigned t acc).0
      ≡ (elim (lookup k t) [ some eps ↦ some eps | none ↦ lookup k acc.0 ])
unfolding filter_clusters lookup
filter_clusters-lookup assigned [] acc k h = refl
filter_clusters-lookup assigned ((c, eps) ∷ t) (filtered, n) k h = ground (
  arith,
  filter_clusters-lookup assigned t (insert c eps filtered, if not (assigned c) then n + 1 else n) k
      h.1,
  lookup-insert c k eps filtered,
  str_eq_iff c k,
  h.0,
)

-- Handle puts all fetched clusters into the hub, those without a local cell too, clears the ones that
-- are gone, and moves the version on.
pub snapshot-handle_table :
    (assigned : Str → Bool) (h : Hub) (n : ℕ) (t : Table) (k : Str)
    → HasDistinctKeys t
    → snapshot k (handle_table assigned (h, n) t).0 ≡ (or_empty (lookup k t), (h.version + 1) % u64)
unfolding handle_table snapshot replace_all
snapshot-handle_table assigned h n t k distinct =
    ground (arith, filter_clusters-lookup assigned t ([], n) k distinct)

insert-HasDistinctKeys {ℓ} :
    {V : Type ℓ} (k : Str) (v : V) (m : List (Str × V))
    → HasDistinctKeys m
    → HasDistinctKeys (insert k v m)
unfolding insert
insert-HasDistinctKeys k v [] h = (unfold lookup in refl, tt)
insert-HasDistinctKeys k v ((j, w) ∷ m) h = elim (Bool-cases (str_eq j k)) [
  | inl same ↦ rw same (ground (arith, str_eq_iff j k, h.0), h.1)
  | inr other ↦ rw other (
    ground (arith, lookup-insert k j v m, str_eq_iff j k, str_eq_iff k j, h.0),
    insert-HasDistinctKeys k v m h.1,
  )
]

add_clusters-HasDistinctKeys :
    (t : ClusterTableConfig) (d : Table) → HasDistinctKeys d → HasDistinctKeys (add_clusters t d)
unfolding add_clusters
add_clusters-HasDistinctKeys [] d h = h
add_clusters-HasDistinctKeys ((c, subs) ∷ t) d h =
    add_clusters-HasDistinctKeys t _ (insert-HasDistinctKeys c _ d h)

convert-HasDistinctKeys : (t : ClusterTableConfig) → HasDistinctKeys (convert t)
unfolding convert
convert-HasDistinctKeys t = add_clusters-HasDistinctKeys t [] tt

-- From the fetched table, whose clusters differ, to the datastore, if endpoints that are Equal are
-- equal: let a new discovery plugin of the cluster, whose last round comes after Handle, follow the
-- hub over a store that holds `base` for an id. Then the store has for the id exactly the endpoint
-- that the backends of the table with a weight other than 0 give it (the last, if several have the
-- id). If they give none, the store has nothing when an earlier round of this plugin has met the id,
-- and `base` if not: what an earlier plugin has left there stays.
pub table_synced :
    (equal : Endpoint → Endpoint → Bool)
    → ((a b : Endpoint) → equal a b ≡ true → a ≡ b)
    → (assigned : Str → Bool) (t : ClusterTableConfig) (hs : List Hub) (h : Hub) (n : ℕ)
      (cluster : Str) (id : NamespacedName) (base : Option Endpoint) (store : Applied)
    → HasDistinctKeys t
    → lookup id store ≡ base
    → let h' = (handle_table assigned (h, n) (convert t)).0 in
      lookup id (notify store (start_rounds equal cluster (hs ++ h' ∷ []) []).1)
      ≡ or_else
          (last_of id (or_empty (Option.map (endpoints_of cluster) (lookup cluster t))))
          (if is_seen cluster id hs then none else base)
table_synced equal sound assigned t hs h n cluster id base store distinct holds =
    start_rounds-resident equal sound id base cluster hs _ store holds
    ∙ (rw
        (
          snapshot-handle_table assigned h n (convert t) cluster (convert-HasDistinctKeys t),
          lookup-convert t cluster distinct,
        )
        refl)
