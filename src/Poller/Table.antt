-- ===== src/Poller/Table.antt =====
-- pkg/poller/discovery.go: the cluster table as it is fetched, and the endpoints made of it.
use ai_gateway_epp.Poller.Address.{join_host_port, itoa, unwrap_ipv6}
use ai_gateway_epp.Base.{
  Str, str_eq, insert, ℤ, pos, negsuc, ℕ, zero, suc, ◌+◌, Bool, true, false, not, List, [], ◌∷◌,
  ◌++◌, if◌then◌else◌, str_eq_instance,
}
use ai_gateway_epp.ClusterTable.Endpoint.{Endpoint}
use ai_gateway_epp.ClusterTable.Hub.{Hub, Table, replace_all}

pub record BackendConf : Type 0 where
  pub name : Str
  pub addr : Str
  pub port : ℤ
  pub weight : ℤ

abbrev pub ClusterTableConfig : Type 0
ClusterTableConfig = List (Str × List (Str × List BackendConf))

unfoldable pub is_zero : ℤ → Bool
is_zero (pos zero) = true
is_zero (pos (suc n)) = false
is_zero (negsuc n) = false

unfoldable pub backend_id : BackendConf → Str
unfolding unwrap_ipv6 itoa join_host_port str_eq
backend_id b =
    if not (str_eq b.name []) then b.name else join_host_port (unwrap_ipv6 b.addr) (itoa b.port)

-- The EndpointMetadata that the inner loop appends.
unfoldable pub endpoint_of : Str → BackendConf → Endpoint
unfolding backend_id
endpoint_of cluster b = record {
  id = record { namespace = cluster; name = backend_id b };
  name = b.name;
  address = unwrap_ipv6 b.addr;
  port = itoa b.port;
  metrics_host = join_host_port (unwrap_ipv6 b.addr) (itoa b.port);
}

-- The loops of ConvertClusterTableToEndpoints, innermost first.
unfoldable pub add_backends : Str → List BackendConf → List Endpoint → List Endpoint
unfolding is_zero endpoint_of
add_backends cluster [] eps = eps
add_backends cluster (b ∷ bs) eps =
    add_backends cluster bs (if is_zero b.weight then eps else eps ++ endpoint_of cluster b ∷ [])

unfoldable pub add_sub_clusters :
    Str → List (Str × List BackendConf) → List Endpoint → List Endpoint
unfolding add_backends
add_sub_clusters cluster [] eps = eps
add_sub_clusters cluster ((_, bs) ∷ subs) eps =
    add_sub_clusters cluster subs (add_backends cluster bs eps)

unfoldable pub add_clusters : ClusterTableConfig → Table → Table
unfolding add_sub_clusters insert
add_clusters [] desired = desired
add_clusters ((cluster, subs) ∷ rest) desired =
    add_clusters rest (insert cluster (add_sub_clusters cluster subs []) desired)

unfoldable pub convert : ClusterTableConfig → Table
unfolding add_clusters
convert table = add_clusters table []

-- The loop of ClusterDiscovery.Handle: the filtered map and the clusters that are counted.
unfoldable pub filter_clusters : (Str → Bool) → Table → Table × ℕ → Table × ℕ
unfolding insert
filter_clusters assigned [] acc = acc
filter_clusters assigned ((cluster, eps) ∷ rest) (filtered, unassigned) =
    filter_clusters assigned rest
      (insert cluster eps filtered, if not (assigned cluster) then unassigned + 1 else unassigned)

-- ClusterDiscovery.Handle, with a given `assigned` and the counter; it returns no error.
unfoldable pub handle_table : (Str → Bool) → Hub × ℕ → Table → Hub × ℕ
unfolding filter_clusters replace_all
handle_table assigned (hub, counted) desired =
    let (filtered, unassigned) = filter_clusters assigned desired ([], counted) in
    (replace_all filtered hub, unassigned)
