-- ===== src/Examples/Tables.antt =====
-- The theorems about pkg/eppplugin/clustertable and pkg/poller/discovery.go at concrete inputs.
use mathlib.Core.Option
use ai_gateway_epp.ClusterTable.Endpoint.{Endpoint, id_eq, id_beq}
use ai_gateway_epp.ClusterTable.Hub.{
  Hub, new_hub, replace_all, wait_change, changed, snapshot, or_empty, HubEvent, waiter_runs,
  replaces, hub_run, before_lock, in_select, stopped,
}
use ai_gateway_epp.ClusterTable.Discovery.{notify, start_rounds, Applied}
use ai_gateway_epp.ClusterTable.Resident.{is_seen}
use ai_gateway_epp.ClusterTable.Diff.{start_rounds_synced, last_of, or_else}
use ai_gateway_epp.ClusterTable.Waiting.{wait_change_prompt}
use ai_gateway_epp.Poller.Table.{BackendConf, ClusterTableConfig, convert, handle_table}
use ai_gateway_epp.Poller.Endpoints.{table_synced, endpoints_of, HasDistinctKeys}
use ai_gateway_epp.Base.{
  ℕ, ◌≢◌, ◌⊎◌, List, codes, str_eq_iff, str_eq, lookup, ℤ, pos, String, ◌≡◌, refl, ◌↔◌, Bool, true,
  ◌&&◌, [], ◌∷◌, arith, str_eq_instance, none, some, if◌then◌else◌,
}

abbrev equal : Endpoint → Endpoint → Bool
equal a b =
    id_eq.beq a.id b.id
    && (str_eq a.name b.name
        && (str_eq a.address b.address
            && (str_eq a.port b.port && str_eq a.metrics_host b.metrics_host)))

equal_iff : (a b : Endpoint) → (equal a b ≡ true) ↔ (a ≡ b)
equal_iff a b = ground (
  arith,
  id_eq.beq_iff a.id b.id,
  str_eq_iff a.name b.name,
  str_eq_iff a.address b.address,
  str_eq_iff a.port b.port,
  str_eq_iff a.metrics_host b.metrics_host,
)

abbrev backend : String → ℤ → BackendConf
backend name weight = record {
  name = codes name;
  addr = codes "10.0.0.1";
  port = pos 8000;
  weight = weight;
}

abbrev table : ClusterTableConfig
table = (codes "chat", (codes "sub", backend "b1" (pos 1) ∷ backend "b2" (pos 0) ∷ []) ∷ []) ∷ []

abbrev b1 : Endpoint
b1 = record {
  id = record { namespace = codes "chat"; name = codes "b1" };
  name = codes "b1";
  address = codes "10.0.0.1";
  port = codes "8000";
  metrics_host = codes "10.0.0.1:8000";
}

abbrev full_hub : Hub
full_hub = replace_all ((codes "chat", b1 ∷ []) ∷ []) new_hub

start_rounds_synced_example :
    lookup b1.id (notify [] (start_rounds equal (codes "chat") (new_hub ∷ full_hub ∷ []) []).1)
    ≡ last_of b1.id (snapshot (codes "chat") full_hub).0
start_rounds_synced_example =
    start_rounds_synced equal (λ x y. (equal_iff x y).0) (codes "chat") (new_hub ∷ []) full_hub
      b1.id

table_distinct : HasDistinctKeys table
unfolding lookup
table_distinct = (refl, tt)

-- An endpoint that an earlier plugin of the cluster has left in the store, and that the table does not
-- give any more.
abbrev left_over : Endpoint
left_over = record b1 { id = record { namespace = codes "chat"; name = codes "b2" } }

abbrev resident : Applied
resident = (left_over.id, left_over) ∷ []

resident_holds : lookup left_over.id resident ≡ some left_over
unfolding lookup str_eq id_beq
resident_holds = refl

table_synced_example :
    let h' = (handle_table (λ c. true) (new_hub, 0) (convert table)).0 in
    lookup left_over.id
      (notify resident (start_rounds equal (codes "chat") (new_hub ∷ h' ∷ []) []).1)
    ≡ or_else
        (last_of left_over.id
          (or_empty (Option.map (endpoints_of (codes "chat")) (lookup (codes "chat") table))))
        (if is_seen (codes "chat") left_over.id (new_hub ∷ []) then none else some left_over)
table_synced_example =
    table_synced equal (λ x y. (equal_iff x y).0) (λ c. true) table (new_hub ∷ []) new_hub 0
      (codes "chat") left_over.id (some left_over) resident table_distinct resident_holds

-- The call goes to its select, and then the table is replaced.
abbrev hub_events : List HubEvent
hub_events = waiter_runs ∷ replaces ((codes "chat", b1 ∷ []) ∷ []) ∷ []

now_new : (hub_run 0 (new_hub, before_lock) hub_events).0.version ≢ 0
unfolding hub_run new_hub
now_new e = ground (arith, e)

in_wait : (hub_run 0 (new_hub, before_lock) hub_events).1 ≡ in_select 0
unfolding hub_run new_hub
in_wait = refl

wait_change_prompt_example :
    let (h', x) = hub_run 0 (new_hub, before_lock) hub_events in
    let y = wait_change 0 h' (wait_change 0 h' x) in
    (y ≡ stopped) ⊎ ((v : ℕ) × (y ≡ changed v) × (v ≢ 0))
wait_change_prompt_example = wait_change_prompt 0 new_hub hub_events now_new
