-- ===== src/Poller/Sources.antt =====
-- pkg/poller/local_source.go, discovery.go and epp_data.go: the Fetch of each source.
use ai_gateway_epp.InnerApi.Client.{Net, Client, Got, get, GetError, get_failed}
use ai_gateway_epp.InnerApi.Outcome.{Newer, get-Newer, get_otherwise, get_changed}
use ai_gateway_epp.ClusterTable.Hub.{Table}
use ai_gateway_epp.Base.{
  Str, codes, ◌≡◌, true, false, Option, none, some, [], if◌then◌else◌, refl, ◌∙◌, inl, inr,
  Bool-cases, Option-cases,
}
use ai_gateway_epp.Poller.Watcher.{EppDataConfig}
use ai_gateway_epp.Poller.Loop.{next, fetch_error, fetched, Fetched}
use ai_gateway_epp.Poller.Table.{ClusterTableConfig, convert}

abbrev pub epp_data_config_path : Str
epp_data_config_path = codes "/configs/epp_data/config"

abbrev pub cluster_table_path : Str
cluster_table_path = codes "/configs/gslb_data/cluster_table"

-- `if err != nil || !changed` of a Fetch, where `zero_value` is the zero value of the data, and what is
-- made of new data.
unfoldable pub fetch_got {ℓ} : {A T : Type ℓ} → T → (A → T) → Got A → Fetched T
fetch_got zero_value f g = elim g.error [
  | some e ↦ fetch_error
  | none ↦
      fetched g.changed g.new_version
        (if g.changed then (elim g.out [ some a ↦ f a | none ↦ zero_value ]) else zero_value)
]

-- EppDataWatcher.Fetch
unfoldable pub fetch_data : Net EppDataConfig → Client → Str → Fetched EppDataConfig
unfolding fetch_got get
fetch_data net c version =
    fetch_got (record { epp_config = []; assignment = [] }) (λ cfg. cfg)
      (get net c epp_data_config_path version)

-- ClusterDiscovery.Fetch
unfoldable pub fetch_table : Net ClusterTableConfig → Client → Str → Fetched Table
unfolding fetch_got get convert
fetch_table net c version = fetch_got [] convert (get net c cluster_table_path version)

-- os.ReadFile and json.Unmarshal on the file of a local source.
pub record LocalFileSource {ℓ} (T : Type ℓ) : Type ℓ where
  pub path : Str
  pub read_file : Str → Option Str
  pub unmarshal : Str → Option T

-- LocalFileSource.Fetch, which ignores the version.
unfoldable pub fetch_file {ℓ} : {T : Type ℓ} → LocalFileSource T → Str → Fetched T
fetch_file s _ = elim (s.read_file s.path) [
  | none ↦ fetch_error
  | some raw ↦ elim (s.unmarshal raw) [ none ↦ fetch_error | some x ↦ fetched true [] x ]
]

-- localClusterTableSource.Fetch
unfoldable pub fetch_local_table : LocalFileSource ClusterTableConfig → Str → Fetched Table
unfolding convert
fetch_local_table s _ = elim (s.read_file s.path) [
  | none ↦ fetch_error
  | some raw ↦ elim (s.unmarshal raw) [
    | none ↦ fetch_error
    | some table ↦ fetched true [] (convert table)
  ]
]

-- What a Fetch makes of the three ways in which Get ends.
pub data IsFetched {ℓ} {A T : Type ℓ} (net : Net A) (c : Client) (path version : Str) (z : T)
    (f : A → T) : Fetched T → Type ℓ where
  newer :
      (a : A) (next : Str)
      → Newer net c path version a next
      → IsFetched net c path version z f (fetched true next (f a))
  no_news : IsFetched net c path version z f (fetched false version z)
  not_fetched :
      (e : GetError)
      → get net c path version ≡ get_failed e
      → IsFetched net c path version z f fetch_error

fetch_got_lem {ℓ} :
    {A T : Type ℓ} (net : Net A) (c : Client) (path version : Str) (z : T) (f : A → T)
    → IsFetched net c path version z f (fetch_got z f (get net c path version))
unfolding fetch_got get_failed
fetch_got_lem net c path version z f = elim (Bool-cases (get net c path version).changed) [
  | inl fresh ↦
      let (a, next, e) = get_changed net c path version fresh in
      rw e (newer a next ((get-Newer net c path version a next).0 e))
  | inr same ↦ elim (Option-cases (get net c path version).error) [
    | inl fine ↦ rw (get_otherwise net c path version same, fine) no_news
    | inr (e, bad) ↦
        let g : get net c path version ≡ get_failed e =
          get_otherwise net c path version same ∙ rw bad refl in
        rw g (not_fetched e g)
  ]
]

-- A fetch of the cluster table yields new data, the converted table with its version, just when Get
-- accepts a newer table; otherwise no news with the caller's own version, or an error.
fetch_table_lem :
    (net : Net ClusterTableConfig) (c : Client) (version : Str)
    → IsFetched net c cluster_table_path version [] convert (fetch_table net c version)
unfolding fetch_table
fetch_table_lem net c version = fetch_got_lem net c cluster_table_path version [] convert

-- A fetch of the epp_data snapshot yields new data, with its version, just when Get accepts a newer
-- snapshot; otherwise no news with the caller's own version, or an error.
pub fetch_data_lem :
    (net : Net EppDataConfig) (c : Client) (version : Str)
    → IsFetched net c epp_data_config_path version
        (record { epp_config = []; assignment = [] })
        (λ cfg. cfg)
        (fetch_data net c version)
unfolding fetch_data
fetch_data_lem net c version = fetch_got_lem net c epp_data_config_path version _ (λ cfg. cfg)
