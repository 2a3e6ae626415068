-- ===== src/Cmd/Compose.antt =====
-- cmd/epp/main.go: the options of the servers, and the parts that run puts together.
use ai_gateway_epp.Cell.Manager.{Options}
use ai_gateway_epp.Cell.Compile.{Router}
use ai_gateway_epp.Cell.Setup.{ManagerOptions, new_manager, positive_or, default_new_cell}
use ai_gateway_epp.InnerApi.Client.{Client, new_client}
use ai_gateway_epp.Poller.Loop.{interval_or_default}
use ai_gateway_epp.Base.{
  Str, codes, str_eq_iff, str_eq, pos, ℕ, ◌<◌, ◌≡◌, refl, ◌≢◌, ◌↔◌, ◌&&◌, ◌||◌, Option, none, some,
  [], arith, if◌then◌else◌, ℤ, negsuc, zero, suc,
}
use ai_gateway_epp.Cmd.Config.{Config}

-- serverOptions: no option, an error, or the credentials, which a parameter loads from the files.
pub data ServerOptions {ℓ} (C : Type ℓ) : Type ℓ where
  plaintext not_together not_loaded : ServerOptions C
  with_creds : C → ServerOptions C

module _ {ℓ} {C : Type ℓ} (load : Str → Str → Option C) where
  unfoldable pub server_options : Config → ServerOptions C
  unfolding str_eq
  server_options cfg =
      let no_cert = str_eq cfg.grpc_tls_cert_file [] in
      let no_key = str_eq cfg.grpc_tls_key_file [] in
      if no_cert && no_key
      then plaintext
      else if no_cert || no_key
      then not_together
      else elim (load cfg.grpc_tls_cert_file cfg.grpc_tls_key_file) [
        | none ↦ not_loaded
        | some creds ↦ with_creds creds
      ]

  -- The options of the servers are those for plaintext just when neither a certificate nor a key
  -- is configured, so a half configured pair, or one that cannot be loaded, gives no plaintext
  -- server.
  pub server_options_plaintext :
      (cfg : Config)
      → (server_options cfg ≡ plaintext)
        ↔ ((cfg.grpc_tls_cert_file ≡ []) × (cfg.grpc_tls_key_file ≡ []))
  unfolding server_options
  server_options_plaintext cfg =
      ground (arith, str_eq_iff cfg.grpc_tls_cert_file [], str_eq_iff cfg.grpc_tls_key_file [])

-- Where the two polling loops fetch from: files of a directory, or the InnerAPI.
pub data Sources : Type 0 where
  local_files : Str → Str → Sources
  inner_api : Client → Sources

-- What run puts together before it starts a goroutine. `join` is filepath.Join.
pub record Parts : Type 0 where
  pub manager : Options
  pub drain_timeout : ℕ
  pub sources : Sources
  pub poll_interval : ℕ

unfoldable pub choose_sources : (Str → Str → Str) → Config → Sources
unfolding str_eq new_client
choose_sources join cfg =
    if str_eq cfg.local_config_dir []
    then inner_api (new_client cfg.api_addr cfg.api_token cfg.poll_timeout)
    else local_files (join cfg.local_config_dir (codes "cluster_table.json"))
        (join cfg.local_config_dir (codes "epp_data_config.json"))

unfoldable pub manager_options : Config → ManagerOptions
manager_options cfg = record {
  drain_timeout = cfg.engine_drain_timeout;
  drain_workers = pos 0;
  allow_experimental = cfg.allow_experimental_plugins;
  new_cell = none;
  compile = none;
}

unfoldable pub compose : (Str → Str → Str) → Router → Config → Parts
unfolding choose_sources manager_options new_manager interval_or_default
compose join r cfg =
    let (manager, drain_timeout) = new_manager r (manager_options cfg) in
    record {
      manager = manager;
      drain_timeout = drain_timeout;
      sources = choose_sources join cfg;
      poll_interval = interval_or_default cfg.poll_interval;
    }

interval_or_default_positive : (n : ℤ) → 0 < interval_or_default n
unfolding interval_or_default
interval_or_default_positive (pos zero) = omega arith
interval_or_default_positive (pos (suc n)) = omega arith
interval_or_default_positive (negsuc n) = omega arith

positive_or_positive : (n : ℤ) (d : ℕ) → 0 < d → 0 < positive_or n d
unfolding positive_or
positive_or_positive (pos zero) d h = h
positive_or_positive (pos (suc n)) d h = omega arith
positive_or_positive (negsuc n) d h = h

-- Whatever the flags are, the process polls and drains with positive times and has four drain
-- workers, and every cluster can get a cell.
pub compose_positive :
    (join : Str → Str → Str) (r : Router) (cfg : Config) (key : Str)
    → let parts = compose join r cfg in
      (0 < parts.poll_interval)
      × (0 < parts.drain_timeout)
      × (parts.manager.drain_workers ≡ 4)
      × (parts.manager.new_cell key ≢ none)
unfolding compose new_manager interval_or_default positive_or default_new_cell
compose_positive join r cfg key = (
  interval_or_default_positive cfg.poll_interval,
  positive_or_positive cfg.engine_drain_timeout 60000000000 (omega arith),
  refl,
  λ e. ground arith,
)
