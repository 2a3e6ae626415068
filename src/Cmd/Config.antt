-- ===== src/Cmd/Config.antt =====
-- cmd/epp/config.go: the configuration from flags and environment. Durations are in nanoseconds.
use ai_gateway_epp.Base.{
  Str, codes, str_eq, ℤ, pos, ℕ, ◌*◌, ◌≡◌, ◌≢◌, Bool, false, Option, none, some, [], arith,
  if◌then◌else◌,
}

-- Config
pub record Config : Type 0 where
  pub api_addr : Str
  pub api_token : Str
  pub instance_id : Str
  pub poll_interval : ℤ
  pub poll_timeout : ℤ
  pub grpc_port : ℤ
  pub health_port : ℤ
  pub metrics_port : ℤ
  pub enable_pprof : Bool
  pub grpc_tls_cert_file : Str
  pub grpc_tls_key_file : Str
  pub bind_address : Str
  pub default_pool : Str
  pub engine_drain_timeout : ℤ
  pub pool_namespace : Str
  pub refresh_metrics_interval : ℤ
  pub allow_experimental_plugins : Bool
  pub local_config_dir : Str
  pub log_level : Str

-- The flags of the command line, as package flag has parsed them: `none` for one that is not given.
pub record Flags : Type 0 where
  pub text : Str → Option Str
  pub number : Str → Option ℤ
  pub switch : Str → Option Bool

-- os.Getenv, with the empty text for a variable that is not set, and os.Hostname.
pub record Host : Type 0 where
  pub environment : Str → Str
  pub hostname : Option Str

unfoldable pub log_verbosity : Config → ℕ
unfolding str_eq
log_verbosity c =
    if str_eq c.log_level (codes "trace")
    then 5
    else if str_eq c.log_level (codes "debug")
    then 2
    else if str_eq c.log_level (codes "info")
    then 0
    else 2

unfoldable pub getenv : Host → Str → Str → Str
unfolding str_eq
getenv h key def = if str_eq (h.environment key) [] then def else h.environment key

-- A flag that is not given has its default.
unfoldable pub flag_or {ℓ} : {A : Type ℓ} → Option A → A → A
flag_or none def = def
flag_or (some x) def = x

unfoldable pub with_instance : Host → Config → Config
unfolding str_eq
with_instance h cfg =
    if str_eq cfg.instance_id []
    then record cfg { instance_id = elim h.hostname [ some name ↦ name | none ↦ codes "epp" ] }
    else cfg

abbrev pub millisecond : ℕ
millisecond = 1000000

abbrev pub seconds : ℕ → ℤ
seconds n = pos (n * 1000000000)

-- parseConfig
unfoldable pub parse_config : Host → Flags → Config
unfolding getenv flag_or with_instance
parse_config h f = with_instance h (record {
  api_addr =
      flag_or (f.text (codes "api-addr"))
        (getenv h (codes "AI_GATEWAY_API_ADDR") (codes "http://127.0.0.1:8181/inner-api/v1"));
  api_token = flag_or (f.text (codes "api-token")) (h.environment (codes "AI_GATEWAY_API_TOKEN"));
  instance_id =
      flag_or (f.text (codes "instance-id")) (h.environment (codes "AI_GATEWAY_EPP_INSTANCE_ID"));
  poll_interval = flag_or (f.number (codes "poll-interval")) (seconds 5);
  poll_timeout = flag_or (f.number (codes "poll-timeout")) (seconds 3);
  grpc_port = flag_or (f.number (codes "grpc-port")) (pos 9002);
  health_port = flag_or (f.number (codes "health-port")) (pos 9003);
  metrics_port = flag_or (f.number (codes "metrics-port")) (pos 9090);
  enable_pprof = flag_or (f.switch (codes "enable-pprof")) false;
  grpc_tls_cert_file =
      flag_or (f.text (codes "grpc-tls-cert")) (h.environment (codes "AI_GATEWAY_EPP_TLS_CERT"));
  grpc_tls_key_file =
      flag_or (f.text (codes "grpc-tls-key")) (h.environment (codes "AI_GATEWAY_EPP_TLS_KEY"));
  bind_address = flag_or (f.text (codes "bind-address")) [];
  default_pool = flag_or (f.text (codes "default-pool")) [];
  engine_drain_timeout = flag_or (f.number (codes "engine-drain-timeout")) (seconds 60);
  pool_namespace =
      flag_or (f.text (codes "pool-namespace")) (getenv h (codes "NAMESPACE") (codes "ai-gateway"));
  refresh_metrics_interval =
      flag_or (f.number (codes "refresh-metrics-interval")) (pos (50 * millisecond));
  allow_experimental_plugins = flag_or (f.switch (codes "allow-experimental-plugins")) false;
  local_config_dir =
      flag_or (f.text (codes "local-config-dir"))
        (h.environment (codes "AI_GATEWAY_EPP_LOCAL_CONFIG_DIR"));
  log_level =
      flag_or (f.text (codes "log-level"))
        (getenv h (codes "AI_GATEWAY_EPP_LOG_LEVEL") (codes "info"));
})

-- A token, a certificate and a key that are given on the command line are used whatever the
-- environment holds: two hosts with different environments have the same ones.
parse_config_precedence :
    (h k : Host) (f : Flags) (token cert key : Str)
    → f.text (codes "api-token") ≡ some token
    → f.text (codes "grpc-tls-cert") ≡ some cert
    → f.text (codes "grpc-tls-key") ≡ some key
    → let c = parse_config h f in
      let d = parse_config k f in
      (c.api_token ≡ token)
      × (d.api_token ≡ c.api_token)
      × (c.grpc_tls_cert_file ≡ cert)
      × (d.grpc_tls_cert_file ≡ c.grpc_tls_cert_file)
      × (c.grpc_tls_key_file ≡ key)
      × (d.grpc_tls_key_file ≡ c.grpc_tls_key_file)
unfolding parse_config with_instance
parse_config_precedence h k f token cert key given with_cert with_key =
    (ground arith, ground arith, ground arith, ground arith, ground arith, ground arith)

-- The instance id is not empty, unless the host reports an empty name.
pub parse_config_instance :
    (h : Host) (f : Flags) → h.hostname ≢ some [] → (parse_config h f).instance_id ≢ []
unfolding parse_config with_instance
parse_config_instance h f named empty = ground arith
