-- ===== src/Cmd/Launch.antt =====
-- cmd/epp/main.go: how run starts its goroutines, or does not.
use ai_gateway_epp.Cell.Compile.{Router}
use ai_gateway_epp.Base.{Str, ℤ, ◌≡◌, refl, Bool, Option, List, [], ◌∷◌, arith, if◌then◌else◌}
use ai_gateway_epp.Cmd.Compose.{
  not_together, ServerOptions, server_options_plaintext, plaintext, with_creds, server_options,
  compose, Parts, not_loaded,
}
use ai_gateway_epp.Cmd.Config.{Config}

-- The goroutines of the error group.
pub data Task : Type 0 where
  ext_proc_server health_server metrics_server : Str → ℤ → Task
  discovery_loop epp_data_loop readiness_gate : Task

pub record Started {ℓ} (C : Type ℓ) : Type ℓ where
  pub parts : Parts
  pub server_opts : ServerOptions C
  pub tasks : List Task

-- What run does before it waits: it prints a version and returns, it returns the error of the TLS
-- options, or it starts its goroutines.
pub data Launch {ℓ} (C : Type ℓ) : Type ℓ where
  printed_version printed_verbose tls_error : Launch C
  started : Started C → Launch C

module _ {ℓ} {C : Type ℓ} (load : Str → Str → Option C) (join : Str → Str → Str) (r : Router) where
  unfoldable pub start_tasks : Config → ServerOptions C → Launch C
  unfolding compose
  start_tasks cfg opts = started (record {
    parts = compose join r cfg;
    server_opts = opts;
    tasks =
        ext_proc_server cfg.bind_address cfg.grpc_port
        ∷ health_server cfg.bind_address cfg.health_port
        ∷ metrics_server cfg.bind_address cfg.metrics_port
        ∷ discovery_loop
        ∷ epp_data_loop
        ∷ readiness_gate
        ∷ [];
  })

  unfoldable pub check_options : Config → ServerOptions C → Launch C
  unfolding start_tasks
  check_options cfg not_together = tls_error
  check_options cfg not_loaded = tls_error
  check_options cfg plaintext = start_tasks cfg plaintext
  check_options cfg (with_creds c) = start_tasks cfg (with_creds c)

  -- run; the flags are -v and -V.
  unfoldable pub run_epp : Config → Bool → Bool → Launch C
  unfolding check_options server_options
  run_epp cfg show_version show_verbose =
      if show_version
      then printed_version
      else if show_verbose
      then printed_verbose
      else check_options cfg (server_options load cfg)

  -- A server that is started without credentials has no certificate and no key in its configuration.
  pub run_epp_plaintext :
      (cfg : Config) (v verbose : Bool) (s : Started C)
      → run_epp cfg v verbose ≡ started s
      → s.server_opts ≡ plaintext
      → (cfg.grpc_tls_cert_file ≡ []) × (cfg.grpc_tls_key_file ≡ [])
  unfolding run_epp start_tasks
  run_epp_plaintext cfg v verbose s e h =
      (server_options_plaintext load cfg).0 (by_options (server_options load cfg) refl)
    where
      by_options :
          (p : ServerOptions C) → server_options load cfg ≡ p → server_options load cfg ≡ plaintext
      by_options plaintext q = q
      by_options not_together q = ground arith
      by_options not_loaded q = ground arith
      by_options (with_creds c) q = ground arith
