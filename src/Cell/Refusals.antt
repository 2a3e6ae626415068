-- ===== src/Cell/Refusals.antt =====
-- pkg/cell/compile.go: a config that is refused after the data plane was configured with it.
use ai_gateway_epp.Base.{
  Str, ◌+◌, ◌≡◌, refl, ap, ◌∙◌, inl, Bool, true, false, ◌&&◌, none, some, List, ◌∷◌, arith,
}
use ai_gateway_epp.Cell.Compile.{
  Plugin, configure_and_finish, register_all, no_discovery_plugin, RawConfig, fail_compile,
  finish_engine, Router, compile, check_plugins, Loaded,
}
use ai_gateway_epp.Cell.Compiling.{planes, configured_planes}
use ai_gateway_epp.Cell.Model.{Plane}

module _ (r : Router) (experimental : Bool) (raw ref : Str) (p : Plane) (conf : RawConfig)
    (cfg : Loaded) (plugins : List Plugin) where
  refused_late :
      r.load_raw_config raw ≡ some conf
      → r.instantiate conf ≡ some cfg
      → r.create_missing_producers cfg.plugins ≡ some plugins
      → register_all r plugins ≡ none
      → r.order_dependencies plugins ≡ true
      → r.is_stable experimental plugins ≡ true
      → p.data_configured ≡ false
      → r.configure cfg.data_config ≡ true
      → conf.discovery_ref ≡ some ref
      → r.find_plugin plugins ref ≡ none
      → compile r experimental raw p
        ≡ fail_compile
            (record { data_configured = true; configures = p.configures + 1 })
            (conf.flow_gate && cfg.has_flow_control)
            (no_discovery_plugin ref)
  unfolding compile check_plugins configure_and_finish finish_engine
  refused_late loaded made produced registered ordered stable first configured given missing =
      ground arith

  -- A first config that passes every check of Compile but the last, the look-up of its discovery
  -- plugin, is refused; yet the data plane has been configured with it, and all later compiles of the
  -- cell leave that data plane as it is.
  pub refused_configured :
      (raws : List Str)
      → r.load_raw_config raw ≡ some conf
      → r.instantiate conf ≡ some cfg
      → r.create_missing_producers cfg.plugins ≡ some plugins
      → register_all r plugins ≡ none
      → r.order_dependencies plugins ≡ true
      → r.is_stable experimental plugins ≡ true
      → p.data_configured ≡ false
      → r.configure cfg.data_config ≡ true
      → conf.discovery_ref ≡ some ref
      → r.find_plugin plugins ref ≡ none
      → ((compile r experimental raw p).result ≡ inl (no_discovery_plugin ref))
        × (planes r experimental (raw ∷ raws) p
            ≡ record { data_configured = true; configures = p.configures + 1 })
  unfolding planes fail_compile
  refused_configured raws loaded made produced registered ordered stable first configured given
        missing =
      let e =
        refused_late loaded made produced registered ordered stable first configured given
          missing in
      (
        ap (λ x. x.result) e,
        ap (λ x. planes r experimental raws x.plane) e
            ∙ configured_planes r experimental raws
                (record { data_configured = true; configures = p.configures + 1 }) refl,
      )
