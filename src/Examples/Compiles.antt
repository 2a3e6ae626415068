-- ===== src/Examples/Compiles.antt =====
-- The theorems about pkg/cell/compile.go at concrete inputs.
use ai_gateway_epp.Cell.Compile.{
  register_all, no_discovery_plugin, Router, Plugin, compile, hash_config, Loaded, RawConfig,
}
use ai_gateway_epp.Cell.Refusals.{refused_configured}
use ai_gateway_epp.Cell.Compiling.{IsCompiled, compile-IsCompiled, planes}
use ai_gateway_epp.Base.{
  codes, str_eq, ◌≡◌, refl, true, false, none, some, [], ◌∷◌, if◌then◌else◌, ◌+◌, inl,
}
use ai_gateway_epp.Examples.Worlds.{new_plane}

abbrev discovery : Plugin
discovery = record { number = 7; is_registrant = true; is_discovery = true }

-- A router that takes every config but the empty one; the plugin `hub` is the only one it finds.
abbrev router : Router
router = record {
  load_raw_config = λ raw.
      if str_eq raw []
      then none
      else some (record { flow_gate = true; discovery_ref = some raw; body = raw });
  instantiate = λ conf.
      some (record { has_flow_control = true; data_config = conf.body; plugins = discovery ∷ [] });
  create_missing_producers = λ ps. some ps;
  register_dependencies = λ p. true;
  order_dependencies = λ ps. true;
  is_stable = λ experimental ps. true;
  configure = λ conf. true;
  find_plugin = λ ps ref. if str_eq ref (codes "hub") then some discovery else none;
  sum256_hex = λ raw. raw;
}

compile-IsCompiled_example :
    IsCompiled
      (hash_config router (codes "hub"))
      new_plane
      (compile router false (codes "hub") new_plane)
compile-IsCompiled_example = compile-IsCompiled router false (codes "hub") new_plane

abbrev lost_config : RawConfig
lost_config = record { flow_gate = true; discovery_ref = some (codes "lost"); body = codes "lost" }

abbrev lost_loaded : Loaded
lost_loaded = record {
  has_flow_control = true;
  data_config = codes "lost";
  plugins = discovery ∷ [];
}

lost_parsed : router.load_raw_config (codes "lost") ≡ some lost_config
unfolding str_eq
lost_parsed = refl

lost_missing : router.find_plugin (discovery ∷ []) (codes "lost") ≡ none
unfolding str_eq
lost_missing = refl

all_registered : register_all router (discovery ∷ []) ≡ none
unfolding register_all
all_registered = refl

refused_configured_example :
    ((compile router false (codes "lost") new_plane).result
      ≡ inl (no_discovery_plugin (codes "lost")))
    × (planes router false (codes "lost" ∷ codes "hub" ∷ []) new_plane
        ≡ record { data_configured = true; configures = new_plane.configures + 1 })
refused_configured_example =
    refused_configured router false (codes "lost") (codes "lost") new_plane lost_config lost_loaded
      (discovery ∷ []) (codes "hub" ∷ []) lost_parsed refl refl all_registered refl refl refl refl
      refl lost_missing
