-- ===== src/Cell/Compile.antt =====
-- pkg/cell/compile.go: Compile, with the calls of llm-d-router as parameters; and HashConfig of
-- engine.go. A logged step and a metric leave no trace here.
use ai_gateway_epp.Base.{
  Str, ℕ, ◌+◌, ◌⊎◌, inl, inr, Bool, true, false, not, ◌&&◌, Option, none, some, List, [], ◌∷◌,
  if◌then◌else◌,
}
use ai_gateway_epp.Cell.Model.{Engine, Plane}

-- The parsed config: whether the flow control feature gate is on, and the reference of the
-- discovery plugin, if all three of its parents are given.
pub record RawConfig : Type 0 where
  pub flow_gate : Bool
  pub discovery_ref : Option Str
  pub body : Str

-- A plugin of the handle: its number, whether it is a Registrant, and whether it implements
-- EndpointDiscovery.
pub record Plugin : Type 0 where
  pub number : ℕ
  pub is_registrant : Bool
  pub is_discovery : Bool

-- What InstantiateAndConfigure returns and puts into the handle.
pub record Loaded : Type 0 where
  pub has_flow_control : Bool
  pub data_config : Str
  pub plugins : List Plugin

-- The code of llm-d-router that Compile calls.
pub record Router : Type 0 where
  pub load_raw_config : Str → Option RawConfig
  pub instantiate : RawConfig → Option Loaded
  pub create_missing_producers : List Plugin → Option (List Plugin)
  pub register_dependencies : Plugin → Bool
  pub order_dependencies : List Plugin → Bool
  pub is_stable : Bool → List Plugin → Bool
  pub configure : Str → Bool
  pub find_plugin : List Plugin → Str → Option Plugin
  pub sum256_hex : Str → Str

pub data CompileError : Type 0 where
  bad_config bad_plugins no_producers : CompileError
  bad_registration : Plugin → CompileError
  bad_order unstable not_configured : CompileError
  no_discovery_plugin no_discovery : Str → CompileError

-- The engine's context: not made yet, made, or made and cancelled.
pub data Context : Type 0 where
  no_context live_context cancelled_context : Context

-- What Compile leaves: the data plane of the cell, the context, whether flow control was started
-- under it, and the result.
pub record Compiled : Type 0 where
  pub plane : Plane
  pub context : Context
  pub flow_control : Bool
  pub result : CompileError ⊎ Engine

unfoldable pub hash_config : Router → Str → Str
hash_config r raw = r.sum256_hex raw

-- The closure `fail`, which cancels the context.
unfoldable pub fail_compile : Plane → Bool → CompileError → Compiled
fail_compile plane fc e = record {
  plane = plane;
  context = cancelled_context;
  flow_control = fc;
  result = inl e;
}

-- The loop over RegisterDependencies: the first plugin that refuses.
unfoldable pub register_all : Router → List Plugin → Option Plugin
register_all r [] = none
register_all r (p ∷ ps) =
    let rest = register_all r ps in
    if p.is_registrant && not (r.register_dependencies p) then some p else rest

-- makePodListFunc: the ids of what a datastore lists, where `id` reads the metadata of a pod.
unfoldable pub pod_names : {P I : Type 0} → (P → I) → List P → List I
pod_names id [] = []
pod_names id (p ∷ pods) = id p ∷ pod_names id pods

-- The engine that Compile builds, with the discovery plugins appended to it.
abbrev pub new_engine : Str → List ℕ → Engine
new_engine version discovery = record {
  version = version;
  discovery = discovery;
  has_cancel = true;
  cancelled = false;
  wg = 0;
}

unfoldable pub finish_engine : Router → Str → RawConfig → Loaded → List Plugin → Plane → Compiled
unfolding fail_compile hash_config
finish_engine r raw conf cfg plugins plane =
    let fc = conf.flow_gate && cfg.has_flow_control in
    let finished : List ℕ → Compiled = λ ds. record {
      plane = plane;
      context = live_context;
      flow_control = fc;
      result = inr (new_engine (hash_config r raw) ds);
    } in
    elim conf.discovery_ref [
      | none ↦ finished []
      | some ref ↦ elim (r.find_plugin plugins ref) [
        | none ↦ fail_compile plane fc (no_discovery_plugin ref)
        | some p ↦
            if p.is_discovery
            then finished (p.number ∷ [])
            else fail_compile plane fc (no_discovery ref)
      ]
    ]

-- The `if !c.dataConfigured.Load()` and what follows it.
unfoldable pub configure_and_finish :
    Router → Str → RawConfig → Loaded → List Plugin → Plane → Compiled
unfolding fail_compile finish_engine
configure_and_finish r raw conf cfg plugins plane =
    if plane.data_configured
    then finish_engine r raw conf cfg plugins plane
    else let called = plane.configures + 1 in
      if r.configure cfg.data_config
      then finish_engine r raw conf cfg plugins
          (record { data_configured = true; configures = called })
      else fail_compile (record plane { configures = called }) false not_configured

unfoldable pub check_plugins :
    Router → Bool → Str → RawConfig → Loaded → List Plugin → Plane → Compiled
unfolding fail_compile register_all configure_and_finish
check_plugins r experimental raw conf cfg plugins plane = elim (register_all r plugins) [
  | some p ↦ fail_compile plane false (bad_registration p)
  | none ↦
      if not (r.order_dependencies plugins)
      then fail_compile plane false bad_order
      else if not (r.is_stable experimental plugins)
      then fail_compile plane false unstable
      else configure_and_finish r raw conf cfg plugins plane
]

-- Compile, for the data plane of a cell.
unfoldable pub compile : Router → Bool → Str → Plane → Compiled
unfolding fail_compile check_plugins
compile r experimental raw plane = elim (r.load_raw_config raw) [
  | none ↦ record {
    plane = plane;
    context = no_context;
    flow_control = false;
    result = inl bad_config;
  }
  | some conf ↦ elim (r.instantiate conf) [
    | none ↦ fail_compile plane false bad_plugins
    | some cfg ↦ elim (r.create_missing_producers cfg.plugins) [
      | none ↦ fail_compile plane false no_producers
      | some plugins ↦ check_plugins r experimental raw conf cfg plugins plane
    ]
  ]
]
