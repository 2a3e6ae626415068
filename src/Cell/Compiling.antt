-- ===== src/Cell/Compiling.antt =====
-- pkg/cell/compile.go: the context of an engine, the data plane, and the engine that results.
use mathlib.Core.Path.{subst}
use ai_gateway_epp.Base.{
  Str, length, ◌+◌, ◌≤◌, ◌≡◌, refl, ◌≢◌, ◌⊎◌, inl, inr, Bool, true, false, ◌&&◌, List, arith,
  Option-cases, ◌==◌, if◌then◌else◌, Bool-cases, leb, ap, ◌∙◌, [], ◌∷◌,
}
use ai_gateway_epp.Cell.Apply.{done}
use ai_gateway_epp.Cell.Model.{Engine, Plane}
use ai_gateway_epp.Cell.Compile.{
  check_plugins, Router, fail_compile, CompileError, Loaded, RawConfig, unstable, no_producers,
  new_engine, not_configured, compile, Context, register_all, bad_config, live_context,
  configure_and_finish, bad_plugins, hash_config, no_context, cancelled_context, bad_order, Plugin,
  Compiled, finish_engine, bad_registration,
}

-- The context that goes with a result.
unfoldable pub context_of : CompileError ⊎ Engine → Context
context_of (inl bad_config) = no_context
context_of (inl e) = cancelled_context
context_of (inr eng) = live_context

-- What a compile may do to a data plane: a configured one is left as it is; on another one Configure
-- is called at most once, and has been if it is configured afterwards.
unfoldable pub plane_after : Plane → Plane → Bool
plane_after p q =
    if p.data_configured
    then q.data_configured && q.configures == p.configures
    else if q.data_configured
    then q.configures == p.configures + 1
    else leb p.configures q.configures && leb q.configures (p.configures + 1)

-- A new engine is idle and not cancelled, has the hash of its config and at most one discovery plugin,
-- and its data plane is configured.
unfoldable pub IsResult : Str → Plane → CompileError ⊎ Engine → Type 0
IsResult version q (inl e) = Unit
IsResult version q (inr eng) =
    (q.data_configured ≡ true)
    × (eng ≡ new_engine version eng.discovery)
    × (length eng.discovery ≤ 1)

abbrev pub IsCompiled : Str → Plane → Compiled → Type 0
IsCompiled version p x =
    (x.context ≡ context_of x.result)
    × (plane_after p x.plane ≡ true)
    × IsResult version x.plane x.result

module _ (r : Router) (experimental : Bool) (raw : Str) (p : Plane) where
  finish_engine-IsCompiled :
      (conf : RawConfig) (cfg : Loaded) (plugins : List Plugin) (q : Plane)
      → plane_after p q ≡ true
      → q.data_configured ≡ true
      → IsCompiled (hash_config r raw) p (finish_engine r raw conf cfg plugins q)
  unfolding finish_engine context_of fail_compile IsResult
  finish_engine-IsCompiled conf cfg plugins q h k = elim (Option-cases conf.discovery_ref) [
    | inl without ↦ rw (without, finish_engine) (refl, h, (k, refl, omega arith))
    | inr (ref, given) ↦ elim (Option-cases (r.find_plugin plugins ref)) [
      | inl unknown ↦ rw (given, unknown, finish_engine) (refl, h, tt)
      | inr (d, known) ↦ elim (Bool-cases d.is_discovery) [
        | inl able ↦ rw (given, known, able, finish_engine) (refl, h, (k, refl, omega arith))
        | inr unable ↦ rw (given, known, unable, finish_engine) (refl, h, tt)
      ]
    ]
  ]

  failed-IsCompiled :
      (e : CompileError) (q : Plane)
      → e ≢ bad_config
      → plane_after p q ≡ true
      → IsCompiled (hash_config r raw) p (fail_compile q false e)
  unfolding fail_compile context_of IsResult
  failed-IsCompiled e q other h = (ground arith, h, tt)

  plane_after_same : plane_after p p ≡ true
  unfolding plane_after
  plane_after_same = ground arith

  plane_after_first :
      p.data_configured ≡ false
      → plane_after p (record { data_configured = true; configures = p.configures + 1 }) ≡ true
  unfolding plane_after
  plane_after_first first = ground arith

  plane_after_broken :
      p.data_configured ≡ false → plane_after p (record p { configures = p.configures + 1 }) ≡ true
  unfolding plane_after
  plane_after_broken first = ground arith

  configured_before :
      (conf : RawConfig) (cfg : Loaded) (plugins : List Plugin)
      → p.data_configured ≡ true
      → configure_and_finish r raw conf cfg plugins p ≡ finish_engine r raw conf cfg plugins p
  unfolding configure_and_finish
  configured_before conf cfg plugins done = ground arith

  configured_now :
      (conf : RawConfig) (cfg : Loaded) (plugins : List Plugin)
      → p.data_configured ≡ false
      → r.configure cfg.data_config ≡ true
      → configure_and_finish r raw conf cfg plugins p
        ≡ finish_engine r raw conf cfg plugins
            (record { data_configured = true; configures = p.configures + 1 })
  unfolding configure_and_finish
  configured_now conf cfg plugins first fine = ground arith

  not_configurable :
      (conf : RawConfig) (cfg : Loaded) (plugins : List Plugin)
      → p.data_configured ≡ false
      → r.configure cfg.data_config ≡ false
      → configure_and_finish r raw conf cfg plugins p
        ≡ fail_compile (record p { configures = p.configures + 1 }) false not_configured
  unfolding configure_and_finish
  not_configurable conf cfg plugins first broken = ground arith

  configure_and_finish-IsCompiled :
      (conf : RawConfig) (cfg : Loaded) (plugins : List Plugin)
      → IsCompiled (hash_config r raw) p (configure_and_finish r raw conf cfg plugins p)
  configure_and_finish-IsCompiled conf cfg plugins = elim (Bool-cases p.data_configured) [
    | inl done ↦
        rw (configured_before conf cfg plugins done)
          (finish_engine-IsCompiled conf cfg plugins p plane_after_same done)
    | inr first ↦ elim (Bool-cases (r.configure cfg.data_config)) [
      | inl fine ↦ rw (configured_now conf cfg plugins first fine) (
          finish_engine-IsCompiled conf cfg plugins
            (record { data_configured = true; configures = p.configures + 1 })
            (plane_after_first first) refl)
      | inr broken ↦ rw (not_configurable conf cfg plugins first broken) (
          failed-IsCompiled not_configured (record p { configures = p.configures + 1 })
            (λ e. ground arith) (plane_after_broken first))
    ]
  ]

  check_plugins-IsCompiled :
      (conf : RawConfig) (cfg : Loaded) (plugins : List Plugin)
      → IsCompiled (hash_config r raw) p (check_plugins r experimental raw conf cfg plugins p)
  unfolding check_plugins
  check_plugins-IsCompiled conf cfg plugins = elim (Option-cases (register_all r plugins)) [
    | inr (d, refused) ↦
        rw (refused, check_plugins)
          (failed-IsCompiled (bad_registration d) p (λ e. ground arith) plane_after_same)
    | inl registered ↦ elim (Bool-cases (r.order_dependencies plugins)) [
      | inr cyclic ↦
          rw (registered, check_plugins, cyclic)
            (failed-IsCompiled bad_order p (λ e. ground arith) plane_after_same)
      | inl ordered ↦ elim (Bool-cases (r.is_stable experimental plugins)) [
        | inr alpha ↦
            rw (registered, check_plugins, ordered, alpha)
              (failed-IsCompiled unstable p (λ e. ground arith) plane_after_same)
        | inl good ↦
            rw (registered, check_plugins, ordered, good)
              (configure_and_finish-IsCompiled conf cfg plugins)
      ]
    ]
  ]

  -- A compile leaves a configured data plane as it is and calls Configure at most once on another
  -- one. The engine's context is live if it returns an engine, was never made if the config cannot
  -- be decoded, and is cancelled otherwise. A new engine is idle and not cancelled, has the hash
  -- of its config and at most one discovery plugin, and stands on a configured data plane.
  pub compile-IsCompiled : IsCompiled (hash_config r raw) p (compile r experimental raw p)
  unfolding compile context_of
  compile-IsCompiled = elim (Option-cases (r.load_raw_config raw)) [
    | inl bad ↦ rw (bad, compile) (refl, plane_after_same, unfold IsResult in tt)
    | inr (conf, good) ↦ elim (Option-cases (r.instantiate conf)) [
      | inl bad ↦
          rw (good, bad, compile)
            (failed-IsCompiled bad_plugins p (λ e. ground arith) plane_after_same)
      | inr (cfg, made) ↦ elim (Option-cases (r.create_missing_producers cfg.plugins)) [
        | inl bad ↦
            rw (good, made, bad, compile)
              (failed-IsCompiled no_producers p (λ e. ground arith) plane_after_same)
        | inr (plugins, all_made) ↦
            rw (good, made, all_made, compile) (check_plugins-IsCompiled conf cfg plugins)
      ]
    ]
  ]

plane_after_kept : (p q : Plane) → p.data_configured ≡ true → plane_after p q ≡ true → q ≡ p
unfolding plane_after
plane_after_kept p q h k = ground arith

-- The data plane of a cell after a sequence of compiles.
unfoldable pub planes : Router → Bool → List Str → Plane → Plane
unfolding compile
planes r experimental [] p = p
planes r experimental (raw ∷ raws) p =
    planes r experimental raws (compile r experimental raw p).plane

pub configured_planes :
    (r : Router) (experimental : Bool) (raws : List Str) (q : Plane)
    → q.data_configured ≡ true
    → planes r experimental raws q ≡ q
unfolding planes
configured_planes r experimental [] q h = refl
configured_planes r experimental (raw ∷ raws) q h =
    let same = plane_after_kept q _ h (compile-IsCompiled r experimental raw q).1 in
    ap (planes r experimental raws) same ∙ configured_planes r experimental raws q h

-- Once a compile has yielded an engine, the data plane stays as it is through all later compiles of
-- the cell, whatever their configs are and whether they fail.
planes_kept :
    (r : Router) (experimental : Bool) (raw : Str) (p : Plane) (eng : Engine) (raws : List Str)
    → (compile r experimental raw p).result ≡ inr eng
    → planes r experimental (raw ∷ raws) p ≡ (compile r experimental raw p).plane
unfolding planes IsResult
planes_kept r experimental raw p eng raws built =
    let c = compile-IsCompiled r experimental raw p in
    let i : IsResult (hash_config r raw) (compile r experimental raw p).plane (inr eng) =
      subst (IsResult (hash_config r raw) (compile r experimental raw p).plane) built c.2 in
    configured_planes r experimental raws _ i.0
