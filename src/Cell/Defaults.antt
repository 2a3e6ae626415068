-- ===== src/Cell/Defaults.antt =====
-- pkg/cell/manager.go: a manager that NewManager makes without a compile function of the tests returns
-- idle engines, with the hashes of their configs as versions.
use ai_gateway_epp.Cell.Tagged.{ReturnsHashed}
use mathlib.Core.Path.{subst}
use ai_gateway_epp.Cell.Inflight.{ReturnsIdle}
use ai_gateway_epp.Cell.Compiling.{IsResult, compile-IsCompiled}
use ai_gateway_epp.Cell.Setup.{default_compile, new_manager, ManagerOptions, engine_or_none}
use ai_gateway_epp.Cell.Model.{Engine, Plane}
use ai_gateway_epp.Cell.Manager.{Options}
use ai_gateway_epp.Cell.Compile.{CompileError, compile, Router, hash_config, new_engine}
use ai_gateway_epp.Base.{Str, ◌≡◌, ◌⊎◌, inl, inr, none, some, arith, ap}

module _ (r : Router) (opts : ManagerOptions) (default : opts.compile ≡ none) where
  abbrev manager : Options
  manager = (new_manager r opts).0

  built_engine :
      (x : CompileError ⊎ Engine) (eng : Engine) → engine_or_none x ≡ some eng → x ≡ inr eng
  unfolding engine_or_none
  built_engine (inl e) eng h = ground (arith, h)
  built_engine (inr g) eng h = ground (arith, h)

  engine_result :
      (key raw : Str) (p : Plane) (eng : Engine)
      → (manager.compile key raw p).1 ≡ some eng
      → (compile r opts.allow_experimental raw p).result ≡ inr eng
  unfolding new_manager default_compile
  engine_result key raw p eng h = built_engine _ eng (rw default at h)

  new_engine_built :
      (key raw : Str) (p : Plane) (eng : Engine)
      → (manager.compile key raw p).1 ≡ some eng
      → eng ≡ new_engine (hash_config r raw) eng.discovery
  unfolding IsResult
  new_engine_built key raw p eng h =
      let c = compile-IsCompiled r opts.allow_experimental raw p in
      let q = (compile r opts.allow_experimental raw p).plane in
      let i : IsResult (hash_config r raw) q (inr eng) =
        subst (IsResult (hash_config r raw) q) (engine_result key raw p eng h) c.2 in
      i.1

  default-ReturnsHashed : ReturnsHashed manager
  unfolding new_manager
  default-ReturnsHashed key raw p eng h = ap (λ e. e.version) (new_engine_built key raw p eng h)

  default-ReturnsIdle : ReturnsIdle manager
  default-ReturnsIdle key raw p eng h = ap (λ e. e.wg) (new_engine_built key raw p eng h)
