-- ===== src/Cell/Setup.antt =====
-- pkg/cell/manager.go: NewManager, and the cell that it creates by default.
use ai_gateway_epp.Base.{
  Str, ℤ, pos, negsuc, ℕ, zero, suc, ◌⊎◌, inl, inr, Bool, false, Option, none, some,
}
use ai_gateway_epp.Cell.Model.{Plane, Engine}
use ai_gateway_epp.Cell.Manager.{Options}
use ai_gateway_epp.Cell.Compile.{compile, hash_config, Router, CompileError}

-- cell.Options, as far as the manager goes by them; `new_cell` and `compile` override the defaults.
pub record ManagerOptions : Type 0 where
  pub drain_timeout : ℤ
  pub drain_workers : ℤ
  pub allow_experimental : Bool
  pub new_cell : Option (Str → Option Plane)
  pub compile : Option (Str → Str → Plane → Plane × Option Engine)

-- A number of the options, or the default in place of one that is not positive.
unfoldable pub positive_or : ℤ → ℕ → ℕ
positive_or (pos zero) default = default
positive_or (pos (suc n)) default = suc n
positive_or (negsuc n) default = default

-- The data plane of defaultNewCell, which returns no error.
unfoldable pub default_new_cell : Str → Option Plane
default_new_cell key = some (record { data_configured = false; configures = 0 })

unfoldable pub engine_or_none : CompileError ⊎ Engine → Option Engine
engine_or_none (inl e) = none
engine_or_none (inr eng) = some eng

-- The closure over Compile.
unfoldable pub default_compile : Router → Bool → Str → Str → Plane → Plane × Option Engine
unfolding compile engine_or_none
default_compile r experimental key raw plane =
    let x = compile r experimental raw plane in (x.plane, engine_or_none x.result)

-- NewManager: the functions that the manager calls, and its timeout for a drain in nanoseconds.
unfoldable pub new_manager : Router → ManagerOptions → Options × ℕ
unfolding positive_or default_new_cell default_compile hash_config
new_manager r opts = (
  record {
    hash = hash_config r;
    new_cell = elim opts.new_cell [ none ↦ default_new_cell | some f ↦ f ];
    compile = elim opts.compile [ none ↦ default_compile r opts.allow_experimental | some f ↦ f ];
    drain_workers = positive_or opts.drain_workers 4;
  },
  positive_or opts.drain_timeout 60000000000,
)
