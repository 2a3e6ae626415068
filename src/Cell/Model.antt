-- ===== src/Cell/Model.antt =====
-- pkg/cell/cell.go, engine.go and manager.go: the objects on an explicit heap. A `*Cell` and an
-- `*Engine` are numbers, so a cell that is dropped and one created later under its key differ.
use ai_gateway_epp.Base.{
  ℕ, Str, str_eq_instance, Bool, false, Option, none, List, [], map, ◌==◌, if◌then◌else◌, lookup,
}
use ai_gateway_epp.Cell.Role.{Role, State, role_none, state_creating}

-- The data plane that an engine compile may change: whether the datalayer runtime is configured, and
-- how often `Configure` was called on it.
pub record Plane : Type 0 where
  pub data_configured : Bool
  pub configures : ℕ

pub record Cell : Type 0 where
  pub key : Str
  pub plane : Plane
  -- `cancel` of the cell's context was called
  pub closed : Bool
  pub engine : Option ℕ
  pub role : Role
  pub state : State
  pub current_hash : Option Str
  -- the `ready` channel is closed and `readyOnce` is spent
  pub ready : Bool
  pub ready_at : ℕ
  -- the labels of `cellStateGauge` that calls on this cell have set to 1, the last one first
  pub gauge : List (Role × State)

pub record Engine : Type 0 where
  pub version : Str
  -- the discovery plugins, by their numbers
  pub discovery : List ℕ
  -- `cancel` is not nil
  pub has_cancel : Bool
  pub cancelled : Bool
  -- the counter of `wg`
  pub wg : ℕ

-- drainTask
pub record DrainTask : Type 0 where
  pub cell : ℕ
  pub eng : ℕ
  pub teardown : Bool

-- The goroutine of `start` that waits for the channels of `todo`, one after the other.
pub record Await : Type 0 where
  pub cell : ℕ
  pub eng : ℕ
  pub todo : List ℕ

-- `engineReloads`, as the increments in their order with the result `success` or not; the series of
-- `engineCurrentVersion` that are 1, as pairs of a cluster and a version; and `demuxErrors` of
-- pkg/demux, as the reasons of the increments in their order.
pub record Metrics : Type 0 where
  pub reloads : List (Str × Bool)
  pub current_versions : List (Str × Str)
  pub demux_errors : List Str

-- Manager with the heap that it points into. `queue` is `drainCh`, `draining` the tasks that the
-- workers have taken, `now` the wall clock.
pub record World : Type 0 where
  pub registry : List (Str × ℕ)
  pub cells : ℕ → Cell
  pub engines : ℕ → Engine
  pub next_cell : ℕ
  pub next_engine : ℕ
  pub queue : List DrainTask
  pub draining : List DrainTask
  pub awaits : List Await
  pub now : ℕ
  pub metrics : Metrics

abbrev pub update {ℓ} : {A : Type ℓ} → (ℕ → A) → ℕ → A → ℕ → A
update f i a j = if i == j then a else f j

-- The struct that `newCell` returns, before it is registered.
abbrev pub fresh_cell : Str → Plane → Cell
fresh_cell key plane = record {
  key = key;
  plane = plane;
  closed = false;
  engine = none;
  role = role_none;
  state = state_creating;
  current_hash = none;
  ready = false;
  ready_at = 0;
  gauge = [];
}

abbrev pub no_cell : Cell
no_cell = fresh_cell [] (record { data_configured = false; configures = 0 })

abbrev pub no_engine : Engine
no_engine = record { version = []; discovery = []; has_cancel = false; cancelled = false; wg = 0 }

abbrev pub modify_cell : World → ℕ → (Cell → Cell) → World
modify_cell w c f = record w { cells = update w.cells c (f (w.cells c)) }

abbrev pub modify_engine : World → ℕ → (Engine → Engine) → World
modify_engine w e f = record w { engines = update w.engines e (f (w.engines e)) }

-- Get
unfoldable pub get : World → Str → Option ℕ
get w key = lookup key w.registry

-- List
unfoldable pub list : World → List ℕ
list w = map (λ r. r.1) w.registry
