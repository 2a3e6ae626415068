-- ===== src/Cell/Invariant.antt =====
-- pkg/cell: the invariant of a manager between two events.
use ai_gateway_epp.Base.{
  ℕ, ◌<◌, ◌≡◌, ◌⊎◌, Str, true, false, none, some, arith, lookup, All, str_eq_instance, All-mono,
}
use ai_gateway_epp.Cell.Role.{role_primary, state_creating, state_primary, state_draining}
use ai_gateway_epp.Cell.Model.{World, Cell, DrainTask, update, Metrics}

-- The role, the state, the engine and the readiness of one cell agree.
pub record CellInv (c : Cell) : Type 0 where
  pub primary_role : c.state ≡ state_primary → c.role ≡ role_primary
  pub primary_state : c.role ≡ role_primary → (c.state ≡ state_primary) ⊎ (c.state ≡ state_draining)
  pub ready_state : c.ready ≡ true → ¬ (c.state ≡ state_creating)
  pub hashed : c.engine ≡ none → c.current_hash ≡ none
  pub engined : c.current_hash ≡ none → c.engine ≡ none
  pub closed_draining : c.closed ≡ true → c.state ≡ state_draining

-- One cell before and after a call: nothing that other parts of the invariant rest on is lost.
pub record Lawful (w : World) (x y : Cell) : Type 0 where
  pub inv : CellInv y
  pub key_kept : y.key ≡ x.key
  pub open_kept : x.closed ≡ false → y.closed ≡ false
  pub draining_kept : x.state ≡ state_draining → y.state ≡ state_draining
  pub engine_known : (e : ℕ) → y.engine ≡ some e → e < w.next_engine

abbrev pub TaskInv : World → DrainTask → Type 0
TaskInv w t = (t.cell < w.next_cell) × (t.teardown ≡ true → (w.cells t.cell).state ≡ state_draining)

pub record Registered (w : World) (k : Str) (c : ℕ) : Type 0 where
  pub known : c < w.next_cell
  pub named : (w.cells c).key ≡ k
  pub is_open : (w.cells c).closed ≡ false

pub record Inv (w : World) : Type 0 where
  pub cells_inv : (c : ℕ) → CellInv (w.cells c)
  pub engines_known : (c e : ℕ) → (w.cells c).engine ≡ some e → e < w.next_engine
  pub registered : (k : Str) (c : ℕ) → lookup k w.registry ≡ some c → Registered w k c
  pub queued : All (TaskInv w) w.queue
  pub drained : All (TaskInv w) w.draining

module _ (w : World) (c : ℕ) (y : Cell) (v : Inv w) (l : Lawful w (w.cells c) y) where
  abbrev replaced : World
  replaced = record w { cells = update w.cells c y }

  replace-TaskInv : (t : DrainTask) → TaskInv w t → TaskInv replaced t
  replace-TaskInv t h = (h.0, λ e. ground (arith, l.draining_kept, h.1 e))

  replace-Registered : (k : Str) (i : ℕ) → Registered w k i → Registered replaced k i
  replace-Registered k i r = record {
    known = r.known;
    named = ground (arith, l.key_kept);
    is_open = ground (arith, l.open_kept);
  }

  -- The rule for every call that rewrites one cell.
  pub replace-Inv : Inv replaced
  replace-Inv = record {
    cells_inv = λ i. ground (arith, l.inv, v.cells_inv i);
    engines_known = λ i e. ground (arith, l.engine_known e, v.engines_known i e);
    registered = λ k i h. replace-Registered k i (v.registered k i h);
    queued = All-mono (TaskInv w) (TaskInv replaced) replace-TaskInv w.queue v.queued;
    drained = All-mono (TaskInv w) (TaskInv replaced) replace-TaskInv w.draining v.drained;
  }

-- The metrics are not in the invariant.
pub metrics-Inv : (w : World) (m : Metrics) → Inv w → Inv (record w { metrics = m })
metrics-Inv w m v = record {
  cells_inv = v.cells_inv;
  engines_known = v.engines_known;
  registered = λ k c h.
      let r = v.registered k c h in
      record { known = r.known; named = r.named; is_open = r.is_open };
  queued = v.queued;
  drained = v.drained;
}
