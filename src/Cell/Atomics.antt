-- ===== src/Cell/Atomics.antt =====
-- pkg/cell: Promote of manager.go and markReady of cell.go on one cell at the same time, one goroutine
-- each. The role and the state are separate atomics, so each load and each store is a step; setRole
-- and setState are one step with the gauge that they set.
use ai_gateway_epp.Cell.Role.{
  state_creating, state_primary, role_primary, state_draining, state_eq, state_standby, State,
}
use ai_gateway_epp.Cell.Model.{Cell}
use ai_gateway_epp.Cell.Manager.{promote_cell, set_state, set_role, mark_ready}
use ai_gateway_epp.Base.{ℕ, ◌≡◌, ◌≢◌, Bool, true, false, List, [], ◌∷◌, if◌then◌else◌, refl}

-- Where Promote stands, once it has its cell.
pub data Promoting : Type 0 where
  checks_draining stores_role looks_standby looks_creating stores_primary promoted : Promoting

-- Where markReady stands.
pub data Readying : Type 0 where
  stores_ready looks_state stores_standby readied : Readying

pub record Both : Type 0 where
  pub cell : Cell
  pub promoting : Promoting
  pub readying : Readying

unfoldable pub promote_step : Cell → Promoting → Cell × Promoting
unfolding set_role set_state
promote_step x checks_draining =
    if state_eq x.state state_draining then (x, promoted) else (x, stores_role)
promote_step x stores_role = (set_role role_primary x, looks_standby)
promote_step x looks_standby =
    if state_eq x.state state_standby then (x, stores_primary) else (x, looks_creating)
promote_step x looks_creating =
    if state_eq x.state state_creating then (x, stores_primary) else (x, promoted)
promote_step x stores_primary = (set_state state_primary x, promoted)
promote_step x promoted = (x, promoted)

-- At the time `now`.
unfoldable pub ready_step : ℕ → Cell → Readying → Cell × Readying
unfolding set_state
ready_step now x stores_ready =
    if x.ready then (x, readied) else (record x { ready_at = now; ready = true }, looks_state)
ready_step now x looks_state =
    if state_eq x.state state_creating then (x, stores_standby) else (x, readied)
ready_step now x stores_standby = (set_state state_standby x, readied)
ready_step now x readied = (x, readied)

-- A step of Promote, or of markReady.
unfoldable pub both_step : ℕ → Both → Bool → Both
unfolding promote_step ready_step
both_step now b true =
    let (x, p) = promote_step b.cell b.promoting in record b { cell = x; promoting = p }
both_step now b false =
    let (x, r) = ready_step now b.cell b.readying in record b { cell = x; readying = r }

unfoldable pub both_run : ℕ → Both → List Bool → Both
unfolding both_step
both_run now b [] = b
both_run now b (s ∷ ss) = both_run now (both_step now b s) ss

abbrev pub begin_both : Cell → Both
begin_both x = record { cell = x; promoting = checks_draining; readying = stores_ready }

-- One after the other they do what `promote_cell` and `mark_ready` do.
abbrev Serial : ℕ → Cell → Type 0
Serial now x =
    ((both_run now (begin_both x)
        (true ∷ true ∷ true ∷ true ∷ true ∷ false ∷ false ∷ false ∷ [])).cell
      ≡ mark_ready now (promote_cell x))
    × ((both_run now (begin_both x)
          (false ∷ false ∷ false ∷ true ∷ true ∷ true ∷ true ∷ true ∷ [])).cell
        ≡ promote_cell (mark_ready now x))

both_run-Serial : (now : ℕ) (x : Cell) → x.state ≢ state_draining → Serial now x
unfolding both_run mark_ready promote_cell set_state set_role
both_run-Serial now x live = by_state x.state x.ready live
  where
    by_state :
        (s : State) (b : Bool) → s ≢ state_draining → Serial now (record x { state = s; ready = b })
    by_state state_creating true h = (refl, refl)
    by_state state_creating false h = (refl, refl)
    by_state state_standby true h = (refl, refl)
    by_state state_standby false h = (refl, refl)
    by_state state_primary true h = (refl, refl)
    by_state state_primary false h = (refl, refl)
    by_state state_draining b h = absurd (h refl)
