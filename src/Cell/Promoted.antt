-- ===== src/Cell/Promoted.antt =====
-- pkg/cell: what becomes of a cell that is promoted while it becomes ready.
use ai_gateway_epp.Cell.Atomics.{
  promote_step, ready_step, both_step, both_run, begin_both, stores_primary, stores_standby,
  checks_draining, Readying, readied, stores_role, Both, stores_ready, looks_standby, looks_state,
  Promoting, looks_creating, promoted,
}
use ai_gateway_epp.Cell.Role.{
  state_primary, state_standby, state_creating, role_primary, state_draining, State,
}
use ai_gateway_epp.Cell.Model.{Cell, modify_cell, World, get}
use ai_gateway_epp.Cell.Manager.{set_role, ensure, Options, set_state, apply_role}
use ai_gateway_epp.Base.{
  Str, ℕ, ◌≡◌, ◌≢◌, ◌⊎◌, Bool, true, false, some, List, [], ◌∷◌, arith, refl, ap, ◌∙◌, inl, inr,
}
use ai_gateway_epp.Cell.Roles.{find_existing}

-- What holds between two steps on a cell that is not draining.
role_set : Promoting → Bool
role_set checks_draining = false
role_set stores_role = false
role_set _ = true

is_promoted : Promoting → Bool
is_promoted promoted = true
is_promoted _ = false

is_marked : Readying → Bool
is_marked stores_ready = false
is_marked _ = true

record Fair (x : Cell) (p : Promoting) (r : Readying) : Type 0 where
  undrained : x.state ≢ state_draining
  role_there : role_set p ≡ true → x.role ≡ role_primary
  ready_there : is_marked r ≡ true → x.ready ≡ true
  no_creating : is_promoted p ≡ true → x.state ≢ state_creating

promote_step-Fair :
    (x : Cell) (p : Promoting) (r : Readying)
    → Fair x p r
    → Fair (promote_step x p).0 (promote_step x p).1 r
unfolding promote_step role_set is_promoted set_role set_state
promote_step-Fair x checks_draining r f = record {
  undrained = λ h. ground (arith, f.undrained, h);
  role_there = λ h. ground (arith, f.role_there, h);
  ready_there = λ h. ground (arith, f.ready_there, h);
  no_creating = λ h g. ground (arith, f.undrained, f.no_creating, h, g);
}
promote_step-Fair x stores_role r f = record {
  undrained = λ h. ground (arith, f.undrained, h);
  role_there = λ h. ground (arith, f.role_there, h);
  ready_there = λ h. ground (arith, f.ready_there, h);
  no_creating = λ h g. ground (arith, f.undrained, f.no_creating, h, g);
}
promote_step-Fair x looks_standby r f = record {
  undrained = λ h. ground (arith, f.undrained, h);
  role_there = λ h. ground (arith, f.role_there, h);
  ready_there = λ h. ground (arith, f.ready_there, h);
  no_creating = λ h g. ground (arith, f.undrained, f.no_creating, h, g);
}
promote_step-Fair x looks_creating r f = record {
  undrained = λ h. ground (arith, f.undrained, h);
  role_there = λ h. ground (arith, f.role_there, h);
  ready_there = λ h. ground (arith, f.ready_there, h);
  no_creating = λ h g. ground (arith, f.undrained, f.no_creating, h, g);
}
promote_step-Fair x stores_primary r f = record {
  undrained = λ h. ground (arith, f.undrained, h);
  role_there = λ h. ground (arith, f.role_there, h);
  ready_there = λ h. ground (arith, f.ready_there, h);
  no_creating = λ h g. ground (arith, f.undrained, f.no_creating, h, g);
}
promote_step-Fair x promoted r f = f

ready_step-Fair :
    (now : ℕ) (x : Cell) (p : Promoting) (r : Readying)
    → Fair x p r
    → Fair (ready_step now x r).0 p (ready_step now x r).1
unfolding ready_step is_marked set_state
ready_step-Fair now x p stores_ready f = record {
  undrained = λ h. ground (arith, f.undrained, h);
  role_there = λ h. ground (arith, f.role_there, h);
  ready_there = λ h. ground (arith, f.ready_there, h);
  no_creating = λ h g. ground (arith, f.undrained, f.no_creating, h, g);
}
ready_step-Fair now x p looks_state f = record {
  undrained = λ h. ground (arith, f.undrained, h);
  role_there = λ h. ground (arith, f.role_there, h);
  ready_there = λ h. ground (arith, f.ready_there, h);
  no_creating = λ h g. ground (arith, f.undrained, f.no_creating, h, g);
}
ready_step-Fair now x p stores_standby f = record {
  undrained = λ h. ground (arith, f.undrained, h);
  role_there = λ h. ground (arith, f.role_there, h);
  ready_there = λ h. ground (arith, f.ready_there, h);
  no_creating = λ h g. ground (arith, f.undrained, f.no_creating, h, g);
}
ready_step-Fair now x p readied f = f

both_run-Fair :
    (now : ℕ) (ss : List Bool) (b : Both)
    → Fair b.cell b.promoting b.readying
    → let q = both_run now b ss in Fair q.cell q.promoting q.readying
unfolding both_run both_step
both_run-Fair now [] b f = f
both_run-Fair now (true ∷ ss) b f =
    both_run-Fair now ss (both_step now b true) (promote_step-Fair b.cell b.promoting b.readying f)
both_run-Fair now (false ∷ ss) b f =
    both_run-Fair now ss (both_step now b false)
      (ready_step-Fair now b.cell b.promoting b.readying f)

two_states :
    (s : State)
    → s ≢ state_draining
    → s ≢ state_creating
    → (s ≡ state_primary) ⊎ (s ≡ state_standby)
two_states state_creating h g = absurd (g refl)
two_states state_standby h g = inr refl
two_states state_primary h g = inl refl
two_states state_draining h g = absurd (h refl)

finished :
    (y : Cell) (p : Promoting) (r : Readying)
    → Fair y p r
    → p ≡ promoted
    → r ≡ readied
    → (y.ready ≡ true)
      × (y.role ≡ role_primary)
      × ((y.state ≡ state_primary) ⊎ (y.state ≡ state_standby))
unfolding role_set is_promoted is_marked
finished y p r f over over' = (
  f.ready_there (rw over' refl),
  f.role_there (rw over refl),
  two_states y.state f.undrained (f.no_creating (rw over refl)),
)

-- Let Promote and markReady run at the same time on a cell that is not draining, their loads and stores
-- in any order, until both are over. The cell is ready then, its role is primary, and its state
-- is primary or standby.
pub both_run-outcome :
    (now : ℕ) (x : Cell) (ss : List Bool)
    → x.state ≢ state_draining
    → (both_run now (begin_both x) ss).promoting ≡ promoted
    → (both_run now (begin_both x) ss).readying ≡ readied
    → let y = (both_run now (begin_both x) ss).cell in
      (y.ready ≡ true)
      × (y.role ≡ role_primary)
      × ((y.state ≡ state_primary) ⊎ (y.state ≡ state_standby))
unfolding role_set is_promoted is_marked
both_run-outcome now x ss live over over' =
    let f = both_run-Fair now ss (begin_both x) (record {
      undrained = live;
      role_there = λ h. ground (arith, h);
      ready_there = λ h. ground (arith, h);
      no_creating = λ h. ground (arith, h);
    }) in
    finished _ _ _ f over over'

-- markReady sees the state `creating`, Promote stores `primary`, and markReady stores `standby`.
abbrev pub lost_schedule : List Bool
lost_schedule = false ∷ true ∷ true ∷ true ∷ true ∷ false ∷ true ∷ false ∷ []

-- The cell after that schedule.
lost_cell :
    (now : ℕ) (x : Cell)
    → x.state ≡ state_creating
    → x.ready ≡ false
    → let y = (both_run now (begin_both x) lost_schedule).cell in
      (y.role ≡ role_primary) × (y.state ≡ state_standby)
unfolding both_run promote_step ready_step set_role set_state
lost_cell now x young unready = by_state x.state x.ready young unready
  where
    by_state :
        (s : State) (b : Bool)
        → s ≡ state_creating
        → b ≡ false
        → let y =
            (both_run now (begin_both (record x { state = s; ready = b })) lost_schedule).cell in
          (y.role ≡ role_primary) × (y.state ≡ state_standby)
    by_state state_creating false h g = (refl, refl)
    by_state state_creating true h g = ground (arith, g)
    by_state state_standby b h g = ground (arith, h)
    by_state state_primary b h g = ground (arith, h)
    by_state state_draining b h g = ground (arith, h)

ensure_same :
    (o : Options) (w : World) (key : Str) (c : ℕ)
    → get w key ≡ some c
    → (w.cells c).role ≡ role_primary
    → ensure o w key role_primary ≡ (w, some c)
unfolding ensure
ensure_same o w key c found same =
    rw (find_existing o w key c found, ensure) (unfold apply_role in ground (arith, same))

-- Take a cell that is still being created and not ready. There is an order of the loads and stores of
-- Promote and markReady after which its role is primary and its state is standby; and an Ensure
-- with the role primary then changes nothing.
pub ensure-both_run :
    (o : Options) (w : World) (key : Str) (c now : ℕ)
    → get w key ≡ some c
    → (w.cells c).state ≡ state_creating
    → (w.cells c).ready ≡ false
    → let x = (both_run now (begin_both (w.cells c)) lost_schedule).cell in
      let u = modify_cell w c (λ _. x) in
      (x.role ≡ role_primary)
      × (x.state ≡ state_standby)
      × (ensure o u key role_primary ≡ (u, some c))
unfolding get
ensure-both_run o w key c now found young unready =
    let x = (both_run now (begin_both (w.cells c)) lost_schedule).cell in
    let u : World = modify_cell w c (λ _. x) in
    let l = lost_cell now (w.cells c) young unready in
    let there : u.cells c ≡ x = ground arith in
    (l.0, l.1, ensure_same o u key c found (ap (λ y. y.role) there ∙ l.0))
