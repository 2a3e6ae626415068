-- ===== src/Cell/Gauges.antt =====
-- pkg/cell/cell.go and metrics.go: the series of the gauge `cell_state`.
use ai_gateway_epp.Cell.Moves.{
  sets_state, rebuilds, signals, CellMoves, at_rest, then_moves, closes, sets_role, CellMove,
  schedules, cancels, rewrites, creates, rejects, installs, forgets, Move, update-keep,
}
use ai_gateway_epp.Cell.Role.{State, role_eq, Role, state_eq}
use ai_gateway_epp.Cell.Model.{World, Cell, update}
use ai_gateway_epp.Cell.Manager.{set_role, close_cell, set_state, Options}
use ai_gateway_epp.Base.{
  Str, str_eq, ℕ, zero, suc, ◌≤◌, ◌<◌, ◌≡◌, refl, ◌∙◌, Bool, true, false, ◌&&◌, ◌||◌, List, [], ◌∷◌,
  arith, ◌+◌, inl, inr, some, ◌==◌, Bool-cases, str_eq_iff,
}
use ai_gateway_epp.Cell.Kept.{set_wg, run-keep}
use ai_gateway_epp.Cell.Events.{run, Event}
use ai_gateway_epp.Cell.Reachable.{init}

-- Whether calls on a cell have set the series of a role and a state to 1.
pub has_set : Role → State → List (Role × State) → Bool
has_set r s [] = false
has_set r s ((r', s') ∷ l) = (role_eq r r' && state_eq s s') || has_set r s l

-- Whether the first cells of the heap that belong to a cluster have set a series.
set_by : World → ℕ → Str → Role → State → Bool
set_by w zero key r s = false
set_by w (suc n) key r s =
    (str_eq (w.cells n).key key && has_set r s (w.cells n).gauge) || set_by w n key r s

-- cellStateGauge: the series of a cluster, a role and a state, which no code deletes.
unfoldable pub cell_state : World → Str → Role → State → Bool
unfolding set_by
cell_state w key r s = set_by w w.next_cell key r s

-- The series of the role and the state that a cell has.
abbrev Current : Cell → Type 0
Current x = has_set x.role x.state x.gauge ≡ true

role_eq_refl : (r : Role) → role_eq r r ≡ true
role_eq_refl r = ground arith

state_eq_refl : (s : State) → state_eq s s ≡ true
state_eq_refl s = ground arith

CellMove-Current : {x y : Cell} → CellMove x y → Current x → Current y
unfolding has_set set_role set_state close_cell
CellMove-Current {x = x} (sets_role r) h = ground (arith, role_eq_refl r, state_eq_refl x.state)
CellMove-Current {x = x} (sets_state s) h = ground (arith, role_eq_refl x.role, state_eq_refl s)
CellMove-Current closes h = h
CellMove-Current (signals now) h = h
CellMove-Current (rebuilds p) h = h

CellMove-kept :
    {x y : Cell} (r : Role) (s : State)
    → CellMove x y
    → has_set r s x.gauge ≡ true
    → has_set r s y.gauge ≡ true
unfolding has_set set_role set_state close_cell
CellMove-kept r s (sets_role r') h = ground arith
CellMove-kept r s (sets_state s') h = ground arith
CellMove-kept r s closes h = h
CellMove-kept r s (signals now) h = h
CellMove-kept r s (rebuilds p) h = h

CellMove-key : {x y : Cell} → CellMove x y → y.key ≡ x.key
unfolding set_role set_state close_cell
CellMove-key (sets_role r) = refl
CellMove-key (sets_state s) = refl
CellMove-key closes = refl
CellMove-key (signals now) = refl
CellMove-key (rebuilds p) = refl

pub CellMoves-key : {x y : Cell} → CellMoves x y → y.key ≡ x.key
CellMoves-key at_rest = refl
CellMoves-key (then_moves a m) = CellMove-key m ∙ CellMoves-key a

-- What a cell has of another, after any stores: its key and its series.
record Outlives (x y : Cell) : Type 0 where
  same_key : y.key ≡ x.key
  kept : (r : Role) (s : State) → has_set r s x.gauge ≡ true → has_set r s y.gauge ≡ true
  current : Current x → Current y

CellMoves-Outlives : {x y : Cell} → CellMoves x y → Outlives x y
CellMoves-Outlives at_rest = record { same_key = refl; kept = λ r s h. h; current = λ h. h }
CellMoves-Outlives (then_moves a m) =
    let i = CellMoves-Outlives a in
    record {
      same_key = CellMoves-key (then_moves a m);
      kept = λ r s h. CellMove-kept r s m (i.kept r s h);
      current = λ h. CellMove-Current m (i.current h);
    }

-- What a later world has of the cells of an earlier one.
record Later (w u : World) : Type 0 where
  more : w.next_cell ≤ u.next_cell
  outlives : (c : ℕ) → c < w.next_cell → Outlives (w.cells c) (u.cells c)
  all_current : (c : ℕ) → c < u.next_cell → Current (u.cells c)

Outlives-trans : {x y z : Cell} → Outlives x y → Outlives y z → Outlives x z
Outlives-trans a b = record {
  same_key = b.same_key ∙ a.same_key;
  kept = λ r s h. b.kept r s (a.kept r s h);
  current = λ h. b.current (a.current h);
}

module _ (o : Options) (w : World) where
  rewritten-Later :
      (u : World) (c : ℕ) (y : Cell)
      → Outlives (u.cells c) y
      → Later w u
      → Later w (record u { cells = update u.cells c y })
  rewritten-Later u c y m l = record {
    more = l.more;
    outlives = λ i h.
        let before = l.outlives i h in
        update-keep (Outlives (w.cells i)) u.cells c y i (λ e. Outlives-trans before (rw⁻¹ e m))
          before;
    all_current = λ i h.
        update-keep Current u.cells c y i (λ e. m.current (l.all_current c (rw e h)))
          (l.all_current i h);
  }

  created-Later :
      (u : World) (y : Cell) (m : List (Str × ℕ))
      → Current y
      → Later w u
      → Later w (record u {
        cells = update u.cells u.next_cell y;
        next_cell = u.next_cell + 1;
        registry = m;
      })
  created-Later u y m new l = record {
    more = omega (arith, l.more);
    outlives = λ i h.
        update-keep (Outlives (w.cells i)) u.cells u.next_cell y i
          (λ e. absurd (omega (arith, e, h, l.more))) (l.outlives i h);
    all_current = λ i h. elim (Bool-cases (u.next_cell == i)) [
      | inl same ↦ rw same new
      | inr other ↦ rw other (l.all_current i (ground arith))
    ];
  }

  same-Later : (u v : World) → v.cells ≡ u.cells → v.next_cell ≡ u.next_cell → Later w u → Later w v
  same-Later u v e n l = record {
    more = rw n l.more;
    outlives = λ i h. rw e (l.outlives i h);
    all_current = λ i h. rw e (l.all_current i (rw⁻¹ n h));
  }

  Move-Later : (u v : World) → Move o u v → Later w u → Later w v
  unfolding set_state has_set
  Move-Later u v (rewrites c y m) l = rewritten-Later u c y (CellMoves-Outlives m) l
  Move-Later u v (creates key plane missing) l = created-Later u _ _ refl l
  Move-Later u v (installs key raw plane c eng found got) l =
      let y : Cell = record (u.cells c) {
        engine = some u.next_engine;
        current_hash = some (o.hash raw);
      } in
      same-Later (record u { cells = update u.cells c y }) v refl refl
        (rewritten-Later u c y (record { same_key = refl; kept = λ r s h. h; current = λ h. h }) l)
  Move-Later u v (forgets key) l = same-Later u v refl refl l
  Move-Later u v (rejects key) l = same-Later u v refl refl l
  Move-Later u v (cancels e) l = same-Later u v refl refl l
  Move-Later u v (schedules q d a now) l = same-Later u v refl refl l

  run-Later : (es : List Event) (u : World) → Later w u → Later w (run o u es)
  run-Later = run-keep o (Later w) Move-Later (λ u e n l. same-Later u (set_wg u e n) refl refl l)

set_by_lem :
    (w : World) (c n : ℕ) (r : Role) (s : State)
    → c < n
    → has_set r s (w.cells c).gauge ≡ true
    → set_by w n (w.cells c).key r s ≡ true
unfolding set_by
set_by_lem w c zero r s h set = absurd (omega (arith, h))
set_by_lem w c (suc n) r s h set =
    ground
      (arith, str_eq_iff (w.cells c).key (w.cells c).key, λ (b : c < n). set_by_lem w c n r s b set)

self-Later : (w : World) → ((c : ℕ) → c < w.next_cell → Current (w.cells c)) → Later w w
self-Later w all = record {
  more = omega arith;
  outlives = λ c h. record { same_key = refl; kept = λ r s g. g; current = λ g. g };
  all_current = all;
}

Later-cell_state :
    (w u : World) (c : ℕ) (r : Role) (s : State)
    → Later w u
    → c < w.next_cell
    → has_set r s (w.cells c).gauge ≡ true
    → cell_state u (w.cells c).key r s ≡ true
unfolding cell_state
Later-cell_state w u c r s l h g =
    let k = l.outlives c h in
    rw⁻¹ k.same_key (set_by_lem u c u.next_cell r s (omega (arith, h, l.more)) (k.kept r s g))

kept-cell_state :
    (o : Options) (w : World) (es : List Event)
    → ((c : ℕ) → c < w.next_cell → Current (w.cells c))
    → (c : ℕ) → c < w.next_cell
    → let x = w.cells c in
      (cell_state w x.key x.role x.state ≡ true)
      × (cell_state (run o w es) x.key x.role x.state ≡ true)
kept-cell_state o w es all c h =
    let self = self-Later w all in
    (
      Later-cell_state w w c _ _ self h (all c h),
      Later-cell_state w (run o w es) c _ _ (run-Later o w es w self) h (all c h),
    )

-- Take any cell c of the heap after any events of a new manager, and any events after those. The
-- series of the gauge cell_state for the cluster of c, with the role and the state that c had in
-- between, is 1 then and stays 1 to the end: also when c has another role or another state by then,
-- or is dropped.
pub run-cell_state :
    (o : Options) (es later : List Event) (c : ℕ)
    → c < (run o init es).next_cell
    → let w = run o init es in
      let x = w.cells c in
      (cell_state w x.key x.role x.state ≡ true)
      × (cell_state (run o w later) x.key x.role x.state ≡ true)
run-cell_state o es later c h =
    let l = run-Later o init es init (self-Later init (λ i b. absurd (omega (arith, b)))) in
    kept-cell_state o (run o init es) later l.all_current c h
