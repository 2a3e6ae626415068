-- ===== src/Cell/Tagged.antt =====
-- pkg/cell: the engine of a cell is the one that its config hash names.
use ai_gateway_epp.Cell.Retired.{CellMoves-engine}
use ai_gateway_epp.Cell.Moves.{
  sets_role, CellMoves, rebuilds, Move, at_rest, closes, creates, rewrites, forgets, cancels,
  installs, signals, CellMove, then_moves, schedules, rejects, update-keep, sets_state,
}
use ai_gateway_epp.Cell.Kept.{run-keep}
use ai_gateway_epp.Cell.Model.{World, Plane, Cell, Engine, update}
use ai_gateway_epp.Cell.Reachable.{init}
use ai_gateway_epp.Cell.Events.{Event, run}
use ai_gateway_epp.Cell.Manager.{set_role, set_state, cancel_engine, close_cell, Options}
use ai_gateway_epp.Base.{Str, ℕ, ◌<◌, ◌≡◌, refl, sym, ◌∙◌, some, List, arith}

-- Compile gives an engine the hash of its config as its version.
abbrev pub ReturnsHashed : Options → Type 0
ReturnsHashed o =
    (key raw : Str) (p : Plane) (eng : Engine)
    → (o.compile key raw p).1 ≡ some eng
    → eng.version ≡ o.hash raw

pub record Tagged (w : World) : Type 0 where
  pub older : (c e : ℕ) → (w.cells c).engine ≡ some e → e < w.next_engine
  pub tagged :
      (c e : ℕ)
      → (w.cells c).engine ≡ some e
      → (w.cells c).current_hash ≡ some (w.engines e).version

CellMove-hash : {x y : Cell} → CellMove x y → y.current_hash ≡ x.current_hash
unfolding set_role set_state close_cell
CellMove-hash (sets_role r) = refl
CellMove-hash (sets_state s) = refl
CellMove-hash closes = refl
CellMove-hash (signals now) = refl
CellMove-hash (rebuilds p) = refl

CellMoves-hash : {x y : Cell} → CellMoves x y → y.current_hash ≡ x.current_hash
CellMoves-hash at_rest = refl
CellMoves-hash (then_moves a m) = CellMove-hash m ∙ CellMoves-hash a

module _ (o : Options) (hashed : ReturnsHashed o) where
  rewritten-Tagged :
      (w : World) (c : ℕ) (y : Cell)
      → y.engine ≡ (w.cells c).engine
      → y.current_hash ≡ (w.cells c).current_hash
      → Tagged w
      → Tagged (record w { cells = update w.cells c y })
  rewritten-Tagged w c y e h t = record {
    older = λ i d.
        update-keep (λ x. x.engine ≡ some d → d < w.next_engine) w.cells c y i
          (λ q g. t.older c d (sym e ∙ g)) (t.older i d);
    tagged = λ i d.
        update-keep (λ x. x.engine ≡ some d → x.current_hash ≡ some (w.engines d).version) w.cells c
          y i (λ q g. h ∙ t.tagged c d (sym e ∙ g)) (t.tagged i d);
  }

  Move-Tagged : (w u : World) → Move o w u → Tagged w → Tagged u
  unfolding set_state cancel_engine
  Move-Tagged w u (rewrites c y m) t =
      rewritten-Tagged w c y (CellMoves-engine m) (CellMoves-hash m) t
  Move-Tagged w u (creates key plane missing) t = record {
    older = λ c e h. ground (arith, t.older c e);
    tagged = λ c e h. ground (arith, t.tagged c e);
  }
  Move-Tagged w u (forgets key) t = record { older = t.older; tagged = t.tagged }
  Move-Tagged w u (rejects key) t = record { older = t.older; tagged = t.tagged }
  Move-Tagged w u (schedules q d b now) t = record { older = t.older; tagged = t.tagged }
  Move-Tagged w u (cancels e) t = record {
    older = t.older;
    tagged = λ c i h. ground (arith, t.tagged c i h);
  }
  Move-Tagged w u (installs key raw plane c eng found got) t = record {
    older = λ i e h. ground (arith, t.older i e);
    tagged = λ i e h. ground (arith, t.older i e, t.tagged i e, hashed key raw plane eng got);
  }

  pub run-Tagged : (es : List Event) → Tagged (run o init es)
  run-Tagged es =
      run-keep o Tagged Move-Tagged
        (λ w e n t. record { older = t.older; tagged = λ c i h. ground (arith, t.tagged c i h) }) es
        init (record { older = λ c e h. ground (arith, h); tagged = λ c e h. ground (arith, h) })
