-- ===== src/Cell/Moves.antt =====
-- pkg/cell: the elementary changes that the calls, the drain workers and the goroutines of `start` make
-- to the heap of a manager, as relations. A request changes the counter of its engine only, and is
-- not among them.
use ai_gateway_epp.Cell.Apply.{set_version, count_reload}
use ai_gateway_epp.Cell.Role.{Role, state_creating, State}
use ai_gateway_epp.Cell.Model.{
  Engine, Cell, modify_engine, Await, World, DrainTask, fresh_cell, update, Plane, get,
}
use ai_gateway_epp.Cell.Manager.{cancel_engine, close_cell, set_role, Options, set_state}
use ai_gateway_epp.Base.{
  Str, insert, delete, ℕ, ◌+◌, ◌≡◌, true, false, none, some, List, str_eq_instance, inl, inr, arith,
  ◌==◌, Bool-cases,
}

-- One store to a cell.
pub data CellMove (x : Cell) : Cell → Type 0 where
  sets_role : (r : Role) → CellMove x (set_role r x)
  sets_state : (s : State) → CellMove x (set_state s x)
  closes : CellMove x (close_cell x)
  signals : (now : ℕ) → CellMove x (record x { ready_at = now; ready = true })
  rebuilds : (p : Plane) → CellMove x (record x { plane = p })

pub data CellMoves (x : Cell) : Cell → Type 0 where
  at_rest : CellMoves x x
  then_moves : {y z : Cell} → CellMoves x y → CellMove y z → CellMoves x z

pub data Move (o : Options) (w : World) : World → Type 0 where
  rewrites :
      (c : ℕ) (y : Cell)
      → CellMoves (w.cells c) y
      → Move o w (record w { cells = update w.cells c y })
  creates :
      (key : Str) (plane : Plane)
      → get w key ≡ none
      → Move o w (record w {
        cells = update w.cells w.next_cell (set_state state_creating (fresh_cell key plane));
        next_cell = w.next_cell + 1;
        registry = insert key w.next_cell w.registry;
      })
  forgets : (key : Str) → Move o w (record w { registry = delete key w.registry })
  installs :
      (key raw : Str) (plane : Plane) (c : ℕ) (eng : Engine)
      → get w key ≡ some c
      → (o.compile key raw plane).1 ≡ some eng
      → Move o w (record w {
        engines = update w.engines w.next_engine eng;
        next_engine = w.next_engine + 1;
        cells =
            update w.cells c (record (w.cells c) {
              engine = some w.next_engine;
              current_hash = some (o.hash raw);
            });
        metrics = set_version key eng.version (count_reload key true w.metrics);
      })
  rejects : (key : Str) → Move o w (record w { metrics = count_reload key false w.metrics })
  cancels : (e : ℕ) → Move o w (modify_engine w e cancel_engine)
  schedules :
      (queue draining : List DrainTask) (awaits : List Await) (now : ℕ)
      → Move o w (record w { queue = queue; draining = draining; awaits = awaits; now = now })

pub data Moves (o : Options) (w : World) : World → Type 0 where
  still : Moves o w w
  moves_on : {u v : World} → Moves o w u → Move o u v → Moves o w v

module _ (o : Options) where
  pub once : (w : World) {u : World} → Move o w u → Moves o w u
  once w m = moves_on still m

  pub both : {w u v : World} → Moves o w u → Moves o u v → Moves o w v
  both a still = a
  both a (moves_on b m) = moves_on (both a b) m

  pub store :
      (w : World) (c : ℕ) (y : Cell)
      → CellMove (w.cells c) y
      → Moves o w (record w { cells = update w.cells c y })
  store w c y m = once w (rewrites c y (then_moves at_rest m))

  -- A predicate that every elementary change keeps is kept by any number of them.
  pub Moves-keep {ℓ} :
      (P : World → Type ℓ)
      → ((w u : World) → Move o w u → P w → P u)
      → {w u : World} → Moves o w u
      → P w
      → P u
  Moves-keep P f still p = p
  Moves-keep P f (moves_on a m) p = f _ _ m (Moves-keep P f a p)

-- A property of the object at a place of the heap, after a store to a place of it.
pub update-keep {ℓ κ} :
    {A : Type ℓ} (P : A → Type κ) (f : ℕ → A) (c : ℕ) (y : A) (i : ℕ)
    → (c ≡ i → P y)
    → P (f i)
    → P (update f c y i)
update-keep P f c y i new old = elim (Bool-cases (c == i)) [
  | inl same ↦ rw same (new (ground arith))
  | inr other ↦ rw other old
]
