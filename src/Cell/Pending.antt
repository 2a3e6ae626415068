-- ===== src/Cell/Pending.antt =====
-- pkg/cell/engine.go: the goroutine of `start` that marks a cell ready is not lost: while the engine of
-- a cell is not cancelled, the cell is ready or its goroutine still waits.
use ai_gateway_epp.Cell.Moves.{
  creates, cancels, CellMove, installs, rebuilds, closes, forgets, sets_role, Move, at_rest,
  signals, then_moves, schedules, rewrites, sets_state, rejects, CellMoves,
}
use ai_gateway_epp.Cell.Kept.{step-keep}
use ai_gateway_epp.Cell.Model.{Cell, Await, World}
use ai_gateway_epp.Cell.Events.{step, Event}
use ai_gateway_epp.Cell.Manager.{close_cell, Options, cancel_engine, set_role, set_state}
use ai_gateway_epp.Base.{
  take_at, ℕ, zero, suc, ◌≤◌, ◌<◌, ◌≡◌, refl, ◌∙◌, ◌⊎◌, inl, inr, true, some, List, [], ◌∷◌, ◌++◌,
  arith, Option-cases, Bool-cases, ◌==◌, sym,
}

-- A goroutine of `start` waits for a cell and an engine.
unfoldable pub Has : ℕ → ℕ → List Await → Type 0
Has c e [] = ⊥
Has c e (a ∷ goers) = ((a.cell ≡ c) × (a.eng ≡ e)) ⊎ Has c e goers

pub Has-append : (c e : ℕ) (goers bs : List Await) → Has c e goers → Has c e (goers ++ bs)
unfolding Has
Has-append c e [] bs h = absurd h
Has-append c e (a ∷ goers) bs (inl this) = inl this
Has-append c e (a ∷ goers) bs (inr later) = inr (Has-append c e goers bs later)

pub Has-last :
    (c e : ℕ) (goers : List Await) (a : Await) → a.cell ≡ c → a.eng ≡ e → Has c e (goers ++ a ∷ [])
unfolding Has
Has-last c e [] a p q = inl (p, q)
Has-last c e (b ∷ goers) a p q = inr (Has-last c e goers a p q)

pub Has-take_at :
    (c e i : ℕ) (goers : List Await) (a : Await) (rest : List Await)
    → take_at i goers ≡ some (a, rest)
    → Has c e goers
    → ((a.cell ≡ c) × (a.eng ≡ e)) ⊎ Has c e rest
unfolding Has take_at
Has-take_at c e i [] a rest h k = ground arith
Has-take_at c e zero (b ∷ goers) a rest h (inl this) =
    inl (ground (arith, h, this), ground (arith, h, this))
Has-take_at c e zero (b ∷ goers) a rest h (inr later) =
    let q : goers ≡ rest = ground (arith, h) in inr (rw (← q) later)
Has-take_at c e (suc i) (b ∷ goers) a rest h k = elim (Option-cases (take_at i goers)) [
  | inl missing ↦ ground arith
  | inr ((d, ds), found) ↦
      let q : b ∷ ds ≡ rest = ground (arith, h, found) in
      let r : d ≡ a = ground (arith, h, found) in
      elim k [
        | inl this ↦ inr (rw (← q) (inl this))
        | inr later ↦ elim (Has-take_at c e i goers d ds found later) [
          | inl mine ↦ inl (rw (← r) mine)
          | inr left ↦ inr (rw (← q) (inr left))
        ]
      ]
]

-- The cell of an engine needs no goroutine any more.
abbrev pub Released : World → ℕ → ℕ → Type 0
Released w c e =
    ((w.cells c).ready ≡ true) ⊎ (((w.engines e).cancelled ≡ true) ⊎ ((w.cells c).closed ≡ true))

-- What holds for the engines below a number, with a list of goroutines.
pub record PendingBelow (n : ℕ) (goers : List Await) (w : World) : Type 0 where
  pub bound : n ≤ w.next_engine
  pub pending : (c e : ℕ) → e < n → (w.cells c).engine ≡ some e → Released w c e ⊎ Has c e goers

-- One cell before and after some stores.
record Matured (x y : Cell) : Type 0 where
  same_engine : y.engine ≡ x.engine
  stays_ready : x.ready ≡ true → y.ready ≡ true
  stays_closed : x.closed ≡ true → y.closed ≡ true

CellMove-Matured : {x y : Cell} → CellMove x y → Matured x y
unfolding set_role set_state close_cell
CellMove-Matured (sets_role r) = record {
  same_engine = refl;
  stays_ready = λ h. h;
  stays_closed = λ h. h;
}
CellMove-Matured (sets_state s) = record {
  same_engine = refl;
  stays_ready = λ h. h;
  stays_closed = λ h. h;
}
CellMove-Matured closes = record {
  same_engine = refl;
  stays_ready = λ h. h;
  stays_closed = λ h. refl;
}
CellMove-Matured (signals now) = record {
  same_engine = refl;
  stays_ready = λ h. refl;
  stays_closed = λ h. h;
}
CellMove-Matured (rebuilds p) = record {
  same_engine = refl;
  stays_ready = λ h. h;
  stays_closed = λ h. h;
}

CellMoves-Matured : {x y : Cell} → CellMoves x y → Matured x y
CellMoves-Matured at_rest = record {
  same_engine = refl;
  stays_ready = λ h. h;
  stays_closed = λ h. h;
}
CellMoves-Matured (then_moves a m) =
    let i = CellMoves-Matured a in
    let j = CellMove-Matured m in
    record {
      same_engine = j.same_engine ∙ i.same_engine;
      stays_ready = λ h. j.stays_ready (i.stays_ready h);
      stays_closed = λ h. j.stays_closed (i.stays_closed h);
    }

module _ (o : Options) (n : ℕ) (goers : List Await) where
  Move-PendingBelow : (w u : World) → Move o w u → PendingBelow n goers w → PendingBelow n goers u
  unfolding set_state cancel_engine
  Move-PendingBelow w u (rewrites c y m) p =
      let k = CellMoves-Matured m in
      record {
        bound = p.bound;
        pending = λ d e b h. elim (Bool-cases (c == d)) [
          | inl same ↦
              let q : c ≡ d = ground (arith, same) in
              let g : y.engine ≡ some e = ground (arith, same, h) in
              elim (p.pending c e b (sym k.same_engine ∙ g)) [
                | inl (inl r) ↦ inl (inl (ground (arith, same, k.stays_ready r)))
                | inl (inr (inl r)) ↦ inl (inr (inl r))
                | inl (inr (inr r)) ↦ inl (inr (inr (ground (arith, same, k.stays_closed r))))
                | inr waits ↦ inr (rw (← q) waits)
              ]
          | inr other ↦ ground (arith, other, p.pending d e b, h)
        ];
      }
  Move-PendingBelow w u (creates key plane missing) p = record {
    bound = p.bound;
    pending = λ c e b h. ground (arith, p.pending c e b, h);
  }
  Move-PendingBelow w u (installs key raw plane c eng found got) p = record {
    bound = omega (arith, p.bound);
    pending = λ d e b h. ground (arith, p.pending d e b, h, b, p.bound);
  }
  Move-PendingBelow w u (forgets key) p = record { bound = p.bound; pending = p.pending }
  Move-PendingBelow w u (rejects key) p = record { bound = p.bound; pending = p.pending }
  Move-PendingBelow w u (schedules q d b now) p = record { bound = p.bound; pending = p.pending }
  Move-PendingBelow w u (cancels e) p = record {
    bound = p.bound;
    pending = λ c i b h. ground (arith, p.pending c i b h);
  }

  pub step-PendingBelow :
      (w : World) (e : Event) → PendingBelow n goers w → PendingBelow n goers (step o w e)
  step-PendingBelow = step-keep o (PendingBelow n goers) Move-PendingBelow (λ w e m p. record {
    bound = p.bound;
    pending = λ c i b h. ground (arith, p.pending c i b h);
  })
