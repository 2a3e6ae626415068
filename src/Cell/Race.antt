-- ===== src/Cell/Race.antt =====
-- pkg/cell/manager.go: Ensure called by several goroutines at once, up to the cell that each call gets.
-- `Get`, `newCell` and `LoadOrStore` are one step each, and a schedule says whose step is next.
use ai_gateway_epp.Cell.Model.{update, World, get}
use ai_gateway_epp.Cell.Manager.{load_or_store, find_or_create, allocate_cell, Options}
use ai_gateway_epp.Base.{
  Str, lookup, ℕ, ◌≡◌, inl, inr, Option, none, some, List, [], ◌∷◌, Option-cases, str_eq_instance,
  arith,
}

-- Where a call of Ensure for a key stands.
pub data Phase : Type 0 where
  looks : Str → Phase
  misses : Str → Phase
  -- the new cell is not stored yet
  makes : Str → ℕ → Phase
  holds : Str → ℕ → Phase
  gives_up : Phase

pub record Race : Type 0 where
  pub world : World
  pub phases : ℕ → Phase

unfoldable pub after_look : Str → Option ℕ → Phase
after_look key none = misses key
after_look key (some c) = holds key c

-- `newCell` and `setState` on what it returns.
unfoldable pub make : Options → World → Str → World × Phase
unfolding allocate_cell
make o w key = elim (o.new_cell key) [
  | none ↦ (w, gives_up)
  | some plane ↦ (allocate_cell w key plane, makes key w.next_cell)
]

-- One step of a call.
unfoldable pub advance : Options → World → Phase → World × Phase
unfolding after_look make load_or_store get
advance o w (looks key) = (w, after_look key (get w key))
advance o w (misses key) = make o w key
advance o w (makes key c) = let (w', actual) = load_or_store w key c in (w', holds key actual)
advance o w (holds key c) = (w, holds key c)
advance o w gives_up = (w, gives_up)

unfoldable pub race_step : Options → Race → ℕ → Race
unfolding advance
race_step o r i =
    let (w', p) = advance o r.world (r.phases i) in
    record { world = w'; phases = update r.phases i p }

unfoldable pub race : Options → Race → List ℕ → Race
unfolding race_step
race o r [] = r
race o r (i ∷ is) = race o (race_step o r i) is

-- The three steps of a call that is not disturbed.
abbrev undisturbed : Options → World → Str → World × Phase
undisturbed o w key =
    let first = advance o w (looks key) in
    let second = advance o first.0 first.1 in advance o second.0 second.1

found_phase : World → Str → Option (World × ℕ) → World × Phase
found_phase w key none = (w, gives_up)
found_phase w key (some (w', c)) = (w', holds key c)

-- They do what find_or_create does.
undisturbed-find_or_create :
    (o : Options) (w : World) (key : Str)
    → undisturbed o w key ≡ found_phase w key (find_or_create o w key)
unfolding advance after_look make find_or_create get load_or_store allocate_cell found_phase
undisturbed-find_or_create o w key = elim (Option-cases (lookup key w.registry)) [
  | inr (c, found) ↦ ground arith
  | inl missing ↦ elim (Option-cases (o.new_cell key)) [
    | inl refused ↦ ground arith
    | inr (plane, built) ↦ ground arith
  ]
]
