-- ===== src/Cell/Raced.antt =====
-- pkg/cell/manager.go: what every schedule of racing calls of Ensure ends in.
use ai_gateway_epp.Cell.Race.{
  race_step, holds, make, Race, gives_up, makes, advance, after_look, misses, looks, Phase, race,
}
use ai_gateway_epp.Cell.Model.{update, get, modify_cell, World}
use ai_gateway_epp.Cell.Racing.{
  Orderly, moved-Orderly, lost-Orderly, won-Orderly, allocated-Orderly,
}
use ai_gateway_epp.Cell.Manager.{load_or_store, Options, close_cell, allocate_cell}
use ai_gateway_epp.Base.{
  Str, ℕ, ◌≡◌, refl, ◌≢◌, inl, inr, some, Option-cases, insert, ◌∙◌, arith, str_eq_instance, ◌≤◌,
  ◌<◌, ◌⊎◌, true, false, List, [], ◌∷◌,
}
use ai_gateway_epp.Cell.Invariant.{Inv}
use ai_gateway_epp.Cell.Reachable.{run_init-Inv, init}
use ai_gateway_epp.Cell.Events.{run, Event}

module _ (o : Options) (n : ℕ) where
  race_step-Orderly : (r : Race) (i : ℕ) → Orderly n r → Orderly n (race_step o r i)
  unfolding race_step advance after_look make load_or_store get
  race_step-Orderly r i h = go (r.phases i) refl
    where
      quiet :
          (p : Phase)
          → race_step o r i ≡ record { world = r.world; phases = update r.phases i p }
          → ((k : Str) (c : ℕ) → p ≡ holds k c → get r.world k ≡ some c)
          → ((k : Str) (c : ℕ) → p ≢ makes k c)
          → ((k : Str) (c : ℕ) → r.phases i ≢ makes k c)
          → Orderly n (race_step o r i)
      quiet p e new tame old = rw e (moved-Orderly o n r h i p new tame old)

      go : (p : Phase) → r.phases i ≡ p → Orderly n (race_step o r i)
      go (looks key) at = elim (Option-cases (get r.world key)) [
        | inl missing ↦
            quiet (misses key) (ground (arith, at, missing)) (λ k c e. ground (arith, e))
              (λ k c e. ground (arith, e)) (λ k c e. ground (arith, e, at))
        | inr (c, found) ↦
            quiet (holds key c) (ground (arith, at, found)) (λ k d e. ground (arith, e, found))
              (λ k d e. ground (arith, e)) (λ k d e. ground (arith, e, at))
      ]
      go (misses key) at = elim (Option-cases (o.new_cell key)) [
        | inl refused ↦
            quiet gives_up (ground (arith, at, refused)) (λ k c e. ground (arith, e))
              (λ k c e. ground (arith, e)) (λ k c e. ground (arith, e, at))
        | inr (plane, built) ↦
            let e : race_step o r i ≡ record {
              world = allocate_cell r.world key plane;
              phases = update r.phases i (makes key r.world.next_cell);
            } =
              ground (arith, at, built) in
            rw e (allocated-Orderly o n r h i key plane at)
      ]
      go (makes key c) at = elim (Option-cases (get r.world key)) [
        | inl missing ↦
            let e : race_step o r i ≡ record {
              world = record r.world { registry = insert key c r.world.registry };
              phases = update r.phases i (holds key c);
            } =
              ground (arith, at, missing) in
            rw e (won-Orderly n r h i key c at missing)
        | inr (d, found) ↦
            let e : race_step o r i ≡ record {
              world = modify_cell r.world c close_cell;
              phases = update r.phases i (holds key d);
            } =
              ground (arith, at, found) in
            rw e (lost-Orderly n r h i key c at d found)
      ]
      go (holds key c) at =
          quiet (holds key c) (ground (arith, at)) (λ k d e. h.held i k d (at ∙ e))
            (λ k d e. ground (arith, e)) (λ k d e. ground (arith, e, at))
      go gives_up at =
          quiet gives_up (ground (arith, at)) (λ k c e. ground (arith, e))
            (λ k c e. ground (arith, e)) (λ k c e. ground (arith, e, at))

race-Orderly :
    (o : Options) (n : ℕ) (is : List ℕ) (r : Race) → Orderly n r → Orderly n (race o r is)
unfolding race
race-Orderly o n [] r h = h
race-Orderly o n (i ∷ is) r h = race-Orderly o n is (race_step o r i) (race_step-Orderly o n r i h)

-- Calls of Ensure that are about to look their keys up.
abbrev pub begin_race : World → (ℕ → Str) → Race
begin_race w keys = record { world = w; phases = λ i. looks (keys i) }

begin_race-Orderly : (w : World) (keys : ℕ → Str) → Inv w → Orderly w.next_cell (begin_race w keys)
unfolding get
begin_race-Orderly w keys v = record {
  placed = v.registered;
  held = λ i k c e. ground (arith, e);
  made = λ i k c e. ground (arith, e);
  own = λ i j k l c a b. ground (arith, a);
  settled = λ c a b. absurd (omega (arith, a, b));
}

module _ (o : Options) (es : List Event) (keys : ℕ → Str) (schedule : List ℕ) where
  raced : Orderly (run o init es).next_cell (race o (begin_race (run o init es) keys) schedule)
  raced = race-Orderly o _ schedule _ (begin_race-Orderly (run o init es) keys (run_init-Inv o es))

  -- Let any number of calls of Ensure run at once on a manager that any events have led to, their
  -- steps in any order. Two calls that have got a cell for the same key have the same one, which
  -- is in the registry under the key and is not closed.
  pub race-agreed :
      (i j : ℕ) (k : Str) (c d : ℕ)
      → (race o (begin_race (run o init es) keys) schedule).phases i ≡ holds k c
      → (race o (begin_race (run o init es) keys) schedule).phases j ≡ holds k d
      → let w = (race o (begin_race (run o init es) keys) schedule).world in
        (c ≡ d) × (get w k ≡ some c) × ((w.cells c).closed ≡ false)
  race-agreed i j k c d a b =
      let mine = raced.held i k c a in
      let other = raced.held j k d b in
      (ground (arith, mine, other), mine, (raced.placed k c mine).is_open)

  -- Let any number of calls of Ensure run at once on a manager that any events have led to, their
  -- steps in any order, until no call is between `newCell` and `LoadOrStore`. Each cell e that was
  -- created meanwhile is in the registry under its key, or its data plane is closed.
  pub race-settled :
      (e : ℕ)
      → ((i : ℕ) (k : Str) (c : ℕ)
          → (race o (begin_race (run o init es) keys) schedule).phases i ≢ makes k c)
      → (run o init es).next_cell ≤ e
      → e < (race o (begin_race (run o init es) keys) schedule).world.next_cell
      → let w = (race o (begin_race (run o init es) keys) schedule).world in
        (get w (w.cells e).key ≡ some e) ⊎ ((w.cells e).closed ≡ true)
  race-settled e over old young = elim (raced.settled e old young) [
    | inl kept ↦ inl kept
    | inr (inl closed) ↦ inr closed
    | inr (inr (i, m)) ↦ absurd (over i _ e m)
  ]
