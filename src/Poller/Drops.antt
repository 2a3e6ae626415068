-- ===== src/Poller/Drops.antt =====
-- pkg/poller/epp_data.go: the loop over Drop in Handle.
use ai_gateway_epp.Cell.Role.{Role, state_draining}
use ai_gateway_epp.Cell.Model.{World, get}
use ai_gateway_epp.Cell.Manager.{drop}
use ai_gateway_epp.Cell.Invariant.{Inv}
use ai_gateway_epp.Cell.Roles.{drop-Inv}
use ai_gateway_epp.Poller.Watcher.{drop_missing, drop_if_missing}
use ai_gateway_epp.Poller.Effects.{drop-other, drop-draining, drop-marks, IsPlaced, drop-get}
use ai_gateway_epp.Base.{
  Str, lookup, ℕ, ◌≡◌, ◌≢◌, ◌⊎◌, inl, inr, none, some, List, [], ◌∷◌, arith, Option-cases,
  str_eq_instance,
}

abbrev pub Member : ℕ → List ℕ → Type 0
Member c [] = ⊥
Member c (d ∷ ds) = (c ≡ d) ⊎ Member c ds

module _ (mine : List (Str × Role)) where
  drop_if_missing-Inv : (w : World) (c : ℕ) → Inv w → Inv (drop_if_missing mine w c)
  unfolding drop_if_missing
  drop_if_missing-Inv w c v = elim (Option-cases (lookup (w.cells c).key mine)) [
    | inl gone ↦ rw (gone, drop_if_missing) (drop-Inv w v (w.cells c).key)
    | inr (r, kept) ↦ rw (kept, drop_if_missing) v
  ]

  drop_if_missing-IsPlaced :
      (w : World) (c : ℕ) (k : Str) (role : Role)
      → Inv w
      → lookup k mine ≡ some role
      → IsPlaced w k role
      → IsPlaced (drop_if_missing mine w c) k role
  unfolding drop_if_missing
  drop_if_missing-IsPlaced w c k role v h (d, found, placed) =
      elim (Option-cases (lookup (w.cells c).key mine)) [
        | inl gone ↦
            let other : k ≢ (w.cells c).key = λ e. cc in
            let e = drop-other w (w.cells c).key v k d other found in
            rw (gone, drop_if_missing) (d, e.0, rw e.1 placed)
        | inr (r, kept) ↦ rw (kept, drop_if_missing) (d, found, placed)
      ]

  -- A registered cell that no longer has a role is draining, or the loop has yet to come to it.
  abbrev pub Pending : List ℕ → World → Type 0
  Pending cs w =
      (k : Str) (c : ℕ)
      → lookup k mine ≡ none
      → get w k ≡ some c
      → ((w.cells c).state ≡ state_draining) ⊎ Member c cs

  drop-Pending :
      (w : World) (c : ℕ) (cs : List ℕ)
      → Inv w
      → Pending (c ∷ cs) w
      → Pending cs (drop w (w.cells c).key)
  unfolding get
  drop-Pending w c cs v h k d out held =
      let found = drop-get w (w.cells c).key v k d held in
      let r = v.registered k d found in
      ground (
        arith,
        h k d out found,
        drop-draining w (w.cells c).key v d,
        drop-marks w (w.cells c).key v d,
      )

  drop_if_missing-Pending :
      (w : World) (c : ℕ) (cs : List ℕ)
      → Inv w
      → Pending (c ∷ cs) w
      → Pending cs (drop_if_missing mine w c)
  unfolding drop_if_missing get
  drop_if_missing-Pending w c cs v h = elim (Option-cases (lookup (w.cells c).key mine)) [
    | inl gone ↦ rw (gone, drop_if_missing) (drop-Pending w c cs v h)
    | inr (r, kept) ↦
        rw (kept, drop_if_missing)
          (λ k d out held. ground (arith, h k d out held, v.registered k d held))
  ]

  pub drop_missing-Inv : (cs : List ℕ) (w : World) → Inv w → Inv (drop_missing mine cs w)
  unfolding drop_missing
  drop_missing-Inv [] w v = v
  drop_missing-Inv (c ∷ cs) w v = drop_missing-Inv cs _ (drop_if_missing-Inv w c v)

  pub drop_missing-IsPlaced :
      (cs : List ℕ) (w : World) (k : Str) (role : Role)
      → Inv w
      → lookup k mine ≡ some role
      → IsPlaced w k role
      → IsPlaced (drop_missing mine cs w) k role
  unfolding drop_missing
  drop_missing-IsPlaced [] w k role v h p = p
  drop_missing-IsPlaced (c ∷ cs) w k role v h p =
      drop_missing-IsPlaced cs _ k role (drop_if_missing-Inv w c v) h
        (drop_if_missing-IsPlaced w c k role v h p)

  pub drop_missing-Pending :
      (cs : List ℕ) (w : World) → Inv w → Pending cs w → Pending [] (drop_missing mine cs w)
  unfolding drop_missing
  drop_missing-Pending [] w v h = h
  drop_missing-Pending (c ∷ cs) w v h =
      drop_missing-Pending cs _ (drop_if_missing-Inv w c v) (drop_if_missing-Pending w c cs v h)
