-- ===== src/Poller/Backoff.antt =====
-- pkg/poller/helpers.go: the delays of failing rounds.
use ai_gateway_epp.Poller.Loop.{next, second, Backoff, Poller, fetch_error, round, rounds}
use ai_gateway_epp.Base.{
  ℕ, zero, suc, ◌*◌, ◌^◌, ◌<◌, min, ◌≡◌, ◌⊎◌, List, [], ◌∷◌, arith, ◌+◌, Bool, refl, ◌∙◌, true,
}
use native.Mathlib.Nat.{pow-suc}

abbrev pub replicate {ℓ} : {A : Type ℓ} → ℕ → A → List A
replicate zero a = []
replicate (suc n) a = a ∷ replicate n a

-- A backoff after `k + 1` failures in a row.
abbrev After : ℕ → Backoff → Type 0
After k b = (b.current ≡ min (second * 2 ^ k) (30 * second)) × ((b.max ≡ 0) ⊎ (b.max ≡ 30 * second))

pow_pos : (k : ℕ) → 0 < 2 ^ k
pow_pos zero = omega arith
pow_pos (suc k) = omega (arith, pow_pos k, pow-suc 2 k)

next-After :
    (k : ℕ) (b : Backoff) → After k b → After (suc k) (next b).0 × ((next b).1 ≡ (next b).0.current)
unfolding next
next-After k b (now, ceiling) = let e = pow-suc 2 k in let p = pow_pos k in ground arith

module _ {ℓ} {T S : Type ℓ} (interval : ℕ) (handle : S → T → S × Bool) where
  abbrev pub failing : Poller × S → ℕ → Poller × S
  failing p n = rounds interval handle p (replicate n fetch_error)

  failing-After :
      (n k j : ℕ) (p : Poller) (s : S)
      → k + n ≡ j
      → After k p.backoff
      → p.delay ≡ p.backoff.current
      → p.backoff_state ≡ true
      → let (q, s') = failing (p, s) n in
        After j q.backoff
        × (q.delay ≡ q.backoff.current)
        × (q.version ≡ p.version)
        × (q.failures ≡ p.failures + n)
        × (q.first_sync_closes ≡ p.first_sync_closes)
        × (q.once_done ≡ p.once_done)
        × (q.backoff_state ≡ true)
        × (s' ≡ s)
  unfolding rounds
  failing-After zero k j p s e h d b =
      let same : k ≡ j = omega arith in (rw (← same) h, d, refl, omega arith, refl, refl, b, refl)
  failing-After (suc n) k j p s e h d b =
      let step = next-After k p.backoff h in
      let later =
        failing-After n (suc k) j (round interval handle (p, s) fetch_error).0 s (omega arith)
          step.0 step.1 refl in
      (later.0, later.1, later.2, omega (arith, later.3), later.4, later.5, later.6, later.7)

  next-fresh :
      (b : Backoff)
      → b.current ≡ 0
      → (b.max ≡ 0) ⊎ (b.max ≡ 30 * second)
      → After 0 (next b).0 × ((next b).1 ≡ (next b).0.current)
  unfolding next
  next-fresh b fresh ceiling = ground arith

  -- The fetch that fails for the n + 1st time in a row, after a round that did not, is tried again
  -- after 2 ^ n seconds, and after 30 seconds at most. Such rounds count as failures and set the
  -- gauge of the back-off; the version, the consumers' state, the number of closes of FirstSync and
  -- its `once` stay.
  pub failing_delay :
      (p : Poller) (s : S) (n : ℕ)
      → p.backoff.current ≡ 0
      → (p.backoff.max ≡ 0) ⊎ (p.backoff.max ≡ 30 * second)
      → let (q, s') = failing (p, s) (suc n) in
        (q.delay ≡ min (second * 2 ^ n) (30 * second))
        × (q.version ≡ p.version)
        × (q.failures ≡ p.failures + suc n)
        × (q.first_sync_closes ≡ p.first_sync_closes)
        × (q.once_done ≡ p.once_done)
        × (q.backoff_state ≡ true)
        × (s' ≡ s)
  unfolding rounds
  failing_delay p s n fresh ceiling =
      let first = next-fresh p.backoff fresh ceiling in
      let later =
        failing-After n 0 n (round interval handle (p, s) fetch_error).0 s (omega arith) first.0
          first.1 refl in
      (later.1 ∙ later.0.0, later.2, omega (arith, later.3), later.4, later.5, later.6, later.7)
