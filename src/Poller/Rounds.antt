-- ===== src/Poller/Rounds.antt =====
-- pkg/poller/poller.go: what any number of rounds leaves behind.
use ai_gateway_epp.Poller.Loop.{Fetched, fetch_error, Poller, rounds, fetched, new_poller, round}
use ai_gateway_epp.Base.{
  Str, ℕ, ◌≡◌, refl, Bool, true, false, not, ◌&&◌, ◌||◌, List, [], ◌∷◌, arith, if◌then◌else◌,
}

module _ {ℓ} {T S : Type ℓ} (handle : S → T → S × Bool) where
  -- A round is clean if its fetch succeeds and what is new in it is handled.
  pub clean : S → Fetched T → Bool
  clean s fetch_error = false
  clean s (fetched changed version content) = not changed || (handle s content).1

  -- The consumers' state after a round: only new data reaches them.
  pub consumed : S → Fetched T → S
  consumed s fetch_error = s
  consumed s (fetched changed version content) = if changed then (handle s content).0 else s

  version_after : S → Str → Fetched T → Str
  version_after s v fetch_error = v
  version_after s v (fetched changed version content) =
      if changed && (handle s content).1 then version else v

  -- The version of the last round that brought new data and was clean, or the given one.
  last_version : S → Str → List (Fetched T) → Str
  last_version s v [] = v
  last_version s v (f ∷ fs) = last_version (consumed s f) (version_after s v f) fs

  pub some_clean : S → List (Fetched T) → Bool
  some_clean s [] = false
  some_clean s (f ∷ fs) = clean s f || some_clean (consumed s f) fs

  all_consumed : S → List (Fetched T) → S
  all_consumed s [] = s
  all_consumed s (f ∷ fs) = all_consumed (consumed s f) fs

or_assoc : (a b c : Bool) → ((a || b) || c) ≡ (a || (b || c))
or_assoc true b c = refl
or_assoc false b c = refl

module _ {ℓ} {T S : Type ℓ} (interval : ℕ) (handle : S → T → S × Bool) where
  version-round :
      (p : Poller) (s : S) (f : Fetched T)
      → (round interval handle (p, s) f).0.version ≡ version_after handle s p.version f
  unfolding round version_after
  version-round p s fetch_error = refl
  version-round p s (fetched changed version content) = ground arith

  consumed-round :
      (p : Poller) (s : S) (f : Fetched T)
      → (round interval handle (p, s) f).1 ≡ consumed handle s f
  unfolding round consumed
  consumed-round p s fetch_error = refl
  consumed-round p s (fetched changed version content) = ground arith

  -- The consumers have seen exactly the new data of the rounds, in order, and the version is that of
  -- the last of it that was handled without an error.
  rounds_applied :
      (fs : List (Fetched T)) (p : Poller) (s : S)
      → let (q, s') = rounds interval handle (p, s) fs in
        (q.version ≡ last_version handle s p.version fs) × (s' ≡ all_consumed handle s fs)
  unfolding rounds last_version all_consumed
  rounds_applied [] p s = (refl, refl)
  rounds_applied (f ∷ fs) p s =
      let (q, s') = round interval handle (p, s) f in
      rw (← version-round p s f, ← consumed-round p s f) (rounds_applied fs q s')

  -- `once` and the channel go together.
  abbrev Synced : Bool → Poller → Type 0
  Synced b p = (p.once_done ≡ b) × (p.first_sync_closes ≡ (if b then 1 else 0))

  Synced-round :
      (b : Bool) (p : Poller) (s : S) (f : Fetched T)
      → Synced b p
      → Synced (b || clean handle s f) (round interval handle (p, s) f).0
  unfolding round clean
  Synced-round b p s fetch_error h = ground arith
  Synced-round b p s (fetched changed version content) h = ground arith

  Synced-rounds :
      (fs : List (Fetched T)) (b : Bool) (p : Poller) (s : S)
      → Synced b p
      → Synced (b || some_clean handle s fs) (rounds interval handle (p, s) fs).0
  unfolding rounds some_clean
  Synced-rounds [] b p s h = ground arith
  Synced-rounds (f ∷ fs) b p s h =
      let (q, s') = round interval handle (p, s) f in
      rw (← or_assoc b (clean handle s f), ← consumed-round p s f)
        (Synced-rounds fs (b || clean handle s f) q s' (Synced-round b p s f h))

  -- A new poller closes FirstSync once, in the first clean round, and not without one. A clean round
  -- is one whose fetch succeeds and whose data, if it is new, is handled without an error.
  pub first_sync-rounds :
      (fs : List (Fetched T)) (s : S)
      → (rounds interval handle (new_poller, s) fs).0.first_sync_closes
        ≡ (if some_clean handle s fs then 1 else 0)
  unfolding new_poller
  first_sync-rounds fs s = (Synced-rounds fs false new_poller s (refl, refl)).1
