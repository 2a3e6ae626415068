-- ===== src/Poller/Retried.antt =====
-- pkg/poller/poller.go: the loop against a source that has one snapshot. What is not handled is fetched
-- again.
use ai_gateway_epp.Poller.Loop.{Fetched, fetch_error, fetched, Poller}
use ai_gateway_epp.Base.{Str, ℕ, zero, suc, ◌≡◌, ◌≢◌, Bool, true, false, if◌then◌else◌}

-- A source with one snapshot: in a round in which it is down its fetch is an error; else it gives the
-- content to who has another version, and nothing new to who has that of the snapshot.
pub record Serves {ℓ} {T : Type ℓ} (source : ℕ → Str → Fetched T) (down : ℕ → Bool) (v : Str)
    (content : T) : Type ℓ where
  pub fails : (i : ℕ) (u : Str) → down i ≡ true → source i u ≡ fetch_error
  pub gives : (i : ℕ) (u : Str) → down i ≡ false → u ≢ v → source i u ≡ fetched true v content
  pub idles : (i : ℕ) → down i ≡ false → source i v ≡ fetched false v content

module _ {ℓ} {T S : Type ℓ} (interval : ℕ) (handle : S → T → S × Bool)
    (source : ℕ → Str → Fetched T) (down : ℕ → Bool) (v : Str) (content : T)
    (serves : Serves source down v content) where
  -- The content is handled in every round in which the source is not down, until it is handled
  -- without an error; then no more.
  unfoldable pub tries : ℕ → ℕ → S → S × Bool
  tries zero i s = (s, false)
  tries (suc n) i s =
      let again = tries n (suc i) s in
      let (s', good) = handle s content in
      let after = tries n (suc i) s' in if down i then again else if good then (s', true) else after
