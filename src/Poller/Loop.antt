-- ===== src/Poller/Loop.antt =====
-- pkg/poller/poller.go and helpers.go: the polling loop. Durations are in nanoseconds.
use ai_gateway_epp.Base.{
  Str, ℤ, pos, negsuc, ℕ, zero, suc, ◌+◌, ◌*◌, Bool, true, false, List, [], ◌∷◌, if◌then◌else◌,
  ◌==◌, ltb,
}

abbrev pub second : ℕ
second = 1000000000

-- The fields are private to the package and never negative.
pub record Backoff : Type 0 where
  pub current : ℕ
  pub max : ℕ

unfoldable pub next : Backoff → Backoff × ℕ
next b =
    if b.current == 0
    then (record b { current = second }, second)
    else let doubled = b.current * 2 in
      let ceiling = if b.max == 0 then 30 * second else b.max in
      let delay = if ltb ceiling doubled then ceiling else doubled in
      (record { current = delay; max = ceiling }, delay)

unfoldable pub reset : Backoff → Backoff
reset b = record b { current = 0 }

-- What Source.Fetch returns: an error, or whether there is newer data, its version and the data.
pub data Fetched {ℓ} (T : Type ℓ) : Type ℓ where
  fetch_error : Fetched T
  fetched : Bool → Str → T → Fetched T

-- Poller, with the state of `once`, how often `firstSync` was closed, the counter of failed
-- rounds, whether `backoffState` is 1, and the delay before the next round.
pub record Poller : Type 0 where
  pub version : Str
  pub once_done : Bool
  pub first_sync_closes : ℕ
  pub backoff : Backoff
  pub failures : ℕ
  pub backoff_state : Bool
  pub delay : ℕ

unfoldable pub new_poller : Poller
new_poller = record {
  version = [];
  once_done = false;
  first_sync_closes = 0;
  backoff = record { current = 0; max = 0 };
  failures = 0;
  backoff_state = false;
  delay = 0;
}

-- The interval of the options, which may be missing or negative.
unfoldable pub interval_or_default : ℤ → ℕ
interval_or_default (pos zero) = 5 * second
interval_or_default (pos (suc n)) = suc n
interval_or_default (negsuc n) = 5 * second

unfoldable pub fail : Poller → Poller
fail p = record p { failures = p.failures + 1 }

-- syncOnce.do on the close of `firstSync`.
unfoldable pub sync_once : Poller → Poller
sync_once p =
    if p.once_done
    then p
    else record p { once_done = true; first_sync_closes = p.first_sync_closes + 1 }

module _ {ℓ} {T S : Type ℓ} (interval : ℕ) (handle : S → T → S × Bool) where
  -- A clean end of a round.
  unfoldable pub synced : Poller → Poller
  unfolding sync_once
  synced p = record (sync_once p) { delay = interval }

  -- One round of Start. The handler changes the state of its consumers, and reports success; the
  -- version advances after that only.
  unfoldable pub round : Poller × S → Fetched T → Poller × S
  unfolding next reset fail synced
  round (p, s) fetch_error =
      let (b, delay) = next p.backoff in
      (record (fail p) { backoff = b; delay = delay; backoff_state = true }, s)
  round (p, s) (fetched changed version content) =
      let q : Poller = record p { backoff = reset p.backoff; backoff_state = false } in
      let (s', good) = handle s content in
      if changed
      then (if good
          then (synced (record q { version = version }), s')
          else (record (fail q) { delay = interval }, s'))
      else (synced q, s)

  unfoldable pub rounds : Poller × S → List (Fetched T) → Poller × S
  unfolding round
  rounds p [] = p
  rounds p (f ∷ fs) = rounds (round p f) fs

  -- So many rounds of the loop of Start, each with the fetch that it makes for its version; the source
  -- is given the number of the round too, since its answers may change.
  unfoldable pub polls : (ℕ → Str → Fetched T) → ℕ → ℕ → Poller × S → Poller × S
  unfolding round
  polls source zero i ps = ps
  polls source (suc n) i (p, s) = polls source n (suc i) (round (p, s) (source i p.version))
