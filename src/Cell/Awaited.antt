-- ===== src/Cell/Awaited.antt =====
-- pkg/cell/manager.go: WaitReady after the channels that the cells wait for.
use ai_gateway_epp.Cell.Eventually.{run-cells_ready, run-closings, closings, channels}
use ai_gateway_epp.Cell.Model.{World, get}
use ai_gateway_epp.Cell.WaitReady.{
  Poll, wait_ready, wait_ready_prompt, HasReady, all_keys_ready-HasReady, PollLaws, Look,
}
use ai_gateway_epp.Cell.Reachable.{init}
use ai_gateway_epp.Cell.Events.{Event, run}
use ai_gateway_epp.Cell.Manager.{Options}
use ai_gateway_epp.Base.{
  Str, lookup, All, All-mono, ℕ, ◌≡◌, refl, ap, ◌∙◌, true, false, some, List, str_eq_instance,
}

-- The manager finds a cell under a key whose engine is not cancelled.
abbrev pub HasEngine : World → Str → Type 0
HasEngine w k =
    (c : ℕ) × (e : ℕ) × (get w k ≡ some c)
    × ((w.cells c).engine ≡ some e)
    × ((w.engines e).cancelled ≡ false)

module _ (o : Options) (es : List Event) where
  abbrev before : World
  before = run o init es

  -- The manager once as many channels are closed as its goroutines of `start` wait for.
  abbrev pub opened : World
  opened = run o (run o init es) (closings (channels (run o init es).awaits))

  opened-HasReady : (k : Str) → HasEngine before k → HasReady opened k
  unfolding get
  opened-HasReady k (c, e, found, had, live) =
      let r = (run-closings o before (channels before.awaits) refl).1.same_registry in
      (c, ap (lookup k) r ∙ found, run-cells_ready o es k c e found had live)

  -- After any events of a new manager in which each of the keys has a cell with an engine that is not
  -- cancelled, let as many channels be closed as the goroutines of `start` wait for. Then WaitReady of
  -- the keys returns nil, if its context is not done when it first looks, provided that the polling
  -- looks at once and returns nil when that look finds all.
  pub run-wait_ready :
      (poll : Poll) (keys : List Str) (seen : ℕ → Look)
      → PollLaws poll
      → All (HasEngine (run o init es)) keys
      → (seen 0).world ≡ opened
      → (seen 0).ctx_done ≡ false
      → wait_ready poll keys seen ≡ true
  run-wait_ready poll keys seen laws had looks_at running =
      let ready = all_keys_ready-HasReady keys opened (All-mono _ _ opened-HasReady keys had) in
      wait_ready_prompt poll keys seen laws running (rw looks_at ready)
