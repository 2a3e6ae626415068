-- ===== src/Poller/Polled.antt =====
-- pkg/poller: the epp_data loop, from what it fetches to the cells of the manager.
use ai_gateway_epp.Cell.Model.{World}
use ai_gateway_epp.Cell.Manager.{Options}
use ai_gateway_epp.Cell.Invariant.{Inv}
use ai_gateway_epp.Cell.Reachable.{init, init-Inv}
use ai_gateway_epp.Base.{Str, ℕ, ◌≡◌, inl, inr, true, false, List, [], ◌∷◌, arith, Bool-cases}
use ai_gateway_epp.Poller.Watcher.{handle_data, EppDataConfig}
use ai_gateway_epp.Poller.Loop.{
  Poller, Fetched, fetched, sync_once, synced, rounds, round, new_poller, fetch_error,
}
use ai_gateway_epp.Poller.Endpoints.{HasDistinctKeys}
use ai_gateway_epp.Poller.Handled.{IsSettled, handle_data_synced, assigned_role, handle_data-Inv}

module _ (o : Options) (self : Str) (interval : ℕ) where
  abbrev pub data_rounds : Poller × World → List (Fetched EppDataConfig) → Poller × World
  data_rounds = rounds interval (handle_data o self)

  round-Inv :
      (p : Poller) (w : World) (f : Fetched EppDataConfig)
      → Inv w
      → Inv (round interval (handle_data o self) (p, w) f).1
  unfolding round
  round-Inv p w fetch_error v = v
  round-Inv p w (fetched true version cfg) v = elim (Bool-cases (handle_data o self w cfg).1) [
    | inl good ↦ rw good (handle_data-Inv o self w cfg v)
    | inr bad ↦ rw bad (handle_data-Inv o self w cfg v)
  ]
  round-Inv p w (fetched false version cfg) v = v

  rounds-Inv :
      (fs : List (Fetched EppDataConfig)) (p : Poller) (w : World)
      → Inv w
      → Inv (data_rounds (p, w) fs).1
  unfolding rounds
  rounds-Inv [] p w v = v
  rounds-Inv (f ∷ fs) p w v =
      let (q, u) = round interval (handle_data o self) (p, w) f in
      rounds-Inv fs q u (round-Inv p w f v)

  -- A new epp_data loop on a new manager, after any fetches and then one of a new snapshot, whose
  -- clusters differ and which Handle takes without an error: the loop has the version of that
  -- snapshot, its first sync is done, it waits for the interval, the manager's parts agree, and
  -- every cluster k is settled by the snapshot's assignment view.
  pub poll-IsSettled :
      (fs : List (Fetched EppDataConfig)) (version k : Str) (cfg : EppDataConfig)
      → HasDistinctKeys cfg.assignment
      → let (p, w) = data_rounds (new_poller, init) fs in
        (handle_data o self w cfg).1 ≡ true
        → let (q, u) = round interval (handle_data o self) (p, w) (fetched true version cfg) in
          (q.version ≡ version)
          × (q.once_done ≡ true)
          × (q.delay ≡ interval)
          × Inv u
          × IsSettled u k (assigned_role self cfg.assignment k)
  unfolding round synced sync_once
  poll-IsSettled fs version k cfg distinct good =
      let (p, w) = data_rounds (new_poller, init) fs in
      let s =
        handle_data_synced o self w cfg (rounds-Inv fs new_poller init init-Inv) k distinct good in
      rw good (ground arith, ground arith, ground arith, s.0, s.1)
