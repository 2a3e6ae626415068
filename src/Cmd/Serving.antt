-- ===== src/Cmd/Serving.antt =====
-- cmd/epp/main.go puts the epp_data watcher, the cell manager and the request demultiplexer together:
-- from a snapshot that the watcher has taken to the engine that a request gets.
use ai_gateway_epp.Base.{
  Str, ℕ, Option, some, inr, ◌≡◌, ◌≢◌, none, lookup, true, List, ◌++◌, str_eq_instance, inl, arith,
  Option-cases, ◌∙◌, sym,
}
use ai_gateway_epp.Cell.Events.{Event, run}
use ai_gateway_epp.Cell.Manager.{Options}
use ai_gateway_epp.Cell.Model.{World, Plane, get}
use ai_gateway_epp.Cell.Reachable.{init, run_init-Inv}
use ai_gateway_epp.Cell.Role.{role_primary, state_draining}
use ai_gateway_epp.Cell.Tagged.{ReturnsHashed, Tagged, run-Tagged}
use ai_gateway_epp.Demux.Requests.{
  tagged, served_by, process-expected, pool_target, cell_target, expected-answer,
}
use ai_gateway_epp.Demux.Server.{
  Server, Message, HeaderValue, process, answer, extract_pool, choose_pool, request_headers,
}
use ai_gateway_epp.Poller.Configured.{handle_data-hash}
use ai_gateway_epp.Poller.Endpoints.{HasDistinctKeys}
use ai_gateway_epp.Poller.Handled.{handle_data_synced, assigned_role, IsSettled}
use ai_gateway_epp.Poller.Runs.{handle_data-RunsTo, run-append}
use ai_gateway_epp.Poller.Watcher.{EppDataConfig, handle_data}
use ai_gateway_epp.Poller.Effects.{IsPlaced}
use ai_gateway_epp.Cell.Invariant.{Inv}
use ai_gateway_epp.Demux.Pools.{choose_pool-Asks, Asks}

primary_target :
    (w : World) (k : Str) (c e : ℕ)
    → get w k ≡ some c
    → (w.cells c).role ≡ role_primary
    → (w.cells c).engine ≡ some e
    → pool_target w (some k) ≡ served_by c e
unfolding pool_target cell_target
primary_target w k c e found role had = ground arith

served_engine :
    (w : World) (k : Str) (c e : ℕ)
    → pool_target w (some k) ≡ served_by c e
    → (w.cells c).engine ≡ some e
unfolding pool_target cell_target
served_engine w k c e t = ground arith

same_target : (c e d i : ℕ) → served_by c e ≡ served_by d i → (c ≡ d) × (e ≡ i)
same_target c e d i h = (ground arith, ground arith)

module _ (o : Options) (es : List Event) (self : Str) (cfg : EppDataConfig) where
  -- The manager after Handle.
  abbrev pub handled : World
  handled = (handle_data o self (run o init es) cfg).0

  handled-Tagged : ReturnsHashed o → Tagged handled
  handled-Tagged hashed =
      let r = handle_data-RunsTo o self (run o init es) cfg in
      rw⁻¹ r.arrives (rw⁻¹ (run-append o es r.events init) (run-Tagged o hashed (es ++ r.events)))

  -- The engine that serves the requests of a cluster.
  module _ (hashed : ReturnsHashed o) (k raw : Str) (c : ℕ)
      (good : (handle_data o self (run o init es) cfg).1 ≡ true)
      (distinct : HasDistinctKeys cfg.assignment) (distinct' : HasDistinctKeys cfg.epp_config)
      (primary : assigned_role self cfg.assignment k ≡ some role_primary)
      (given : lookup k cfg.epp_config ≡ some raw)
      (compiles : (p : Plane) → (o.compile k raw p).1 ≢ none) (found : get handled k ≡ some c)
      (live : (handled.cells c).state ≢ state_draining) where
    has_hash : (handled.cells c).current_hash ≡ some (o.hash raw)
    has_hash =
        handle_data-hash o self (run o init es) cfg k raw role_primary c (run_init-Inv o es)
          distinct distinct' good primary given compiles found live

    synced_parts : Inv handled × IsPlaced handled k role_primary
    unfolding IsSettled
    synced_parts =
        let s = handle_data_synced o self (run o init es) cfg (run_init-Inv o es) k distinct good in
        (s.0, rw primary at s.1)

    has_role : (handled.cells c).role ≡ role_primary
    has_role =
        let (d, held, placed) = synced_parts.1 in
        let same : c ≡ d = ground (arith, held, found) in
        elim placed [ inl right ↦ rw same right | inr dying ↦ absurd (live (rw same dying)) ]

    pub serving_engine :
        (e : ℕ) × (pool_target handled (some k) ≡ served_by c e)
        × ((handled.engines e).version ≡ o.hash raw)
    serving_engine = elim (Option-cases (handled.cells c).engine) [
      | inl idle ↦ let n = (synced_parts.0.cells_inv c).hashed idle in ground (arith, n, has_hash)
      | inr (e, had) ↦
          let t = (handled-Tagged hashed).tagged c e had in
          (e, primary_target handled k c e found has_role had, ground (arith, t, has_hash))
    ]

    -- From any events of a new manager on, let Handle take a snapshot without an error, whose two
    -- maps have distinct keys, which makes this instance the primary of the cluster k and gives k a
    -- config that compiles whatever the data plane is. If the cell of k is not draining then, a
    -- request with headers that is for k, or for no pool while k is the default, is answered by an
    -- engine whose version is the hash of that config, provided that Compile gives engines the
    -- hashes of their configs as versions, and that no other goroutine swaps the engine before
    -- Track.
    pub process-handle_data :
        (s : Server) (m : Message) (hs : Option (List HeaderValue))
        (headers : m.payload ≡ request_headers hs)
        → choose_pool (extract_pool m) s.default_pool ≡ some k
        → ((s.between handled).cells c).engine ≡ (handled.cells c).engine
        → let m' = tagged s handled m hs headers in
          (e : ℕ) × ((handled.engines e).version ≡ o.hash raw)
          × ((process s handled (inr m)).1 ≡ answer e m' (s.serve e m'))
    process-handle_data s m hs headers chosen same =
        let (e, aimed, version) = serving_engine in
        let asks : Asks s m (some k) = rw chosen at (choose_pool-Asks s m) in
        let p = process-expected s handled m hs headers (some k) asks (λ d i t.
          let q = same_target c e d i (sym aimed ∙ t) in
          rw⁻¹ q.0 (rw⁻¹ q.1 (same ∙ served_engine handled k c e aimed))) in
        (e, version, p ∙ (rw aimed (expected-answer s (tagged s handled m hs headers) c e)))
