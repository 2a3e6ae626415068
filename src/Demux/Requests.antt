-- ===== src/Demux/Requests.antt =====
-- pkg/demux: which requests are served, by which engine, and how the others are refused.
use ai_gateway_epp.Cell.Role.{role_primary}
use ai_gateway_epp.Cell.Model.{Cell, World, get, modify_engine}
use ai_gateway_epp.Demux.Server.{
  answer, with_request_id, request_headers, process, refused, Message, extract_pool, HeaderValue,
  Server, Outcome, choose_pool, serve_chosen, status, internal, answered, returned, panicked,
  unavailable, recovered, Payload, other_payload,
}
use ai_gateway_epp.Base.{
  Str, ℕ, ◌≡◌, ◌≢◌, inr, Option, none, some, List, ◌+◌, arith, refl, codes, [], ◌∷◌, ◌++◌,
  str_eq_instance, ◌≤◌, ◌⊎◌, inl, ◌∙◌, Bool, false, ◌==◌, Bool-cases,
}
use ai_gateway_epp.Cell.Apply.{done}
use ai_gateway_epp.Demux.Pools.{Asks, Asks-choose_pool}

-- The pool that a request is for, and the cell that serves it. A cell serves when its role is
-- primary and it has an engine.
pub data Target : Type 0 where
  no_pool : Target
  not_known : Str → Target
  not_serving : ℕ → Target
  served_by : ℕ → ℕ → Target

unfoldable pub cell_target : Cell → ℕ → Target
cell_target d c = elim d.role [
  | role_primary ↦ elim d.engine [ some e ↦ served_by c e | none ↦ not_serving c ]
  | _ ↦ not_serving c
]

unfoldable pub pool_target : World → Option Str → Target
unfolding cell_target get
pool_target w none = no_pool
pool_target w (some pool) = elim (get w pool) [
  | none ↦ not_known pool
  | some c ↦ cell_target (w.cells c) c
]

-- What becomes of a request with this target, when the engine is still the cell's when it is tracked.
unfoldable pub expected : Server → Message → Target → Outcome
expected s m no_pool = refused (status internal (codes "missing inference-pool metadata"))
expected s m (not_known _) = refused (status internal (codes "unknown inference pool"))
expected s m (not_serving _) =
    refused (status unavailable (codes "cell is not serving (draining or not ready)"))
expected s m (served_by c e) = elim (s.serve e m) [
  | returned r ↦ answered e m r
  | panicked v ↦ recovered e (status internal (codes "internal error: " ++ v))
]

pub expected-answer :
    (s : Server) (m : Message) (c e : ℕ) → expected s m (served_by c e) ≡ answer e m (s.serve e m)
unfolding expected answer
expected-answer s m c e = ground arith

-- The label of demuxErrors for a target that does not serve.
pub reason : Target → Str
reason no_pool = codes "no-pool"
reason (not_known _) = codes "unknown-pool"
reason (not_serving _) = codes "cell-draining"
reason (served_by _ _) = []

holds_engine : Option ℕ → ℕ → Bool
holds_engine none e = false
holds_engine (some d) e = d == e

-- One more error with a label, and nothing else.
abbrev pub one_error : Str → World → World
one_error label w = record w {
  metrics = record w.metrics { demux_errors = w.metrics.demux_errors ++ label ∷ [] };
}

module _ (s : Server) (w : World) (m : Message) (p : Option Str) where
  serve_chosen-expected :
      ((c e : ℕ) → pool_target w p ≡ served_by c e → ((s.between w).cells c).engine ≡ some e)
      → (serve_chosen s w m p).1 ≡ expected s m (pool_target w p)
  unfolding serve_chosen pool_target expected
  serve_chosen-expected stable = by_target (pool_target w p) refl
    where
      by_target : (t : Target) → pool_target w p ≡ t → (serve_chosen s w m p).1 ≡ expected s m t
      by_target no_pool q = ground arith
      by_target (not_known k) q = ground arith
      by_target (not_serving c) q = ground arith
      by_target (served_by c e) q = ground (arith, stable c e q)

  serve_chosen_refused :
      ((c e : ℕ) → pool_target w p ≢ served_by c e)
      → serve_chosen s w m p
        ≡ (one_error (reason (pool_target w p)) w, expected s m (pool_target w p))
  unfolding serve_chosen pool_target expected reason
  serve_chosen_refused unserved = by_target (pool_target w p) refl
    where
      by_target :
          (t : Target)
          → pool_target w p ≡ t
          → serve_chosen s w m p ≡ (one_error (reason t) w, expected s m t)
      by_target no_pool q = ground arith
      by_target (not_known k) q = ground arith
      by_target (not_serving c) q = ground arith
      by_target (served_by c e) q = absurd (unserved c e q)

  serve_chosen_swapped :
      (c e i : ℕ)
      → pool_target w p ≡ served_by c e
      → ((s.between w).cells c).engine ≢ some e
      → let (w', r) = serve_chosen s w m p in
        (r ≡ refused (status unavailable (codes "cell is not serving (draining or not ready)")))
        × ((w'.engines i).wg ≡ ((s.between w).engines i).wg)
        × (w'.metrics ≡ (one_error (codes "cell-draining") (s.between w)).metrics)
  unfolding serve_chosen pool_target
  serve_chosen_swapped c e i t gone = (ground arith, ground arith, ground arith)

  serve_chosen_served :
      (c e : ℕ)
      → pool_target w p ≡ served_by c e
      → ((s.between w).cells c).engine ≡ some e
      → serve_chosen s w m p ≡ (
        done (s.during (modify_engine (s.between w) e (λ g. record g { wg = g.wg + 1 }))) e,
        answer e m (s.serve e m),
      )
  unfolding serve_chosen pool_target
  serve_chosen_served c e t same = ground arith

  serve_chosen_balanced :
      (i : ℕ)
      → ((u : World) → ((s.between u).engines i).wg ≡ (u.engines i).wg)
      → ((u : World) → ((s.during u).engines i).wg ≡ (u.engines i).wg)
      → ((serve_chosen s w m p).0.engines i).wg ≡ (w.engines i).wg
  unfolding done holds_engine
  serve_chosen_balanced i before meanwhile = by_target (pool_target w p) refl
    where
      refused_same :
          ((c e : ℕ) → pool_target w p ≢ served_by c e)
          → ((serve_chosen s w m p).0.engines i).wg ≡ (w.engines i).wg
      refused_same unserved = rw (serve_chosen_refused unserved) refl

      by_target :
          (t : Target)
          → pool_target w p ≡ t
          → ((serve_chosen s w m p).0.engines i).wg ≡ (w.engines i).wg
      by_target no_pool q = refused_same (λ c e h. ground (arith, q, h))
      by_target (not_known k) q = refused_same (λ c e h. ground (arith, q, h))
      by_target (not_serving c) q = refused_same (λ d e h. ground (arith, q, h))
      by_target (served_by c e) q =
          elim (Bool-cases (holds_engine ((s.between w).cells c).engine e)) [
            | inl same ↦
                let counted : World =
                  modify_engine (s.between w) e (λ g. record g { wg = g.wg + 1 }) in
                rw (serve_chosen_served c e q (ground (arith, same)))
                  (ground (arith, meanwhile counted, before w))
            | inr other ↦
                (serve_chosen_swapped c e i q (λ h. ground (arith, other, h))).1 ∙ before w
          ]

module _ (s : Server) (w : World) (m : Message) (hs : Option (List HeaderValue))
    (headers : m.payload ≡ request_headers hs) where
  abbrev pub tagged : Message
  tagged = record m { payload = request_headers (with_request_id s hs) }

  process_chosen :
      process s w (inr m) ≡ serve_chosen s w tagged (choose_pool (extract_pool m) s.default_pool)
  unfolding process
  process_chosen = ground arith

  module _ (p : Option Str) (asks : Asks s m p) where
    process_asked : process s w (inr m) ≡ serve_chosen s w tagged p
    process_asked = rw (← Asks-choose_pool s m p asks) process_chosen

    -- If no other goroutine swaps the engine between its look-up and Track, a request with headers
    -- gets the outcome of the pool that it asks for, by the metadata `inference-pool` of `llm-d.ai`
    -- or else by the default: what the engine of the pool's primary cell returns, or INTERNAL with
    -- its panic; UNAVAILABLE if the cell is no primary or has no engine; INTERNAL for an unknown pool
    -- and for none.
    pub process-expected :
        ((c e : ℕ) → pool_target w p ≡ served_by c e → ((s.between w).cells c).engine ≡ some e)
        → (process s w (inr m)).1 ≡ expected s tagged (pool_target w p)
    process-expected stable = rw process_asked (serve_chosen-expected s w tagged p stable)

    -- A request with headers that no cell serves is refused: with INTERNAL for no pool and for an
    -- unknown one, and with UNAVAILABLE for a cell that is no primary or has no engine. The list of
    -- counted errors gets one more, with the reason no-pool, unknown-pool or cell-draining, and nothing
    -- else of the manager changes.
    pub process_refused :
        ((c e : ℕ) → pool_target w p ≢ served_by c e)
        → process s w (inr m)
          ≡ (one_error (reason (pool_target w p)) w, expected s tagged (pool_target w p))
    process_refused unserved = rw process_asked (serve_chosen_refused s w tagged p unserved)

    -- If another goroutine has swapped the engine before Track, a request that would be served is
    -- refused with UNAVAILABLE, one error is counted for cell-draining, and every engine i has the
    -- count of requests that the other goroutines left it with.
    pub process_swapped :
        (c e i : ℕ)
        → pool_target w p ≡ served_by c e
        → ((s.between w).cells c).engine ≢ some e
        → let (w', r) = process s w (inr m) in
          (r ≡ refused (status unavailable (codes "cell is not serving (draining or not ready)")))
          × ((w'.engines i).wg ≡ ((s.between w).engines i).wg)
          × (w'.metrics ≡ (one_error (codes "cell-draining") (s.between w)).metrics)
    process_swapped c e i t gone = rw process_asked (serve_chosen_swapped s w tagged p c e i t gone)

    -- Let a request be served by the engine e, and in the meantime n more and k fewer of the other
    -- requests in the engine i. While it is served, it is counted in e once, and in no other engine;
    -- when Process returns, the engine i has n more and k fewer requests than at Track, so the count
    -- of the request is taken back. What Process returns is what the engine returned, or for a
    -- panic the error INTERNAL.
    pub process_counted :
        (c e i n k : ℕ)
        → pool_target w p ≡ served_by c e
        → ((s.between w).cells c).engine ≡ some e
        → let counted = modify_engine (s.between w) e (λ g. record g { wg = g.wg + 1 }) in
          ((s.during counted).engines i).wg + k ≡ (counted.engines i).wg + n
          → k ≤ ((s.between w).engines i).wg + n
          → (((process s w (inr m)).0.engines i).wg + k ≡ ((s.between w).engines i).wg + n)
            × ((process s w (inr m)).1 ≡ expected s tagged (served_by c e))
    unfolding done
    process_counted c e i n k t same others few =
        rw
          (process_asked, serve_chosen_served s w tagged p c e t same, expected-answer s tagged c e)
          (ground (arith, others, few), refl)

-- Whatever a stream begins with, a failure, a message of another kind or a request, and whatever
-- becomes of it, Process leaves every engine i with the count of requests that it had, if the other
-- goroutines leave that count alone.
pub process_balanced :
    (s : Server) (w : World) (received : ℕ ⊎ Message) (i : ℕ)
    → ((u : World) → ((s.between u).engines i).wg ≡ (u.engines i).wg)
    → ((u : World) → ((s.during u).engines i).wg ≡ (u.engines i).wg)
    → ((process s w received).0.engines i).wg ≡ (w.engines i).wg
unfolding process
process_balanced s w (inl e) i before meanwhile = refl
process_balanced s w (inr m) i before meanwhile = by_payload m.payload refl
  where
    by_payload :
        (b : Payload) → m.payload ≡ b → ((process s w (inr m)).0.engines i).wg ≡ (w.engines i).wg
    by_payload (other_payload n) q = ground (arith, q)
    by_payload (request_headers hs) q =
        rw (process_chosen s w m hs q) (serve_chosen_balanced s w _ _ i before meanwhile)
