-- ===== src/Cell/Retired.antt =====
-- pkg/cell: an engine that a hot swap has replaced. Track of cell.go gives it no further request, so
-- its requests in flight can only become fewer.
use ai_gateway_epp.Cell.Inflight.{count-remove, next_flights, count, run_flights}
use ai_gateway_epp.Cell.Moves.{
  update-keep, sets_role, signals, creates, then_moves, schedules, at_rest, rebuilds, CellMoves,
  cancels, CellMove, closes, forgets, sets_state, rewrites, Move, rejects, installs, Moves-keep,
}
use ai_gateway_epp.Cell.Kept.{step-keep, run-keep, set_wg}
use ai_gateway_epp.Cell.Apply.{track, apply_config, swapped}
use ai_gateway_epp.Cell.Model.{Cell, World, update, Engine, get}
use ai_gateway_epp.Cell.Reachable.{init}
use ai_gateway_epp.Cell.Events.{
  Event, await_quits, demotes, clock_moves, step, promotes, configures, worker_takes, ensures,
  request_ends, drain_ends, run, drops, request_starts, channel_ready,
}
use ai_gateway_epp.Cell.Manager.{set_state, Options, set_role, close_cell}
use ai_gateway_epp.Base.{
  ℕ, ◌≤◌, ◌<◌, ◌≡◌, refl, sym, ◌∙◌, ◌≢◌, some, List, [], ◌∷◌, arith, Str, ◌+◌, inl, inr, ◌==◌,
  Bool-cases, ap,
}
use ai_gateway_epp.Cell.Role.{state_draining}
use ai_gateway_epp.Cell.Lifecycle.{apply_config_swaps}
use ai_gateway_epp.Cell.Stepped.{apply_config-Moves}

CellMove-engine : {x y : Cell} → CellMove x y → y.engine ≡ x.engine
unfolding set_role set_state close_cell
CellMove-engine (sets_role r) = refl
CellMove-engine (sets_state s) = refl
CellMove-engine closes = refl
CellMove-engine (signals now) = refl
CellMove-engine (rebuilds p) = refl

pub CellMoves-engine : {x y : Cell} → CellMoves x y → y.engine ≡ x.engine
CellMoves-engine at_rest = refl
CellMoves-engine (then_moves a m) = CellMove-engine m ∙ CellMoves-engine a

-- An engine belongs to one cell.
pub record Owned (w : World) : Type 0 where
  pub older : (c e : ℕ) → (w.cells c).engine ≡ some e → e < w.next_engine
  pub single : (c d e : ℕ) → (w.cells c).engine ≡ some e → (w.cells d).engine ≡ some e → c ≡ d

-- No cell has the engine, nor will one have it again.
pub record Retired (e : ℕ) (w : World) : Type 0 where
  pub known : e < w.next_engine
  pub unused : (c : ℕ) → (w.cells c).engine ≢ some e

same-Owned :
    (w u : World)
    → ((c : ℕ) → (u.cells c).engine ≡ (w.cells c).engine)
    → u.next_engine ≡ w.next_engine
    → Owned w
    → Owned u
same-Owned w u same n a = record {
  older = λ c e h. rw n (a.older c e (sym (same c) ∙ h));
  single = λ c d e h k. a.single c d e (sym (same c) ∙ h) (sym (same d) ∙ k);
}

same-Retired :
    (i : ℕ) (w u : World)
    → ((c : ℕ) → (u.cells c).engine ≡ (w.cells c).engine)
    → u.next_engine ≡ w.next_engine
    → Retired i w
    → Retired i u
same-Retired i w u same n a = record {
  known = rw n a.known;
  unused = λ c h. a.unused c (sym (same c) ∙ h);
}

rewritten-engine :
    (f : ℕ → Cell) (c : ℕ) (y : Cell)
    → y.engine ≡ (f c).engine
    → (i : ℕ) → (update f c y i).engine ≡ (f i).engine
rewritten-engine f c y same i =
    update-keep (λ x. x.engine ≡ (f i).engine) f c y i (λ e. rw⁻¹ e same) refl

module _ (o : Options) where
  Move-Owned : (w u : World) → Move o w u → Owned w → Owned u
  unfolding set_state
  Move-Owned w u (rewrites c y m) a =
      same-Owned w u (rewritten-engine w.cells c y (CellMoves-engine m)) refl a
  Move-Owned w u (creates key plane missing) a = record {
    older = λ c e h. ground (arith, a.older c e);
    single = λ c d e h k. ground (arith, a.single c d e);
  }
  Move-Owned w u (forgets key) a = same-Owned w u (λ c. refl) refl a
  Move-Owned w u (rejects key) a = same-Owned w u (λ c. refl) refl a
  Move-Owned w u (schedules q d b now) a = same-Owned w u (λ c. refl) refl a
  Move-Owned w u (cancels e) a = same-Owned w u (λ c. refl) refl a
  Move-Owned w u (installs key raw plane c eng found got) a = record {
    older = λ i e h. ground (arith, a.older i e);
    single = λ i j e h k. ground (arith, a.single i j e, a.older i e, a.older j e);
  }

  pub run-Owned : (es : List Event) → Owned (run o init es)
  run-Owned es =
      run-keep o Owned Move-Owned (λ u e n a. same-Owned u (set_wg u e n) (λ c. refl) refl a) es
        init
        (record { older = λ c e h. ground (arith, h); single = λ c d e h k. ground (arith, h) })

  Move-Retired : (i : ℕ) (w u : World) → Move o w u → Retired i w → Retired i u
  unfolding set_state
  Move-Retired i w u (rewrites c y m) a =
      same-Retired i w u (rewritten-engine w.cells c y (CellMoves-engine m)) refl a
  Move-Retired i w u (creates key plane missing) a = record {
    known = a.known;
    unused = λ c h. ground (arith, a.unused c);
  }
  Move-Retired i w u (forgets key) a = same-Retired i w u (λ c. refl) refl a
  Move-Retired i w u (rejects key) a = same-Retired i w u (λ c. refl) refl a
  Move-Retired i w u (schedules q d b now) a = same-Retired i w u (λ c. refl) refl a
  Move-Retired i w u (cancels e) a = same-Retired i w u (λ c. refl) refl a
  Move-Retired i w u (installs key raw plane c eng found got) a = record {
    known = omega (arith, a.known);
    unused = λ d h. ground (arith, a.unused d, a.known);
  }

  step-Retired : (i : ℕ) (w : World) (e : Event) → Retired i w → Retired i (step o w e)
  step-Retired i =
      step-keep o (Retired i) (Move-Retired i)
        (λ u e n a. same-Retired i u (set_wg u e n) (λ c. refl) refl a)

Move-grown :
    (o : Options) (n : ℕ) (w u : World) → Move o w u → n ≤ w.next_engine → n ≤ u.next_engine
Move-grown o n w u (installs key raw plane c eng found got) h = omega (arith, h)
Move-grown o n w u (rewrites c y m) h = h
Move-grown o n w u (creates key plane missing) h = h
Move-grown o n w u (forgets key) h = h
Move-grown o n w u (rejects key) h = h
Move-grown o n w u (schedules q d b now) h = h
Move-grown o n w u (cancels e) h = h

next_flights-le :
    (i : ℕ) (w : World) (l : List ℕ) (e : Event)
    → Retired i w
    → count i (next_flights w l e) ≤ count i l
unfolding next_flights track count
next_flights-le i w l (request_starts c e) a = ground (arith, a.unused c)
next_flights-le i w l (request_ends e) a = omega (arith, count-remove i e l)
next_flights-le i w l (ensures key role) a = omega arith
next_flights-le i w l (promotes key) a = omega arith
next_flights-le i w l (demotes key) a = omega arith
next_flights-le i w l (drops key) a = omega arith
next_flights-le i w l (configures key raw) a = omega arith
next_flights-le i w l worker_takes a = omega arith
next_flights-le i w l (drain_ends j timed_out) a = omega arith
next_flights-le i w l (channel_ready j) a = omega arith
next_flights-le i w l (await_quits j) a = omega arith
next_flights-le i w l (clock_moves n) a = omega arith

run_flights-le :
    (o : Options) (i : ℕ) (es : List Event) (w : World) (l : List ℕ)
    → Retired i w
    → count i (run_flights o w l es) ≤ count i l
unfolding run_flights
run_flights-le o i [] w l a = omega arith
run_flights-le o i (e ∷ es) w l a = omega (
  arith,
  next_flights-le i w l e a,
  run_flights-le o i es (step o w e) (next_flights w l e) (step-Retired o i w e a),
)

module _ (o : Options) (w : World) (a : Owned w) (key raw : Str) (c old : ℕ) (eng : Engine)
    (found : get w key ≡ some c) (live : (w.cells c).state ≢ state_draining)
    (had : (w.cells c).engine ≡ some old) (new : (w.cells c).current_hash ≢ some (o.hash raw))
    (built : (o.compile key raw (w.cells c).plane).1 ≡ some eng) where
  fresh : (w.cells c).engine ≢ some (w.next_engine + 1)
  fresh h = absurd (omega (arith, a.older c (w.next_engine + 1) h))

  grown : w.next_engine ≤ (apply_config o w key raw).0.next_engine
  grown =
      Moves-keep o (λ u. w.next_engine ≤ u.next_engine) (Move-grown o w.next_engine)
        (apply_config-Moves o w key raw) (omega arith)

  swapped-Retired : Retired old (apply_config o w key raw).0
  swapped-Retired = record {
    known = omega (arith, grown, a.older c old had);
    unused = λ d h. elim (Bool-cases (c == d)) [
      | inl same ↦
          let s = success (c + 1) (omega arith) in ground (arith, s.1, h, same, a.older c old had)
      | inr other ↦
          let s = success d (ground arith) in
          ground (arith, a.single c d old had (ap (λ x. x.engine) (sym s.2) ∙ h))
    ];
  }
    where
      success :
          (i : ℕ)
          → i ≢ c
          → ((apply_config o w key raw).1 ≡ swapped)
            × (((apply_config o w key raw).0.cells c).engine ≡ some w.next_engine)
            × ((apply_config o w key raw).0.cells i ≡ w.cells i)
      success i other =
          let s =
            apply_config_swaps o w key raw c found live eng i (w.next_engine + 1) new built other
              (omega arith) fresh in
          (s.0, s.1, s.4)

-- Take a live cell of a new manager that has gone through any events, and the requests in flight then.
-- When ApplyConfig compiles a new config for it, the engine that the cell had so far is no longer
-- the engine of any cell, and over any later events the requests in flight on it never become
-- more.
pub apply_config-run_flights :
    (o : Options) (es later : List Event) (key raw : Str) (c old : ℕ) (eng : Engine)
    → get (run o init es) key ≡ some c
    → ((run o init es).cells c).state ≢ state_draining
    → ((run o init es).cells c).engine ≡ some old
    → ((run o init es).cells c).current_hash ≢ some (o.hash raw)
    → (o.compile key raw ((run o init es).cells c).plane).1 ≡ some eng
    → let w' = (apply_config o (run o init es) key raw).0 in
      let l = run_flights o init [] es in
      ((d : ℕ) → (w'.cells d).engine ≢ some old)
      × (count old (run_flights o w' l later) ≤ count old l)
apply_config-run_flights o es later key raw c old eng found live had new built =
    let r =
      swapped-Retired o (run o init es) (run-Owned o es) key raw c old eng found live had new
        built in
    (r.unused, run_flights-le o old later _ _ r)
