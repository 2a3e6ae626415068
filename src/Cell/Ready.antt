-- ===== src/Cell/Ready.antt =====
-- pkg/cell: over all events, a cell whose engine is not cancelled is ready, or becomes ready when the
-- channels that the goroutines of `start` wait for are closed.
use ai_gateway_epp.Cell.Readiness.{
  Pending, Same, plain-Pending, Started, swap_engine-engine, swap_engine-Started, later-Pending,
  request_end-Same, promote-Same, worker_take-Same, demote-Same, track-Same, drain_end-Same,
  ensure-Same, drop-Same,
}
use ai_gateway_epp.Cell.Apply.{apply_config, swap_engine, compile_and_swap, same_hash}
use ai_gateway_epp.Cell.Invariant.{Inv}
use ai_gateway_epp.Cell.Role.{state_draining, state_eq}
use ai_gateway_epp.Cell.Model.{modify_cell, World, Plane, get, Metrics, Engine, Await}
use ai_gateway_epp.Cell.Pending.{Has, Released, Has-take_at, PendingBelow, step-PendingBelow}
use ai_gateway_epp.Cell.Manager.{Options, mark_ready}
use ai_gateway_epp.Base.{
  Str, ℕ, ◌≤◌, ◌≡◌, refl, sym, ◌∙◌, inl, inr, some, arith, Bool-cases, Option-cases, ◌==◌, ◌⊎◌,
  List, [], ◌∷◌, take_at, ◌||◌,
}
use ai_gateway_epp.Cell.Events.{
  await_advance, await_ready, Event, step, await_quit, request_ends, channel_ready, configures,
  clock_moves, await_quits, drops, demotes, drain_ends, ensures, worker_takes, promotes, run,
  request_starts,
}
use ai_gateway_epp.Cell.Reachable.{step-Inv}

-- The engine of a cell needs no goroutine, or has one.
abbrev Settled : World → ℕ → ℕ → Type 0
Settled u c e = Released u c e ⊎ Has c e u.awaits

Started-Settled : (u : World) (c e : ℕ) → Started u c e → Settled u c e
Started-Settled u c e (inl r) = inl (inl r)
Started-Settled u c e (inr h) = inr h

-- The goroutines of a world stay, and a new engine has one.
record Kept (w u : World) : Type 0 where
  kept : (d i : ℕ) → Has d i w.awaits → Settled u d i
  new : (d i : ℕ) → w.next_engine ≤ i → (u.cells d).engine ≡ some i → Settled u d i

module _ (o : Options) (w : World) (v : Inv w) where
  same-Kept : (u : World) → u.cells ≡ w.cells → u.awaits ≡ w.awaits → Kept w u
  same-Kept u e a = record {
    kept = λ d i h. inr (rw a h);
    new = λ d i b h. let k = v.engines_known d i (rw e at h) in absurd (omega (arith, k, b));
  }

  planed-Kept :
      (c : ℕ) (p : Plane) (m : Metrics)
      → Kept w (record (modify_cell w c (λ d. record d { plane = p })) { metrics = m })
  planed-Kept c p m = record {
    kept = λ d i h. inr h;
    new = λ d i b h. ground (arith, v.engines_known d i, b, h);
  }

  swap_engine-Kept :
      (c : ℕ) (p : Plane) (m : Metrics) (hash : Str) (eng : Engine)
      → Kept w (
          swap_engine
            (record (modify_cell w c (λ d. record d { plane = p })) { metrics = m })
            c
            hash
            eng)
  swap_engine-Kept c p m hash eng =
      let u : World = record (modify_cell w c (λ d. record d { plane = p })) { metrics = m } in
      let s = swap_engine-Started u c hash eng in
      record {
        kept = λ d i h. inr (s.1 d i h);
        new = λ d i b h.
            let q = sym (swap_engine-engine u c hash eng d) ∙ h in
            elim (Bool-cases (c == d)) [
              | inl same ↦
                  let at_cell : c ≡ d = ground (arith, same) in
                  let at_engine : w.next_engine ≡ i = ground (arith, same, q) in
                  rw (← at_cell, ← at_engine)
                    (Started-Settled (swap_engine u c hash eng) c w.next_engine s.0)
              | inr other ↦ ground (arith, other, q, v.engines_known d i, b)
            ];
      }

  compile_and_swap-Kept : (c : ℕ) (key raw : Str) → Kept w (compile_and_swap o w c key raw).0
  unfolding compile_and_swap
  compile_and_swap-Kept c key raw =
      let (plane, built) = o.compile key raw (w.cells c).plane in
      elim (Option-cases built) [
        | inl refused ↦ rw (refused, compile_and_swap) (planed-Kept c plane _)
        | inr (eng, got) ↦ rw (got, compile_and_swap) (swap_engine-Kept c plane _ (o.hash raw) eng)
      ]

  apply_config-Kept : (key raw : Str) → Kept w (apply_config o w key raw).0
  unfolding apply_config
  apply_config-Kept key raw = elim (Option-cases (get w key)) [
    | inl missing ↦ rw (missing, apply_config) (same-Kept w refl refl)
    | inr (c, found) ↦ elim (Bool-cases (state_eq (w.cells c).state state_draining)) [
      | inl dying ↦ rw (found, apply_config, dying) (same-Kept w refl refl)
      | inr live ↦ elim (Bool-cases (same_hash (w.cells c).current_hash (o.hash raw))) [
        | inl old ↦ rw (found, apply_config, live, old) (same-Kept w refl refl)
        | inr new ↦ rw (found, apply_config, live, new) (compile_and_swap-Kept c key raw)
      ]
    ]
  ]

-- The goroutine that goes on, or ends by marking its cell ready.
module _ (w : World) (a : Await) (d i : ℕ)
    (h : ((a.cell ≡ d) × (a.eng ≡ i)) ⊎ Has d i w.awaits) where
  ends-Has :
      await_advance w a ≡ modify_cell w a.cell (mark_ready w.now) → Started (await_advance w a) d i
  unfolding mark_ready
  ends-Has q = elim h [ inl this ↦ inl (ground (arith, q, this)) | inr later ↦ inr (rw q later) ]

  await_advance-Started : Started (await_advance w a) d i
  unfolding await_advance Has
  await_advance-Started = go a.todo refl
    where
      go : (ds : List ℕ) → a.todo ≡ ds → Started (await_advance w a) d i
      go [] k = ends-Has (ground (arith, k))
      go (x ∷ []) k = ends-Has (ground (arith, k))
      go (x ∷ y ∷ ds) k =
          let q : (await_advance w a).awaits ≡ record a { todo = y ∷ ds } ∷ w.awaits =
            ground (arith, k) in
          inr (rw q h)

await_advance-engine :
    (w : World) (a : Await) (c : ℕ) → ((await_advance w a).cells c).engine ≡ (w.cells c).engine
unfolding await_advance mark_ready
await_advance-engine w a c = go a.todo refl
  where
    go : (ds : List ℕ) → a.todo ≡ ds → ((await_advance w a).cells c).engine ≡ (w.cells c).engine
    go [] k = ground (arith, k)
    go (x ∷ []) k = ground (arith, k)
    go (x ∷ y ∷ ds) k = ground (arith, k)

await_advance-Kept :
    (w : World) (v : Inv w) (n : ℕ) (a : Await) (rest : List Await)
    → take_at n w.awaits ≡ some (a, rest)
    → Kept w (await_advance (record w { awaits = rest }) a)
unfolding await_advance mark_ready
await_advance-Kept w v n a rest found =
    let u : World = record w { awaits = rest } in
    record {
      kept = λ d i h.
          Started-Settled (await_advance u a) d i
            (await_advance-Started u a d i (Has-take_at d i n w.awaits a rest found h));
      new = λ d i b h.
          let k : ((await_advance u a).cells d).engine ≡ (w.cells d).engine =
            await_advance-engine u a d in
          absurd (omega (arith, v.engines_known d i (sym k ∙ h), b));
    }

await_ready-Kept : (o : Options) (w : World) (v : Inv w) (n : ℕ) → Kept w (await_ready w n)
unfolding await_ready
await_ready-Kept o w v n = elim (Option-cases (take_at n w.awaits)) [
  | inl missing ↦ rw (missing, await_ready) (same-Kept o w v w refl refl)
  | inr ((a, rest), found) ↦ rw (found, await_ready) (await_advance-Kept w v n a rest found)
]

await_quit-Kept : (o : Options) (w : World) (v : Inv w) (n : ℕ) → Kept w (await_quit w n)
unfolding await_quit
await_quit-Kept o w v n = elim (Option-cases (take_at n w.awaits)) [
  | inl missing ↦ rw (missing, await_quit) (same-Kept o w v w refl refl)
  | inr ((a, rest), found) ↦
      elim (Bool-cases ((w.engines a.eng).cancelled || (w.cells a.cell).closed)) [
        | inr runs ↦ rw (found, await_quit, runs) (same-Kept o w v w refl refl)
        | inl over ↦
            rw (found, await_quit, over)
              (record {
                kept = λ d i h. elim (Has-take_at d i n w.awaits a rest found h) [
                  | inl this ↦ inl (inr (ground (arith, this, over)))
                  | inr later ↦ inr later
                ];
                new = λ d i b h. absurd (omega (arith, v.engines_known d i h, b));
              })
      ]
]

-- All that the list of goroutines needs to know of an event.
module _ (o : Options) (w : World) (e : Event) (v : Inv w) (p : Pending w) where
  below : PendingBelow w.next_engine w.awaits (step o w e)
  below = step-PendingBelow o w.next_engine w.awaits w e p

  by_Kept : Kept w (step o w e) → Pending (step o w e)
  by_Kept k = later-Pending w (step o w e) below (step-Inv o w e v) k.kept k.new

  by_Same : Same w (step o w e) → Pending (step o w e)
  by_Same = plain-Pending w (step o w e) below (step-Inv o w e v)

step-Pending : (o : Options) (w : World) (e : Event) → Inv w → Pending w → Pending (step o w e)
unfolding step
step-Pending o w (ensures key role) v p =
    by_Same o w (ensures key role) v p (ensure-Same o w key role)
step-Pending o w (promotes key) v p = by_Same o w (promotes key) v p (promote-Same w key)
step-Pending o w (demotes key) v p = by_Same o w (demotes key) v p (demote-Same w key)
step-Pending o w (drops key) v p = by_Same o w (drops key) v p (drop-Same w key)
step-Pending o w (configures key raw) v p =
    by_Kept o w (configures key raw) v p (apply_config-Kept o w v key raw)
step-Pending o w worker_takes v p = by_Same o w worker_takes v p (worker_take-Same o w)
step-Pending o w (drain_ends i t) v p = by_Same o w (drain_ends i t) v p (drain_end-Same w i t)
step-Pending o w (channel_ready i) v p =
    by_Kept o w (channel_ready i) v p (await_ready-Kept o w v i)
step-Pending o w (await_quits i) v p = by_Kept o w (await_quits i) v p (await_quit-Kept o w v i)
step-Pending o w (request_starts c e) v p = by_Same o w (request_starts c e) v p (track-Same w c e)
step-Pending o w (request_ends e) v p = by_Same o w (request_ends e) v p (request_end-Same w e)
step-Pending o w (clock_moves n) v p = by_Same o w (clock_moves n) v p (refl, refl)

pub run-Pending :
    (o : Options) (w : World) (es : List Event) → Inv w → Pending w → Pending (run o w es)
unfolding run
run-Pending o w [] v p = p
run-Pending o w (e ∷ es) v p =
    run-Pending o (step o w e) es (step-Inv o w e v) (step-Pending o w e v p)
