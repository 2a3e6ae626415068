-- ===== src/Cell/Eventually.antt =====
-- pkg/cell: the cells become ready when the channels that their discovery plugins close are closed.
use ai_gateway_epp.Cell.Events.{channel_ready, await_ready, await_advance, step, run, Event}
use ai_gateway_epp.Cell.Model.{Await, World, get}
use ai_gateway_epp.Cell.Readiness.{Pending}
use ai_gateway_epp.Cell.Ready.{run-Pending}
use ai_gateway_epp.Cell.Reachable.{run-Inv, init, run_init-Inv, init-Inv}
use ai_gateway_epp.Cell.Manager.{Options, mark_ready}
use ai_gateway_epp.Base.{
  take_at, length, ℕ, zero, suc, ◌+◌, ◌≡◌, refl, ap, ◌∙◌, inl, inr, true, false, some, List, [],
  ◌∷◌, arith, Str,
}
use ai_gateway_epp.Cell.Pending.{Has}

-- The channels that are left to close for the goroutines of a world.
unfoldable pub channels : List Await → ℕ
channels [] = 0
channels (a ∷ goers) = elim a.todo [ [] ↦ 1 | d ∷ ds ↦ suc (length ds) ] + channels goers

-- The first goroutine's next channel is closed, so many times.
unfoldable pub closings : ℕ → List Event
closings zero = []
closings (suc n) = channel_ready 0 ∷ closings n

-- What a closed channel leaves alone.
pub record Undisturbed (w u : World) : Type 0 where
  pub same_registry : u.registry ≡ w.registry
  engines : u.engines ≡ w.engines
  same_engine : (c : ℕ) → (u.cells c).engine ≡ (w.cells c).engine
  same_closed : (c : ℕ) → (u.cells c).closed ≡ (w.cells c).closed

await_advance-Undisturbed : (w : World) (a : Await) → Undisturbed w (await_advance w a)
unfolding await_advance mark_ready
await_advance-Undisturbed w a = go a.todo refl
  where
    go : (ds : List ℕ) → a.todo ≡ ds → Undisturbed w (await_advance w a)
    go [] k = record {
      same_registry = ground (arith, k);
      engines = ground (arith, k);
      same_engine = λ c. ground (arith, k);
      same_closed = λ c. ground (arith, k);
    }
    go (x ∷ []) k = record {
      same_registry = ground (arith, k);
      engines = ground (arith, k);
      same_engine = λ c. ground (arith, k);
      same_closed = λ c. ground (arith, k);
    }
    go (x ∷ y ∷ ds) k = record {
      same_registry = ground (arith, k);
      engines = ground (arith, k);
      same_engine = λ c. ground (arith, k);
      same_closed = λ c. ground (arith, k);
    }

await_advance-channels :
    (w : World) (a : Await) → channels (await_advance w a).awaits + 1 ≡ channels (a ∷ w.awaits)
unfolding await_advance mark_ready channels
await_advance-channels w a = go a.todo refl
  where
    go :
        (ds : List ℕ)
        → a.todo ≡ ds
        → channels (await_advance w a).awaits + 1 ≡ channels (a ∷ w.awaits)
    go [] k = ground (arith, k)
    go (x ∷ []) k = ground (arith, k)
    go (x ∷ y ∷ ds) k = ground (arith, k)

channels-none : (goers : List Await) → channels goers ≡ 0 → goers ≡ []
unfolding channels
channels-none [] h = refl
channels-none (a ∷ goers) h = go a.todo refl
  where
    go : (ds : List ℕ) → a.todo ≡ ds → a ∷ goers ≡ []
    go [] k = ground (arith, k, h)
    go (x ∷ ds) k = ground (arith, k, h)

first_ready :
    (o : Options) (w : World) (n : ℕ)
    → channels w.awaits ≡ suc n
    → (channels (step o w (channel_ready 0)).awaits ≡ n)
      × Undisturbed w (step o w (channel_ready 0))
unfolding step await_ready take_at channels
first_ready o w n h = go w.awaits refl
  where
    go :
        (goers : List Await)
        → w.awaits ≡ goers
        → (channels (await_ready w 0).awaits ≡ n) × Undisturbed w (await_ready w 0)
    go [] k = absurd (ground (arith, k, h))
    go (a ∷ rest) k =
        let u : World = record w { awaits = rest } in
        let q : take_at 0 w.awaits ≡ some (a, rest) = ground (arith, k) in
        let kept = await_advance-Undisturbed u a in
        rw (q, await_ready)
          (
            omega (arith, await_advance-channels u a, h, ap channels k),
            record {
              same_registry = kept.same_registry;
              engines = kept.engines;
              same_engine = kept.same_engine;
              same_closed = kept.same_closed;
            },
          )

pub run-closings :
    (o : Options) (w : World) (n : ℕ)
    → channels w.awaits ≡ n
    → ((run o w (closings n)).awaits ≡ []) × Undisturbed w (run o w (closings n))
unfolding run closings
run-closings o w zero h = (
  channels-none w.awaits h,
  record { same_registry = refl; engines = refl; same_engine = λ c. refl; same_closed = λ c. refl },
)
run-closings o w (suc n) h =
    let f = first_ready o w n h in
    let r = run-closings o (step o w (channel_ready 0)) n f.0 in
    (
      r.0,
      record {
        same_registry = r.1.same_registry ∙ f.1.same_registry;
        engines = r.1.engines ∙ f.1.engines;
        same_engine = λ c. r.1.same_engine c ∙ f.1.same_engine c;
        same_closed = λ c. r.1.same_closed c ∙ f.1.same_closed c;
      },
    )

Has-nowhere : (c e : ℕ) (goers : List Await) → goers ≡ [] → Has c e goers → ⊥
unfolding Has
Has-nowhere c e [] q h = h
Has-nowhere c e (a ∷ goers) q h = ground (arith, q)

init-Pending : Pending init
init-Pending = record { bound = omega arith; pending = λ c e b h. ground (arith, h) }

-- After any events of a new manager, when as many channels are closed as its goroutines of `start` wait
-- for, a cell that the manager finds under a key and that has an engine is ready, if its engine was not
-- cancelled.
pub run-cells_ready :
    (o : Options) (es : List Event) (key : Str) (c e : ℕ)
    → get (run o init es) key ≡ some c
    → ((run o init es).cells c).engine ≡ some e
    → ((run o init es).engines e).cancelled ≡ false
    → ((run o (run o init es) (closings (channels (run o init es).awaits))).cells c).ready ≡ true
unfolding get
run-cells_ready o es key c e found has live =
    let w = run o init es in
    let v = run_init-Inv o es in
    let n = channels w.awaits in
    let r = run-closings o w n refl in
    let p = run-Pending o w (closings n) v (run-Pending o init es init-Inv init-Pending) in
    let u = run o w (closings n) in
    let h = r.1.same_engine c ∙ has in
    elim (p.pending c e ((run-Inv o w (closings n) v).engines_known c e h) h) [
      | inl (inl ready) ↦ ready
      | inl (inr (inl cancelled)) ↦ ground (arith, cancelled, r.1.engines, live)
      | inl (inr (inr closed)) ↦
          ground (arith, closed, r.1.same_closed c, (v.registered key c found).is_open)
      | inr waits ↦ absurd (Has-nowhere c e u.awaits r.0 waits)
    ]
