-- ===== src/Cell/Inflight.antt =====
-- pkg/cell: the requests in flight, beside the counters of the engines. Track of cell.go hands a request
-- its engine, and the function that it returns ends it.
use ai_gateway_epp.Cell.Moves.{
  installs, Move, schedules, forgets, rewrites, update-keep, creates, cancels, rejects, Moves-keep,
}
use ai_gateway_epp.Cell.Apply.{done, track}
use ai_gateway_epp.Cell.Invariant.{Inv}
use ai_gateway_epp.Cell.Model.{Plane, Engine, World, DrainTask}
use ai_gateway_epp.Cell.Events.{
  step, request_ends, request_starts, request_end, Event, ensures, await_quits, promotes,
  drain_ends, configures, channel_ready, worker_takes, run, drain_end, clock_moves, drops, demotes,
}
use ai_gateway_epp.Cell.Manager.{cancel_engine, Options, finish_drain}
use ai_gateway_epp.Base.{
  Str, ℕ, ◌+◌, ◌-◌, ◌≤◌, ◌≡◌, refl, sym, ◌∙◌, some, List, [], ◌∷◌, arith, ◌==◌, if◌then◌else◌,
  take_at, false,
}
use ai_gateway_epp.Cell.Stepped.{step-Moves, is_request}
use ai_gateway_epp.Cell.Reachable.{init-Inv, step-Inv, init}

unfoldable pub count : ℕ → List ℕ → ℕ
count e [] = 0
count e (d ∷ l) = (if d == e then 1 else 0) + count e l

-- The list without one item.
unfoldable pub remove : ℕ → List ℕ → List ℕ
remove e [] = []
remove e (d ∷ l) = if d == e then l else d ∷ remove e l

pub count-remove :
    (e d : ℕ) (l : List ℕ) → count e (remove d l) ≡ count e l - (if d == e then 1 else 0)
unfolding count remove
count-remove e d [] = ground arith
count-remove e d (f ∷ l) = ground (arith, count-remove e d l)

-- The engines of the requests in flight after one event: a request that Track has accepted is one,
-- until it ends.
unfoldable pub next_flights : World → List ℕ → Event → List ℕ
unfolding remove
next_flights w l (request_starts c e) = if (track w c e).1 then e ∷ l else l
next_flights w l (request_ends e) = remove e l
next_flights w l _ = l

unfoldable pub run_flights : Options → World → List ℕ → List Event → List ℕ
unfolding next_flights
run_flights o w l [] = l
run_flights o w l (e ∷ es) = run_flights o (step o w e) (next_flights w l e) es

-- An engine is idle when Compile returns it.
abbrev pub ReturnsIdle : Options → Type 0
ReturnsIdle o =
    (key raw : Str) (p : Plane) (eng : Engine) → (o.compile key raw p).1 ≡ some eng → eng.wg ≡ 0

-- Each counter is the number of the requests in flight on its engine, and no request is on an engine
-- that does not exist yet.
pub record Accounted (l : List ℕ) (w : World) : Type 0 where
  pub counted : (e : ℕ) → (w.engines e).wg ≡ count e l
  pub existing : (e : ℕ) → w.next_engine ≤ e → count e l ≡ 0

module _ (o : Options) (idle : ReturnsIdle o) (l : List ℕ) where
  same-Accounted :
      (w u : World)
      → u.engines ≡ w.engines
      → u.next_engine ≡ w.next_engine
      → Accounted l w
      → Accounted l u
  same-Accounted w u e n a = record {
    counted = λ i. rw e (a.counted i);
    existing = λ i h. a.existing i (rw⁻¹ n h);
  }

  Move-Accounted : (w u : World) → Move o w u → Accounted l w → Accounted l u
  unfolding cancel_engine
  Move-Accounted w u (rewrites c y m) a = same-Accounted w u refl refl a
  Move-Accounted w u (creates key plane missing) a = same-Accounted w u refl refl a
  Move-Accounted w u (forgets key) a = same-Accounted w u refl refl a
  Move-Accounted w u (rejects key) a = same-Accounted w u refl refl a
  Move-Accounted w u (schedules q d b now) a = same-Accounted w u refl refl a
  Move-Accounted w u (cancels e) a = record {
    counted = λ i. ground (arith, a.counted i);
    existing = a.existing;
  }
  Move-Accounted w u (installs key raw plane c eng found got) a = record {
    counted = λ i.
        update-keep (λ g. g.wg ≡ count i l) w.engines w.next_engine eng i
          (λ e. idle key raw plane eng got ∙ sym (a.existing i (omega (arith, e)))) (a.counted i);
    existing = λ i h. a.existing i (omega (arith, h));
  }

module _ (o : Options) (idle : ReturnsIdle o) (l : List ℕ) (w : World) (v : Inv w)
    (a : Accounted l w) where
  request_starts-Accounted :
      (c e : ℕ) → Accounted (next_flights w l (request_starts c e)) (track w c e).0
  unfolding next_flights track count
  request_starts-Accounted c e = record {
    counted = λ i. ground (arith, a.counted i, a.counted e);
    existing = λ i h. ground (arith, a.existing i, v.engines_known c e);
  }

  request_ends-Accounted : (e : ℕ) → Accounted (remove e l) (request_end w e)
  unfolding request_end done
  request_ends-Accounted e = record {
    counted = λ i. ground (arith, a.counted i, a.counted e, count-remove i e l);
    existing = λ i h. ground (arith, a.existing i, count-remove i e l);
  }

  quiet : (e : Event) → is_request e ≡ false → Accounted l (step o w e)
  quiet e h = Moves-keep o (Accounted l) (Move-Accounted o idle l) (step-Moves o w e h) a

  step-Accounted : (e : Event) → Accounted (next_flights w l e) (step o w e)
  unfolding step next_flights is_request
  step-Accounted (request_starts c e) = request_starts-Accounted c e
  step-Accounted (request_ends e) = request_ends-Accounted e
  step-Accounted (ensures key role) = quiet (ensures key role) refl
  step-Accounted (promotes key) = quiet (promotes key) refl
  step-Accounted (demotes key) = quiet (demotes key) refl
  step-Accounted (drops key) = quiet (drops key) refl
  step-Accounted (configures key raw) = quiet (configures key raw) refl
  step-Accounted worker_takes = quiet worker_takes refl
  step-Accounted (drain_ends i timed_out) = quiet (drain_ends i timed_out) refl
  step-Accounted (channel_ready i) = quiet (channel_ready i) refl
  step-Accounted (await_quits i) = quiet (await_quits i) refl
  step-Accounted (clock_moves n) = quiet (clock_moves n) refl

pub run-Accounted :
    (o : Options)
    → ReturnsIdle o
    → (es : List Event) (l : List ℕ) (w : World) → Inv w
    → Accounted l w
    → Accounted (run_flights o w l es) (run o w es)
unfolding run run_flights
run-Accounted o idle [] l w v a = a
run-Accounted o idle (e ∷ es) l w v a =
    run-Accounted o idle es (next_flights w l e) (step o w e) (step-Inv o w e v)
      (step-Accounted o idle l w v a e)

init-Accounted : Accounted [] init
unfolding count
init-Accounted = record { counted = λ e. refl; existing = λ e h. refl }

-- The end of a wait that is not cut off.
waited :
    (w : World) (n i : ℕ) (t : DrainTask) (rest : List DrainTask)
    → take_at i w.draining ≡ some (t, rest)
    → (w.engines t.eng).wg ≡ n
    → drain_end w i false ≡ (if n == 0 then finish_drain (record w { draining = rest }) t else w)
unfolding drain_end
waited w n i t rest found eq = ground arith

-- When Compile returns idle engines only, then after any events of a new manager the counter of every
-- engine is the number of the requests in flight on it. So a drain that has waited for its
-- engine, without a timeout, ends just when no request is in flight on that engine; until then it
-- changes nothing.
pub drain_end-run_flights :
    (o : Options)
    → ReturnsIdle o
    → (es : List Event) (i : ℕ) (t : DrainTask) (rest : List DrainTask)
    → take_at i (run o init es).draining ≡ some (t, rest)
    → let w = run o init es in
      let l = run_flights o init [] es in
      ((e : ℕ) → (w.engines e).wg ≡ count e l)
      × (drain_end w i false
          ≡ (if count t.eng l == 0 then finish_drain (record w { draining = rest }) t else w))
drain_end-run_flights o idle es i t rest h =
    let a = run-Accounted o idle es [] init init-Inv init-Accounted in
    (a.counted, waited _ _ i t rest h (a.counted t.eng))
