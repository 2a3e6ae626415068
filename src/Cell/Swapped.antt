-- ===== src/Cell/Swapped.antt =====
-- pkg/cell/manager.go: the hot swap of ApplyConfig, with all that it changes.
use ai_gateway_epp.Cell.Apply.{
  apply_config, swapped, compile_and_swap, count_reload, swap_engine, set_version,
}
use ai_gateway_epp.Cell.Role.{state_draining}
use ai_gateway_epp.Cell.Model.{get, World, Engine, modify_cell, Await}
use ai_gateway_epp.Cell.Manager.{
  Options, start, finish_drain, mark_ready, schedule_drain, cancel_engine, drain,
}
use mathlib.Core.List.{append-nil}
use ai_gateway_epp.Base.{
  Str, ℕ, ◌≡◌, ◌≢◌, ◌⊎◌, none, some, arith, refl, true, false, Option, [], ◌∷◌, ◌++◌, ap, length,
  ◌+◌, ◌≤◌, ◌<◌, Bool, ◌||◌, List, inl, inr, Bool-cases, ltb,
}
use ai_gateway_epp.Cell.Invariant.{Inv}
use ai_gateway_epp.Cell.Lifecycle.{apply_config_compiles, apply_config_swaps}

-- What a swap does with the engine that it replaces: its drain is queued, or, when 64 drains wait
-- already, the engine is cancelled at once. Without such an engine nothing is queued.
pub Retires : World → World → ℕ → Option ℕ → Type 0
Retires w u c none = u.queue ≡ w.queue
Retires w u c (some old) =
    ((length w.queue < 64)
      × (u.queue ≡ w.queue ++ record { cell = c; eng = old; teardown = false } ∷ [])
      × (u.engines old ≡ w.engines old))
    ⊎ ((64 ≤ length w.queue)
        × (u.queue ≡ w.queue)
        × ((u.engines old).cancelled ≡ (w.engines old).has_cancel || (w.engines old).cancelled))

-- The goroutine that waits for the channels of a new engine, if it has any.
pub waits_for : ℕ → ℕ → List ℕ → List Await
waits_for c e [] = []
waits_for c e (d ∷ ds) = record { cell = c; eng = e; todo = d ∷ ds } ∷ []

pub is_empty : List ℕ → Bool
is_empty [] = true
is_empty (d ∷ ds) = false

module _ (w : World) (c : ℕ) (hash : Str) (eng : Engine) where
  swap_engine-Retires :
      (old : Option ℕ)
      → (w.cells c).engine ≡ old
      → ((i : ℕ) → old ≡ some i → i < w.next_engine)
      → Retires w (swap_engine w c hash eng) c old
  unfolding swap_engine start schedule_drain drain finish_drain cancel_engine Retires
  swap_engine-Retires none h known = ground (arith, h)
  swap_engine-Retires (some i) h known = elim (Bool-cases (ltb (length w.queue) 64)) [
    | inl room ↦
        inl (ground (arith, room), ground (arith, h, room), ground (arith, h, room, known i refl))
    | inr full ↦
        inr (ground (arith, full), ground (arith, h, full), ground (arith, h, full, known i refl))
  ]

  swap_engine_stored :
      (old : Option ℕ)
      → (w.cells c).engine ≡ old
      → ((i : ℕ) → old ≡ some i → i < w.next_engine)
      → (swap_engine w c hash eng).engines w.next_engine ≡ eng
  unfolding swap_engine start schedule_drain drain finish_drain cancel_engine
  swap_engine_stored none h known = ground (arith, h)
  swap_engine_stored (some i) h known = ground (arith, h, known i refl)

  swap_engine_kept :
      ((swap_engine w c hash eng).next_engine ≡ w.next_engine + 1)
      × ((swap_engine w c hash eng).registry ≡ w.registry)
      × ((swap_engine w c hash eng).metrics ≡ w.metrics)
      × ((swap_engine w c hash eng).draining ≡ w.draining)
  unfolding swap_engine start schedule_drain drain finish_drain cancel_engine
  swap_engine_kept = (ground arith, ground arith, ground arith, ground arith)

  swap_engine_started :
      (ds : List ℕ)
      → eng.discovery ≡ ds
      → ((swap_engine w c hash eng).awaits ≡ w.awaits ++ waits_for c w.next_engine ds)
        × (((swap_engine w c hash eng).cells c).ready ≡ is_empty ds || (w.cells c).ready)
  unfolding swap_engine start schedule_drain drain finish_drain waits_for is_empty mark_ready
  swap_engine_started [] h = (ground (arith, h, append-nil w.awaits), ground (arith, h))
  swap_engine_started (d ∷ ds) h = (ground (arith, h), ground (arith, h))

module _ (o : Options) (w : World) (key raw : Str) (c : ℕ) (found : get w key ≡ some c)
    (live : (w.cells c).state ≢ state_draining) where
  -- The world that the engine is swapped in.
  compiled : Engine → World
  compiled eng =
      record (modify_cell w c (λ d. record d { plane = (o.compile key raw (w.cells c).plane).0 })) {
        metrics = set_version key eng.version (count_reload key true w.metrics);
      }

  compiled-Retires :
      (eng : Engine) (u : World) (old : Option ℕ)
      → Retires (compiled eng) u c old
      → Retires w u c old
  unfolding compiled Retires
  compiled-Retires eng u none r = r
  compiled-Retires eng u (some i) r = r

  apply_config_built :
      (eng : Engine)
      → (w.cells c).current_hash ≢ some (o.hash raw)
      → (o.compile key raw (w.cells c).plane).1 ≡ some eng
      → apply_config o w key raw ≡ (swap_engine (compiled eng) c (o.hash raw) eng, swapped)
  unfolding compile_and_swap compiled
  apply_config_built eng new built =
      rw (apply_config_compiles o w key raw c found live new) (ground (arith, built))

  -- When the config of a live cell is new and compiles, the new engine is stored at the next free
  -- place, and the cell runs it under the hash of the config, in its role. It is started: its
  -- goroutine waits for its channels, or the cell is ready if it has none. The engine that it
  -- replaces is retired: its drain is queued, or, when 64 drains wait already, it is cancelled at
  -- once. One reload is counted as valid. The registry, the drains under way, every other cell i, and
  -- an engine j that is neither the new nor the replaced one, have not changed.
  pub apply_config_success :
      (eng : Engine) (i j : ℕ)
      → Inv w
      → (w.cells c).current_hash ≢ some (o.hash raw)
      → (o.compile key raw (w.cells c).plane).1 ≡ some eng
      → i ≢ c
      → j ≢ w.next_engine
      → (w.cells c).engine ≢ some j
      → let (w', r) = apply_config o w key raw in
        (r ≡ swapped)
        × (w'.engines w.next_engine ≡ eng)
        × (w'.next_engine ≡ w.next_engine + 1)
        × ((w'.cells c).engine ≡ some w.next_engine)
        × ((w'.cells c).current_hash ≡ some (o.hash raw))
        × ((w'.cells c).role ≡ (w.cells c).role)
        × ((w'.cells c).ready ≡ is_empty eng.discovery || (w.cells c).ready)
        × (w'.awaits ≡ w.awaits ++ waits_for c w.next_engine eng.discovery)
        × Retires w w' c (w.cells c).engine
        × (w'.metrics.reloads ≡ w.metrics.reloads ++ (key, true) ∷ [])
        × (w'.registry ≡ w.registry)
        × (w'.draining ≡ w.draining)
        × (w'.cells i ≡ w.cells i)
        × (w'.engines j ≡ w.engines j)
  unfolding compiled count_reload set_version
  apply_config_success eng i j v new built other not_new not_old =
      let u = compiled eng in
      let same : (u.cells c).engine ≡ (w.cells c).engine = ground arith in
      let still_ready : (u.cells c).ready ≡ (w.cells c).ready = ground arith in
      let known = v.engines_known c in
      let k = swap_engine_kept u c (o.hash raw) eng in
      let t = swap_engine_started u c (o.hash raw) eng eng.discovery refl in
      let built_world = apply_config_built eng new built in
      let swaps =
        apply_config_swaps o w key raw c found live eng i j new built other not_new not_old in
      let old = rw built_world at swaps in
      rw built_world (
        refl,
        swap_engine_stored u c (o.hash raw) eng (w.cells c).engine same known,
        k.0,
        old.1,
        old.2,
        old.3,
        rw still_ready at t.1,
        t.0,
        compiled-Retires eng _ _
            (swap_engine-Retires u c (o.hash raw) eng (w.cells c).engine same known),
        ap (λ m. m.reloads) k.2,
        k.1,
        k.3,
        old.4,
        old.5,
      )
