-- ===== src/Cell/Swaps.antt =====
-- pkg/cell/manager.go: ApplyConfig with its hot swap, and the invariant of the manager.
use ai_gateway_epp.Base.{
  ℕ, ◌+◌, ◌<◌, ◌≡◌, refl, Str, str_eq_instance, false, some, arith, Option-cases, Bool-cases, inl,
  inr,
}
use ai_gateway_epp.Cell.Role.{state_eq, state_draining}
use ai_gateway_epp.Cell.Model.{World, Engine, update, modify_cell, get}
use ai_gateway_epp.Cell.Manager.{Options, start}
use ai_gateway_epp.Cell.Invariant.{Inv, replace-Inv, metrics-Inv}
use ai_gateway_epp.Cell.Updates.{plane-Lawful, rebuild-Inv, start-Inv, schedule_drain-Inv}
use ai_gateway_epp.Cell.Apply.{same_hash, compile_and_swap, apply_config, swap_engine}

module _ (w : World) (v : Inv w) (c : ℕ) (known : c < w.next_cell) where
  pub next_cell-start : (u : World) (e : ℕ) → (start u c e).next_cell ≡ u.next_cell
  unfolding start
  next_cell-start u e = ground arith

  -- The world that swap_engine starts the new engine in.
  pub swapped-Inv :
      (hash : Str) (eng : Engine)
      → Inv (record w {
        engines = update w.engines w.next_engine eng;
        next_engine = w.next_engine + 1;
        cells =
            update w.cells c
              (record (w.cells c) { engine = some w.next_engine; current_hash = some hash });
      })
  swapped-Inv hash eng =
      replace-Inv u c _
        (rebuild-Inv w v _ (w.next_engine + 1) w.queue w.draining w.awaits w.now (omega arith)
          v.queued v.drained)
        (record {
          inv = ground (arith, v.cells_inv c);
          key_kept = refl;
          open_kept = λ h. h;
          draining_kept = λ h. h;
          engine_known = λ e h. ground arith;
        })
    where
      u : World
      u = record w { engines = update w.engines w.next_engine eng; next_engine = w.next_engine + 1 }

  pub swap_engine-Inv : (hash : Str) (eng : Engine) → Inv (swap_engine w c hash eng)
  unfolding swap_engine
  swap_engine-Inv hash eng =
      let s = start-Inv _ (swapped-Inv hash eng) c w.next_engine in
      elim (Option-cases (w.cells c).engine) [
        | inl first ↦ rw (first, swap_engine) s
        | inr (old, had) ↦
            rw (had, swap_engine)
              (schedule_drain-Inv _ s c old false (omega (arith, next_cell-start _ w.next_engine))
                (λ e. cc))
      ]

module _ (o : Options) (w : World) (v : Inv w) where
  pub compile_and_swap-Inv :
      (c : ℕ) (key raw : Str) → c < w.next_cell → Inv (compile_and_swap o w c key raw).0
  unfolding compile_and_swap
  compile_and_swap-Inv c key raw known =
      let (plane, built) = o.compile key raw (w.cells c).plane in
      let u : Inv (modify_cell w c (λ d. record d { plane = plane })) =
        replace-Inv w c _ v
          (plane-Lawful w (w.cells c) (v.cells_inv c) (v.engines_known c) plane) in
      elim (Option-cases built) [
        | inl refused ↦ rw (refused, compile_and_swap) (metrics-Inv _ _ u)
        | inr (eng, got) ↦
            rw (got, compile_and_swap)
              (swap_engine-Inv _ (metrics-Inv _ _ u) c known (o.hash raw) eng)
      ]

  pub apply_config-Inv : (key raw : Str) → Inv (apply_config o w key raw).0
  unfolding apply_config get
  apply_config-Inv key raw = elim (Option-cases (get w key)) [
    | inl missing ↦ rw (missing, apply_config) v
    | inr (c, found) ↦ elim (Bool-cases (state_eq (w.cells c).state state_draining)) [
      | inl dying ↦ rw (found, apply_config, dying) v
      | inr live ↦ elim (Bool-cases (same_hash (w.cells c).current_hash (o.hash raw))) [
        | inl old ↦ rw (found, apply_config, live, old) v
        | inr new ↦
            rw (found, apply_config, live, new)
              (compile_and_swap-Inv c key raw (v.registered key c found).known)
      ]
    ]
  ]
