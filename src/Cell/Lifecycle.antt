-- ===== src/Cell/Lifecycle.antt =====
-- pkg/cell: what ApplyConfig does on each branch, and what becomes of the other cells.
use ai_gateway_epp.Cell.Apply.{
  compile_failed, apply_config, not_assigned, failed, swapped, compile_and_swap, unchanged,
  same_hash, count_reload,
}
use ai_gateway_epp.Cell.Role.{state_draining}
use ai_gateway_epp.Cell.Model.{get, World, Engine, modify_cell}
use ai_gateway_epp.Cell.Manager.{Options}
use ai_gateway_epp.Base.{
  Str, ℕ, ◌≡◌, ◌≢◌, ◌⊎◌, none, some, arith, str_eq_iff, refl, true, false, Option, [], ◌∷◌, ◌++◌,
  sym, ap, ◌∙◌,
}

same_hash_new : (v : Option Str) (h : Str) → v ≢ some h → same_hash v h ≡ false
unfolding same_hash
same_hash_new none h new = refl
same_hash_new (some u) h new = ground (arith, str_eq_iff u h)

same_hash_old : (h : Str) → same_hash (some h) h ≡ true
unfolding same_hash
same_hash_old h = ground (arith, str_eq_iff h h)

module _ (o : Options) (w : World) (key raw : Str) where
  -- A config for a key with no cell, or whose cell is draining, changes nothing and is an error.
  pub apply_config_refused :
      ((get w key ≡ none) ⊎ ((c : ℕ) × (get w key ≡ some c) × ((w.cells c).state ≡ state_draining)))
      → apply_config o w key raw ≡ (w, failed not_assigned)
  unfolding apply_config
  apply_config_refused h = ground arith

  module _ (c : ℕ) (found : get w key ≡ some c) (live : (w.cells c).state ≢ state_draining) where
    pub apply_config_unchanged :
        (w.cells c).current_hash ≡ some (o.hash raw) → apply_config o w key raw ≡ (w, unchanged)
    unfolding apply_config
    apply_config_unchanged old = ground (arith, same_hash_old (o.hash raw))

    pub apply_config_compiles :
        (w.cells c).current_hash ≢ some (o.hash raw)
        → apply_config o w key raw ≡ compile_and_swap o w c key raw
    unfolding apply_config get
    apply_config_compiles new =
        ground (arith, same_hash_new (w.cells c).current_hash (o.hash raw) new)

compile_and_swap_tried :
    (o : Options) (w : World) (c : ℕ) (key raw : Str)
    → (compile_and_swap o w c key raw).1 ≢ unchanged
unfolding compile_and_swap
compile_and_swap_tried o w c key raw h = ground arith

module _ (o : Options) (w : World) (key raw : Str) (c : ℕ) (found : get w key ≡ some c)
    (live : (w.cells c).state ≢ state_draining) where
  abbrev after_failure : World
  after_failure =
      record (modify_cell w c (λ d. record d { plane = (o.compile key raw (w.cells c).plane).0 })) {
        metrics = record w.metrics { reloads = w.metrics.reloads ++ (key, false) ∷ [] };
      }

  apply_config_fails :
      (w.cells c).current_hash ≢ some (o.hash raw)
      → (o.compile key raw (w.cells c).plane).1 ≡ none
      → apply_config o w key raw ≡ (after_failure, failed compile_failed)
  unfolding compile_and_swap count_reload
  apply_config_fails new broken =
      rw (apply_config_compiles o w key raw c found live new) (ground arith)

  -- When the config of a live cell is new and its compile fails, the error is reported. One reload
  -- of the cluster is counted as invalid; the other metrics, the registry, the engines, the drains,
  -- and the goroutines are as before; every cell i is as before but for its data plane, and that
  -- changes in the cell c only. The config is not taken for the cell's: when it comes again, it is
  -- not found unchanged.
  pub apply_config_failure :
      (i : ℕ)
      → (w.cells c).current_hash ≢ some (o.hash raw)
      → (o.compile key raw (w.cells c).plane).1 ≡ none
      → let (w', r) = apply_config o w key raw in
        (r ≡ failed compile_failed)
        × (w'.metrics ≡ record w.metrics { reloads = w.metrics.reloads ++ (key, false) ∷ [] })
        × (w'.registry ≡ w.registry)
        × (w'.engines ≡ w.engines)
        × (w'.next_engine ≡ w.next_engine)
        × (w'.queue ≡ w.queue)
        × (w'.draining ≡ w.draining)
        × (w'.awaits ≡ w.awaits)
        × (w'.cells i ≡ record (w.cells i) { plane = (w'.cells i).plane })
        × ((i ≡ c) ⊎ ((w'.cells i).plane ≡ (w.cells i).plane))
        × ((w'.cells c).plane ≡ (o.compile key raw (w.cells c).plane).0)
        × ((apply_config o w' key raw).1 ≢ unchanged)
  unfolding get
  apply_config_failure i new broken = rw (apply_config_fails new broken) (
    refl,
    refl,
    refl,
    refl,
    refl,
    refl,
    refl,
    refl,
    ground arith,
    ground arith,
    ground arith,
    retried,
  )
    where
      retried : (apply_config o after_failure key raw).1 ≢ unchanged
      retried h = compile_and_swap_tried o after_failure c key raw (
          ap (λ x. x.1)
            (sym (
              apply_config_compiles o after_failure key raw c found (λ d. live (ground (arith, d)))
                (λ d. new (ground (arith, d)))))
          ∙ h)

  -- The result, the new cell and what is left alone, when a new config compiles: the new engine is at the next free place
  -- and the cell runs it under the hash of the config, in its role; every other cell i is as
  -- before; and an engine j that is neither the new nor the replaced one has not changed.
  pub apply_config_swaps :
      (eng : Engine) (i j : ℕ)
      → (w.cells c).current_hash ≢ some (o.hash raw)
      → (o.compile key raw (w.cells c).plane).1 ≡ some eng
      → i ≢ c
      → j ≢ w.next_engine
      → (w.cells c).engine ≢ some j
      → let (w', r) = apply_config o w key raw in
        (r ≡ swapped)
        × ((w'.cells c).engine ≡ some w.next_engine)
        × ((w'.cells c).current_hash ≡ some (o.hash raw))
        × ((w'.cells c).role ≡ (w.cells c).role)
        × (w'.cells i ≡ w.cells i)
        × (w'.engines j ≡ w.engines j)
  unfolding compile_and_swap
  apply_config_swaps eng i j new built other not_new not_old =
      rw (apply_config_compiles o w key raw c found live new)
        (ground arith, ground arith, ground arith, ground arith, ground arith, ground arith)
