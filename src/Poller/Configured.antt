-- ===== src/Poller/Configured.antt =====
-- pkg/poller/epp_data.go: the loop over ApplyConfig in Handle, and the configs that the cells have after
-- it.
use ai_gateway_epp.Base.{
  Str, ℕ, ◌≡◌, ◌≢◌, inl, inr, none, some, arith, Option-cases, str_eq_iff, str_eq, lookup, ◌+◌,
  refl, ap, ◌∙◌, Option, List, [], ◌∷◌, Bool-cases, str_eq_instance, true, sym,
}
use ai_gateway_epp.Cell.Manager.{Options}
use ai_gateway_epp.Cell.Model.{World, get, Plane, list}
use ai_gateway_epp.Cell.Invariant.{Inv}
use ai_gateway_epp.Cell.Apply.{apply_config}
use ai_gateway_epp.Cell.Lifecycle.{apply_config_swaps, apply_config_unchanged}
use ai_gateway_epp.Cell.Role.{Role, state_draining}
use ai_gateway_epp.Poller.Watcher.{
  EppDataConfig, handle_data, ensure_all, drop_missing, apply_all, apply_if_mine,
}
use ai_gateway_epp.Poller.Effects.{apply_config-draining, apply_config-get}
use ai_gateway_epp.Poller.Endpoints.{HasDistinctKeys}
use ai_gateway_epp.Cell.Swaps.{apply_config-Inv}
use ai_gateway_epp.Poller.Handled.{after_drops-Reached, resolve_all_lem, assigned_role}
use ai_gateway_epp.Poller.Assignment.{resolve_all}

module _ (o : Options) (w : World) (v : Inv w) (key raw : Str) where
  -- ApplyConfig touches the cell of its key only.
  apply_config-other :
      (k : Str) (c : ℕ)
      → k ≢ key
      → get w k ≡ some c
      → (apply_config o w key raw).0.cells c ≡ w.cells c
  unfolding apply_config get
  apply_config-other k c other found = elim (Option-cases (get w key)) [
    | inl missing ↦ ground arith
    | inr (d, held) ↦ ground (arith, v.registered k c found, v.registered key d held)
  ]

  -- A config that compiles is the one of its cell, unless that is draining.
  apply_config-hash :
      (c : ℕ)
      → ((p : Plane) → (o.compile key raw p).1 ≢ none)
      → get w key ≡ some c
      → (w.cells c).state ≢ state_draining
      → ((apply_config o w key raw).0.cells c).current_hash ≡ some (o.hash raw)
  apply_config-hash c compiles found live = elim (Option-discrete (w.cells c).current_hash) [
    | yes old ↦ rw (apply_config_unchanged o w key raw c found live old) old
    | no new ↦ elim (Option-cases (o.compile key raw (w.cells c).plane).1) [
      | inl refused ↦ absurd (compiles (w.cells c).plane refused)
      | inr (eng, built) ↦
          (apply_config_swaps o w key raw c found live eng (c + 1) (w.next_engine + 1) new built
            (omega arith) (omega arith) (λ h. let b = v.engines_known c _ h in omega (arith, b))).2
    ]
  ]
    where
      Option-discrete : (x : Option Str) → Dec (x ≡ some (o.hash raw))
      Option-discrete none = no (λ e. ground arith)
      Option-discrete (some h) = elim (Bool-cases (str_eq h (o.hash raw))) [
        | inl same ↦ yes (ap some ((str_eq_iff h (o.hash raw)).0 same))
        | inr other ↦ no (λ e. ground (arith, str_eq_iff h (o.hash raw), e, other))
      ]

module _ (o : Options) (mine : List (Str × Role)) where
  apply_if_mine-Inv : (w : World) (key raw : Str) → Inv w → Inv (apply_if_mine o mine w key raw)
  unfolding apply_if_mine
  apply_if_mine-Inv w key raw v = elim (Option-cases (lookup key mine)) [
    | inl other ↦ rw (other, apply_if_mine) v
    | inr (r, found) ↦ rw (found, apply_if_mine) (apply_config-Inv o w v key raw)
  ]

  apply_if_mine-get :
      (w : World) (key raw k : Str) → Inv w → get (apply_if_mine o mine w key raw) k ≡ get w k
  unfolding apply_if_mine
  apply_if_mine-get w key raw k v = elim (Option-cases (lookup key mine)) [
    | inl other ↦ rw (other, apply_if_mine) refl
    | inr (r, found) ↦ rw (found, apply_if_mine) (apply_config-get o w key raw v k)
  ]

  apply_if_mine-other :
      (w : World) (key raw k : Str) (c : ℕ)
      → Inv w
      → k ≢ key
      → get w k ≡ some c
      → (apply_if_mine o mine w key raw).cells c ≡ w.cells c
  unfolding apply_if_mine
  apply_if_mine-other w key raw k c v other found = elim (Option-cases (lookup key mine)) [
    | inl out ↦ rw (out, apply_if_mine) refl
    | inr (r, held) ↦ rw (held, apply_if_mine) (apply_config-other o w v key raw k c other found)
  ]

  apply_if_mine-draining :
      (w : World) (key raw : Str) (c : ℕ)
      → Inv w
      → (w.cells c).state ≡ state_draining
      → ((apply_if_mine o mine w key raw).cells c).state ≡ state_draining
  unfolding apply_if_mine
  apply_if_mine-draining w key raw c v dying = elim (Option-cases (lookup key mine)) [
    | inl out ↦ rw (out, apply_if_mine) dying
    | inr (r, held) ↦ rw (held, apply_if_mine) (apply_config-draining o w key raw v c dying)
  ]

  apply_if_mine-hash :
      (w : World) (key raw : Str) (role : Role) (c : ℕ)
      → Inv w
      → lookup key mine ≡ some role
      → ((p : Plane) → (o.compile key raw p).1 ≢ none)
      → get w key ≡ some c
      → (w.cells c).state ≢ state_draining
      → ((apply_if_mine o mine w key raw).cells c).current_hash ≡ some (o.hash raw)
  unfolding apply_if_mine
  apply_if_mine-hash w key raw role c v held compiles found live =
      rw (held, apply_if_mine) (apply_config-hash o w v key raw c compiles found live)

  -- The loop leaves a cell alone that has no config in the map.
  apply_all-other :
      (cs : List (Str × Str)) (w : World) (k : Str) (c : ℕ)
      → Inv w
      → lookup k cs ≡ none
      → get w k ≡ some c
      → (apply_all o mine cs w).cells c ≡ w.cells c
  unfolding apply_all lookup
  apply_all-other [] w k c v out found = refl
  apply_all-other ((key, raw) ∷ cs) w k c v out found =
      let other : k ≢ key = ground (arith, str_eq_iff key k) in
      apply_all-other cs _ k c (apply_if_mine-Inv w key raw v) (ground (arith, str_eq_iff key k))
        (apply_if_mine-get w key raw k v ∙ found)
      ∙ apply_if_mine-other w key raw k c v other found

  pub apply_all-get :
      (cs : List (Str × Str)) (w : World) (k : Str)
      → Inv w
      → get (apply_all o mine cs w) k ≡ get w k
  unfolding apply_all
  apply_all-get [] w k v = refl
  apply_all-get ((key, raw) ∷ cs) w k v =
      apply_all-get cs _ k (apply_if_mine-Inv w key raw v) ∙ apply_if_mine-get w key raw k v

  -- After the loop a cell that is not draining has the config that the map has for it.
  pub apply_all-hash :
      (cs : List (Str × Str)) (w : World) (k raw : Str) (role : Role) (c : ℕ)
      → Inv w
      → HasDistinctKeys cs
      → lookup k cs ≡ some raw
      → lookup k mine ≡ some role
      → ((p : Plane) → (o.compile k raw p).1 ≢ none)
      → get w k ≡ some c
      → ((apply_all o mine cs w).cells c).state ≢ state_draining
      → ((apply_all o mine cs w).cells c).current_hash ≡ some (o.hash raw)
  unfolding apply_all lookup
  apply_all-hash [] w k raw role c v distinct given held compiles found live = ground arith
  apply_all-hash ((key, raw') ∷ cs) w k raw role c v distinct given held compiles found live =
      elim (Bool-cases (str_eq key k)) [
        | inl this ↦
            let u = apply_if_mine o mine w k raw in
            let i : Inv u = apply_if_mine-Inv w k raw v in
            let e : key ≡ k = (str_eq_iff key k).0 this in
            let f : raw' ≡ raw = ground (arith, this, given) in
            let last : (apply_all o mine cs u).cells c ≡ u.cells c =
              apply_all-other cs u k c i (rw (← e) distinct.0)
                (apply_if_mine-get w k raw k v ∙ found) in
            let alive : ((apply_all o mine cs u).cells c).state ≢ state_draining =
              rw (e, f) at live in
            rw (e, f, last)
              (apply_if_mine-hash w k raw role c v held compiles found
                (λ dying. alive (rw last (apply_if_mine-draining w k raw c v dying))))
        | inr other ↦
            apply_all-hash cs _ k raw role c (apply_if_mine-Inv w key raw' v) distinct.1
              (ground arith) held compiles (apply_if_mine-get w key raw' k v ∙ found) live
      ]

-- A cluster of this instance has the config that the snapshot gives it, once Handle has ended without
-- an error, unless its cell is draining.
pub handle_data-hash :
    (o : Options) (self : Str) (w : World) (cfg : EppDataConfig) (k raw : Str) (role : Role) (c : ℕ)
    → Inv w
    → HasDistinctKeys cfg.assignment
    → HasDistinctKeys cfg.epp_config
    → (handle_data o self w cfg).1 ≡ true
    → assigned_role self cfg.assignment k ≡ some role
    → lookup k cfg.epp_config ≡ some raw
    → ((p : Plane) → (o.compile k raw p).1 ≢ none)
    → get (handle_data o self w cfg).0 k ≡ some c
    → ((handle_data o self w cfg).0.cells c).state ≢ state_draining
    → ((handle_data o self w cfg).0.cells c).current_hash ≡ some (o.hash raw)
unfolding handle_data
handle_data-hash o self w cfg k raw role c v d d' good given config compiles found live =
    let mine = resolve_all self cfg.assignment [] in
    elim (Bool-cases (ensure_all o w mine).1) [
      | inr broken ↦ ground arith
      | inl through ↦
          let u = (ensure_all o w mine).0 in
          let reached = after_drops-Reached o self w cfg v through in
          let at : (handle_data o self w cfg).0
              ≡ apply_all o mine cfg.epp_config (drop_missing mine (list u) u) =
            rw (through, handle_data) refl in
          let held : lookup k mine ≡ some role =
            resolve_all_lem self k cfg.assignment [] d ∙ rw given refl in
          rw at (
            apply_all-hash o mine cfg.epp_config _ k raw role c reached.0 d' config held compiles
              (sym (apply_all-get o mine cfg.epp_config _ k reached.0) ∙ (rw at at found))
              (rw at at live))
    ]
