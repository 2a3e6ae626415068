-- ===== src/Poller/Runs.antt =====
-- pkg/poller/epp_data.go: Handle as events of the cell manager, one for each call that it makes.
use ai_gateway_epp.Cell.Events.{Event, run, step, ensures, drops, configures}
use ai_gateway_epp.Cell.Manager.{Options, ensure}
use ai_gateway_epp.Cell.Model.{World, list}
use ai_gateway_epp.Cell.Role.{Role}
use ai_gateway_epp.Poller.Watcher.{
  ensure_all, drop_if_missing, drop_missing, apply_if_mine, apply_all, handle_data, EppDataConfig,
}
use ai_gateway_epp.Poller.Sync.{ensure_all_next, ensure_all_broken}
use ai_gateway_epp.Poller.Assignment.{resolve_all}
use ai_gateway_epp.Base.{
  Str, lookup, ℕ, ◌≡◌, refl, ◌∙◌, inl, inr, List, [], ◌∷◌, ◌++◌, Option-cases, Bool-cases,
  str_eq_instance,
}

-- A world that events lead to.
pub record RunsTo (o : Options) (w u : World) : Type 0 where
  pub events : List Event
  pub arrives : run o w events ≡ u

module _ (o : Options) where
  pub run-append : (es fs : List Event) (w : World) → run o w (es ++ fs) ≡ run o (run o w es) fs
  unfolding run
  run-append [] fs w = refl
  run-append (e ∷ es) fs w = run-append es fs (step o w e)

  idle_run : (w : World) → RunsTo o w w
  unfolding run
  idle_run w = record { events = []; arrives = refl }

  one_run : (w : World) (e : Event) → RunsTo o w (step o w e)
  unfolding run
  one_run w e = record { events = e ∷ []; arrives = refl }

  join_runs : (w u v : World) → RunsTo o w u → RunsTo o u v → RunsTo o w v
  join_runs w u v a b = record {
    events = a.events ++ b.events;
    arrives = run-append a.events b.events w ∙ (rw a.arrives b.arrives);
  }

  ensure_all-RunsTo : (m : List (Str × Role)) (w : World) → RunsTo o w (ensure_all o w m).0
  unfolding step
  ensure_all-RunsTo [] w = unfold ensure_all in idle_run w
  ensure_all-RunsTo ((k, r) ∷ m) w = elim (Option-cases (ensure o w k r).1) [
    | inl broken ↦ rw (ensure_all_broken o w k r m broken) (one_run w (ensures k r))
    | inr (c, made) ↦
        rw (ensure_all_next o w k r m c made)
          (join_runs w _ _ (one_run w (ensures k r)) (ensure_all-RunsTo m _))
  ]

  drop_missing-RunsTo :
      (mine : List (Str × Role)) (cs : List ℕ) (w : World) → RunsTo o w (drop_missing mine cs w)
  unfolding drop_missing drop_if_missing step
  drop_missing-RunsTo mine [] w = idle_run w
  drop_missing-RunsTo mine (c ∷ cs) w = elim (Option-cases (lookup (w.cells c).key mine)) [
    | inl gone ↦
        rw (gone, drop_missing, drop_if_missing)
          (join_runs w _ _ (one_run w (drops (w.cells c).key)) (drop_missing-RunsTo mine cs _))
    | inr (r, kept) ↦ rw (kept, drop_missing, drop_if_missing) (drop_missing-RunsTo mine cs w)
  ]

  apply_all-RunsTo :
      (mine : List (Str × Role)) (cs : List (Str × Str)) (w : World)
      → RunsTo o w (apply_all o mine cs w)
  unfolding apply_all apply_if_mine step
  apply_all-RunsTo mine [] w = idle_run w
  apply_all-RunsTo mine ((key, raw) ∷ cs) w = elim (Option-cases (lookup key mine)) [
    | inl out ↦ rw (out, apply_all, apply_if_mine) (apply_all-RunsTo mine cs w)
    | inr (r, held) ↦
        rw (held, apply_all, apply_if_mine)
          (join_runs w _ _ (one_run w (configures key raw)) (apply_all-RunsTo mine cs _))
  ]

  pub handle_data-RunsTo :
      (self : Str) (w : World) (cfg : EppDataConfig) → RunsTo o w (handle_data o self w cfg).0
  unfolding handle_data
  handle_data-RunsTo self w cfg =
      let mine = resolve_all self cfg.assignment [] in
      let e = ensure_all-RunsTo mine w in
      let u = (ensure_all o w mine).0 in
      elim (Bool-cases (ensure_all o w mine).1) [
        | inr broken ↦ rw (broken, handle_data) e
        | inl through ↦
            rw (through, handle_data)
              (join_runs w _ _ e (
                join_runs _ _ _ (drop_missing-RunsTo mine (list u) u)
                  (apply_all-RunsTo mine cfg.epp_config _)))
      ]
