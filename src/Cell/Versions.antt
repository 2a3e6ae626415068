-- ===== src/Cell/Versions.antt =====
-- pkg/cell/manager.go and metrics.go: the series of the gauge `engine_current_version`.
use ai_gateway_epp.Cell.Apply.{drop_versions, set_version, count_reload}
use ai_gateway_epp.Cell.Model.{Metrics, World, get, Cell, update}
use ai_gateway_epp.Base.{
  Str, str_eq_iff, str_eq, ◌≡◌, List, [], ◌∷◌, arith, if◌then◌else◌, lookup-insert, lookup-delete,
  length, ℕ, ◌≤◌, ◌<◌, sym, ◌∙◌, true, some, str_eq_instance, lookup,
}
use ai_gateway_epp.Cell.Moves.{
  Move, update-keep, creates, forgets, installs, schedules, cancels, rejects, rewrites,
}
use ai_gateway_epp.Cell.Manager.{set_state, Options, cancel_engine}
use ai_gateway_epp.Cell.Retired.{CellMoves-engine}
use ai_gateway_epp.Cell.Gauges.{CellMoves-key}
use ai_gateway_epp.Cell.Kept.{run-keep}
use ai_gateway_epp.Cell.Reachable.{init}
use ai_gateway_epp.Cell.Events.{Event, run}

-- The versions whose series is 1 for a cluster.
unfoldable pub versions_of : Str → List (Str × Str) → List Str
versions_of key [] = []
versions_of key ((k, v) ∷ vs) =
    let rest = versions_of key vs in if str_eq k key then v ∷ rest else rest

versions_of-drop_versions :
    (key j : Str) (vs : List (Str × Str))
    → versions_of j (drop_versions key vs) ≡ (if str_eq key j then [] else versions_of j vs)
unfolding versions_of drop_versions
versions_of-drop_versions key j [] = ground arith
versions_of-drop_versions key j ((k, v) ∷ vs) =
    ground (
      arith,
      str_eq_iff k key,
      str_eq_iff key j,
      str_eq_iff k j,
      versions_of-drop_versions key j vs,
    )

versions_of-set_version :
    (key j v : Str) (m : Metrics)
    → versions_of j (set_version key v m).current_versions
      ≡ (if str_eq key j then v ∷ [] else versions_of j m.current_versions)
unfolding versions_of set_version
versions_of-set_version key j v m =
    ground (arith, versions_of-drop_versions key j m.current_versions)

-- A cluster has one version at most, and it is that of the engine of its cell, if that has one.
pub record Shown (w : World) : Type 0 where
  pub known : (k : Str) (c : ℕ) → get w k ≡ some c → c < w.next_cell
  pub named : (k : Str) (c : ℕ) → get w k ≡ some c → (w.cells c).key ≡ k
  pub older : (c e : ℕ) → (w.cells c).engine ≡ some e → e < w.next_engine
  pub shown :
      (k : Str) (c e : ℕ)
      → get w k ≡ some c
      → (w.cells c).engine ≡ some e
      → versions_of k w.metrics.current_versions ≡ (w.engines e).version ∷ []
  pub one_shown : (k : Str) → length (versions_of k w.metrics.current_versions) ≤ 1

module _ (o : Options) where
  rewritten-Shown :
      (w : World) (c : ℕ) (y : Cell)
      → y.key ≡ (w.cells c).key
      → y.engine ≡ (w.cells c).engine
      → Shown w
      → Shown (record w { cells = update w.cells c y })
  unfolding get
  rewritten-Shown w c y k e s = record {
    known = s.known;
    named = λ j i h.
        update-keep (λ x. x.key ≡ j) w.cells c y i (λ q. k ∙ s.named j c (rw q h)) (s.named j i h);
    older = λ i d.
        update-keep (λ x. x.engine ≡ some d → d < w.next_engine) w.cells c y i
          (λ q h. s.older c d (sym e ∙ h)) (s.older i d);
    shown = λ j i d h.
        update-keep
          (λ x.
            x.engine ≡ some d
            → versions_of j w.metrics.current_versions ≡ (w.engines d).version ∷ [])
          w.cells c y i (λ q g. s.shown j c d (rw q h) (sym e ∙ g)) (s.shown j i d h);
    one_shown = s.one_shown;
  }

  Move-Shown : (w u : World) → Move o w u → Shown w → Shown u
  unfolding get set_state count_reload cancel_engine
  Move-Shown w u (rewrites c y m) s = rewritten-Shown w c y (CellMoves-key m) (CellMoves-engine m) s
  Move-Shown w u (creates key plane missing) s = record {
    known = λ k c h. ground (arith, s.known k c, lookup-insert key k w.next_cell w.registry);
    named = λ k c h. ground (
      arith,
      s.known k c,
      s.named k c,
      lookup-insert key k w.next_cell w.registry,
      str_eq_iff key k,
    );
    older = λ c e h. ground (arith, s.older c e);
    shown = λ k c e h g. ground (
      arith,
      s.known k c,
      s.shown k c e,
      lookup-insert key k w.next_cell w.registry,
      str_eq_iff key k,
    );
    one_shown = s.one_shown;
  }
  Move-Shown w u (forgets key) s = record {
    known = λ k c h. ground (arith, s.known k c, lookup-delete key k w.registry);
    named = λ k c h. ground (arith, s.named k c, lookup-delete key k w.registry);
    older = s.older;
    shown = λ k c e h g. ground (arith, s.shown k c e, lookup-delete key k w.registry);
    one_shown = s.one_shown;
  }
  Move-Shown w u (rejects key) s = record {
    known = s.known;
    named = s.named;
    older = s.older;
    shown = s.shown;
    one_shown = s.one_shown;
  }
  Move-Shown w u (schedules q d b now) s = record {
    known = s.known;
    named = s.named;
    older = s.older;
    shown = s.shown;
    one_shown = s.one_shown;
  }
  Move-Shown w u (cancels e) s = record {
    known = s.known;
    named = s.named;
    older = s.older;
    shown = λ k c i h g. ground (arith, s.shown k c i h g);
    one_shown = s.one_shown;
  }
  Move-Shown w u (installs key raw plane c eng found got) s = record {
    known = s.known;
    named = λ k i h.
        update-keep (λ x. x.key ≡ k) w.cells c _ i (λ q. s.named k c (rw q h)) (s.named k i h);
    older = λ i e h. ground (arith, s.older i e);
    shown = λ k i e h g. ground (
      arith,
      s.shown k i e h,
      s.older i e,
      s.named k i h,
      s.named key c found,
      str_eq_iff key k,
      versions_of-set_version key k eng.version (count_reload key true w.metrics),
    );
    one_shown = λ k. ground (
      arith,
      s.one_shown k,
      versions_of-set_version key k eng.version (count_reload key true w.metrics),
    );
  }

run-Shown : (o : Options) (es : List Event) → Shown (run o init es)
unfolding get lookup versions_of
run-Shown o es =
    run-keep o Shown (Move-Shown o)
      (λ w e n s. record {
        known = s.known;
        named = s.named;
        older = s.older;
        shown = λ k c i h g. ground (arith, s.shown k c i h g);
        one_shown = s.one_shown;
      })
      es init
      (record {
        known = λ k c h. ground (arith, h);
        named = λ k c h. ground (arith, h);
        older = λ c e h. ground (arith, h);
        shown = λ k c e h g. ground (arith, h);
        one_shown = λ k. omega arith;
      })

-- After any events of a new manager, when the cell of a cluster has the engine e, the only series of
-- the gauge engine_current_version that is 1 for the cluster is that of the version of e; and no
-- cluster has more than one series.
pub run-versions_of :
    (o : Options) (es : List Event) (key : Str) (c e : ℕ)
    → get (run o init es) key ≡ some c
    → ((run o init es).cells c).engine ≡ some e
    → let w = run o init es in
      (versions_of key w.metrics.current_versions ≡ (w.engines e).version ∷ [])
      × ((k : Str) → length (versions_of k w.metrics.current_versions) ≤ 1)
run-versions_of o es key c e found had =
    let s = run-Shown o es in (s.shown key c e found had, s.one_shown)
