-- ===== src/Cell/Apply.antt =====
-- pkg/cell: ApplyConfig of manager.go with the hot swap of an engine, and Track of cell.go.
use ai_gateway_epp.Cell.Role.{state_eq, state_draining}
use ai_gateway_epp.Cell.Model.{get, World, update, Engine, modify_cell, modify_engine, Metrics}
use ai_gateway_epp.Cell.Manager.{schedule_drain, Options, start}
use ai_gateway_epp.Base.{
  Str, str_eq, ℕ, ◌+◌, ◌-◌, Bool, true, false, Option, none, some, ◌==◌, if◌then◌else◌, List, [],
  ◌∷◌, ◌++◌,
}

pub data ApplyError : Type 0 where
  not_assigned compile_failed : ApplyError

pub data Applied : Type 0 where
  swapped unchanged : Applied
  failed : ApplyError → Applied

-- engine.Swap, currentHash.Store, start and the drain of the old engine.
unfoldable pub swap_engine : World → ℕ → Str → Engine → World
unfolding start schedule_drain
swap_engine w c hash eng =
    let e = w.next_engine in
    let w' : World = record w {
      engines = update w.engines e eng;
      next_engine = e + 1;
      cells = update w.cells c (record (w.cells c) { engine = some e; current_hash = some hash });
    } in
    elim (w.cells c).engine [
      | none ↦ start w' c e
      | some old ↦ schedule_drain (start w' c e) c old false
    ]

unfoldable pub same_hash : Option Str → Str → Bool
same_hash none h = false
same_hash (some v) h = str_eq v h

-- engineReloads: one more attempt for a cluster, with its result.
unfoldable pub count_reload : Str → Bool → Metrics → Metrics
count_reload key ok m = record m { reloads = m.reloads ++ (key, ok) ∷ [] }

-- engineCurrentVersion.DeletePartialMatch
unfoldable pub drop_versions : Str → List (Str × Str) → List (Str × Str)
drop_versions key [] = []
drop_versions key ((k, v) ∷ vs) =
    let rest = drop_versions key vs in if str_eq k key then rest else (k, v) ∷ rest

-- engineCurrentVersion after a swap
unfoldable pub set_version : Str → Str → Metrics → Metrics
unfolding drop_versions
set_version key v m = record m {
  current_versions = (key, v) ∷ drop_versions key m.current_versions;
}

-- The metrics are written in one step with the swap, so they come before it here.
unfoldable pub compile_and_swap : Options → World → ℕ → Str → Str → World × Applied
unfolding swap_engine count_reload set_version
compile_and_swap o w c key raw =
    let (plane, built) = o.compile key raw (w.cells c).plane in
    let w' : World = modify_cell w c (λ d. record d { plane = plane }) in
    elim built [
      | none ↦ (record w' { metrics = count_reload key false w'.metrics }, failed compile_failed)
      | some eng ↦ (
        swap_engine
            (record w' { metrics = set_version key eng.version (count_reload key true w'.metrics) })
            c (o.hash raw) eng,
        swapped,
      )
    ]

unfoldable pub apply_config : Options → World → Str → Str → World × Applied
unfolding get same_hash compile_and_swap
apply_config o w key raw = elim (get w key) [
  | none ↦ (w, failed not_assigned)
  | some c ↦
      if state_eq (w.cells c).state state_draining
      then (w, failed not_assigned)
      else if same_hash (w.cells c).current_hash (o.hash raw)
      then (w, unchanged)
      else compile_and_swap o w c key raw
]

-- Track: the request is counted, and taken back when the engine is no longer the cell's.
unfoldable pub track : World → ℕ → ℕ → World × Bool
track w c e =
    let counted : World = modify_engine w e (λ g. record g { wg = g.wg + 1 }) in
    elim (w.cells c).engine [
      | none ↦ (modify_engine counted e (λ g. record g { wg = g.wg - 1 }), false)
      | some d ↦
          if d == e
          then (counted, true)
          else (modify_engine counted e (λ g. record g { wg = g.wg - 1 }), false)
    ]

-- The function that Track returns.
unfoldable pub done : World → ℕ → World
done w e = modify_engine w e (λ g. record g { wg = g.wg - 1 })
