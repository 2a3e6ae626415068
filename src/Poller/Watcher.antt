-- ===== src/Poller/Watcher.antt =====
-- pkg/poller/epp_data.go: EppDataWatcher.Handle, on the world of the cell manager.
use ai_gateway_epp.Cell.Role.{Role}
use ai_gateway_epp.Cell.Model.{World, list}
use ai_gateway_epp.Cell.Manager.{Options, ensure, drop}
use ai_gateway_epp.Cell.Apply.{apply_config}
use ai_gateway_epp.Poller.Assignment.{AssignmentEntry, resolve_all}
use ai_gateway_epp.Base.{
  Str, lookup, ℕ, Bool, true, false, none, some, List, [], ◌∷◌, if◌then◌else◌, str_eq_instance,
}

-- innerapi.EppDataConfig, as the entries of its two maps.
pub record EppDataConfig : Type 0 where
  pub epp_config : List (Str × Str)
  pub assignment : List (Str × AssignmentEntry)

-- The gauge `assignmentNoMatch`, which Handle sets by the roles that it has resolved.
unfoldable pub no_match : List (Str × Role) → Bool
no_match [] = true
no_match (_ ∷ _) = false

unfoldable pub assignment_no_match : Str → EppDataConfig → Bool
unfolding no_match resolve_all
assignment_no_match self cfg = no_match (resolve_all self cfg.assignment [])

-- The loop over Ensure, which returns at the first error.
unfoldable pub ensure_all : Options → World → List (Str × Role) → World × Bool
unfolding ensure
ensure_all o w [] = (w, true)
ensure_all o w ((cluster, role) ∷ rest) =
    let (w', c) = ensure o w cluster role in
    let others = ensure_all o w' rest in elim c [ some _ ↦ others | none ↦ (w', false) ]

-- The loop over a snapshot of the cells.
unfoldable pub drop_if_missing : List (Str × Role) → World → ℕ → World
unfolding drop lookup
drop_if_missing mine w c = elim (lookup (w.cells c).key mine) [
  | some _ ↦ w
  | none ↦ drop w (w.cells c).key
]

unfoldable pub drop_missing : List (Str × Role) → List ℕ → World → World
unfolding drop_if_missing
drop_missing mine [] w = w
drop_missing mine (c ∷ cs) w = drop_missing mine cs (drop_if_missing mine w c)

-- The loop over the configs; a refused one is logged, and the loop goes on.
unfoldable pub apply_if_mine : Options → List (Str × Role) → World → Str → Str → World
unfolding apply_config lookup
apply_if_mine o mine w cluster raw = elim (lookup cluster mine) [
  | some _ ↦ (apply_config o w cluster raw).0
  | none ↦ w
]

unfoldable pub apply_all : Options → List (Str × Role) → List (Str × Str) → World → World
unfolding apply_if_mine
apply_all o mine [] w = w
apply_all o mine ((cluster, raw) ∷ rest) w =
    apply_all o mine rest (apply_if_mine o mine w cluster raw)

-- Handle; `false` is the error of Ensure.
unfoldable pub handle_data : Options → Str → World → EppDataConfig → World × Bool
unfolding ensure_all drop_missing apply_all resolve_all list
handle_data o self w cfg =
    let mine = resolve_all self cfg.assignment [] in
    let (w', good) = ensure_all o w mine in
    let done = apply_all o mine cfg.epp_config (drop_missing mine (list w') w') in
    if good then (done, true) else (w', false)
