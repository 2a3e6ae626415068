-- ===== src/Cmd/Health.antt =====
-- cmd/epp/health.go, and the readiness gate of run in cmd/epp/main.go.
use ai_gateway_epp.Cell.Model.{World, list}
use ai_gateway_epp.Base.{
  Str, codes, str_eq_iff, str_eq, length, ℕ, ◌≡◌, ◌↔◌, ◌⊎◌, Bool, true, false, not, ◌&&◌, Option,
  none, some, List, [], ◌∷◌, arith, ◌==◌, if◌then◌else◌, All, ◌≢◌, map, refl, inl, inr, Bool-cases,
}

-- healthServer, without the manager, which it does not read.
pub record HealthServer : Type 0 where
  pub ready : Bool

pub data ServingStatus : Type 0 where
  serving not_serving : ServingStatus

-- The status code UNIMPLEMENTED of gRPC.
pub data WatchError : Type 0 where
  unimplemented : WatchError

unfoldable pub set_ready : Bool → HealthServer → HealthServer
set_ready v h = record h { ready = v }

unfoldable pub check : HealthServer → Str → ServingStatus
unfolding str_eq
check h service =
    if str_eq service (codes "liveness") then serving else if h.ready then serving else not_serving

unfoldable pub watch : HealthServer → Str → WatchError
watch h service = unimplemented

-- One turn of the gate's loop: the world at its first call of List, the world at its second, and
-- whether the context has ended by the end of the wait after it.
pub record Turn : Type 0 where
  pub first : World
  pub second : World
  pub stopped : Bool

unfoldable pub all_ready : World → List ℕ → Bool
all_ready w [] = true
all_ready w (c ∷ cs) = (w.cells c).ready && all_ready w cs

unfoldable pub turn_ready : Turn → Bool
unfolding all_ready list
turn_ready t = all_ready t.first (list t.first) && not (length (list t.second) == 0)

-- The gate after FirstSync, over the turns that it has had so far; `true` once it has returned.
unfoldable pub gate_turns : HealthServer → List Turn → HealthServer × Bool
unfolding turn_ready set_ready
gate_turns h [] = (h, false)
gate_turns h (t ∷ ts) =
    let rest = gate_turns h ts in
    if turn_ready t then (set_ready true h, true) else if t.stopped then (h, true) else rest

-- The gate; `synced` says whether FirstSync is closed before the context ends, if either has happened.
unfoldable pub gate : HealthServer → Option Bool → List Turn → HealthServer × Bool
unfolding gate_turns
gate h none ts = (h, false)
gate h (some false) ts = (h, true)
gate h (some true) ts = gate_turns h ts

-- Each cell in the registry is ready.
pub AllReady : World → Type 0
AllReady w = All (λ kc. (w.cells kc.1).ready ≡ true) w.registry

-- The gate opens in some turn: the context has not ended in a turn before it, at its first call of
-- List every cell is ready, and at its second there is a cell.
pub data Opens : List Turn → Type 0 where
  opens_now :
      {t : Turn} {ts : List Turn} → AllReady t.first → t.second.registry ≢ [] → Opens (t ∷ ts)
  opens_later : {t : Turn} {ts : List Turn} → t.stopped ≡ false → Opens ts → Opens (t ∷ ts)

all_ready_iff :
    (w : World) (m : List (Str × ℕ))
    → (all_ready w (map (λ kc. kc.1) m) ≡ true) ↔ All (λ kc. (w.cells kc.1).ready ≡ true) m
unfolding all_ready
all_ready_iff w [] = (λ h. tt, λ h. refl)
all_ready_iff w ((k, c) ∷ m) =
    let rest = all_ready_iff w m in
    (λ h. (ground (arith, h), rest.0 (ground (arith, h))), λ h. ground (arith, h.0, rest.1 h.1))

no_cells_iff : (m : List (Str × ℕ)) → (length (map (λ kc. kc.1) m) ≡ 0) ↔ (m ≡ [])
no_cells_iff [] = (λ h. refl, λ h. refl)
no_cells_iff (kc ∷ m) = (λ h. ground (arith, h), λ h. ground (arith, h))

turn_ready_iff : (t : Turn) → (turn_ready t ≡ true) ↔ (AllReady t.first × (t.second.registry ≢ []))
unfolding turn_ready list AllReady
turn_ready_iff t =
    let readies = all_ready_iff t.first t.first.registry in
    let none_there = no_cells_iff t.second.registry in
    (
      λ h. (readies.0 (ground (arith, h)), λ e. ground (arith, h, none_there.1 e)),
      λ h.
          let some_cell : length (list t.second) ≢ 0 = λ e. h.1 (none_there.0 e) in
          ground (arith, readies.1 h.0, some_cell),
    )

gate_turns-Opens :
    (h : HealthServer) (ts : List Turn)
    → ((gate_turns h ts).0.ready ≡ true) ↔ ((h.ready ≡ true) ⊎ Opens ts)
unfolding gate_turns set_ready
gate_turns-Opens h [] = (λ k. inl k, λ k. closed_gate k)
  where
    closed_gate : (h.ready ≡ true) ⊎ Opens [] → h.ready ≡ true
    closed_gate (inl k) = k
    closed_gate (inr never) = elim never [ ]
gate_turns-Opens h (t ∷ ts) = let ih = gate_turns-Opens h ts in (forth ih.0, back ih.1)
  where
    forth :
        ((gate_turns h ts).0.ready ≡ true → (h.ready ≡ true) ⊎ Opens ts)
        → (gate_turns h (t ∷ ts)).0.ready ≡ true
        → (h.ready ≡ true) ⊎ Opens (t ∷ ts)
    forth ih k = elim (Bool-cases (turn_ready t)) [
      | inl good ↦ let g = (turn_ready_iff t).0 good in inr (opens_now g.0 g.1)
      | inr bad ↦ elim (Bool-cases t.stopped) [
        | inl over ↦ inl (ground (arith, bad, over, k))
        | inr on ↦ elim (ih (ground (arith, bad, on, k))) [
          | inl r ↦ inl r
          | inr later ↦ inr (opens_later on later)
        ]
      ]
    ]

    back :
        ((h.ready ≡ true) ⊎ Opens ts → (gate_turns h ts).0.ready ≡ true)
        → (h.ready ≡ true) ⊎ Opens (t ∷ ts)
        → (gate_turns h (t ∷ ts)).0.ready ≡ true
    back ih (inl r) = ground (arith, r, ih (inl r))
    back ih (inr (opens_now all some_cell)) = ground (arith, (turn_ready_iff t).1 (all, some_cell))
    back ih (inr (opens_later on later)) = ground (arith, on, ih (inr later))

-- From a new health server, a probe of any service but liveness is answered SERVING just when the
-- first sync came before the end of the context and, in some turn of the gate before that end, each
-- cell in the registry was ready and there was a cell; a liveness probe always is.
pub check-gate :
    (synced : Option Bool) (ts : List Turn) (service : Str)
    → let h = (gate (record { ready = false }) synced ts).0 in
      (check h service ≡ serving)
      ↔ ((service ≡ codes "liveness") ⊎ ((synced ≡ some true) × Opens ts))
unfolding gate check
check-gate none ts service = ground (arith, str_eq_iff service (codes "liveness"))
check-gate (some false) ts service = ground (arith, str_eq_iff service (codes "liveness"))
check-gate (some true) ts service =
    ground
      (arith, str_eq_iff service (codes "liveness"), gate_turns-Opens (record { ready = false }) ts)
