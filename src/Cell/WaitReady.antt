-- ===== src/Cell/WaitReady.antt =====
-- pkg/cell/manager.go: WaitReady. The polling of k8s.io/apimachinery is a parameter, with its documented
-- behaviour.
use ai_gateway_epp.Cell.Model.{get, World}
use ai_gateway_epp.Base.{
  Str, ℕ, ◌<◌, ◌≡◌, refl, Bool, true, false, not, ◌&&◌, ◌||◌, none, some, List, [], ◌∷◌, arith,
  if◌then◌else◌, All,
}

-- What one call of the condition sees: the manager, whether its context is done, and what `select`
-- picks when a cell is ready and the context is done too.
pub record Look : Type 0 where
  pub world : World
  pub ctx_done : Bool
  pub picks_ready : Bool

-- The condition's results: true, false, and the error of the context.
pub data Condition : Type 0 where
  all_found not_yet cut_off : Condition

unfoldable pub look_at : Look → ℕ → Condition
look_at l c =
    if (l.world.cells c).ready && (not l.ctx_done || l.picks_ready)
    then all_found
    else if l.ctx_done
    then cut_off
    else not_yet

-- The function that WaitReady polls with.
unfoldable pub wait_condition : List Str → Look → Condition
unfolding get look_at
wait_condition [] l = all_found
wait_condition (k ∷ ks) l =
    let rest = wait_condition ks l in
    elim (get l.world k) [
      | none ↦ not_yet
      | some c ↦ elim (look_at l c) [ all_found ↦ rest | not_yet ↦ not_yet | cut_off ↦ cut_off ]
    ]

-- wait.PollUntilContextTimeout: nil, or an error. It is given the interval and the timeout in
-- milliseconds, `immediate`, and what the condition returns call by call.
abbrev pub Poll : Type 0
Poll = ℕ → ℕ → Bool → (ℕ → Condition) → Bool

-- Its documentation: it returns nil only after a call that returned true, with calls that returned
-- false before, and with `immediate` the first call is made at once.
pub record PollLaws (poll : Poll) : Type 0 where
  pub finds :
      (interval timeout : ℕ) (immediate : Bool) (f : ℕ → Condition)
      → poll interval timeout immediate f ≡ true
      → (i : ℕ) × (f i ≡ all_found) × ((j : ℕ) → j < i → f j ≡ not_yet)
  pub at_once :
      (interval timeout : ℕ) (f : ℕ → Condition)
      → f 0 ≡ all_found
      → poll interval timeout true f ≡ true

-- WaitReady, over what its calls of the condition see; `true` is nil.
unfoldable pub wait_ready : Poll → List Str → (ℕ → Look) → Bool
unfolding wait_condition
wait_ready poll keys seen = poll 50 30000 true (λ i. wait_condition keys (seen i))

-- Each of the keys has a cell that is ready.
pub all_keys_ready : List Str → World → Bool
all_keys_ready [] w = true
all_keys_ready (k ∷ ks) w = elim (get w k) [
  | none ↦ false
  | some c ↦ (w.cells c).ready && all_keys_ready ks w
]

-- The manager finds a ready cell under a key.
abbrev pub HasReady : World → Str → Type 0
HasReady w k = (c : ℕ) × (get w k ≡ some c) × ((w.cells c).ready ≡ true)

pub all_keys_ready-HasReady :
    (ks : List Str) (w : World) → All (HasReady w) ks → all_keys_ready ks w ≡ true
unfolding all_keys_ready
all_keys_ready-HasReady [] w h = refl
all_keys_ready-HasReady (k ∷ ks) w h =
    ground (arith, h.0.1, h.0.2, all_keys_ready-HasReady ks w h.1)

wait_condition-found :
    (ks : List Str) (l : Look) → wait_condition ks l ≡ all_found → all_keys_ready ks l.world ≡ true
unfolding wait_condition look_at all_keys_ready
wait_condition-found [] l h = refl
wait_condition-found (k ∷ ks) l h = ground (arith, h, wait_condition-found ks l)

wait_condition-ready :
    (ks : List Str) (l : Look)
    → l.ctx_done ≡ false
    → all_keys_ready ks l.world ≡ true
    → wait_condition ks l ≡ all_found
unfolding wait_condition look_at all_keys_ready
wait_condition-ready [] l running h = refl
wait_condition-ready (k ∷ ks) l running h =
    ground (arith, running, h, wait_condition-ready ks l running)

-- When WaitReady returns nil, one of its calls of the condition has seen a ready cell for each of the
-- keys, and the calls before it returned false.
wait_ready_sound :
    (poll : Poll) (keys : List Str) (seen : ℕ → Look)
    → PollLaws poll
    → wait_ready poll keys seen ≡ true
    → (i : ℕ) × (all_keys_ready keys (seen i).world ≡ true)
      × ((j : ℕ) → j < i → wait_condition keys (seen j) ≡ not_yet)
unfolding wait_ready
wait_ready_sound poll keys seen laws h =
    let (i, found, earlier) = laws.finds 50 30000 true (λ j. wait_condition keys (seen j)) h in
    (i, wait_condition-found keys (seen i) found, earlier)

-- When the cells are ready from the start and the context is not done, it returns nil.
pub wait_ready_prompt :
    (poll : Poll) (keys : List Str) (seen : ℕ → Look)
    → PollLaws poll
    → (seen 0).ctx_done ≡ false
    → all_keys_ready keys (seen 0).world ≡ true
    → wait_ready poll keys seen ≡ true
unfolding wait_ready
wait_ready_prompt poll keys seen laws running h =
    laws.at_once 50 30000 (λ i. wait_condition keys (seen i))
      (wait_condition-ready keys (seen 0) running h)
