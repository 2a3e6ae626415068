-- ===== src/ClusterTable/Waiting.antt =====
-- pkg/eppplugin/clustertable/hub.go: WaitChange against the calls of ReplaceAll.
use ai_gateway_epp.ClusterTable.Hub.{
  Hub, Waiter, before_lock, in_select, changed, stopped, is_closed, HubEvent, replaces, waiter_runs,
  context_ends, hub_step, hub_run, wait_change, look,
}
use ai_gateway_epp.Base.{
  ℕ, ◌≡◌, ◌≢◌, ◌⊎◌, inl, inr, true, refl, List, [], ◌∷◌, arith, ◌==◌, Bool-cases,
}

-- Where a waiter may stand: in a select on the channel of the hub with nothing new, or on one that is
-- closed; or returned with a version that is not the one that it waited for.
IsAwake : ℕ → Hub → Waiter → Type 0
IsAwake since h before_lock = Unit
IsAwake since h (in_select c) = ((c ≡ h.ch) × (h.version ≡ since)) ⊎ (is_closed h.closed c ≡ true)
IsAwake since h (changed v) = v ≢ since
IsAwake since h stopped = Unit

hub_step-IsAwake :
    (since : ℕ) (h : Hub) (x : Waiter) (e : HubEvent)
    → IsAwake since h x
    → let (h', x') = hub_step since (h, x) e in IsAwake since h' x'
unfolding hub_step IsAwake
hub_step-IsAwake since h before_lock (replaces t) k = tt
hub_step-IsAwake since h (in_select c) (replaces t) k = inr (ground (arith, k))
hub_step-IsAwake since h (changed v) (replaces t) k = k
hub_step-IsAwake since h stopped (replaces t) k = tt
hub_step-IsAwake since h before_lock waiter_runs k = elim (Bool-cases (h.version == since)) [
  | inl old ↦ rw old (inl (refl, ground (arith, old)))
  | inr new ↦ rw new (λ e. ground (arith, new, e))
]
hub_step-IsAwake since h (in_select c) waiter_runs k = elim (Bool-cases (is_closed h.closed c)) [
  | inl over ↦ rw over tt
  | inr open_still ↦ rw open_still k
]
hub_step-IsAwake since h (changed v) waiter_runs k = k
hub_step-IsAwake since h stopped waiter_runs k = tt
hub_step-IsAwake since h before_lock context_ends k = tt
hub_step-IsAwake since h (in_select c) context_ends k = tt
hub_step-IsAwake since h (changed v) context_ends k = k
hub_step-IsAwake since h stopped context_ends k = tt

hub_run-IsAwake :
    (since : ℕ) (es : List HubEvent) (h : Hub) (x : Waiter)
    → IsAwake since h x
    → let (h', x') = hub_run since (h, x) es in IsAwake since h' x'
unfolding hub_run
hub_run-IsAwake since [] h x k = k
hub_run-IsAwake since (e ∷ es) h x k =
    let (h', x') = hub_step since (h, x) e in
    hub_run-IsAwake since es h' x' (hub_step-IsAwake since h x e k)

-- A waiter that is awake returns in two steps when there is something new.
IsAwake-returns :
    (since : ℕ) (h : Hub) (x : Waiter)
    → IsAwake since h x
    → h.version ≢ since
    → let y = wait_change since h (wait_change since h x) in
      (y ≡ stopped) ⊎ ((v : ℕ) × (y ≡ changed v) × (v ≢ since))
unfolding wait_change IsAwake look
IsAwake-returns since h before_lock k new = inr (h.version, ground (arith, new), new)
IsAwake-returns since h (in_select c) k new = inr (h.version, ground (arith, new, k), new)
IsAwake-returns since h (changed v) k new = inr (v, refl, k)
IsAwake-returns since h stopped k new = inl refl

-- No change is lost on WaitChange: let it be called with a version, and any steps of its own, calls
-- of ReplaceAll and the end of its context follow in any order. If the version of the hub is another
-- one then, it returns within two more of its steps, with a version other than the given one, unless
-- its context had ended it.
pub wait_change_prompt :
    (since : ℕ) (h : Hub) (es : List HubEvent)
    → (hub_run since (h, before_lock) es).0.version ≢ since
    → let (h', x) = hub_run since (h, before_lock) es in
      let y = wait_change since h' (wait_change since h' x) in
      (y ≡ stopped) ⊎ ((v : ℕ) × (y ≡ changed v) × (v ≢ since))
unfolding IsAwake
wait_change_prompt since h es new =
    let (h', x) = hub_run since (h, before_lock) es in
    IsAwake-returns since h' x (hub_run-IsAwake since es h before_lock tt) new
