-- ===== src/ClusterTable/Hub.antt =====
-- pkg/eppplugin/clustertable/hub.go: the desired endpoints of every cluster, with a version.
use ai_gateway_epp.ClusterTable.Endpoint.{Endpoint, id_eq}
use ai_gateway_epp.Base.{
  Str, lookup, ℕ, ◌+◌, ◌%◌, ◌^◌, Option, none, some, List, [], ◌∷◌, ◌==◌, if◌then◌else◌,
  str_eq_instance, Bool, true, false,
}

abbrev pub Table : Type 0
Table = List (Str × List Endpoint)

-- The version is a uint64. Channels are numbers: `ch` is the one that the next ReplaceAll closes, and
-- `closed` lists those that are closed. A channel that `make` gives is a new number.
pub record Hub : Type 0 where
  pub table : Table
  pub version : ℕ
  pub ch : ℕ
  pub closed : List ℕ

abbrev pub u64 : ℕ
u64 = 2 ^ 64

unfoldable pub new_hub : Hub
new_hub = record { table = []; version = 0; ch = 0; closed = [] }

unfoldable pub replace_all : Table → Hub → Hub
replace_all table h = record {
  table = table;
  version = (h.version + 1) % u64;
  ch = h.ch + 1;
  closed = h.ch ∷ h.closed;
}

-- A missing key reads as the empty list.
unfoldable pub or_empty : Option (List Endpoint) → List Endpoint
or_empty none = []
or_empty (some es) = es

unfoldable pub snapshot : Str → Hub → List Endpoint × ℕ
unfolding lookup or_empty
snapshot cluster h = (or_empty (lookup cluster h.table), h.version)

unfoldable pub is_closed : List ℕ → ℕ → Bool
is_closed [] c = false
is_closed (d ∷ ds) c = let rest = is_closed ds c in if d == c then true else rest

-- Where a call of WaitChange stands: before it takes the lock, in the select on a channel, or
-- returned, with a version or with the error of its context.
pub data Waiter : Type 0 where
  before_lock : Waiter
  in_select : ℕ → Waiter
  changed : ℕ → Waiter
  stopped : Waiter

-- One round of WaitChange's loop up to its select: under the lock it compares the version and reads
-- the channel.
unfoldable pub look : ℕ → Hub → Waiter
look since h = if h.version == since then in_select h.ch else changed h.version

-- The next step of WaitChange that its goroutine can make without the context: the loop's round, or
-- the receive from a channel, which goes through once it is closed.
unfoldable pub wait_change : ℕ → Hub → Waiter → Waiter
unfolding look is_closed
wait_change since h before_lock = look since h
wait_change since h (in_select c) = if is_closed h.closed c then before_lock else in_select c
wait_change since h (changed v) = changed v
wait_change since h stopped = stopped

-- The select takes `ctx.Done()`.
unfoldable pub wait_stopped : Waiter → Waiter
wait_stopped before_lock = before_lock
wait_stopped (in_select c) = stopped
wait_stopped (changed v) = changed v
wait_stopped stopped = stopped

-- What happens while a call of WaitChange runs: another goroutine replaces the table, the call makes
-- its next step, or its context ends its select.
pub data HubEvent : Type 0 where
  replaces : Table → HubEvent
  waiter_runs : HubEvent
  context_ends : HubEvent

unfoldable pub hub_step : ℕ → Hub × Waiter → HubEvent → Hub × Waiter
unfolding replace_all wait_change wait_stopped
hub_step since (h, x) (replaces table) = (replace_all table h, x)
hub_step since (h, x) waiter_runs = (h, wait_change since h x)
hub_step since (h, x) context_ends = (h, wait_stopped x)

unfoldable pub hub_run : ℕ → Hub × Waiter → List HubEvent → Hub × Waiter
unfolding hub_step
hub_run since s [] = s
hub_run since s (e ∷ es) = hub_run since (hub_step since s e) es
