-- ===== src/Cell/Manager.antt =====
-- pkg/cell/manager.go, cell.go and engine.go: what the manager does to the heap. Each function is the
-- whole handler; log lines and
-- the histogram of drains are left out.
use ai_gateway_epp.Base.{
  ℕ, ◌+◌, Str, str_eq_instance, Bool, true, false, ◌||◌, Option, none, some, List, [], ◌∷◌, ◌++◌,
  ◌==◌, ltb, if◌then◌else◌, length, lookup, insert, delete,
}
use ai_gateway_epp.Cell.Role.{
  Role, role_none, role_standby, role_primary, role_eq, State, state_creating, state_standby,
  state_primary, state_draining, state_eq,
}
use ai_gateway_epp.Cell.Model.{
  World, Cell, Engine, Plane, DrainTask, update, fresh_cell, modify_cell, modify_engine, get,
}

-- What `HashConfig`, `newCell` and `compile` of a manager do. A compile may change the data plane of
-- its cell, also when it fails; the engine that it returns is not started.
pub record Options : Type 0 where
  pub hash : Str → Str
  pub new_cell : Str → Option Plane
  pub compile : Str → Str → Plane → Plane × Option Engine
  pub drain_workers : ℕ

-- The capacity of `drainCh`.
abbrev pub drain_capacity : ℕ
drain_capacity = 64

unfoldable pub set_role : Role → Cell → Cell
set_role r c = record c { role = r; gauge = (r, c.state) ∷ c.gauge }

unfoldable pub set_state : State → Cell → Cell
set_state s c = record c { state = s; gauge = (c.role, s) ∷ c.gauge }

unfoldable pub close_cell : Cell → Cell
close_cell c = record c { closed = true }

-- markReady at the time `now`.
unfoldable pub mark_ready : ℕ → Cell → Cell
unfolding set_state
mark_ready now c =
    if c.ready
    then c
    else let c' : Cell = record c { ready_at = now; ready = true } in
      if state_eq c.state state_creating then set_state state_standby c' else c'

-- ReadySince; `none` is the zero time.
unfoldable pub ready_since : Cell → Option ℕ
ready_since c = if c.ready_at == 0 then none else some c.ready_at

-- Engine.start
unfoldable pub start : World → ℕ → ℕ → World
unfolding mark_ready
start w c e = elim (w.engines e).discovery [
  | [] ↦ modify_cell w c (mark_ready w.now)
  | d ∷ ds ↦ record w { awaits = w.awaits ++ record { cell = c; eng = e; todo = d ∷ ds } ∷ [] }
]

-- The `cancel` of Engine.drain.
unfoldable pub cancel_engine : Engine → Engine
cancel_engine e = if e.has_cancel then record e { cancelled = true } else e

-- cells.CompareAndDelete, on the registry and on the world.
unfoldable pub delete_if_same : List (Str × ℕ) → Str → ℕ → List (Str × ℕ)
delete_if_same m key c = elim (lookup key m) [
  | none ↦ m
  | some d ↦ if d == c then delete key m else m
]

unfoldable pub compare_and_delete : World → Str → ℕ → World
unfolding delete_if_same
compare_and_delete w key c = record w { registry = delete_if_same w.registry key c }

-- The end of Manager.drain, once the wait for the requests is over.
unfoldable pub finish_drain : World → DrainTask → World
unfolding compare_and_delete close_cell
finish_drain w t =
    if t.teardown
    then compare_and_delete (modify_cell w t.cell close_cell) (w.cells t.cell).key t.cell
    else w

-- Manager.drain in the goroutine of its caller, which waits for the requests or for the timeout.
unfoldable pub drain : World → DrainTask → World
unfolding cancel_engine finish_drain
drain w t = finish_drain (modify_engine w t.eng cancel_engine) t

unfoldable pub schedule_drain : World → ℕ → ℕ → Bool → World
unfolding drain
schedule_drain w c e teardown =
    let t : DrainTask = record { cell = c; eng = e; teardown = teardown } in
    if ltb (length w.queue) drain_capacity
    then record w { queue = w.queue ++ t ∷ [] }
    else drain w t

unfoldable pub promote_cell : Cell → Cell
unfolding set_role set_state
promote_cell c =
    let c' : Cell = set_role role_primary c in
    if state_eq c.state state_standby || state_eq c.state state_creating
    then set_state state_primary c'
    else c'

unfoldable pub promote : World → Str → World
unfolding get promote_cell
promote w key = elim (get w key) [
  | none ↦ w
  | some c ↦ if state_eq (w.cells c).state state_draining then w else modify_cell w c promote_cell
]

unfoldable pub demote_cell : Cell → Cell
unfolding set_role set_state
demote_cell c =
    let c' : Cell = set_role role_standby c in
    if state_eq c.state state_primary then set_state state_standby c' else c'

-- The `if eng := c.Engine(); eng != nil` of Demote and Drop.
unfoldable pub drain_current : World → ℕ → Bool → World → World
unfolding schedule_drain
drain_current w c teardown otherwise = elim (w.cells c).engine [
  | none ↦ otherwise
  | some e ↦ schedule_drain w c e teardown
]

unfoldable pub demote : World → Str → World
unfolding get demote_cell drain_current
demote w key = elim (get w key) [
  | none ↦ w
  | some c ↦
      if state_eq (w.cells c).state state_draining
      then w
      else let w' : World = modify_cell w c demote_cell in drain_current w' c false w'
]

unfoldable pub drop : World → Str → World
unfolding get set_state drain_current compare_and_delete close_cell
drop w key = elim (get w key) [
  | none ↦ w
  | some c ↦
      let w' : World = modify_cell w c (set_state state_draining) in
      drain_current w' c true (compare_and_delete (modify_cell w' c close_cell) key c)
]

-- cells.LoadOrStore and what Ensure does with its answer: the cell in use, and the registry.
unfoldable pub load_or_store : World → Str → ℕ → World × ℕ
unfolding close_cell
load_or_store w key c = elim (lookup key w.registry) [
  | some actual ↦ (modify_cell w c close_cell, actual)
  | none ↦ (record w { registry = insert key c w.registry }, c)
]

-- `newCell` at the next free place of the heap, and `setState` on it.
unfoldable pub allocate_cell : World → Str → Plane → World
unfolding set_state
allocate_cell w key plane = record w {
  cells = update w.cells w.next_cell (set_state state_creating (fresh_cell key plane));
  next_cell = w.next_cell + 1;
}

-- The first half of Ensure: the cell for a key, created if it is missing.
unfoldable pub find_or_create : Options → World → Str → Option (World × ℕ)
unfolding get load_or_store allocate_cell
find_or_create o w key = elim (get w key) [
  | some c ↦ some (w, c)
  | none ↦ elim (o.new_cell key) [
    | none ↦ none
    | some plane ↦ some (load_or_store (allocate_cell w key plane) key w.next_cell)
  ]
]

-- The switch of Ensure.
unfoldable pub apply_role : World → Str → ℕ → Role → World
unfolding promote demote set_role
apply_role w key c role =
    if role_eq (w.cells c).role role
    then w
    else if role_eq role role_primary
    then promote w key
    else if role_eq role role_standby
    then (if role_eq (w.cells c).role role_none
        then modify_cell w c (set_role role_standby)
        else demote w key)
    else w

-- Ensure; `none` is the error of `newCell`, after which nothing has changed.
unfoldable pub ensure : Options → World → Str → Role → World × Option ℕ
unfolding find_or_create apply_role
ensure o w key role = elim (find_or_create o w key) [
  | none ↦ (w, none)
  | some (w', c) ↦ (apply_role w' key c role, some c)
]
