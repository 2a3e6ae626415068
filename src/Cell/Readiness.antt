-- ===== src/Cell/Readiness.antt =====
-- pkg/cell: what the calls of the manager do to the goroutines of `start`.
use ai_gateway_epp.Cell.Apply.{track, done, swap_engine}
use ai_gateway_epp.Cell.Invariant.{Inv}
use ai_gateway_epp.Cell.Role.{Role, state_creating}
use ai_gateway_epp.Cell.Model.{World, get, update, fresh_cell, Engine}
use ai_gateway_epp.Cell.Roles.{find_refused, find_new, find_existing}
use ai_gateway_epp.Cell.Events.{drain_end, request_end, worker_take}
use ai_gateway_epp.Cell.Pending.{Released, Has, PendingBelow, Has-last, Has-append}
use ai_gateway_epp.Cell.Manager.{
  drain_current, schedule_drain, compare_and_delete, finish_drain, Options, drain, apply_role,
  promote, drop, ensure, demote, mark_ready, start, set_state,
}
use ai_gateway_epp.Base.{
  Str, ℕ, ◌≤◌, ◌≡◌, refl, ◌⊎◌, inl, inr, Bool, some, arith, Option-cases, Bool-cases, ltb,
  str_eq_instance, insert, ◌+◌, true, false, List, [], ◌∷◌, ◌++◌, ◌==◌, if◌then◌else◌,
}

abbrev pub Pending : World → Type 0
Pending w = PendingBelow w.next_engine w.awaits w

-- The events that start no goroutine and no engine.
abbrev pub Same : World → World → Type 0
Same w u = (u.awaits ≡ w.awaits) × (u.next_engine ≡ w.next_engine)

pub promote-Same : (w : World) (key : Str) → Same w (promote w key)
unfolding promote
promote-Same w key = (ground arith, ground arith)

pub demote-Same : (w : World) (key : Str) → Same w (demote w key)
unfolding demote drain_current schedule_drain drain finish_drain compare_and_delete
demote-Same w key = (ground arith, ground arith)

pub drop-Same : (w : World) (key : Str) → Same w (drop w key)
unfolding drop drain_current schedule_drain drain finish_drain compare_and_delete
drop-Same w key = (ground arith, ground arith)

apply_role-Same : (w : World) (key : Str) (c : ℕ) (role : Role) → Same w (apply_role w key c role)
unfolding apply_role
apply_role-Same w key c role =
    let p = promote-Same w key in
    let d = demote-Same w key in (ground (arith, p, d), ground (arith, p, d))

pub ensure-Same :
    (o : Options) (w : World) (key : Str) (role : Role) → Same w (ensure o w key role).0
unfolding ensure
ensure-Same o w key role = elim (Option-cases (get w key)) [
  | inr (c, found) ↦ rw (find_existing o w key c found, ensure) (apply_role-Same w key c role)
  | inl missing ↦ elim (Option-cases (o.new_cell key)) [
    | inl refused ↦ rw (find_refused o w key missing refused, ensure) (refl, refl)
    | inr (plane, built) ↦
        let u : World = record w {
          cells = update w.cells w.next_cell (set_state state_creating (fresh_cell key plane));
          next_cell = w.next_cell + 1;
          registry = insert key w.next_cell w.registry;
        } in
        rw (find_new o w key plane missing built, ensure) (apply_role-Same u key w.next_cell role)
  ]
]

pub worker_take-Same : (o : Options) (w : World) → Same w (worker_take o w)
unfolding worker_take
worker_take-Same o w = (ground arith, ground arith)

pub drain_end-Same : (w : World) (i : ℕ) (timed_out : Bool) → Same w (drain_end w i timed_out)
unfolding drain_end finish_drain compare_and_delete
drain_end-Same w i timed_out = (ground arith, ground arith)

pub track-Same : (w : World) (c e : ℕ) → Same w (track w c e).0
unfolding track
track-Same w c e = (ground arith, ground arith)

pub request_end-Same : (w : World) (e : ℕ) → Same w (request_end w e)
unfolding request_end done
request_end-Same w e = (ground arith, ground arith)

module _ (w u : World) (p : PendingBelow w.next_engine w.awaits u) (v : Inv u) where
  pub later-Pending :
      ((c e : ℕ) → Has c e w.awaits → Released u c e ⊎ Has c e u.awaits)
      → ((c e : ℕ)
          → w.next_engine ≤ e
          → (u.cells c).engine ≡ some e
          → Released u c e ⊎ Has c e u.awaits)
      → Pending u
  later-Pending kept new = record {
    bound = omega arith;
    pending = λ c e b h. elim (Bool-cases (ltb e w.next_engine)) [
      | inl old ↦ elim (p.pending c e (ground arith) h) [
        | inl free ↦ inl free
        | inr waits ↦ kept c e waits
      ]
      | inr young ↦ new c e (ground arith) h
    ];
  }

  pub plain-Pending : Same w u → Pending u
  plain-Pending s =
      later-Pending (λ c e h. inr (rw s.0 h))
        (λ c e b h. absurd (omega (arith, v.engines_known c e h, s.1, b)))

-- The goroutine of a new engine, or the readiness that it would bring.
abbrev pub Started : World → ℕ → ℕ → Type 0
Started u c e = ((u.cells c).ready ≡ true) ⊎ Has c e u.awaits

start-Started : (w : World) (c e : ℕ) → Started (start w c e) c e
unfolding start mark_ready
start-Started w c e = go (w.engines e).discovery refl
  where
    go : (ds : List ℕ) → (w.engines e).discovery ≡ ds → Started (start w c e) c e
    go [] h = inl (ground (arith, h))
    go (d ∷ ds) h = inr (
        let q : (start w c e).awaits
            ≡ w.awaits ++ record { cell = c; eng = e; todo = d ∷ ds } ∷ [] =
          ground (arith, h) in
        rw q (Has-last c e w.awaits _ refl refl))

start-Has : (w : World) (c e d i : ℕ) → Has d i w.awaits → Has d i (start w c e).awaits
unfolding start
start-Has w c e d i h = go (w.engines e).discovery refl
  where
    go : (ds : List ℕ) → (w.engines e).discovery ≡ ds → Has d i (start w c e).awaits
    go [] k = let q : (start w c e).awaits ≡ w.awaits = ground (arith, k) in rw q h
    go (x ∷ ds) k =
        let q : (start w c e).awaits
            ≡ w.awaits ++ record { cell = c; eng = e; todo = x ∷ ds } ∷ [] =
          ground (arith, k) in
        rw q (Has-append d i w.awaits _ h)

schedule_drain-kept :
    (w : World) (c e : ℕ)
    → ((schedule_drain w c e false).awaits ≡ w.awaits)
      × ((schedule_drain w c e false).cells ≡ w.cells)
unfolding schedule_drain drain finish_drain
schedule_drain-kept w c e = (ground arith, ground arith)

pub swap_engine-engine :
    (w : World) (c : ℕ) (hash : Str) (eng : Engine) (d : ℕ)
    → ((swap_engine w c hash eng).cells d).engine
      ≡ (if c == d then some w.next_engine else (w.cells d).engine)
unfolding swap_engine start mark_ready set_state schedule_drain drain finish_drain
swap_engine-engine w c hash eng d = ground arith

pub swap_engine-Started :
    (w : World) (c : ℕ) (hash : Str) (eng : Engine)
    → Started (swap_engine w c hash eng) c w.next_engine
      × ((d i : ℕ) → Has d i w.awaits → Has d i (swap_engine w c hash eng).awaits)
unfolding swap_engine
swap_engine-Started w c hash eng =
    let e = w.next_engine in
    let u : World = record w {
      engines = update w.engines e eng;
      next_engine = e + 1;
      cells = update w.cells c (record (w.cells c) { engine = some e; current_hash = some hash });
    } in
    let s = start-Started u c e in
    elim (Option-cases (w.cells c).engine) [
      | inl first ↦ rw (first, swap_engine) (s, λ d i h. start-Has u c e d i h)
      | inr (old, had) ↦
          let q = schedule_drain-kept (start u c e) c old in
          rw (had, swap_engine) (rw (q.0, q.1) (s, λ d i h. start-Has u c e d i h))
    ]
