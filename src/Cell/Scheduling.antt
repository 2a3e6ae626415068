-- ===== src/Cell/Scheduling.antt =====
-- pkg/cell/manager.go: the calls of the epp_data watcher, and the drain queue.
use ai_gateway_epp.Base.{
  Str, length, length-append, ℕ, ◌≤◌, ◌≡◌, inl, inr, Bool, true, false, [], ◌∷◌, arith,
  Option-cases, str_eq_instance, ◌+◌, ◌∙◌, some,
}
use ai_gateway_epp.Cell.Role.{state_draining, Role}
use ai_gateway_epp.Cell.Model.{World, modify_cell, get, Engine, update}
use ai_gateway_epp.Cell.Manager.{
  demote, demote_cell, set_state, compare_and_delete, finish_drain, Options, schedule_drain,
  drain_capacity, drop, drain, drain_current, start, promote, allocate_cell, ensure, find_or_create,
  load_or_store, apply_role,
}
use ai_gateway_epp.Cell.Apply.{swap_engine, apply_config, compile_and_swap}

-- A call that leaves the drains alone or schedules one.
abbrev pub Scheduled : World → World → Type 0
Scheduled w u =
    (length w.queue ≤ drain_capacity → length u.queue ≤ drain_capacity) × (u.draining ≡ w.draining)

module _ (w : World) where
  schedule_drain-Scheduled :
      (c e : ℕ) (teardown : Bool) → Scheduled w (schedule_drain w c e teardown)
  unfolding schedule_drain drain finish_drain compare_and_delete
  schedule_drain-Scheduled c e teardown = (
    λ h.
        ground
          (arith, length-append w.queue (record { cell = c; eng = e; teardown = teardown } ∷ [])),
    ground arith,
  )

  Scheduled-same : (u : World) → u.queue ≡ w.queue → u.draining ≡ w.draining → Scheduled w u
  Scheduled-same u h k = (λ l. rw h l, k)

pub demote-Scheduled : (w : World) (key : Str) → Scheduled w (demote w key)
unfolding demote drain_current
demote-Scheduled w key = elim (Option-cases (get w key)) [
  | inl missing ↦ Scheduled-same w (demote w key) (ground arith) (ground arith)
  | inr (c, found) ↦ elim (Option-cases (w.cells c).engine) [
    | inl idle ↦ Scheduled-same w (demote w key) (ground arith) (ground arith)
    | inr (e, busy) ↦ (
      λ h. ground (arith, (schedule_drain-Scheduled (modify_cell w c demote_cell) c e false).0 h),
      ground (arith, (schedule_drain-Scheduled (modify_cell w c demote_cell) c e false).1),
    )
  ]
]

pub drop-Scheduled : (w : World) (key : Str) → Scheduled w (drop w key)
unfolding drop drain_current compare_and_delete
drop-Scheduled w key = elim (Option-cases (get w key)) [
  | inl missing ↦ Scheduled-same w (drop w key) (ground arith) (ground arith)
  | inr (c, found) ↦ elim (Option-cases (w.cells c).engine) [
    | inl idle ↦ Scheduled-same w (drop w key) (ground arith) (ground arith)
    | inr (e, busy) ↦
        let s = schedule_drain-Scheduled (modify_cell w c (set_state state_draining)) c e true in
        (λ h. ground (arith, s.0 h), ground (arith, s.1))
  ]
]

pub promote-Scheduled : (w : World) (key : Str) → Scheduled w (promote w key)
unfolding promote
promote-Scheduled w key = Scheduled-same w (promote w key) (ground arith) (ground arith)

apply_role-Scheduled :
    (w : World) (key : Str) (c : ℕ) (role : Role) → Scheduled w (apply_role w key c role)
unfolding apply_role
apply_role-Scheduled w key c role =
    let s = promote-Scheduled w key in
    let t = demote-Scheduled w key in (λ h. ground (arith, s.0 h, t.0 h), ground (arith, s.1, t.1))

find_or_create-queue :
    (o : Options) (w : World) (key : Str) (u : World) (c : ℕ)
    → find_or_create o w key ≡ some (u, c)
    → (u.queue ≡ w.queue) × (u.draining ≡ w.draining)
unfolding find_or_create load_or_store allocate_cell
find_or_create-queue o w key u c h = (ground arith, ground arith)

pub ensure-Scheduled :
    (o : Options) (w : World) (key : Str) (role : Role) → Scheduled w (ensure o w key role).0
unfolding ensure
ensure-Scheduled o w key role = elim (Option-cases (find_or_create o w key)) [
  | inl refused ↦ Scheduled-same w (ensure o w key role).0 (ground arith) (ground arith)
  | inr ((u, c), found) ↦
      let q = find_or_create-queue o w key u c found in
      let s = apply_role-Scheduled u key c role in
      rw (found, ensure) (λ h. s.0 (rw q.0 h), s.1 ∙ q.1)
]

start-Scheduled :
    (w : World) (c e : ℕ) → ((start w c e).queue ≡ w.queue) × ((start w c e).draining ≡ w.draining)
unfolding start
start-Scheduled w c e = (ground arith, ground arith)

swap_engine-Scheduled :
    (w : World) (c : ℕ) (hash : Str) (eng : Engine) → Scheduled w (swap_engine w c hash eng)
unfolding swap_engine
swap_engine-Scheduled w c hash eng =
    let u : World = record w {
      engines = update w.engines w.next_engine eng;
      next_engine = w.next_engine + 1;
      cells =
          update w.cells c
            (record (w.cells c) { engine = some w.next_engine; current_hash = some hash });
    } in
    let s = start-Scheduled u c w.next_engine in
    elim (Option-cases (w.cells c).engine) [
      | inl first ↦ rw (first, swap_engine) (Scheduled-same w (start u c w.next_engine) s.0 s.1)
      | inr (old, had) ↦
          let d = schedule_drain-Scheduled (start u c w.next_engine) c old false in
          rw (had, swap_engine) (λ h. d.0 (rw s.0 h), d.1 ∙ s.1)
    ]

pub apply_config-Scheduled :
    (o : Options) (w : World) (key raw : Str) → Scheduled w (apply_config o w key raw).0
unfolding apply_config compile_and_swap
apply_config-Scheduled o w key raw = elim (Option-cases (get w key)) [
  | inl missing ↦ Scheduled-same w (apply_config o w key raw).0 (ground arith) (ground arith)
  | inr (c, found) ↦ elim (Option-cases (o.compile key raw (w.cells c).plane).1) [
    | inl broken ↦ Scheduled-same w (apply_config o w key raw).0 (ground arith) (ground arith)
    | inr (eng, built) ↦
        let u =
          modify_cell w c (λ d. record d { plane = (o.compile key raw (w.cells c).plane).0 }) in
        let s = swap_engine-Scheduled u c (o.hash raw) eng in
        (λ h. ground (arith, s.0 h), ground (arith, s.1))
  ]
]
