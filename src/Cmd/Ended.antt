-- ===== src/Cmd/Ended.antt =====
-- cmd/epp/main.go: when run returns, what it returns, and that a cancelled run comes to its end.
use ai_gateway_epp.Cmd.Compose.{
  server_options, ServerOptions, plaintext, not_together, not_loaded, with_creds,
}
use ai_gateway_epp.Cmd.Launch.{
  run_epp, start_tasks, check_options, epp_data_loop, health_server, metrics_server, discovery_loop,
  ext_proc_server, readiness_gate, Task, Started, started,
}
use ai_gateway_epp.Cell.Compile.{Router}
use ai_gateway_epp.Cmd.Shutdown.{
  end_task, GroupLaws, RunError, Ending, may_end, server_stopped, context_done, no_listener, Group,
  Waiting, gate_opened, server_failed, task_result, run_result, run_events, task_ends, Returned,
  RunEvent, signal, run_event, waiting,
}
use ai_gateway_epp.Base.{
  take_at, ℕ, zero, suc, ◌≡◌, refl, sym, ◌∙◌, ◌≢◌, ◌⊎◌, inl, inr, Bool, true, false, ◌||◌, Option,
  none, some, List, [], ◌∷◌, arith, Bool-cases, Option-cases, Str,
}
use ai_gateway_epp.Cmd.Config.{Config}

-- Whether the loop of the cluster table is among the goroutines.
has_loop : List Task → Bool
has_loop [] = false
has_loop (discovery_loop ∷ ts) = true
has_loop (_ ∷ ts) = has_loop ts

abbrev is_loop : Task → Bool
is_loop discovery_loop = true
is_loop _ = false

has_loop-cons : (t : Task) (ts : List Task) → has_loop (t ∷ ts) ≡ is_loop t || has_loop ts
unfolding has_loop
has_loop-cons discovery_loop ts = refl
has_loop-cons epp_data_loop ts = refl
has_loop-cons readiness_gate ts = refl
has_loop-cons (ext_proc_server b p) ts = refl
has_loop-cons (health_server b p) ts = refl
has_loop-cons (metrics_server b p) ts = refl

has_loop-take_at :
    (i : ℕ) (ts : List Task) (t : Task) (rest : List Task)
    → take_at i ts ≡ some (t, rest)
    → has_loop ts ≡ is_loop t || has_loop rest
unfolding take_at
has_loop-take_at i [] t rest e = ground arith
has_loop-take_at zero (u ∷ ts) t rest e = ground (arith, has_loop-cons u ts)
has_loop-take_at (suc i) (u ∷ ts) t rest e = elim (Option-cases (take_at i ts)) [
  | inl missing ↦ ground arith
  | inr ((v, vs), found) ↦
      ground (arith, has_loop-take_at i ts v vs found, has_loop-cons u ts, has_loop-cons u vs)
]

loop_waits : (t : Task) (x : Ending) → is_loop t ≡ true → may_end t false x ≡ false
unfolding may_end
loop_waits discovery_loop (no_listener e) h = refl
loop_waits discovery_loop (server_failed e) h = refl
loop_waits discovery_loop server_stopped h = refl
loop_waits discovery_loop context_done h = refl
loop_waits discovery_loop gate_opened h = refl
loop_waits epp_data_loop x h = ground arith
loop_waits readiness_gate x h = ground arith
loop_waits (ext_proc_server b p) x h = ground arith
loop_waits (health_server b p) x h = ground arith
loop_waits (metrics_server b p) x h = ground arith

module _ {ℓ} {G : Type ℓ} (g : Group G) (laws : GroupLaws g) where
  -- The context ends by a signal or an error, and the loop stays until it does.
  record Sound (r : Waiting G) : Type 0 where
    cause : g.is_done r.group ≡ true → (r.signalled ≡ true) ⊎ (g.error r.group ≢ none)
    loop : (has_loop r.live ≡ true) ⊎ (g.is_done r.group ≡ true)

  end_task-Sound : (r : Waiting G) (i : ℕ) (x : Ending) → Sound r → Sound (end_task g r i x)
  unfolding end_task
  end_task-Sound r i x s = elim (Option-cases (take_at i r.live)) [
    | inl missing ↦ rw (missing, end_task) s
    | inr ((t, rest), found) ↦ elim (Bool-cases (may_end t (g.is_done r.group) x)) [
      | inr waits ↦ rw (found, end_task, waits) s
      | inl ends ↦ rw (found, end_task, ends) (ended t rest (task_result t x) found ends)
    ]
  ]
    where
      ended :
          (t : Task) (rest : List Task) (e : Option RunError)
          → take_at i r.live ≡ some (t, rest)
          → may_end t (g.is_done r.group) x ≡ true
          → Sound (record r { group = g.returned r.group e; live = rest })
      ended t rest none found ends = record {
        cause = λ h. elim (s.cause (sym (laws.clean_done r.group) ∙ h)) [
          | inl sig ↦ inl sig
          | inr err ↦ inr (λ n. err (sym (laws.clean_error r.group) ∙ n))
        ];
        loop = elim (Bool-cases (g.is_done r.group)) [
          | inl over ↦ inr (laws.clean_done r.group ∙ over)
          | inr running ↦ inl (
              ground (
                arith,
                running,
                s.loop,
                has_loop-take_at i r.live t rest found,
                loop_waits t x,
                ends,
              ))
        ];
      }
      ended t rest (some e) found ends = record {
        cause = λ h. inr (λ n. ground (arith, laws.failed_error r.group e, n));
        loop = inr (laws.failed_done r.group e);
      }

  run_event-Sound : (r : Waiting G) (e : RunEvent) → Sound r → Sound (run_event g r e)
  unfolding run_event
  run_event-Sound r signal s = record {
    cause = λ h. inl refl;
    loop = inr (laws.cancelled_done r.group);
  }
  run_event-Sound r (task_ends i x) s = end_task-Sound r i x s

  run_events-Sound : (es : List RunEvent) (r : Waiting G) → Sound r → Sound (run_events g r es)
  unfolding run_events
  run_events-Sound [] r s = s
  run_events-Sound (e ∷ es) r s = run_events-Sound es (run_event g r e) (run_event-Sound r e s)

  waiting-Sound : (ts : List Task) → has_loop ts ≡ true → Sound (waiting g ts)
  waiting-Sound ts h = record { cause = λ d. ground (arith, d, laws.new_open); loop = inl h }

  result-cause :
      (r : Waiting G) (f : Returned)
      → Sound r
      → run_result g r ≡ some f
      → (f.ext_proc_stopped ≡ true)
        × (f.health_stopped ≡ true)
        × ((r.signalled ≡ true) ⊎ (f.result ≢ none))
  unfolding run_result has_loop
  result-cause r f s over = go r.live refl
    where
      go :
          (ts : List Task)
          → r.live ≡ ts
          → (f.ext_proc_stopped ≡ true)
            × (f.health_stopped ≡ true)
            × ((r.signalled ≡ true) ⊎ (f.result ≢ none))
      go (t ∷ ts) left = ground (arith, left, over)
      go [] left =
          let done_now : g.is_done r.group ≡ true = ground (arith, left, s.loop) in
          (
            ground (arith, left, over),
            ground (arith, left, over),
            elim (s.cause done_now) [
              | inl sig ↦ inl sig
              | inr err ↦ inr (λ n. err (ground (arith, left, over, n)))
            ],
          )

module _ {ℓ κ} {G : Type ℓ} {C : Type κ} (g : Group G) (laws : GroupLaws g)
    (load : Str → Str → Option C) (join : Str → Str → Str) (router : Router) (cfg : Config)
    (v verbose : Bool) (s : Started C)
    (launched : run_epp load join router cfg v verbose ≡ started s) where
  launched-has_loop : has_loop s.tasks ≡ true
  unfolding has_loop run_epp check_options start_tasks
  launched-has_loop = by_options (server_options load cfg) refl
    where
      by_options : (p : ServerOptions C) → server_options load cfg ≡ p → has_loop s.tasks ≡ true
      by_options plaintext q = ground (arith, q, launched)
      by_options not_together q = ground (arith, q, launched)
      by_options not_loaded q = ground (arith, q, launched)
      by_options (with_creds c) q = ground (arith, q, launched)

  -- Let run have started its goroutines, and any signals and ends of goroutines have followed. If run
  -- returns then, it has stopped both gRPC servers, and a signal has come or it returns the error
  -- of a goroutine. The error group is any that does what its documentation says.
  pub run_result-cause :
      (es : List RunEvent) (f : Returned)
      → run_result g (run_events g (waiting g s.tasks) es) ≡ some f
      → (f.ext_proc_stopped ≡ true)
        × (f.health_stopped ≡ true)
        × (((run_events g (waiting g s.tasks) es).signalled ≡ true) ⊎ (f.result ≢ none))
  run_result-cause es f over =
      result-cause g laws _ f
        (run_events-Sound g laws es _ (waiting-Sound g laws s.tasks launched-has_loop)) over
