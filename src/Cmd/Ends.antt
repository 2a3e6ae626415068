-- ===== src/Cmd/Ends.antt =====
-- cmd/epp/main.go: a run whose context is done comes to its end, and keeps its first error.
use ai_gateway_epp.Cmd.Shutdown.{
  may_end, serve_grpc, clean_end, Group, RunError, run_event, run_result, first_error,
  serve_metrics, signal, end_task, Waiting, task_result, RunEvent, clean_ends, GroupLaws, task_ends,
  run_events, waiting,
}
use ai_gateway_epp.Cmd.Launch.{
  readiness_gate, ext_proc_server, metrics_server, epp_data_loop, Task, health_server,
  discovery_loop,
}
use ai_gateway_epp.Base.{
  take_at, ◌≡◌, refl, ◌∙◌, inl, inr, true, Option, none, some, List, [], ◌∷◌, arith, Bool-cases,
  Option-cases, sym, ap,
}

clean_end-may_end : (t : Task) → may_end t true (clean_end t) ≡ true
unfolding may_end clean_end
clean_end-may_end discovery_loop = refl
clean_end-may_end epp_data_loop = refl
clean_end-may_end readiness_gate = refl
clean_end-may_end (ext_proc_server b p) = refl
clean_end-may_end (health_server b p) = refl
clean_end-may_end (metrics_server b p) = refl

clean_end-task_result : (t : Task) → task_result t (clean_end t) ≡ none
unfolding task_result clean_end serve_grpc serve_metrics
clean_end-task_result discovery_loop = refl
clean_end-task_result epp_data_loop = refl
clean_end-task_result readiness_gate = refl
clean_end-task_result (ext_proc_server b p) = refl
clean_end-task_result (health_server b p) = refl
clean_end-task_result (metrics_server b p) = refl

kept_error :
    (x y : Option RunError) → ((e : RunError) → x ≡ some e → y ≡ some e) → first_error x y ≡ y
unfolding first_error
kept_error none y k = refl
kept_error (some e) y k = sym (k e refl)

module _ {ℓ} {G : Type ℓ} (g : Group G) (laws : GroupLaws g) where
  -- What a later state keeps of an earlier one: the end of the context, and the first error.
  record Follows (r q : Waiting G) : Type 0 where
    stays_done : g.is_done r.group ≡ true → g.is_done q.group ≡ true
    keeps : (e : RunError) → g.error r.group ≡ some e → g.error q.group ≡ some e

  same-Follows : (r : Waiting G) → Follows r r
  same-Follows r = record { stays_done = λ h. h; keeps = λ e h. h }

  returned-Follows :
      (r : Waiting G) (x : Option RunError) (rest : List Task)
      → Follows r (record r { group = g.returned r.group x; live = rest })
  returned-Follows r none rest = record {
    stays_done = λ h. laws.clean_done r.group ∙ h;
    keeps = λ e h. laws.clean_error r.group ∙ h;
  }
  returned-Follows r (some e) rest = record {
    stays_done = λ h. laws.failed_done r.group e;
    keeps = λ d h. ground (arith, laws.failed_error r.group e, h);
  }

  run_event-Follows : (r : Waiting G) (e : RunEvent) → Follows r (run_event g r e)
  unfolding run_event end_task
  run_event-Follows r signal = record {
    stays_done = λ h. laws.cancelled_done r.group;
    keeps = λ e h. laws.cancelled_error r.group ∙ h;
  }
  run_event-Follows r (task_ends i x) = elim (Option-cases (take_at i r.live)) [
    | inl missing ↦ rw (missing, end_task) (same-Follows r)
    | inr ((t, rest), found) ↦ elim (Bool-cases (may_end t (g.is_done r.group) x)) [
      | inr waits ↦ rw (found, end_task, waits) (same-Follows r)
      | inl ends ↦ rw (found, end_task, ends) (returned-Follows r (task_result t x) rest)
    ]
  ]

  run_events-Follows : (es : List RunEvent) (r : Waiting G) → Follows r (run_events g r es)
  unfolding run_events
  run_events-Follows [] r = same-Follows r
  run_events-Follows (e ∷ es) r =
      let f = run_event-Follows r e in
      let k = run_events-Follows es (run_event g r e) in
      record {
        stays_done = λ h. k.stays_done (f.stays_done h);
        keeps = λ d h. k.keeps d (f.keeps d h);
      }

  clean_end_first :
      (t : Task) (ts : List Task) (r : Waiting G)
      → r.live ≡ t ∷ ts
      → g.is_done r.group ≡ true
      → run_event g r (task_ends 0 (clean_end t))
        ≡ record r { group = g.returned r.group none; live = ts }
  unfolding run_event end_task take_at
  clean_end_first t ts r left over =
      ground (arith, left, over, clean_end-may_end t, clean_end-task_result t)

  -- The remaining goroutines end one after the other.
  clean_ends-finish :
      (ts : List Task) (r : Waiting G)
      → r.live ≡ ts
      → g.is_done r.group ≡ true
      → run_result g (run_events g r (clean_ends ts))
        ≡ some (record { ext_proc_stopped = true; health_stopped = true; result = g.error r.group })
  unfolding run_events clean_ends run_result
  clean_ends-finish [] r left over = ground arith
  clean_ends-finish (t ∷ ts) r left over =
      let q : Waiting G = record r { group = g.returned r.group none; live = ts } in
      let rest = clean_ends-finish ts q refl (laws.clean_done r.group ∙ over) in
      ap (λ x. run_result g (run_events g x (clean_ends ts))) (clean_end_first t ts r left over)
      ∙ (rw (laws.clean_error r.group) at rest)

  -- Let run have started its goroutines, and any signals and ends of goroutines have led to a state r in
  -- which the context is done, and any more of them to a state q. The goroutines that are left in
  -- q can all end without an error, one after the other, and run returns then, with both gRPC
  -- servers stopped and with the error that the group had in r, or if there was none, the one that
  -- it has in q. The error group is any that does what its documentation says.
  pub run_result-clean_ends :
      (ts : List Task) (es later : List RunEvent)
      → g.is_done (run_events g (waiting g ts) es).group ≡ true
      → let r = run_events g (waiting g ts) es in
        let q = run_events g r later in
        run_result g (run_events g q (clean_ends q.live))
        ≡ some (record {
          ext_proc_stopped = true;
          health_stopped = true;
          result = first_error (g.error r.group) (g.error q.group);
        })
  run_result-clean_ends ts es later over =
      let r = run_events g (waiting g ts) es in
      let q = run_events g r later in
      let f = run_events-Follows later r in
      rw (kept_error (g.error r.group) (g.error q.group) f.keeps)
        (clean_ends-finish q.live q refl (f.stays_done over))
