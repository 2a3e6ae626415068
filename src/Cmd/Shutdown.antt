-- ===== src/Cmd/Shutdown.antt =====
-- cmd/epp/main.go: how the goroutines of run end, and how run returns after them. The error group of
-- golang.org/x/sync is a parameter, with its documented behaviour.
use ai_gateway_epp.Cmd.Launch.{
  health_server, ext_proc_server, Task, epp_data_loop, readiness_gate, metrics_server,
  discovery_loop,
}
use ai_gateway_epp.Base.{
  Str, take_at, ℤ, ℕ, ◌≡◌, Bool, true, false, Option, none, some, List, [], ◌∷◌, if◌then◌else◌,
}

-- A goroutine's error, around the error number of the call that it comes from.
pub data RunError : Type 0 where
  listen_error : Str → ℤ → ℕ → RunError
  serve_error : ℤ → ℕ → RunError
  metrics_error : ℕ → RunError

-- What a goroutine sees at its end: `net.Listen` fails; the server fails; the server was stopped; the
-- context is done; or all cells are ready.
pub data Ending : Type 0 where
  no_listener server_failed : ℕ → Ending
  server_stopped context_done gate_opened : Ending

unfoldable pub serve_grpc : Str → ℤ → Ending → Option RunError
serve_grpc bind port (no_listener e) = some (listen_error bind port e)
serve_grpc bind port (server_failed e) = some (serve_error port e)
serve_grpc bind port _ = none

-- ListenAndServe binds too; `server_stopped` is its ErrServerClosed.
unfoldable pub serve_metrics : Ending → Option RunError
serve_metrics (no_listener e) = some (metrics_error e)
serve_metrics (server_failed e) = some (metrics_error e)
serve_metrics _ = none

-- What the function that is given to `g.Go` returns.
unfoldable pub task_result : Task → Ending → Option RunError
unfolding serve_grpc serve_metrics
task_result (ext_proc_server bind port) x = serve_grpc bind port x
task_result (health_server bind port) x = serve_grpc bind port x
task_result (metrics_server bind port) x = serve_metrics x
task_result discovery_loop x = none
task_result epp_data_loop x = none
task_result readiness_gate x = none

-- The ends that a goroutine may come to. A server is stopped by the goroutine that waits for the
-- context only, and a polling loop returns when the context is done only.
unfoldable pub may_end : Task → Bool → Ending → Bool
may_end discovery_loop ended context_done = ended
may_end discovery_loop ended _ = false
may_end epp_data_loop ended context_done = ended
may_end epp_data_loop ended _ = false
may_end readiness_gate ended context_done = ended
may_end readiness_gate ended gate_opened = true
may_end readiness_gate ended _ = false
may_end _ ended (no_listener e) = true
may_end _ ended (server_failed e) = true
may_end _ ended server_stopped = ended
may_end _ ended _ = false

-- errgroup.Group with its context: whether that is done, what Wait returns, and the changes by a
-- goroutine that returns and by the end of the parent context.
pub record Group {ℓ} (G : Type ℓ) : Type ℓ where
  pub with_context : G
  pub is_done : G → Bool
  pub error : G → Option RunError
  pub returned : G → Option RunError → G
  pub cancelled : G → G

-- The documentation of WithContext and Wait: the first error of a goroutine is the group's and ends the
-- context, as the parent's end does.
pub record GroupLaws {ℓ} {G : Type ℓ} (g : Group G) : Type ℓ where
  pub new_open : g.is_done g.with_context ≡ false
  pub new_clean : g.error g.with_context ≡ none
  pub clean_done : (x : G) → g.is_done (g.returned x none) ≡ g.is_done x
  pub clean_error : (x : G) → g.error (g.returned x none) ≡ g.error x
  pub failed_done : (x : G) (e : RunError) → g.is_done (g.returned x (some e)) ≡ true
  pub failed_error :
      (x : G) (e : RunError)
      → g.error (g.returned x (some e)) ≡ (elim (g.error x) [ none ↦ some e | some d ↦ some d ])
  pub cancelled_done : (x : G) → g.is_done (g.cancelled x) ≡ true
  pub cancelled_error : (x : G) → g.error (g.cancelled x) ≡ g.error x

-- run while it waits: the group, the goroutines that have not returned, and whether a signal has come.
pub record Waiting {ℓ} (G : Type ℓ) : Type ℓ where
  pub group : G
  pub live : List Task
  pub signalled : Bool

-- A signal, or the end of the goroutine at a position.
pub data RunEvent : Type 0 where
  signal : RunEvent
  task_ends : ℕ → Ending → RunEvent

-- What run does after `g.Wait`: it stops both servers gracefully, and returns the error of the group.
pub record Returned : Type 0 where
  pub ext_proc_stopped : Bool
  pub health_stopped : Bool
  pub result : Option RunError

module _ {ℓ} {G : Type ℓ} (g : Group G) where
  -- run with the goroutines that it has started.
  abbrev pub waiting : List Task → Waiting G
  waiting ts = record { group = g.with_context; live = ts; signalled = false }

  unfoldable pub end_task : Waiting G → ℕ → Ending → Waiting G
  unfolding may_end task_result
  end_task r i x = elim (take_at i r.live) [
    | none ↦ r
    | some (t, rest) ↦
        if may_end t (g.is_done r.group) x
        then record r { group = g.returned r.group (task_result t x); live = rest }
        else r
  ]

  unfoldable pub run_event : Waiting G → RunEvent → Waiting G
  unfolding end_task
  run_event r signal = record r { group = g.cancelled r.group; signalled = true }
  run_event r (task_ends i x) = end_task r i x

  unfoldable pub run_events : Waiting G → List RunEvent → Waiting G
  unfolding run_event
  run_events r [] = r
  run_events r (e ∷ es) = run_events (run_event r e) es

  -- The end of run, once no goroutine is left.
  unfoldable pub run_result : Waiting G → Option Returned
  run_result r = elim r.live [
    | [] ↦
        some (record { ext_proc_stopped = true; health_stopped = true; result = g.error r.group })
    | _ ∷ _ ↦ none
  ]

-- How a goroutine ends when the context is done and nothing fails.
unfoldable pub clean_end : Task → Ending
clean_end discovery_loop = context_done
clean_end epp_data_loop = context_done
clean_end readiness_gate = context_done
clean_end (ext_proc_server bind port) = server_stopped
clean_end (health_server bind port) = server_stopped
clean_end (metrics_server bind port) = server_stopped

unfoldable pub clean_ends : List Task → List RunEvent
unfolding clean_end
clean_ends [] = []
clean_ends (t ∷ ts) = task_ends 0 (clean_end t) ∷ clean_ends ts

-- The first of two errors.
unfoldable pub first_error : Option RunError → Option RunError → Option RunError
first_error (some e) later = some e
first_error none later = later
