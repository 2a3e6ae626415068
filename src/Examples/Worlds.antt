-- ===== src/Examples/Worlds.antt =====
-- A manager for the examples: its options, its cells, and the events that lead to them.
use ai_gateway_epp.Cell.Role.{role_primary}
use ai_gateway_epp.Cell.Model.{World, Plane}
use ai_gateway_epp.Cell.Manager.{Options}
use ai_gateway_epp.Cell.Compile.{new_engine}
use ai_gateway_epp.Cell.Events.{Event, run, ensures, configures}
use ai_gateway_epp.Cell.Reachable.{init, run_init-Inv}
use ai_gateway_epp.Cell.Invariant.{Inv}
use ai_gateway_epp.Base.{Str, codes, str_eq, true, false, none, some, List, [], ◌∷◌, if◌then◌else◌}

abbrev pub chat : Str
chat = codes "chat"

abbrev pub code_pool : Str
code_pool = codes "code"

abbrev pub config_one : Str
config_one = codes "one"

abbrev pub config_two : Str
config_two = codes "two"

abbrev pub config_bad : Str
config_bad = codes "bad"

abbrev pub new_plane : Plane
new_plane = record { data_configured = false; configures = 0 }

abbrev pub used_plane : Plane
used_plane = record { data_configured = true; configures = 1 }

abbrev pub options : Options
options = record {
  hash = λ raw. raw;
  new_cell = λ key. some new_plane;
  compile = λ key raw plane.
      if str_eq raw config_bad then (plane, none) else (used_plane, some (new_engine raw []));
  drain_workers = 4;
}

-- The pool `chat` has a primary cell with an engine; the pool `code` has no cell.
abbrev pub served_events : List Event
served_events = ensures chat role_primary ∷ configures chat config_one ∷ []

abbrev pub served : World
served = run options init served_events

abbrev pub served-Inv : Inv served
served-Inv = run_init-Inv options served_events
