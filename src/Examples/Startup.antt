-- ===== src/Examples/Startup.antt =====
-- The theorems about cmd/epp at concrete inputs.
use ai_gateway_epp.Cmd.Health.{Turn, serving, check, gate, Opens, check-gate}
use ai_gateway_epp.Cell.Reachable.{init}
use ai_gateway_epp.Base.{codes, ◌≡◌, ◌↔◌, ◌⊎◌, true, false, some, List, [], ◌∷◌}
use ai_gateway_epp.Examples.Worlds.{served}

-- At first there is no cell, then one that is ready.
abbrev turns : List Turn
turns =
    record { first = init; second = init; stopped = false }
    ∷ record { first = served; second = served; stopped = false }
    ∷ []

check-gate_example :
    let h = (gate (record { ready = false }) (some true) turns).0 in
    (check h (codes "readiness") ≡ serving)
    ↔ ((codes "readiness" ≡ codes "liveness") ⊎ ((some true ≡ some true) × Opens turns))
check-gate_example = check-gate (some true) turns (codes "readiness")
