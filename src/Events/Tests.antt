-- ===== src/Events/Tests.antt =====
-- The event ring after two events.
use tux_bridge.Prelude.{[], ◌∷◌, none, List}
use tux_bridge.Events.{Emission}

abbrev two_events : List Emission
two_events =
    record { now = 1; kind = "request.started"; workspace = none; summary = []; value = [] }
    ∷ record { now = 2; kind = "request.finished"; workspace = none; summary = []; value = [] }
    ∷ []
