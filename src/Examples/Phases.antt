-- ===== src/Examples/Phases.antt =====
-- A stream that is paused, as a step of its state machine.
use conduit_contracts.Base.{◌≡◌, refl, some, ok}
use conduit_contracts.Stream.Storage.{StreamInfo}
use conduit_contracts.Stream.Run.{Op, apply}
use conduit_contracts.Stream.Phases.{Edge, phase_of, apply_follows_phases}
use conduit_contracts.Examples.Fixtures.{terms, live}
use conduit_contracts.Examples.Table.{table_host}
use conduit_contracts.Examples.States.{after_pause, pause_runs, terms-IsValid}

pausing : apply Op.pause live ≡ ok (tt, after_pause)
unfolding apply
pausing = pause_runs

apply_follows_phases_example :
    (after : StreamInfo) × (after_pause.store.config ≡ some after)
    × Edge Op.pause (phase_of terms) (phase_of after)
apply_follows_phases_example =
    apply_follows_phases Op.pause live after_pause terms refl terms-IsValid pausing
