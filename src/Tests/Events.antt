-- ===== src/Tests/Events.antt =====
-- Waits for an event that nobody signals.
use slotbus.Base.{◌+◌, ◌*◌, ◌≡◌, ◌<◌, ◌≤◌, refl, arith, Option, some, Bool, true, false, ascii}
use slotbus.Config.OsName.{macos}
use slotbus.Os.{World}
use slotbus.Events.{Signals, NamedEvent, posix, timed_deadline, wait_timeout, poll}
use slotbus.Events.Deadline.{timed_deadline_lem, wait_timeout_not_early}
use slotbus.Tests.Machine.{machine}
use slotbus.Tests.Fixture.{start}
use slotbus.Tests.Runtime.{signals}

abbrev silent : Signals machine
silent = record signals { sem_trywait = λ sem s. (false, s) }

abbrev event : NamedEvent silent
event = posix 0 (ascii "/q") true

timed_deadline_lem_example :
    let until = timed_deadline silent (5, 999000000) 2500 in
    (until.0 * 1000000000 + until.1 ≡ 5 * 1000000000 + 999000000 + 2500 * 1000000)
    × (until.1 < 1000000000)
timed_deadline_lem_example =
    timed_deadline_lem silent 5 999000000 2500 (omega arith) (omega arith) (omega arith)

abbrev waited : Option Bool × World machine
waited = wait_timeout silent macos event 2 start

waited_lem : waited ≡ (some false, waited.1)
unfolding wait_timeout poll
waited_lem = refl

wait_timeout_not_early_example : 2000000 ≤ waited.1.state.now
wait_timeout_not_early_example =
    wait_timeout_not_early silent 0 (ascii "/q") true 2 start waited.1 waited_lem
