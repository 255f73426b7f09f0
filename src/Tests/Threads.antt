-- ===== src/Tests/Threads.antt =====
-- Threads on the region of the fixture.
use slotbus.Base.{ℕ, ◌≡◌, refl, arith, ◌⊎◌, some, if◌then◌else◌, ◌==◌, true}
use slotbus.Memory.{read_u32}
use slotbus.Types.{slot_free, slot_ready, slot_claimed, slot_writing, slot_done}
use slotbus.Os.{World}
use slotbus.Region.Slots.{load_status, store_status, exchange_status}
use slotbus.Transport.Threads.{
  Phase, filling, serving, collecting, held, System, Step, Steps, rest, step, exchanged, looked,
}
use slotbus.Transport.Threads as Threads
use slotbus.Transport.Threads.Acts.{IsSystem}
use slotbus.Transport.Threads.Owned.{Steps-IsSystem, Mine, Steps-Mine, exchange_status-Steps}
use slotbus.Transport.Threads.Waiting.{Waits, Taken, Steps-Taken}
use slotbus.Transport.Threads.Turns.{Unturned, Turned, Step-Turned}
use slotbus.Tests.Machine.{machine}
use slotbus.Tests.Fixture.{hub, start, hub-IsControl}

-- No thread holds a slot, in a world `w`.
abbrev resting : World machine → System machine
resting w = record { world = w; phase = λ q. Threads.idle }

abbrev Anybody : ℕ → Type 0
Anybody q = Unit {0}

-- Thread 1 claims the first slot, and then thread 2 the second.
abbrev one : System machine
one = exchanged hub 1 0 slot_free slot_writing (filling 0) (resting start)

abbrev two : System machine
two = exchanged hub 2 1 slot_free slot_writing (filling 1) one

second_idle : one.phase 2 ≡ Threads.idle
unfolding exchanged exchange_status load_status read_u32
second_idle = refl

first_claim : Steps hub Anybody (resting start) one
first_claim = step 1 (resting start) one tt rest (Step.claim 0 refl (omega arith))

both_claim : Steps hub Anybody (resting start) two
both_claim = step 2 one two tt first_claim (Step.claim 1 second_idle (omega arith))

Steps-IsSystem_example : IsSystem hub two
Steps-IsSystem_example =
    Steps-IsSystem hub hub-IsControl Anybody (resting start) two (λ p. refl) both_claim

one-IsSystem : IsSystem hub one
one-IsSystem = Steps-IsSystem hub hub-IsControl Anybody (resting start) one (λ p. refl) first_claim

first_held : held (one.phase 1) ≡ some (0, slot_writing)
unfolding held exchanged exchange_status load_status read_u32
first_held = refl

Steps-Mine_example : Mine hub hub-IsControl 1 0 one two
Steps-Mine_example =
    Steps-Mine hub hub-IsControl 1 0 slot_writing one two one-IsSystem first_held
      (step 2 one two (omega arith) rest (Step.claim 1 second_idle (omega arith)))

-- A world in which the first slot has the status `v`, and the rest is empty.
abbrev with_first : ℕ → World machine
with_first v = record start { memory = λ p x. if x == 64 then v else 0 }

-- The watcher has seen that the first slot is done; then thread 2 claims the second.
abbrev seen : System machine
seen = looked hub 0 (resting (with_first slot_done))

abbrev seen_claimed : System machine
seen_claimed = exchanged hub 2 1 slot_free slot_writing (filling 1) seen

seen-IsSystem : IsSystem hub seen
seen-IsSystem =
    Steps-IsSystem hub hub-IsControl Anybody (resting (with_first slot_done)) seen (λ p. refl)
      (step 0 (resting (with_first slot_done)) seen tt rest (Step.look 0 refl refl (omega arith)))

collects : seen.phase 0 ≡ collecting 0
unfolding looked load_status read_u32
collects = refl

idle_beside : seen.phase 2 ≡ Threads.idle
unfolding looked load_status read_u32
idle_beside = refl

exchange_status-Steps_example :
    exchange_status hub 0 slot_done slot_free seen_claimed.world
    ≡ (true, store_status hub 0 slot_free seen_claimed.world)
exchange_status-Steps_example =
    exchange_status-Steps hub hub-IsControl 0 seen seen_claimed seen-IsSystem collects
      (step 2 seen seen_claimed (omega arith) rest (Step.claim 1 idle_beside (omega arith)))

-- The first slot is ready, and thread 3 takes its request.
abbrev ready : System machine
ready = resting (with_first slot_ready)

is_ready : load_status hub 0 (with_first slot_ready) ≡ slot_ready
unfolding load_status read_u32
is_ready = refl

-- Thread 2 claims the second slot before.
abbrev beside : System machine
beside = exchanged hub 2 1 slot_free slot_writing (filling 1) ready

abbrev took : System machine
took = exchanged hub 3 0 slot_ready slot_claimed (serving 0) beside

third_idle : beside.phase 3 ≡ Threads.idle
unfolding exchanged exchange_status load_status read_u32
third_idle = refl

taken : Steps hub Anybody ready took
taken =
    step 3 beside took tt (step 2 ready beside tt rest (Step.claim 1 refl (omega arith)))
      (Step.take 0 third_idle (omega arith))

Steps-Taken_example : Waits hub 0 ready took ⊎ Taken hub Anybody 0 ready took
Steps-Taken_example =
    Steps-Taken hub hub-IsControl Anybody 0 ready took
      (Steps-IsSystem hub hub-IsControl Anybody ready ready (λ p. refl) rest) (omega arith) is_ready
      taken

Step-Turned_example : Unturned hub one two ⊎ Turned hub 2 one two
Step-Turned_example =
    Step-Turned hub 2 one two hub-IsControl one-IsSystem (Step.claim 1 second_idle (omega arith))
