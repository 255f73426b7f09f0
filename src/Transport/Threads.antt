-- ===== src/Transport/Threads.antt =====
-- Both sides of slotbus/src/transport.rs at once: any number of threads that dispatch and that serve,
-- and the one response watcher, over the slot table of one region. A thread takes one step at a time:
-- one access to a status word, or a change that it makes to the slot it holds; the steps of different
-- threads come in any order. The accesses to the status words are taken to be sequentially consistent.
pub mod Acts
pub mod Cases
pub mod Owned
pub mod Waiting
pub mod Turns
use slotbus.Base.{ℕ, ◌<◌, ◌≡◌, Option, some, none, Bool, true, false, if◌then◌else◌, ◌==◌}
use slotbus.Types.{slot_free, slot_ready, slot_claimed, slot_done, slot_writing}
use slotbus.Os.{Os, World}
use slotbus.Region.{ShmRegion, region_memory}
use slotbus.Region.Isolation.{OthersKept}
use slotbus.Region.Slots.{load_status, store_status, exchange_status}

-- What a thread is about: it holds no slot, or writes a request into one, or serves the request in one,
-- or has seen that one is done and reads its response.
pub data Phase : Type 0 where
  idle : Phase
  filling serving collecting : ℕ → Phase

-- The slot that is held, and the status it has meanwhile.
unfoldable pub held : Phase → Option (ℕ × ℕ)
held idle = none
held (filling i) = some (i, slot_writing)
held (serving i) = some (i, slot_claimed)
held (collecting i) = some (i, slot_done)

-- How a thread gives up the slot it holds, and the status it stores then: a request is published or
-- could not be written, a response is stored, or there is none.
pub data Leaves : Phase → ℕ → ℕ → Type 0 where
  publish : (i : ℕ) → Leaves (filling i) i slot_ready
  abandon : (i : ℕ) → Leaves (filling i) i slot_free
  answer : (i : ℕ) → Leaves (serving i) i slot_done
  give_up : (i : ℕ) → Leaves (serving i) i slot_free

-- In which phase a thread writes to a slot's bytes.
pub data Writes : Phase → ℕ → Type 0 where
  request : (i : ℕ) → Writes (filling i) i
  response : (i : ℕ) → Writes (serving i) i

pub record System (o : Os) : Type 0 where
  pub world : World o
  pub phase : ℕ → Phase

-- The thread of the response watcher.
abbrev pub watcher : ℕ
watcher = 0

module _ {o : Os} where
  abbrev pub enter : ℕ → Phase → World o → System o → System o
  enter p next w s = record { world = w; phase = λ q. if q == p then next else s.phase q }

  -- `compare_exchange`, which leads to the phase `next` where it succeeds.
  unfoldable pub exchanged : ShmRegion o → ℕ → ℕ → ℕ → ℕ → Phase → System o → System o
  exchanged r p i expected new next s =
      let x = exchange_status r i expected new s.world in
      if x.0 then enter p next x.1 s else record s { world = x.1 }

  -- The watcher's look at a slot.
  unfoldable pub looked : ShmRegion o → ℕ → System o → System o
  looked r i s =
      if load_status r i s.world == slot_done then enter watcher (collecting i) s.world s else s

  -- A step of thread `p`.
  pub data Step (r : ShmRegion o) (p : ℕ) (s : System o) : System o → Type 0 where
    claim :
        (i : ℕ)
        → s.phase p ≡ idle
        → i < r.num_slots
        → Step r p s (exchanged r p i slot_free slot_writing (filling i) s)
    take :
        (i : ℕ)
        → s.phase p ≡ idle
        → i < r.num_slots
        → Step r p s (exchanged r p i slot_ready slot_claimed (serving i) s)
    look : (i : ℕ) → p ≡ watcher → s.phase p ≡ idle → i < r.num_slots → Step r p s (looked r i s)
    -- A change to the bytes of the slot that is held, but not to its status, and to no other slot.
    write :
        (i : ℕ) (w : World o)
        → Writes (s.phase p) i
        → OthersKept r i s.world w
        → load_status r i w ≡ load_status r i s.world
        → Step r p s (record s { world = w })
    -- Reads, and changes that are not to the region.
    elsewhere :
        (w : World o)
        → region_memory r w ≡ region_memory r s.world
        → Step r p s (record s { world = w })
    leave :
        (i v : ℕ)
        → Leaves (s.phase p) i v
        → Step r p s (enter p idle (store_status r i v s.world) s)
    -- An error or a panic that no code of the bus comes behind: the slot keeps its status.
    lose : Step r p s (enter p idle s.world s)
    collect :
        (i : ℕ)
        → s.phase p ≡ collecting i
        → Step r p s (enter p idle (exchange_status r i slot_done slot_free s.world).1 s)

  -- Runs of the threads that `who` allows; the last step first.
  pub data Steps (r : ShmRegion o) (who : ℕ → Type 0) (s : System o) : System o → Type 0 where
    rest : Steps r who s s
    step : (p : ℕ) (t u : System o) → who p → Steps r who s t → Step r p t u → Steps r who s u
