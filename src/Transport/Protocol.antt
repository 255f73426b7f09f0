-- ===== src/Transport/Protocol.antt =====
-- The life of a slot, between the hub, the worker and the watcher of slotbus/src/transport.rs.
use slotbus.Base.{ℕ}
use slotbus.Types.{slot_free, slot_ready, slot_claimed, slot_done, slot_writing}

-- From which status to which a slot goes. The hub claims, publishes or gives up; the worker takes,
-- answers or gives up; the watcher collects.
pub data Turn : ℕ → ℕ → Type 0 where
  claim : Turn slot_free slot_writing
  publish : Turn slot_writing slot_ready
  abandon : Turn slot_writing slot_free
  take : Turn slot_ready slot_claimed
  answer : Turn slot_claimed slot_done
  give_up : Turn slot_claimed slot_free
  collect : Turn slot_done slot_free
