-- ===== src/Region/Requests/Refused.antt =====
-- What `write_request` does for a slot that is not in the table: it is refused, but the error path
-- frees the slot all the same.
use slotbus.Base.{ℕ, ◌+◌, ◌≤◌, ◌<◌, ◌≡◌, refl, arith, List, Option, Text}
use slotbus.Error.{invalid_region, request_index_out_of_range, Outcome, err}
use slotbus.Memory.{write_u32, store}
use slotbus.Types.{slot_free}
use slotbus.Config.{SlotBusConfig}
use slotbus.Config.OsName.{Target}
use slotbus.Os.{Os, World}
use slotbus.Region.{ShmRegion, region_memory, slot_address}
use slotbus.Region.Heap.Access.{set_memory_self}
use slotbus.Region.Slots.{store_status}
use slotbus.Region.Requests.{write_request}
use slotbus.Region.Requests.Steps.{IsControl, write_request_refuses}

module _ {o : Os} (target : Target) (r : ShmRegion o) (control : IsControl r) (req_id : Text)
    (method : ℕ) (meta_bytes body : List ℕ) (c : SlotBusConfig) (w : World o) where
  abbrev past : Outcome (Option (ShmRegion o)) × World o
  past = write_request target r r.num_slots req_id method meta_bytes body c w

  -- On a control region with its heap right behind the table, a request for the index that is equal
  -- to the number of slots is refused with an error, and the first four bytes of the heap are zero
  -- afterwards.
  pub write_request_past_table :
      (x : ℕ)
      → r.heap_offset ≤ x
      → x < r.heap_offset + 4
      → (past.0 ≡ err (invalid_region (request_index_out_of_range r.num_slots r.num_slots)))
        × (region_memory r past.1 x ≡ 0)
  unfolding store_status write_u32 store
  write_request_past_table x from below =
      let m = write_u32 (region_memory r w) (slot_address r.num_slots) slot_free in
      let zero_word : m x ≡ 0 = ground (arith, control.table) in
      rw
        (write_request_refuses target r r.num_slots req_id method meta_bytes body c w (omega arith))
        (refl, rw (set_memory_self r m w) zero_word)
