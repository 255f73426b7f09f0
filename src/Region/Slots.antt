-- ===== src/Region/Slots.antt =====
-- The slot table of slotbus/src/region.rs: the status words, and the search for a free slot. One
-- thread's view; what several threads do at once is a matter of single accesses to a status word.
pub mod Claim
use slotbus.Base.{
  ℕ, zero, suc, ◌+◌, ◌≡◌, Option, none, some, if◌then◌else◌, ◌==◌, Bool, true, false, not,
}
use slotbus.Error.{ok}
use slotbus.Memory.{Memory, read_u32, write_u32}
use slotbus.Types.{slot_free, slot_writing}
use slotbus.Os.{Os, World, M}
use slotbus.Region.{ShmRegion, region_memory, set_memory, slot_address}

module _ {o : Os} where
  -- `slot.status.load` and `slot.status.store`
  unfoldable pub load_status : ShmRegion o → ℕ → World o → ℕ
  load_status r index w = read_u32 (region_memory r w) (slot_address index)

  unfoldable pub store_status : ShmRegion o → ℕ → ℕ → World o → World o
  store_status r index status w =
      set_memory r (write_u32 (region_memory r w) (slot_address index) status) w

  -- `slot.status.compare_exchange(expected, new).is_ok()`
  unfoldable pub exchange_status : ShmRegion o → ℕ → ℕ → ℕ → World o → Bool × World o
  unfolding load_status store_status
  exchange_status r index expected new w =
      if load_status r index w == expected then (true, store_status r index new w) else (false, w)

  -- The slots from `index` on, `left` of them.
  claim_from : ShmRegion o → ℕ → ℕ → World o → Option ℕ × World o
  unfolding exchange_status
  claim_from r zero index w = (none, w)
  claim_from r (suc left) index w = elim (exchange_status r index slot_free slot_writing w).0 [
    | true ↦ (some index, (exchange_status r index slot_free slot_writing w).1)
    | false ↦ claim_from r left (index + 1) w
  ]

  unfoldable pub claim_free_slot : ShmRegion o → World o → Option ℕ × World o
  unfolding claim_from
  claim_free_slot r w = claim_from r r.num_slots 0 w

  find_from : ShmRegion o → ℕ → ℕ → World o → Option ℕ
  unfolding load_status
  find_from r zero index w = none
  find_from r (suc left) index w = elim (load_status r index w == slot_free) [
    | true ↦ some index
    | false ↦ find_from r left (index + 1) w
  ]

  unfoldable pub find_free_slot : ShmRegion o → World o → Option ℕ
  unfolding find_from
  find_free_slot r w = find_from r r.num_slots 0 w

  inflight_from : ShmRegion o → ℕ → ℕ → World o → Bool
  unfolding load_status
  inflight_from r zero index w = false
  inflight_from r (suc left) index w = elim (load_status r index w == slot_free) [
    | true ↦ inflight_from r left (index + 1) w
    | false ↦ true
  ]

  unfoldable pub has_inflight_slots : ShmRegion o → World o → Bool
  unfolding inflight_from
  has_inflight_slots r w = inflight_from r r.num_slots 0 w

  -- `alloc_head` of the header is the word at 20.
  unfoldable pub reset_heap : ShmRegion o → World o → World o
  reset_heap r w = set_memory r (write_u32 (region_memory r w) 20 0) w

  unfoldable pub try_reset_heap : ShmRegion o → World o → World o
  unfolding has_inflight_slots reset_heap
  try_reset_heap r w = if has_inflight_slots r w then w else reset_heap r w
