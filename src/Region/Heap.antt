-- ===== src/Region/Heap.antt =====
-- The inline heap of a control region in slotbus/src/region.rs: checked reads and writes, and where a
-- payload goes in the arena of its slot.
pub mod Access
use slotbus.Base.{
  ℕ, ◌+◌, ◌≤◌, ◌<◌, ◌≡◌, List, Option, none, some, if◌then◌else◌, ltb, leb, length, checked_add,
  add_usize, saturating_sub, as_u32, min,
}
use slotbus.Error.{invalid_region, heap_read_out_of_bounds, heap_write_out_of_bounds, ok, err}
use slotbus.Memory.{store, load}
use slotbus.Types.{Halves}
use slotbus.Types as T
use slotbus.Os.{Os, World, M}
use slotbus.Region.{ShmRegion, region_memory, set_memory}

-- Where a body goes behind `meta_len` bytes of metadata; `none` if it does not fit.
unfoldable pub arena_body_offset : ℕ → ℕ → ℕ → ℕ → Option ℕ
arena_body_offset base size meta_len body_len =
    let start = add_usize base (T.align8 meta_len) in
    elim (checked_add start body_len) [
      | none ↦ none
      | some last ↦ if leb last (add_usize base size) then some (as_u32 start) else none
    ]

module _ {o : Os} where
  -- The unchecked access behind a check.
  abbrev heap_read : ShmRegion o → ℕ → ℕ → World o → List ℕ
  heap_read r offset len w = load (region_memory r w) (r.heap_offset + offset) len

  abbrev heap_write : ShmRegion o → ℕ → List ℕ → World o → World o
  heap_write r offset bytes w =
      set_memory r (store (region_memory r w) (r.heap_offset + offset) bytes) w

  -- The end of an access, if it lies in the heap.
  unfoldable pub heap_end : ShmRegion o → ℕ → ℕ → Option ℕ
  heap_end r offset len = elim (checked_add offset len) [
    | none ↦ none
    | some last ↦ if leb last r.heap_size then some last else none
  ]

  unfoldable pub heap_read_checked : ShmRegion o → ℕ → ℕ → M (World o) (List ℕ)
  unfolding heap_end
  heap_read_checked r offset len w = elim (heap_end r offset len) [
    | some _ ↦ (ok (heap_read r offset len w), w)
    | none ↦ (err (invalid_region (heap_read_out_of_bounds offset len r.heap_size)), w)
  ]

  unfoldable pub heap_write_checked : ShmRegion o → ℕ → List ℕ → M (World o) (Unit {0})
  unfolding heap_end
  heap_write_checked r offset bytes w = elim (heap_end r offset (length bytes)) [
    | some _ ↦ (ok tt, heap_write r offset bytes w)
    | none ↦
        (err (invalid_region (heap_write_out_of_bounds offset (length bytes) r.heap_size r.ptr)), w)
  ]

  unfoldable pub slot_arenas : ShmRegion o → ℕ → Halves
  slot_arenas r slot_index = T.slot_arenas slot_index r.num_slots r.heap_size

  unfoldable pub inline_body_capacity : ShmRegion o → ℕ → ℕ
  unfolding slot_arenas
  inline_body_capacity r meta_len =
      let h = slot_arenas r 0 in
      saturating_sub (min h.request.size h.response.size) (T.align8 meta_len)
