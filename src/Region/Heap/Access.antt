-- ===== src/Region/Heap/Access.antt =====
-- Checked reads and writes stay inside the heap, and a write can be read back.
use slotbus.Base.{
  ℕ, ◌+◌, ◌≤◌, ◌<◌, ◌≡◌, ◌≢◌, ◌⊎◌, inl, inr, refl, arith, List, length, some, none, ◌==◌, ==_iff,
  usize_mod, Bool-cases,
}
use native.Mathlib.Decide.{dec_le}
use slotbus.Error.{ok, err, invalid_region, heap_read_out_of_bounds, heap_write_out_of_bounds}
use slotbus.Memory.{Memory, store, load}
use slotbus.Memory.Laws.{store-SameOn, load-store}
use slotbus.Os.{Os, World}
use slotbus.Region.{ShmRegion, region_memory, set_memory}
use slotbus.Region.Heap.{heap_end, heap_read_checked, heap_write_checked}

module _ {o : Os} where
  pub set_memory_self :
      (r : ShmRegion o) (m : Memory) (w : World o) → region_memory r (set_memory r m w) ≡ m
  set_memory_self r m w = rw ((==_iff r.ptr r.ptr).1 refl)

  pub heap_end_inside :
      (r : ShmRegion o) (offset len : ℕ)
      → r.heap_size < usize_mod
      → offset + len ≤ r.heap_size
      → heap_end r offset len ≡ some (offset + len)
  unfolding heap_end
  heap_end_inside r offset len small h = ground arith

  pub heap_end_outside :
      (r : ShmRegion o) (offset len : ℕ) → r.heap_size < offset + len → heap_end r offset len ≡ none
  unfolding heap_end
  heap_end_outside r offset len h = ground arith

  pub heap_read_checked_ok :
      (r : ShmRegion o) (offset len : ℕ) (w : World o)
      → r.heap_size < usize_mod
      → offset + len ≤ r.heap_size
      → heap_read_checked r offset len w
        ≡ (ok (load (region_memory r w) (r.heap_offset + offset) len), w)
  unfolding heap_read_checked
  heap_read_checked_ok r offset len w small h =
      rw (heap_end_inside r offset len small h, heap_read_checked)

  pub heap_write_checked_ok :
      (r : ShmRegion o) (offset : ℕ) (bytes : List ℕ) (w : World o)
      → r.heap_size < usize_mod
      → offset + length bytes ≤ r.heap_size
      → heap_write_checked r offset bytes w
        ≡ (ok tt, set_memory r (store (region_memory r w) (r.heap_offset + offset) bytes) w)
  unfolding heap_write_checked
  heap_write_checked_ok r offset bytes w small h =
      rw (heap_end_inside r offset (length bytes) small h, heap_write_checked)

  -- An access past the end of the heap is refused, also where the sum of offset and length does not
  -- fit `usize`, and changes nothing.
  pub heap_access_refused :
      (r : ShmRegion o) (offset : ℕ) (bytes : List ℕ) (w : World o)
      → r.heap_size < offset + length bytes
      → (heap_read_checked r offset (length bytes) w
          ≡ (err (invalid_region (heap_read_out_of_bounds offset (length bytes) r.heap_size)), w))
        × (heap_write_checked r offset bytes w ≡ (
          err (invalid_region (heap_write_out_of_bounds offset (length bytes) r.heap_size r.ptr)),
          w,
        ))
  unfolding heap_read_checked heap_write_checked
  heap_access_refused r offset bytes w h =
      let refused = heap_end_outside r offset (length bytes) h in
      (rw (refused, heap_read_checked), rw (refused, heap_write_checked))

  -- With a heap size that `usize` holds: a checked write, whether it goes through or not, leaves
  -- every byte outside the heap as it was, and every other mapping.
  pub heap_write_checked_confined :
      (r : ShmRegion o) (offset : ℕ) (bytes : List ℕ) (w : World o) (p x : ℕ)
      → r.heap_size < usize_mod
      → ((p ≢ r.ptr) ⊎ ((x < r.heap_offset) ⊎ (r.heap_offset + r.heap_size ≤ x)))
      → (heap_write_checked r offset bytes w).1.memory p x ≡ w.memory p x
  heap_write_checked_confined r offset bytes w p x small h =
      elim (dec_le (offset + length bytes) r.heap_size) [
        | yes inside ↦
            rw (heap_write_checked_ok r offset bytes w small inside)
              (elim (Bool-cases (p == r.ptr)) [
                | inl same ↦
                    rw (same, (==_iff p r.ptr).0 same)
                      (store-SameOn (region_memory r w) (r.heap_offset + offset) bytes x 1
                        (ground arith) x (omega arith) (omega arith))
                | inr other ↦ rw other
              ])
        | no outside ↦ rw ((heap_access_refused r offset bytes w (omega arith)).1)
      ]

  -- With a heap size that `usize` holds: what a checked write puts inside the heap, a checked
  -- read at the same offset gives back.
  pub heap_read_checked-heap_write_checked :
      (r : ShmRegion o) (offset : ℕ) (bytes : List ℕ) (w : World o)
      → r.heap_size < usize_mod
      → offset + length bytes ≤ r.heap_size
      → (heap_read_checked r offset (length bytes) (heap_write_checked r offset bytes w).1).0
        ≡ ok bytes
  heap_read_checked-heap_write_checked r offset bytes w small h = rw (
    heap_write_checked_ok r offset bytes w small h,
    heap_read_checked_ok r offset (length bytes)
        (set_memory r (store (region_memory r w) (r.heap_offset + offset) bytes) w) small h,
    set_memory_self r (store (region_memory r w) (r.heap_offset + offset) bytes) w,
    load-store,
  )
