-- ===== src/Region/Allocation.antt =====
-- `alloc_heap` of slotbus/src/region.rs, the bump allocator over the header's `alloc_head` (the word at
-- 20): a loop of compare-and-exchange. Between the load and the exchange of a round, other threads may
-- change the world; each element of a list of interferences is one such change, and a round with no
-- element left is undisturbed.
pub mod Reserve
use slotbus.Base.{
  ℕ, ◌+◌, ◌≤◌, ◌<◌, ◌≡◌, ◌⊎◌, inl, inr, refl, arith, List, [], ◌∷◌, Option, none, some,
  if◌then◌else◌, ltb, ◌==◌, as_u32, add_usize, clear_low3, Bool, true, false, Bool-cases, u32_mod,
  usize_mod,
}
use slotbus.Memory.{read_u32, write_u32}
use slotbus.Memory.Laws.{read_u32-write_u32}
use slotbus.Os.{Os, World}
use slotbus.Region.{ShmRegion, region_memory, set_memory}
use slotbus.Region.Heap.Access.{set_memory_self}

module _ {o : Os} where
  unfoldable pub load_head : ShmRegion o → World o → ℕ
  load_head r w = read_u32 (region_memory r w) 20

  -- `alloc_head.compare_exchange(expected, new).is_ok()`
  unfoldable pub exchange_head : ShmRegion o → ℕ → ℕ → World o → Bool × World o
  unfolding load_head
  exchange_head r expected new w =
      if load_head r w == expected
      then (true, set_memory r (write_u32 (region_memory r w) 20 new) w)
      else (false, w)

  -- A round that has loaded `head`; the exchange takes place in the world that follows.
  unfoldable pub alloc_round :
      ShmRegion o → ℕ → ℕ → (Option ℕ × World o) → World o → World o → Option ℕ × World o
  unfolding exchange_head
  alloc_round r aligned head retry loaded now =
      let new_head = add_usize head aligned in
      if ltb r.heap_size new_head
      then (none, loaded)
      else (elim (exchange_head r head (as_u32 new_head) now).0 [
        | true ↦ (some head, (exchange_head r head (as_u32 new_head) now).1)
        | false ↦ retry
      ])

  unfoldable pub alloc_heap :
      ShmRegion o → ℕ → List (World o → World o) → World o → Option ℕ × World o
  unfolding alloc_round load_head
  alloc_heap r size [] w =
      alloc_round r (clear_low3 (add_usize size 7)) (load_head r w) (none, w) w w
  alloc_heap r size (other ∷ others) w =
      alloc_round r (clear_low3 (add_usize size 7)) (load_head r w)
        (alloc_heap r size others (other w)) w (other w)
