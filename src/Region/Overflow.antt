-- ===== src/Region/Overflow.antt =====
-- The overflow regions of slotbus/src/region.rs: a payload that does not fit its arena gets a mapping
-- of its own, under the first generation whose name is free.
pub mod Fresh
pub mod Spill
use slotbus.Base.{
  ℕ, zero, suc, ◌+◌, ◌-◌, ◌≡◌, List, Option, none, some, if◌then◌else◌, ltb, length, add_usize,
  clear_low12, max, Text, [],
}
use slotbus.Error.{
  shared_memory, overflow_exists, generations_exhausted, overflow_write_too_small,
  overflow_read_too_small, Outcome, ok, err,
}
use slotbus.Memory.{store, load}
use slotbus.Types.{max_overflow_generation}
use slotbus.Config.OsName.{Target}
use slotbus.Os.{Os, World, M, ◌>>=◌, ◌>>◌, pure, fail, lift}
use slotbus.Region.{
  ShmRegion, region_memory, set_memory, open_region, drop_region, create_exclusive,
}

unfoldable pub overflow_size_for : ℕ → ℕ
overflow_size_for len = max (clear_low12 (add_usize len 4095)) 4096

module _ {o : Os} (target : Target) where
  -- A region that is too short is dropped on the way out.
  unfoldable pub fill_overflow : ShmRegion o → Text → List ℕ → M (World o) (ShmRegion o)
  fill_overflow r name bytes w =
      if ltb r.len (length bytes)
      then (do
        drop_region r
        fail (shared_memory (overflow_write_too_small name (length bytes) r.len)))
          w
      else (ok r, set_memory r (store (region_memory r w) 0 bytes) w)

  unfoldable pub create_overflow : Text → List ℕ → M (World o) (ShmRegion o)
  create_overflow name bytes =
      create_exclusive target name (overflow_size_for (length bytes)) >>= elim [
        | none ↦ fail (shared_memory (overflow_exists name (length bytes)))
        | some region ↦ fill_overflow region name bytes
      ]

  -- A region that was made is filled, and its marker is its generation plus one; if the name was
  -- taken, the next generation follows.
  unfoldable pub fill_or_next :
      Text
      → List ℕ
      → ℕ
      → M (World o) (ShmRegion o × ℕ)
      → Option (ShmRegion o)
      → M (World o) (ShmRegion o × ℕ)
  fill_or_next name bytes generation next (some region) =
      fill_overflow region name bytes >>= λ filled. pure (filled, generation + 1)
  fill_or_next name bytes generation next none = next

  -- The generations from `generation` on, `left` of them.
  unfoldable pub create_from :
      (ℕ → Outcome Text) → List ℕ → ℕ → ℕ → Text → M (World o) (ShmRegion o × ℕ)
  unfolding fill_or_next
  create_from name_for bytes zero generation last_name =
      fail (shared_memory (generations_exhausted last_name (length bytes)))
  create_from name_for bytes (suc left) generation last_name =
      lift (name_for generation) >>= λ name.
      create_exclusive target name (overflow_size_for (length bytes))
      >>= fill_or_next name bytes generation (create_from name_for bytes left (generation + 1) name)

  unfoldable pub create_overflow_fresh : (ℕ → Outcome Text) → List ℕ → M (World o) (ShmRegion o × ℕ)
  unfolding create_from
  create_overflow_fresh name_for bytes =
      create_from name_for bytes (max_overflow_generation + 1) 0 []

  -- The copy is made before the region goes out of scope.
  unfoldable pub read_mapped : ℕ → ShmRegion o → M (World o) (List ℕ)
  read_mapped len r w =
      if ltb r.len len
      then (do drop_region r; fail (shared_memory (overflow_read_too_small r.name len r.len))) w
      else (do drop_region r; pure (load (region_memory r w) 0 len)) w

  unfoldable pub read_overflow : Text → ℕ → M (World o) (List ℕ)
  unfolding read_mapped
  read_overflow name len = do region ← open_region name; read_mapped len region
