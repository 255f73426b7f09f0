-- ===== src/Region/Control.antt =====
-- The header of a control region in slotbus/src/region.rs: `init_control` lays it out in a mapping,
-- and `validate_control` reads it back in another process.
pub mod Handshake
use slotbus.Base.{ℕ, ◌+◌, ◌<◌, ◌≡◌, if◌then◌else◌, ltb, ◌==◌, as_u32, add_usize, Bool, not}
use slotbus.Error.{
  invalid_region, mapping_too_small, bad_magic, bad_version, layout_too_large, ok, err,
}
use slotbus.Memory.{Memory, fill, write_u32, read_u32}
use slotbus.Types.{shm_magic, shm_version, compute_layout}
use slotbus.Config.{SlotBusConfig}
use slotbus.Os.{Os, World, M}
use slotbus.Region.{ShmRegion, region_memory, set_memory}

-- The six words that `init_control` writes into a zeroed region, `alloc_head` last.
unfoldable pub write_header : Memory → ℕ → ℕ → ℕ → Memory
write_header m num_slots heap_offset heap_size =
    write_u32
      (write_u32
        (write_u32
          (write_u32 (write_u32 (write_u32 m 0 shm_magic) 4 shm_version) 8 (as_u32 num_slots)) 12
          (as_u32 heap_offset))
        16 (as_u32 heap_size))
      20 0

module _ {o : Os} where
  -- The handle comes back with its layout.
  unfoldable pub init_control : ShmRegion o → SlotBusConfig → M (World o) (ShmRegion o)
  unfolding write_header
  init_control r c w =
      let heap_offset = (compute_layout c.num_slots c.region_size).0 in
      let heap_size = (compute_layout c.num_slots c.region_size).1 in
      let needed = add_usize heap_offset heap_size in
      if ltb r.len needed
      then (
        err (invalid_region (mapping_too_small r.name r.len needed c.num_slots c.region_size)),
        w,
      )
      else (
        ok (record r { num_slots = c.num_slots; heap_offset = heap_offset; heap_size = heap_size }),
        set_memory r
            (write_header (fill (region_memory r w) 0 0 r.len) c.num_slots heap_offset heap_size) w,
      )

  unfoldable pub validate_control : ShmRegion o → M (World o) (ShmRegion o)
  validate_control r w =
      let magic = read_u32 (region_memory r w) 0 in
      let version = read_u32 (region_memory r w) 4 in
      let num_slots = read_u32 (region_memory r w) 8 in
      let heap_offset = read_u32 (region_memory r w) 12 in
      let heap_size = read_u32 (region_memory r w) 16 in
      if not (magic == shm_magic)
      then (err (invalid_region (bad_magic magic)), w)
      else if not (version == shm_version)
      then (err (invalid_region (bad_version version)), w)
      else if ltb r.len (add_usize heap_offset heap_size)
      then (err (invalid_region (layout_too_large r.name r.len heap_offset heap_size)), w)
      else (
        ok (record r { num_slots = num_slots; heap_offset = heap_offset; heap_size = heap_size }),
        w,
      )
