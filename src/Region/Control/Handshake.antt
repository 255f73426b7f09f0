-- ===== src/Region/Control/Handshake.antt =====
-- The hub lays a control region out, and a worker reads the same layout; neither goes on with a
-- layout that the mapping cannot hold.
use slotbus.Base.{
  ℕ, ◌+◌, ◌-◌, ◌*◌, ◌≤◌, ◌<◌, ◌≡◌, refl, ap, arith, u32_mod, as_u32, ==_iff, lt→ltb, le→not-ltb,
  add_usize,
}
use slotbus.Error.{invalid_region, mapping_too_small, Outcome, ok, err}
use slotbus.Memory.{Memory, store, read_u32, write_u32, fill}
use slotbus.Memory.Laws.{read_u32-lt}
use slotbus.Types.{shm_magic, shm_version}
use slotbus.Types.Arenas.{compute_layout_lem}
use slotbus.Config.{SlotBusConfig}
use slotbus.Os.{Os, World}
use slotbus.Region.{ShmRegion, region_memory, set_memory}
use slotbus.Region.Control.{write_header, init_control, validate_control}

-- The words of a header.
pub record Header (m : Memory) (num_slots heap_offset heap_size : ℕ) : Type 0 where
  pub magic : read_u32 m 0 ≡ shm_magic
  pub version : read_u32 m 4 ≡ shm_version
  pub slots : read_u32 m 8 ≡ num_slots
  pub offset : read_u32 m 12 ≡ heap_offset
  pub size : read_u32 m 16 ≡ heap_size

pub write_header-Header :
    (m : Memory) (n ho hs : ℕ) → Header (write_header m n ho hs) (as_u32 n) (as_u32 ho) (as_u32 hs)
unfolding write_header write_u32 read_u32 store
write_header-Header m n ho hs = record {
  magic = refl;
  version = refl;
  slots = omega arith;
  offset = omega arith;
  size = omega arith;
}

-- The layout that a configuration asks for, with no sum that wraps.
abbrev pub table_end : SlotBusConfig → ℕ
table_end c = 64 + c.num_slots * 128

abbrev pub heap_room : SlotBusConfig → ℕ
heap_room c = c.region_size - table_end c

-- The header and the slots take less than 4 GiB, and so does the region.
abbrev pub IsMeasured : SlotBusConfig → Type 0
IsMeasured c = (table_end c < u32_mod) × (c.region_size < u32_mod)

-- A handle with the layout of a configuration.
abbrev pub laid_out : {o : Os} → ShmRegion o → SlotBusConfig → ShmRegion o
laid_out r c = record r {
  num_slots = c.num_slots;
  heap_offset = table_end c;
  heap_size = heap_room c;
}

module _ {o : Os} where
  pub validate_control_lem :
      (r : ShmRegion o) (w : World o) (n ho hs : ℕ)
      → Header (region_memory r w) n ho hs
      → add_usize ho hs ≤ r.len
      → validate_control r w
        ≡ (ok (record r { num_slots = n; heap_offset = ho; heap_size = hs }), w)
  unfolding validate_control
  validate_control_lem r w n ho hs h fits =
      rw (h.magic, h.version, h.slots, h.offset, h.size, le→not-ltb r.len (add_usize ho hs) fits)

  set_memory_self :
      (r : ShmRegion o) (m : Memory) (w : World o) → region_memory r (set_memory r m w) ≡ m
  set_memory_self r m w = rw ((==_iff r.ptr r.ptr).1 refl)

  pub init_control_ok :
      (r : ShmRegion o) (c : SlotBusConfig) (w : World o)
      → IsMeasured c
      → table_end c + heap_room c ≤ r.len
      → init_control r c w ≡ (
        ok (laid_out r c),
        set_memory r
            (write_header
              (fill (region_memory r w) 0 0 r.len)
              c.num_slots
              (table_end c)
              (heap_room c))
            w,
      )
  unfolding init_control
  init_control_ok r c w h fits =
      let layout = compute_layout_lem c.num_slots c.region_size (omega arith) in
      let needed : add_usize (table_end c) (heap_room c) ≤ r.len = omega arith in
      rw (layout.0, layout.1, le→not-ltb r.len (add_usize (table_end c) (heap_room c)) needed)

  -- Where the table and the region of a configuration are less than 4 GiB each, and the mapping
  -- is shorter than the layout needs, `init_control` gives an error and nothing changes.
  pub init_control_refuses :
      (r : ShmRegion o) (c : SlotBusConfig) (w : World o)
      → IsMeasured c
      → r.len < table_end c + heap_room c
      → init_control r c w ≡ (
        err (
            invalid_region (
              mapping_too_small r.name r.len
                (table_end c + heap_room c)
                c.num_slots
                c.region_size)),
        w,
      )
  unfolding init_control
  init_control_refuses r c w h short =
      let layout = compute_layout_lem c.num_slots c.region_size (omega arith) in
      let sum : add_usize (table_end c) (heap_room c) ≡ table_end c + heap_room c = omega arith in
      rw (layout.0, layout.1, sum, lt→ltb r.len (table_end c + heap_room c) short)

  -- Where the table and the region of a configuration are less than 4 GiB each, and the mapping
  -- holds the layout, `init_control` succeeds, and `validate_control` on any handle with the
  -- same address and length then succeeds with the same number of slots, heap offset and heap
  -- size, and changes nothing.
  pub validate_control-init_control :
      (r r' : ShmRegion o) (c : SlotBusConfig) (w : World o)
      → IsMeasured c
      → table_end c + heap_room c ≤ r.len
      → r'.ptr ≡ r.ptr
      → r'.len ≡ r.len
      → let w' = (init_control r c w).1 in
        ((init_control r c w).0 ≡ ok (laid_out r c))
        × (validate_control r' w' ≡ (ok (laid_out r' c), w'))
  validate_control-init_control r r' c w h fits same_ptr same_len =
      let layout = init_control_ok r c w h fits in
      let cleared = fill (region_memory r w) 0 0 r.len in
      let m = write_header cleared c.num_slots (table_end c) (heap_room c) in
      let words = write_header-Header cleared c.num_slots (table_end c) (heap_room c) in
      (
        ap (λ (p : Outcome (ShmRegion o) × World o). p.0) layout,
        rw layout (
            validate_control_lem r' (set_memory r m w) c.num_slots (table_end c) (heap_room c)
              (seen m words) (omega arith)),
      )
    where
      seen :
          (m : Memory)
          → Header m (as_u32 c.num_slots) (as_u32 (table_end c)) (as_u32 (heap_room c))
          → Header (region_memory r' (set_memory r m w)) c.num_slots (table_end c) (heap_room c)
      seen m words =
          rw (same_ptr, set_memory_self r m w)
            (record {
              magic = words.magic;
              version = words.version;
              slots = omega (arith, words.slots);
              offset = omega (arith, words.offset);
              size = omega (arith, words.size);
            })

  -- Whatever bytes the mapping holds: where `validate_control` succeeds, the mapping begins with
  -- the magic number and the version, the heap of the resulting handle ends inside the mapping,
  -- and nothing has changed.
  pub validate_control_sound :
      (r q : ShmRegion o) (w w' : World o)
      → ((x : ℕ) → region_memory r w x < 256)
      → validate_control r w ≡ (ok q, w')
      → (read_u32 (region_memory r w) 0 ≡ shm_magic)
        × (read_u32 (region_memory r w) 4 ≡ shm_version)
        × (q.heap_offset + q.heap_size ≤ q.len)
        × (q.ptr ≡ r.ptr)
        × (w' ≡ w)
  unfolding validate_control
  validate_control_sound r q w w' bytes h =
      ground
        (arith, read_u32-lt (region_memory r w) 12 bytes, read_u32-lt (region_memory r w) 16 bytes)
