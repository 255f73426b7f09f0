-- ===== src/Region/Payload/Fields.antt =====
-- The fields of a payload in its slot: what they say, and what keeps a payload stored.
use slotbus.Base.{
  ℕ, ◌+◌, ◌≤◌, ◌<◌, ◌≡◌, ◌⊎◌, inl, inr, refl, ◌∙◌, arith, List, [], ◌∷◌, some, length, Text,
  u16_mod, u32_mod, false, ◌==◌, as_u32, as_u16,
}
use slotbus.Error.{Outcome}
use slotbus.Memory.{Memory, write_u32, read_u16, read_u32}
use slotbus.Memory.Laws.{
  SameOn, Apart, SameOn-trans, SameOn-sub, write_u16-SameOn, write_u32-SameOn, poke-SameOn,
  load-SameOn, read_u16-SameOn, read_u32-SameOn, read_u16-write_u16, read_u32-write_u32,
}
use slotbus.Types.{align8}
use slotbus.Types.Arenas.{align8-le}
use slotbus.Os.{Os, World}
use slotbus.Region.{ShmRegion, region_memory, set_memory}
use slotbus.Region.Heap.{arena_body_offset}
use slotbus.Region.Heap.Access.{set_memory_self}
use slotbus.Region.Overflow.Spill.{Spills}
use slotbus.Region.Payload.{put_meta_fields, put_body_fields, is_empty}
use slotbus.Region.Payload.Stored.{MetaAt, BodyAt, nowhere, inline, overflow}

-- A body that fits lies behind the metadata and inside the span.
pub arena_body_offset_lem :
    (base size meta_len body_len offset : ℕ)
    → base + size < u32_mod
    → meta_len ≤ size
    → arena_body_offset base size meta_len body_len ≡ some offset
    → (base + meta_len ≤ offset) × (offset + body_len ≤ base + size)
unfolding arena_body_offset
arena_body_offset_lem base size meta_len body_len offset small le h =
    let aligned = align8-le meta_len (omega arith) in ground arith

-- And it does fit if there is room behind the metadata, rounded up to 8.
pub arena_body_offset_total :
    (base size meta_len body_len : ℕ)
    → base + size < u32_mod
    → meta_len ≤ size
    → align8 meta_len + body_len ≤ size
    → arena_body_offset base size meta_len body_len ≡ some (base + align8 meta_len)
unfolding arena_body_offset
arena_body_offset_total base size meta_len body_len small le room =
    let aligned = align8-le meta_len (omega arith) in ground arith

pub put_meta_fields-SameOn :
    (m : Memory) (f offset len a n : ℕ)
    → Apart a n f 6
    → SameOn m (put_meta_fields m f offset len) a n
put_meta_fields-SameOn m f offset len a n h =
    SameOn-trans m _ _ a n (write_u32-SameOn m f offset a n (omega arith))
      (write_u16-SameOn (write_u32 m f offset) (f + 4) (as_u16 len) a n (omega arith))

pub put_body_fields-SameOn :
    (m : Memory) (f offset len marker a n : ℕ)
    → Apart a n (f + 8) 9
    → SameOn m (put_body_fields m f offset len marker) a n
put_body_fields-SameOn m f offset len marker a n h =
    SameOn-trans m _ _ a n (write_u32-SameOn m (f + 8) offset a n (omega arith)) (
      SameOn-trans (write_u32 m (f + 8) offset) _ _ a n
        (write_u32-SameOn (write_u32 m (f + 8) offset) (f + 12) (as_u32 len) a n (omega arith))
        (poke-SameOn (write_u32 (write_u32 m (f + 8) offset) (f + 12) (as_u32 len)) (f + 16) marker
          a n (omega arith)))

pub put_meta_fields_read :
    (m : Memory) (f offset len : ℕ)
    → offset < u32_mod
    → len < u16_mod
    → (read_u32 (put_meta_fields m f offset len) f ≡ offset)
      × (read_u16 (put_meta_fields m f offset len) (f + 4) ≡ len)
put_meta_fields_read m f offset len ho hl = (
  read_u32-SameOn (write_u32 m f offset) _ f
        (write_u16-SameOn (write_u32 m f offset) (f + 4) (as_u16 len) f 4 (omega arith))
      ∙ omega (arith, read_u32-write_u32 m f offset),
  omega (arith, read_u16-write_u16 (write_u32 m f offset) (f + 4) (as_u16 len)),
)

-- The three fields of a body, as a reader sees them.
pub record BodyFields (m : Memory) (f offset len marker : ℕ) : Type 0 where
  pub offset_field : read_u32 m (f + 8) ≡ offset
  pub len_field : read_u32 m (f + 12) ≡ len
  pub marker_field : m (f + 16) ≡ marker

pub put_body_fields_read :
    (m : Memory) (f offset len marker : ℕ)
    → offset < u32_mod
    → len < u32_mod
    → BodyFields (put_body_fields m f offset len marker) f offset len marker
put_body_fields_read m f offset len marker ho hl =
    let m1 = write_u32 m (f + 8) offset in
    let m2 = write_u32 m1 (f + 12) (as_u32 len) in
    let last = poke-SameOn m2 (f + 16) marker in
    record {
      offset_field =
          read_u32-SameOn m2 _ (f + 8) (last (f + 8) 4 (omega arith))
          ∙ (read_u32-SameOn m1 m2 (f + 8)
                (write_u32-SameOn m1 (f + 12) (as_u32 len) (f + 8) 4 (omega arith))
              ∙ omega (arith, read_u32-write_u32 m (f + 8) offset));
      len_field =
          read_u32-SameOn m2 _ (f + 12) (last (f + 12) 4 (omega arith))
          ∙ omega (arith, read_u32-write_u32 m1 (f + 12) (as_u32 len));
      marker_field = ground arith;
    }

pub body_cases : (b : List ℕ) → (b ≡ []) ⊎ ((is_empty b ≡ false) × (0 < length b))
body_cases [] = inl refl
body_cases (x ∷ xs) = inr (refl, omega arith)

module _ {o : Os} (r : ShmRegion o) where
  -- Stored metadata stays stored while its two fields and its bytes stay.
  pub MetaAt-SameOn :
      (f : ℕ) (meta : List ℕ) (m m' : Memory) (at : MetaAt r f meta m)
      → SameOn m m' f 6
      → SameOn m m' (r.heap_offset + at.offset) (length meta)
      → MetaAt r f meta m'
  MetaAt-SameOn f meta m m' at fields bytes = record {
    offset = at.offset;
    offset_field =
        read_u32-SameOn m m' f (SameOn-sub m m' f 6 f 4 (omega arith) (omega arith) fields)
        ∙ at.offset_field;
    len_field =
        read_u16-SameOn m m' (f + 4)
          (SameOn-sub m m' f 6 (f + 4) 2 (omega arith) (omega arith) fields)
        ∙ at.len_field;
    inside = at.inside;
    holds = load-SameOn m m' (r.heap_offset + at.offset) (length meta) bytes ∙ at.holds;
  }

  -- An overflow region is another mapping than the control region.
  pub Spills-set_memory :
      (name_for : ℕ → Outcome Text) (body : List ℕ) (reg : ShmRegion o) (marker : ℕ) (m : Memory)
      (v : World o)
      → Spills name_for body r.ptr reg marker v
      → Spills name_for body r.ptr reg marker (set_memory r m v)
  Spills-set_memory name_for body reg marker m v s =
      let other : (reg.ptr == r.ptr) ≡ false = ground (arith, s.apart) in
      record {
        generation = s.generation;
        marked = s.marked;
        encoded = s.encoded;
        name = s.name;
        named = s.named;
        own = s.own;
        long = s.long;
        opens = s.opens;
        apart = s.apart;
        holds = rw other (s.holds);
      }

  -- A stored body stays stored while its fields and the heap stay.
  pub BodyAt-set_memory :
      (name_for : ℕ → Outcome Text) (f : ℕ) (body : List ℕ) (m : Memory) (v : World o)
      → SameOn (region_memory r v) m (f + 8) 9
      → SameOn (region_memory r v) m r.heap_offset r.heap_size
      → BodyAt r name_for f body v
      → BodyAt r name_for f body (set_memory r m v)
  BodyAt-set_memory name_for f body m v fields heap at = stays at
    where
      len_kept : read_u32 m (f + 12) ≡ read_u32 (region_memory r v) (f + 12)
      len_kept =
          read_u32-SameOn (region_memory r v) m (f + 12) (
            SameOn-sub (region_memory r v) m (f + 8) 9 (f + 12) 4 (omega arith) (omega arith)
              fields)

      marker_kept : m (f + 16) ≡ region_memory r v (f + 16)
      marker_kept = fields (f + 16) (omega arith) (omega arith)

      stays : BodyAt r name_for f body v → BodyAt r name_for f body (set_memory r m v)
      stays (nowhere empty len) = nowhere empty (rw (set_memory_self r m v) (len_kept ∙ len))
      stays (inline i) = inline (
          rw (set_memory_self r m v) (record {
            offset = i.offset;
            some_bytes = i.some_bytes;
            offset_field =
                read_u32-SameOn (region_memory r v) m (f + 8) (
                  SameOn-sub (region_memory r v) m (f + 8) 9 (f + 8) 4 (omega arith) (omega arith)
                    fields)
                ∙ i.offset_field;
            len_field = len_kept ∙ i.len_field;
            marker_field = marker_kept ∙ i.marker_field;
            inside = i.inside;
            holds =
                load-SameOn (region_memory r v) m (r.heap_offset + i.offset) (length body) (
                  SameOn-sub (region_memory r v) m r.heap_offset r.heap_size
                    (r.heap_offset + i.offset) (length body) (omega arith) (omega (arith, i.inside))
                    heap)
                ∙ i.holds;
          }))
      stays (overflow s) = overflow (record {
        region = s.region;
        marker = s.marker;
        some_bytes = s.some_bytes;
        len_field = rw (set_memory_self r m v) (len_kept ∙ s.len_field);
        marker_field = rw (set_memory_self r m v) (marker_kept ∙ s.marker_field);
        spills = Spills-set_memory name_for body s.region s.marker m v (s.spills);
      })
