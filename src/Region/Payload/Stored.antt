-- ===== src/Region/Payload/Stored.antt =====
-- What it means that a payload is stored behind the fields at an address, and that a reader gets it.
use slotbus.Base.{ℕ, ◌+◌, ◌≤◌, ◌<◌, ◌≡◌, ap, arith, List, [], length, Text, u32_mod, false, ◌==◌}
use slotbus.Error.{Outcome, ok}
use slotbus.Memory.{Memory, load, read_u16, read_u32}
use slotbus.Types.Codes.{overflow_generation_lem, overflow_generation-inline}
use slotbus.Config.OsName.{Target}
use slotbus.Postcard.{Coded, coded}
use slotbus.Os.{Os, World, >>=-ok_value}
use slotbus.Region.{ShmRegion, region_memory}
use slotbus.Region.Heap.Access.{heap_read_checked_ok}
use slotbus.Region.Overflow.Spill.{Spills, read_overflow_ok}
use slotbus.Region.Payload.{read_body, read_payload}

module _ {o : Os} (r : ShmRegion o) where
  -- The metadata lies in the heap where the first two fields say.
  pub record MetaAt (f : ℕ) (meta : List ℕ) (m : Memory) : Type 0 where
    pub offset : ℕ
    pub offset_field : read_u32 m f ≡ offset
    pub len_field : read_u16 m (f + 4) ≡ length meta
    pub inside : offset + length meta ≤ r.heap_size
    pub holds : load m (r.heap_offset + offset) (length meta) ≡ meta

  pub record InlineAt (f : ℕ) (body : List ℕ) (m : Memory) : Type 0 where
    pub offset : ℕ
    pub some_bytes : 0 < length body
    pub offset_field : read_u32 m (f + 8) ≡ offset
    pub len_field : read_u32 m (f + 12) ≡ length body
    pub marker_field : m (f + 16) ≡ 0
    pub inside : offset + length body ≤ r.heap_size
    pub holds : load m (r.heap_offset + offset) (length body) ≡ body

  pub record OverflowAt (name_for : ℕ → Outcome Text) (f : ℕ) (body : List ℕ) (w : World o)
      : Type 0 where
    pub region : ShmRegion o
    pub marker : ℕ
    pub some_bytes : 0 < length body
    pub len_field : read_u32 (region_memory r w) (f + 12) ≡ length body
    pub marker_field : region_memory r w (f + 16) ≡ marker
    pub spills : Spills name_for body r.ptr region marker w

  -- The body is empty, or lies in the heap, or in an overflow region.
  pub data BodyAt (name_for : ℕ → Outcome Text) (f : ℕ) (body : List ℕ) (w : World o) : Type 0 where
    nowhere : body ≡ [] → read_u32 (region_memory r w) (f + 12) ≡ 0 → BodyAt name_for f body w
    inline : InlineAt f body (region_memory r w) → BodyAt name_for f body w
    overflow : OverflowAt name_for f body w → BodyAt name_for f body w

  module _ (target : Target) (name_for : ℕ → Outcome Text) (small : r.heap_size < u32_mod) where
    -- Whether the body is empty, inline or in an overflow region, a reader gets it.
    pub read_body_ok :
        (f : ℕ) (body : List ℕ) (w : World o)
        → BodyAt name_for f body w
        → (read_body target r f name_for w).0 ≡ ok body
    unfolding read_body
    read_body_ok f body w (nowhere empty len) = rw (len, empty)
    read_body_ok f body w (inline at) =
        let nonzero : (length body == 0) ≡ false = ground (arith, at.some_bytes) in
        let read = heap_read_checked_ok r at.offset (length body) w (omega arith) (at.inside) in
        rw
          (
            at.len_field, nonzero, at.marker_field, overflow_generation-inline, at.offset_field,
            at.len_field, read,
          )
          (ap ok (at.holds))
    read_body_ok f body w (overflow at) =
        let s = at.spills in
        let nonzero : (length body == 0) ≡ false = ground (arith, at.some_bytes) in
        let found = overflow_generation_lem s.generation in
        rw (at.len_field, nonzero, at.marker_field, s.marked, found, s.named, at.len_field)
          (read_overflow_ok target s.name body at.region w (s.opens) (s.long) (s.holds))

    pub read_payload_ok :
        {A : Type 0} (from_bytes : List ℕ → Coded A) (f : ℕ) (meta body : List ℕ) (a : A)
        (w : World o)
        → MetaAt f meta (region_memory r w)
        → BodyAt name_for f body w
        → from_bytes meta ≡ coded a
        → (read_payload target r f from_bytes name_for w).0 ≡ ok (a, body)
    unfolding read_payload
    read_payload_ok from_bytes f meta body a w m b decoded =
        let read = heap_read_checked_ok r m.offset (length meta) w (omega arith) (m.inside) in
        let got = read_body_ok f body w b in
        rw (m.offset_field, m.len_field, read, m.holds, decoded)
          (ap (λ (x : Outcome (_ × List ℕ) × World o). x.0)
            (>>=-ok_value (read_body target r f name_for) _ body w got))

-- Two handles on one control region, with the same layout.
pub record Agrees {o : Os} (r r' : ShmRegion o) : Type 0 where
  pub ptr : r'.ptr ≡ r.ptr
  pub num_slots : r'.num_slots ≡ r.num_slots
  pub heap_offset : r'.heap_offset ≡ r.heap_offset
  pub heap_size : r'.heap_size ≡ r.heap_size

module _ {o : Os} (r r' : ShmRegion o) (g : Agrees r r') where
  -- What is stored for one handle is stored for the other.
  pub MetaAt-Agrees :
      (f : ℕ) (meta : List ℕ) (w : World o)
      → MetaAt r f meta (region_memory r w)
      → MetaAt r' f meta (region_memory r' w)
  MetaAt-Agrees f meta w at = rw (g.ptr) (record {
    offset = at.offset;
    offset_field = at.offset_field;
    len_field = at.len_field;
    inside = omega (arith, g.heap_size, at.inside);
    holds = rw (g.heap_offset) (at.holds);
  })

  pub BodyAt-Agrees :
      (name_for : ℕ → Outcome Text) (f : ℕ) (body : List ℕ) (w : World o)
      → BodyAt r name_for f body w
      → BodyAt r' name_for f body w
  BodyAt-Agrees name_for f body w (nowhere empty len) = nowhere empty (rw (g.ptr) len)
  BodyAt-Agrees name_for f body w (inline at) = inline (
      rw (g.ptr) (record {
        offset = at.offset;
        some_bytes = at.some_bytes;
        offset_field = at.offset_field;
        len_field = at.len_field;
        marker_field = at.marker_field;
        inside = omega (arith, g.heap_size, at.inside);
        holds = rw (g.heap_offset) (at.holds);
      }))
  BodyAt-Agrees name_for f body w (overflow at) = overflow (record {
    region = at.region;
    marker = at.marker;
    some_bytes = at.some_bytes;
    len_field = rw (g.ptr) (at.len_field);
    marker_field = rw (g.ptr) (at.marker_field);
    spills = rw (g.ptr) (at.spills);
  })
