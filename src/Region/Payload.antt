-- ===== src/Region/Payload.antt =====
-- What `write_request` and `write_response` of slotbus/src/region.rs do alike with a payload, and so
-- do `read_request` and `read_response`: the metadata and the body go to the slot's half of its arena
-- or to an overflow region, and five fields of the slot say where. The fields of a request begin at
-- byte 44 of the slot, those of a response at 68, in the same order.
pub mod Stored
pub mod Fields
pub mod Placed
pub mod Whole
pub mod Owned
pub mod Mapped
use slotbus.Base.{
  ℕ, ◌+◌, ◌≡◌, List, [], ◌∷◌, Option, none, some, if◌then◌else◌, ltb, length, as_u16, as_u32, Bool,
  true, false, ◌==◌, Text,
}
use slotbus.Error.{Message, shared_memory, Outcome, ok}
use slotbus.Memory.{Memory, poke, write_u16, write_u32, read_u16, read_u32}
use slotbus.Types.{Span, overflow_generation}
use slotbus.Config.OsName.{Target}
use slotbus.Os.{Os, World, M, ◌>>=◌, ◌>>◌, pure, fail, lift}
use slotbus.Postcard.{Coded, from_postcard}
use slotbus.Region.{ShmRegion, region_memory, set_memory, slot_address}
use slotbus.Region.Heap.{heap_read_checked, heap_write_checked, arena_body_offset}
use slotbus.Region.Overflow.{create_overflow_fresh, read_overflow}

abbrev pub is_empty : List ℕ → Bool
is_empty [] = true
is_empty (b ∷ bs) = false

-- The fields of a payload, from the address `f` on.
abbrev pub put_meta_fields : Memory → ℕ → ℕ → ℕ → Memory
put_meta_fields m f offset len = write_u16 (write_u32 m f offset) (f + 4) (as_u16 len)

abbrev pub put_body_fields : Memory → ℕ → ℕ → ℕ → ℕ → Memory
put_body_fields m f offset len marker =
    poke (write_u32 (write_u32 m (f + 8) offset) (f + 12) (as_u32 len)) (f + 16) marker

module _ {o : Os} where
  -- An update of the mapping that cannot fail.
  abbrev pub modify : ShmRegion o → (Memory → Memory) → M (World o) (Unit {0})
  modify r f w = (ok tt, set_memory r (f (region_memory r w)) w)

  module _ (target : Target) (r : ShmRegion o) where
    unfoldable pub place_inline : ℕ → ℕ → List ℕ → M (World o) (Option (ShmRegion o))
    place_inline f offset body = do
      heap_write_checked r offset body
      modify r (λ m. put_body_fields m f offset (length body) 0)
      pure none

    unfoldable pub place_overflow :
        ℕ → List ℕ → (ℕ → Outcome Text) → M (World o) (Option (ShmRegion o))
    place_overflow f body name_for = create_overflow_fresh target name_for body >>= λ made.
        modify r (λ m. put_body_fields m f 0 (length body) made.1) >> pure (some made.0)

    -- The overflow region comes back, for the caller to keep.
    unfoldable pub place_body :
        ℕ → Span → ℕ → List ℕ → (ℕ → Outcome Text) → M (World o) (Option (ShmRegion o))
    unfolding place_inline place_overflow
    place_body f span meta_len body name_for =
        if is_empty body
        then modify r (λ m. put_body_fields m f 0 0 0) >> pure none
        else elim (arena_body_offset span.offset span.size meta_len (length body)) [
          | some offset ↦ place_inline f offset body
          | none ↦ place_overflow f body name_for
        ]

    unfoldable pub place_payload :
        ℕ
        → Span
        → (ℕ → ℕ → Message)
        → List ℕ
        → List ℕ
        → (ℕ → Outcome Text)
        → M (World o) (Option (ShmRegion o))
    unfolding place_body
    place_payload f span full meta body name_for =
        if ltb span.size (length meta)
        then fail (shared_memory (full (length meta) span.size))
        else do
          heap_write_checked r (as_u32 span.offset) meta
          modify r (λ m. put_meta_fields m f (as_u32 span.offset) (length meta))
          place_body f span (length meta) body name_for

    -- A body of length 0 is read from nowhere; otherwise the marker says where it is.
    unfoldable pub read_body : ℕ → (ℕ → Outcome Text) → M (World o) (List ℕ)
    read_body f name_for w =
        let m = region_memory r w in
        let body_len = read_u32 m (f + 12) in
        if body_len == 0 then (ok [], w) else (elim (overflow_generation (m (f + 16))) [
          | none ↦ heap_read_checked r (read_u32 m (f + 8)) body_len w
          | some generation ↦
              (lift (name_for generation) >>= λ name. read_overflow target name body_len) w
        ])

    unfoldable pub read_payload :
        {A : Type 0} → ℕ → (List ℕ → Coded A) → (ℕ → Outcome Text) → M (World o) (A × List ℕ)
    unfolding read_body
    read_payload f from_bytes name_for w =
        let m = region_memory r w in
        (do
          bytes ← heap_read_checked r (read_u32 m f) (read_u16 m (f + 4))
          meta ← lift (from_postcard (from_bytes bytes))
          body ← read_body f name_for
          pure (meta, body))
          w
