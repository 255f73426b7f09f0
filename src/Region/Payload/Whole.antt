-- ===== src/Region/Payload/Whole.antt =====
-- A whole payload, metadata and body: it is stored, and nothing outside its fields and its half of
-- the arena changes.
use native.Mathlib.Decide.{dec_le}
use slotbus.Base.{
  ℕ, ◌+◌, ◌-◌, ◌≤◌, ◌<◌, ◌≡◌, ◌⊎◌, inl, inr, sym, ap, subst, ◌∙◌, arith, List, [], Option, none,
  length, Text, u16_mod, u32_mod, as_u32, le→not-ltb, lt→ltb, true,
}
use slotbus.Error.{Message, shared_memory, Outcome, ok, err}
use slotbus.Memory.{Memory, store}
use slotbus.Memory.Laws.{
  SameOn, Apart, SameOn-refl, SameOn-trans, store-SameOn, load-SameOn, load-store,
}
use slotbus.Types.{Span, align8}
use slotbus.Types.Arenas.{limit}
use slotbus.Config.OsName.{Target}
use slotbus.Os.{Os, IsOs, World}
use slotbus.Region.{ShmRegion, region_memory, set_memory}
use slotbus.Region.Heap.Access.{set_memory_self, heap_write_checked_ok}
use slotbus.Region.Payload.{put_meta_fields, place_body, place_payload}
use slotbus.Region.Payload.Stored.{MetaAt, BodyAt}
use slotbus.Region.Payload.Fields.{
  put_meta_fields-SameOn, put_meta_fields_read, MetaAt-SameOn, arena_body_offset_total, body_cases,
}
use slotbus.Region.Payload.Placed.{
  place_body-BodyAt, place_body-SameOn, place_body_empty, place_body_inline,
}

module _ {o : Os} (r : ShmRegion o) (laws : IsOs o) (target : Target) (f : ℕ) (span : Span)
    (full : ℕ → ℕ → Message) (meta body : List ℕ) (name_for : ℕ → Outcome Text)
    (small : r.heap_size < u32_mod) (fields : f + 17 ≤ r.heap_offset)
    (within : limit span ≤ r.heap_size) (short : length body < u32_mod) where
  -- The mapping with the metadata in its place, and with its fields.
  meta_bytes : Memory → Memory
  meta_bytes m = store m (r.heap_offset + span.offset) meta

  meta_memory : Memory → Memory
  unfolding meta_bytes
  meta_memory m = put_meta_fields (meta_bytes m) f span.offset (length meta)

  unfoldable pub with_meta : World o → World o
  unfolding meta_memory meta_bytes
  with_meta w =
      set_memory r (meta_memory (region_memory r w))
        (set_memory r (meta_bytes (region_memory r w)) w)

  pub place_payload_step :
      (w : World o)
      → length meta ≤ span.size
      → place_payload target r f span full meta body name_for w
        ≡ place_body target r f span (length meta) body name_for (with_meta w)
  unfolding place_payload with_meta
  place_payload_step w fits =
      let exact : as_u32 span.offset ≡ span.offset = omega arith in
      let m = store (region_memory r w) (r.heap_offset + span.offset) meta in
      let put = heap_write_checked_ok r span.offset meta w (omega arith) (omega arith) in
      rw (le→not-ltb span.size (length meta) fits, exact, put, set_memory_self r m w)

  pub place_payload_refuses :
      (w : World o)
      → span.size < length meta
      → place_payload target r f span full meta body name_for w
        ≡ (err (shared_memory (full (length meta) span.size)), w)
  unfolding place_payload
  place_payload_refuses w big = rw (lt→ltb span.size (length meta) big)

  memory-with_meta : (w : World o) → region_memory r (with_meta w) ≡ meta_memory (region_memory r w)
  unfolding with_meta
  memory-with_meta w =
      set_memory_self r (meta_memory (region_memory r w))
        (set_memory r (meta_bytes (region_memory r w)) w)

  meta_memory-MetaAt :
      (m : Memory)
      → length meta ≤ span.size
      → length meta < u16_mod
      → MetaAt r f meta (meta_memory m)
  unfolding meta_memory
  meta_memory-MetaAt m fits brief =
      let read =
        put_meta_fields_read (meta_bytes m) f span.offset (length meta) (omega arith) brief in
      record {
        offset = span.offset;
        offset_field = read.0;
        len_field = read.1;
        inside = omega arith;
        holds =
            load-SameOn (meta_bytes m) _ (r.heap_offset + span.offset) (length meta) (
              put_meta_fields-SameOn (meta_bytes m) f span.offset (length meta)
                (r.heap_offset + span.offset) (length meta) (omega arith))
            ∙ load-store m (r.heap_offset + span.offset) meta;
      }

  meta_memory-SameOn :
      (m : Memory) (a n : ℕ)
      → length meta ≤ span.size
      → Apart a n f 17
      → Apart a n (r.heap_offset + span.offset) span.size
      → SameOn m (meta_memory m) a n
  unfolding meta_memory
  meta_memory-SameOn m a n fits apart_fields apart_span =
      SameOn-trans m _ _ a n (store-SameOn m (r.heap_offset + span.offset) meta a n (omega arith))
        (put_meta_fields-SameOn (meta_bytes m) f span.offset (length meta) a n (omega arith))

  module _ (w : World o) (used : o.is_mapped w.state r.ptr ≡ true) where
    used_too : o.is_mapped (with_meta w).state r.ptr ≡ true
    unfolding with_meta
    used_too = used

    rest_SameOn :
        (a n : ℕ)
        → length meta ≤ span.size
        → Apart a n (f + 8) 9
        → Apart a n (r.heap_offset + span.offset + length meta) (span.size - length meta)
        → SameOn
            (meta_memory (region_memory r w))
            (region_memory r (place_payload target r f span full meta body name_for w).1)
            a
            n
    rest_SameOn a n fits apart_fields apart_span =
        rw (place_payload_step w fits, ← memory-with_meta w)
          (place_body-SameOn r laws target f span meta body name_for small fields within short fits
            (with_meta w) used_too a n apart_fields apart_span)

    -- A payload that was placed is stored.
    pub place_payload-Stored :
        (w' : World o) (ovf : Option (ShmRegion o))
        → length meta < u16_mod
        → place_payload target r f span full meta body name_for w ≡ (ok ovf, w')
        → MetaAt r f meta (region_memory r w') × BodyAt r name_for f body w'
    unfolding meta_memory-MetaAt
    place_payload-Stored w' ovf brief h = elim (dec_le (length meta) span.size) [
      | yes fits ↦
          let last = ap (λ (z : Outcome (Option (ShmRegion o)) × World o). region_memory r z.1) h in
          let m = meta_memory (region_memory r w) in
          (
            MetaAt-SameOn r f meta m (region_memory r w')
                (meta_memory-MetaAt (region_memory r w) fits brief)
                (subst (λ z. SameOn m z f 6) last
                  (rest_SameOn f 6 fits (omega arith) (omega arith)))
                (subst (λ z. SameOn m z (r.heap_offset + span.offset) (length meta)) last
                  (rest_SameOn (r.heap_offset + span.offset) (length meta) fits (omega arith)
                    (omega arith))),
            place_body-BodyAt r laws target f span meta body name_for small fields within short fits
                (with_meta w) used_too w' ovf (sym (place_payload_step w fits) ∙ h),
          )
      | no big ↦ absurd (ground (arith, place_payload_refuses w (omega arith)))
    ]

    -- However it ends, only the fields and the span may change.
    pub place_payload-SameOn :
        (a n : ℕ)
        → Apart a n f 17
        → Apart a n (r.heap_offset + span.offset) span.size
        → SameOn
            (region_memory r w)
            (region_memory r (place_payload target r f span full meta body name_for w).1)
            a
            n
    place_payload-SameOn a n apart_fields apart_span = elim (dec_le (length meta) span.size) [
      | yes fits ↦
          SameOn-trans (region_memory r w) (meta_memory (region_memory r w)) _ a n
            (meta_memory-SameOn (region_memory r w) a n fits apart_fields apart_span)
            (rest_SameOn a n fits (omega arith) (omega arith))
      | no big ↦ rw (place_payload_refuses w (omega arith)) (SameOn-refl (region_memory r w) a n)
    ]

    -- Where metadata and body fit the half of the arena, the payload is placed, and needs no overflow.
    pub place_payload_total :
        length meta ≤ span.size
        → (body ≡ []) ⊎ (align8 (length meta) + length body ≤ span.size)
        → (place_payload target r f span full meta body name_for w).0 ≡ ok none
    place_payload_total fits room = elim (body_cases body) [
      | inl empty ↦ rw (
        place_payload_step w fits,
        place_body_empty r laws target f span meta body name_for small fields within short fits
            (with_meta w) empty,
      )
      | inr (nonempty, some_bytes) ↦
          let found =
            arena_body_offset_total span.offset span.size (length meta) (length body) (omega arith)
              fits (ground arith) in
          rw (
            place_payload_step w fits,
            place_body_inline r laws target f span meta body name_for small fields within short fits
                (with_meta w) (span.offset + align8 (length meta)) nonempty found,
          )
    ]
