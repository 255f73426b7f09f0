-- ===== src/Region/Payload/Placed.antt =====
-- Placing a body: it ends up stored, and bytes outside its fields and the half of the arena are left
-- alone.
use slotbus.Base.{
  ℕ, ◌+◌, ◌-◌, ◌≤◌, ◌<◌, ◌≡◌, inl, inr, refl, sym, ap, subst, ◌∙◌, arith, List, [], Option, some,
  none, length, Text, u32_mod, true, false, Option-cases,
}
use slotbus.Error.{Outcome, ok, err, panicked}
use slotbus.Memory.{Memory, store}
use slotbus.Memory.Laws.{SameOn, Apart, SameOn-trans, store-SameOn, load-SameOn, load-store}
use slotbus.Types.{Span}
use slotbus.Types.Arenas.{limit}
use slotbus.Config.OsName.{Target}
use slotbus.Os.{Os, IsOs, World, >>=-eq-ok}
use slotbus.Region.{ShmRegion, region_memory, set_memory}
use slotbus.Region.Heap.{arena_body_offset}
use slotbus.Region.Heap.Access.{set_memory_self, heap_write_checked_ok}
use slotbus.Region.Overflow.{create_overflow_fresh}
use slotbus.Region.Overflow.Spill.{
  Spares, create_overflow_fresh-Spills, create_overflow_fresh-Spares,
}
use slotbus.Region.Payload.{put_body_fields, place_overflow, place_body, is_empty}
use slotbus.Region.Payload.Stored.{InlineAt, BodyAt, nowhere, inline, overflow}
use slotbus.Region.Payload.Fields.{
  arena_body_offset_lem, put_body_fields-SameOn, put_body_fields_read, body_cases,
  Spills-set_memory,
}

module _ {o : Os} (r : ShmRegion o) where
  module _ (laws : IsOs o) (target : Target) (f : ℕ) (span : Span) (meta body : List ℕ)
      (name_for : ℕ → Outcome Text) (small : r.heap_size < u32_mod)
      (fields : f + 17 ≤ r.heap_offset) (within : limit span ≤ r.heap_size)
      (short : length body < u32_mod) (fits : length meta ≤ span.size) where
    -- What placing a body may change: the last three fields, and the span behind the metadata.
    abbrev BodyConfined : World o → World o → Type 0
    BodyConfined w w' =
        (a n : ℕ)
        → Apart a n (f + 8) 9
        → Apart a n (r.heap_offset + span.offset + length meta) (span.size - length meta)
        → SameOn (region_memory r w) (region_memory r w') a n

    pub inline_memory : Memory → ℕ → Memory
    inline_memory m offset =
        put_body_fields (store m (r.heap_offset + offset) body) f offset (length body) 0

    pub place_body_empty :
        (w : World o)
        → body ≡ []
        → place_body target r f span (length meta) body name_for w
          ≡ (ok none, set_memory r (put_body_fields (region_memory r w) f 0 0 0) w)
    unfolding place_body
    place_body_empty w empty = rw empty

    pub place_body_inline :
        (w : World o) (offset : ℕ)
        → is_empty body ≡ false
        → arena_body_offset span.offset span.size (length meta) (length body) ≡ some offset
        → place_body target r f span (length meta) body name_for w ≡ (
          ok none,
          set_memory r
              (inline_memory (region_memory r w) offset)
              (set_memory r (store (region_memory r w) (r.heap_offset + offset) body) w),
        )
    unfolding place_body inline_memory
    place_body_inline w offset full found =
        let place =
          arena_body_offset_lem span.offset span.size (length meta) (length body) offset
            (omega arith) fits found in
        let put = heap_write_checked_ok r offset body w (omega arith) (omega arith) in
        let seen = set_memory_self r (store (region_memory r w) (r.heap_offset + offset) body) w in
        rw (full, found, put, seen)

    pub place_body_overflow :
        (w : World o)
        → is_empty body ≡ false
        → arena_body_offset span.offset span.size (length meta) (length body) ≡ none
        → place_body target r f span (length meta) body name_for w
          ≡ place_overflow target r f body name_for w
    unfolding place_body
    place_body_overflow w full none_left = rw (full, none_left)

    inline_memory-InlineAt :
        (m : Memory) (offset : ℕ)
        → 0 < length body
        → span.offset + length meta ≤ offset
        → offset + length body ≤ limit span
        → InlineAt r f body (inline_memory m offset)
    unfolding inline_memory
    inline_memory-InlineAt m offset full lo hi =
        let stored = store m (r.heap_offset + offset) body in
        let read = put_body_fields_read stored f offset (length body) 0 (omega arith) short in
        record {
          offset = offset;
          some_bytes = full;
          offset_field = read.offset_field;
          len_field = read.len_field;
          marker_field = read.marker_field;
          inside = omega arith;
          holds =
              load-SameOn stored _ (r.heap_offset + offset) (length body) (
                put_body_fields-SameOn stored f offset (length body) 0 (r.heap_offset + offset)
                  (length body) (omega arith))
              ∙ load-store m (r.heap_offset + offset) body;
        }

    inline_memory-SameOn :
        (m : Memory) (offset a n : ℕ)
        → span.offset + length meta ≤ offset
        → offset + length body ≤ limit span
        → Apart a n (f + 8) 9
        → Apart a n (r.heap_offset + span.offset + length meta) (span.size - length meta)
        → SameOn m (inline_memory m offset) a n
    unfolding inline_memory
    inline_memory-SameOn m offset a n lo hi apart_fields apart_span =
        SameOn-trans m _ _ a n (store-SameOn m (r.heap_offset + offset) body a n (omega arith)) (
          put_body_fields-SameOn (store m (r.heap_offset + offset) body) f offset (length body) 0 a
            n apart_fields)

    place_overflow-BodyAt :
        (w w' : World o) (ovf : Option (ShmRegion o))
        → o.is_mapped w.state r.ptr ≡ true
        → 0 < length body
        → place_overflow target r f body name_for w ≡ (ok ovf, w')
        → BodyAt r name_for f body w'
    unfolding place_overflow
    place_overflow-BodyAt w w' ovf used full h =
        let (made, v, created, rest) =
          >>=-eq-ok (create_overflow_fresh target name_for body) _ ovf w w' h in
        let m = put_body_fields (region_memory r v) f 0 (length body) made.1 in
        let done : w' ≡ set_memory r m v = ground arith in
        let spilt =
          create_overflow_fresh-Spills laws target name_for body (omega arith) w v made.0 made.1
            r.ptr used created in
        let read =
          put_body_fields_read (region_memory r v) f 0 (length body) made.1 (omega arith) short in
        rw done (
          overflow (record {
            region = made.0;
            marker = made.1;
            some_bytes = full;
            len_field = rw (set_memory_self r m v) (read.len_field);
            marker_field = rw (set_memory_self r m v) (read.marker_field);
            spills = Spills-set_memory r name_for body made.0 made.1 m v spilt;
          }))

    place_overflow-SameOn :
        (w : World o) (a n : ℕ)
        → o.is_mapped w.state r.ptr ≡ true
        → Apart a n (f + 8) 9
        → SameOn
            (region_memory r w)
            (region_memory r (place_overflow target r f body name_for w).1)
            a
            n
    unfolding place_overflow
    place_overflow-SameOn w a n used apart =
        by_result (create_overflow_fresh target name_for body w) refl
      where
        spared :
            (v : World o) (x : Outcome (ShmRegion o × ℕ))
            → create_overflow_fresh target name_for body w ≡ (x, v)
            → SameOn (region_memory r w) (region_memory r v) a n
        spared v x e y lo hi =
            let spares =
              subst (Spares w) (ap (λ (z : Outcome (ShmRegion o × ℕ) × World o). z.1) e)
                (create_overflow_fresh-Spares laws target name_for body (omega arith) w) in
            ap (λ (m : Memory). m y) (spares r.ptr used).1

        by_result :
            (x : Outcome (ShmRegion o × ℕ) × World o)
            → create_overflow_fresh target name_for body w ≡ x
            → SameOn
                (region_memory r w)
                (region_memory r (place_overflow target r f body name_for w).1)
                a
                n
        by_result (ok made, v) e =
            let m = region_memory r v in
            rw (e, set_memory_self r (put_body_fields m f 0 (length body) made.1) v)
              (SameOn-trans (region_memory r w) m _ a n (spared v (ok made) e)
                (put_body_fields-SameOn m f 0 (length body) made.1 a n apart))
        by_result (err y, v) e = rw e (spared v (err y) e)
        by_result (panicked, v) e = rw e (spared v panicked e)

    module _ (w : World o) (used : o.is_mapped w.state r.ptr ≡ true) where
      -- A body that was placed is stored.
      pub place_body-BodyAt :
          (w' : World o) (ovf : Option (ShmRegion o))
          → place_body target r f span (length meta) body name_for w ≡ (ok ovf, w')
          → BodyAt r name_for f body w'
      place_body-BodyAt w' ovf h = elim (body_cases body) [
        | inl empty ↦
            let m = put_body_fields (region_memory r w) f 0 0 0 in
            let done : w' ≡ set_memory r m w = cc (place_body_empty w empty) in
            rw done (
              nowhere empty (
                rw (set_memory_self r m w) (
                  (put_body_fields_read (region_memory r w) f 0 0 0 (omega arith)
                    (omega arith)).len_field)))
        | inr (full, some_bytes) ↦
            elim (Option-cases
              (arena_body_offset span.offset span.size (length meta) (length body))) [
                | inl spilt ↦
                    place_overflow-BodyAt w w' ovf used some_bytes
                      (sym (place_body_overflow w full spilt) ∙ h)
                | inr (offset, found) ↦
                    let place =
                      arena_body_offset_lem span.offset span.size (length meta) (length body) offset
                        (omega arith) fits found in
                    let m = inline_memory (region_memory r w) offset in
                    let v =
                      set_memory r (store (region_memory r w) (r.heap_offset + offset) body) w in
                    let done : w' ≡ set_memory r m v = cc (place_body_inline w offset full found) in
                    rw done (
                      inline (
                        rw (set_memory_self r m v) (
                          inline_memory-InlineAt (region_memory r w) offset some_bytes (place.0)
                            (place.1))))
              ]
      ]

      -- However placing a body ends, it changes the last three fields and the span behind the
      -- metadata at most.
      pub place_body-SameOn :
          (a n : ℕ)
          → Apart a n (f + 8) 9
          → Apart a n (r.heap_offset + span.offset + length meta) (span.size - length meta)
          → SameOn
              (region_memory r w)
              (region_memory r (place_body target r f span (length meta) body name_for w).1)
              a
              n
      place_body-SameOn a n apart_fields apart_span = elim (body_cases body) [
        | inl empty ↦
            let m = put_body_fields (region_memory r w) f 0 0 0 in
            rw (place_body_empty w empty, set_memory_self r m w)
              (put_body_fields-SameOn (region_memory r w) f 0 0 0 a n apart_fields)
        | inr (full, some_bytes) ↦
            elim (Option-cases
              (arena_body_offset span.offset span.size (length meta) (length body))) [
                | inl spilt ↦
                    rw (place_body_overflow w full spilt)
                      (place_overflow-SameOn w a n used apart_fields)
                | inr (offset, found) ↦
                    let place =
                      arena_body_offset_lem span.offset span.size (length meta) (length body) offset
                        (omega arith) fits found in
                    let m = inline_memory (region_memory r w) offset in
                    let v =
                      set_memory r (store (region_memory r w) (r.heap_offset + offset) body) w in
                    rw (place_body_inline w offset full found, set_memory_self r m v)
                      (inline_memory-SameOn (region_memory r w) offset a n (place.0) (place.1)
                        apart_fields apart_span)
              ]
      ]
