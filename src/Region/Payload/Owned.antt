-- ===== src/Region/Payload/Owned.antt =====
-- An overflow region that was made for a payload is not the control region.
use slotbus.Base.{
  ℕ, ◌+◌, ◌≤◌, ◌<◌, ◌≡◌, ◌≢◌, inl, inr, sym, ◌∙◌, arith, List, Option, some, length, Text, u32_mod,
  true, Option-cases,
}
use slotbus.Error.{Message, Outcome, ok}
use slotbus.Types.{Span}
use slotbus.Types.Arenas.{limit}
use slotbus.Config.OsName.{Target}
use slotbus.Os.{Os, IsOs, World, >>=-eq-ok}
use slotbus.Region.{ShmRegion}
use slotbus.Region.Heap.{arena_body_offset}
use slotbus.Region.Overflow.{create_overflow_fresh}
use slotbus.Region.Overflow.Spill.{create_overflow_fresh-Spills}
use slotbus.Region.Payload.{place_overflow, place_body, place_payload}
use slotbus.Region.Payload.Fields.{body_cases}
use slotbus.Region.Payload.Placed.{place_body_empty, place_body_inline, place_body_overflow}
use slotbus.Region.Payload.Whole.{place_payload_refuses, place_payload_step, with_meta}
use native.Mathlib.Decide.{dec_le}

module _ {o : Os} (r : ShmRegion o) where
  -- A region that comes out is another mapping than `r`.
  abbrev pub Elsewhere : Option (ShmRegion o) → Type 0
  Elsewhere ovf = (region : ShmRegion o) → ovf ≡ some region → o.as_ptr region.shmem ≢ r.ptr

  module _ (laws : IsOs o) (target : Target) (f : ℕ) (span : Span) (full : ℕ → ℕ → Message)
      (meta body : List ℕ) (name_for : ℕ → Outcome Text) (small : r.heap_size < u32_mod)
      (fields : f + 17 ≤ r.heap_offset) (within : limit span ≤ r.heap_size)
      (short : length body < u32_mod) where
    place_overflow-Elsewhere :
        (w w' : World o) (ovf : Option (ShmRegion o))
        → o.is_mapped w.state r.ptr ≡ true
        → place_overflow target r f body name_for w ≡ (ok ovf, w')
        → Elsewhere ovf
    unfolding place_overflow
    place_overflow-Elsewhere w w' ovf used h region e =
        let (made, v, created, rest) =
          >>=-eq-ok (create_overflow_fresh target name_for body) _ ovf w w' h in
        let spilt =
          create_overflow_fresh-Spills laws target name_for body (omega arith) w v made.0 made.1
            r.ptr used created in
        let same : region ≡ made.0 = ground arith in
        rw same (λ bad. spilt.apart (sym (spilt.own) ∙ bad))

    place_body-Elsewhere :
        (w w' : World o) (ovf : Option (ShmRegion o))
        → o.is_mapped w.state r.ptr ≡ true
        → length meta ≤ span.size
        → place_body target r f span (length meta) body name_for w ≡ (ok ovf, w')
        → Elsewhere ovf
    place_body-Elsewhere w w' ovf used fits h = elim (body_cases body) [
      | inl empty ↦
          let done =
            sym (
              place_body_empty r laws target f span meta body name_for small fields within short
                fits w empty)
            ∙ h in
          λ region e. absurd (ground arith)
      | inr (nonempty, some_bytes) ↦
          elim (Option-cases
            (arena_body_offset span.offset span.size (length meta) (length body))) [
              | inl spilt ↦ place_overflow-Elsewhere w w' ovf used (
                  sym (
                    place_body_overflow r laws target f span meta body name_for small fields within
                      short fits w nonempty spilt)
                  ∙ h)
              | inr (offset, found) ↦
                  let done =
                    sym (
                      place_body_inline r laws target f span meta body name_for small fields within
                        short fits w offset nonempty found)
                    ∙ h in
                  λ region e. absurd (ground arith)
            ]
    ]

    pub place_payload-Elsewhere :
        (w w' : World o) (ovf : Option (ShmRegion o))
        → o.is_mapped w.state r.ptr ≡ true
        → place_payload target r f span full meta body name_for w ≡ (ok ovf, w')
        → Elsewhere ovf
    unfolding with_meta
    place_payload-Elsewhere w w' ovf used h = elim (dec_le (length meta) span.size) [
      | yes fits ↦ place_body-Elsewhere _ w' ovf used fits (
          sym (
            place_payload_step r laws target f span full meta body name_for small fields within
              short w fits)
          ∙ h)
      | no big ↦
          let refused =
            place_payload_refuses r laws target f span full meta body name_for small fields within
              short w (omega arith) in
          λ region e. absurd (ground arith)
    ]
