-- ===== src/Region/Payload/Mapped.antt =====
-- Writing a payload unmaps nothing.
use slotbus.Base.{
  ℕ, ◌<◌, ◌≡◌, inl, inr, arith, List, length, Text, u32_mod, true, Bool-cases, Option-cases, ltb,
  as_u32,
}
use slotbus.Error.{Message, Outcome}
use slotbus.Types.{Span}
use slotbus.Config.OsName.{Target}
use slotbus.Os.{Os, IsOs, World, >>=-respects}
use slotbus.Region.{ShmRegion}
use slotbus.Region.Heap.{arena_body_offset, heap_end, heap_write_checked}
use slotbus.Region.Overflow.{create_overflow_fresh}
use slotbus.Region.Overflow.Spill.{create_overflow_fresh-Spares}
use slotbus.Region.Payload.{is_empty, place_inline, place_overflow, place_body, place_payload}

module _ {o : Os} (laws : IsOs o) (target : Target) (r : ShmRegion o) (p : ℕ) where
  -- The mapping `p` stays mapped.
  abbrev pub StaysMapped : World o → World o → Type 0
  StaysMapped w w' = o.is_mapped w.state p ≡ true → o.is_mapped w'.state p ≡ true

  pub StaysMapped-trans : (u v w : World o) → StaysMapped u v → StaysMapped v w → StaysMapped u w
  StaysMapped-trans u v w f g h = g (f h)

  heap_write_checked-StaysMapped :
      (offset : ℕ) (bytes : List ℕ) (w : World o)
      → StaysMapped w (heap_write_checked r offset bytes w).1
  unfolding heap_write_checked
  heap_write_checked-StaysMapped offset bytes w h =
      elim (Option-cases (heap_end r offset (length bytes))) [
        | inl outside ↦ rw (outside, heap_write_checked) h
        | inr (last, inside) ↦ rw (inside, heap_write_checked) h
      ]

  module _ (f : ℕ) (body : List ℕ) (name_for : ℕ → Outcome Text)
      (short : length body < u32_mod) where
    place_overflow-StaysMapped :
        (w : World o) → StaysMapped w (place_overflow target r f body name_for w).1
    unfolding place_overflow
    place_overflow-StaysMapped w =
        >>=-respects StaysMapped (create_overflow_fresh target name_for body) _ w StaysMapped-trans
          (λ h. (create_overflow_fresh-Spares laws target name_for body (omega arith) w p h).0)
          (λ made v h. h)

    place_inline-StaysMapped :
        (offset : ℕ) (w : World o) → StaysMapped w (place_inline target r f offset body w).1
    unfolding place_inline
    place_inline-StaysMapped offset w =
        >>=-respects StaysMapped (heap_write_checked r offset body) _ w StaysMapped-trans
          (heap_write_checked-StaysMapped offset body w) (λ made v h. h)

    place_body-StaysMapped :
        (span : Span) (meta_len : ℕ) (w : World o)
        → StaysMapped w (place_body target r f span meta_len body name_for w).1
    unfolding place_body
    place_body-StaysMapped span meta_len w = elim (Bool-cases (is_empty body)) [
      | inl empty ↦ rw empty (λ h. h)
      | inr full ↦
          elim (Option-cases (arena_body_offset span.offset span.size meta_len (length body))) [
            | inl spilt ↦ rw (full, spilt) (place_overflow-StaysMapped w)
            | inr (offset, found) ↦ rw (full, found) (place_inline-StaysMapped offset w)
          ]
    ]

    pub place_payload-StaysMapped :
        (span : Span) (full : ℕ → ℕ → Message) (meta : List ℕ) (w : World o)
        → StaysMapped w (place_payload target r f span full meta body name_for w).1
    unfolding place_payload
    place_payload-StaysMapped span full meta w = elim (Bool-cases (ltb span.size (length meta))) [
      | inl big ↦ rw big (λ h. h)
      | inr fits ↦ rw fits (
          >>=-respects StaysMapped (heap_write_checked r (as_u32 span.offset) meta) _ w
            StaysMapped-trans (heap_write_checked-StaysMapped (as_u32 span.offset) meta w)
            (λ made v h. place_body-StaysMapped span (length meta) _ h))
    ]
