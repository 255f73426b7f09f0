-- ===== src/Transport/Reads.antt =====
-- Reading a slot changes no byte and unmaps nothing: the overflow region that it may open is given up
-- again.
use slotbus.Base.{
  ℕ, ◌+◌, ◌≡◌, refl, ap, List, Text, Bool-cases, Option-cases, ltb, ◌==◌, ◌⊎◌, inl, inr,
}
use slotbus.Error.{Outcome}
use slotbus.Memory.{read_u32, read_u16}
use slotbus.Types.{overflow_generation, RequestMeta, ResponseMeta}
use slotbus.Config.{SlotBusConfig}
use slotbus.Config.OsName.{Target}
use slotbus.Postcard.{Postcard, Coded, from_postcard}
use slotbus.Os.{Os, World, Opened, opened, open_error, lift, >>=-respects}
use slotbus.Region.{ShmRegion, region_memory, open_region, drop_region}
use slotbus.Region.Heap.{heap_end, heap_read_checked}
use slotbus.Region.Overflow.{read_mapped, read_overflow}
use slotbus.Region.Overflow.Fresh.{Keeps, Keeps-refl, Keeps-trans}
use slotbus.Region.Payload.{read_body, read_payload}
use slotbus.Region.Requests.{read_request}
use slotbus.Region.Responses.{read_response}
use slotbus.Transport.{Runtime}
use slotbus.Transport.Laws.{IsRuntime}

Opened-cases :
    {H : Type 0} (x : Opened H) → ((h : H) × (x ≡ opened h)) ⊎ ((t : Text) × (x ≡ open_error t))
Opened-cases (opened h) = inl (h, refl)
Opened-cases (open_error t) = inr (t, refl)

module _ {o : Os} (rt : Runtime o) (laws : IsRuntime rt) (target : Target) where
  read_overflow-Keeps :
      (name : Text) (len : ℕ) (w : World o) → Keeps w (read_overflow target name len w).1
  unfolding read_overflow open_region drop_region read_mapped
  read_overflow-Keeps name len w = elim (Opened-cases (o.open_map name w.state).0) [
    | inr (t, failed) ↦
        rw (failed, open_region)
          (record { memory = refl; mapped = λ p h. (laws.open-Quiet name w.state).mapped p h })
    | inl (h, found) ↦
        let opens : o.open_map name w.state ≡ (opened h, (o.open_map name w.state).1) =
          ap (λ (x : Opened o.Shmem). (x, (o.open_map name w.state).1)) found in
        let keeps : Keeps w (record w { state = o.drop_map h (o.open_map name w.state).1 }) =
          record {
            memory = refl;
            mapped = λ p m. laws.open-drop name w.state (o.open_map name w.state).1 h p opens m;
          } in
        elim (Bool-cases (ltb (o.size_of h) len)) [
          | inl small ↦ rw (found, open_region, small) keeps
          | inr enough ↦ rw (found, open_region, enough) keeps
        ]
  ]

  module _ (r : ShmRegion o) where
    heap_read_checked-Keeps :
        (offset len : ℕ) (w : World o) → Keeps w (heap_read_checked r offset len w).1
    unfolding heap_read_checked
    heap_read_checked-Keeps offset len w = elim (Option-cases (heap_end r offset len)) [
      | inl outside ↦ rw (outside, heap_read_checked) (Keeps-refl w)
      | inr (last, inside) ↦ rw (inside, heap_read_checked) (Keeps-refl w)
    ]

    read_body-Keeps :
        (f : ℕ) (name_for : ℕ → Outcome Text) (w : World o)
        → Keeps w (read_body target r f name_for w).1
    unfolding read_body
    read_body-Keeps f name_for w =
        let m = region_memory r w in
        elim (Bool-cases (read_u32 m (f + 12) == 0)) [
          | inl empty ↦ rw empty (Keeps-refl w)
          | inr full ↦ elim (Option-cases (overflow_generation (m (f + 16)))) [
            | inl in_heap ↦
                rw (full, in_heap)
                  (heap_read_checked-Keeps (read_u32 m (f + 8)) (read_u32 m (f + 12)) w)
            | inr (generation, spilt) ↦
                rw (full, spilt)
                  (>>=-respects Keeps (lift (name_for generation)) _ w Keeps-trans (Keeps-refl w)
                    (λ name v. read_overflow-Keeps name (read_u32 m (f + 12)) v))
          ]
        ]

    pub read_payload-Keeps :
        {A : Type 0} (f : ℕ) (from_bytes : List ℕ → Coded A) (name_for : ℕ → Outcome Text)
        (w : World o)
        → Keeps w (read_payload target r f from_bytes name_for w).1
    unfolding read_payload
    read_payload-Keeps f from_bytes name_for w =
        let m = region_memory r w in
        >>=-respects Keeps (heap_read_checked r (read_u32 m f) (read_u16 m (f + 4))) _ w Keeps-trans
          (heap_read_checked-Keeps (read_u32 m f) (read_u16 m (f + 4)) w)
          λ bytes u.
            >>=-respects Keeps (lift (from_postcard (from_bytes bytes))) _ u Keeps-trans
              (Keeps-refl u)
              λ meta v.
                >>=-respects Keeps (read_body target r f name_for) _ v Keeps-trans
                  (read_body-Keeps f name_for v) (λ body x. Keeps-refl x)

    pub read_request-Keeps :
        (postcard : Postcard RequestMeta) (i : ℕ) (c : SlotBusConfig) (w : World o)
        → Keeps w (read_request target r postcard i c w).1
    unfolding read_request
    read_request-Keeps postcard i c w =
        >>=-respects Keeps (read_payload target r _ postcard.from_bytes _) _ w Keeps-trans
          (read_payload-Keeps _ postcard.from_bytes _ w) (λ payload v. Keeps-refl v)

    pub read_response-Keeps :
        (postcard : Postcard ResponseMeta) (i : ℕ) (c : SlotBusConfig) (w : World o)
        → Keeps w (read_response target r postcard i c w).1
    unfolding read_response
    read_response-Keeps postcard i c w =
        >>=-respects Keeps (read_payload target r _ postcard.from_bytes _) _ w Keeps-trans
          (read_payload-Keeps _ postcard.from_bytes _ w) (λ payload v. Keeps-refl v)
