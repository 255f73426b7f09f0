-- ===== src/Region/Responses/RoundTrip.antt =====
-- A response that was written is read back by the hub.
use slotbus.Base.{
  ℕ, ◌+◌, ◌<◌, ◌≡◌, sym, ap, subst, ◌∙◌, arith, List, Option, length, u16_mod, u32_mod, ◌%◌, true,
}
use slotbus.Error.{response_meta_full, Outcome, ok, err, panicked}
use slotbus.Memory.{write_u16, write_u32, read_u16}
use slotbus.Memory.Laws.{SameOn, write_u32-SameOn, read_u16-SameOn, read_u16-write_u16}
use slotbus.Types.{ResponseMeta, slot_done}
use slotbus.Postcard.{Postcard, coded}
use slotbus.Config.{SlotBusConfig, response_overflow_name_gen}
use slotbus.Config.OsName.{Target}
use slotbus.Os.{Os, IsOs, World}
use slotbus.Region.{ShmRegion, region_memory, slot_address}
use slotbus.Region.Heap.{slot_arenas}
use slotbus.Region.Slots.{store_status}
use slotbus.Region.Slots.Claim.{store_status-SameOn}
use slotbus.Region.Payload.Stored.{Agrees}
use slotbus.Region.Payload.Fields.{MetaAt-SameOn, BodyAt-set_memory}
use slotbus.Region.Payload.Whole.{place_payload-Stored}
use slotbus.Region.Payload.Owned.{Elsewhere, place_payload-Elsewhere}
use slotbus.Region.Requests.Steps.{IsControl}
use slotbus.Region.Responses.{write_response, read_response}
use slotbus.Region.Responses.Stored.{AnswerAt, read_response-AnswerAt}
use slotbus.Region.Responses.Steps.{
  with_status, placed, finish, write_response_lem, half_fits, fields_fit, placed-with_status,
}

module _ {o : Os} (laws : IsOs o) (target : Target) (r : ShmRegion o) (control : IsControl r)
    (i : ℕ) (inside : i < r.num_slots) (status : ℕ) (meta_bytes body : List ℕ)
    (short : length body < u32_mod) (c : SlotBusConfig) (w : World o)
    (used : o.is_mapped w.state r.ptr ≡ true) where
  abbrev slot : ℕ
  slot = slot_address i

  finish-eq-ok :
      (x : Outcome (Option (ShmRegion o)) × World o) (w' : World o) (ovf : Option (ShmRegion o))
      → finish target r i status meta_bytes body c w x ≡ (ok ovf, w')
      → (v : World o) × (x ≡ (ok ovf, v)) × (w' ≡ store_status r i slot_done v)
  unfolding finish
  finish-eq-ok (ok y, v) w' ovf h = (v, ground arith, ground arith)
  finish-eq-ok (err e, v) w' ovf h = absurd (ground arith)
  finish-eq-ok (panicked, v) w' ovf h = absurd (ground arith)

  -- The overflow region that comes out is not the control region.
  pub write_response-Elsewhere :
      (w' : World o) (ovf : Option (ShmRegion o))
      → write_response target r i status meta_bytes body c w ≡ (ok ovf, w')
      → Elsewhere r ovf
  unfolding placed with_status
  write_response-Elsewhere w' ovf h =
      let (v, put, last) =
        finish-eq-ok (placed target r i status meta_bytes body c w) w' ovf
          (sym (write_response_lem target r i status meta_bytes body c w inside) ∙ h) in
      place_payload-Elsewhere r laws target (slot + 68) (slot_arenas r i).response
        response_meta_full meta_bytes body (response_overflow_name_gen target c i) control.small
        (fields_fit target r i status meta_bytes body c w laws control inside short used)
        (half_fits target r i status meta_bytes body c w laws control inside short used) short
        (with_status target r i status meta_bytes body c w) v ovf used put

  status_kept :
      (v : World o) (ovf : Option (ShmRegion o))
      → placed target r i status meta_bytes body c w ≡ (ok ovf, v)
      → read_u16 (region_memory r v) (slot + 64) ≡ status % u16_mod
  status_kept v ovf put =
      let m = write_u16 (region_memory r w) (slot + 64) status in
      let last = ap (λ (z : Outcome (Option (ShmRegion o)) × World o). region_memory r z.1) put in
      let same : SameOn m (region_memory r v) (slot + 64) 2 =
        subst (λ z. SameOn m z (slot + 64) 2) last
          (placed-with_status target r i status meta_bytes body c w laws control inside short used
            (slot + 64) 2 (omega arith) (omega (arith, control.table, inside))) in
      read_u16-SameOn m (region_memory r v) (slot + 64) same
      ∙ read_u16-write_u16 (region_memory r w) (slot + 64) status

  pub write_response-AnswerAt :
      (w' : World o) (ovf : Option (ShmRegion o))
      → length meta_bytes < u16_mod
      → write_response target r i status meta_bytes body c w ≡ (ok ovf, w')
      → AnswerAt r i (response_overflow_name_gen target c i) status meta_bytes body w'
  unfolding placed with_status store_status
  write_response-AnswerAt w' ovf brief h =
      let (v, put, last) =
        finish-eq-ok (placed target r i status meta_bytes body c w) w' ovf
          (sym (write_response_lem target r i status meta_bytes body c w inside) ∙ h) in
      let (at, body_at) =
        place_payload-Stored r laws target (slot + 68) (slot_arenas r i).response response_meta_full
          meta_bytes body (response_overflow_name_gen target c i) control.small
          (fields_fit target r i status meta_bytes body c w laws control inside short used)
          (half_fits target r i status meta_bytes body c w laws control inside short used) short
          (with_status target r i status meta_bytes body c w) used v ovf brief put in
      let m = region_memory r v in
      let table = control.table in
      rw last (record {
        meta_at =
            MetaAt-SameOn r (slot + 68) meta_bytes m _ at
              (store_status-SameOn r i slot_done v (slot + 68) 6 (omega arith))
              (store_status-SameOn r i slot_done v (r.heap_offset + at.offset) (length meta_bytes)
                (omega arith));
        body_at =
            BodyAt-set_memory r (response_overflow_name_gen target c i) (slot + 68) body
              (write_u32 m slot slot_done) v
              (write_u32-SameOn m slot slot_done (slot + 68 + 8) 9 (omega arith))
              (write_u32-SameOn m slot slot_done r.heap_offset r.heap_size (omega arith)) body_at;
        code =
            read_u16-SameOn m _ (slot + 64)
              (store_status-SameOn r i slot_done v (slot + 64) 2 (omega arith))
            ∙ status_kept v ovf put;
      })

  -- Take a control region that is mapped, with its heap of less than 4 GiB right behind the
  -- table, and a slot of the table. If `write_response` accepts a response for that slot, then
  -- `read_response` on any handle with the same address and layout gives back the same status,
  -- metadata and body, whether the body went to the slot's half or to an overflow region. The
  -- status is a `u16`, the encoded metadata have less than 64 KiB and decode to the metadata,
  -- and the body has less than 4 GiB.
  pub read_response-write_response :
      (r' : ShmRegion o) (w' : World o) (ovf : Option (ShmRegion o))
      (postcard : Postcard ResponseMeta) (meta : ResponseMeta)
      → Agrees r r'
      → status < u16_mod
      → length meta_bytes < u16_mod
      → postcard.from_bytes meta_bytes ≡ coded meta
      → write_response target r i status meta_bytes body c w ≡ (ok ovf, w')
      → (read_response target r' postcard i c w').0
        ≡ ok (record { status = status; meta = meta; body = body })
  read_response-write_response r' w' ovf postcard meta g word brief decoded h =
      read_response-AnswerAt r i target r' c status meta_bytes body w' postcard meta control.small g
        word (write_response-AnswerAt w' ovf brief h) decoded
