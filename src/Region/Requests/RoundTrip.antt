-- ===== src/Region/Requests/RoundTrip.antt =====
-- A request that was written is read back by the worker.
use slotbus.Base.{
  ℕ, ◌+◌, ◌≤◌, ◌<◌, ◌≡◌, sym, ap, subst, ◌∙◌, arith, List, Option, length, take, min, Text, u16_mod,
  u32_mod, true,
}
use slotbus.Error.{request_meta_full, Outcome, ok, err, panicked}
use slotbus.Memory.{load, write_u32}
use slotbus.Memory.Laws.{SameOn, SameOn-trans, SameOn-sub, load-SameOn, write_u32-SameOn}
use slotbus.Types.{RequestMeta, slot_ready}
use slotbus.Types.Arenas.{limit, slot_arenas_fit}
use slotbus.Postcard.{Postcard, coded}
use slotbus.Config.{SlotBusConfig, request_overflow_name_gen}
use slotbus.Config.OsName.{Target}
use slotbus.Os.{Os, IsOs, World}
use slotbus.Region.{ShmRegion, region_memory, slot_address}
use slotbus.Region.Heap.{slot_arenas}
use slotbus.Region.Heap.Access.{set_memory_self}
use slotbus.Region.Slots.{store_status}
use slotbus.Region.Slots.Claim.{store_status-SameOn}
use slotbus.Region.Payload.Stored.{MetaAt, BodyAt, Agrees}
use slotbus.Region.Payload.Fields.{MetaAt-SameOn, BodyAt-set_memory}
use slotbus.Region.Payload.Whole.{place_payload-Stored, place_payload-SameOn}
use slotbus.Region.Payload.Owned.{Elsewhere, place_payload-Elsewhere}
use slotbus.Region.Requests.{put_identity, until_zero, write_request, read_request}
use slotbus.Region.Requests.Stored.{RequestAt, IsRequestId, read_request-RequestAt}
use slotbus.Region.Requests.Steps.{
  IsControl, put_identity_read, with_identity, placed, finish, write_request_lem,
}

module _ {o : Os} (laws : IsOs o) (target : Target) (r : ShmRegion o) (control : IsControl r)
    (i : ℕ) (inside : i < r.num_slots) (req_id : Text) (method : ℕ) (meta_bytes body : List ℕ)
    (short : length body < u32_mod) (c : SlotBusConfig) (w : World o)
    (used : o.is_mapped w.state r.ptr ≡ true) where
  abbrev pub slot : ℕ
  slot = slot_address i

  pub half_fits : limit (slot_arenas r i).request ≤ r.heap_size
  unfolding slot_arenas
  half_fits = (slot_arenas_fit i r.num_slots r.heap_size inside (omega (arith, control.small))).0

  pub fields_fit : slot + 44 + 17 ≤ r.heap_offset
  fields_fit = omega (arith, control.table, inside)

  finish-eq-ok :
      (x : Outcome (Option (ShmRegion o)) × World o) (w' : World o) (ovf : Option (ShmRegion o))
      → finish target r i req_id method meta_bytes body c w x ≡ (ok ovf, w')
      → (v : World o) × (x ≡ (ok ovf, v)) × (w' ≡ store_status r i slot_ready v)
  unfolding finish
  finish-eq-ok (ok y, v) w' ovf h = (v, ground arith, ground arith)
  finish-eq-ok (err e, v) w' ovf h = absurd (ground arith)
  finish-eq-ok (panicked, v) w' ovf h = absurd (ground arith)

  -- What the writer has left: the payload, and the identity.
  pub record Written (w' : World o) : Type 0 where
    pub meta : MetaAt r (slot + 44) meta_bytes (region_memory r w')
    pub body_at : BodyAt r (request_overflow_name_gen target c i) (slot + 44) body w'
    pub identity :
        SameOn
          (put_identity (region_memory r w) slot req_id method)
          (region_memory r w')
          (slot + 4)
          37

  untouched :
      (v : World o) (ovf : Option (ShmRegion o))
      → placed target r i req_id method meta_bytes body c w ≡ (ok ovf, v)
      → SameOn
          (put_identity (region_memory r w) slot req_id method)
          (region_memory r v)
          (slot + 4)
          37
  unfolding placed with_identity
  untouched v ovf put =
      let m = put_identity (region_memory r w) slot req_id method in
      let start = with_identity target r i req_id method meta_bytes body c w in
      let seen : region_memory r start ≡ m = set_memory_self r m w in
      let after = region_memory r (placed target r i req_id method meta_bytes body c w).1 in
      let last = ap (λ (z : Outcome (Option (ShmRegion o)) × World o). region_memory r z.1) put in
      let same =
        place_payload-SameOn r laws target (slot + 44) (slot_arenas r i).request request_meta_full
          meta_bytes body (request_overflow_name_gen target c i) control.small fields_fit half_fits
          short start used (slot + 4) 37 (omega arith) (omega (arith, control.table, inside)) in
      subst (λ z. SameOn m z (slot + 4) 37) last
        (subst (λ z. SameOn z after (slot + 4) 37) seen same)

  pub written :
      (w' : World o) (ovf : Option (ShmRegion o))
      → length meta_bytes < u16_mod
      → write_request target r i req_id method meta_bytes body c w ≡ (ok ovf, w')
      → Written w'
  unfolding placed with_identity store_status
  written w' ovf brief h =
      let (v, put, last) =
        finish-eq-ok (placed target r i req_id method meta_bytes body c w) w' ovf
          (sym (write_request_lem target r i req_id method meta_bytes body c w inside) ∙ h) in
      let (at, body_at) =
        place_payload-Stored r laws target (slot + 44) (slot_arenas r i).request request_meta_full
          meta_bytes body (request_overflow_name_gen target c i) control.small fields_fit half_fits
          short (with_identity target r i req_id method meta_bytes body c w) used v ovf brief put in
      let m = region_memory r v in
      let table = control.table in
      rw last (record {
        meta =
            MetaAt-SameOn r (slot + 44) meta_bytes m _ at
              (store_status-SameOn r i slot_ready v (slot + 44) 6 (omega arith))
              (store_status-SameOn r i slot_ready v (r.heap_offset + at.offset) (length meta_bytes)
                (omega arith));
        body_at =
            BodyAt-set_memory r (request_overflow_name_gen target c i) (slot + 44) body
              (write_u32 m slot slot_ready) v
              (write_u32-SameOn m slot slot_ready (slot + 44 + 8) 9 (omega arith))
              (write_u32-SameOn m slot slot_ready r.heap_offset r.heap_size (omega arith)) body_at;
        identity =
            SameOn-trans _ m _ (slot + 4) 37 (untouched v ovf put)
              (store_status-SameOn r i slot_ready v (slot + 4) 37 (omega arith));
      })

  -- The overflow region that comes out is not the control region.
  pub write_request-Elsewhere :
      (w' : World o) (ovf : Option (ShmRegion o))
      → write_request target r i req_id method meta_bytes body c w ≡ (ok ovf, w')
      → Elsewhere r ovf
  unfolding placed with_identity
  write_request-Elsewhere w' ovf h =
      let (v, put, last) =
        finish-eq-ok (placed target r i req_id method meta_bytes body c w) w' ovf
          (sym (write_request_lem target r i req_id method meta_bytes body c w inside) ∙ h) in
      place_payload-Elsewhere r laws target (slot + 44) (slot_arenas r i).request request_meta_full
        meta_bytes body (request_overflow_name_gen target c i) control.small fields_fit half_fits
        short (with_identity target r i req_id method meta_bytes body c w) v ovf used put

  pub req_id_read :
      (w' : World o)
      → Written w'
      → until_zero (load (region_memory r w') (slot + 4) 36)
        ≡ until_zero (take (min (length req_id) 36) req_id)
  req_id_read w' at =
      let m = put_identity (region_memory r w) slot req_id method in
      ap until_zero (
        load-SameOn m (region_memory r w') (slot + 4) 36 (
          SameOn-sub m (region_memory r w') (slot + 4) 37 (slot + 4) 36 (omega arith) (omega arith)
            (at.identity)))
      ∙ put_identity_read (region_memory r w) slot req_id method

  pub method_read : (w' : World o) → Written w' → region_memory r w' (slot + 40) ≡ method
  method_read w' at = at.identity (slot + 40) (omega arith) (omega arith) ∙ ground arith

  pub Written-RequestAt :
      (w' : World o)
      → Written w'
      → RequestAt r i (request_overflow_name_gen target c i) req_id method meta_bytes body w'
  Written-RequestAt w' at = record {
    meta_at = at.meta;
    body_at = at.body_at;
    id_field = req_id_read w' at;
    method_field = method_read w' at;
  }

  -- Take a control region that is mapped, with its heap of less than 4 GiB right behind the
  -- table, and a slot of the table. If `write_request` accepts a request for that slot, then
  -- `read_request` on any handle with the same address and layout gives back the same id,
  -- method, metadata and body, whether the body went to the slot's half or to an overflow
  -- region. The id has at most 36 bytes of ASCII and no zero, the encoded metadata have less
  -- than 64 KiB and decode to the metadata, and the body has less than 4 GiB.
  pub read_request-write_request :
      (r' : ShmRegion o) (w' : World o) (ovf : Option (ShmRegion o))
      (postcard : Postcard RequestMeta) (meta : RequestMeta)
      → Agrees r r'
      → IsRequestId req_id
      → length meta_bytes < u16_mod
      → postcard.from_bytes meta_bytes ≡ coded meta
      → write_request target r i req_id method meta_bytes body c w ≡ (ok ovf, w')
      → (read_request target r' postcard i c w').0
        ≡ ok (record { req_id = req_id; method = method; meta = meta; body = body })
  read_request-write_request r' w' ovf postcard meta g id brief decoded h =
      read_request-RequestAt r i target r' c req_id method meta_bytes body w' postcard meta
        control.small g id (Written-RequestAt w' (written w' ovf brief h)) decoded
