-- ===== src/Region/Requests/Effects.antt =====
-- What `write_request` changes, how it leaves the slot, and when it needs no overflow region.
use slotbus.Base.{
  ℕ, ◌+◌, ◌≤◌, ◌<◌, ◌≡◌, ◌⊎◌, inl, inr, refl, sym, ap, subst, ◌∙◌, arith, List, [], ◌∷◌, Option,
  none, length, Text, u32_mod, true,
}
use slotbus.Error.{request_meta_full, Outcome, ok, err, panicked}
use slotbus.Memory.Laws.{SameOn, SameOn-trans, SameOn-refl, Apart, read_u32-SameOn}
use slotbus.Types.{slot_ready, slot_free, align8, slot_arenas as types_slot_arenas}
use slotbus.Types.Arenas.{limit}
use slotbus.Config.{SlotBusConfig, request_overflow_name_gen}
use slotbus.Config.OsName.{Target}
use slotbus.Os.{Os, IsOs, World}
use slotbus.Region.{ShmRegion, region_memory, slot_address}
use slotbus.Region.Heap.{slot_arenas, inline_body_capacity}
use slotbus.Region.Heap.Access.{set_memory_self}
use slotbus.Region.Slots.{load_status}
use slotbus.Region.Slots.Claim.{store_status-SameOn, load_status-store_status}
use slotbus.Region.Payload.Whole.{place_payload-SameOn, place_payload_total}
use slotbus.Region.Payload.Mapped.{place_payload-StaysMapped}
use slotbus.Region.Slots.{store_status}
use slotbus.Region.Requests.{put_identity, write_request}
use slotbus.Region.Requests.Steps.{
  IsControl, put_identity-SameOn, with_identity, placed, finish, write_request_lem,
}
use slotbus.Region.Requests.RoundTrip.{half_fits, fields_fit}

-- The status that a finished write leaves.
abbrev pub settled : {A : Type 0} → Outcome A → ℕ → ℕ
settled (ok a) old = slot_ready
settled (err e) old = slot_free
settled panicked old = old

module _ {o : Os} (laws : IsOs o) (target : Target) (r : ShmRegion o) (control : IsControl r)
    (i : ℕ) (inside : i < r.num_slots) (req_id : Text) (method : ℕ) (meta_bytes body : List ℕ)
    (short : length body < u32_mod) (c : SlotBusConfig) (w : World o)
    (used : o.is_mapped w.state r.ptr ≡ true) where
  abbrev run : Outcome (Option (ShmRegion o)) × World o
  run = write_request target r i req_id method meta_bytes body c w

  abbrev payload : Outcome (Option (ShmRegion o)) × World o
  payload = placed target r i req_id method meta_bytes body c w

  -- Up to the last step, everything stays but the identity, the payload's fields, and the half.
  payload-SameOn :
      (a n : ℕ)
      → Apart a n (slot_address i + 4) 57
      → Apart a n (r.heap_offset + (slot_arenas r i).request.offset) (slot_arenas r i).request.size
      → SameOn (region_memory r w) (region_memory r payload.1) a n
  unfolding placed with_identity
  payload-SameOn a n apart_slot apart_half =
      let m = put_identity (region_memory r w) (slot_address i) req_id method in
      let start = with_identity target r i req_id method meta_bytes body c w in
      let seen : region_memory r start ≡ m = set_memory_self r m w in
      let first =
        put_identity-SameOn (region_memory r w) (slot_address i) req_id method a n (omega arith) in
      SameOn-trans (region_memory r w) (region_memory r start) (region_memory r payload.1) a n
        (subst (λ z. SameOn (region_memory r w) z a n) (sym seen) first)
        (place_payload-SameOn r laws target (slot_address i + 44) (slot_arenas r i).request
          request_meta_full meta_bytes body (request_overflow_name_gen target c i) control.small
          (fields_fit laws target r control i inside req_id method meta_bytes body short c w used)
          (half_fits laws target r control i inside req_id method meta_bytes body short c w used)
          short start used a n (omega arith) apart_half)

  finish-SameOn :
      (z : Outcome (Option (ShmRegion o)) × World o) (a n : ℕ)
      → Apart a n (slot_address i) 4
      → SameOn
          (region_memory r z.1)
          (region_memory r (finish target r i req_id method meta_bytes body c w z).1)
          a
          n
  unfolding finish
  finish-SameOn (ok ovf, v) a n h = store_status-SameOn r i slot_ready v a n h
  finish-SameOn (err e, v) a n h = store_status-SameOn r i slot_free v a n h
  finish-SameOn (panicked, v) a n h = SameOn-refl (region_memory r v) a n

  pub write_request_confined :
      (x : ℕ)
      → (x < slot_address i) ⊎ (slot_address i + 61 ≤ x)
      → (x < r.heap_offset + (slot_arenas r i).request.offset)
        ⊎ (r.heap_offset + limit (slot_arenas r i).request ≤ x)
      → region_memory r run.1 x ≡ region_memory r w x
  write_request_confined x apart_slot apart_half =
      rw (write_request_lem target r i req_id method meta_bytes body c w inside) (
        SameOn-trans (region_memory r w) (region_memory r payload.1) _ x 1
          (payload-SameOn x 1 (omega arith) (omega arith)) (finish-SameOn payload x 1 (omega arith))
          x (omega arith) (omega arith))

  finish-settled :
      (z : Outcome (Option (ShmRegion o)) × World o)
      → load_status r i (finish target r i req_id method meta_bytes body c w z).1
        ≡ settled (finish target r i req_id method meta_bytes body c w z).0 (load_status r i z.1)
  unfolding finish
  finish-settled (ok ovf, v) = load_status-store_status r i slot_ready v (omega arith)
  finish-settled (err e, v) = load_status-store_status r i slot_free v (omega arith)
  finish-settled (panicked, v) = refl

  -- Take a control region that is mapped, with its heap of less than 4 GiB right behind the
  -- table, a slot of the table, and a body of less than 4 GiB. Where `write_request` succeeds,
  -- the slot is ready afterwards; where it fails, the slot is free; where it panics, the status
  -- is what it was.
  pub write_request-settled : load_status r i run.1 ≡ settled run.0 (load_status r i w)
  unfolding load_status
  write_request-settled =
      let kept : load_status r i payload.1 ≡ load_status r i w =
        read_u32-SameOn (region_memory r w) (region_memory r payload.1) (slot_address i) (
          payload-SameOn (slot_address i) 4 (omega arith) (omega (arith, control.table, inside))) in
      rw (write_request_lem target r i req_id method meta_bytes body c w inside) (
        finish-settled payload
        ∙ ap (settled (finish target r i req_id method meta_bytes body c w payload).0) kept)

  -- Take a control region that is mapped, with its heap of less than 4 GiB right behind the
  -- table, and a slot of the table. Where the metadata fit the request half, and the body has
  -- less than 4 GiB and is not longer than `inline_body_capacity` says, `write_request` succeeds
  -- and makes no overflow region.
  pub write_request_inline :
      length meta_bytes ≤ (slot_arenas r i).request.size
      → length body ≤ inline_body_capacity r (length meta_bytes)
      → run.0 ≡ ok none
  unfolding inline_body_capacity slot_arenas types_slot_arenas placed with_identity finish
  write_request_inline fits room =
      rw (write_request_lem target r i req_id method meta_bytes body c w inside)
        (finish_ok payload placed_ok)
    where
      finish_ok :
          (z : Outcome (Option (ShmRegion o)) × World o)
          → z.0 ≡ ok none
          → (finish target r i req_id method meta_bytes body c w z).0 ≡ ok none
      finish_ok (ok ovf, v) h = h
      finish_ok (err e, v) h = absurd (ground arith)
      finish_ok (panicked, v) h = absurd (ground arith)

      same_half : (slot_arenas r 0).request.size ≡ (slot_arenas r i).request.size
      same_half = refl

      empty_or_fits :
          (b : List ℕ)
          → length b ≤ inline_body_capacity r (length meta_bytes)
          → (b ≡ []) ⊎ (align8 (length meta_bytes) + length b ≤ (slot_arenas r i).request.size)
      empty_or_fits [] h = inl refl
      empty_or_fits (x ∷ xs) h = inr (omega (arith, same_half))

      placed_ok : payload.0 ≡ ok none
      placed_ok =
          place_payload_total r laws target (slot_address i + 44) (slot_arenas r i).request
            request_meta_full meta_bytes body (request_overflow_name_gen target c i) control.small
            (fields_fit laws target r control i inside req_id method meta_bytes body short c w used)
            (half_fits laws target r control i inside req_id method meta_bytes body short c w used)
            short (with_identity target r i req_id method meta_bytes body c w) used fits
            (empty_or_fits body room)

  finish-mapped :
      (z : Outcome (Option (ShmRegion o)) × World o)
      → o.is_mapped z.1.state r.ptr ≡ true
      → o.is_mapped (finish target r i req_id method meta_bytes body c w z).1.state r.ptr ≡ true
  unfolding finish store_status
  finish-mapped (ok ovf, v) h = h
  finish-mapped (err e, v) h = h
  finish-mapped (panicked, v) h = h

  pub write_request-mapped : o.is_mapped run.1.state r.ptr ≡ true
  unfolding placed with_identity
  write_request-mapped =
      rw (write_request_lem target r i req_id method meta_bytes body c w inside) (
        finish-mapped payload (
          place_payload-StaysMapped laws target r r.ptr (slot_address i + 44) body
            (request_overflow_name_gen target c i) short (slot_arenas r i).request request_meta_full
            meta_bytes (with_identity target r i req_id method meta_bytes body c w) used))
