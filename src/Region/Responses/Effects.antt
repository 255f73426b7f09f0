-- ===== src/Region/Responses/Effects.antt =====
-- What `write_response` changes, how it leaves the slot, and when it needs no overflow region.
use slotbus.Base.{
  ℕ, ◌+◌, ◌≤◌, ◌<◌, ◌≡◌, ◌⊎◌, inl, inr, ap, ◌∙◌, refl, arith, List, [], ◌∷◌, Option, none, length,
  u32_mod, true,
}
use slotbus.Error.{response_meta_full, Outcome, ok, err, panicked}
use slotbus.Memory.Laws.{SameOn-trans, read_u32-SameOn}
use slotbus.Types.{slot_arenas as types_slot_arenas, slot_done, align8}
use slotbus.Types.Arenas.{limit, slot_arenas_fit}
use slotbus.Config.{SlotBusConfig, response_overflow_name_gen}
use slotbus.Config.OsName.{Target}
use slotbus.Os.{Os, IsOs, World}
use slotbus.Region.{ShmRegion, region_memory, slot_address}
use slotbus.Region.Heap.{slot_arenas, inline_body_capacity}
use slotbus.Region.Slots.{load_status}
use slotbus.Region.Slots.Claim.{load_status-store_status}
use slotbus.Region.Payload.Whole.{place_payload_total}
use slotbus.Region.Payload.Mapped.{place_payload-StaysMapped}
use slotbus.Region.Slots.{store_status}
use slotbus.Region.Requests.Steps.{IsControl}
use slotbus.Region.Responses.{write_response}
use slotbus.Region.Responses.Steps.{
  with_status, placed, finish, write_response_lem, half_fits, fields_fit, placed-SameOn,
  finish-SameOn,
}

-- The status that a finished answer leaves.
abbrev pub answered : {A : Type 0} → Outcome A → ℕ → ℕ
answered (ok a) old = slot_done
answered (err e) old = old
answered panicked old = old

module _ {o : Os} (laws : IsOs o) (target : Target) (r : ShmRegion o) (control : IsControl r)
    (i : ℕ) (inside : i < r.num_slots) (status : ℕ) (meta_bytes body : List ℕ)
    (short : length body < u32_mod) (c : SlotBusConfig) (w : World o)
    (used : o.is_mapped w.state r.ptr ≡ true) where
  abbrev run : Outcome (Option (ShmRegion o)) × World o
  run = write_response target r i status meta_bytes body c w

  abbrev payload : Outcome (Option (ShmRegion o)) × World o
  payload = placed target r i status meta_bytes body c w

  -- Take a control region that is mapped, with its heap of less than 4 GiB right behind the
  -- table, a slot of the table, and a body of less than 4 GiB. Whatever comes of
  -- `write_response`, every byte of the control region stays, except the status word of the
  -- slot, its bytes 64 to 84, and the response half of its arena.
  pub write_response_confined :
      (x : ℕ)
      → (x < slot_address i) ⊎ (slot_address i + 4 ≤ x)
      → (x < slot_address i + 64) ⊎ (slot_address i + 85 ≤ x)
      → (x < r.heap_offset + (slot_arenas r i).response.offset)
        ⊎ (r.heap_offset + limit (slot_arenas r i).response ≤ x)
      → region_memory r run.1 x ≡ region_memory r w x
  write_response_confined x apart_status apart_fields apart_half =
      rw (write_response_lem target r i status meta_bytes body c w inside) (
        SameOn-trans (region_memory r w) (region_memory r payload.1) _ x 1
          (placed-SameOn target r i status meta_bytes body c w laws control inside short used x 1
            (omega arith) (omega arith))
          (finish-SameOn target r i status meta_bytes body c w payload x 1 (omega arith)) x
          (omega arith) (omega arith))

  finish-answered :
      (z : Outcome (Option (ShmRegion o)) × World o)
      → load_status r i (finish target r i status meta_bytes body c w z).1
        ≡ answered (finish target r i status meta_bytes body c w z).0 (load_status r i z.1)
  unfolding finish
  finish-answered (ok ovf, v) = load_status-store_status r i slot_done v (omega arith)
  finish-answered (err e, v) = refl
  finish-answered (panicked, v) = refl

  -- Take a control region that is mapped, with its heap of less than 4 GiB right behind the
  -- table, a slot of the table, and a body of less than 4 GiB. Where `write_response` succeeds,
  -- the slot is done afterwards; where it fails or panics, the status is what it was.
  pub write_response-answered : load_status r i run.1 ≡ answered run.0 (load_status r i w)
  unfolding load_status
  write_response-answered =
      let kept : load_status r i payload.1 ≡ load_status r i w =
        read_u32-SameOn (region_memory r w) (region_memory r payload.1) (slot_address i) (
          placed-SameOn target r i status meta_bytes body c w laws control inside short used
            (slot_address i) 4 (omega arith) (omega (arith, control.table, inside))) in
      rw (write_response_lem target r i status meta_bytes body c w inside) (
        finish-answered payload
        ∙ ap (answered (finish target r i status meta_bytes body c w payload).0) kept)

  -- Take a control region that is mapped, with its heap of less than 4 GiB right behind the
  -- table, and a slot of the table. Where the metadata fit the response half, and the body has
  -- less than 4 GiB and is not longer than `inline_body_capacity` says, which measures the
  -- request half, `write_response` succeeds and makes no overflow region.
  pub write_response_inline :
      length meta_bytes ≤ (slot_arenas r i).response.size
      → length body ≤ inline_body_capacity r (length meta_bytes)
      → run.0 ≡ ok none
  unfolding inline_body_capacity slot_arenas types_slot_arenas placed with_status finish
  write_response_inline fits room =
      rw (write_response_lem target r i status meta_bytes body c w inside)
        (finish_ok payload placed_ok)
    where
      finish_ok :
          (z : Outcome (Option (ShmRegion o)) × World o)
          → z.0 ≡ ok none
          → (finish target r i status meta_bytes body c w z).0 ≡ ok none
      finish_ok (ok ovf, v) h = h
      finish_ok (err e, v) h = absurd (ground arith)
      finish_ok (panicked, v) h = absurd (ground arith)

      smaller : (slot_arenas r 0).request.size ≤ (slot_arenas r i).response.size
      smaller = (slot_arenas_fit i r.num_slots r.heap_size inside (omega (arith, control.small))).5

      empty_or_fits :
          (b : List ℕ)
          → length b ≤ inline_body_capacity r (length meta_bytes)
          → (b ≡ []) ⊎ (align8 (length meta_bytes) + length b ≤ (slot_arenas r i).response.size)
      empty_or_fits [] h = inl refl
      empty_or_fits (x ∷ xs) h = inr (omega (arith, smaller))

      placed_ok : payload.0 ≡ ok none
      placed_ok =
          place_payload_total r laws target (slot_address i + 68) (slot_arenas r i).response
            response_meta_full meta_bytes body (response_overflow_name_gen target c i) control.small
            (fields_fit target r i status meta_bytes body c w laws control inside short used)
            (half_fits target r i status meta_bytes body c w laws control inside short used) short
            (with_status target r i status meta_bytes body c w) used fits (empty_or_fits body room)

  finish-mapped :
      (z : Outcome (Option (ShmRegion o)) × World o)
      → o.is_mapped z.1.state r.ptr ≡ true
      → o.is_mapped (finish target r i status meta_bytes body c w z).1.state r.ptr ≡ true
  unfolding finish store_status
  finish-mapped (ok ovf, v) h = h
  finish-mapped (err e, v) h = h
  finish-mapped (panicked, v) h = h

  pub write_response-mapped : o.is_mapped run.1.state r.ptr ≡ true
  unfolding placed with_status
  write_response-mapped = rw (write_response_lem target r i status meta_bytes body c w inside) (
      finish-mapped payload (
        place_payload-StaysMapped laws target r r.ptr (slot_address i + 68) body
          (response_overflow_name_gen target c i) short (slot_arenas r i).response
          response_meta_full meta_bytes (with_status target r i status meta_bytes body c w) used))
