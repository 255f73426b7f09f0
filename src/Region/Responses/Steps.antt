-- ===== src/Region/Responses/Steps.antt =====
-- The steps of `write_response`, and what they leave alone.
use slotbus.Base.{
  ℕ, ◌+◌, ◌≤◌, ◌<◌, ◌≡◌, refl, subst, arith, List, Option, length, u32_mod, lt→not-leb, le→leb,
  true,
}
use slotbus.Error.{
  invalid_region, response_index_out_of_range, response_meta_full, Outcome, ok, err, panicked,
}
use slotbus.Memory.{write_u16}
use slotbus.Memory.Laws.{SameOn, Apart, SameOn-refl, SameOn-trans, write_u16-SameOn}
use slotbus.Types.{slot_done}
use slotbus.Types.Arenas.{limit, slot_arenas_fit}
use slotbus.Config.{SlotBusConfig, response_overflow_name_gen}
use slotbus.Config.OsName.{Target}
use slotbus.Os.{Os, IsOs, World, continue, ◌>>◌, pure}
use slotbus.Region.{ShmRegion, region_memory, set_memory, slot_address}
use slotbus.Region.Heap.{slot_arenas}
use slotbus.Region.Heap.Access.{set_memory_self}
use slotbus.Region.Slots.{store_status}
use slotbus.Region.Slots.Claim.{store_status-SameOn}
use slotbus.Region.Payload.{place_payload}
use slotbus.Region.Payload.Whole.{place_payload-SameOn}
use slotbus.Region.Requests.{set_status}
use slotbus.Region.Requests.Steps.{IsControl}
use slotbus.Region.Responses.{write_response}

module _ {o : Os} (target : Target) (r : ShmRegion o) (i : ℕ) (status : ℕ)
    (meta_bytes body : List ℕ) (c : SlotBusConfig) (w : World o) where
  -- The state behind the first step.
  unfoldable pub with_status : World o
  with_status = set_memory r (write_u16 (region_memory r w) (slot_address i + 64) status) w

  -- The payload of the response, placed from there.
  unfoldable pub placed : Outcome (Option (ShmRegion o)) × World o
  unfolding with_status
  placed =
      place_payload target r (slot_address i + 68) (slot_arenas r i).response response_meta_full
        meta_bytes body (response_overflow_name_gen target c i) with_status

  -- A response in the table is placed; then the slot becomes done, if all went well.
  unfoldable pub finish :
      Outcome (Option (ShmRegion o)) × World o → Outcome (Option (ShmRegion o)) × World o
  finish (ok ovf, v) = (ok ovf, store_status r i slot_done v)
  finish (err e, v) = (err e, v)
  finish (panicked, v) = (panicked, v)

  pub write_response_lem :
      i < r.num_slots → write_response target r i status meta_bytes body c w ≡ finish placed
  unfolding write_response finish placed with_status set_status
  write_response_lem h = rw (lt→not-leb r.num_slots i h) (by_result placed)
    where
      by_result :
          (x : Outcome (Option (ShmRegion o)) × World o)
          → continue x (λ overflow. set_status r i slot_done >> pure overflow) ≡ finish x
      by_result (ok ovf, v) = refl
      by_result (err e, v) = refl
      by_result (panicked, v) = refl

  pub write_response_refuses :
      r.num_slots ≤ i
      → write_response target r i status meta_bytes body c w
        ≡ (err (invalid_region (response_index_out_of_range i r.num_slots)), w)
  unfolding write_response
  write_response_refuses h = rw (le→leb r.num_slots i h)

  module _ (laws : IsOs o) (control : IsControl r) (inside : i < r.num_slots)
      (short : length body < u32_mod) (used : o.is_mapped w.state r.ptr ≡ true) where
    pub half_fits : limit (slot_arenas r i).response ≤ r.heap_size
    unfolding slot_arenas
    half_fits = (slot_arenas_fit i r.num_slots r.heap_size inside (omega (arith, control.small))).1

    pub fields_fit : slot_address i + 68 + 17 ≤ r.heap_offset
    fields_fit = omega (arith, control.table, inside)

    -- Behind the first step, everything stays but the payload's fields and the half.
    pub placed-with_status :
        (a n : ℕ)
        → Apart a n (slot_address i + 68) 17
        → Apart a n
            (r.heap_offset + (slot_arenas r i).response.offset)
            (slot_arenas r i).response.size
        → SameOn
            (write_u16 (region_memory r w) (slot_address i + 64) status)
            (region_memory r placed.1)
            a
            n
    unfolding placed with_status
    placed-with_status a n apart_slot apart_half =
        let m = write_u16 (region_memory r w) (slot_address i + 64) status in
        let seen : region_memory r with_status ≡ m = set_memory_self r m w in
        subst (λ z. SameOn z (region_memory r placed.1) a n) seen
          (place_payload-SameOn r laws target (slot_address i + 68) (slot_arenas r i).response
            response_meta_full meta_bytes body (response_overflow_name_gen target c i) control.small
            fields_fit half_fits short with_status used a n apart_slot apart_half)

    pub placed-SameOn :
        (a n : ℕ)
        → Apart a n (slot_address i + 64) 21
        → Apart a n
            (r.heap_offset + (slot_arenas r i).response.offset)
            (slot_arenas r i).response.size
        → SameOn (region_memory r w) (region_memory r placed.1) a n
    placed-SameOn a n apart_slot apart_half =
        SameOn-trans (region_memory r w)
          (write_u16 (region_memory r w) (slot_address i + 64) status) (region_memory r placed.1) a
          n (write_u16-SameOn (region_memory r w) (slot_address i + 64) status a n (omega arith))
          (placed-with_status a n (omega arith) apart_half)

  pub finish-SameOn :
      (z : Outcome (Option (ShmRegion o)) × World o) (a n : ℕ)
      → Apart a n (slot_address i) 4
      → SameOn (region_memory r z.1) (region_memory r (finish z).1) a n
  unfolding finish
  finish-SameOn (ok ovf, v) a n h = store_status-SameOn r i slot_done v a n h
  finish-SameOn (err e, v) a n h = SameOn-refl (region_memory r v) a n
  finish-SameOn (panicked, v) a n h = SameOn-refl (region_memory r v) a n
