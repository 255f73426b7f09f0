-- ===== src/Region/Requests.antt =====
-- `write_request` and `read_request` of slotbus/src/region.rs.
pub mod Steps
pub mod Stored
pub mod RoundTrip
pub mod Effects
pub mod Refused
use slotbus.Base.{
  ℕ, ◌+◌, List, Option, none, some, if◌then◌else◌, leb, length, min, take, ◌==◌, Text, [], ◌∷◌,
}
use slotbus.Error.{
  SlotBusError, invalid_region, request_index_out_of_range, request_meta_full, Outcome, ok, err,
  panicked,
}
use slotbus.Memory.{Memory, poke, store, fill, load}
use slotbus.Types.{RequestMeta, Halves, slot_free, slot_ready}
use slotbus.Config.{SlotBusConfig, request_overflow_name_gen}
use slotbus.Config.OsName.{Target}
use slotbus.Utf8.{from_utf8_lossy}
use slotbus.Postcard.{Postcard}
use slotbus.Os.{Os, World, M, ◌>>=◌, ◌>>◌, pure, fail}
use slotbus.Region.{ShmRegion, region_memory, set_memory, slot_address}
use slotbus.Region.Heap.{slot_arenas}
use slotbus.Region.Slots.{store_status}
use slotbus.Region.Payload.{modify, place_payload, read_payload}

-- The request id, cut to 36 bytes and padded with zeros, and the method.
abbrev pub put_identity : Memory → ℕ → Text → ℕ → Memory
put_identity m slot req_id method =
    poke (store (fill m (slot + 4) 0 36) (slot + 4) (take (min (length req_id) 36) req_id))
      (slot + 40) method

-- The bytes in front of the first zero, or all 36.
abbrev pub until_zero : List ℕ → List ℕ
until_zero [] = []
until_zero (b ∷ bs) = let rest = b ∷ until_zero bs in if b == 0 then [] else rest

-- A received request, as `read_request` gives it.
pub record Received : Type 0 where
  pub req_id : Text
  pub method : ℕ
  pub meta : RequestMeta
  pub body : List ℕ

module _ {o : Os} where
  unfoldable pub set_status : ShmRegion o → ℕ → ℕ → M (World o) (Unit {0})
  unfolding store_status
  set_status r index status w = (ok tt, store_status r index status w)

  -- `req_id` of a slot, as a text.
  unfoldable pub read_req_id : ShmRegion o → ℕ → World o → Text
  unfolding from_utf8_lossy
  read_req_id r index w =
      from_utf8_lossy (until_zero (load (region_memory r w) (slot_address index + 4) 36))

  module _ (target : Target) (r : ShmRegion o) where
    unfoldable pub write_request_inner :
        ℕ → Text → ℕ → List ℕ → List ℕ → SlotBusConfig → M (World o) (Option (ShmRegion o))
    write_request_inner slot_index req_id method meta_bytes body c =
        if leb r.num_slots slot_index
        then fail (invalid_region (request_index_out_of_range slot_index r.num_slots))
        else do
          modify r (λ m. put_identity m (slot_address slot_index) req_id method)
          overflow ←
              place_payload target r (slot_address slot_index + 44)
                (slot_arenas r slot_index).request request_meta_full meta_bytes body
                (request_overflow_name_gen target c slot_index)
          set_status r slot_index slot_ready
          pure overflow

    -- On an error the slot is set back to free.
    abbrev pub free_on_error :
        ℕ → Outcome (Option (ShmRegion o)) × World o → Outcome (Option (ShmRegion o)) × World o
    free_on_error slot_index (ok overflow, w) = (ok overflow, w)
    free_on_error slot_index (err e, w) = (err e, store_status r slot_index slot_free w)
    free_on_error slot_index (panicked, w) = (panicked, w)

    unfoldable pub write_request :
        ℕ → Text → ℕ → List ℕ → List ℕ → SlotBusConfig → M (World o) (Option (ShmRegion o))
    unfolding write_request_inner
    write_request slot_index req_id method meta_bytes body c w =
        free_on_error slot_index (write_request_inner slot_index req_id method meta_bytes body c w)

    unfoldable pub read_request : Postcard RequestMeta → ℕ → SlotBusConfig → M (World o) Received
    unfolding read_req_id
    read_request postcard slot_index c w =
        let m = region_memory r w in
        let slot = slot_address slot_index in
        let req_id = read_req_id r slot_index w in
        let method = m (slot + 40) in
        (do
          payload ←
              read_payload target r (slot + 44) postcard.from_bytes
                (request_overflow_name_gen target c slot_index)
          pure (record { req_id = req_id; method = method; meta = payload.0; body = payload.1 }))
          w
