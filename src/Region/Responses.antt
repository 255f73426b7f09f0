-- ===== src/Region/Responses.antt =====
-- `write_response` and `read_response` of slotbus/src/region.rs.
pub mod Steps
pub mod Stored
pub mod Effects
pub mod RoundTrip
use slotbus.Base.{ℕ, ◌+◌, List, Option, if◌then◌else◌, leb}
use slotbus.Error.{invalid_region, response_index_out_of_range, response_meta_full}
use slotbus.Memory.{write_u16, read_u16}
use slotbus.Types.{ResponseMeta, slot_done}
use slotbus.Config.{SlotBusConfig, response_overflow_name_gen}
use slotbus.Config.OsName.{Target}
use slotbus.Postcard.{Postcard}
use slotbus.Os.{Os, World, M, ◌>>=◌, ◌>>◌, pure, fail}
use slotbus.Region.{ShmRegion, region_memory, slot_address}
use slotbus.Region.Heap.{slot_arenas}
use slotbus.Region.Payload.{modify, place_payload, read_payload}
use slotbus.Region.Requests.{set_status}

-- A received response, as `read_response` gives it.
pub record Answer : Type 0 where
  pub status : ℕ
  pub meta : ResponseMeta
  pub body : List ℕ

module _ {o : Os} (target : Target) (r : ShmRegion o) where
  -- On an error the slot stays as it is: the caller frees it.
  unfoldable pub write_response :
      ℕ → ℕ → List ℕ → List ℕ → SlotBusConfig → M (World o) (Option (ShmRegion o))
  write_response slot_index status meta_bytes body c =
      if leb r.num_slots slot_index
      then fail (invalid_region (response_index_out_of_range slot_index r.num_slots))
      else do
        modify r (λ m. write_u16 m (slot_address slot_index + 64) status)
        overflow ←
            place_payload target r (slot_address slot_index + 68)
              (slot_arenas r slot_index).response response_meta_full meta_bytes body
              (response_overflow_name_gen target c slot_index)
        set_status r slot_index slot_done
        pure overflow

  unfoldable pub read_response : Postcard ResponseMeta → ℕ → SlotBusConfig → M (World o) Answer
  read_response postcard slot_index c w =
      let status = read_u16 (region_memory r w) (slot_address slot_index + 64) in
      (do
        payload ←
            read_payload target r (slot_address slot_index + 68) postcard.from_bytes
              (response_overflow_name_gen target c slot_index)
        pure (record { status = status; meta = payload.0; body = payload.1 }))
        w
