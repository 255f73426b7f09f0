-- ===== src/Region/Isolation.antt =====
-- What the operations on one slot leave alone of the others, and what an answer leaves of the request.
use slotbus.Base.{
  ℕ, ◌+◌, ◌≤◌, ◌<◌, ◌≡◌, ◌≢◌, ◌⊎◌, inl, ap, ◌∙◌, arith, List, length, Text, u32_mod, true,
}
use slotbus.Types.{Span}
use slotbus.Types.Arenas.{limit, slot_arenas_fit, slot_arenas-IsApart}
use slotbus.Config.{SlotBusConfig}
use slotbus.Config.OsName.{Target}
use slotbus.Os.{Os, IsOs, World}
use slotbus.Region.{ShmRegion, region_memory, slot_address}
use slotbus.Region.Heap.{slot_arenas}
use slotbus.Region.Requests.{write_request}
use slotbus.Memory.{Memory}
use slotbus.Memory.Laws.{read_u32-SameOn}
use slotbus.Region.Slots.{load_status, store_status}
use slotbus.Region.Slots.Claim.{store_status-SameOn}
use slotbus.Region.Requests.Steps.{IsControl}
use slotbus.Region.Requests.Effects.{write_request_confined}
use slotbus.Region.Responses.{write_response}
use slotbus.Region.Responses.Effects.{write_response_confined}

-- The addresses of a span of the heap.
abbrev pub Within : {o : Os} → ShmRegion o → Span → ℕ → Type 0
Within r s x = (r.heap_offset + s.offset ≤ x) × (x < r.heap_offset + limit s)

-- The addresses that belong to a slot: its entry in the table, and the halves of its arena.
abbrev pub Owns : {o : Os} → ShmRegion o → ℕ → ℕ → Type 0
Owns r i x =
    ((slot_address i ≤ x) × (x < slot_address i + 128))
    ⊎ (Within r (slot_arenas r i).request x ⊎ Within r (slot_arenas r i).response x)

module _ {o : Os} (r : ShmRegion o) (control : IsControl r) where
  -- The entries of two slots are apart.
  entries_apart :
      (i j : ℕ)
      → i ≢ j
      → (slot_address i + 128 ≤ slot_address j) ⊎ (slot_address j + 128 ≤ slot_address i)
  entries_apart i j ne = omega arith

  -- What belongs to a slot lies outside the entry and the halves of every other.
  foreign :
      (i j x : ℕ)
      → i < r.num_slots
      → j < r.num_slots
      → i ≢ j
      → Owns r i x
      → ((x < slot_address j) ⊎ (slot_address j + 128 ≤ x))
        × ((x < r.heap_offset + (slot_arenas r j).request.offset)
            ⊎ (r.heap_offset + limit (slot_arenas r j).request ≤ x))
        × ((x < r.heap_offset + (slot_arenas r j).response.offset)
            ⊎ (r.heap_offset + limit (slot_arenas r j).response ≤ x))
  unfolding slot_arenas
  foreign i j x hi hj ne owns =
      let table = control.table in
      let apart =
        slot_arenas-IsApart i j r.num_slots r.heap_size hi hj ne (omega (arith, control.small)) in
      ground arith

  -- The request half and the entry's request part stay clear of the response's part.
  own_request :
      (i x : ℕ)
      → i < r.num_slots
      → ((slot_address i + 4 ≤ x) × (x < slot_address i + 64))
        ⊎ Within r (slot_arenas r i).request x
      → ((x < slot_address i) ⊎ (slot_address i + 4 ≤ x))
        × ((x < slot_address i + 64) ⊎ (slot_address i + 85 ≤ x))
        × ((x < r.heap_offset + (slot_arenas r i).response.offset)
            ⊎ (r.heap_offset + limit (slot_arenas r i).response ≤ x))
  unfolding slot_arenas
  own_request i x hi own =
      let table = control.table in
      let fit = slot_arenas_fit i r.num_slots r.heap_size hi (omega (arith, control.small)) in
      ground arith

  module _ (laws : IsOs o) (target : Target) (j : ℕ) (inside : j < r.num_slots)
      (meta_bytes body : List ℕ) (short : length body < u32_mod) (c : SlotBusConfig) (w : World o)
      (used : o.is_mapped w.state r.ptr ≡ true) where
    -- Take a control region that is mapped, with its heap of less than 4 GiB right behind the table,
    -- two different slots of the table, and a body of less than 4 GiB. Whatever comes of
    -- `write_request` to the one slot, no byte of the other slot's entry or of its two halves
    -- changes.
    pub write_request_isolated :
        (req_id : Text) (method i x : ℕ)
        → i < r.num_slots
        → i ≢ j
        → Owns r i x
        → region_memory r (write_request target r j req_id method meta_bytes body c w).1 x
          ≡ region_memory r w x
    write_request_isolated req_id method i x hi ne owns =
        let (entry, request, response) = foreign i j x hi inside ne owns in
        write_request_confined laws target r control j inside req_id method meta_bytes body short c
          w used x (omega arith) request

    -- Take a control region that is mapped, with its heap of less than 4 GiB right behind the table,
    -- two different slots of the table, and a body of less than 4 GiB. Whatever comes of
    -- `write_response` to the one slot, no byte of the other slot's entry or of its two halves
    -- changes.
    pub write_response_isolated :
        (status i x : ℕ)
        → i < r.num_slots
        → i ≢ j
        → Owns r i x
        → region_memory r (write_response target r j status meta_bytes body c w).1 x
          ≡ region_memory r w x
    write_response_isolated status i x hi ne owns =
        let (entry, request, response) = foreign i j x hi inside ne owns in
        write_response_confined laws target r control j inside status meta_bytes body short c w used
          x (omega arith) (omega arith) response

    -- Take a control region that is mapped, with its heap of less than 4 GiB right behind the table,
    -- a slot of the table, and a body of less than 4 GiB. Whatever comes of `write_response` to the
    -- slot, the bytes 4 to 63 of its entry, where the request's fields are, and its request half
    -- stay as they were.
    pub write_response_keeps_request :
        (status x : ℕ)
        → ((slot_address j + 4 ≤ x) × (x < slot_address j + 64))
          ⊎ Within r (slot_arenas r j).request x
        → region_memory r (write_response target r j status meta_bytes body c w).1 x
          ≡ region_memory r w x
    write_response_keeps_request status x own =
        let (entry, fields, response) = own_request j x inside own in
        write_response_confined laws target r control j inside status meta_bytes body short c w used
          x entry fields response

module _ {o : Os} (r : ShmRegion o) where
  -- What belongs to the slots of the table other than `i` is as it was.
  abbrev pub OthersKept : ℕ → World o → World o → Type 0
  OthersKept i w w' =
      (j x : ℕ) → j < r.num_slots → j ≢ i → Owns r j x → region_memory r w' x ≡ region_memory r w x

  pub OthersKept-trans :
      (i : ℕ) (w w' w'' : World o) → OthersKept i w w' → OthersKept i w' w'' → OthersKept i w w''
  OthersKept-trans i w w' w'' f g j x lt ne owns = g j x lt ne owns ∙ f j x lt ne owns

  pub OthersKept-same :
      (i : ℕ) (w w' : World o) → region_memory r w' ≡ region_memory r w → OthersKept i w w'
  OthersKept-same i w w' e j x lt ne owns = ap (λ (m : Memory). m x) e

  pub store_status-OthersKept :
      (control : IsControl r) (i v : ℕ) (w : World o)
      → i < r.num_slots
      → OthersKept i w (store_status r i v w)
  store_status-OthersKept control i v w inside j x lt ne owns =
      let (entry, request, response) = foreign r control j i x lt inside ne owns in
      store_status-SameOn r i v w x 1 (omega arith) x (omega arith) (omega arith)

  pub OthersKept-status :
      (i : ℕ) (w w' : World o) (j : ℕ)
      → OthersKept i w w'
      → j < r.num_slots
      → j ≢ i
      → load_status r j w' ≡ load_status r j w
  unfolding load_status
  OthersKept-status i w w' j others lt ne =
      read_u32-SameOn (region_memory r w) (region_memory r w') (slot_address j)
        (λ x lo hi. others j x lt ne (inl (lo, omega (arith, hi))))
