-- ===== src/Region/Requests/Stored.antt =====
-- A request that is stored in a slot: what keeps it stored, and that it can be read.
use slotbus.Base.{
  ℕ, ◌+◌, ◌≤◌, ◌<◌, ◌≡◌, refl, ap, ◌∙◌, arith, List, [], ◌∷◌, length, take, min, Text, u32_mod,
  take_all, All,
}
use slotbus.Error.{Outcome, ok}
use slotbus.Memory.{Memory, load}
use slotbus.Memory.Laws.{SameOn, SameOn-sub, load-SameOn}
use slotbus.Types.{RequestMeta}
use slotbus.Utf8.{from_utf8_lossy}
use slotbus.Utf8.Laws.{IsAscii, from_utf8_lossy-ascii}
use slotbus.Postcard.{Postcard, coded}
use slotbus.Config.{SlotBusConfig, request_overflow_name_gen}
use slotbus.Config.OsName.{Target}
use slotbus.Os.{Os, World, >>=-ok_value}
use slotbus.Region.{ShmRegion, region_memory, set_memory, slot_address}
use slotbus.Region.Heap.Access.{set_memory_self}
use slotbus.Region.Calm.{Calm, region_memory-Calm, BodyAt-Calm}
use slotbus.Region.Payload.{read_payload}
use slotbus.Region.Payload.Stored.{
  MetaAt, BodyAt, Agrees, MetaAt-Agrees, BodyAt-Agrees, read_payload_ok,
}
use slotbus.Region.Payload.Fields.{MetaAt-SameOn, BodyAt-set_memory}
use slotbus.Region.Requests.{Received, until_zero, read_req_id, read_request}

-- A request id as the hub sends it: ASCII, no zero byte, at most 36 bytes.
abbrev pub IsRequestId : Text → Type 0
IsRequestId t = (length t ≤ 36) × IsAscii t × All (λ b. 0 < b) t

until_zero-id : (t : Text) → All (λ b. 0 < b) t → until_zero t ≡ t
until_zero-id [] h = refl
until_zero-id (b ∷ t) h = ground (arith, until_zero-id t h.1)

module _ {o : Os} (r : ShmRegion o) (i : ℕ) where
  pub record RequestAt (name_for : ℕ → Outcome Text) (req_id : Text) (method : ℕ)
      (meta_bytes body : List ℕ) (w : World o) : Type 0 where
    pub meta_at : MetaAt r (slot_address i + 44) meta_bytes (region_memory r w)
    pub body_at : BodyAt r name_for (slot_address i + 44) body w
    pub id_field :
        until_zero (load (region_memory r w) (slot_address i + 4) 36)
        ≡ until_zero (take (min (length req_id) 36) req_id)
    pub method_field : region_memory r w (slot_address i + 40) ≡ method

  module _ (name_for : ℕ → Outcome Text) (req_id : Text) (method : ℕ)
      (meta_bytes body : List ℕ) where
    pub RequestAt-Calm :
        (w w' : World o)
        → Calm w w'
        → RequestAt name_for req_id method meta_bytes body w
        → RequestAt name_for req_id method meta_bytes body w'
    RequestAt-Calm w w' k at = record {
      meta_at = rw (region_memory-Calm r w w' k) (at.meta_at);
      body_at = BodyAt-Calm r name_for (slot_address i + 44) body w w' k (at.body_at);
      id_field = rw (region_memory-Calm r w w' k) (at.id_field);
      method_field = rw (region_memory-Calm r w w' k) (at.method_field);
    }

    -- A request stays stored while its part of the slot and the heap stay.
    pub RequestAt-set_memory :
        (m : Memory) (w : World o)
        → SameOn (region_memory r w) m (slot_address i + 4) 57
        → SameOn (region_memory r w) m r.heap_offset r.heap_size
        → RequestAt name_for req_id method meta_bytes body w
        → RequestAt name_for req_id method meta_bytes body (set_memory r m w)
    RequestAt-set_memory m w fields heap at =
        let old = region_memory r w in
        let slot = slot_address i in
        let seen = set_memory_self r m w in
        let sub = λ (a n : ℕ) (lo : slot + 4 ≤ a) (hi : a + n ≤ slot + 4 + 57).
          SameOn-sub old m (slot + 4) 57 a n lo hi fields in
        record {
          meta_at =
              let meta = at.meta_at in
              rw seen (
                MetaAt-SameOn r (slot + 44) meta_bytes old m meta
                  (sub (slot + 44) 6 (omega arith) (omega arith))
                  (SameOn-sub old m r.heap_offset r.heap_size (r.heap_offset + meta.offset)
                    (length meta_bytes) (omega arith) (omega (arith, meta.inside)) heap));
          body_at =
              BodyAt-set_memory r name_for (slot + 44) body m w
                (sub (slot + 44 + 8) 9 (omega arith) (omega arith)) heap (at.body_at);
          id_field = rw seen (
              ap until_zero
                (load-SameOn old m (slot + 4) 36 (sub (slot + 4) 36 (omega arith) (omega arith)))
              ∙ at.id_field);
          method_field = rw seen (fields (slot + 40) (omega arith) (omega arith) ∙ at.method_field);
        }

  -- The id of a slot is a matter of its bytes 4 to 39.
  pub read_req_id-SameOn :
      (w w' : World o)
      → SameOn (region_memory r w) (region_memory r w') (slot_address i + 4) 36
      → read_req_id r i w' ≡ read_req_id r i w
  unfolding read_req_id
  read_req_id-SameOn w w' same =
      ap (λ bytes. from_utf8_lossy (until_zero bytes))
        (load-SameOn (region_memory r w) (region_memory r w') (slot_address i + 4) 36 same)

  pub read_req_id-same :
      (w w' : World o)
      → region_memory r w' ≡ region_memory r w
      → read_req_id r i w' ≡ read_req_id r i w
  read_req_id-same w w' e = read_req_id-SameOn w w' (λ x lo hi. ap (λ (m : Memory). m x) e)

  pub read_req_id-RequestAt :
      (name_for : ℕ → Outcome Text) (req_id : Text) (method : ℕ) (meta_bytes body : List ℕ)
      (w : World o)
      → IsRequestId req_id
      → RequestAt name_for req_id method meta_bytes body w
      → read_req_id r i w ≡ req_id
  unfolding read_req_id
  read_req_id-RequestAt name_for req_id method meta_bytes body w id at =
      let whole : take (min (length req_id) 36) req_id ≡ req_id =
        take_all (min (length req_id) 36) req_id (omega (arith, id.0)) in
      rw (at.id_field, whole, until_zero-id req_id (id.2)) (from_utf8_lossy-ascii req_id (id.1))

  -- A stored request is read, on any handle of the region with the same layout.
  pub read_request-RequestAt :
      (target : Target) (r' : ShmRegion o) (c : SlotBusConfig) (req_id : Text) (method : ℕ)
      (meta_bytes body : List ℕ) (w : World o) (postcard : Postcard RequestMeta)
      (meta : RequestMeta)
      → r.heap_size < u32_mod
      → Agrees r r'
      → IsRequestId req_id
      → RequestAt (request_overflow_name_gen target c i) req_id method meta_bytes body w
      → postcard.from_bytes meta_bytes ≡ coded meta
      → (read_request target r' postcard i c w).0
        ≡ ok (record { req_id = req_id; method = method; meta = meta; body = body })
  unfolding read_request
  read_request-RequestAt target r' c req_id method meta_bytes body w postcard meta small g id at
        decoded =
      let name_for = request_overflow_name_gen target c i in
      let small' : r'.heap_size < u32_mod = omega (arith, g.heap_size, small) in
      let slot = slot_address i in
      let got =
        read_payload_ok r' target name_for small' postcard.from_bytes (slot + 44) meta_bytes body
          meta w (MetaAt-Agrees r r' g (slot + 44) meta_bytes w (at.meta_at))
          (BodyAt-Agrees r r' g name_for (slot + 44) body w (at.body_at)) decoded in
      let whole =
        >>=-ok_value (read_payload target r' (slot + 44) postcard.from_bytes name_for) _
          (meta, body) w got in
      let same_id : read_req_id r' i w ≡ req_id =
        read_req_id_same ∙ read_req_id-RequestAt name_for req_id method meta_bytes body w id at in
      ap (λ (z : Outcome Received × World o). z.0) whole ∙ rw (same_id, g.ptr, at.method_field)
    where
      read_req_id_same : read_req_id r' i w ≡ read_req_id r i w
      read_req_id_same = rw (g.ptr)
