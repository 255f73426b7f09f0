-- ===== src/Region/Responses/Stored.antt =====
-- A response that is stored in a slot: what keeps it stored, and that it can be read.
use slotbus.Base.{ℕ, ◌+◌, ◌%◌, ◌<◌, ◌≡◌, ap, ◌∙◌, arith, List, u16_mod, u32_mod, Text}
use slotbus.Error.{Outcome, ok}
use slotbus.Memory.{read_u16}
use slotbus.Types.{ResponseMeta}
use slotbus.Postcard.{Postcard, coded}
use slotbus.Config.{SlotBusConfig, response_overflow_name_gen}
use slotbus.Config.OsName.{Target}
use slotbus.Os.{Os, World, >>=-ok_value}
use slotbus.Region.{ShmRegion, region_memory, slot_address}
use slotbus.Region.Calm.{Calm, region_memory-Calm, BodyAt-Calm}
use slotbus.Region.Payload.{read_payload}
use slotbus.Region.Payload.Stored.{
  MetaAt, BodyAt, Agrees, MetaAt-Agrees, BodyAt-Agrees, read_payload_ok,
}
use slotbus.Region.Responses.{Answer, read_response}

module _ {o : Os} (r : ShmRegion o) (i : ℕ) where
  pub record AnswerAt (name_for : ℕ → Outcome Text) (status : ℕ) (meta_bytes body : List ℕ)
      (w : World o) : Type 0 where
    pub meta_at : MetaAt r (slot_address i + 68) meta_bytes (region_memory r w)
    pub body_at : BodyAt r name_for (slot_address i + 68) body w
    pub code : read_u16 (region_memory r w) (slot_address i + 64) ≡ status % u16_mod

  pub AnswerAt-Calm :
      (name_for : ℕ → Outcome Text) (status : ℕ) (meta_bytes body : List ℕ) (w w' : World o)
      → Calm w w'
      → AnswerAt name_for status meta_bytes body w
      → AnswerAt name_for status meta_bytes body w'
  AnswerAt-Calm name_for status meta_bytes body w w' k at = record {
    meta_at = rw (region_memory-Calm r w w' k) (at.meta_at);
    body_at = BodyAt-Calm r name_for (slot_address i + 68) body w w' k (at.body_at);
    code = rw (region_memory-Calm r w w' k) (at.code);
  }

  -- A stored response is read, on any handle of the region with the same layout.
  pub read_response-AnswerAt :
      (target : Target) (r' : ShmRegion o) (c : SlotBusConfig) (status : ℕ)
      (meta_bytes body : List ℕ) (w : World o) (postcard : Postcard ResponseMeta)
      (meta : ResponseMeta)
      → r.heap_size < u32_mod
      → Agrees r r'
      → status < u16_mod
      → AnswerAt (response_overflow_name_gen target c i) status meta_bytes body w
      → postcard.from_bytes meta_bytes ≡ coded meta
      → (read_response target r' postcard i c w).0
        ≡ ok (record { status = status; meta = meta; body = body })
  unfolding read_response
  read_response-AnswerAt target r' c status meta_bytes body w postcard meta small g word at
        decoded =
      let name_for = response_overflow_name_gen target c i in
      let small' : r'.heap_size < u32_mod = omega (arith, g.heap_size, small) in
      let slot = slot_address i in
      let got =
        read_payload_ok r' target name_for small' postcard.from_bytes (slot + 68) meta_bytes body
          meta w (MetaAt-Agrees r r' g (slot + 68) meta_bytes w (at.meta_at))
          (BodyAt-Agrees r r' g name_for (slot + 68) body w (at.body_at)) decoded in
      let code : read_u16 (region_memory r w) (slot + 64) ≡ status = omega (arith, at.code) in
      let whole =
        >>=-ok_value (read_payload target r' (slot + 68) postcard.from_bytes name_for) _
          (meta, body) w got in
      ap (λ (z : Outcome Answer × World o). z.0) whole ∙ rw (g.ptr, code)
