-- ===== src/Transport/Failures.antt =====
-- What `dispatch` and `send_response` leave behind when they give back an error.
use slotbus.Base.{
  ℕ, ◌<◌, ◌≡◌, ◌≢◌, refl, sym, ap, ◌∙◌, arith, List, ◌++◌, Option, Text, ascii, u32_mod, ◌⊎◌, inl,
  inr, some, Option-cases, length,
}
use slotbus.Error.{SlotBusError, no_free_slots, serialization, Outcome, ok, err, panicked}
use slotbus.Types.{RequestMeta, ResponseMeta, method_to_u8, slot_free, slot_writing}
use slotbus.Postcard.{Coded, coded, code_error, from_postcard}
use slotbus.Os.{Os, World, IsOs, lift, >>=-eq-err}
use slotbus.Region.{ShmRegion, region_memory}
use slotbus.Region.Isolation.{OthersKept, OthersKept-trans, write_request_isolated}
use slotbus.Region.Slots.{load_status, store_status, claim_free_slot}
use slotbus.Region.Slots.Claim.{
  claim_free_slot-Claims, claim_free_slot-none, load_status-store_status,
}
use slotbus.Region.Requests.{write_request}
use slotbus.Region.Requests.Effects.{write_request-settled}
use slotbus.Transport.{Runtime}
use slotbus.Transport.Hub.{Hub, on_world, claim_slot, forget_overflow, publish, fill_slot, dispatch}
use slotbus.Transport.Worker as Worker
use slotbus.Transport.Worker.{Worker, after_write, write_answer, send_response}
use slotbus.Transport.Laws.{IsRuntime}
use slotbus.Transport.State.{IsHub}
use slotbus.Transport.Claimed.{claim_slot-ok, from_postcard-ok, claimed-Holds, claimed-OthersKept}

from_postcard-err :
    {A S : Type 0} (x : Coded A) (e : SlotBusError) (s s' : S)
    → lift (from_postcard x) s ≡ (err e, s')
    → (t : Text) × (x ≡ code_error t) × (e ≡ serialization t) × (s' ≡ s)
from_postcard-err (coded a) e s s' h = absurd (ground arith)
from_postcard-err (code_error t) e s s' h = (t, refl, ground arith, ground arith)

module _ {o : Os} (rt : Runtime o) where
  -- Slot `i` of the table is free, and is the one that the search claims.
  pub record ClaimsFree (h : Hub rt) (i : ℕ) : Type 0 where
    pub found : (claim_free_slot h.bus.region h.world).0 ≡ some i
    pub inside : i < h.bus.region.num_slots
    pub was_free : load_status h.bus.region i h.world ≡ slot_free

  -- Why a request was not dispatched, and what has become of its slot.
  pub data Refused (h : Hub rt) (meta : RequestMeta) (e : SlotBusError) (h' : Hub rt) : Type 0 where
    full :
        e ≡ no_free_slots h.bus.config.num_slots
        → h'.world ≡ h.world
        → ((j : ℕ) → j < h.bus.region.num_slots → load_status h.bus.region j h.world ≢ slot_free)
        → Refused h meta e h'
    not_encoded :
        (i : ℕ) (t : Text)
        → ClaimsFree h i
        → e ≡ serialization t
        → rt.request_code.to_allocvec meta ≡ code_error t
        → h'.world ≡ store_status h.bus.region i slot_writing h.world
        → load_status h.bus.region i h'.world ≡ slot_writing
        → Refused h meta e h'
    not_written :
        (i : ℕ)
        → ClaimsFree h i
        → load_status h.bus.region i h'.world ≡ slot_free
        → OthersKept h.bus.region i h.world h'.world
        → Refused h meta e h'

  claim_slot-err :
      (h h' : Hub rt) (meta : RequestMeta) (e : SlotBusError)
      → 0 < h.bus.region.num_slots
      → claim_slot rt h ≡ (err e, h')
      → Refused h meta e h' × (h'.bus ≡ h.bus)
  unfolding claim_slot
  claim_slot-err h h' meta e some_slots x =
      elim (Option-cases (claim_free_slot h.bus.region h.world).0) [
        | inr (i, found) ↦ absurd (ground arith)
        | inl none_free ↦
            let busy = λ (j : ℕ). claim_free_slot-none h.bus.region h.world j none_free in
            let last : (claim_free_slot h.bus.region h.world).1 ≡ h'.world = ground arith in
            (
              full (ground arith) (sym last ∙ (busy 0 some_slots).1) (λ j lt. (busy j lt).0),
              ground arith,
            )
      ]

module _ {o : Os} (os : IsOs o) (rt : Runtime o) (laws : IsRuntime rt) where
  fill_slot-err :
      (i : ℕ) (req_id : Text) (method : ℕ) (label : Text) (meta_bytes body : List ℕ) (h h' : Hub rt)
      (e : SlotBusError)
      → IsHub rt (forget_overflow rt i h)
      → i < h.bus.region.num_slots
      → length body < u32_mod
      → fill_slot rt i req_id method label meta_bytes body h ≡ (err e, h')
      → (load_status h.bus.region i h'.world ≡ slot_free)
        × (h'.bus ≡ (forget_overflow rt i h).bus)
        × OthersKept h.bus.region i (forget_overflow rt i h).world h'.world
  unfolding fill_slot forget_overflow publish
  fill_slot-err i req_id method label meta_bytes body h h' e holds inside short x =
      let g = forget_overflow rt i h in
      elim (>>=-eq-err
        (on_world rt
          (λ b. write_request rt.target b.region i req_id method meta_bytes body b.config))
        (publish rt i req_id label) e g h' x) [
          | inr (overflow, h1, wrote, rest) ↦ absurd (ground arith)
          | inl failed ↦
              let result = ap (λ (z : Outcome (Option (ShmRegion o)) × Hub rt). z.0) failed in
              let last = ap (λ (z : Outcome (Option (ShmRegion o)) × Hub rt). z.1) failed in
              let settles =
                write_request-settled os rt.target h.bus.region (holds.control) i inside req_id
                  method meta_bytes body short h.bus.config g.world (holds.mapped) in
              (
                ap (λ (z : Hub rt). load_status h.bus.region i z.world) (sym last)
                    ∙ (rw result at settles),
                ap (λ (z : Hub rt). z.bus) (sym last),
                λ j b lt ne owns.
                    ap (λ (z : Hub rt). region_memory h.bus.region z.world b) (sym last)
                    ∙ write_request_isolated h.bus.region (holds.control) os rt.target i inside
                        meta_bytes body short h.bus.config g.world (holds.mapped) req_id method j b
                        lt ne owns,
              )
        ]

  -- Take a hub whose invariant holds, with at least one slot, and a body of less than 4 GiB. Where
  -- `dispatch` gives back an error, nobody new waits and the layout of the region is the same. Either no
  -- slot of the table was free and the world is as it was; or the slot of the table that the search claims was
  -- free and is free again, and no byte of any other slot of the table has changed; or the metadata could not
  -- be encoded: then the slot that the search claims was free and stays in Writing, and that is all that has
  -- changed of the world.
  pub dispatch-Refused :
      (h h' : Hub rt) (req_id method : Text) (meta : RequestMeta) (body : List ℕ) (e : SlotBusError)
      → IsHub rt h
      → 0 < h.bus.region.num_slots
      → length body < u32_mod
      → dispatch rt req_id method meta body h ≡ (err e, h')
      → Refused rt h meta e h' × (h'.bus.pending ≡ h.bus.pending) × (h'.bus.region ≡ h.bus.region)
  unfolding dispatch forget_overflow
  dispatch-Refused h h' req_id method meta body e hub some_slots short x =
      elim (>>=-eq-err (claim_slot rt) _ e h h' x) [
        | inl failed ↦
            let (why, bus) = claim_slot-err rt h h' meta e some_slots failed in
            (why, rw bus, rw bus)
        | inr (i, h1, claimed, rest) ↦
            let (inside, was_free, region, config, pending, kept, hub') =
              claimed-Holds os rt laws h h1 i hub claimed in
            let (claim, bus) = claim_slot-ok os rt laws h h1 i claimed in
            let free : ClaimsFree rt h i = record {
              found = ap (λ (z : Option ℕ × World o). z.0) claim;
              inside = inside;
              was_free = was_free;
            } in
            elim (>>=-eq-err (lift (from_postcard (rt.request_code.to_allocvec meta))) _ e h1 h'
              rest) [
                | inl failed ↦
                    let (t, encoded, why, same) =
                      from_postcard-err (rt.request_code.to_allocvec meta) e h1 h' failed in
                    let c = claim_free_slot-Claims h.bus.region h.world h1.world i claim in
                    (
                      not_encoded i t free why encoded (rw same (c.taken)) (
                          rw (same, c.taken)
                            (load_status-store_status h.bus.region i slot_writing h.world
                              (omega arith))),
                      rw (same, bus),
                      rw (same, bus),
                    )
                | inr (meta_bytes, h2, code, filled) ↦
                    let (encoded, same) = from_postcard-ok os rt laws meta meta_bytes h1 h2 code in
                    let (freed, bus', others) =
                      fill_slot-err i req_id (method_to_u8 method)
                        (method ++ (ascii " " ++ meta.path)) meta_bytes body h1 h' e hub'
                        (rw region inside) short (rw same at filled) in
                    let g = forget_overflow rt i h1 in
                    (
                      not_written i free (rw region at freed) (
                          OthersKept-trans h.bus.region i h.world g.world h'.world
                            (claimed-OthersKept os rt laws h h1 i hub claimed)
                            (rw region at others)),
                      rw bus' pending,
                      rw bus' region,
                    )
              ]
      ]

module _ {o : Os} (rt : Runtime o) where
  after_write-err :
      (i : ℕ) (r : ShmRegion o) (x : Outcome (Option (ShmRegion o)) × Worker rt) (k' : Worker rt)
      (e : SlotBusError)
      → x.1.slots.region ≡ r
      → after_write rt i x ≡ (err e, k')
      → load_status r i k'.world ≡ slot_free
  unfolding after_write
  after_write-err i r (ok overflow, k) k' e region h = absurd (ground arith)
  after_write-err i r (panicked, k) k' e region h = absurd (ground arith)
  after_write-err i r (err y, k) k' e region h =
      let last : record k { world = store_status k.slots.region i slot_free k.world } ≡ k' =
        ap (λ (z : Outcome (Unit {0}) × Worker rt). z.1) h in
      rw (← last, ← region)
        (load_status-store_status k.slots.region i slot_free k.world (omega arith))

  -- Where `send_response` gives back an error, either the metadata could not be encoded, and nothing at
  -- all has changed, or the slot is free.
  pub send_response-Refused :
      (i status : ℕ) (body : List ℕ) (content_type : Text) (headers : List (Text × Text))
      (k k' : Worker rt) (e : SlotBusError)
      → send_response rt i status body content_type headers k ≡ (err e, k')
      → ((t : Text) × (rt.response_code.to_allocvec
              (record { content_type = content_type; headers = headers })
            ≡ code_error t)
          × (e ≡ serialization t)
          × (k' ≡ k))
        ⊎ (load_status k.slots.region i k'.world ≡ slot_free)
  unfolding send_response write_answer Worker.forget_overflow
  send_response-Refused i status body content_type headers k k' e x =
      let meta : ResponseMeta = record { content_type = content_type; headers = headers } in
      elim (>>=-eq-err (lift (from_postcard (rt.response_code.to_allocvec meta))) _ e k k' x) [
        | inl failed ↦ inl (from_postcard-err (rt.response_code.to_allocvec meta) e k k' failed)
        | inr (meta_bytes, k1, code, rest) ↦
            let same : k1 ≡ k = ap (λ (z : Outcome (List ℕ) × Worker rt). z.1) (sym code) in
            let rest' = rw same at rest in inr (after_write-err i k.slots.region _ k' e refl rest')
      ]
