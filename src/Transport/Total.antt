-- ===== src/Transport/Total.antt =====
-- `dispatch` and `send_response` of slotbus/src/transport.rs on a payload that fits the halves of a slot.
use slotbus.Base.{
  ℕ, ◌≤◌, ◌<◌, ◌≡◌, refl, ◌∙◌, arith, List, ◌++◌, Option, none, Text, ascii, length, u32_mod,
}
use slotbus.Error.{Outcome, ok, err, panicked}
use slotbus.Types.{RequestMeta, method_to_u8, slot_free, slot_arenas as types_slot_arenas}
use slotbus.Types.Arenas.{slot_arenas_fit}
use slotbus.Postcard.{coded}
use slotbus.Os.{Os, IsOs, World, >>=-ok, >>=-ok_value}
use slotbus.Region.{ShmRegion}
use slotbus.Region.Heap.{slot_arenas, inline_body_capacity}
use slotbus.Region.Slots.{load_status, claim_free_slot}
use slotbus.Region.Slots.Claim.{claim_free_slot_total}
use slotbus.Region.Payload.Stored.{Agrees}
use slotbus.Region.Requests.{write_request}
use slotbus.Region.Requests.Steps.{IsControl}
use slotbus.Region.Requests.Effects.{write_request_inline}
use slotbus.Region.Responses.{write_response}
use slotbus.Region.Responses.Effects.{write_response_inline}
use slotbus.Transport.{Runtime}
use slotbus.Transport.Hub.{Hub, on_world, claim_slot, forget_overflow, publish, fill_slot, dispatch}
use slotbus.Transport.Worker as Worker
use slotbus.Transport.Worker.{Worker, write_answer, after_write, send_response, receive_slot}
use slotbus.Transport.Laws.{IsRuntime}
use slotbus.Transport.State.{IsHub, IsWorker, drop_held_mapped}
use slotbus.Transport.Claimed.{claimed-Holds}

-- A payload that needs no overflow region.
pub record Inline {o : Os} (r : ShmRegion o) (meta_bytes body : List ℕ) : Type 0 where
  pub half : length meta_bytes ≤ (slot_arenas r 0).request.size
  pub room : length body ≤ inline_body_capacity r (length meta_bytes)

-- The halves of every slot are as long as those of the first.
same_half :
    {o : Os} (r : ShmRegion o) (i : ℕ) (bytes : List ℕ)
    → length bytes ≤ (slot_arenas r 0).request.size
    → length bytes ≤ (slot_arenas r i).request.size
unfolding slot_arenas types_slot_arenas
same_half r i bytes h = h

pub Inline-Agrees :
    {o : Os} (r r' : ShmRegion o) (meta_bytes body : List ℕ)
    → Agrees r r'
    → Inline r meta_bytes body
    → Inline r' meta_bytes body
unfolding slot_arenas inline_body_capacity
Inline-Agrees r r' meta_bytes body g fits = record {
  half = rw (g.num_slots, g.heap_size) (fits.half);
  room = rw (g.num_slots, g.heap_size) (fits.room);
}

response_half :
    {o : Os} (r : ShmRegion o) (i : ℕ) (bytes : List ℕ)
    → IsControl r
    → i < r.num_slots
    → length bytes ≤ (slot_arenas r 0).request.size
    → length bytes ≤ (slot_arenas r i).response.size
unfolding slot_arenas types_slot_arenas
response_half r i bytes control inside h =
    let fit = slot_arenas_fit i r.num_slots r.heap_size inside (omega (arith, control.small)) in
    omega (arith, h, fit)

module _ {o : Os} (os : IsOs o) (rt : Runtime o) (laws : IsRuntime rt) where
  publish_total :
      (i : ℕ) (req_id label : Text) (overflow : Option (ShmRegion o)) (h : Hub rt)
      → (rx : rt.Receiver) × (h' : Hub rt) × (publish rt i req_id label overflow h ≡ (ok rx, h'))
  unfolding publish
  publish_total i req_id label overflow h = (_, _, refl)

  fill_slot_total :
      (i : ℕ) (req_id : Text) (method : ℕ) (label : Text) (meta_bytes body : List ℕ) (h : Hub rt)
      → IsHub rt (forget_overflow rt i h)
      → i < h.bus.region.num_slots
      → length body < u32_mod
      → Inline h.bus.region meta_bytes body
      → (rx : rt.Receiver) × (h' : Hub rt) × (fill_slot rt i req_id method label meta_bytes body h
          ≡ (ok rx, h'))
  unfolding fill_slot forget_overflow
  fill_slot_total i req_id method label meta_bytes body h holds inside short fits =
      let r = h.bus.region in
      let g = forget_overflow rt i h in
      let half : length meta_bytes ≤ (slot_arenas r i).request.size =
        same_half r i meta_bytes (fits.half) in
      let written =
        write_request_inline os rt.target r (holds.control) i inside req_id method meta_bytes body
          short h.bus.config g.world (holds.mapped) half (fits.room) in
      let m =
        on_world rt
          (λ b. write_request rt.target b.region i req_id method meta_bytes body b.config) in
      let (rx, h', done) = publish_total i req_id label none (m g).1 in
      (rx, h', >>=-ok_value m (publish rt i req_id label) none g written ∙ done)

  claim_slot_total :
      (h : Hub rt) (j : ℕ)
      → j < h.bus.region.num_slots
      → load_status h.bus.region j h.world ≡ slot_free
      → (i : ℕ) × (h1 : Hub rt) × (claim_slot rt h ≡ (ok i, h1))
  unfolding claim_slot
  claim_slot_total h j lt free =
      let (i, found, early) = claim_free_slot_total h.bus.region h.world j lt free in
      (
        i,
        record h { world = (claim_free_slot h.bus.region h.world).1 },
        rw (found, claim_slot) refl,
      )

  -- What comes of a dispatch that has a slot to take, and a payload that fits.
  pub dispatch_total :
      (h : Hub rt) (req_id method : Text) (meta : RequestMeta) (meta_bytes body : List ℕ) (j : ℕ)
      → IsHub rt h
      → j < h.bus.region.num_slots
      → load_status h.bus.region j h.world ≡ slot_free
      → rt.request_code.to_allocvec meta ≡ coded meta_bytes
      → length body < u32_mod
      → Inline h.bus.region meta_bytes body
      → (rx : rt.Receiver) × (h' : Hub rt) × (dispatch rt req_id method meta body h ≡ (ok rx, h'))
  unfolding dispatch forget_overflow
  dispatch_total h req_id method meta meta_bytes body j hub lt free encoded short fits =
      let (i, h1, claimed) = claim_slot_total h j lt free in
      let (inside, was_free, region, config, pending, kept, hub') =
        claimed-Holds os rt laws h h1 i hub claimed in
      let label = method ++ (ascii " " ++ meta.path) in
      let (rx, h', filled) =
        fill_slot_total i req_id (method_to_u8 method) label meta_bytes body h1 hub'
          (rw region inside) short (rw region fits) in
      (rx, h', >>=-ok (claim_slot rt) _ i h h1 claimed ∙ rw encoded filled)

  after_write_total :
      (i : ℕ) (x : Outcome (Option (ShmRegion o)) × World o) (g : Worker rt)
      → x.0 ≡ ok none
      → let y = after_write rt i (x.0, record g { world = x.1 }) in y ≡ (ok tt, y.1)
  unfolding after_write
  after_write_total i (ok overflow, w) g e = refl
  after_write_total i (err y, w) g e = absurd (ground arith)
  after_write_total i (panicked, w) g e = absurd (ground arith)

  pub send_response_total :
      (i status : ℕ) (body : List ℕ) (content_type : Text) (headers : List (Text × Text))
      (meta_bytes : List ℕ) (k : Worker rt)
      → IsWorker rt k
      → i < k.slots.region.num_slots
      → rt.response_code.to_allocvec (record { content_type = content_type; headers = headers })
        ≡ coded meta_bytes
      → length body < u32_mod
      → Inline k.slots.region meta_bytes body
      → (k' : Worker rt) × (send_response rt i status body content_type headers k ≡ (ok tt, k'))
  unfolding send_response write_answer Worker.forget_overflow
  send_response_total i status body content_type headers meta_bytes k holds inside encoded short
        fits =
      let r = k.slots.region in
      let g = Worker.forget_overflow rt i k in
      let used =
        drop_held_mapped rt laws (k.slots.overflow_regions i) k.world r.ptr
          (λ region e. holds.apart i region e) (holds.mapped) in
      let written =
        write_response_inline os rt.target r (holds.control) i inside status meta_bytes body short
          k.slots.config g.world used
          (response_half r i meta_bytes (holds.control) inside (fits.half)) (fits.room) in
      let x = write_response rt.target r i status meta_bytes body k.slots.config g.world in
      (
        (after_write rt i (x.0, record g { world = x.1 })).1,
        rw encoded (after_write_total i x g written),
      )
