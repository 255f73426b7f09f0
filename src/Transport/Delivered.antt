-- ===== src/Transport/Delivered.antt =====
-- A whole exchange over slotbus/src/transport.rs, of payloads that fit the halves of a slot.
use slotbus.Base.{ℕ, ◌<◌, ◌≡◌, refl, sym, ◌∙◌, List, Text, length, u32_mod}
use slotbus.Error.{ok}
use slotbus.Types.{RequestMeta, method_to_u8, slot_free, slot_ready}
use slotbus.Postcard.{IsPostcard, coded}
use slotbus.Os.{Os, IsOs}
use slotbus.Region.{ShmRegion}
use slotbus.Region.Slots.{load_status}
use slotbus.Config.{request_overflow_name_gen}
use slotbus.Region.Payload.Stored.{Agrees}
use slotbus.Region.Requests.Stored.{IsRequestId, RequestAt}
use slotbus.Region.Requests.Steps.{IsControl}
use slotbus.Transport.{Runtime, Request, Response, request_of}
use slotbus.Transport.Hub.{Hub, dispatch, watch_slot}
use slotbus.Transport.Worker.{Worker, receive_slot}
use slotbus.Transport.Laws.{IsRuntime}
use slotbus.Transport.State.{IsHub, IsWorker}
use slotbus.Transport.Dispatch.{dispatch-Dispatched}
use slotbus.Transport.Receive.{receive_slot-Handed}
use slotbus.Transport.Served.{replies, meta_of, RequestFits, ResponseFits, Beside, Handed-IsWorker}
use slotbus.Transport.Trip.{Trip, watch_slot-receive_slot}
use slotbus.Transport.Total.{Inline, Inline-Agrees, dispatch_total, send_response_total}

module _ {o : Os} (os : IsOs o) (rt : Runtime o) (laws : IsRuntime rt)
    (request_code : IsPostcard rt.request_code) where
  -- A request that waits is served, where the answer fits.
  receive_slot_total :
      (answer : Request → Response) (r : ShmRegion o) (control : IsControl r) (i : ℕ)
      (k : Worker rt) (req_id : Text) (method : ℕ) (meta_bytes bytes body : List ℕ)
      (meta : RequestMeta)
      → IsWorker rt k
      → i < r.num_slots
      → Agrees r k.slots.region
      → IsRequestId req_id
      → load_status r i k.world ≡ slot_ready
      → RequestAt r i
          (request_overflow_name_gen rt.target k.slots.config i)
          req_id
          method
          meta_bytes
          body
          k.world
      → rt.request_code.to_allocvec meta ≡ coded meta_bytes
      → let a =
          answer
            (request_of (record { req_id = req_id; method = method; meta = meta; body = body })) in
        rt.response_code.to_allocvec (meta_of rt a) ≡ coded bytes
        → length a.body < u32_mod
        → Inline k.slots.region bytes a.body
        → (k' : Worker rt) × (receive_slot rt (replies rt answer) i k ≡ (ok tt, k'))
  receive_slot_total answer r control i k req_id method meta_bytes bytes body meta holds inside g id
        ready at encoded coded_answer short fits =
      let q = request_of (record { req_id = req_id; method = method; meta = meta; body = body }) in
      let a = answer q in
      let handed =
        receive_slot-Handed rt laws (replies rt answer) r control i k req_id method meta_bytes body
          meta inside g id ready at (request_code meta meta_bytes encoded) in
      let (k', sent) =
        send_response_total os rt laws i a.status a.body a.content_type a.headers bytes
          (record k { world = handed.world })
          (Handed-IsWorker os rt laws request_code (replies rt answer) r i _ k handed holds g)
          (rw (g.num_slots) inside) coded_answer short fits in
      (k', handed.runs ∙ sent)

  -- The worker beside the hub, when it sees what the hub has dispatched.
  Beside-after :
      (h h1 : Hub rt) (k : Worker rt)
      → Beside rt h k
      → IsWorker rt k
      → IsHub rt h1
      → h1.bus.region ≡ h.bus.region
      → h1.bus.config ≡ h.bus.config
      → let k1 : Worker rt = record k { world = h1.world } in Beside rt h1 k1 × IsWorker rt k1
  Beside-after h h1 k beside holds hub region config =
      let g = beside.agrees in
      (
        record { agrees = rw region g; config = beside.config ∙ sym config; world = refl },
        record {
          control = holds.control;
          mapped = rw (g.ptr) (rw region at (hub.mapped));
          apart = holds.apart;
        },
      )

  -- Take a hub and a worker that was opened on its region with its configuration, both of whose invariants
  -- hold, with a slot of the table free, and a handler that answers every request by a function. Take a request with
  -- an id of at most 36 ASCII bytes and none of them zero, such that the metadata of the request and of the
  -- answer can be encoded and decoded again, fit the request half of a slot and the fields of a slot, and the
  -- bodies have no more than `inline_body_capacity` says. Then `dispatch` succeeds, the worker's look at the
  -- slot comes out well, so does the watcher's next look, and the receiver has exactly the handler's answer to
  -- the request: without any assumption on how a step comes out.
  pub dispatch-delivers :
      (answer : Request → Response) (h : Hub rt) (k : Worker rt) (req_id method : Text)
      (meta : RequestMeta) (body meta_bytes bytes : List ℕ) (j : ℕ)
      → IsHub rt h
      → IsWorker rt k
      → Beside rt h k
      → j < h.bus.region.num_slots
      → load_status h.bus.region j h.world ≡ slot_free
      → RequestFits rt req_id meta body
      → rt.request_code.to_allocvec meta ≡ coded meta_bytes
      → Inline h.bus.region meta_bytes body
      → let a = answer (
          request_of
            (record { req_id = req_id; method = method_to_u8 method; meta = meta; body = body })) in
        IsPostcard rt.response_code
        → ResponseFits rt a
        → rt.response_code.to_allocvec (meta_of rt a) ≡ coded bytes
        → Inline h.bus.region bytes a.body
        → (rx : rt.Receiver) × (h1 : Hub rt) × (i : ℕ) × (k' : Worker rt) × (h' : Hub rt)
          × (dispatch rt req_id method meta body h ≡ (ok rx, h1))
          × (receive_slot rt (replies rt answer) i (record k { world = h1.world }) ≡ (ok tt, k'))
          × (watch_slot rt i (record h1 { world = k'.world }) ≡ (ok tt, h'))
          × Trip os rt laws request_code h i req_id rx a h'
  dispatch-delivers answer h k req_id method meta body meta_bytes bytes j hub holds beside lt free
        fits encoded inline response_code fits' coded_answer inline' =
      let a = answer (
        request_of
          (record { req_id = req_id; method = method_to_u8 method; meta = meta; body = body })) in
      let (rx, h1, sent) =
        dispatch_total os rt laws h req_id method meta meta_bytes body j hub lt free encoded
          (fits.body_len) inline in
      let d =
        dispatch-Dispatched os rt laws h h1 req_id method meta body rx hub (fits.body_len) sent in
      let (beside1, holds1) =
        Beside-after h h1 k beside holds (d.holds) (d.same_region) (d.same_config) in
      let i = d.slot in
      let g = beside.agrees in
      let (k', served) =
        receive_slot_total answer h1.bus.region (d.holds.control) i (record k { world = h1.world })
          req_id (method_to_u8 method) (d.meta_bytes) bytes body meta holds1
          (rw (d.same_region) (d.inside)) (beside1.agrees) (fits.id) (rw (d.same_region) (d.ready))
          (rw (d.same_region, beside.config) (d.stored (fits.meta_len (d.meta_bytes) (d.encoded))))
          (d.encoded) coded_answer (fits'.body_len)
          (Inline-Agrees h.bus.region k.slots.region bytes a.body g inline') in
      let (h', watched, trip) =
        watch_slot-receive_slot os rt laws request_code answer h h1 req_id method meta body rx d
          (record k { world = h1.world }) k' fits beside1 holds1 response_code fits' served in
      (rx, h1, i, k', h', sent, served, watched, trip)
