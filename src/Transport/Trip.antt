-- ===== src/Transport/Trip.antt =====
-- A request on its way through both sides: from `dispatch` to the handler, and back to the receiver.
use slotbus.Base.{ℕ, ◌≡◌, sym, List, some, none, Text, true, false, put, text_eq, text_eq_refl}
use slotbus.Error.{ok}
use slotbus.Types.{RequestMeta, method_to_u8, slot_free}
use slotbus.Postcard.{IsPostcard}
use slotbus.Os.{Os, IsOs, World}
use slotbus.Region.{ShmRegion}
use slotbus.Region.Payload.Stored.{Agrees}
use slotbus.Region.Isolation.{OthersKept, OthersKept-trans}
use slotbus.Region.Slots.{load_status}
use slotbus.Region.Responses.{Answer}
use slotbus.Transport.{Runtime, Request, Response, request_of, response_of}
use slotbus.Transport.Hub.{Hub, PendingEntry, watch_slot}
use slotbus.Transport.Worker.{Worker, receive_slot}
use slotbus.Transport.Laws.{IsRuntime}
use slotbus.Transport.State.{IsHub, IsWorker}
use slotbus.Transport.Dispatch.{Dispatched}
use slotbus.Transport.Watch.{Resolved, watch_slot-Resolved}
use slotbus.Transport.Served.{
  replies, meta_of, RequestFits, ResponseFits, Beside, receive_slot-Served,
}

module _ {o : Os} (os : IsOs o) (rt : Runtime o) (laws : IsRuntime rt)
    (request_code : IsPostcard rt.request_code) where
  -- What came of a request: its receiver has the response, and the slot is free again.
  pub record Trip (h : Hub rt) (i : ℕ) (req_id : Text) (rx : rt.Receiver) (a : Response)
      (h' : Hub rt) : Type 0 where
    pub received : rt.resolved rx h'.world.state ≡ some a
    pub freed_slot : load_status h.bus.region i h'.world ≡ slot_free
    pub nobody_waits : h'.bus.pending req_id ≡ none
    pub others : (t : Text) → text_eq t req_id ≡ false → h'.bus.pending t ≡ h.bus.pending t
    pub untouched : OthersKept h.bus.region i h.world h'.world
    pub holds : IsHub rt h'

  Resolved-Trip :
      (h h1 h' : Hub rt) (i : ℕ) (req_id : Text) (rx : rt.Receiver) (answer : Answer)
      (entry : PendingEntry rt)
      → h1.bus.region ≡ h.bus.region
      → h1.bus.pending ≡ put text_eq req_id (some entry) h.bus.pending
      → OthersKept h.bus.region i h.world h1.world
      → Resolved rt h1 i req_id rx answer h'
      → Trip h i req_id rx (response_of answer) h'
  Resolved-Trip h h1 h' i req_id rx answer entry region pending before s = record {
    received = s.received;
    freed_slot = rw region at (s.freed_slot);
    nobody_waits = rw (s.pending, text_eq_refl req_id);
    others = λ t other. rw (s.pending, pending, other);
    untouched =
        OthersKept-trans h.bus.region i h.world h1.world h'.world before (rw region at (s.others));
    holds = s.holds;
  }

  seen_by_hub :
      (h : Hub rt) (k : Worker rt) (w : World o)
      → Agrees h.bus.region k.slots.region
      → IsHub rt h
      → o.is_mapped w.state k.slots.region.ptr ≡ true
      → IsHub rt (record h { world = w })
  seen_by_hub h k w g holds used = record {
    control = holds.control;
    mapped = rw (g.ptr) at used;
    apart = holds.apart;
  }

  load_status-Agrees :
      (r r' : ShmRegion o) (i : ℕ) {v : ℕ} (w : World o)
      → Agrees r r'
      → load_status r' i w ≡ v
      → load_status r i w ≡ v
  unfolding load_status
  load_status-Agrees r r' i w g e = rw (g.ptr) at e

  Agrees-sym : (r r' : ShmRegion o) → Agrees r r' → Agrees r' r
  Agrees-sym r r' g = record {
    ptr = sym (g.ptr);
    num_slots = sym (g.num_slots);
    heap_offset = sym (g.heap_offset);
    heap_size = sym (g.heap_size);
  }

  -- Take a request that `dispatch` has put in a slot, with an id of at most 36 ASCII bytes and none of
  -- them zero, and a worker that was opened on the region of the hub with its configuration, sees its
  -- memory, and whose invariant holds. Let its handler answer every request by a function of the
  -- request. Where the payloads of the request and of the answer fit the fields of a slot, `postcard`
  -- decodes what it has encoded, and the worker's look at the slot comes out well, the watcher's next
  -- look at it comes out well too, and leaves the receiver with exactly the answer to the request that
  -- was dispatched, the slot free, nobody waiting under the id, the other waiting requests as they were, and
  -- nothing changed that belongs to another slot.
  pub watch_slot-receive_slot :
      (answer : Request → Response) (h h1 : Hub rt) (req_id method : Text) (meta : RequestMeta)
      (body : List ℕ) (rx : rt.Receiver) (d : Dispatched os rt laws h req_id method meta body rx h1)
      (k k' : Worker rt)
      → RequestFits rt req_id meta body
      → Beside rt h1 k
      → IsWorker rt k
      → let a = answer (
          request_of
            (record { req_id = req_id; method = method_to_u8 method; meta = meta; body = body })) in
        IsPostcard rt.response_code
        → ResponseFits rt a
        → receive_slot rt (replies rt answer) (d.slot) k ≡ (ok tt, k')
        → (h' : Hub rt) × (watch_slot rt (d.slot) (record h1 { world = k'.world }) ≡ (ok tt, h'))
          × Trip h (d.slot) req_id rx a h'
  unfolding response_of
  watch_slot-receive_slot answer h h1 req_id method meta body rx d k k' fits beside holds
        response_code fits' e =
      let i = d.slot in
      let a = answer (
        request_of
          (record { req_id = req_id; method = method_to_u8 method; meta = meta; body = body })) in
      let g = beside.agrees in
      let served =
        receive_slot-Served os rt laws request_code answer h1.bus.region (d.holds.control) i k k'
          req_id (method_to_u8 method) (d.meta_bytes) meta body holds
          (rw (d.same_region) (d.inside)) g fits (rw (d.same_region, beside.world) (d.ready))
          (rw (d.same_region, beside.world, beside.config, d.same_config)
            (d.stored (fits.meta_len (d.meta_bytes) (d.encoded))))
          (d.encoded) fits' e in
      let (h', watched, resolved) =
        watch_slot-Resolved rt laws k.slots.region i (record h1 { world = k'.world }) req_id
          a.status (served.sent_bytes) a.body (meta_of rt a) (d.entry) rx
          (seen_by_hub h1 k k'.world g (d.holds) (served.mapped)) (rw (d.same_region) (d.inside))
          (Agrees-sym h1.bus.region k.slots.region g) (holds.control.small)
          (load_status-Agrees h1.bus.region k.slots.region i k'.world g (served.done))
          (rw (beside.config) at (served.stored)) (fits'.status)
          (response_code (meta_of rt a) (served.sent_bytes) (served.encoded)) (served.same_id)
          (rw (d.waiting, text_eq_refl req_id)) (d.delivers) in
      let before : OthersKept h.bus.region i h.world k'.world =
        OthersKept-trans h.bus.region i h.world h1.world k'.world (d.others)
          (rw (d.same_region, beside.world) at (served.others)) in
      (
        h',
        watched,
        Resolved-Trip h (record h1 { world = k'.world }) h' i req_id rx
            (record { status = a.status; meta = meta_of rt a; body = a.body }) (d.entry)
            (d.same_region) (d.waiting) before resolved,
      )
