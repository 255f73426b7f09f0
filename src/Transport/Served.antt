-- ===== src/Transport/Served.antt =====
-- What a worker makes of a request that waits in a slot, when its handler answers by a function.
use slotbus.Base.{ℕ, ◌<◌, ◌≡◌, sym, ap, ◌∙◌, List, Text, true, length, u16_mod, u32_mod}
use slotbus.Error.{ok}
use slotbus.Types.{RequestMeta, ResponseMeta, slot_done, slot_ready, slot_claimed}
use slotbus.Config.{request_overflow_name_gen, response_overflow_name_gen}
use slotbus.Memory.{Memory}
use slotbus.Postcard.{coded, IsPostcard}
use slotbus.Os.{Os, IsOs, World, M}
use slotbus.Region.{ShmRegion}
use slotbus.Region.Overflow.Fresh.{Keeps}
use slotbus.Region.Payload.Stored.{Agrees}
use slotbus.Region.Heap.{slot_arenas}
use slotbus.Region.Isolation.{
  OthersKept, OthersKept-trans, OthersKept-same, store_status-OthersKept,
}
use slotbus.Region.Slots.{load_status, store_status}
use slotbus.Region.Requests.{Received, read_req_id}
use slotbus.Region.Requests.Steps.{IsControl}
use slotbus.Region.Requests.Stored.{IsRequestId, RequestAt, read_req_id-RequestAt, read_req_id-same}
use slotbus.Region.Responses.Stored.{AnswerAt}
use slotbus.Transport.{Runtime, Request, Response, request_of}
use slotbus.Transport.Hub.{Hub}
use slotbus.Transport.Worker.{Worker, receive_slot, send_response}
use slotbus.Transport.Laws.{IsRuntime}
use slotbus.Transport.State.{IsWorker}
use slotbus.Transport.Receive.{Handed, RequestAt-store_status, receive_slot-Handed}
use slotbus.Transport.Respond.{Answers, send_response-Sent}

module _ {o : Os} (rt : Runtime o) where
  -- The handler of a worker that answers every request by a function.
  abbrev pub replies : (Request → Response) → ℕ → Request → M (Worker rt) (Unit {0})
  replies answer i q =
      let a = answer q in send_response rt i a.status a.body a.content_type a.headers

  abbrev pub meta_of : Response → ResponseMeta
  meta_of a = record { content_type = a.content_type; headers = a.headers }

  -- The limits of the fields of a slot.
  pub record RequestFits (req_id : Text) (meta : RequestMeta) (body : List ℕ) : Type 0 where
    pub id : IsRequestId req_id
    pub meta_len :
        (bytes : List ℕ) → rt.request_code.to_allocvec meta ≡ coded bytes → length bytes < u16_mod
    pub body_len : length body < u32_mod

  pub record ResponseFits (a : Response) : Type 0 where
    pub status : a.status < u16_mod
    pub meta_len :
        (bytes : List ℕ)
        → rt.response_code.to_allocvec (meta_of a) ≡ coded bytes
        → length bytes < u16_mod
    pub body_len : length a.body < u32_mod

  -- A worker that was opened on the region of a hub, and sees the memory that the hub sees.
  pub record Beside (h : Hub rt) (k : Worker rt) : Type 0 where
    pub agrees : Agrees h.bus.region k.slots.region
    pub config : k.slots.config ≡ h.bus.config
    pub world : k.world ≡ h.world

module _ {o : Os} (os : IsOs o) (rt : Runtime o) (laws : IsRuntime rt)
    (request_code : IsPostcard rt.request_code) where
  -- What a worker has made of a request that waits in a slot of its region.
  pub record Served (r : ShmRegion o) (i : ℕ) (req_id : Text) (a : Response) (k k' : Worker rt)
      : Type 0 where
    pub sent_bytes : List ℕ
    pub encoded : rt.response_code.to_allocvec (meta_of rt a) ≡ coded sent_bytes
    pub done : load_status k.slots.region i k'.world ≡ slot_done
    pub stored :
        AnswerAt k.slots.region i
          (response_overflow_name_gen rt.target k.slots.config i)
          a.status
          sent_bytes
          a.body
          k'.world
    pub same_id : read_req_id r i k'.world ≡ req_id
    pub mapped : o.is_mapped k'.world.state k.slots.region.ptr ≡ true
    pub others : OthersKept r i k.world k'.world
    pub holds : IsWorker rt k'

  read_req_id-Agrees :
      (r r' : ShmRegion o) (i : ℕ) (w : World o)
      → Agrees r r'
      → read_req_id r' i w ≡ read_req_id r i w
  unfolding read_req_id
  read_req_id-Agrees r r' i w g = rw (g.ptr)

  -- What is kept for one handle is kept for the other.
  OthersKept-Agrees :
      (r r' : ShmRegion o) (g : Agrees r r') (i : ℕ) (w w' : World o)
      → OthersKept r' i w w'
      → OthersKept r i w w'
  unfolding slot_arenas
  OthersKept-Agrees r r' g i w w' others j x lt ne owns =
      let kept =
        others j x (rw (g.num_slots) lt) ne (rw (g.heap_offset, g.heap_size, g.num_slots) owns) in
      rw (g.ptr) at kept

  Answers-Served :
      (r : ShmRegion o) (i : ℕ) (req_id : Text) (a : Response) (bytes : List ℕ) (w : World o)
      (k k' : Worker rt)
      → Agrees r k.slots.region
      → read_req_id r i w ≡ req_id
      → OthersKept r i k.world w
      → rt.response_code.to_allocvec (meta_of rt a) ≡ coded bytes
      → length bytes < u16_mod
      → Answers os rt laws i a.status bytes a.body (record k { world = w }) k'
      → Served r i req_id a k k'
  Answers-Served r i req_id a bytes w k k' g id before encoded brief s = record {
    sent_bytes = bytes;
    encoded = encoded;
    done = s.done;
    stored = s.stored brief;
    same_id =
        sym (read_req_id-Agrees r k.slots.region i k'.world g)
        ∙ s.same_id
        ∙ read_req_id-Agrees r k.slots.region i w g
        ∙ id;
    mapped = rw (s.same_region) at (s.holds.mapped);
    others =
        OthersKept-trans r i k.world w k'.world before
          (OthersKept-Agrees r k.slots.region g i w k'.world (s.others));
    holds = s.holds;
  }

  store_status-Keeps :
      (r : ShmRegion o) (i v : ℕ) (w w' : World o)
      → Keeps (store_status r i v w) w'
      → o.is_mapped w.state r.ptr ≡ true
      → o.is_mapped w'.state r.ptr ≡ true
  unfolding store_status
  store_status-Keeps r i v w w' keeps used = keeps.mapped r.ptr used

  -- The worker at its handler's turn.
  pub Handed-IsWorker :
      (handler : ℕ → Request → M (Worker rt) (Unit {0})) (r : ShmRegion o) (i : ℕ)
      (received : Received) (k : Worker rt) (handed : Handed rt laws handler r i received k)
      → IsWorker rt k
      → Agrees r k.slots.region
      → IsWorker rt (record k { world = handed.world })
  Handed-IsWorker handler r i received k handed holds g = record {
    control = holds.control;
    mapped = rw (g.ptr) (
        store_status-Keeps r i slot_claimed k.world (handed.world) (handed.keeps)
          (rw (g.ptr) at (holds.mapped)));
    apart = holds.apart;
  }

  pub receive_slot-Served :
      (answer : Request → Response) (r : ShmRegion o) (control : IsControl r) (i : ℕ)
      (k k' : Worker rt) (req_id : Text) (method : ℕ) (meta_bytes : List ℕ) (meta : RequestMeta)
      (body : List ℕ)
      → IsWorker rt k
      → i < r.num_slots
      → Agrees r k.slots.region
      → RequestFits rt req_id meta body
      → load_status r i k.world ≡ slot_ready
      → RequestAt r i
          (request_overflow_name_gen rt.target k.slots.config i)
          req_id
          method
          meta_bytes
          body
          k.world
      → rt.request_code.to_allocvec meta ≡ coded meta_bytes
      → let q =
          request_of (record { req_id = req_id; method = method; meta = meta; body = body }) in
        ResponseFits rt (answer q)
        → receive_slot rt (replies rt answer) i k ≡ (ok tt, k')
        → Served r i req_id (answer q) k k'
  receive_slot-Served answer r control i k k' req_id method meta_bytes meta body holds inside g fits
        ready at encoded fits' e =
      let q = request_of (record { req_id = req_id; method = method; meta = meta; body = body }) in
      let handed =
        receive_slot-Handed rt laws (replies rt answer) r control i k req_id method meta_bytes body
          meta inside g (fits.id) ready at (request_code meta meta_bytes encoded) in
      let w = handed.world in
      let claimed =
        RequestAt-store_status r control i inside
          (request_overflow_name_gen rt.target k.slots.config i) req_id method meta_bytes body
          slot_claimed k.world at in
      let id : read_req_id r i w ≡ req_id =
        read_req_id-same r i (store_status r i slot_claimed k.world) w
          (ap (λ (f : ℕ → Memory). f r.ptr) (handed.keeps.memory))
        ∙ read_req_id-RequestAt r i _ req_id method meta_bytes body _ (fits.id) claimed in
      let holds' = Handed-IsWorker (replies rt answer) r i _ k handed holds g in
      let before : OthersKept r i k.world w =
        OthersKept-trans r i k.world (store_status r i slot_claimed k.world) w
          (store_status-OthersKept r control i slot_claimed k.world inside)
          (OthersKept-same r i (store_status r i slot_claimed k.world) w
            (ap (λ (f : ℕ → Memory). f r.ptr) (handed.keeps.memory))) in
      let sent =
        send_response-Sent os rt laws i (answer q).status (answer q).body (answer q).content_type
          (answer q).headers (record k { world = w }) k' holds' (rw (g.num_slots) inside)
          (fits'.body_len) (sym (handed.runs) ∙ e) in
      Answers-Served r i req_id (answer q) (sent.meta_bytes) w k k' g id before (sent.encoded)
        (fits'.meta_len (sent.meta_bytes) (sent.encoded)) (sent.answers)
