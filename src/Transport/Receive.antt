-- ===== src/Transport/Receive.antt =====
-- The worker's look at one slot.
use slotbus.Base.{ℕ, ◌+◌, ◌<◌, ◌≡◌, arith, List, Text, true, ◌==◌}
use slotbus.Error.{Outcome}
use slotbus.Memory.{write_u32}
use slotbus.Types.{RequestMeta, slot_ready, slot_claimed}
use slotbus.Config.{request_overflow_name_gen}
use slotbus.Postcard.{coded}
use slotbus.Os.{Os, World, M}
use slotbus.Memory.Laws.{write_u32-SameOn}
use slotbus.Region.{ShmRegion, region_memory, slot_address}
use slotbus.Region.Overflow.Fresh.{Keeps}
use slotbus.Region.Payload.Stored.{Agrees}
use slotbus.Region.Slots.{load_status, store_status, exchange_status}
use slotbus.Region.Requests.{Received, read_request}
use slotbus.Region.Requests.Steps.{IsControl}
use slotbus.Region.Requests.Stored.{
  IsRequestId, RequestAt, RequestAt-set_memory, read_request-RequestAt,
}
use slotbus.Transport.{Runtime, Request, request_of}
use slotbus.Transport.Worker.{Worker, receive_slot}
use slotbus.Transport.Laws.{IsRuntime}
use slotbus.Transport.Reads.{read_request-Keeps}

module _ {o : Os} where
  -- An exchange on one handle is one on any handle that agrees with it.
  pub exchange_status-Agrees :
      (r r' : ShmRegion o) (i expected new : ℕ) (w : World o)
      → Agrees r r'
      → load_status r i w ≡ expected
      → exchange_status r' i expected new w ≡ (true, store_status r i new w)
  unfolding exchange_status load_status store_status
  exchange_status-Agrees r r' i expected new w g now =
      let same : (expected == expected) ≡ true = ground arith in rw (g.ptr, now, same)

  -- A request stays stored when the status of a slot changes.
  pub RequestAt-store_status :
      (r : ShmRegion o) (control : IsControl r) (i : ℕ) (inside : i < r.num_slots)
      (name_for : ℕ → Outcome Text) (req_id : Text) (method : ℕ) (meta_bytes body : List ℕ) (v : ℕ)
      (w : World o)
      → RequestAt r i name_for req_id method meta_bytes body w
      → RequestAt r i name_for req_id method meta_bytes body (store_status r i v w)
  unfolding store_status
  RequestAt-store_status r control i inside name_for req_id method meta_bytes body v w at =
      let old = region_memory r w in
      let table = control.table in
      RequestAt-set_memory r i name_for req_id method meta_bytes body
        (write_u32 old (slot_address i) v) w
        (write_u32-SameOn old (slot_address i) v (slot_address i + 4) 57 (omega arith))
        (write_u32-SameOn old (slot_address i) v r.heap_offset r.heap_size (omega arith)) at

module _ {o : Os} (rt : Runtime o) (laws : IsRuntime rt) where
  -- The handler's turn: the request that it gets, and the world in which it does.
  pub record Handed (handler : ℕ → Request → M (Worker rt) (Unit {0})) (r : ShmRegion o) (i : ℕ)
      (received : Received) (k : Worker rt) : Type 0 where
    pub world : World o
    pub runs :
        receive_slot rt handler i k ≡ handler i (request_of received) (record k { world = world })
    pub keeps : Keeps (store_status r i slot_claimed k.world) world

  -- Take a handle `r` of a control region with its heap of less than 4 GiB right behind the table, a
  -- worker on a handle that agrees with it, and a slot of the table that is ready and holds a request
  -- with an id of at most 36 ASCII bytes, none of them zero, and metadata that `postcard` decodes. The
  -- worker's look at the slot is the handler's call with exactly that request, on a state that differs
  -- from the old one in the slot's status, which is claimed, and in what the operating system knows of
  -- mappings opened and dropped again.
  pub receive_slot-Handed :
      (handler : ℕ → Request → M (Worker rt) (Unit {0})) (r : ShmRegion o) (control : IsControl r)
      (i : ℕ) (k : Worker rt) (req_id : Text) (method : ℕ) (meta_bytes body : List ℕ)
      (meta : RequestMeta)
      → i < r.num_slots
      → Agrees r k.slots.region
      → IsRequestId req_id
      → load_status r i k.world ≡ slot_ready
      → RequestAt r i
          (request_overflow_name_gen rt.target k.slots.config i)
          req_id
          method
          meta_bytes
          body
          k.world
      → rt.request_code.from_bytes meta_bytes ≡ coded meta
      → Handed handler r i (record { req_id = req_id; method = method; meta = meta; body = body }) k
  unfolding receive_slot
  receive_slot-Handed handler r control i k req_id method meta_bytes body meta inside g id ready at
        decoded =
      let s = k.slots in
      let name_for = request_overflow_name_gen rt.target s.config i in
      let w = store_status r i slot_claimed k.world in
      let moved = exchange_status-Agrees r s.region i slot_ready slot_claimed k.world g ready in
      let at' =
        RequestAt-store_status r control i inside name_for req_id method meta_bytes body
          slot_claimed k.world at in
      let read =
        read_request-RequestAt r i rt.target s.region s.config req_id method meta_bytes body w
          rt.request_code meta (control.small) g id at' decoded in
      record {
        world = (read_request rt.target s.region rt.request_code i s.config w).1;
        runs = rw (moved, read);
        keeps = read_request-Keeps rt laws rt.target s.region rt.request_code i s.config w;
      }
