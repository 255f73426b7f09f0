-- ===== src/Transport/Worker.antt =====
-- `SlotWorker`, the side of the worker.
use slotbus.Base.{
  ℕ, zero, suc, ◌+◌, List, Option, none, some, Bool, true, false, Text, ◌==◌, put, if◌then◌else◌,
  ◌⊎◌, inl, inr,
}
use slotbus.Error.{SlotBusError, Outcome, ok, err, panicked}
use slotbus.Types.{slot_free, slot_ready, slot_claimed}
use slotbus.Config.{SlotBusConfig, region_name, request_event_name, response_event_name}
use slotbus.Postcard.{from_postcard}
use slotbus.Os.{Os, World, M, ◌>>=◌, ◌>>◌, pure, lift, unwind, update, get, attempt}
use slotbus.Events.{NamedEvent, open_named, signal, wait_timeout, drop_event}
use slotbus.Region.{ShmRegion, open_region}
use slotbus.Region.Control.{validate_control}
use slotbus.Region.Slots.{store_status, exchange_status}
use slotbus.Region.Requests.{Received, read_request}
use slotbus.Region.Responses.{write_response}
use slotbus.Transport.{Request, Runtime, Kept, drop_held, keep, replaced, request_of}

module _ {o : Os} (rt : Runtime o) where
  pub record SlotWorker : Type 0 where
    pub config : SlotBusConfig
    pub region : ShmRegion o
    pub req_event : NamedEvent rt.sys
    pub rsp_event : NamedEvent rt.sys
    pub overflow_regions : Kept o
    pub running : Bool

  -- The worker in its world.
  pub record Worker : Type 0 where
    pub slots : SlotWorker
    pub world : World o

  abbrev in_world : {A : Type 0} → Worker → Outcome A × World o → Outcome A × Worker
  in_world k r = (r.0, record k { world = r.1 })

  abbrev pub on_world : {A : Type 0} → (SlotWorker → M (World o) A) → M Worker A
  on_world m k = in_world k (m k.slots k.world)

  abbrev change_world : (SlotWorker → World o → World o) → M Worker (Unit {0})
  change_world f = update (λ k. record k { world = f k.slots k.world })

  -- The two events of a worker, behind its region.
  unfoldable pub open_rsp_event :
      SlotBusConfig → ShmRegion o → NamedEvent rt.sys → M (World o) SlotWorker
  open_rsp_event c region req_event = do
    rsp_name ← lift (response_event_name rt.target c)
    rsp_event ← open_named rt.sys rt.target rsp_name
    pure (record {
      config = c;
      region = region;
      req_event = req_event;
      rsp_event = rsp_event;
      overflow_regions = λ i. none;
      running = true;
    })

  unfoldable pub open_events : SlotBusConfig → ShmRegion o → M (World o) SlotWorker
  unfolding open_rsp_event
  open_events c region = do
    req_name ← lift (request_event_name rt.target c)
    req_event ← open_named rt.sys rt.target req_name
    unwind (drop_event rt.sys req_event) (open_rsp_event c region req_event)

  -- `SlotWorker::open`
  unfoldable pub open_worker : SlotBusConfig → M (World o) SlotWorker
  unfolding open_events
  open_worker c = do
    name ← lift (region_name rt.target c)
    raw ← open_region name
    unwind (drop_held (some raw)) (do region ← validate_control raw; open_events c region)

  unfoldable pub forget_overflow : ℕ → Worker → Worker
  forget_overflow slot_index k = record k {
    slots = record k.slots { overflow_regions = put ◌==◌ slot_index none k.slots.overflow_regions };
    world = drop_held (k.slots.overflow_regions slot_index) k.world;
  }

  -- A response that was written: its overflow region is kept, and the hub is woken.
  unfoldable pub answered : ℕ → Option (ShmRegion o) → Worker → Worker
  answered slot_index overflow k =
      let kept : Worker = record k {
        slots = record k.slots {
          overflow_regions = keep slot_index overflow k.slots.overflow_regions;
        };
        world = drop_held (replaced slot_index overflow k.slots.overflow_regions) k.world;
      } in
      record kept { world = signal rt.sys k.slots.rsp_event kept.world }

  -- A response that could not be written frees the slot.
  unfoldable pub after_write :
      ℕ → Outcome (Option (ShmRegion o)) × Worker → Outcome (Unit {0}) × Worker
  unfolding answered
  after_write slot_index (ok overflow, k) = (ok tt, answered slot_index overflow k)
  after_write slot_index (err e, k) =
      (err e, record k { world = store_status k.slots.region slot_index slot_free k.world })
  after_write slot_index (panicked, k) = (panicked, k)

  unfoldable pub write_answer : ℕ → ℕ → List ℕ → List ℕ → M Worker (Unit {0})
  unfolding after_write
  write_answer slot_index status meta_bytes body k = after_write slot_index (
      on_world (λ s. write_response rt.target s.region slot_index status meta_bytes body s.config)
        k)

  unfoldable pub send_response : ℕ → ℕ → List ℕ → Text → List (Text × Text) → M Worker (Unit {0})
  unfolding forget_overflow write_answer
  send_response slot_index status body content_type headers = do
    meta_bytes ← lift (
        from_postcard (
          rt.response_code.to_allocvec (record { content_type = content_type; headers = headers })))
    update (forget_overflow slot_index)
    write_answer slot_index status meta_bytes body

  unfoldable pub exchange_slot : ℕ → ℕ → ℕ → M Worker Bool
  exchange_slot slot_index expected new k =
      let r = exchange_status k.slots.region slot_index expected new k.world in
      (ok r.0, record k { world = r.1 })

  module _ (handler : ℕ → Request → M Worker (Unit {0})) where
    -- What becomes of a request that was read, or could not be.
    unfoldable pub handle : ℕ → SlotBusError ⊎ Received → M Worker (Unit {0})
    handle i (inr received) = handler i (request_of received)
    handle i (inl e) = change_world (λ s. store_status s.region i slot_free)

    unfoldable pub take_request : ℕ → M Worker (Unit {0})
    unfolding handle
    take_request i =
        attempt (on_world (λ s. read_request rt.target s.region rt.request_code i s.config))
        >>= handle i

    unfoldable pub receive_slot : ℕ → M Worker (Unit {0})
    unfolding exchange_slot take_request
    receive_slot i = do
      claimed ← exchange_slot i slot_ready slot_claimed
      if claimed then take_request i else pure tt

    unfoldable pub receive_from : ℕ → ℕ → M Worker (Unit {0})
    unfolding receive_slot
    receive_from zero i = pure tt
    receive_from (suc left) i = receive_slot i >> receive_from left (i + 1)

    unfoldable pub receive_round : M Worker (Unit {0})
    receive_round = do
      change_world (λ s w. (wait_timeout rt.sys rt.target s.req_event s.config.wait_timeout_ms w).1)
      slots ← get (λ k. k.slots.region.num_slots)
      receive_from slots 0

    -- The receive loop, `rounds` of it at most: whether it has come to its `break`.
    unfoldable pub receive : ℕ → M Worker Bool
    unfolding receive_round
    receive zero k = (ok false, k)
    receive (suc rounds) k =
        if k.slots.running then (receive_round >>= λ done. receive rounds) k else (ok true, k)

  -- Also the body of `Drop`.
  unfoldable pub stop : Worker → Worker
  stop k = record k {
    slots = record k.slots { running = false };
    world = signal rt.sys k.slots.req_event k.world;
  }
