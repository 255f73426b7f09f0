-- ===== src/Transport/Hub.antt =====
-- `SlotBus`, the side of the hub. Its state and the world change together; a lock is held for one
-- access to a map at a time, and is taken for granted.
use slotbus.Base.{
  ℕ, zero, suc, ◌+◌, List, [], ◌∷◌, ◌++◌, Option, none, some, Bool, true, false, Text, ascii,
  text_eq, ◌==◌, put, if◌then◌else◌, ◌⊎◌, inl, inr,
}
use slotbus.Error.{SlotBusError, no_free_slots, Outcome, ok, err}
use slotbus.Types.{RequestMeta, method_to_u8, slot_free, slot_done}
use slotbus.Config.{SlotBusConfig, region_name, request_event_name, response_event_name}
use slotbus.Postcard.{from_postcard}
use slotbus.Os.{Os, World, M, ◌>>=◌, ◌>>◌, pure, lift, unwind, update, get, attempt}
use slotbus.Events.{NamedEvent, signal, wait_timeout, drop_event}
use slotbus.Events as Events
use slotbus.Region.{ShmRegion, create_or_open}
use slotbus.Region.Control.{init_control}
use slotbus.Region.Slots.{load_status, exchange_status, claim_free_slot}
use slotbus.Region.Requests.{write_request, read_req_id}
use slotbus.Region.Responses.{Answer, read_response}
use slotbus.Transport.{Runtime, Kept, drop_held, keep, replaced, response_of}

module _ {o : Os} (rt : Runtime o) where
  pub record PendingEntry : Type 0 where
    pub t0 : ℕ
    pub label : Text
    pub tx : rt.Sender

  pub record SlotBus : Type 0 where
    pub config : SlotBusConfig
    pub region : ShmRegion o
    pub req_event : NamedEvent rt.sys
    pub rsp_event : NamedEvent rt.sys
    pub pending : Text → Option PendingEntry
    pub overflow_regions : Kept o
    pub running : Bool

  -- The hub in its world.
  pub record Hub : Type 0 where
    pub bus : SlotBus
    pub world : World o

  abbrev in_world : {A : Type 0} → Hub → Outcome A × World o → Outcome A × Hub
  in_world h r = (r.0, record h { world = r.1 })

  -- A step of the world alone.
  abbrev pub on_world : {A : Type 0} → (SlotBus → M (World o) A) → M Hub A
  on_world m h = in_world h (m h.bus h.world)

  abbrev change_world : (SlotBus → World o → World o) → M Hub (Unit {0})
  change_world f = update (λ h. record h { world = f h.bus h.world })

  -- The two events of a bus, behind its region.
  unfoldable pub create_rsp_event :
      SlotBusConfig → ShmRegion o → NamedEvent rt.sys → M (World o) SlotBus
  create_rsp_event c region req_event = do
    rsp_name ← lift (response_event_name rt.target c)
    rsp_event ← Events.create rt.sys rt.target rsp_name
    pure (record {
      config = c;
      region = region;
      req_event = req_event;
      rsp_event = rsp_event;
      pending = λ k. none;
      overflow_regions = λ i. none;
      running = true;
    })

  unfoldable pub create_events : SlotBusConfig → ShmRegion o → M (World o) SlotBus
  unfolding create_rsp_event
  create_events c region = do
    req_name ← lift (request_event_name rt.target c)
    req_event ← Events.create rt.sys rt.target req_name
    unwind (drop_event rt.sys req_event) (create_rsp_event c region req_event)

  unfoldable pub create : SlotBusConfig → M (World o) SlotBus
  unfolding create_events
  create c = do
    name ← lift (region_name rt.target c)
    raw ← create_or_open rt.target name c.region_size
    unwind (drop_held (some raw)) (do region ← init_control raw c; create_events c region)

  unfoldable pub claim_slot : M Hub ℕ
  claim_slot h = elim (claim_free_slot h.bus.region h.world).0 [
    | some i ↦ (ok i, record h { world = (claim_free_slot h.bus.region h.world).1 })
    | none ↦ (
      err (no_free_slots h.bus.config.num_slots),
      record h { world = (claim_free_slot h.bus.region h.world).1 },
    )
  ]

  -- `overflow_regions.remove(&slot_index)`
  unfoldable pub forget_overflow : ℕ → Hub → Hub
  forget_overflow slot_index h = record h {
    bus = record h.bus { overflow_regions = put ◌==◌ slot_index none h.bus.overflow_regions };
    world = drop_held (h.bus.overflow_regions slot_index) h.world;
  }

  unfoldable pub keep_overflow : ℕ → Option (ShmRegion o) → Hub → Hub
  keep_overflow slot_index overflow h = record h {
    bus = record h.bus { overflow_regions = keep slot_index overflow h.bus.overflow_regions };
    world = drop_held (replaced slot_index overflow h.bus.overflow_regions) h.world;
  }

  abbrev pub drop_entry : Option PendingEntry → o.State → o.State
  drop_entry none s = s
  drop_entry (some entry) s = rt.drop_sender entry.tx s

  -- A new channel, whose sender waits under the request's id.
  unfoldable pub register : Text → Text → M Hub rt.Receiver
  register req_id label h =
      let made = rt.channel h.world.state in
      let entry : PendingEntry = record {
        t0 = rt.sys.instant made.1;
        label = label;
        tx = made.0.0;
      } in
      (
        ok made.0.1,
        record {
          bus = record h.bus { pending = put text_eq req_id (some entry) h.bus.pending };
          world = record h.world { state = drop_entry (h.bus.pending req_id) made.1 };
        },
      )

  -- What follows a request that was written.
  unfoldable pub publish : ℕ → Text → Text → Option (ShmRegion o) → M Hub rt.Receiver
  unfolding keep_overflow register
  publish slot_index req_id label overflow = do
    update (keep_overflow slot_index overflow)
    rx ← register req_id label
    change_world (λ b. signal rt.sys b.req_event)
    pure rx

  -- Any stale overflow region of the slot goes before the slot is written.
  unfoldable pub fill_slot : ℕ → Text → ℕ → Text → List ℕ → List ℕ → M Hub rt.Receiver
  unfolding forget_overflow publish
  fill_slot slot_index req_id method label meta_bytes body = do
    update (forget_overflow slot_index)
    overflow ←
        on_world
          (λ b. write_request rt.target b.region slot_index req_id method meta_bytes body b.config)
    publish slot_index req_id label overflow

  unfoldable pub dispatch : Text → Text → RequestMeta → List ℕ → M Hub rt.Receiver
  unfolding claim_slot fill_slot
  dispatch req_id method meta body = do
    slot_index ← claim_slot
    meta_bytes ← lift (from_postcard (rt.request_code.to_allocvec meta))
    fill_slot slot_index req_id (method_to_u8 method) (method ++ (ascii " " ++ meta.path))
        meta_bytes body

  -- `pending.remove(&req_id)`, and the response goes to the sender that was there.
  unfoldable pub resolve : Text → Answer → Hub → Hub
  resolve req_id answer h = elim (h.bus.pending req_id) [
    | none ↦ h
    | some entry ↦ record {
      bus = record h.bus { pending = put text_eq req_id none h.bus.pending };
      world = record h.world { state = rt.send entry.tx (response_of answer) h.world.state };
    }
  ]

  unfoldable pub settle : Text → SlotBusError ⊎ Answer → Hub → Hub
  unfolding resolve
  settle req_id (inr answer) h = resolve req_id answer h
  settle req_id (inl e) h = h

  unfoldable pub exchange_slot : ℕ → ℕ → ℕ → M Hub Bool
  exchange_slot slot_index expected new h =
      let r = exchange_status h.bus.region slot_index expected new h.world in
      (ok r.0, record h { world = r.1 })

  -- A done slot is read, freed, and its response delivered.
  unfoldable pub take_response : ℕ → M Hub (Unit {0})
  unfolding exchange_slot settle
  take_response i = do
    req_id ← get (λ h. read_req_id h.bus.region i h.world)
    result ← attempt (on_world (λ b. read_response rt.target b.region rt.response_code i b.config))
    freed ← exchange_slot i slot_done slot_free
    if freed then update (λ h. settle req_id result (forget_overflow i h)) else pure tt

  unfoldable pub watch_slot : ℕ → M Hub (Unit {0})
  unfolding take_response
  watch_slot i h =
      if load_status h.bus.region i h.world == slot_done then take_response i h else (ok tt, h)

  -- The slots from `i` on, `left` of them.
  unfoldable pub watch_from : ℕ → ℕ → M Hub (Unit {0})
  unfolding watch_slot
  watch_from zero i = pure tt
  watch_from (suc left) i = watch_slot i >> watch_from left (i + 1)

  unfoldable pub watch_round : M Hub (Unit {0})
  watch_round = do
    change_world (λ b w. (wait_timeout rt.sys rt.target b.rsp_event b.config.wait_timeout_ms w).1)
    slots ← get (λ h. h.bus.region.num_slots)
    watch_from slots 0

  -- The loop of the response watcher, `rounds` of it at most: whether it has come to its `break`.
  unfoldable pub watch : ℕ → M Hub Bool
  unfolding watch_round
  watch zero h = (ok false, h)
  watch (suc rounds) h =
      if h.bus.running then (watch_round >>= λ done. watch rounds) h else (ok true, h)

  diagnostics_from : ℕ → ℕ → ShmRegion o → World o → List (ℕ × ℕ)
  diagnostics_from zero i r w = []
  diagnostics_from (suc left) i r w = (i, load_status r i w) ∷ diagnostics_from left (i + 1) r w

  unfoldable pub slot_diagnostics : Hub → List (ℕ × ℕ)
  unfolding diagnostics_from
  slot_diagnostics h = diagnostics_from h.bus.region.num_slots 0 h.bus.region h.world

  -- Also the body of `Drop`.
  unfoldable pub stop : Hub → Hub
  stop h = record h {
    bus = record h.bus { running = false };
    world = signal rt.sys h.bus.rsp_event h.world;
  }
