-- ===== src/Transport/Watch.antt =====
-- The watcher's look at one slot.
use slotbus.Base.{
  ℕ, ◌<◌, ◌≡◌, ◌≢◌, refl, ap, ◌∙◌, arith, List, some, none, Text, false, ◌==◌, put, text_eq,
  u16_mod, u32_mod, ◌⊎◌, inr,
}
use slotbus.Error.{SlotBusError, ok}
use slotbus.Types.{ResponseMeta, slot_done, slot_free}
use slotbus.Config.{response_overflow_name_gen}
use slotbus.Memory.{Memory, read_u32}
use slotbus.Postcard.{coded}
use slotbus.Os.{Os, World}
use slotbus.Region.{ShmRegion, slot_address}
use slotbus.Region.Overflow.Fresh.{Keeps}
use slotbus.Region.Payload.Stored.{Agrees}
use slotbus.Region.Isolation.{
  OthersKept, OthersKept-trans, OthersKept-same, store_status-OthersKept,
}
use slotbus.Region.Slots.{load_status, store_status, exchange_status}
use slotbus.Region.Slots.Claim.{load_status-store_status}
use slotbus.Region.Requests.{read_req_id}
use slotbus.Region.Responses.{Answer, read_response}
use slotbus.Region.Responses.Stored.{AnswerAt, read_response-AnswerAt}
use slotbus.Transport.{Runtime, Response, response_of, drop_held}
use slotbus.Transport.Hub.{
  Hub, PendingEntry, forget_overflow, resolve, settle, exchange_slot, take_response, watch_slot,
}
use slotbus.Transport.Laws.{IsRuntime}
use slotbus.Transport.State.{IsHub, put-AllApart, drop_held_mapped, drop_held-memory}
use slotbus.Transport.Reads.{read_response-Keeps}

module _ {o : Os} (rt : Runtime o) where
  -- The hub while it takes a response: the world after the read, and the slot freed.
  abbrev pub freed : ℕ → SlotBusError ⊎ Answer → Text → World o → Hub rt → Hub rt
  freed i result req_id v h =
      settle rt req_id result
        (forget_overflow rt i (record h { world = store_status h.bus.region i slot_free v }))

  pub take_response-eq :
      (i : ℕ) (h : Hub rt) (answer : Answer)
      → load_status h.bus.region i h.world ≡ slot_done
      → (read_response rt.target h.bus.region rt.response_code i h.bus.config h.world).0 ≡ ok answer
      → load_status h.bus.region i
          (read_response rt.target h.bus.region rt.response_code i h.bus.config h.world).1
        ≡ slot_done
      → watch_slot rt i h ≡ (
        ok tt,
        freed i
            (inr answer)
            (read_req_id h.bus.region i h.world)
            (read_response rt.target h.bus.region rt.response_code i h.bus.config h.world).1
            h,
      )
  unfolding watch_slot take_response exchange_slot exchange_status
  take_response-eq i h answer done read still = rw (done, read, still)

  -- A slot whose response was delivered.
  pub record Resolved (h : Hub rt) (i : ℕ) (req_id : Text) (rx : rt.Receiver) (answer : Answer)
      (h' : Hub rt) : Type 0 where
    pub freed_slot : load_status h.bus.region i h'.world ≡ slot_free
    pub received : rt.resolved rx h'.world.state ≡ some (response_of answer)
    pub pending : h'.bus.pending ≡ put text_eq req_id none h.bus.pending
    pub overflow_regions : h'.bus.overflow_regions ≡ put ◌==◌ i none h.bus.overflow_regions
    pub same_region : h'.bus.region ≡ h.bus.region
    pub same_config : h'.bus.config ≡ h.bus.config
    pub others : OthersKept h.bus.region i h.world h'.world
    pub holds : IsHub rt h'

module _ {o : Os} (rt : Runtime o) (laws : IsRuntime rt) where
  freed-Resolved :
      (i : ℕ) (answer : Answer) (req_id : Text) (v : World o) (h : Hub rt) (entry : PendingEntry rt)
      (rx : rt.Receiver)
      → IsHub rt h
      → i < h.bus.region.num_slots
      → Keeps h.world v
      → h.bus.pending req_id ≡ some entry
      → ((t : o.State) (response : Response)
          → rt.resolved rx (rt.send entry.tx response t) ≡ some response)
      → Resolved rt h i req_id rx answer (freed rt i (inr answer) req_id v h)
  unfolding settle resolve forget_overflow store_status load_status
  freed-Resolved i answer req_id v h entry rx hub inside keeps waiting delivers =
      let r = h.bus.region in
      let held = h.bus.overflow_regions i in
      let w = store_status r i slot_free v in
      let status : load_status r i w ≡ slot_free =
        load_status-store_status r i slot_free v (omega arith) in
      let memory = ap (λ (f : ℕ → Memory). f r.ptr) (drop_held-memory held w) in
      let used =
        drop_held_mapped rt laws held w r.ptr (λ region e. hub.apart i region e)
          (keeps.mapped r.ptr (hub.mapped)) in
      rw (waiting, resolve)
        (record {
          freed_slot = rw memory status;
          received = delivers _ (response_of answer);
          pending = refl;
          overflow_regions = refl;
          same_region = refl;
          same_config = refl;
          others =
              OthersKept-trans r i h.world v (drop_held held w)
                (OthersKept-same r i h.world v (ap (λ (f : ℕ → Memory). f r.ptr) (keeps.memory)))
                (OthersKept-trans r i v w (drop_held held w)
                  (store_status-OthersKept r (hub.control) i slot_free v inside)
                  (OthersKept-same r i w (drop_held held w) memory));
          holds = record {
            control = hub.control;
            mapped =
                (laws.send-Quiet entry.tx (response_of answer) (drop_held held w).state).mapped
                  r.ptr used;
            apart =
                put-AllApart r.ptr i none h.bus.overflow_regions (λ region e. absurd (ground arith))
                  (hub.apart);
          };
        })

  -- Take a hub whose invariant holds, and a done slot of the table in which the worker has stored a response, with
  -- metadata that `postcard` reads and a status of 16 bits. Where the id in the slot is one that
  -- somebody waits for, the watcher's look at the slot comes to its end: the receiver has exactly the
  -- response that was stored, nobody waits under the id any more, the slot is free, no overflow
  -- region is kept for it, nothing that belongs to another slot has changed, and the hub's invariant
  -- holds.
  pub watch_slot-Resolved :
      (r : ShmRegion o) (i : ℕ) (h : Hub rt) (req_id : Text) (status : ℕ) (meta_bytes body : List ℕ)
      (meta : ResponseMeta) (entry : PendingEntry rt) (rx : rt.Receiver)
      → IsHub rt h
      → i < h.bus.region.num_slots
      → Agrees r h.bus.region
      → r.heap_size < u32_mod
      → load_status h.bus.region i h.world ≡ slot_done
      → AnswerAt r i
          (response_overflow_name_gen rt.target h.bus.config i)
          status
          meta_bytes
          body
          h.world
      → status < u16_mod
      → rt.response_code.from_bytes meta_bytes ≡ coded meta
      → read_req_id h.bus.region i h.world ≡ req_id
      → h.bus.pending req_id ≡ some entry
      → ((t : o.State) (response : Response)
          → rt.resolved rx (rt.send entry.tx response t) ≡ some response)
      → (h' : Hub rt) × (watch_slot rt i h ≡ (ok tt, h'))
        × Resolved rt h i req_id rx (record { status = status; meta = meta; body = body }) h'
  unfolding load_status
  watch_slot-Resolved r i h req_id status meta_bytes body meta entry rx hub inside g small done at
        word decoded id waiting delivers =
      let answer : Answer = record { status = status; meta = meta; body = body } in
      let c = h.bus.config in
      let read =
        read_response-AnswerAt r i rt.target h.bus.region c status meta_bytes body h.world
          rt.response_code meta small g word at decoded in
      let keeps = read_response-Keeps rt laws rt.target h.bus.region rt.response_code i c h.world in
      let after = (read_response rt.target h.bus.region rt.response_code i c h.world).1 in
      let still =
        ap (λ (f : ℕ → Memory). read_u32 (f h.bus.region.ptr) (slot_address i)) (keeps.memory)
        ∙ done in
      (
        _,
        take_response-eq rt i h answer done read still
            ∙ ap (λ t. (ok tt, freed rt i (inr answer) t after h)) id,
        freed-Resolved i answer req_id _ h entry rx hub inside keeps waiting delivers,
      )

  -- A slot that is not done is not touched.
  pub watch_slot-other :
      (i : ℕ) (h : Hub rt)
      → load_status h.bus.region i h.world ≢ slot_done
      → watch_slot rt i h ≡ (ok tt, h)
  unfolding watch_slot
  watch_slot-other i h other =
      let no : (load_status h.bus.region i h.world == slot_done) ≡ false = ground (arith, other) in
      rw no
