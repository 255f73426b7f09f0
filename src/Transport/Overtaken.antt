-- ===== src/Transport/Overtaken.antt =====
-- `dispatch` publishes a request before it registers who waits for the response. What becomes of a
-- response that is collected in between.
use slotbus.Base.{ℕ, ◌≡◌, refl, ap, ◌∙◌, arith, some, none, Text, text_eq_refl, inr}
use slotbus.Error.{ok}
use slotbus.Types.{slot_done, slot_free}
use slotbus.Memory.{Memory, read_u32}
use slotbus.Os.{Os, World}
use slotbus.Events.{signal}
use slotbus.Region.{slot_address}
use slotbus.Region.Slots.{load_status, store_status}
use slotbus.Region.Slots.Claim.{load_status-store_status}
use slotbus.Region.Requests.{read_req_id}
use slotbus.Region.Responses.{Answer, read_response}
use slotbus.Transport.{Runtime}
use slotbus.Transport.Hub.{
  Hub, PendingEntry, register, keep_overflow, publish, watch_slot, settle, resolve, forget_overflow,
}
use slotbus.Transport.Laws.{IsRuntime}
use slotbus.Transport.State.{drop_held-memory}
use slotbus.Transport.Reads.{read_response-Keeps}
use slotbus.Transport.Watch.{freed, take_response-eq}

module _ {o : Os} (rt : Runtime o) (laws : IsRuntime rt) where
  -- A response that nobody gets: it was collected while nobody waited, and who waits now has a channel that
  -- nothing was sent on.
  pub record Lost (i : ℕ) (req_id : Text) (h' h'' : Hub rt) (rx : rt.Receiver) : Type 0 where
    pub freed_slot : load_status h'.bus.region i h'.world ≡ slot_free
    pub nobody_waits : h'.bus.pending req_id ≡ none
    pub made : rx ≡ (rt.channel h'.world.state).0.1
    pub unanswered :
        h''.world
        ≡ signal rt.sys h'.bus.req_event (record h'.world { state = (rt.channel h'.world.state).1 })
    pub waits : (entry : PendingEntry rt) × (h''.bus.pending req_id ≡ some entry)

  freed-free :
      (i : ℕ) (answer : Answer) (req_id : Text) (v : World o) (h : Hub rt)
      → h.bus.pending req_id ≡ none
      → let h' = freed rt i (inr answer) req_id v h in
        (load_status h'.bus.region i h'.world ≡ slot_free) × (h'.bus.pending req_id ≡ none)
  unfolding settle resolve forget_overflow load_status
  freed-free i answer req_id v h nobody =
      let r = h.bus.region in
      let w = store_status r i slot_free v in
      let memory = drop_held-memory (h.bus.overflow_regions i) w in
      let status : load_status r i w ≡ slot_free =
        load_status-store_status r i slot_free v (omega arith) in
      rw (nobody, resolve)
        (ap (λ (f : ℕ → Memory). read_u32 (f r.ptr) (slot_address i)) memory ∙ status, nobody)

  publish-Lost :
      (i : ℕ) (req_id label : Text) (h' : Hub rt)
      → load_status h'.bus.region i h'.world ≡ slot_free
      → h'.bus.pending req_id ≡ none
      → (h'' : Hub rt) × (rx : rt.Receiver) × (publish rt i req_id label none h' ≡ (ok rx, h''))
        × Lost i req_id h' h'' rx
  unfolding publish keep_overflow register
  publish-Lost i req_id label h' free nobody =
      let made = rt.channel h'.world.state in
      let entry : PendingEntry rt = record {
        t0 = rt.sys.instant made.1;
        label = label;
        tx = made.0.0;
      } in
      let same = text_eq_refl req_id in
      (
        _,
        _,
        refl,
        record {
          freed_slot = free;
          nobody_waits = nobody;
          made = refl;
          unanswered = rw nobody refl;
          waits = (entry, rw same refl);
        },
      )

  -- Take a hub and a slot that is done, with a response that can be read, while nobody waits under the id in the
  -- slot: `dispatch` has written the request, and has still to publish who waits for it. The watcher's look
  -- at the slot comes to its end, and so does what is left of the dispatch, without an overflow region:
  -- but the slot is free again, and whoever holds the receiver waits on a channel that nothing was sent on.
  pub publish-watch_slot :
      (i : ℕ) (req_id label : Text) (answer : Answer) (h : Hub rt)
      → load_status h.bus.region i h.world ≡ slot_done
      → read_req_id h.bus.region i h.world ≡ req_id
      → (read_response rt.target h.bus.region rt.response_code i h.bus.config h.world).0 ≡ ok answer
      → h.bus.pending req_id ≡ none
      → (h' h'' : Hub rt) × (rx : rt.Receiver) × (watch_slot rt i h ≡ (ok tt, h'))
        × (publish rt i req_id label none h' ≡ (ok rx, h''))
        × Lost i req_id h' h'' rx
  unfolding load_status
  publish-watch_slot i req_id label answer h done id read nobody =
      let c = h.bus.config in
      let x = read_response rt.target h.bus.region rt.response_code i c h.world in
      let keeps = read_response-Keeps rt laws rt.target h.bus.region rt.response_code i c h.world in
      let still =
        ap (λ (f : ℕ → Memory). read_u32 (f h.bus.region.ptr) (slot_address i)) (keeps.memory)
        ∙ done in
      let h' = freed rt i (inr answer) req_id x.1 h in
      let (free, empty) = freed-free i answer req_id x.1 h nobody in
      let (h'', rx, goes, lost) = publish-Lost i req_id label h' free empty in
      (
        h',
        h'',
        rx,
        take_response-eq rt i h answer done read still
            ∙ ap (λ t. (ok tt, freed rt i (inr answer) t x.1 h)) id,
        goes,
        lost,
      )
