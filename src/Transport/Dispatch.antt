-- ===== src/Transport/Dispatch.antt =====
-- What `dispatch` leaves behind when it succeeds.
use slotbus.Base.{
  ℕ, ◌<◌, ◌≡◌, ap, ◌∙◌, arith, List, ◌++◌, some, none, Text, ascii, text_eq, put, true, ◌==◌,
  length, u16_mod, u32_mod,
}
use slotbus.Error.{ok}
use slotbus.Types.{RequestMeta, method_to_u8, slot_free, slot_ready}
use slotbus.Config.{request_overflow_name_gen}
use slotbus.Postcard.{coded, from_postcard}
use slotbus.Os.{Os, IsOs, lift, >>=-eq-ok}
use slotbus.Region.Isolation.{OthersKept, OthersKept-trans}
use slotbus.Region.Slots.{load_status}
use slotbus.Region.Requests.Stored.{RequestAt}
use slotbus.Transport.{Runtime, Response, Kept}
use slotbus.Transport.Hub.{Hub, PendingEntry, claim_slot, forget_overflow, dispatch}
use slotbus.Transport.Laws.{IsRuntime}
use slotbus.Transport.State.{IsHub, replaced-none}
use slotbus.Transport.Claimed.{from_postcard-ok, fill_slot-ok, claimed-Holds, claimed-OthersKept}
use slotbus.Transport.Published.{publish-Published, Filled, written-Filled}

module _ {o : Os} (os : IsOs o) (rt : Runtime o) (laws : IsRuntime rt) where
  -- A request that was dispatched: the slot it is in, and what waits for its response.
  pub record Dispatched (h : Hub rt) (req_id method : Text) (meta : RequestMeta) (body : List ℕ)
      (rx : rt.Receiver) (h' : Hub rt) : Type 0 where
    pub slot : ℕ
    pub inside : slot < h.bus.region.num_slots
    pub was_free : load_status h.bus.region slot h.world ≡ slot_free
    pub ready : load_status h.bus.region slot h'.world ≡ slot_ready
    pub meta_bytes : List ℕ
    pub encoded : rt.request_code.to_allocvec meta ≡ coded meta_bytes
    pub stored :
        length meta_bytes < u16_mod
        → RequestAt h.bus.region slot
            (request_overflow_name_gen rt.target h.bus.config slot)
            req_id
            (method_to_u8 method)
            meta_bytes
            body
            h'.world
    pub entry : PendingEntry rt
    pub waiting : h'.bus.pending ≡ put text_eq req_id (some entry) h.bus.pending
    pub delivers :
        (t : o.State) (response : Response)
        → rt.resolved rx (rt.send entry.tx response t) ≡ some response
    pub same_region : h'.bus.region ≡ h.bus.region
    pub same_config : h'.bus.config ≡ h.bus.config
    pub others : OthersKept h.bus.region slot h.world h'.world
    pub holds : IsHub rt h'

  Filled-Dispatched :
      (h g h' : Hub rt) (i : ℕ) (req_id method : Text) (meta : RequestMeta)
      (meta_bytes body : List ℕ) (rx : rt.Receiver)
      → i < h.bus.region.num_slots
      → load_status h.bus.region i h.world ≡ slot_free
      → rt.request_code.to_allocvec meta ≡ coded meta_bytes
      → g.bus.region ≡ h.bus.region
      → g.bus.config ≡ h.bus.config
      → g.bus.pending ≡ h.bus.pending
      → OthersKept h.bus.region i h.world g.world
      → Filled os rt laws i req_id (method_to_u8 method) meta_bytes body g rx h'
      → Dispatched h req_id method meta body rx h'
  Filled-Dispatched h g h' i req_id method meta meta_bytes body rx inside was_free encoded region
        config pending before f =
      record {
        slot = i;
        inside = inside;
        was_free = was_free;
        ready = rw region at (f.ready);
        meta_bytes = meta_bytes;
        encoded = encoded;
        stored = λ brief. rw (region, config) at (f.stored brief);
        entry = f.entry;
        waiting = f.waiting ∙ ap (put text_eq req_id (some (f.entry))) pending;
        delivers = f.delivers;
        same_region = f.same_region ∙ region;
        same_config = f.same_config ∙ config;
        others =
            OthersKept-trans h.bus.region i h.world g.world h'.world before
              (rw region at (f.others));
        holds = f.holds;
      }

  -- Take a hub whose invariant holds, and a body of less than 4 GiB. Where `dispatch` succeeds, it has
  -- claimed a slot of the table that was free, the slot is ready and holds exactly the request (if its
  -- encoded metadata have less than 2 ^ 16 bytes), whoever sends to the entry that waits under the
  -- request's id is heard by the receiver that was given back, nothing that belongs to another slot has
  -- changed, and the invariant holds.
  pub dispatch-Dispatched :
      (h h' : Hub rt) (req_id method : Text) (meta : RequestMeta) (body : List ℕ) (rx : rt.Receiver)
      → IsHub rt h
      → length body < u32_mod
      → dispatch rt req_id method meta body h ≡ (ok rx, h')
      → Dispatched h req_id method meta body rx h'
  unfolding dispatch
  dispatch-Dispatched h h' req_id method meta body rx hub short e =
      let (i, h1, claimed, rest) = >>=-eq-ok (claim_slot rt) _ rx h h' e in
      let (meta_bytes, h2, code, filled) =
        >>=-eq-ok (lift (from_postcard (rt.request_code.to_allocvec meta))) _ rx h1 h' rest in
      let (encoded, same) = from_postcard-ok os rt laws meta meta_bytes h1 h2 code in
      let (inside, was_free, region, config, pending, kept, hub') =
        claimed-Holds os rt laws h h1 i hub claimed in
      let g = forget_overflow rt i h1 in
      let label = method ++ (ascii " " ++ meta.path) in
      let (overflow, w, wrote, published) =
        fill_slot-ok os rt laws i req_id (method_to_u8 method) label meta_bytes body h1 h' rx
          (rw same at filled) in
      let empty : g.bus.overflow_regions i ≡ none =
        ap (λ (k : Kept o). k i) kept ∙ (let same : (i == i) ≡ true = ground arith in rw same) in
      let p =
        publish-Published os rt laws i req_id label overflow (record g { world = w }) h' rx
          (replaced-none i overflow g.bus.overflow_regions empty) published in
      let f =
        written-Filled os rt laws i req_id (method_to_u8 method) meta_bytes body g h' rx overflow w
          hub' (rw region inside) short wrote p in
      Filled-Dispatched h g h' i req_id method meta meta_bytes body rx inside was_free encoded
        region config pending (claimed-OthersKept os rt laws h h1 i hub claimed) f
