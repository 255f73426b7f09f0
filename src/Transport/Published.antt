-- ===== src/Transport/Published.antt =====
-- The last steps of `dispatch`: the request is written, registered and signalled.
use slotbus.Base.{
  subst, ℕ, ◌<◌, ◌≡◌, refl, sym, ap, arith, List, Option, some, none, Text, text_eq, put, true,
  length, u16_mod, u32_mod,
}
use slotbus.Error.{Outcome, ok}
use slotbus.Types.{slot_ready}
use slotbus.Config.{request_overflow_name_gen}
use slotbus.Os.{Os, IsOs, World}
use slotbus.Region.{ShmRegion}
use slotbus.Region.Calm.{Calm, region_memory-Calm, Quiet, Quiet-refl, Quiet-trans}
use slotbus.Region.Isolation.{OthersKept, OthersKept-trans, OthersKept-same, write_request_isolated}
use slotbus.Region.Slots.{load_status}
use slotbus.Region.Requests.{write_request}
use slotbus.Region.Requests.Stored.{RequestAt, RequestAt-Calm}
use slotbus.Region.Requests.Effects.{write_request-settled, write_request-mapped}
use slotbus.Region.Requests.RoundTrip.{written, write_request-Elsewhere, Written-RequestAt}
use slotbus.Transport.{Runtime, Response, keep, replaced}
use slotbus.Transport.Hub.{Hub, PendingEntry, drop_entry, publish}
use slotbus.Transport.Laws.{IsRuntime, signal-Quiet, signal-memory}
use slotbus.Transport.State.{IsHub, keep-AllApart}

module _ {o : Os} (os : IsOs o) (rt : Runtime o) (laws : IsRuntime rt) where
  -- What `publish` has done, where nothing was kept for the slot.
  pub record Published (i : ℕ) (req_id : Text) (overflow : Option (ShmRegion o)) (h : Hub rt)
      (rx : rt.Receiver) (h' : Hub rt) : Type 0 where
    pub region : h'.bus.region ≡ h.bus.region
    pub config : h'.bus.config ≡ h.bus.config
    pub kept : h'.bus.overflow_regions ≡ keep i overflow h.bus.overflow_regions
    pub entry : PendingEntry rt
    pub pending : h'.bus.pending ≡ put text_eq req_id (some entry) h.bus.pending
    pub delivers :
        (t : o.State) (response : Response)
        → rt.resolved rx (rt.send entry.tx response t) ≡ some response
    pub calm : Calm h.world h'.world

  drop_entry-Quiet :
      (entry : Option (PendingEntry rt)) (s : o.State) → Quiet o s (drop_entry rt entry s)
  drop_entry-Quiet none s = Quiet-refl s
  drop_entry-Quiet (some entry) s = laws.drop_sender-Quiet entry.tx s

  pub publish-Published :
      (i : ℕ) (req_id label : Text) (overflow : Option (ShmRegion o)) (h h' : Hub rt)
      (rx : rt.Receiver)
      → replaced i overflow h.bus.overflow_regions ≡ none
      → publish rt i req_id label overflow h ≡ (ok rx, h')
      → Published i req_id overflow h rx h'
  unfolding publish
  publish-Published i req_id label overflow h h' rx nothing e =
      let e' = rw nothing at e in
      let made = rt.channel h.world.state in
      let left = drop_entry rt (h.bus.pending req_id) made.1 in
      let quiet =
        Quiet-trans h.world.state made.1 left (laws.channel-Quiet h.world.state)
          (drop_entry-Quiet (h.bus.pending req_id) made.1) in
      let v : World o = record h.world { state = left } in
      let got : rx ≡ made.0.1 = ground arith in
      let last : h' ≡ _ = sym (ap (λ (x : Outcome rt.Receiver × Hub rt). x.1) e') in
      rw (got, last)
        (record {
          region = refl;
          config = refl;
          kept = refl;
          entry = _;
          pending = refl;
          delivers = λ t response. laws.send-resolved h.world.state t response;
          calm = record {
            memory = signal-memory rt laws h.bus.req_event v;
            state = Quiet-trans h.world.state left _ quiet (signal-Quiet rt laws h.bus.req_event v);
          };
        })

  -- A request that was filled in and published, in a slot for which nothing was kept.
  pub record Filled (i : ℕ) (req_id : Text) (method : ℕ) (meta_bytes body : List ℕ) (g : Hub rt)
      (rx : rt.Receiver) (h' : Hub rt) : Type 0 where
    pub ready : load_status g.bus.region i h'.world ≡ slot_ready
    pub stored :
        length meta_bytes < u16_mod
        → RequestAt g.bus.region i
            (request_overflow_name_gen rt.target g.bus.config i)
            req_id
            method
            meta_bytes
            body
            h'.world
    pub entry : PendingEntry rt
    pub waiting : h'.bus.pending ≡ put text_eq req_id (some entry) g.bus.pending
    pub delivers :
        (t : o.State) (response : Response)
        → rt.resolved rx (rt.send entry.tx response t) ≡ some response
    pub same_region : h'.bus.region ≡ g.bus.region
    pub same_config : h'.bus.config ≡ g.bus.config
    pub others : OthersKept g.bus.region i g.world h'.world
    pub holds : IsHub rt h'

  pub written-Filled :
      (i : ℕ) (req_id : Text) (method : ℕ) (meta_bytes body : List ℕ) (g h' : Hub rt)
      (rx : rt.Receiver) (overflow : Option (ShmRegion o)) (w : World o)
      → IsHub rt g
      → i < g.bus.region.num_slots
      → length body < u32_mod
      → write_request rt.target g.bus.region i req_id method meta_bytes body g.bus.config g.world
        ≡ (ok overflow, w)
      → Published i req_id overflow (record g { world = w }) rx h'
      → Filled i req_id method meta_bytes body g rx h'
  unfolding load_status
  written-Filled i req_id method meta_bytes body g h' rx overflow w hub inside short wrote p =
      let r = g.bus.region in
      let c = g.bus.config in
      let memory = region_memory-Calm r w h'.world (p.calm) in
      let result = ap (λ (x : Outcome (Option (ShmRegion o)) × World o). x.0) wrote in
      let world = ap (λ (x : Outcome (Option (ShmRegion o)) × World o). x.1) wrote in
      let settles : load_status r i w ≡ slot_ready = rw world at (
        rw result at (
          write_request-settled os rt.target r (hub.control) i inside req_id method meta_bytes body
            short c g.world (hub.mapped))) in
      let used : o.is_mapped w.state r.ptr ≡ true = rw world at (
        write_request-mapped os rt.target r (hub.control) i inside req_id method meta_bytes body
          short c g.world (hub.mapped)) in
      record {
        ready = rw memory settles;
        stored = λ brief.
            RequestAt-Calm r i (request_overflow_name_gen rt.target c i) req_id method meta_bytes
              body w h'.world (p.calm)
              (Written-RequestAt os rt.target r (hub.control) i inside req_id method meta_bytes body
                short c g.world (hub.mapped) w
                (written os rt.target r (hub.control) i inside req_id method meta_bytes body short c
                  g.world (hub.mapped) w overflow brief wrote));
        entry = p.entry;
        waiting = p.pending;
        delivers = p.delivers;
        same_region = p.region;
        same_config = p.config;
        others =
            OthersKept-trans r i g.world w h'.world
              (subst (OthersKept r i g.world) world (λ j x lt ne owns.
                write_request_isolated r (hub.control) os rt.target i inside meta_bytes body short c
                  g.world (hub.mapped) req_id method j x lt ne owns))
              (OthersKept-same r i w h'.world memory);
        holds = record {
          control = rw (p.region) (hub.control);
          mapped = rw (p.region) (p.calm.state.mapped r.ptr used);
          apart =
              rw (p.region, p.kept)
                (keep-AllApart r.ptr i overflow g.bus.overflow_regions
                  (write_request-Elsewhere os rt.target r (hub.control) i inside req_id method
                    meta_bytes body short c g.world (hub.mapped) w overflow wrote)
                  (hub.apart));
        };
      }
