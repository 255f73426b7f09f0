-- ===== src/Transport/Joined.antt =====
-- A worker that is opened after the hub was created.
use slotbus.Base.{ℕ, ◌<◌, ◌≡◌, refl, sym, ap, ◌∙◌, arith, some, Text}
use slotbus.Error.{ok}
use slotbus.Config.{SlotBusConfig}
use slotbus.Os.{Os, IsOs, World, Opened, unwind-ok, ◌>>=◌, >>=-eq-ok}
use slotbus.Region.{ShmRegion, open_region}
use slotbus.Types.{slot_free}
use slotbus.Region.Slots.{load_status}
use slotbus.Region.Calm.{Calm, region_memory-Calm, Calm-trans}
use slotbus.Region.Control.{validate_control}
use slotbus.Region.Control.Handshake.{
  table_end, heap_room, IsMeasured, laid_out, validate_control_lem,
}
use slotbus.Transport.{Runtime, drop_held}
use slotbus.Transport.Hub.{SlotBus, create}
use slotbus.Transport.Worker.{SlotWorker, open_worker, open_events}
use slotbus.Transport.Laws.{IsRuntime}
use slotbus.Transport.State.{IsHub, IsWorker}
use slotbus.Transport.Opening.{open_events-Calm}
use slotbus.Transport.Handshake.{Ready, Ready-IsHub, create-Ready}
use slotbus.Transport.Made.{open_region-ok}
use slotbus.Transport.Served.{Beside}

module _ {o : Os} (os : IsOs o) (rt : Runtime o) (laws : IsRuntime rt) where
  -- The two sides, each with its invariant, on one region.
  pub record Joined (b : SlotBus rt) (s : SlotWorker rt) (w : World o) : Type 0 where
    pub hub : IsHub rt (record { bus = b; world = w })
    pub worker : IsWorker rt (record { slots = s; world = w })
    pub beside : Beside rt (record { bus = b; world = w }) (record { slots = s; world = w })

  open_region-same :
      (name : Text) (b : SlotBus rt) (c : SlotBusConfig) (w v : World o) (raw : ShmRegion o)
      → Ready os rt laws c name b w
      → open_region name w ≡ (ok raw, v)
      → Calm w v × (raw.ptr ≡ b.region.ptr) × (raw.len ≡ b.region.len)
  open_region-same name b c w v raw r e =
      let (h, found, built, last) = open_region-ok name w v raw e in
      let both = sym (r.opens.open_lem) ∙ found in
      let same : r.opens.handle ≡ h = ground arith in
      let state : (o.open_map name w.state).1 ≡ v.state =
        ap (λ (x : Opened o.Shmem × o.State). x.1) found in
      (
        record {
          memory = ap (λ (x : World o). x.memory) last;
          state = rw state at (laws.open-Quiet name w.state);
        },
        rw (built, ← same) (r.opens.same_ptr),
        rw (built, ← same) (r.opens.same_len),
      )

  opened_events-Joined :
      (name : Text) (b : SlotBus rt) (c : SlotBusConfig) (w v w' : World o) (raw : ShmRegion o)
      (s : SlotWorker rt)
      → IsMeasured c
      → Ready os rt laws c name b w
      → Calm w v
      → raw.ptr ≡ b.region.ptr
      → open_events rt c (laid_out raw c) v ≡ (ok s, w')
      → Joined b s w'
  opened_events-Joined name b c w v w' raw s measured r before ptr e =
      let (after, region, config, kept, running) =
        open_events-Calm rt laws c (laid_out raw c) v w' s e in
      let calm = Calm-trans w v w' before after in
      let hub = Ready-IsHub os rt laws c name b w measured r in
      record {
        hub = record {
          control = hub.control;
          mapped = calm.state.mapped b.region.ptr (r.used);
          apart = hub.apart;
        };
        worker = rw region (record {
          control = record { table = refl; small = omega (arith, measured) };
          mapped = rw ptr (calm.state.mapped b.region.ptr (r.used));
          apart = λ i held e. absurd (let e' = rw kept at e in ground arith);
        });
        beside = record {
          agrees = rw region (record {
            ptr = ptr;
            num_slots = sym (r.num_slots);
            heap_offset = sym (r.heap_offset);
            heap_size = sym (r.heap_size);
          });
          config = config ∙ sym (r.config);
          world = refl;
        };
      }

  validated :
      (name : Text) (b : SlotBus rt) (c : SlotBusConfig) (w v : World o) (raw : ShmRegion o)
      → IsMeasured c
      → Ready os rt laws c name b w
      → Calm w v
      → raw.ptr ≡ b.region.ptr
      → raw.len ≡ b.region.len
      → validate_control raw v ≡ (ok (laid_out raw c), v)
  validated name b c w v raw measured r calm ptr len =
      validate_control_lem raw v c.num_slots (table_end c) (heap_room c)
        (rw (ptr, region_memory-Calm b.region w v calm) (r.header))
        (omega (arith, r.room, len, measured))

  checked_raw-Joined :
      (name : Text) (b : SlotBus rt) (c : SlotBusConfig) (w v w' : World o) (raw : ShmRegion o)
      (s : SlotWorker rt)
      → IsMeasured c
      → Ready os rt laws c name b w
      → open_region name w ≡ (ok raw, v)
      → (validate_control raw >>= open_events rt c) v ≡ (ok s, w')
      → Joined b s w'
  checked_raw-Joined name b c w v w' raw s measured r found e =
      let (calm, ptr, len) = open_region-same name b c w v raw r found in
      opened_events-Joined name b c w v w' raw s measured r calm ptr
        (rw (validated name b c w v raw measured r calm ptr len) at e)

  -- Take a configuration whose slot table and region have less than 4 GiB each. Where
  -- `SlotBus::create` succeeds with it, and then `SlotWorker::open` with the same configuration, the
  -- worker has the hub's mapping with the hub's layout, every slot was free after the creation,
  -- and both sides keep up their invariants.
  pub open_worker-create :
      (c : SlotBusConfig) (w v w' : World o) (b : SlotBus rt) (s : SlotWorker rt)
      → IsMeasured c
      → create rt c w ≡ (ok b, v)
      → open_worker rt c v ≡ (ok s, w')
      → Joined b s w' × ((i : ℕ) → i < c.num_slots → load_status b.region i v ≡ slot_free)
  unfolding open_worker
  open_worker-create c w v w' b s measured created opened_too =
      let (name, named, r) = create-Ready os rt laws c w v b measured created in
      let e = rw named at opened_too in
      let (raw, v2, found, rest) = >>=-eq-ok (open_region name) _ s v w' e in
      let inner =
        unwind-ok (drop_held (some raw)) (validate_control raw >>= open_events rt c) s v2 w' rest in
      (checked_raw-Joined name b c v v2 w' raw s measured r found inner, r.free)
