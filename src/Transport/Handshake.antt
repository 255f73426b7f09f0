-- ===== src/Transport/Handshake.antt =====
-- `SlotBus::create`, and what it leaves in the hub's region.
use native.Mathlib.Decide.{dec_lt}
use slotbus.Base.{ℕ, ◌+◌, ◌≤◌, ◌<◌, ◌≡◌, refl, sym, ap, ◌∙◌, arith, some, none, Text, true}
use slotbus.Error.{Outcome, ok}
use slotbus.Memory.{fill}
use slotbus.Types.{slot_free}
use slotbus.Config.{SlotBusConfig, region_name}
use slotbus.Os.{Os, IsOs, World, lift, unwind-ok, ◌>>=◌, >>=-eq-ok}
use slotbus.Region.{ShmRegion, region_memory, set_memory, create_or_open}
use slotbus.Region.Calm.{Opens-Quiet, region_memory-Calm}
use slotbus.Region.Control.{write_header, init_control}
use slotbus.Region.Control.Handshake.{
  Header, write_header-Header, table_end, heap_room, IsMeasured, laid_out, init_control_ok,
  init_control_refuses,
}
use slotbus.Region.Heap.Access.{set_memory_self}
use slotbus.Region.Overflow.Fresh.{Opens}
use slotbus.Region.Slots.{load_status}
use slotbus.Transport.{Runtime, drop_held}
use slotbus.Transport.Hub.{SlotBus, create, create_events}
use slotbus.Transport.Laws.{IsRuntime}
use slotbus.Transport.State.{IsHub}
use slotbus.Transport.Opening.{create_events-Calm}
use slotbus.Transport.Made.{Made, new_status, create_or_open-Made}

module _ {o : Os} (os : IsOs o) (rt : Runtime o) (laws : IsRuntime rt) where
  -- A hub that has just been created, on the region of this name.
  pub record Ready (c : SlotBusConfig) (name : Text) (b : SlotBus rt) (w : World o) : Type 0 where
    pub config : b.config ≡ c
    pub num_slots : b.region.num_slots ≡ c.num_slots
    pub heap_offset : b.region.heap_offset ≡ table_end c
    pub heap_size : b.region.heap_size ≡ heap_room c
    pub pending : b.pending ≡ (λ t. none)
    pub kept : b.overflow_regions ≡ (λ i. none)
    pub running : b.running ≡ true
    pub used : o.is_mapped w.state b.region.ptr ≡ true
    pub opens : Opens name b.region w.state
    pub header : Header (region_memory b.region w) c.num_slots (table_end c) (heap_room c)
    pub room : table_end c + heap_room c ≤ b.region.len
    pub free : (i : ℕ) → i < c.num_slots → load_status b.region i w ≡ slot_free

  init_control-ok :
      (r region : ShmRegion o) (c : SlotBusConfig) (w w' : World o)
      → IsMeasured c
      → init_control r c w ≡ (ok region, w')
      → (table_end c + heap_room c ≤ r.len)
        × (region ≡ laid_out r c)
        × (w'
            ≡ set_memory r
                (write_header
                  (fill (region_memory r w) 0 0 r.len)
                  c.num_slots
                  (table_end c)
                  (heap_room c))
                w)
  init_control-ok r region c w w' measured e = elim (dec_lt r.len (table_end c + heap_room c)) [
    | yes short ↦
        let refused = sym (init_control_refuses r c w measured short) ∙ e in absurd (ground arith)
    | no long ↦
        let fits : table_end c + heap_room c ≤ r.len = omega arith in
        let made = sym e ∙ init_control_ok r c w measured fits in
        let result = ap (λ (z : Outcome (ShmRegion o) × World o). z.0) made in
        (fits, ground arith, ap (λ (z : Outcome (ShmRegion o) × World o). z.1) made)
  ]

  Made-Ready :
      (c : SlotBusConfig) (name : Text) (r : ShmRegion o) (b : SlotBus rt) (w v w' : World o)
      → IsMeasured c
      → Made name r w
      → table_end c + heap_room c ≤ r.len
      → v
        ≡ set_memory r
            (write_header
              (fill (region_memory r w) 0 0 r.len)
              c.num_slots
              (table_end c)
              (heap_room c))
            w
      → create_events rt c (laid_out r c) v ≡ (ok b, w')
      → Ready c name b w'
  unfolding load_status
  Made-Ready c name r b w v w' measured made room written e =
      let (calm, region, config, pending, kept, running) =
        create_events-Calm rt laws c (laid_out r c) v w' b e in
      let m =
        write_header (fill (region_memory r w) 0 0 r.len) c.num_slots (table_end c) (heap_room c) in
      let words =
        write_header-Header (fill (region_memory r w) 0 0 r.len) c.num_slots (table_end c)
          (heap_room c) in
      let state : v.state ≡ w.state = ap (λ (x : World o). x.state) written in
      let p = made.opens in
      let opens : Opens name (laid_out r c) w.state = record {
        handle = p.handle;
        after = p.after;
        open_lem = p.open_lem;
        same_ptr = p.same_ptr;
        same_len = p.same_len;
      } in
      let now : region_memory r w' ≡ m =
        region_memory-Calm r v w' calm
        ∙ ap (λ (x : World o). region_memory r x) written
        ∙ set_memory_self r m w in
      rw region (record {
        config = config;
        num_slots = refl;
        heap_offset = refl;
        heap_size = refl;
        pending = pending;
        kept = kept;
        running = running;
        used = calm.state.mapped r.ptr (rw state (made.used));
        opens = Opens-Quiet name (laid_out r c) v.state w'.state (calm.state) (rw state opens);
        header = rw now (record {
          magic = words.magic;
          version = words.version;
          slots = omega (arith, words.slots);
          offset = omega (arith, words.offset);
          size = omega (arith, words.size);
        });
        room = room;
        free = λ i lt. rw now (
            new_status (region_memory r w) r.len c.num_slots (table_end c) (heap_room c) i
              (omega arith));
      })

  -- Take a configuration whose slot table and region have less than 4 GiB each. Where
  -- `SlotBus::create` succeeds with it, the hub's region is mapped, the bus's name opens that
  -- mapping, its header has the configuration's layout, which the mapping can hold, every slot is
  -- free, nobody waits, and no overflow region is kept.
  pub create-Ready :
      (c : SlotBusConfig) (w w' : World o) (b : SlotBus rt)
      → IsMeasured c
      → create rt c w ≡ (ok b, w')
      → (name : Text) × (region_name rt.target c ≡ ok name) × Ready c name b w'
  unfolding create
  create-Ready c w w' b measured e =
      let (name, w1, named, rest) = >>=-eq-ok (lift (region_name rt.target c)) _ b w w' e in
      let (raw, w2, found, rest2) =
        >>=-eq-ok (create_or_open rt.target name c.region_size) _ b w1 w' rest in
      let inner =
        unwind-ok (drop_held (some raw)) (init_control raw c >>= create_events rt c) b w2 w'
          rest2 in
      let (region, w3, laid, rest3) =
        >>=-eq-ok (init_control raw c) (create_events rt c) b w2 w' inner in
      let made = create_or_open-Made os rt laws rt.target name c.region_size w1 w2 raw found in
      let (room, same, written) = init_control-ok raw region c w2 w3 measured laid in
      let right : region_name rt.target c ≡ ok name =
        ap (λ (z : Outcome Text × World o). z.0) named in
      (name, right, Made-Ready c name raw b w2 w3 w' measured made room written (rw same at rest3))

  -- A new hub's invariant.
  pub Ready-IsHub :
      (c : SlotBusConfig) (name : Text) (b : SlotBus rt) (w : World o)
      → IsMeasured c
      → Ready c name b w
      → IsHub rt (record { bus = b; world = w })
  Ready-IsHub c name b w measured r = record {
    control = record {
      table = r.heap_offset ∙ rw (r.num_slots);
      small = omega (arith, r.heap_size, measured);
    };
    mapped = r.used;
    apart = λ i region e. absurd (let e' = rw (r.kept) at e in ground arith);
  }
