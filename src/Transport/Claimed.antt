-- ===== src/Transport/Claimed.antt =====
-- The steps of `dispatch` up to the write: a slot is claimed, and stripped of what was kept for it.
use slotbus.Memory.{Memory}
use slotbus.Base.{
  sym, ℕ, ◌<◌, ◌≡◌, ap, ap₂, subst, inl, inr, ◌∙◌, arith, List, Option, some, none, Text, put, true,
  ◌==◌, Option-cases,
}
use slotbus.Error.{ok}
use slotbus.Types.{RequestMeta, slot_free, slot_writing}
use slotbus.Postcard.{Coded, coded, code_error, from_postcard}
use slotbus.Os.{Os, IsOs, World, lift, >>=-eq-ok}
use slotbus.Region.{ShmRegion}
use slotbus.Region.Isolation.{
  OthersKept, OthersKept-trans, OthersKept-same, store_status-OthersKept,
}
use slotbus.Region.Slots.{load_status, store_status, claim_free_slot}
use slotbus.Region.Slots.Claim.{claim_free_slot-Claims}
use slotbus.Region.Requests.{write_request}
use slotbus.Transport.{Runtime}
use slotbus.Transport.Hub.{Hub, SlotBus, on_world, claim_slot, forget_overflow, publish, fill_slot}
use slotbus.Transport.Laws.{IsRuntime}
use slotbus.Transport.State.{IsHub, put-AllApart, drop_held_mapped, drop_held-memory}

module _ {o : Os} (os : IsOs o) (rt : Runtime o) (laws : IsRuntime rt) where
  pub claim_slot-ok :
      (h h1 : Hub rt) (i : ℕ)
      → claim_slot rt h ≡ (ok i, h1)
      → (claim_free_slot h.bus.region h.world ≡ (some i, h1.world)) × (h1.bus ≡ h.bus)
  unfolding claim_slot
  claim_slot-ok h h1 i e = elim (Option-cases (claim_free_slot h.bus.region h.world).0) [
    | inl full ↦ absurd (ground arith)
    | inr (j, found) ↦
        let same : j ≡ i = ground arith in
        let last : (claim_free_slot h.bus.region h.world).1 ≡ h1.world = ground arith in
        let bus : h1.bus ≡ h.bus = ground arith in
        (ap₂ (λ (x : Option ℕ) (w : World o). (x, w)) (found ∙ ap some same) last, bus)
  ]

  pub from_postcard-ok :
      (meta : RequestMeta) (bytes : List ℕ) (h h1 : Hub rt)
      → lift (from_postcard (rt.request_code.to_allocvec meta)) h ≡ (ok bytes, h1)
      → (rt.request_code.to_allocvec meta ≡ coded bytes) × (h1 ≡ h)
  from_postcard-ok meta bytes h h1 e = by_code (rt.request_code.to_allocvec meta) e
    where
      by_code :
          (x : Coded (List ℕ))
          → lift (from_postcard x) h ≡ (ok bytes, h1)
          → (x ≡ coded bytes) × (h1 ≡ h)
      by_code (coded b) e = (ground arith, ground arith)
      by_code (code_error t) e = absurd (ground arith)

  pub fill_slot-ok :
      (i : ℕ) (req_id : Text) (method : ℕ) (label : Text) (meta_bytes body : List ℕ) (h h' : Hub rt)
      (rx : rt.Receiver)
      → fill_slot rt i req_id method label meta_bytes body h ≡ (ok rx, h')
      → let g = forget_overflow rt i h in
        (overflow : Option (ShmRegion o)) × (w : World o) × (write_request rt.target g.bus.region i
            req_id method meta_bytes body g.bus.config g.world
          ≡ (ok overflow, w))
        × (publish rt i req_id label overflow (record g { world = w }) ≡ (ok rx, h'))
  unfolding fill_slot
  fill_slot-ok i req_id method label meta_bytes body h h' rx e =
      let g = forget_overflow rt i h in
      let (overflow, h3, wrote, rest) =
        >>=-eq-ok
          (on_world rt
            (λ b. write_request rt.target b.region i req_id method meta_bytes body b.config))
          (publish rt i req_id label) rx g h' e in
      let last : h3 ≡ record g { world = h3.world } = ground arith in
      let same : write_request rt.target g.bus.region i req_id method meta_bytes body g.bus.config
            g.world
          ≡ (ok overflow, h3.world) =
        ground arith in
      (
        overflow,
        h3.world,
        same,
        subst (λ x. publish rt i req_id label overflow x ≡ (ok rx, h')) last rest,
      )

  -- A slot that is claimed, and stripped of the overflow region that was kept for it.
  pub claimed-Holds :
      (h h1 : Hub rt) (i : ℕ)
      → IsHub rt h
      → claim_slot rt h ≡ (ok i, h1)
      → let g = forget_overflow rt i h1 in
        (i < h.bus.region.num_slots)
        × (load_status h.bus.region i h.world ≡ slot_free)
        × (g.bus.region ≡ h.bus.region)
        × (g.bus.config ≡ h.bus.config)
        × (g.bus.pending ≡ h.bus.pending)
        × (g.bus.overflow_regions ≡ put ◌==◌ i none h.bus.overflow_regions)
        × IsHub rt g
  unfolding forget_overflow store_status
  claimed-Holds h h1 i hub e =
      let (claimed, bus) = claim_slot-ok h h1 i e in
      let c = claim_free_slot-Claims h.bus.region h.world h1.world i claimed in
      let state : h1.world.state ≡ h.world.state = ap (λ (w : World o). w.state) (c.taken) in
      let used : o.is_mapped h1.world.state h.bus.region.ptr ≡ true = rw state (hub.mapped) in
      (
        omega (arith, c.below),
        c.was_free,
        ap (λ (b : SlotBus rt). b.region) bus,
        ap (λ (b : SlotBus rt). b.config) bus,
        ap (λ (b : SlotBus rt). b.pending) bus,
        ap (λ (b : SlotBus rt). put ◌==◌ i none b.overflow_regions) bus,
        record {
          control = rw bus (hub.control);
          mapped = rw bus (
              drop_held_mapped rt laws (h.bus.overflow_regions i) h1.world h.bus.region.ptr
                (λ region e. hub.apart i region e) used);
          apart = rw bus (
              put-AllApart h.bus.region.ptr i none h.bus.overflow_regions
                (λ region e. absurd (ground arith)) (hub.apart));
        },
      )

  pub claimed-OthersKept :
      (h h1 : Hub rt) (i : ℕ)
      → IsHub rt h
      → claim_slot rt h ≡ (ok i, h1)
      → OthersKept h.bus.region i h.world (forget_overflow rt i h1).world
  unfolding forget_overflow
  claimed-OthersKept h h1 i hub e =
      let (claimed, bus) = claim_slot-ok h h1 i e in
      let c = claim_free_slot-Claims h.bus.region h.world h1.world i claimed in
      let r = h.bus.region in
      OthersKept-trans r i h.world h1.world (forget_overflow rt i h1).world
        (subst (OthersKept r i h.world) (sym (c.taken))
          (store_status-OthersKept r (hub.control) i slot_writing h.world (omega (arith, c.below))))
        (OthersKept-same r i h1.world (forget_overflow rt i h1).world (
          ap (λ (f : ℕ → Memory). f r.ptr) (drop_held-memory (h1.bus.overflow_regions i) h1.world)))
