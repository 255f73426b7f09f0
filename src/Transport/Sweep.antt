-- ===== src/Transport/Sweep.antt =====
-- A whole round of the response watcher of slotbus/src/transport.rs.
mod Parts
use slotbus.Base.{
  ℕ, zero, suc, ◌+◌, ◌≤◌, ◌<◌, ◌≡◌, ◌≢◌, refl, subst, sym, ap, ◌∙◌, arith, ◌⊎◌, inl, inr, ◌==◌,
  Bool-cases, Text,
}
use native.Mathlib.Decide.{ℕ_discrete}
use slotbus.Error.{SlotBusError, Outcome, ok}
use slotbus.Memory.{Memory, read_u32}
use slotbus.Types.{slot_free, slot_done}
use slotbus.Os.{attempt-state, Os, World, attempt, >>=-eq-ok}
use slotbus.Region.{ShmRegion, slot_address}
use slotbus.Region.Slots.{load_status, store_status}
use slotbus.Region.Slots.Claim.{load_status-store_status, load_status-store_status_ne}
use slotbus.Region.Requests.{read_req_id}
use slotbus.Region.Responses.{Answer, read_response}
use slotbus.Transport.{Runtime}
use slotbus.Transport.Hub.{
  Hub, on_world, forget_overflow, settle, take_response, watch_slot, watch_from, watch_round,
}
use slotbus.Transport.Laws.{IsRuntime}
use slotbus.Transport.State.{drop_held-memory}
use slotbus.Transport.Reads.{read_response-Keeps}
use slotbus.Transport.Sweep.Parts.{
  exchange_hit, exchange_miss, let_go, after_read, after_read-let_go, settle-memory,
  wait_timeout-memory, settle-region, waited,
}

module _ {o : Os} (rt : Runtime o) (laws : IsRuntime rt) where
  -- Slot `i` is not done any more, and no other status has changed.
  record Clears (i : ℕ) (h h' : Hub rt) : Type 0 where
    region : h'.bus.region ≡ h.bus.region
    clear : load_status h.bus.region i h'.world ≢ slot_done
    others :
        (j : ℕ) → j ≢ i → load_status h.bus.region j h'.world ≡ load_status h.bus.region j h.world

  status_of :
      (r : ShmRegion o) (w w' : World o) (j : ℕ)
      → w'.memory ≡ w.memory
      → load_status r j w' ≡ load_status r j w
  unfolding load_status
  status_of r w w' j e = ap (λ (f : ℕ → Memory). read_u32 (f r.ptr) (slot_address j)) e

  let_go-Clears :
      (i : ℕ) (req_id : Text) (result : SlotBusError ⊎ Answer) (h : Hub rt)
      → Clears i h (let_go rt laws i req_id result h)
  unfolding forget_overflow
  let_go-Clears i req_id result h =
      let r = h.bus.region in
      elim (Bool-cases (load_status r i h.world == slot_done)) [
        | inr not_so ↦
            let miss = exchange_miss r i slot_done slot_free h.world not_so in
            rw miss (record {
              region = refl;
              clear = λ e. ground (arith, e, not_so);
              others = λ j ne. refl;
            })
        | inl so ↦
            let hit = exchange_hit r i slot_done slot_free h.world so in
            let w = store_status r i slot_free h.world in
            let g = forget_overflow rt i (record h { world = w }) in
            let memory =
              settle-memory rt laws req_id result g
              ∙ drop_held-memory (h.bus.overflow_regions i) w in
            let seen = λ (j : ℕ). status_of r w (settle rt req_id result g).world j memory in
            rw hit (record {
              region = settle-region rt laws req_id result g;
              clear = λ e.
                  let free =
                    seen i ∙ load_status-store_status r i slot_free h.world (omega arith) in
                  absurd (omega (arith, free, e));
              others = λ j ne.
                  seen j ∙ load_status-store_status_ne r i j slot_free h.world (λ e. ne (sym e));
            })
      ]

  take_response-Clears :
      (i : ℕ) (h h' : Hub rt) → take_response rt i h ≡ (ok tt, h') → Clears i h h'
  unfolding take_response
  take_response-Clears i h h' e =
      let r = h.bus.region in
      let c = h.bus.config in
      let req_id = read_req_id r i h.world in
      let x = read_response rt.target r rt.response_code i c h.world in
      let m =
        attempt (on_world rt (λ b. read_response rt.target b.region rt.response_code i b.config)) in
      let (result, h1, read, rest) = >>=-eq-ok m (after_read rt laws i req_id) tt h h' e in
      let same : h1 ≡ record h { world = x.1 } =
        ap (λ (z : Outcome (SlotBusError ⊎ Answer) × Hub rt). z.1) (sym read)
        ∙ attempt-state x.0 h (record h { world = x.1 }) in
      let last : let_go rt laws i req_id result (record h { world = x.1 }) ≡ h' =
        sym (after_read-let_go rt laws i req_id result (record h { world = x.1 }))
        ∙ ap (λ (z : Outcome (Unit {0}) × Hub rt). z.1) (rw same at rest) in
      let memory = (read_response-Keeps rt laws rt.target r rt.response_code i c h.world).memory in
      let cleared = rw last at (let_go-Clears i req_id result (record h { world = x.1 })) in
      record {
        region = cleared.region;
        clear = cleared.clear;
        others = λ j ne. cleared.others j ne ∙ status_of r h.world x.1 j memory;
      }

  -- The slots from `i` on, `left` of them, are not done any more, and no other status has changed.
  pub record Swept (i left : ℕ) (h h' : Hub rt) : Type 0 where
    pub region : h'.bus.region ≡ h.bus.region
    pub clear : (j : ℕ) → i ≤ j → j < i + left → load_status h.bus.region j h'.world ≢ slot_done
    pub others :
        (j : ℕ)
        → load_status h.bus.region j h.world ≢ slot_done
        → load_status h.bus.region j h'.world ≡ load_status h.bus.region j h.world

  watch_slot-Swept : (i : ℕ) (h h' : Hub rt) → watch_slot rt i h ≡ (ok tt, h') → Swept i 1 h h'
  unfolding watch_slot
  watch_slot-Swept i h h' e = elim (Bool-cases (load_status h.bus.region i h.world == slot_done)) [
    | inl so ↦
        let cleared = take_response-Clears i h h' (rw so at e) in
        record {
          region = cleared.region;
          clear = λ j lo hi. let here : j ≡ i = omega (arith, lo, hi) in rw here (cleared.clear);
          others = λ j other. cleared.others j (λ here.
              other (ap (λ k. load_status h.bus.region k h.world) here ∙ ground (arith, so)));
        }
    | inr not_so ↦
        let same : h ≡ h' = ap (λ (z : Outcome (Unit {0}) × Hub rt). z.1) (rw not_so at e) in
        subst (Swept i 1 h) same (record {
          region = refl;
          clear = λ j lo hi x.
              let here : j ≡ i = omega (arith, lo, hi) in
              let done = rw here at x in ground (arith, done, not_so);
          others = λ j other. refl;
        })
  ]

  Swept-trans :
      (i left : ℕ) (h h1 h' : Hub rt)
      → Swept i 1 h h1
      → Swept (i + 1) left h1 h'
      → Swept i (suc left) h h'
  Swept-trans i left h h1 h' first later = record {
    region = later.region ∙ first.region;
    clear = λ j lo hi. elim (ℕ_discrete j i) [
      | yes here ↦ λ x.
          let gone = first.clear j lo (omega (arith, here)) in
          let gone' = rw (← first.region) at gone in
          gone (sym (rw (first.region) at (later.others j gone')) ∙ x)
      | no after ↦
          rw (first.region) at (later.clear j (omega (arith, lo, after)) (omega (arith, hi)))
    ];
    others = λ j other.
        let still = first.others j other in
        let kept = later.others j (λ x. other (sym still ∙ (rw (first.region) at x))) in
        (rw (first.region) at kept) ∙ still;
  }

  watch_from-Swept :
      (left i : ℕ) (h h' : Hub rt) → watch_from rt left i h ≡ (ok tt, h') → Swept i left h h'
  unfolding watch_from
  watch_from-Swept zero i h h' e =
      let same : h ≡ h' = ap (λ (z : Outcome (Unit {0}) × Hub rt). z.1) e in
      subst (Swept i zero h) same (record {
        region = refl;
        clear = λ j lo hi x. absurd (omega (arith, lo, hi));
        others = λ j other. refl;
      })
  watch_from-Swept (suc left) i h h' e =
      let (u, h1, looked, rest) =
        >>=-eq-ok (watch_slot rt i) (λ (u : Unit {0}). watch_from rt left (i + 1)) tt h h' e in
      Swept-trans i left h h1 h' (watch_slot-Swept i h h1 looked)
        (watch_from-Swept left (i + 1) h1 h' rest)

  -- Take a hub. A round of its watcher that comes to its end leaves no slot of the table done, with nobody
  -- else acting meanwhile, and the status of every slot that was not done stays.
  pub watch_round-Swept :
      (h h' : Hub rt)
      → watch_round rt h ≡ (ok tt, h')
      → ((j : ℕ) → j < h.bus.region.num_slots → load_status h.bus.region j h'.world ≢ slot_done)
        × ((j : ℕ)
            → load_status h.bus.region j h.world ≢ slot_done
            → load_status h.bus.region j h'.world ≡ load_status h.bus.region j h.world)
  unfolding watch_round
  watch_round-Swept h h' e =
      let r = h.bus.region in
      let swept = watch_from-Swept r.num_slots 0 (waited rt laws h) h' e in
      let memory =
        wait_timeout-memory rt laws rt.target h.bus.rsp_event h.bus.config.wait_timeout_ms
          h.world in
      let seen = λ (j : ℕ). status_of r h.world (waited rt laws h).world j memory in
      (
        λ j lt. swept.clear j (omega arith) (omega (arith, lt)),
        λ j other. swept.others j (λ x. other (sym (seen j) ∙ x)) ∙ seen j,
      )
