-- ===== src/Transport/Sweep/Parts.antt =====
-- The parts of a round of the response watcher of slotbus/src/transport.rs: the wait, the exchange that frees
-- a slot, and what becomes of the response.
use slotbus.Base.{
  ℕ, ◌≡◌, refl, Text, true, false, ◌⊎◌, inl, inr, ◌==◌, Bool-cases, Option-cases, if◌then◌else◌,
}
use slotbus.Error.{SlotBusError}
use slotbus.Types.{slot_free, slot_done}
use slotbus.Config.OsName.{Target, macos, windows, linux}
use slotbus.Events.{NamedEvent, kernel_event, posix, wait_timeout}
use slotbus.Os.{Os, World, M, pure, update, ◌>>=◌}
use slotbus.Region.{ShmRegion}
use slotbus.Region.Slots.{load_status, store_status, exchange_status}
use slotbus.Region.Responses.{Answer}
use slotbus.Transport.{Runtime}
use slotbus.Transport.Hub.{Hub, forget_overflow, resolve, settle, exchange_slot}
use slotbus.Transport.Laws.{IsRuntime}

module _ {o : Os} (r : ShmRegion o) where
  pub exchange_hit :
      (i expected new : ℕ) (w : World o)
      → (load_status r i w == expected) ≡ true
      → exchange_status r i expected new w ≡ (true, store_status r i new w)
  unfolding exchange_status
  exchange_hit i expected new w so = rw so

  pub exchange_miss :
      (i expected new : ℕ) (w : World o)
      → (load_status r i w == expected) ≡ false
      → exchange_status r i expected new w ≡ (false, w)
  unfolding exchange_status
  exchange_miss i expected new w not_so = rw not_so

module _ {o : Os} (rt : Runtime o) (laws : IsRuntime rt) where
  -- Nothing of what becomes of a response touches the region.
  pub settle-memory :
      (req_id : Text) (result : SlotBusError ⊎ Answer) (h : Hub rt)
      → (settle rt req_id result h).world.memory ≡ h.world.memory
  unfolding settle resolve
  settle-memory req_id (inl e) h = refl
  settle-memory req_id (inr answer) h = elim (Option-cases (h.bus.pending req_id)) [
    | inl nobody ↦ rw (nobody, resolve) refl
    | inr (entry, waits) ↦ rw (waits, resolve) refl
  ]

  -- A slot that is freed, or found changed.
  abbrev pub let_go : ℕ → Text → SlotBusError ⊎ Answer → Hub rt → Hub rt
  let_go i req_id result h =
      let x = exchange_status h.bus.region i slot_done slot_free h.world in
      if x.0
      then settle rt req_id result (forget_overflow rt i (record h { world = x.1 }))
      else (record h { world = x.1 })

  -- The same, as `take_response` has it.
  abbrev pub after_read : ℕ → Text → SlotBusError ⊎ Answer → M (Hub rt) (Unit {0})
  after_read i req_id result = exchange_slot rt i slot_done slot_free >>= λ freed.
      if freed then update (λ h. settle rt req_id result (forget_overflow rt i h)) else pure tt

  pub after_read-let_go :
      (i : ℕ) (req_id : Text) (result : SlotBusError ⊎ Answer) (h : Hub rt)
      → (after_read i req_id result h).1 ≡ let_go i req_id result h
  unfolding exchange_slot
  after_read-let_go i req_id result h =
      elim (Bool-cases (exchange_status h.bus.region i slot_done slot_free h.world).0) [
        | inl so ↦ rw so refl
        | inr not_so ↦ rw not_so refl
      ]

  pub wait_timeout-memory :
      (target : Target) (e : NamedEvent rt.sys) (ms : ℕ) (w : World o)
      → (wait_timeout rt.sys target e ms w).1.memory ≡ w.memory
  unfolding wait_timeout
  wait_timeout-memory target (kernel_event handle) ms w = refl
  wait_timeout-memory macos (posix sem name own) ms w = refl
  wait_timeout-memory windows (posix sem name own) ms w = refl
  wait_timeout-memory linux (posix sem name own) ms w = refl

  pub settle-region :
      (req_id : Text) (result : SlotBusError ⊎ Answer) (h : Hub rt)
      → (settle rt req_id result h).bus.region ≡ h.bus.region
  unfolding settle resolve
  settle-region req_id (inl e) h = refl
  settle-region req_id (inr answer) h = elim (Option-cases (h.bus.pending req_id)) [
    | inl nobody ↦ rw (nobody, resolve) refl
    | inr (entry, waits) ↦ rw (waits, resolve) refl
  ]

  -- The hub behind the wait of a round.
  abbrev pub waited : Hub rt → Hub rt
  waited h = record h {
    world = (wait_timeout rt.sys rt.target h.bus.rsp_event h.bus.config.wait_timeout_ms h.world).1;
  }
