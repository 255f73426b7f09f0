-- ===== src/Examples.antt =====
-- The two programs of slotbus/examples, and what a handler that panics on an error has in common with
-- one that gives the error back.
pub mod Echo
pub mod Embedded
use slotbus.Base.{ℕ, ◌≡◌, refl, ◌∙◌, ◌⊎◌, inl, inr, Bool, true, false, if◌then◌else◌, arith}
use slotbus.Error.{SlotBusError, Outcome, ok, err, panicked}
use slotbus.Types.{slot_ready, slot_claimed}
use slotbus.Os.{Os, M, pure, attempt, >>=-ok, >>=-eq-ok}
use slotbus.Region.Requests.{Received, read_request}
use slotbus.Transport.{Request, Runtime, request_of}
use slotbus.Transport.Worker.{Worker, on_world, exchange_slot, handle, take_request, receive_slot}

-- `.expect(…)`
abbrev expected : {W A : Type 0} → Outcome A × W → Outcome A × W
expected (ok a, w) = (ok a, w)
expected (err e, w) = (panicked, w)
expected (panicked, w) = (panicked, w)

abbrev pub expect : {W A : Type 0} → M W A → M W A
expect m w = expected (m w)

pub expect-ok :
    {W A : Type 0} (m : M W A) (a : A) (w w' : W) → m w ≡ (ok a, w') → expect m w ≡ (ok a, w')
expect-ok m a w w' e = rw e refl

module _ {o : Os} (rt : Runtime o) (f : ℕ → Request → M (Worker rt) (Unit {0})) where
  -- The handler that panics where `f` gives back an error.
  abbrev pub expects : ℕ → Request → M (Worker rt) (Unit {0})
  expects i q = expect (f i q)

  handle-expects :
      (i : ℕ) (result : SlotBusError ⊎ Received) (k k' : Worker rt)
      → handle rt f i result k ≡ (ok tt, k')
      → handle rt expects i result k ≡ (ok tt, k')
  unfolding handle
  handle-expects i (inl e) k k' h = h
  handle-expects i (inr received) k k' h = expect-ok (f i (request_of received)) tt k k' h

  -- What `receive_slot` does behind its exchange.
  abbrev when_claimed :
      (ℕ → Request → M (Worker rt) (Unit {0})) → ℕ → Bool → M (Worker rt) (Unit {0})
  when_claimed g i claimed = if claimed then take_request rt g i else pure tt

  taken-expects :
      (claimed : Bool) (i : ℕ) (k k' : Worker rt)
      → when_claimed f i claimed k ≡ (ok tt, k')
      → when_claimed expects i claimed k ≡ (ok tt, k')
  unfolding take_request
  taken-expects false i k k' h = h
  taken-expects true i k k' h =
      let m =
        attempt (on_world rt (λ s. read_request rt.target s.region rt.request_code i s.config)) in
      let (result, g, read, rest) = >>=-eq-ok m (handle rt f i) tt k k' h in
      >>=-ok m (handle rt expects i) result k g read ∙ handle-expects i result g k' rest

  -- Where the worker's look at a slot comes out well, it does so too with the handler that panics on errors.
  pub receive_slot-expects :
      (i : ℕ) (k k' : Worker rt)
      → receive_slot rt f i k ≡ (ok tt, k')
      → receive_slot rt expects i k ≡ (ok tt, k')
  unfolding receive_slot
  receive_slot-expects i k k' h =
      let (claimed, g, exchanged, rest) =
        >>=-eq-ok (exchange_slot rt i slot_ready slot_claimed) (when_claimed f i) tt k k' h in
      >>=-ok (exchange_slot rt i slot_ready slot_claimed) (when_claimed expects i) claimed k g
        exchanged
      ∙ taken-expects claimed i g k' rest
