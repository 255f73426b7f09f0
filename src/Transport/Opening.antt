-- ===== src/Transport/Opening.antt =====
-- Both sides open their events without a change to any mapping.
use slotbus.Base.{
  ◌≡◌, refl, sym, ap, arith, [], ◌∷◌, ◌++◌, none, Text, true, Bool-cases, Option-cases, ◌==◌, inl,
  inr,
}
use slotbus.Error.{Outcome, ok}
use slotbus.Config.{SlotBusConfig, request_event_name, response_event_name}
use slotbus.Config.OsName.{Target, windows, linux, macos}
use slotbus.Os.{Os, World, M, lift, unwind-ok, >>=-eq-ok, >>=-respects}
use slotbus.Events.{
  create_kernel, create_posix, create, open_kernel, open_posix, open_named, c_name, drop_event,
}
use slotbus.Region.{ShmRegion}
use slotbus.Region.Calm.{Calm, Calm-refl, Calm-trans, Quiet-trans}
use slotbus.Transport.{Runtime}
use slotbus.Transport.Hub.{SlotBus, create_events, create_rsp_event}
use slotbus.Transport.Worker.{SlotWorker, open_events, open_rsp_event}
use slotbus.Transport.Laws.{IsRuntime}

module _ {o : Os} (rt : Runtime o) (laws : IsRuntime rt) where
  create_kernel-Calm : (name : Text) (w : World o) → Calm w (create_kernel rt.sys name w).1
  unfolding create_kernel
  create_kernel-Calm name w =
      let wide = rt.sys.encode_utf16 name ++ 0 ∷ [] in
      let calm : Calm w (record w { state = (rt.sys.create_event wide w.state).1 }) = record {
        memory = refl;
        state = laws.create_event-Quiet wide w.state;
      } in
      elim (Bool-cases ((rt.sys.create_event wide w.state).0 == 0)) [
        | inl failed ↦ rw failed calm
        | inr made ↦ rw made calm
      ]

  create_posix-Calm :
      (name cname : Text) (w : World o) → Calm w (create_posix rt.sys name cname w).1
  unfolding create_posix
  create_posix-Calm name cname w =
      let gone = rt.sys.sem_unlink cname w.state in
      let calm : Calm w (record w { state = (rt.sys.sem_create cname gone).1 }) = record {
        memory = refl;
        state =
            Quiet-trans w.state gone _ (laws.sem_unlink-Quiet cname w.state)
              (laws.sem_create-Quiet cname gone);
      } in
      elim (Option-cases (rt.sys.sem_create cname gone).0) [
        | inl failed ↦ rw (failed, create_posix) calm
        | inr (s, made) ↦ rw (made, create_posix) calm
      ]

  pub create-Calm :
      (target : Target) (name : Text) (w : World o) → Calm w (create rt.sys target name w).1
  unfolding create
  create-Calm windows name w = create_kernel-Calm name w
  create-Calm linux name w =
      >>=-respects Calm (lift (c_name name)) _ w Calm-trans (Calm-refl w) (create_posix-Calm name)
  create-Calm macos name w =
      >>=-respects Calm (lift (c_name name)) _ w Calm-trans (Calm-refl w) (create_posix-Calm name)

  open_kernel-Calm : (name : Text) (w : World o) → Calm w (open_kernel rt.sys name w).1
  unfolding open_kernel
  open_kernel-Calm name w =
      let wide = rt.sys.encode_utf16 name ++ 0 ∷ [] in
      let calm : Calm w (record w { state = (rt.sys.open_event wide w.state).1 }) = record {
        memory = refl;
        state = laws.open_event-Quiet wide w.state;
      } in
      elim (Bool-cases ((rt.sys.open_event wide w.state).0 == 0)) [
        | inl failed ↦ rw failed calm
        | inr made ↦ rw made calm
      ]

  open_posix-Calm : (name cname : Text) (w : World o) → Calm w (open_posix rt.sys name cname w).1
  unfolding open_posix
  open_posix-Calm name cname w =
      let calm : Calm w (record w { state = (rt.sys.sem_open cname w.state).1 }) = record {
        memory = refl;
        state = laws.sem_open-Quiet cname w.state;
      } in
      elim (Option-cases (rt.sys.sem_open cname w.state).0) [
        | inl failed ↦ rw (failed, open_posix) calm
        | inr (s, made) ↦ rw (made, open_posix) calm
      ]

  pub open_named-Calm :
      (target : Target) (name : Text) (w : World o) → Calm w (open_named rt.sys target name w).1
  unfolding open_named
  open_named-Calm windows name w = open_kernel-Calm name w
  open_named-Calm linux name w =
      >>=-respects Calm (lift (c_name name)) _ w Calm-trans (Calm-refl w) (open_posix-Calm name)
  open_named-Calm macos name w =
      >>=-respects Calm (lift (c_name name)) _ w Calm-trans (Calm-refl w) (open_posix-Calm name)

  -- A step that gives a value of no consequence and is calm, if it comes out well.
  Calm-ok :
      {A : Type 0} (m : M (World o) A) (a : A) (w w' : World o)
      → Calm w (m w).1
      → m w ≡ (ok a, w')
      → Calm w w'
  Calm-ok {A = A} m a w w' calm e = rw e at calm

  lift-ok :
      {A : Type 0} (x : Outcome A) (a : A) (w w' : World o) → lift x w ≡ (ok a, w') → Calm w w'
  lift-ok {A = A} x a w w' e =
      let same : w' ≡ w = ap (λ (z : Outcome A × World o). z.1) (sym e) in rw same (Calm-refl w)

  pub create_events-Calm :
      (c : SlotBusConfig) (region : ShmRegion o) (w w' : World o) (b : SlotBus rt)
      → create_events rt c region w ≡ (ok b, w')
      → Calm w w'
        × (b.region ≡ region)
        × (b.config ≡ c)
        × (b.pending ≡ (λ t. none))
        × (b.overflow_regions ≡ (λ i. none))
        × (b.running ≡ true)
  unfolding create_events create_rsp_event
  create_events-Calm c region w w' b e =
      let (req_name, w1, named, rest) =
        >>=-eq-ok (lift (request_event_name rt.target c)) _ b w w' e in
      let (req_event, w2, made, rest2) =
        >>=-eq-ok (create rt.sys rt.target req_name) _ b w1 w' rest in
      let inner =
        unwind-ok (drop_event rt.sys req_event) (create_rsp_event rt c region req_event) b w2 w'
          rest2 in
      let (rsp_name, w3, named2, rest3) =
        >>=-eq-ok (lift (response_event_name rt.target c)) _ b w2 w' inner in
      let (rsp_event, w4, made2, rest4) =
        >>=-eq-ok (create rt.sys rt.target rsp_name) _ b w3 w' rest3 in
      let last : w4 ≡ w' = ap (λ (z : Outcome (SlotBus rt) × World o). z.1) rest4 in
      (
        Calm-trans w w1 w' (lift-ok _ req_name w w1 named) (
            Calm-trans w1 w2 w'
              (Calm-ok (create rt.sys rt.target req_name) req_event w1 w2
                (create-Calm rt.target req_name w1) made)
              (Calm-trans w2 w3 w' (lift-ok _ rsp_name w2 w3 named2) (
                rw last at (
                  Calm-ok (create rt.sys rt.target rsp_name) rsp_event w3 w4
                    (create-Calm rt.target rsp_name w3) made2)))),
        ground arith,
        ground arith,
        ground arith,
        ground arith,
        ground arith,
      )

  pub open_events-Calm :
      (c : SlotBusConfig) (region : ShmRegion o) (w w' : World o) (s : SlotWorker rt)
      → open_events rt c region w ≡ (ok s, w')
      → Calm w w'
        × (s.region ≡ region)
        × (s.config ≡ c)
        × (s.overflow_regions ≡ (λ i. none))
        × (s.running ≡ true)
  unfolding open_events open_rsp_event
  open_events-Calm c region w w' s e =
      let (req_name, w1, named, rest) =
        >>=-eq-ok (lift (request_event_name rt.target c)) _ s w w' e in
      let (req_event, w2, made, rest2) =
        >>=-eq-ok (open_named rt.sys rt.target req_name) _ s w1 w' rest in
      let inner =
        unwind-ok (drop_event rt.sys req_event) (open_rsp_event rt c region req_event) s w2 w'
          rest2 in
      let (rsp_name, w3, named2, rest3) =
        >>=-eq-ok (lift (response_event_name rt.target c)) _ s w2 w' inner in
      let (rsp_event, w4, made2, rest4) =
        >>=-eq-ok (open_named rt.sys rt.target rsp_name) _ s w3 w' rest3 in
      let last : w4 ≡ w' = ap (λ (z : Outcome (SlotWorker rt) × World o). z.1) rest4 in
      (
        Calm-trans w w1 w' (lift-ok _ req_name w w1 named) (
            Calm-trans w1 w2 w'
              (Calm-ok (open_named rt.sys rt.target req_name) req_event w1 w2
                (open_named-Calm rt.target req_name w1) made)
              (Calm-trans w2 w3 w' (lift-ok _ rsp_name w2 w3 named2) (
                rw last at (
                  Calm-ok (open_named rt.sys rt.target rsp_name) rsp_event w3 w4
                    (open_named-Calm rt.target rsp_name w3) made2)))),
        ground arith,
        ground arith,
        ground arith,
        ground arith,
      )
