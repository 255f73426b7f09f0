-- ===== src/Transport/Threads/Cases.antt =====
-- The steps of a thread, one by one.
use slotbus.Base.{
  ℕ, ◌<◌, ◌≡◌, ◌≢◌, inl, inr, refl, sym, ◌∙◌, arith, some, ◌==◌, Bool-cases, true, u32_mod,
}
use slotbus.Types.{slot_free, slot_ready, slot_claimed, slot_done, slot_writing}
use slotbus.Os.{Os, World}
use slotbus.Region.{ShmRegion, region_memory}
use slotbus.Region.Isolation.{OthersKept, OthersKept-same, store_status-OthersKept}
use slotbus.Region.Slots.{load_status, store_status, exchange_status}
use slotbus.Region.Slots.Claim.{load_status-store_status, store_status-SameOn}
use slotbus.Region.Requests.Steps.{IsControl}
use slotbus.Transport.Protocol.{Turn}
use slotbus.Transport.Threads.{
  Phase, idle, filling, serving, collecting, held, Leaves, Writes, System, watcher, enter,
  exchanged, looked, Step,
}
use slotbus.Transport.Threads.Acts.{
  IsSystem, Acts, enter-Acts, held-busy, held-done, Writes-held, Leaves-held, same-status,
}

module _ {o : Os} (r : ShmRegion o) (control : IsControl r) (s : System o) (sys : IsSystem r s)
    (p : ℕ) where
  beyond : (q v : ℕ) → q ≢ p → held (s.phase q) ≢ some (r.num_slots, v)
  beyond q v ne e = let (lt, status) = sys.right q r.num_slots v e in omega (arith, lt)

  kept-now :
      (w : World o)
      → ((i v : ℕ) → held (s.phase p) ≡ some (i, v) → load_status r i w ≡ load_status r i s.world)
      → (i v : ℕ) → held (s.phase p) ≡ some (i, v)
      → (i < r.num_slots)
        × (load_status r i w ≡ v)
        × ((q u : ℕ) → q ≢ p → held (s.phase q) ≢ some (i, u))
  kept-now w same i v e =
      let (lt, status) = sys.right p i v e in
      (lt, same i v e ∙ status, λ q u ne f. ne (sys.alone q p i u v f e))

  elsewhere-Acts :
      (w : World o)
      → region_memory r w ≡ region_memory r s.world
      → Acts r p s (record s { world = w })
  elsewhere-Acts w e = record {
    slot = r.num_slots;
    others = OthersKept-same r r.num_slots s.world w e;
    unheld = beyond;
    phases = λ q ne. refl;
    now = kept-now w (λ i v x. same-status r s.world w i e);
    watches = λ i x. sys.one_watcher p i x;
    untouched = λ unheld. inl e;
    turns = inl (same-status r s.world w r.num_slots e);
  }

  write-Acts :
      (i : ℕ) (w : World o)
      → Writes (s.phase p) i
      → OthersKept r i s.world w
      → load_status r i w ≡ load_status r i s.world
      → Acts r p s (record s { world = w })
  write-Acts i w writes others status =
      let (u, holds) = Writes-held r (s.phase p) i writes in
      record {
        slot = i;
        others = others;
        unheld = λ q v ne f. ne (sys.alone q p i v u f holds);
        phases = λ q ne. refl;
        now = kept-now w (λ j v x. let same : j ≡ i = ground (arith, x, holds) in rw same status);
        watches = λ j x. sys.one_watcher p j x;
        untouched = λ free. absurd (free u holds);
        turns = inl status;
      }

  lose-Acts : Acts r p s (enter p idle s.world s)
  unfolding held
  lose-Acts =
      enter-Acts r p r.num_slots idle s.world s (OthersKept-same r r.num_slots s.world s.world refl)
        beyond (λ i v e. absurd (ground arith)) (λ i e. absurd (ground arith)) (λ free. inl refl)
        (inl refl)

  -- The slot that is held gets a new status, and is held no more.
  release-Acts :
      (i u v : ℕ)
      → held (s.phase p) ≡ some (i, u)
      → Turn u v
      → v < u32_mod
      → Acts r p s (enter p idle (store_status r i v s.world) s)
  unfolding held
  release-Acts i u v holds turn small =
      let (lt, status) = sys.right p i u holds in
      let new = load_status-store_status r i v s.world small in
      enter-Acts r p i idle (store_status r i v s.world) s
        (store_status-OthersKept r control i v s.world lt)
        (λ q x ne f. ne (sys.alone q p i x u f holds)) (λ j x e. absurd (ground arith))
        (λ j e. absurd (ground arith)) (λ free. absurd (free u holds))
        (inr (lt, rw (status, new) turn))

  leave-Acts :
      (i v : ℕ) → Leaves (s.phase p) i v → Acts r p s (enter p idle (store_status r i v s.world) s)
  leave-Acts i v leaves =
      let (u, holds, turn, small) = Leaves-held r (s.phase p) i v leaves in
      release-Acts i u v holds turn small

  -- A slot that is found in a status that no holder's slot has, and held from then on.
  exchanged-Acts :
      (i expected new : ℕ) (next : Phase)
      → i < r.num_slots
      → ((ph : Phase) (j v : ℕ) → held ph ≡ some (j, v) → v ≢ expected)
      → held next ≡ some (i, new)
      → ((j : ℕ) → next ≢ collecting j)
      → Turn expected new
      → new < u32_mod
      → Acts r p s (exchanged r p i expected new next s)
  unfolding exchanged exchange_status
  exchanged-Acts i expected new next lt busy holds other turn small =
      elim (Bool-cases (load_status r i s.world == expected)) [
        | inr not_so ↦ rw not_so (elsewhere-Acts s.world refl)
        | inl so ↦
            let found : load_status r i s.world ≡ expected = ground arith in
            let stored = load_status-store_status r i new s.world small in
            rw so (
              enter-Acts r p i next (store_status r i new s.world) s
                (store_status-OthersKept r control i new s.world lt)
                (λ q v ne f. busy (s.phase q) i v f (sym ((sys.right q i v f).1) ∙ found))
                (λ j v e.
                  let here : j ≡ i = ground (arith, e, holds) in
                  let value : v ≡ new = ground (arith, e, holds) in
                  (here, rw here lt, rw (here, value) stored))
                (λ j e. absurd (other j e))
                (λ free. inr (
                  new,
                  holds,
                  λ x apart.
                      store_status-SameOn r i new s.world x 1 (omega arith) x (omega arith)
                        (omega arith),
                ))
                (inr (lt, rw (found, stored) turn)))
      ]

  looked-Acts : (i : ℕ) → p ≡ watcher → i < r.num_slots → Acts r p s (looked r i s)
  unfolding looked held
  looked-Acts i is lt = elim (Bool-cases (load_status r i s.world == slot_done)) [
    | inr not_so ↦ rw not_so (elsewhere-Acts s.world refl)
    | inl so ↦
        let found : load_status r i s.world ≡ slot_done = ground arith in
        rw (so, ← is)
          (enter-Acts r p i (collecting i) s.world s (OthersKept-same r i s.world s.world refl)
            (λ q v ne f.
              let (lt', status) = sys.right q i v f in
              let done : v ≡ slot_done = sym status ∙ found in
              ne (sys.one_watcher q i (held-done r (s.phase q) i (rw done at f)) ∙ sym is))
            (λ j v e.
              let here : j ≡ i = ground arith in
              let value : v ≡ slot_done = ground arith in
              (here, rw here lt, rw (here, value) found))
            (λ j e. is) (λ free. inl refl) (inl refl))
  ]

  -- The exchange by which the watcher frees a slot never fails.
  pub collected :
      (i : ℕ)
      → s.phase p ≡ collecting i
      → exchange_status r i slot_done slot_free s.world ≡ (true, store_status r i slot_free s.world)
  unfolding exchange_status held
  collected i e = let (lt, status) = sys.right p i slot_done (rw e refl) in rw status

  collect-Acts :
      (i : ℕ)
      → s.phase p ≡ collecting i
      → Acts r p s (enter p idle (exchange_status r i slot_done slot_free s.world).1 s)
  unfolding held
  collect-Acts i e =
      rw (collected i e) (release-Acts i slot_done slot_free (rw e refl) Turn.collect (omega arith))

  pub Step-Acts : (t : System o) → Step r p s t → Acts r p s t
  unfolding held
  Step-Acts t (Step.claim i e lt) =
      exchanged-Acts i slot_free slot_writing (filling i) lt (λ ph j v f. (held-busy r ph j v f).0)
        refl (λ j f. absurd (ground arith)) Turn.claim (omega arith)
  Step-Acts t (Step.take i e lt) =
      exchanged-Acts i slot_ready slot_claimed (serving i) lt (λ ph j v f. (held-busy r ph j v f).1)
        refl (λ j f. absurd (ground arith)) Turn.take (omega arith)
  Step-Acts t (Step.look i is e lt) = looked-Acts i is lt
  Step-Acts t (Step.write i w writes others status) = write-Acts i w writes others status
  Step-Acts t (Step.elsewhere w e) = elsewhere-Acts w e
  Step-Acts t (Step.leave i v leaves) = leave-Acts i v leaves
  Step-Acts t Step.lose = lose-Acts
  Step-Acts t (Step.collect i e) = collect-Acts i e
