-- ===== src/Transport/Threads/Acts.antt =====
-- The effect of a step of a thread on the slots and on the phases.
use slotbus.Base.{
  ℕ, ◌<◌, ◌≤◌, ◌+◌, ◌≡◌, ◌≢◌, ◌⊎◌, refl, ap, arith, some, ◌==◌, true, false, u32_mod,
}
use slotbus.Types.{slot_free, slot_ready, slot_claimed, slot_done, slot_writing}
use slotbus.Memory.{Memory, read_u32}
use slotbus.Os.{Os, World}
use slotbus.Region.{ShmRegion, region_memory, slot_address}
use slotbus.Region.Isolation.{OthersKept}
use slotbus.Region.Slots.{load_status}
use slotbus.Transport.Protocol.{Turn}
use slotbus.Transport.Threads.{
  Phase, idle, filling, serving, collecting, held, Leaves, Writes, System, watcher, enter,
}

module _ {o : Os} (r : ShmRegion o) where
  -- What a thread holds, it holds alone, in the status that its phase says; and only one thread
  -- collects.
  pub record IsSystem (s : System o) : Type 0 where
    pub right :
        (p i v : ℕ)
        → held (s.phase p) ≡ some (i, v)
        → (i < r.num_slots) × (load_status r i s.world ≡ v)
    pub alone :
        (p q i u v : ℕ) → held (s.phase p) ≡ some (i, u) → held (s.phase q) ≡ some (i, v) → p ≡ q
    pub one_watcher : (p i : ℕ) → s.phase p ≡ collecting i → p ≡ watcher

  -- All but the status word of the slot is as it was.
  abbrev pub StatusOnly : ℕ → World o → World o → Type 0
  StatusOnly i w w' =
      (x : ℕ)
      → (x < slot_address i) ⊎ (slot_address i + 4 ≤ x)
      → region_memory r w' x ≡ region_memory r w x

  -- The effect of a step of thread `p`, on slot `slot`.
  pub record Acts (p : ℕ) (s t : System o) : Type 0 where
    pub slot : ℕ
    pub others : OthersKept r slot s.world t.world
    pub unheld : (q v : ℕ) → q ≢ p → held (s.phase q) ≢ some (slot, v)
    pub phases : (q : ℕ) → q ≢ p → t.phase q ≡ s.phase q
    pub now :
        (i v : ℕ)
        → held (t.phase p) ≡ some (i, v)
        → (i < r.num_slots)
          × (load_status r i t.world ≡ v)
          × ((q u : ℕ) → q ≢ p → held (s.phase q) ≢ some (i, u))
    pub watches : (i : ℕ) → t.phase p ≡ collecting i → p ≡ watcher
    -- A slot that nobody holds changes in its status alone, and only to be held.
    pub untouched :
        ((v : ℕ) → held (s.phase p) ≢ some (slot, v))
        → (region_memory r t.world ≡ region_memory r s.world)
          ⊎ ((v : ℕ) × (held (t.phase p) ≡ some (slot, v)) × StatusOnly slot s.world t.world)
    pub turns :
        (load_status r slot t.world ≡ load_status r slot s.world)
        ⊎ ((slot < r.num_slots) × Turn (load_status r slot s.world) (load_status r slot t.world))

  pub enter-here :
      (p : ℕ) (next : Phase) (w : World o) (s : System o) → (enter p next w s).phase p ≡ next
  enter-here p next w s = let same : (p == p) ≡ true = ground arith in rw same

  pub enter-other :
      (p q : ℕ) (next : Phase) (w : World o) (s : System o)
      → q ≢ p
      → (enter p next w s).phase q ≡ s.phase q
  enter-other p q next w s ne = let apart : (q == p) ≡ false = ground (arith, ne) in rw apart

  -- A thread that goes on to hold `slot`, or nothing.
  pub enter-Acts :
      (p slot : ℕ) (next : Phase) (w : World o) (s : System o)
      → OthersKept r slot s.world w
      → ((q v : ℕ) → q ≢ p → held (s.phase q) ≢ some (slot, v))
      → ((i v : ℕ)
          → held next ≡ some (i, v)
          → (i ≡ slot) × (i < r.num_slots) × (load_status r i w ≡ v))
      → ((i : ℕ) → next ≡ collecting i → p ≡ watcher)
      → (((v : ℕ) → held (s.phase p) ≢ some (slot, v))
          → (region_memory r w ≡ region_memory r s.world)
            ⊎ ((v : ℕ) × (held next ≡ some (slot, v)) × StatusOnly slot s.world w))
      → ((load_status r slot w ≡ load_status r slot s.world)
          ⊎ ((slot < r.num_slots) × Turn (load_status r slot s.world) (load_status r slot w)))
      → Acts p s (enter p next w s)
  enter-Acts p slot next w s others unheld now watches untouched turns = record {
    slot = slot;
    others = others;
    unheld = unheld;
    phases = λ q ne. enter-other p q next w s ne;
    now = λ i v e.
        let (same, inside, status) = now i v (rw (enter-here p next w s) at e) in
        (inside, status, λ q u ne. rw same (unheld q u ne));
    watches = λ i e. watches i (rw (enter-here p next w s) at e);
    untouched = rw (enter-here p next w s) untouched;
    turns = turns;
  }

  pub held-busy :
      (ph : Phase) (i v : ℕ) → held ph ≡ some (i, v) → (v ≢ slot_free) × (v ≢ slot_ready)
  unfolding held
  held-busy idle i v e = absurd (ground arith)
  held-busy (filling j) i v e = (ground arith, ground arith)
  held-busy (serving j) i v e = (ground arith, ground arith)
  held-busy (collecting j) i v e = (ground arith, ground arith)

  pub held-done : (ph : Phase) (i : ℕ) → held ph ≡ some (i, slot_done) → ph ≡ collecting i
  unfolding held
  held-done idle i e = absurd (ground arith)
  held-done (filling j) i e = absurd (ground arith)
  held-done (serving j) i e = absurd (ground arith)
  held-done (collecting j) i e = ground arith

  pub held-claimed : (ph : Phase) (i : ℕ) → held ph ≡ some (i, slot_claimed) → ph ≡ serving i
  unfolding held
  held-claimed idle i e = absurd (ground arith)
  held-claimed (filling j) i e = absurd (ground arith)
  held-claimed (serving j) i e = ground arith
  held-claimed (collecting j) i e = absurd (ground arith)

  -- From Ready, the one turn is to Claimed.
  pub ready-Turn : (u v : ℕ) → u ≡ slot_ready → Turn u v → v ≡ slot_claimed
  ready-Turn u v e Turn.claim = absurd (omega arith)
  ready-Turn u v e Turn.publish = absurd (omega arith)
  ready-Turn u v e Turn.abandon = absurd (omega arith)
  ready-Turn u v e Turn.take = refl
  ready-Turn u v e Turn.answer = absurd (omega arith)
  ready-Turn u v e Turn.give_up = absurd (omega arith)
  ready-Turn u v e Turn.collect = absurd (omega arith)

  pub Writes-held : (ph : Phase) (i : ℕ) → Writes ph i → (u : ℕ) × (held ph ≡ some (i, u))
  unfolding held
  Writes-held ph i (Writes.request j) = (slot_writing, refl)
  Writes-held ph i (Writes.response j) = (slot_claimed, refl)

  pub Leaves-held :
      (ph : Phase) (i v : ℕ)
      → Leaves ph i v
      → (u : ℕ) × (held ph ≡ some (i, u)) × Turn u v × (v < u32_mod)
  unfolding held
  Leaves-held ph i v (Leaves.publish j) = (slot_writing, refl, Turn.publish, omega arith)
  Leaves-held ph i v (Leaves.abandon j) = (slot_writing, refl, Turn.abandon, omega arith)
  Leaves-held ph i v (Leaves.answer j) = (slot_claimed, refl, Turn.answer, omega arith)
  Leaves-held ph i v (Leaves.give_up j) = (slot_claimed, refl, Turn.give_up, omega arith)

  pub same-status :
      (w w' : World o) (i : ℕ)
      → region_memory r w' ≡ region_memory r w
      → load_status r i w' ≡ load_status r i w
  unfolding load_status
  same-status w w' i e = ap (λ (m : Memory). read_u32 m (slot_address i)) e
