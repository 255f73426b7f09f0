-- ===== src/Region/Slots/Claim.antt =====
-- The search for a free slot: which slot it takes, and that it takes no other.
use native.Mathlib.Decide.{ℕ_discrete, dec_lt}
use slotbus.Base.{
  ℕ, zero, suc, ◌+◌, ◌≤◌, ◌<◌, ◌≡◌, ◌≢◌, ◌⊎◌, inl, inr, refl, sym, ap, arith, Option, some, none,
  ◌==◌, u32_mod, Bool-cases, Option-cases,
}
use slotbus.Memory.{write_u32}
use slotbus.Memory.Laws.{SameOn, read_u32-write_u32, read_u32-SameOn, write_u32-SameOn}
use slotbus.Types.{slot_free, slot_writing}
use slotbus.Os.{Os, World}
use slotbus.Region.{ShmRegion, region_memory, slot_address}
use slotbus.Region.Heap.Access.{set_memory_self}
use slotbus.Region.Slots.{
  load_status, store_status, claim_from, claim_free_slot, find_from, find_free_slot,
}

module _ {o : Os} where
  pub load_status-store_status :
      (r : ShmRegion o) (i v : ℕ) (w : World o)
      → v < u32_mod
      → load_status r i (store_status r i v w) ≡ v
  unfolding load_status store_status
  load_status-store_status r i v w h =
      rw (set_memory_self r (write_u32 (region_memory r w) (slot_address i) v) w)
        (omega (arith, read_u32-write_u32 (region_memory r w) (slot_address i) v))

  pub store_status-SameOn :
      (r : ShmRegion o) (i v : ℕ) (w : World o) (a n : ℕ)
      → (a + n ≤ slot_address i) ⊎ (slot_address i + 4 ≤ a)
      → SameOn (region_memory r w) (region_memory r (store_status r i v w)) a n
  unfolding store_status
  store_status-SameOn r i v w a n h =
      rw (set_memory_self r (write_u32 (region_memory r w) (slot_address i) v) w)
        (write_u32-SameOn (region_memory r w) (slot_address i) v a n h)

  pub load_status-store_status_ne :
      (r : ShmRegion o) (i j v : ℕ) (w : World o)
      → i ≢ j
      → load_status r j (store_status r i v w) ≡ load_status r j w
  unfolding load_status
  load_status-store_status_ne r i j v w ne =
      read_u32-SameOn (region_memory r w) (region_memory r (store_status r i v w)) (slot_address j)
        (store_status-SameOn r i v w (slot_address j) 4 (omega arith))

  -- What a search over the slots from `index` on, `left` of them, has found.
  pub record Claims (r : ShmRegion o) (index left : ℕ) (w : World o) (i : ℕ) (w' : World o)
      : Type 0 where
    pub from_index : index ≤ i
    pub below : i < index + left
    pub was_free : load_status r i w ≡ slot_free
    pub first : (j : ℕ) → index ≤ j → j < i → load_status r j w ≢ slot_free
    pub taken : w' ≡ store_status r i slot_writing w

  claim_from-some :
      (r : ShmRegion o) (left index : ℕ) (w w' : World o) (i : ℕ)
      → claim_from r left index w ≡ (some i, w')
      → Claims r index left w i w'
  unfolding claim_from
  claim_from-some r zero index w w' i h = absurd (ground arith)
  claim_from-some r (suc left) index w w' i h =
      elim (Bool-cases (load_status r index w == slot_free)) [
        | inl free ↦ record {
          from_index = ground arith;
          below = ground arith;
          was_free = ground arith;
          first = λ j lo hi. ground arith;
          taken = ground arith;
        }
        | inr busy ↦
            let rest = claim_from-some r left (index + 1) w w' i (ground arith) in
            record {
              from_index = omega (arith, rest.from_index);
              below = omega (arith, rest.below);
              was_free = rest.was_free;
              first = λ j lo hi. elim (ℕ_discrete index j) [
                | yes same ↦ rw (← same) (λ e. ground arith)
                | no later ↦ rest.first j (omega arith) hi
              ];
              taken = rest.taken;
            }
      ]

  claim_from-none_same :
      (r : ShmRegion o) (left index : ℕ) (w : World o)
      → (claim_from r left index w).0 ≡ none
      → (claim_from r left index w).1 ≡ w
  unfolding claim_from
  claim_from-none_same r zero index w h = refl
  claim_from-none_same r (suc left) index w h =
      ground (arith, claim_from-none_same r left (index + 1) w)

  claim_from-none :
      (r : ShmRegion o) (left index j : ℕ) (w : World o)
      → (claim_from r left index w).0 ≡ none
      → index ≤ j
      → j < index + left
      → load_status r j w ≢ slot_free
  unfolding claim_from
  claim_from-none r zero index j w h lo hi = absurd (omega arith)
  claim_from-none r (suc left) index j w h lo hi =
      elim (Bool-cases (load_status r index w == slot_free)) [
        | inl free ↦ absurd (ground arith)
        | inr busy ↦ elim (ℕ_discrete index j) [
          | yes same ↦ rw (← same) (λ e. ground arith)
          | no later ↦
              claim_from-none r left (index + 1) j w (ground arith) (omega arith) (omega arith)
        ]
      ]

  pub claim_free_slot-Claims :
      (r : ShmRegion o) (w w' : World o) (i : ℕ)
      → claim_free_slot r w ≡ (some i, w')
      → Claims r 0 r.num_slots w i w'
  unfolding claim_free_slot
  claim_free_slot-Claims r w w' i h = claim_from-some r r.num_slots 0 w w' i h

  -- Where `claim_free_slot` gives a slot, that slot is in the table, was free, and is being
  -- written now; and the status of any other slot `j` is as it was.
  pub claim_free_slot-some :
      (r : ShmRegion o) (w w' : World o) (i j : ℕ)
      → claim_free_slot r w ≡ (some i, w')
      → j ≢ i
      → (i < r.num_slots)
        × (load_status r i w ≡ slot_free)
        × (load_status r i w' ≡ slot_writing)
        × (load_status r j w' ≡ load_status r j w)
  claim_free_slot-some r w w' i j h ne =
      let c = claim_free_slot-Claims r w w' i h in
      (
        omega (arith, c.below),
        c.was_free,
        rw (c.taken) (load_status-store_status r i slot_writing w (omega arith)),
        rw (c.taken) (load_status-store_status_ne r i j slot_writing w (λ e. ne (sym e))),
      )

  -- Where `claim_free_slot` gives none, no slot `j` of the table is free, and nothing has
  -- changed.
  pub claim_free_slot-none :
      (r : ShmRegion o) (w : World o) (j : ℕ)
      → (claim_free_slot r w).0 ≡ none
      → j < r.num_slots
      → (load_status r j w ≢ slot_free) × ((claim_free_slot r w).1 ≡ w)
  unfolding claim_free_slot
  claim_free_slot-none r w j h lt = (
    claim_from-none r r.num_slots 0 j w h (omega arith) (omega arith),
    claim_from-none_same r r.num_slots 0 w h,
  )

  -- While slot `j` of the table is free, `claim_free_slot` gives a slot, and one that is not
  -- behind `j`.
  pub claim_free_slot_total :
      (r : ShmRegion o) (w : World o) (j : ℕ)
      → j < r.num_slots
      → load_status r j w ≡ slot_free
      → (i : ℕ) × ((claim_free_slot r w).0 ≡ some i) × (i ≤ j)
  claim_free_slot_total r w j lt free = elim (Option-cases (claim_free_slot r w).0) [
    | inl nothing ↦ absurd ((claim_free_slot-none r w j nothing lt).0 free)
    | inr (i, found) ↦ (i, found, not_behind i found)
  ]
    where
      not_behind : (i : ℕ) → (claim_free_slot r w).0 ≡ some i → i ≤ j
      not_behind i found = elim (dec_lt j i) [
        | yes behind ↦ absurd (
            (claim_free_slot-Claims r w (claim_free_slot r w).1 i
                (ap (λ (x : Option ℕ). (x, (claim_free_slot r w).1)) found)).first
              j (omega arith) behind free)
        | no before ↦ omega arith
      ]

  -- Two claims in a row never give the same slot.
  pub claim_free_slot_twice :
      (r : ShmRegion o) (w w' w'' : World o) (i j : ℕ)
      → claim_free_slot r w ≡ (some i, w')
      → claim_free_slot r w' ≡ (some j, w'')
      → i ≢ j
  claim_free_slot_twice r w w' w'' i j h h' same =
      let c = claim_free_slot-Claims r w w' i h in
      let d = claim_free_slot-Claims r w' w'' j h' in
      let now : load_status r i w' ≡ slot_writing =
        rw (c.taken) (load_status-store_status r i slot_writing w (omega arith)) in
      let free : load_status r i w' ≡ slot_free = rw same (d.was_free) in absurd (omega arith)

  -- `find_free_slot` gives the slot that `claim_free_slot` would take, and none where that takes
  -- none.
  pub find_free_slot-claim_free_slot :
      (r : ShmRegion o) (w : World o) → find_free_slot r w ≡ (claim_free_slot r w).0
  unfolding find_free_slot claim_free_slot
  find_free_slot-claim_free_slot r w = same r.num_slots 0
    where
      same : (left index : ℕ) → find_from r left index w ≡ (claim_from r left index w).0
      same zero index = refl
      same (suc left) index = ground (arith, same left (index + 1))
