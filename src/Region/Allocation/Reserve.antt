-- ===== src/Region/Allocation/Reserve.antt =====
-- What `alloc_heap` promises, whatever other threads do between its loads and its exchanges.
use slotbus.Base.{
  ℕ, zero, suc, length, ◌≤◌, ◌<◌, ◌≡◌, ◌≢◌, ◌⊎◌, inl, inr, refl, sym, ap, ◌∙◌, arith, List, [], ◌∷◌,
  Option, none, some, ltb, ◌==◌, ==_iff, as_u32, add_usize, clear_low3, Bool, true, false,
  Bool-cases, ltb→lt, not-ltb→le, u32_mod,
}
use slotbus.Memory.{write_u32}
use slotbus.Os.{Os, World}
use slotbus.Region.{ShmRegion, region_memory, set_memory}
use slotbus.Region.Allocation.{load_head, exchange_head, alloc_round, alloc_heap}

-- The world behind the first `k` interferences, and nothing else.
unfoldable pub disturbed : {o : Os} → ℕ → List (World o → World o) → World o → World o
disturbed zero others w = w
disturbed (suc k) [] w = w
disturbed (suc k) (other ∷ others) w = disturbed k others (other w)

module _ {o : Os} (r : ShmRegion o) (small : r.heap_size < u32_mod) where
  -- The exchange took place behind the first `round` interferences: `now` is the world at that time, and `w'`
  -- the one behind the exchange.
  pub record Reserves (aligned head : ℕ) (others : List (World o → World o)) (w w' : World o)
      : Type 0 where
    pub round : ℕ
    pub in_others : round ≤ length others
    pub now : World o
    pub disturbs : now ≡ disturbed round others w
    pub was_head : load_head r now ≡ head
    pub only_head :
        w' ≡ set_memory r (write_u32 (region_memory r now) 20 (as_u32 (add_usize head aligned))) now
    pub new_head : load_head r w' ≡ add_usize head aligned
    pub inside : add_usize head aligned ≤ r.heap_size

  exchange_head-eq :
      (head new : ℕ) (w : World o)
      → ((load_head r w ≡ head)
          × (exchange_head r head new w
              ≡ (true, set_memory r (write_u32 (region_memory r w) 20 new) w)))
        ⊎ ((load_head r w ≢ head) × (exchange_head r head new w ≡ (false, w)))
  unfolding exchange_head
  exchange_head-eq head new w = elim (Bool-cases (load_head r w == head)) [
    | inl same ↦ inl ((==_iff (load_head r w) head).0 same, rw same)
    | inr other ↦ inr ((λ e. ground (arith, other, ==_iff (load_head r w) head)), rw other)
  ]

  advanced : ℕ → ℕ → World o → World o
  advanced aligned head w =
      set_memory r (write_u32 (region_memory r w) 20 (as_u32 (add_usize head aligned))) w

  -- A round finds the heap full, or moves the head, or finds that the head has been moved.
  alloc_round-eq :
      (aligned head : ℕ) (retry : Option ℕ × World o) (loaded now : World o)
      → ((r.heap_size < add_usize head aligned)
          × (alloc_round r aligned head retry loaded now ≡ (none, loaded)))
        ⊎ (((add_usize head aligned ≤ r.heap_size)
              × (load_head r now ≡ head)
              × (alloc_round r aligned head retry loaded now
                  ≡ (some head, advanced aligned head now)))
            ⊎ ((load_head r now ≢ head) × (alloc_round r aligned head retry loaded now ≡ retry)))
  unfolding alloc_round advanced
  alloc_round-eq aligned head retry loaded now =
      elim (Bool-cases (ltb r.heap_size (add_usize head aligned))) [
        | inl full ↦ inl (ltb→lt r.heap_size (add_usize head aligned) full, rw full)
        | inr fits ↦ elim (exchange_head-eq head (as_u32 (add_usize head aligned)) now) [
          | inl (same, done) ↦ inr (
              inl (
                not-ltb→le r.heap_size (add_usize head aligned) fits,
                same,
                rw (fits, done) (ap (λ (x : Bool × World o). (some head, x.1)) done),
              ))
          | inr (moved, failed) ↦ inr (inr (moved, rw (fits, failed)))
        ]
      ]

  -- Take a heap of less than 4 GiB. Where `alloc_heap` gives none, there was a world in which
  -- `alloc_head` and the rounded size together were more than the heap, whatever other threads did.
  pub alloc_heap-none :
      (size : ℕ) (others : List (World o → World o)) (w : World o)
      → (alloc_heap r size others w).0 ≡ none
      → (v : World o) × (r.heap_size < add_usize (load_head r v) (clear_low3 (add_usize size 7)))
  unfolding alloc_heap
  alloc_heap-none size [] w e =
      elim (alloc_round-eq (clear_low3 (add_usize size 7)) (load_head r w) (none, w) w w) [
        | inl (full, done) ↦ (w, full)
        | inr (inl (fits, same, done)) ↦ absurd (ground (arith, done))
        | inr (inr (moved, retried)) ↦ absurd (moved refl)
      ]
  alloc_heap-none size (other ∷ others) w e =
      elim (alloc_round-eq (clear_low3 (add_usize size 7)) (load_head r w)
        (alloc_heap r size others (other w)) w (other w)) [
          | inl (full, done) ↦ (w, full)
          | inr (inl (fits, same, done)) ↦ absurd (ground (arith, done))
          | inr (inr (moved, retried)) ↦
              alloc_heap-none size others (other w)
                (sym (ap (λ (x : Option ℕ × World o). x.0) retried) ∙ e)
        ]
