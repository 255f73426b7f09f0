-- ===== src/Types/Arenas.antt =====
-- The arenas of the slots: where they lie in the heap, and that no two of them meet.
use slotbus.Base.{
  ℕ, ◌+◌, ◌-◌, ◌*◌, ◌/◌, ◌%◌, ◌≤◌, ◌<◌, ◌≡◌, ◌≢◌, ◌⊎◌, inl, inr, arith, ap, usize_mod, u32_mod,
}
use native.Mathlib.Decide.{dec_lt}
use slotbus.Types.{arena_size, slot_arenas, Span, Halves, align8, compute_layout}

-- The first byte behind a span.
abbrev pub limit : Span → ℕ
limit s = s.offset + s.size

-- One span ends before the other begins.
abbrev pub IsApart : Span → Span → Type 0
IsApart s t = (limit s ≤ t.offset) ⊎ (limit t ≤ s.offset)

arena_size-mul : (n heap : ℕ) → arena_size n heap * n ≤ heap
unfolding arena_size
arena_size-mul n heap = grind arith

pub arena_size-eight : (n heap : ℕ) → arena_size n heap % 8 ≡ 0
unfolding arena_size
arena_size-eight n heap = ground arith

mul_mono : (i j a : ℕ) → i < j → i * a + a ≤ j * a
mul_mono i j a h = grind arith

-- An arena lies in the heap, and ends before a later one begins.
pub arena-le-heap : (i n heap : ℕ) → i < n → i * arena_size n heap + arena_size n heap ≤ heap
arena-le-heap i n heap h = omega (arith, mul_mono i n (arena_size n heap) h, arena_size-mul n heap)

mul_eight : (i a : ℕ) → a % 8 ≡ 0 → i * a % 8 ≡ 0
mul_eight i a h = let e : a ≡ 8 * (a / 8) = omega arith in omega (arith, ap (λ (t : ℕ). i * t) e)

module _ (i n heap : ℕ) (inside : i < n) (small : heap < usize_mod) where
  -- The halves as numbers that do not wrap: they make up the arena.
  pub record IsSplit (h : Halves) : Type 0 where
    pub starts : h.request.offset ≡ i * arena_size n heap
    pub joined : h.response.offset ≡ limit h.request
    pub filled : limit h.response ≡ i * arena_size n heap + arena_size n heap
    pub larger : h.request.size ≤ h.response.size
    pub aligned : (h.request.offset % 8 ≡ 0) × (h.response.offset % 8 ≡ 0)

  pub slot_arenas-IsSplit : IsSplit (slot_arenas i n heap)
  unfolding slot_arenas
  slot_arenas-IsSplit =
      let low = arena-le-heap i n heap inside in
      let even = arena_size-eight n heap in
      let base = mul_eight i (arena_size n heap) even in
      record {
        starts = omega arith;
        joined = omega arith;
        filled = omega arith;
        larger = omega arith;
        aligned = omega arith;
      }

-- For a slot of the table and a heap that `usize` can measure: both halves lie in the heap, start at
-- multiples of 8, do not meet, and the response half is at least as long as the request half.
pub slot_arenas_fit :
    (i n heap : ℕ)
    → i < n
    → heap < usize_mod
    → let h = slot_arenas i n heap in
      (limit h.request ≤ heap)
      × (limit h.response ≤ heap)
      × (h.request.offset % 8 ≡ 0)
      × (h.response.offset % 8 ≡ 0)
      × IsApart h.request h.response
      × (h.request.size ≤ h.response.size)
slot_arenas_fit i n heap inside small =
    let s = slot_arenas-IsSplit i n heap inside small in
    let low = arena-le-heap i n heap inside in ground arith

-- For two different slots of the table and a heap whose size `usize` holds, no half of the one
-- meets a half of the other.
pub slot_arenas-IsApart :
    (i j n heap : ℕ)
    → i < n
    → j < n
    → i ≢ j
    → heap < usize_mod
    → let g = slot_arenas i n heap in
      let h = slot_arenas j n heap in
      IsApart g.request h.request
      × IsApart g.request h.response
      × IsApart g.response h.request
      × IsApart g.response h.response
slot_arenas-IsApart i j n heap hi hj ne small = elim (dec_lt i j) [
  | yes below ↦
      let a = slot_arenas-IsSplit i n heap hi small in
      let b = slot_arenas-IsSplit j n heap hj small in
      let m = mul_mono i j (arena_size n heap) below in
      (inl (omega arith), inl (omega arith), inl (omega arith), inl (omega arith))
  | no above ↦
      let a = slot_arenas-IsSplit i n heap hi small in
      let b = slot_arenas-IsSplit j n heap hj small in
      let m = mul_mono j i (arena_size n heap) (omega arith) in
      (inr (omega arith), inr (omega arith), inr (omega arith), inr (omega arith))
]

-- For `n` at most seven below the top of `usize`, `align8 n` is the least multiple of 8 from `n` on.
pub align8-least :
    (n m : ℕ)
    → n + 7 < usize_mod
    → m % 8 ≡ 0
    → n ≤ m
    → (align8 n % 8 ≡ 0) × (n ≤ align8 n) × (align8 n ≤ m)
unfolding align8
align8-least n m h e le = (omega arith, omega arith, omega arith)

pub align8-le : (n : ℕ) → n + 7 < usize_mod → (n ≤ align8 n) × (align8 n ≤ n + 7)
unfolding align8
align8-le n h = omega arith

-- With fewer than 2 ^ 32 slots no sum of the layout wraps.
pub compute_layout_lem :
    (num_slots region_size : ℕ)
    → num_slots < u32_mod
    → let l = compute_layout num_slots region_size in
      (l.0 ≡ 64 + num_slots * 128) × (l.1 ≡ region_size - (64 + num_slots * 128))
unfolding compute_layout
compute_layout_lem n r h = omega arith
