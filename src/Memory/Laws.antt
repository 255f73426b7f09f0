-- ===== src/Memory/Laws.antt =====
-- What a write leaves alone, and what is read back.
use slotbus.Base.{
  ℕ, zero, suc, ◌+◌, ◌≤◌, ◌<◌, ◌≡◌, ◌⊎◌, inl, refl, ap, ◌∙◌, List, [], ◌∷◌, length, arith, u16_mod,
  u32_mod, ◌%◌,
}
use slotbus.Memory.{
  Memory, poke, store, load, fill, write_u16, write_u32, read_u16, read_u32, u16_bytes, u32_bytes,
}

-- `m'` holds what `m` held on the `n` bytes from `a` on.
abbrev pub SameOn : Memory → Memory → ℕ → ℕ → Type 0
SameOn m m' a n = (x : ℕ) → a ≤ x → x < a + n → m' x ≡ m x

-- Two ranges, each an address and a length, do not meet.
abbrev pub Apart : ℕ → ℕ → ℕ → ℕ → Type 0
Apart a n b k = (a + n ≤ b) ⊎ (b + k ≤ a)

pub SameOn-refl : (m : Memory) (a n : ℕ) → SameOn m m a n
SameOn-refl m a n x lo hi = refl

pub SameOn-trans :
    (m m' m'' : Memory) (a n : ℕ) → SameOn m m' a n → SameOn m' m'' a n → SameOn m m'' a n
SameOn-trans m m' m'' a n f g x lo hi = g x lo hi ∙ f x lo hi

pub SameOn-sub :
    (m m' : Memory) (a n b k : ℕ) → a ≤ b → b + k ≤ a + n → SameOn m m' a n → SameOn m m' b k
SameOn-sub m m' a n b k lo hi f x p q = f x (omega arith) (omega arith)

store_outside :
    (m : Memory) (a : ℕ) (bs : List ℕ) (x : ℕ)
    → (x < a) ⊎ (a + length bs ≤ x)
    → store m a bs x ≡ m x
unfolding store
store_outside m a [] x h = refl
store_outside m a (b ∷ bs) x h = ground (arith, store_outside (poke m a b) (a + 1) bs x)

pub store-SameOn :
    (m : Memory) (b : ℕ) (bs : List ℕ) (a n : ℕ)
    → Apart a n b (length bs)
    → SameOn m (store m b bs) a n
store-SameOn m b bs a n h x lo hi = store_outside m b bs x (omega arith)

pub fill-SameOn : (m : Memory) (b v k a n : ℕ) → Apart a n b k → SameOn m (fill m b v k) a n
unfolding fill
fill-SameOn m b v k a n h x lo hi = ground arith

pub write_u16-SameOn : (m : Memory) (b v a n : ℕ) → Apart a n b 2 → SameOn m (write_u16 m b v) a n
unfolding write_u16
write_u16-SameOn m b v a n h = store-SameOn m b (u16_bytes v) a n h

pub write_u32-SameOn : (m : Memory) (b v a n : ℕ) → Apart a n b 4 → SameOn m (write_u32 m b v) a n
unfolding write_u32
write_u32-SameOn m b v a n h = store-SameOn m b (u32_bytes v) a n h

pub poke-SameOn : (m : Memory) (b v a n : ℕ) → Apart a n b 1 → SameOn m (poke m b v) a n
poke-SameOn m b v a n h x lo hi = ground arith

pub load-SameOn : (m m' : Memory) (a n : ℕ) → SameOn m m' a n → load m' a n ≡ load m a n
unfolding load
load-SameOn m m' a zero f = refl
load-SameOn m m' a (suc n) f = ground (
  arith,
  f a (omega arith) (omega arith),
  load-SameOn m m' (a + 1) n (λ x p q. f x (omega arith) (omega arith)),
)

pub read_u16-SameOn : (m m' : Memory) (a : ℕ) → SameOn m m' a 2 → read_u16 m' a ≡ read_u16 m a
unfolding read_u16
read_u16-SameOn m m' a f =
    omega (arith, f a (omega arith) (omega arith), f (a + 1) (omega arith) (omega arith))

pub read_u32-SameOn : (m m' : Memory) (a : ℕ) → SameOn m m' a 4 → read_u32 m' a ≡ read_u32 m a
unfolding read_u32
read_u32-SameOn m m' a f = omega (
  arith,
  f a (omega arith) (omega arith),
  f (a + 1) (omega arith) (omega arith),
  f (a + 2) (omega arith) (omega arith),
  f (a + 3) (omega arith) (omega arith),
)

-- What was stored is loaded again.
pub load-store : (m : Memory) (a : ℕ) (bs : List ℕ) → load (store m a bs) a (length bs) ≡ bs
unfolding load store
load-store m a [] = refl
load-store m a (b ∷ bs) = ground (
  arith,
  store_outside (poke m a b) (a + 1) bs a (inl (omega arith)),
  load-store (poke m a b) (a + 1) bs,
)

pub read_u16-write_u16 : (m : Memory) (a v : ℕ) → read_u16 (write_u16 m a v) a ≡ v % u16_mod
unfolding read_u16 write_u16 store
read_u16-write_u16 m a v = ground arith

pub read_u32-write_u32 : (m : Memory) (a v : ℕ) → read_u32 (write_u32 m a v) a ≡ v % u32_mod
unfolding read_u32 write_u32 store
read_u32-write_u32 m a v = ground arith

pub length-load : (m : Memory) (a n : ℕ) → length (load m a n) ≡ n
unfolding load
length-load m a zero = refl
length-load m a (suc n) = ap suc (length-load m (a + 1) n)

pub read_u32-lt : (m : Memory) (a : ℕ) → ((x : ℕ) → m x < 256) → read_u32 m a < u32_mod
unfolding read_u32
read_u32-lt m a bytes = omega (arith, bytes a, bytes (a + 1), bytes (a + 2), bytes (a + 3))
