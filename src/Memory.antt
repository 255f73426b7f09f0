-- ===== src/Memory.antt =====
-- The bytes of a mapping, which every process that maps it reads and writes. `slotbus/src/region.rs`
-- goes through raw pointers: `ptr.add(a)` is the address `a` here, counted from the start of the
-- mapping. Integers lie in memory least byte first, as on every target that the crate builds for.
pub mod Laws
use slotbus.Base.{
  ℕ, zero, suc, ◌+◌, ◌*◌, ◌/◌, ◌%◌, List, [], ◌∷◌, ◌&&◌, if◌then◌else◌, ltb, leb, ◌==◌, as_u16,
  as_u32,
}

abbrev pub Memory : Type 0
Memory = ℕ → ℕ

abbrev pub poke : Memory → ℕ → ℕ → Memory
poke m a b x = if x == a then b else m x

-- `copy_nonoverlapping` into the mapping.
unfoldable pub store : Memory → ℕ → List ℕ → Memory
store m a [] = m
store m a (b ∷ bs) = store (poke m a b) (a + 1) bs

-- `from_raw_parts` and a copy of what it gives.
unfoldable pub load : Memory → ℕ → ℕ → List ℕ
load m a zero = []
load m a (suc n) = m a ∷ load m (a + 1) n

-- `write_bytes`: `n` times the byte `b`.
unfoldable pub fill : Memory → ℕ → ℕ → ℕ → Memory
fill m a b n x = if leb a x && ltb x (a + n) then b else m x

abbrev pub u16_bytes : ℕ → List ℕ
u16_bytes v = v % 256 ∷ v / 256 % 256 ∷ []

abbrev pub u32_bytes : ℕ → List ℕ
u32_bytes v = v % 256 ∷ v / 256 % 256 ∷ v / 65536 % 256 ∷ v / 16777216 % 256 ∷ []

unfoldable pub write_u16 : Memory → ℕ → ℕ → Memory
unfolding store
write_u16 m a v = store m a (u16_bytes v)

unfoldable pub write_u32 : Memory → ℕ → ℕ → Memory
unfolding store
write_u32 m a v = store m a (u32_bytes v)

unfoldable pub read_u16 : Memory → ℕ → ℕ
read_u16 m a = m a + 256 * m (a + 1)

unfoldable pub read_u32 : Memory → ℕ → ℕ
read_u32 m a = m a + 256 * m (a + 1) + 65536 * m (a + 2) + 16777216 * m (a + 3)
