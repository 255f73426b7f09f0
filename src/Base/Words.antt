-- ===== src/Base/Words.antt =====
-- Machine integers as native numbers: `usize` and `u64` have 64 bits, and the wrap of a release
-- build is written out. Masks that clear low bits are `/` and `*`.
use Prim.Native.Nat.{ℕ, ◌+◌, ◌-◌, ◌*◌, ◌/◌, ◌%◌, ◌^◌, ◌<◌}
use mathlib.Core.Path.{◌≡◌}
use mathlib.Core.Option.{Option, none, some}
use native.Mathlib.Nat.{mod-eq_of_lt}
use slotbus.Base.Tests.{ltb, if◌then◌else◌}

abbrev pub usize_mod : ℕ
usize_mod = 2 ^ 64

abbrev pub u32_mod : ℕ
u32_mod = 2 ^ 32

abbrev pub u16_mod : ℕ
u16_mod = 2 ^ 16

abbrev pub u8_mod : ℕ
u8_mod = 2 ^ 8

-- `a + b` and `a * b` on `usize`.
abbrev pub add_usize : ℕ → ℕ → ℕ
add_usize a b = (a + b) % usize_mod

abbrev pub mul_usize : ℕ → ℕ → ℕ
mul_usize a b = a * b % usize_mod

-- `a + b` on `i64`, as bit patterns.
abbrev pub add_i64 : ℕ → ℕ → ℕ
add_i64 a b = (a + b) % usize_mod

-- `a.checked_add(b)` on `usize`.
abbrev pub checked_add : ℕ → ℕ → Option ℕ
checked_add a b = if ltb (a + b) usize_mod then some (a + b) else none

-- `a.saturating_sub(b)`; the subtraction of ℕ stops at 0 too.
abbrev pub saturating_sub : ℕ → ℕ → ℕ
saturating_sub a b = a - b

-- `n as u32` and `n as u16`.
abbrev pub as_u32 : ℕ → ℕ
as_u32 n = n % u32_mod

abbrev pub as_u16 : ℕ → ℕ
as_u16 n = n % u16_mod

-- `n & !7` and `n & !4095`.
abbrev pub clear_low3 : ℕ → ℕ
clear_low3 n = n / 8 * 8

abbrev pub clear_low12 : ℕ → ℕ
clear_low12 n = n / 4096 * 4096

pub mul_usize-eq : (a b : ℕ) → a * b < usize_mod → mul_usize a b ≡ a * b
mul_usize-eq a b h = mod-eq_of_lt h
