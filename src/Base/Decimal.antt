-- ===== src/Base/Decimal.antt =====
-- `{n}` in a format string: the decimal digits of a `usize`, without leading zeros. Twenty digits
-- are enough for 64 bits.
use Prim.Native.Nat.{ℕ, zero, suc, ◌+◌, ◌-◌, ◌*◌, ◌/◌, ◌%◌, ◌^◌, ◌<◌}
use mathlib.Core.Path.{◌≡◌, refl, sym, ap, ◌∙◌}
use mathlib.Core.Logic.{◌⊎◌, inl, inr}
use mathlib.Core.Bool.{Bool, true, ◌&&◌}
use mathlib.Core.List.{[], ◌∷◌, ◌++◌}
use native.Mathlib.Omega.{arith}
use slotbus.Base.Tests.{if◌then◌else◌, ltb, leb, Bool-cases, ltb→lt}
use native.Mathlib.Nat.{pow-suc}
use slotbus.Base.Texts.{Text, ascii}

abbrev digit_of : ℕ → ℕ
digit_of n = b'0' + n % 10

-- The digits of `n` in front of `acc`.
digits_from : ℕ → ℕ → Text → Text
digits_from zero n acc = acc
digits_from (suc f) n acc =
    let rest = digits_from f (n / 10) (digit_of n ∷ acc) in
    if ltb n 10 then digit_of n ∷ acc else rest

unfoldable pub decimal : ℕ → Text
unfolding digits_from
decimal n = digits_from 20 n []

decimal_example : decimal 1048576 ≡ ascii "1048576"
unfolding decimal
decimal_example = refl

abbrev is_digit : ℕ → Bool
is_digit b = leb b'0' b && leb b b'9'

-- The number that the digits at the front of a text continue, and the rest of the text.
read_from : ℕ → Text → ℕ × Text
read_from n [] = (n, [])
read_from n (b ∷ bs) =
    let rest = read_from (n * 10 + (b - b'0')) bs in if is_digit b then rest else (n, b ∷ bs)

-- Nothing, or a byte that is no digit.
abbrev pub IsStop : Text → Type 0
IsStop [] = Unit {0}
IsStop (b ∷ bs) = (b < b'0') ⊎ (b'9' < b)

read_from-stop : (n : ℕ) (rest : Text) → IsStop rest → read_from n rest ≡ (n, rest)
unfolding read_from
read_from-stop n [] h = refl
read_from-stop n (b ∷ bs) h = ground arith

read_from-digit :
    (k n m : ℕ) (acc : Text)
    → k * 10 + n % 10 ≡ m
    → read_from k (digit_of n ∷ acc) ≡ read_from m acc
unfolding read_from
read_from-digit k n m acc e =
    let test : is_digit (digit_of n) ≡ true = ground arith in
    let next : k * 10 + (digit_of n - b'0') ≡ m = omega arith in rw (test, next)

read_from-digits_from :
    (f n : ℕ) (acc : Text) → n < 10 ^ f → read_from 0 (digits_from f n acc) ≡ read_from n acc
unfolding digits_from
read_from-digits_from zero n acc h = let e : n ≡ 0 = omega arith in rw e
read_from-digits_from (suc f) n acc h = elim (Bool-cases (ltb n 10)) [
  | inl low ↦ rw low (read_from-digit 0 n n acc (omega (arith, ltb→lt n 10 low)))
  | inr high ↦ rw high (
      read_from-digits_from f (n / 10) (digit_of n ∷ acc) (omega (arith, pow-suc 10 f))
      ∙ read_from-digit (n / 10) n n acc (omega arith))
]

digits_from-append :
    (f n : ℕ) (acc rest : Text) → digits_from f n acc ++ rest ≡ digits_from f n (acc ++ rest)
unfolding digits_from
digits_from-append zero n acc rest = refl
digits_from-append (suc f) n acc rest =
    ground (arith, digits_from-append f (n / 10) (digit_of n ∷ acc) rest)

-- Of a number of at most twenty digits the digits tell the number, whatever follows them.
pub decimal-injective :
    (n k : ℕ) (r s : Text)
    → n < 10 ^ 20
    → k < 10 ^ 20
    → IsStop r
    → IsStop s
    → decimal n ++ r ≡ decimal k ++ s
    → (n ≡ k) × (r ≡ s)
unfolding decimal
decimal-injective n k r s hn hk hr hs e =
    (ap (λ (p : ℕ × Text). p.0) both, ap (λ (p : ℕ × Text). p.1) both)
  where
    both : ◌≡◌ {A = ℕ × Text} (n, r) (k, s)
    both =
        sym (read_from-digits_from 20 n r hn ∙ read_from-stop n r hr)
        ∙ (ap (read_from 0) (sym (digits_from-append 20 n [] r) ∙ e ∙ digits_from-append 20 k [] s)
            ∙ (read_from-digits_from 20 k s hk ∙ read_from-stop k s hs))

pub decimal_digit : (n : ℕ) → n < 10 → decimal n ≡ (b'0' + n) ∷ []
unfolding decimal digits_from
decimal_digit n h =
    let small : ltb n 10 ≡ true = ground (arith, h) in
    let whole : n % 10 ≡ n = omega (arith, h) in rw (small, whole) refl
