-- ===== src/Types/Codes.antt =====
-- The bytes that stand for methods and for places of a body.
use slotbus.Base.{ℕ, ◌+◌, ◌≤◌, ◌≡◌, ◌⊎◌, refl, Text, ascii, text_eq_iff, arith, some, none}
use slotbus.Types.{method_to_u8, u8_to_method, overflow_generation, overflow_inline}

-- The seven methods that have a byte of their own.
abbrev pub IsMethod : Text → Type 0
IsMethod m =
    (m ≡ ascii "GET")
    ⊎ (m ≡ ascii "POST")
    ⊎ (m ≡ ascii "PUT")
    ⊎ (m ≡ ascii "DELETE")
    ⊎ (m ≡ ascii "PATCH")
    ⊎ (m ≡ ascii "HEAD")
    ⊎ (m ≡ ascii "OPTIONS")

-- A method with a byte of its own comes back from that byte.
pub u8_to_method-method_to_u8 : (m : Text) → IsMethod m → u8_to_method (method_to_u8 m) ≡ m
unfolding u8_to_method method_to_u8
u8_to_method-method_to_u8 m h = ground arith

-- Any other text is sent as GET.
pub method_to_u8-other : (m : Text) → ¬ IsMethod m → u8_to_method (method_to_u8 m) ≡ ascii "GET"
unfolding u8_to_method method_to_u8
method_to_u8-other m h = ground (
  arith,
  text_eq_iff m (ascii "POST"),
  text_eq_iff m (ascii "PUT"),
  text_eq_iff m (ascii "DELETE"),
  text_eq_iff m (ascii "PATCH"),
  text_eq_iff m (ascii "HEAD"),
  text_eq_iff m (ascii "OPTIONS"),
)

-- Each of the seven bytes is the code of the text that it stands for.
pub method_to_u8-u8_to_method : (b : ℕ) → b ≤ 6 → method_to_u8 (u8_to_method b) ≡ b
unfolding u8_to_method method_to_u8
method_to_u8-u8_to_method b h = ground arith

-- The code of a method is one byte.
pub method_to_u8-le : (m : Text) → method_to_u8 m ≤ 6
unfolding method_to_u8
method_to_u8-le m = ground arith

-- The marker `g + 1` reads back as generation `g`; the inline marker has none.
pub overflow_generation_lem : (g : ℕ) → overflow_generation (g + 1) ≡ some g
unfolding overflow_generation
overflow_generation_lem g = ground arith

pub overflow_generation-inline : overflow_generation overflow_inline ≡ none
unfolding overflow_generation
overflow_generation-inline = refl
