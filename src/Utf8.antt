-- ===== src/Utf8.antt =====
-- `String::from_utf8_lossy`, with which slotbus/src/region.rs and slotbus/src/transport.rs read a
-- request id: each maximal part of the input that is no UTF-8 becomes U+FFFD. A byte at a time.
pub mod Laws
use slotbus.Base.{
  ℕ, zero, suc, ◌+◌, List, [], ◌∷◌, ◌++◌, Bool, ◌&&◌, if◌then◌else◌, ltb, leb, ◌==◌, Text,
}

-- The bytes of a character that has begun, the range of its next byte, and how many follow that one.
pub data Pending : Type 0 where
  start : Pending
  within : (held : List ℕ) (low high more : ℕ) → Pending

abbrev replacement : List ℕ
replacement = 0xEF ∷ 0xBF ∷ 0xBD ∷ []

abbrev pub in_range : ℕ → ℕ → ℕ → Bool
in_range low high b = leb low b && leb b high

-- A byte where a character begins.
first_byte : ℕ → List ℕ × Pending
first_byte b =
    if ltb b 0x80
    then (b ∷ [], start)
    else if in_range 0xC2 0xDF b
    then ([], within (b ∷ []) 0x80 0xBF 0)
    else if b == 0xE0
    then ([], within (b ∷ []) 0xA0 0xBF 1)
    else if b == 0xED
    then ([], within (b ∷ []) 0x80 0x9F 1)
    else if in_range 0xE1 0xEF b
    then ([], within (b ∷ []) 0x80 0xBF 1)
    else if b == 0xF0
    then ([], within (b ∷ []) 0x90 0xBF 2)
    else if in_range 0xF1 0xF3 b
    then ([], within (b ∷ []) 0x80 0xBF 2)
    else if b == 0xF4
    then ([], within (b ∷ []) 0x80 0x8F 2)
    else (replacement, start)

-- The next byte of a character fits, or the character is given up and the byte begins another.
next_byte : List ℕ → ℕ → ℕ → ℕ → ℕ → List ℕ × Pending
unfolding first_byte
next_byte held low high more b =
    if in_range low high b
    then (elim more [
      | zero ↦ (held ++ b ∷ [], start)
      | suc m ↦ ([], within (held ++ b ∷ []) 0x80 0xBF m)
    ])
    else (replacement ++ (first_byte b).0, (first_byte b).1)

decode_byte : Pending → ℕ → List ℕ × Pending
unfolding first_byte next_byte
decode_byte start b = first_byte b
decode_byte (within held low high more) b = next_byte held low high more b

decode : Pending → List ℕ → Text
unfolding decode_byte
decode start [] = []
decode (within held low high more) [] = replacement
decode p (b ∷ bs) = (decode_byte p b).0 ++ decode (decode_byte p b).1 bs

unfoldable pub from_utf8_lossy : List ℕ → Text
unfolding decode
from_utf8_lossy bs = decode start bs
