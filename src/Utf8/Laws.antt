-- ===== src/Utf8/Laws.antt =====
use slotbus.Base.{ℕ, ◌<◌, ◌≡◌, refl, ap, List, [], ◌∷◌, All, lt→ltb}
use slotbus.Utf8.{from_utf8_lossy, decode_byte}

-- A text of ASCII bytes.
abbrev pub IsAscii : List ℕ → Type 0
IsAscii = All (λ b. b < 128)

pub from_utf8_lossy-ascii : (bs : List ℕ) → IsAscii bs → from_utf8_lossy bs ≡ bs
unfolding from_utf8_lossy
from_utf8_lossy-ascii [] h = refl
from_utf8_lossy-ascii (b ∷ bs) h =
    rw (lt→ltb b 0x80 h.0, decode_byte) (ap (◌∷◌ b) (from_utf8_lossy-ascii bs h.1))

-- A character of two bytes stays; a broken one of three becomes one U+FFFD and the rest is kept.
mixed :
    from_utf8_lossy (0xC3 ∷ 0xA9 ∷ 0xE2 ∷ 0x82 ∷ 0x41 ∷ [])
    ≡ 0xC3 ∷ 0xA9 ∷ 0xEF ∷ 0xBF ∷ 0xBD ∷ 0x41 ∷ []
unfolding from_utf8_lossy
mixed = refl
