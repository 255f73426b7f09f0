-- ===== src/Config/Names.antt =====
-- The names of overflow regions tell apart the direction, the slot and the generation.
use mathlib.Core.List.{append_cancel_left, append-nil}
use slotbus.Base.{
  ℕ, ◌<◌, ◌≡◌, inl, inr, refl, sym, ◌∙◌, arith, true, false, Bool-cases, if◌then◌else◌, ◌==◌, Text,
  ascii, [], ◌++◌, decimal, IsStop, decimal-injective, ==_iff, usize_mod,
}
use slotbus.Error.{Outcome}
use slotbus.Config.{
  SlotBusConfig, overflow_name, request_overflow_name_gen, response_overflow_name_gen,
}
use slotbus.Config.OsName.{Target, sanitize_os_name, sanitize_os_name-keeps, keeps_names}

-- What an overflow name holds behind the slot.
abbrev generation_suffix : ℕ → Text
generation_suffix g = if g == 0 then [] else ascii "-g" ++ decimal g

overflow_name_lem :
    (p n k : Text) (s g : ℕ)
    → overflow_name p n k s g
      ≡ p
        ++ (ascii "-"
            ++ (n ++ (ascii "-" ++ (k ++ (ascii "-" ++ (decimal s ++ generation_suffix g))))))
unfolding overflow_name
overflow_name_lem p n k s g = elim (Bool-cases (g == 0)) [
  | inl zero_g ↦ rw (zero_g, append-nil (decimal s))
  | inr some_g ↦ rw some_g
]

generation_suffix-IsStop : (g : ℕ) → IsStop (generation_suffix g)
generation_suffix-IsStop g = ground arith

suffix-injective :
    (g h : ℕ) → g < usize_mod → h < usize_mod → generation_suffix g ≡ generation_suffix h → g ≡ h
suffix-injective g h hg hh e = elim (Bool-cases (g == 0)) [
  | inl zero_g ↦ elim (Bool-cases (h == 0)) [
    | inl zero_h ↦ (==_iff g 0).0 zero_g ∙ sym ((==_iff h 0).0 zero_h)
    | inr some_h ↦ absurd (ground arith)
  ]
  | inr some_g ↦ elim (Bool-cases (h == 0)) [
    | inl zero_h ↦ absurd (ground arith)
    | inr some_h ↦ digits (
        append_cancel_left (ascii "-g") _ _ (sym (open_suffix g some_g) ∙ e ∙ open_suffix h some_h))
  ]
]
  where
    open_suffix : (k : ℕ) → (k == 0) ≡ false → generation_suffix k ≡ ascii "-g" ++ decimal k
    open_suffix k p = rw p

    digits : decimal g ≡ decimal h → g ≡ h
    digits d =
        (decimal-injective g h [] [] (omega arith) (omega arith) tt tt
          (append-nil (decimal g) ∙ d ∙ sym (append-nil (decimal h)))).0

rest_injective :
    (s t g h : ℕ)
    → s < usize_mod
    → t < usize_mod
    → g < usize_mod
    → h < usize_mod
    → decimal s ++ generation_suffix g ≡ decimal t ++ generation_suffix h
    → (s ≡ t) × (g ≡ h)
rest_injective s t g h hs ht hg hh e =
    let (same, rest) =
      decimal-injective s t (generation_suffix g) (generation_suffix h) (omega arith) (omega arith)
        (generation_suffix-IsStop g) (generation_suffix-IsStop h) e in
    (same, suffix-injective g h hg hh rest)

-- The part behind the worker's name.
overflow_name-tail :
    (p n k l : Text) (s g t h : ℕ)
    → overflow_name p n k s g ≡ overflow_name p n l t h
    → k ++ (ascii "-" ++ (decimal s ++ generation_suffix g))
      ≡ l ++ (ascii "-" ++ (decimal t ++ generation_suffix h))
overflow_name-tail p n k l s g t h e = append_cancel_left (ascii "-") _ _ (
    append_cancel_left n _ _ (
      append_cancel_left (ascii "-") _ _ (
        append_cancel_left p _ _
          (sym (overflow_name_lem p n k s g) ∙ e ∙ overflow_name_lem p n l t h))))

raw_name :
    (target : Target) (a b : Text)
    → keeps_names target ≡ true
    → sanitize_os_name target a ≡ sanitize_os_name target b
    → a ≡ b
raw_name target a b keeps e =
    cc (sanitize_os_name-keeps target a keeps, sanitize_os_name-keeps target b keeps)

-- The two kinds of payload that may spill.
pub data Direction : Type 0 where
  request response : Direction

abbrev kind_of : Direction → Text
kind_of request = ascii "req"
kind_of response = ascii "rsp"

abbrev pub overflow_name_gen : Target → Direction → SlotBusConfig → ℕ → ℕ → Outcome Text
overflow_name_gen target request c s g = request_overflow_name_gen target c s g
overflow_name_gen target response c s g = response_overflow_name_gen target c s g

overflow_name_gen_lem :
    (target : Target) (d : Direction) (c : SlotBusConfig) (s g : ℕ)
    → overflow_name_gen target d c s g
      ≡ sanitize_os_name target (overflow_name c.prefix c.name (kind_of d) s g)
unfolding request_overflow_name_gen response_overflow_name_gen
overflow_name_gen_lem target request c s g = refl
overflow_name_gen_lem target response c s g = refl

kinds_apart :
    (d d' : Direction) (r r' : Text)
    → kind_of d ++ (ascii "-" ++ r) ≡ kind_of d' ++ (ascii "-" ++ r')
    → (d ≡ d') × (r ≡ r')
kinds_apart request request r r' e = (refl, append_cancel_left (ascii "req-") _ _ e)
kinds_apart response response r r' e = (refl, append_cancel_left (ascii "rsp-") _ _ e)
kinds_apart request response r r' e = absurd (ground arith)
kinds_apart response request r r' e = absurd (ground arith)

-- On Windows and Linux, the name of an overflow region of a bus tells whether it holds a request
-- or a response, of which slot, and of which generation. Slots and generations are `usize`
-- values.
pub overflow_name_gen-injective :
    (target : Target) (c : SlotBusConfig) (d d' : Direction) (s g t h : ℕ)
    → keeps_names target ≡ true
    → s < usize_mod
    → g < usize_mod
    → t < usize_mod
    → h < usize_mod
    → overflow_name_gen target d c s g ≡ overflow_name_gen target d' c t h
    → (d ≡ d') × (s ≡ t) × (g ≡ h)
overflow_name_gen-injective target c d d' s g t h keeps hs hg ht hh e =
    let raw =
      raw_name target _ _ keeps
        (sym (overflow_name_gen_lem target d c s g) ∙ e ∙ overflow_name_gen_lem target d' c t h) in
    let (kind, rest) = kinds_apart d d' _ _ (overflow_name-tail c.prefix c.name _ _ s g t h raw) in
    let (slot, generation) = rest_injective s t g h hs ht hg hh rest in (kind, slot, generation)
