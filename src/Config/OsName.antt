-- ===== src/Config/OsName.antt =====
-- `sanitize_os_name` of slotbus/src/config.rs: macOS takes at most 29 bytes of name, so a longer one
-- is replaced by a hash and its own last bytes. On the other targets a name stays as it is.
use Prim.Native.Nat.{bit_xor}
use slotbus.Base.{
  ℕ, zero, suc, ◌-◌, ◌*◌, ◌/◌, ◌%◌, ◌≤◌, ◌<◌, ◌≡◌, refl, arith, [], ◌∷◌, ◌++◌, Bool, true, false,
  ◌&&◌, ◌||◌, if◌then◌else◌, ltb, leb, ◌==◌, Text, ascii, length, get_or, drop, usize_mod, min,
  length-append, length-drop, lt→not-leb, ap,
}
use slotbus.Error.{Outcome, ok, panicked}

-- The systems that the source distinguishes by `cfg`.
pub data Target : Type 0 where
  windows linux macos : Target

abbrev pub max_name : ℕ
max_name = 29

-- FNV-1a on 64 bits.
hash_from : ℕ → Text → ℕ
hash_from hash [] = hash
hash_from hash (byte ∷ bytes) = hash_from (bit_xor hash byte * 0x100000001b3 % usize_mod) bytes

name_hash : Text → ℕ
unfolding hash_from
name_hash name = hash_from 0xcbf29ce484222325 name

abbrev chars : Text
chars = ascii "0123456789ABCDEFGHIJKLMNOPQRSTUVWXYZabcdefghijklmnopqrstuvwxyz"

-- `rounds` digits in base 62, the lowest first.
base62 : ℕ → ℕ → Text
base62 zero h = []
base62 (suc rounds) h = get_or chars (h % 62) 0 ∷ base62 rounds (h / 62)

-- A slice of a `str` panics at an index that does not begin a character.
unfoldable pub is_char_boundary : Text → ℕ → Bool
is_char_boundary s i =
    i == 0
    || (i == length s || (ltb i (length s) && (ltb (get_or s i 0) 0x80 || leb 0xC0 (get_or s i 0))))

-- The hash and the suffix, or the hash alone if they are too long.
unfoldable pub fitted : Text → Text → Text
fitted encoded suffix =
    let result = ascii "sb-" ++ (encoded ++ suffix) in
    if ltb max_name (length result) then ascii "sb-" ++ encoded else result

-- The hash of a name as it stands in a shortened one: 11 characters.
unfoldable pub encoded_hash : Text → Text
unfolding name_hash base62
encoded_hash name = base62 11 (name_hash name)

-- The part of `sanitize_os_name` that follows the hash.
shortened : Text → Text → Outcome Text
shortened encoded name =
    let max_suffix = max_name - 14 in
    let suffix_len = min max_suffix (length name) in
    if is_char_boundary name (length name - suffix_len)
    then ok (fitted encoded (drop (length name - suffix_len) name))
    else panicked

unfoldable pub sanitize_os_name : Target → Text → Outcome Text
unfolding shortened
sanitize_os_name macos name =
    if leb (length name) max_name then ok name else shortened (encoded_hash name) name
sanitize_os_name windows name = ok name
sanitize_os_name linux name = ok name

length-base62 : (k h : ℕ) → length (base62 k h) ≡ k
unfolding base62
length-base62 zero h = refl
length-base62 (suc k) h = omega (arith, length-base62 k (h / 62))

-- On macOS, a name that is short enough stays as it is.
pub sanitize_os_name-short :
    (name : Text) → length name ≤ max_name → sanitize_os_name macos name ≡ ok name
unfolding sanitize_os_name
sanitize_os_name-short name h = ground arith

fitted_lem : (e s : Text) → length e ≡ 11 → length s ≤ 15 → fitted e s ≡ ascii "sb-" ++ (e ++ s)
unfolding fitted
fitted_lem e s he hs =
    let test : ltb max_name (length (ascii "sb-" ++ (e ++ s))) ≡ false =
      ground (arith, length-append e s) in
    rw test

length-encoded_hash : (name : Text) → length (encoded_hash name) ≡ 11
unfolding encoded_hash
length-encoded_hash name = length-base62 11 (name_hash name)

-- A name of more than 29 bytes on macOS, if its last 15 bytes begin with a character, becomes `sb-`,
-- the characters of its hash and those 15 bytes, which are 29 bytes together.
pub sanitize_os_name-long :
    (name : Text)
    → max_name < length name
    → is_char_boundary name (length name - 15) ≡ true
    → (sanitize_os_name macos name
        ≡ ok (ascii "sb-" ++ (encoded_hash name ++ drop (length name - 15) name)))
      × (length (ascii "sb-" ++ (encoded_hash name ++ drop (length name - 15) name)) ≡ max_name)
unfolding sanitize_os_name
sanitize_os_name-long name h b =
    let suffix = drop (length name - 15) name in
    let short : length suffix ≡ 15 = omega (arith, length-drop (length name - 15) name) in
    let hash = length-encoded_hash name in
    let place : length name - min 15 (length name) ≡ length name - 15 = omega arith in
    (
      rw (lt→not-leb (length name) max_name h, place, b)
          (ap ok (fitted_lem (encoded_hash name) suffix hash (omega arith))),
      omega (arith, length-append (encoded_hash name) suffix),
    )

-- The targets whose names stay as they are.
abbrev pub keeps_names : Target → Bool
keeps_names macos = false
keeps_names _ = true

pub sanitize_os_name-keeps :
    (target : Target) (name : Text)
    → keeps_names target ≡ true
    → sanitize_os_name target name ≡ ok name
unfolding sanitize_os_name
sanitize_os_name-keeps windows name h = refl
sanitize_os_name-keeps linux name h = refl
sanitize_os_name-keeps macos name h = absurd (ground arith)
