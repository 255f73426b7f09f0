-- ===== src/Tests/Machine.antt =====
-- An operating system that the hypotheses on shared mappings fit: names in a list, the newest first, and
-- mappings numbered in the order of their creation. It counts the channels that were made, keeps
-- what was sent on each, and has a clock.
use slotbus.Base.{
  ℕ, suc, ◌<◌, ◌≤◌, ◌≡◌, refl, arith, List, [], ◌∷◌, Option, some, none, Text, true, false, ltb,
  text_eq, text_eq_refl, if◌then◌else◌, length, Bool-cases, inl, inr, lt→ltb,
}
use slotbus.Os.{Os, IsOs, Created, created, mapping_id_exists, Opened, opened, open_error, normal}
use slotbus.Transport.{Response}

pub record Mapping : Type 0 where
  pub ptr : ℕ
  pub size : ℕ

pub record Names : Type 0 where
  -- The names that are taken, with the lengths of their mappings.
  pub taken : List (Text × ℕ)
  pub channels : ℕ
  pub sent : ℕ → Option Response
  -- Nanoseconds.
  pub now : ℕ

abbrev pub lookup : Text → List (Text × ℕ) → Option Mapping
lookup name [] = none
lookup name ((n, size) ∷ rest) =
    let later = lookup name rest in
    if text_eq n name then some (record { ptr = length rest; size = size }) else later

abbrev create_in : Text → ℕ → Names → Option Mapping → Created Mapping × Names
create_in name size s (some m) = (mapping_id_exists, s)
create_in name size s none = (
  created (record { ptr = length s.taken; size = size }),
  record s { taken = (name, size) ∷ s.taken },
)

abbrev pub open_in : Names → Option Mapping → Opened Mapping × Names
open_in s (some m) = (opened m, s)
open_in s none = (open_error [], s)

abbrev pub machine : Os
machine = record {
  State = Names;
  Shmem = Mapping;
  as_ptr = λ m. m.ptr;
  size_of = λ m. m.size;
  create_map = λ name size s. create_in name size s (lookup name s.taken);
  open_map = λ name s. open_in s (lookup name s.taken);
  drop_map = λ m s. s;
  is_mapped = λ s p. ltb p (length s.taken);
  backing_file_dir = [];
  components = λ path. normal ∷ [];
  join = λ dir name. name;
  canonicalize = λ path s. none;
  parent = λ path. none;
  open_exclusive = λ path s. (false, s);
}

create_in_size :
    (name : Text) (size : ℕ) (s s' : Names) (h : Mapping) (o : Option Mapping)
    → create_in name size s o ≡ (created h, s')
    → size ≤ h.size
create_in_size name size s s' h (some m) e = absurd (ground arith)
create_in_size name size s s' h none e = ground arith

create_in_open :
    (name : Text) (size : ℕ) (s s' : Names) (h : Mapping) (o : Option Mapping)
    → create_in name size s o ≡ (created h, s')
    → (g : Mapping) × (s'' : Names) × (open_in s' (lookup name s'.taken) ≡ (opened g, s''))
      × (g.ptr ≡ h.ptr)
      × (g.size ≡ h.size)
create_in_open name size s s' h (some m) e = absurd (ground arith)
create_in_open name size s s' h none e = (h, s', found, refl, refl)
  where
    made : h ≡ record { ptr = length s.taken; size = size }
    made = ground arith

    last : s' ≡ record s { taken = (name, size) ∷ s.taken }
    last = ground arith

    found : open_in s' (lookup name s'.taken) ≡ (opened h, s')
    found = rw (last, made, text_eq_refl name)

create_in_fresh :
    (name : Text) (size : ℕ) (s s' : Names) (h : Mapping) (o : Option Mapping)
    → create_in name size s o ≡ (created h, s')
    → ltb h.ptr (length s.taken) ≡ false
create_in_fresh name size s s' h (some m) e = absurd (ground arith)
create_in_fresh name size s s' h none e = ground arith

create_in_maps :
    (name : Text) (size : ℕ) (s s' : Names) (h : Mapping) (o : Option Mapping)
    → create_in name size s o ≡ (created h, s')
    → ltb h.ptr (length s'.taken) ≡ true
create_in_maps name size s s' h (some m) e = absurd (ground arith)
create_in_maps name size s s' h none e =
    let made : h ≡ record { ptr = length s.taken; size = size } = ground arith in
    let last : s' ≡ record s { taken = (name, size) ∷ s.taken } = ground arith in
    rw (made, last) (lt→ltb (length s.taken) (suc (length s.taken)) (omega arith))

create_in_keeps :
    (name : Text) (size p : ℕ) (s : Names) (o : Option Mapping)
    → ltb p (length s.taken) ≡ true
    → ltb p (length (create_in name size s o).1.taken) ≡ true
create_in_keeps name size p s (some m) e = e
create_in_keeps name size p s none e = ground arith

pub machine-IsOs : IsOs machine
machine-IsOs = record {
  create-size = λ name size s s' h. create_in_size name size s s' h (lookup name s.taken);
  create-open = λ name size s s' h. create_in_open name size s s' h (lookup name s.taken);
  create-fresh = λ name size s s' h. create_in_fresh name size s s' h (lookup name s.taken);
  create-keeps = λ name size p s. create_in_keeps name size p s (lookup name s.taken);
  create-maps = λ name size s s' h. create_in_maps name size s s' h (lookup name s.taken);
  open_exclusive-keeps = λ path p s e. e;
}

-- A mapping that is found was made.
pub lookup_below :
    (name : Text) (taken : List (Text × ℕ)) (m : Mapping)
    → lookup name taken ≡ some m
    → m.ptr < length taken
lookup_below name [] m e = absurd (ground arith)
lookup_below name ((n, size) ∷ rest) m e = elim (Bool-cases (text_eq n name)) [
  | inl same ↦
      let found : some (record { ptr = length rest; size = size }) ≡ some m = rw same at e in
      ground arith
  | inr other ↦ let below = lookup_below name rest m (rw other at e) in omega (arith, below)
]

pub open_in_below :
    (name : Text) (s s' : Names) (h : Mapping) (x : Option Mapping)
    → ((m : Mapping) → x ≡ some m → m.ptr < length s.taken)
    → open_in s x ≡ (opened h, s')
    → ltb h.ptr (length s'.taken) ≡ true
open_in_below name s s' h none below e = absurd (ground arith)
open_in_below name s s' h (some m) below e =
    let same : m ≡ h = ground arith in
    let last : s ≡ s' = ground arith in
    rw (← same, ← last) (lt→ltb m.ptr (length s.taken) (below m refl))
