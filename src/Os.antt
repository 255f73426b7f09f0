-- ===== src/Os.antt =====
-- What the crate takes from outside: the `shared_memory` crate and, on Windows, the paths and files
-- of the standard library that `reclaim_orphaned_backing_file` goes through. Neither is code of this
-- repository: `Os` has their operations, and `IsOs` what their documentation promises.
use slotbus.Base.{
  ℕ, ◌≤◌, ◌≡◌, refl, ap, ◌∙◌, arith, Text, Bool, true, false, Option, List, ◌⊎◌, inl, inr,
}
use slotbus.Error.{SlotBusError, Outcome, ok, err, panicked}
use slotbus.Memory.{Memory}

-- The answers of `ShmemConf::create` and `ShmemConf::open`; the text is that of another `ShmemError`.
pub data Created (Shmem : Type 0) : Type 0 where
  created : Shmem → Created Shmem
  mapping_id_exists : Created Shmem
  create_error : Text → Created Shmem

pub data Opened (Shmem : Type 0) : Type 0 where
  opened : Shmem → Opened Shmem
  open_error : Text → Opened Shmem

-- `std::path::Component`
pub data Component : Type 0 where
  prefix_component root_dir cur_dir parent_dir normal : Component

pub record Os : Type 1 where
  pub State : Type 0
  pub Shmem : Type 0
  -- The mapping that a handle stands for; two handles on one mapping, also of two processes, have
  -- the same number here.
  pub as_ptr : Shmem → ℕ
  pub size_of : Shmem → ℕ
  pub create_map : Text → ℕ → State → Created Shmem × State
  pub open_map : Text → State → Opened Shmem × State
  pub drop_map : Shmem → State → State
  -- Some process holds a handle on the mapping.
  pub is_mapped : State → ℕ → Bool
  -- Windows only.
  pub backing_file_dir : Text
  pub components : Text → List Component
  pub join : Text → Text → Text
  pub canonicalize : Text → State → Option Text
  pub parent : Text → Option Text
  -- Open with no sharing and DELETE_ON_CLOSE, then close: whether that went well.
  pub open_exclusive : Text → State → Bool × State

-- A new mapping is at least as long as was asked for, can be opened by its name, is in use, and is none
-- that was in use before; what was in use stays so.
pub record IsOs (o : Os) : Type 0 where
  pub create-size :
      (name : Text) (size : ℕ) (s s' : o.State) (h : o.Shmem)
      → o.create_map name size s ≡ (created h, s')
      → size ≤ o.size_of h
  pub create-open :
      (name : Text) (size : ℕ) (s s' : o.State) (h : o.Shmem)
      → o.create_map name size s ≡ (created h, s')
      → (g : o.Shmem) × (s'' : o.State) × (o.open_map name s' ≡ (opened g, s''))
        × (o.as_ptr g ≡ o.as_ptr h)
        × (o.size_of g ≡ o.size_of h)
  pub create-fresh :
      (name : Text) (size : ℕ) (s s' : o.State) (h : o.Shmem)
      → o.create_map name size s ≡ (created h, s')
      → o.is_mapped s (o.as_ptr h) ≡ false
  pub create-keeps :
      (name : Text) (size p : ℕ) (s : o.State)
      → o.is_mapped s p ≡ true
      → o.is_mapped (o.create_map name size s).1 p ≡ true
  pub create-maps :
      (name : Text) (size : ℕ) (s s' : o.State) (h : o.Shmem)
      → o.create_map name size s ≡ (created h, s')
      → o.is_mapped s' (o.as_ptr h) ≡ true
  pub open_exclusive-keeps :
      (path : Text) (p : ℕ) (s : o.State)
      → o.is_mapped s p ≡ true
      → o.is_mapped (o.open_exclusive path s).1 p ≡ true

-- The state that all processes share: that of the operating system, and the bytes of each mapping.
pub record World (o : Os) : Type 0 where
  pub state : o.State
  pub memory : ℕ → Memory

-- A fallible step on the shared state. What it did before it failed stays done.
abbrev pub M : Type 0 → Type 0 → Type 0
M W A = W → Outcome A × W

-- The rest of a chain goes on from a good result only.
abbrev pub continue : {W A B : Type 0} → Outcome A × W → (A → M W B) → Outcome B × W
continue (ok a, w) f = f a w
continue (err e, w) f = (err e, w)
continue (panicked, w) f = (panicked, w)

infixl 5 ◌>>=◌ ◌>>◌
abbrev pub ◌>>=◌ : {W A B : Type 0} → M W A → (A → M W B) → M W B
◌>>=◌ m f w = continue (m w) f

abbrev pub ◌>>◌ : {W B : Type 0} → M W (Unit {0}) → M W B → M W B
m >> k = m >>= λ _. k

abbrev pub pure : {W A : Type 0} → A → M W A
pure a w = (ok a, w)

abbrev pub fail : {W A : Type 0} → SlotBusError → M W A
fail e w = (err e, w)

-- A result that needs no state.
abbrev pub lift : {W A : Type 0} → Outcome A → M W A
lift r w = (r, w)

-- What goes out of scope on the way out of an error or a panic is dropped.
abbrev pub cleanup : {W A : Type 0} → (W → W) → Outcome A × W → Outcome A × W
cleanup drop (ok a, w) = (ok a, w)
cleanup drop (err e, w) = (err e, drop w)
cleanup drop (panicked, w) = (panicked, drop w)

abbrev pub unwind : {W A : Type 0} → (W → W) → M W A → M W A
unwind drop m w = cleanup drop (m w)

-- A step that changes the state alone, and one that gives a value of it.
abbrev pub update : {W : Type 0} → (W → W) → M W (Unit {0})
update f w = (ok tt, f w)

abbrev pub get : {W A : Type 0} → (W → A) → M W A
get f w = (ok (f w), w)

-- `match` on a result: the error is a value, and a panic goes on.
abbrev caught : {W A : Type 0} → Outcome A × W → Outcome (SlotBusError ⊎ A) × W
caught (ok a, w) = (ok (inr a), w)
caught (err e, w) = (ok (inl e), w)
caught (panicked, w) = (panicked, w)

abbrev pub attempt : {W A : Type 0} → M W A → M W (SlotBusError ⊎ A)
attempt m w = caught (m w)

-- The state behind an attempt is that of the step.
pub attempt-state : {W A : Type 0} (r : Outcome A) (w w' : W) → (attempt (λ v. (r, w')) w).1 ≡ w'
attempt-state (ok a) w w' = refl
attempt-state (err e) w w' = refl
attempt-state panicked w w' = refl

-- A step that comes out well hands on its result and its state.
pub >>=-ok :
    {W A B : Type 0} (m : M W A) (f : A → M W B) (a : A) (w w' : W)
    → m w ≡ (ok a, w')
    → (m >>= f) w ≡ f a w'
>>=-ok m f a w w' e = rw e

-- Inversion of a chain that came out well.
pub >>=-eq-ok :
    {W A B : Type 0} (m : M W A) (f : A → M W B) (b : B) (w w'' : W)
    → (m >>= f) w ≡ (ok b, w'')
    → (a : A) × (w' : W) × (m w ≡ (ok a, w')) × (f a w' ≡ (ok b, w''))
>>=-eq-ok {W = W} {A = A} {B = B} m f b w w'' h = by_outcome (m w) refl
  where
    by_outcome :
        (r : Outcome A × W)
        → m w ≡ r
        → (a : A) × (w' : W) × (m w ≡ (ok a, w')) × (f a w' ≡ (ok b, w''))
    by_outcome (ok a, w') e = (a, w', e, rw e at h)
    by_outcome (err x, w') e = absurd (ground arith)
    by_outcome (panicked, w') e = absurd (ground arith)

-- A step that has nothing to clean up.
pub unwind-ok :
    {W A : Type 0} (drop : W → W) (m : M W A) (a : A) (w w' : W)
    → unwind drop m w ≡ (ok a, w')
    → m w ≡ (ok a, w')
unwind-ok {W = W} {A = A} drop m a w w' h = by_outcome (m w) refl
  where
    by_outcome : (r : Outcome A × W) → m w ≡ r → m w ≡ (ok a, w')
    by_outcome (ok b, v) e = e ∙ rw e at h
    by_outcome (err x, v) e =
        let last : cleanup {A = A} drop (err x, v) ≡ (ok a, w') = rw e at h in absurd (ground arith)
    by_outcome (panicked, v) e =
        let last : cleanup {A = A} drop (panicked, v) ≡ (ok a, w') = rw e at h in
        absurd (ground arith)

-- Inversion of a chain that came out badly: the first step did, or what follows it.
pub >>=-eq-err :
    {W A B : Type 0} (m : M W A) (f : A → M W B) (x : SlotBusError) (w w'' : W)
    → (m >>= f) w ≡ (err x, w'')
    → (m w ≡ (err x, w'')) ⊎ ((a : A) × (w' : W) × (m w ≡ (ok a, w')) × (f a w' ≡ (err x, w'')))
>>=-eq-err {W = W} {A = A} {B = B} m f x w w'' h = by_outcome (m w) refl
  where
    by_outcome :
        (r : Outcome A × W)
        → m w ≡ r
        → (m w ≡ (err x, w'')) ⊎ ((a : A) × (w' : W) × (m w ≡ (ok a, w')) × (f a w' ≡ (err x, w'')))
    by_outcome (ok a, w') e = inr (a, w', e, rw e at h)
    by_outcome (err y, w') e =
        let last : continue {B = B} (err y, w') f ≡ (err x, w'') = rw e at h in
        let same : y ≡ x = ground arith in
        let after : w' ≡ w'' = ground arith in inl (e ∙ rw (same, after))
    by_outcome (panicked, w') e = absurd (ground arith)

-- A relation between the states before and after that every step of a chain respects.
pub >>=-respects :
    {W A B : Type 0} (R : W → W → Type 0) (m : M W A) (f : A → M W B) (w : W)
    → ((u v x : W) → R u v → R v x → R u x)
    → R w (m w).1
    → ((a : A) (v : W) → R v (f a v).1)
    → R w ((m >>= f) w).1
>>=-respects {W = W} {A = A} {B = B} R m f w trans first rest = by_outcome (m w) refl
  where
    by_outcome : (r : Outcome A × W) → m w ≡ r → R w ((m >>= f) w).1
    by_outcome (ok a, w') e =
        let start : R w w' = rw e at first in rw e (trans w w' _ start (rest a w'))
    by_outcome (err x, w') e = let start : R w w' = rw e at first in rw e start
    by_outcome (panicked, w') e = let start : R w w' = rw e at first in rw e start

-- The same, for the result alone.
pub >>=-ok_value :
    {W A B : Type 0} (m : M W A) (f : A → M W B) (a : A) (w : W)
    → (m w).0 ≡ ok a
    → (m >>= f) w ≡ f a (m w).1
>>=-ok_value {W = W} {A = A} m f a w e =
    >>=-ok m f a w (m w).1 (ap (λ (x : Outcome A). (x, (m w).1)) e)
