-- ===== src/Transport/Made.antt =====
-- A mapping that was created or opened: it is in use, its name opens it, and its table is empty when the
-- header is written.
use slotbus.Base.{
  ℕ, ◌+◌, ◌≤◌, ◌<◌, ◌≡◌, refl, sym, ap, ap₂, ◌∙◌, arith, Option, some, none, Text, true, leb, ltb,
  ◌&&◌, if◌then◌else◌,
}
use slotbus.Error.{Outcome, ok}
use slotbus.Memory.{Memory, fill, read_u32, write_u32, store}
use slotbus.Memory.Laws.{SameOn, read_u32-SameOn}
use slotbus.Types.{slot_free}
use slotbus.Config.OsName.{Target}
use slotbus.Os.{Os, IsOs, World, Opened, opened, open_error, M, pure, >>=-eq-ok}
use slotbus.Region.{
  ShmRegion, slot_address, fresh_region, create_or_open, create_exclusive, open_region,
}
use slotbus.Region.Control.{write_header}
use slotbus.Region.Overflow.Fresh.{Opens, create_exclusive-IsFresh}
use slotbus.Transport.{Runtime}
use slotbus.Transport.Laws.{IsRuntime}

write_header-SameOn :
    (m : Memory) (n ho hs a k : ℕ) → 24 ≤ a → SameOn m (write_header m n ho hs) a k
unfolding write_header write_u32 store
write_header-SameOn m n ho hs a k far x lo hi = ground arith

pub new_status :
    (m : Memory) (len n ho hs i : ℕ)
    → slot_address i + 4 ≤ len
    → read_u32 (write_header (fill m 0 0 len) n ho hs) (slot_address i) ≡ slot_free
unfolding fill read_u32
new_status m len n ho hs i inside =
    let same =
      read_u32-SameOn (fill m 0 0 len) (write_header (fill m 0 0 len) n ho hs) (slot_address i)
        (write_header-SameOn (fill m 0 0 len) n ho hs (slot_address i) 4 (omega arith)) in
    let zero_at = λ (x : ℕ) (lt : x < len).
      let both : (leb 0 x && ltb x (0 + len)) ≡ true = ground arith in
      ap (λ c. if c then 0 else m x) both in
    same
    ∙ rw
        (
          zero_at (slot_address i) (omega arith),
          zero_at (slot_address i + 1) (omega arith),
          zero_at (slot_address i + 2) (omega arith),
          zero_at (slot_address i + 3) (omega arith),
        )
        refl

module _ {o : Os} where
  -- A region that is mapped, and found by its name.
  pub record Made (name : Text) (reg : ShmRegion o) (w : World o) : Type 0 where
    pub used : o.is_mapped w.state reg.ptr ≡ true
    pub opens : Opens name reg w.state

  pub open_region-ok :
      (name : Text) (w w' : World o) (reg : ShmRegion o)
      → open_region name w ≡ (ok reg, w')
      → (h : o.Shmem) × (o.open_map name w.state ≡ (opened h, w'.state))
        × (reg ≡ fresh_region h name)
        × (w' ≡ record w { state = w'.state })
  unfolding open_region
  open_region-ok name w w' reg e = by_answer (o.open_map name w.state).0 refl
    where
      by_answer :
          (x : Opened o.Shmem)
          → (o.open_map name w.state).0 ≡ x
          → (h : o.Shmem) × (o.open_map name w.state ≡ (opened h, w'.state))
            × (reg ≡ fresh_region h name)
            × (w' ≡ record w { state = w'.state })
      by_answer (open_error t) found = absurd (ground arith)
      by_answer (opened h) found =
          let e' = rw (found, open_region) at e in
          let last : record w { state = (o.open_map name w.state).1 } ≡ w' =
            ap (λ (z : Outcome (ShmRegion o) × World o). z.1) e' in
          (
            h,
            ap₂ (λ (x : Opened o.Shmem) (v : World o). (x, v.state)) found last,
            ground arith,
            rw (← last),
          )

module _ {o : Os} (os : IsOs o) (rt : Runtime o) (laws : IsRuntime rt) where
  open_region-Made :
      (name : Text) (w w' : World o) (reg : ShmRegion o)
      → open_region name w ≡ (ok reg, w')
      → Made name reg w'
  open_region-Made name w w' reg e =
      let (h, found, built, last) = open_region-ok name w w' reg e in
      let (g, again, ptr, len) =
        (laws.open-Quiet name w.state).names name h
          (ap (λ (x : Opened o.Shmem × o.State). x.0) found) in
      let again' : (o.open_map name w'.state).0 ≡ opened g =
        ap (λ (x : Opened o.Shmem × o.State). (o.open_map name x.1).0) (sym found) ∙ again in
      rw built (record {
        used = laws.open-maps name w.state w'.state h found;
        opens = record {
          handle = g;
          after = (o.open_map name w'.state).1;
          open_lem = ap (λ (x : Opened o.Shmem). (x, (o.open_map name w'.state).1)) again';
          same_ptr = ptr;
          same_len = len;
        };
      })

  pub create_or_open-Made :
      (target : Target) (name : Text) (size : ℕ) (w w' : World o) (reg : ShmRegion o)
      → create_or_open target name size w ≡ (ok reg, w')
      → Made name reg w'
  unfolding create_or_open
  create_or_open-Made target name size w w' reg e =
      let (made, v, first, rest) = >>=-eq-ok (create_exclusive target name size) _ reg w w' e in
      by_maker made v first rest
    where
      by_maker :
          (made : Option (ShmRegion o)) (v : World o)
          → create_exclusive target name size w ≡ (ok made, v)
          → (elim made as (λ x. M (World o) (ShmRegion o)) [
            | some region ↦ pure region
            | none ↦ open_region name
          ])
              v
            ≡ (ok reg, w')
          → Made name reg w'
      by_maker none v first rest = open_region-Made name v w' reg rest
      by_maker (some made) v first rest =
          let same : made ≡ reg = ground arith in
          let last : v ≡ w' = ap (λ (z : Outcome (ShmRegion o) × World o). z.1) rest in
          let fresh = create_exclusive-IsFresh os target name size w v made first in
          rw (← same, ← last) (record { used = fresh.used; opens = fresh.opens })
