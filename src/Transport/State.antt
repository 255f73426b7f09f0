-- ===== src/Transport/State.antt =====
-- The invariant of a hub and of a worker, and the small steps that keep it.
use slotbus.Base.{ℕ, ◌≡◌, ◌≢◌, refl, Option, some, none, true, ◌==◌, put, Bool-cases, inl, inr}
use slotbus.Os.{Os, World}
use slotbus.Region.{ShmRegion}
use slotbus.Region.Requests.Steps.{IsControl}
use slotbus.Transport.{Runtime, Kept, drop_held, keep, replaced}
use slotbus.Transport.Hub.{Hub}
use slotbus.Transport.Worker.{Worker}
use slotbus.Transport.Laws.{IsRuntime}

module _ {o : Os} where
  -- No region that is kept is the mapping `p`.
  abbrev pub AllApart : ℕ → Kept o → Type 0
  AllApart p kept =
      (i : ℕ) (region : ShmRegion o) → kept i ≡ some region → o.as_ptr region.shmem ≢ p

  -- What both sides keep up: the control region is mapped, and no region that is kept is it.
  pub record Holds (region : ShmRegion o) (kept : Kept o) (w : World o) : Type 0 where
    pub control : IsControl region
    pub mapped : o.is_mapped w.state region.ptr ≡ true
    pub apart : AllApart region.ptr kept

  pub put-AllApart :
      (p i : ℕ) (new : Option (ShmRegion o)) (kept : Kept o)
      → ((region : ShmRegion o) → new ≡ some region → o.as_ptr region.shmem ≢ p)
      → AllApart p kept
      → AllApart p (put ◌==◌ i new kept)
  put-AllApart p i new kept ok all j region e = elim (Bool-cases (j == i)) [
    | inl same ↦ ok region (rw same at e)
    | inr other ↦ all j region (rw other at e)
  ]

  pub drop_held-memory :
      (x : Option (ShmRegion o)) (w : World o) → (drop_held x w).memory ≡ w.memory
  drop_held-memory none w = refl
  drop_held-memory (some region) w = refl

  pub replaced-none :
      (i : ℕ) (new : Option (ShmRegion o)) (kept : Kept o)
      → kept i ≡ none
      → replaced i new kept ≡ none
  replaced-none i none kept h = refl
  replaced-none i (some region) kept h = h

  pub keep-AllApart :
      (p i : ℕ) (new : Option (ShmRegion o)) (kept : Kept o)
      → ((region : ShmRegion o) → new ≡ some region → o.as_ptr region.shmem ≢ p)
      → AllApart p kept
      → AllApart p (keep i new kept)
  keep-AllApart p i none kept ok all = all
  keep-AllApart p i (some region) kept ok all = put-AllApart p i (some region) kept ok all

module _ {o : Os} (rt : Runtime o) (laws : IsRuntime rt) where
  pub drop_held_mapped :
      (x : Option (ShmRegion o)) (w : World o) (p : ℕ)
      → ((region : ShmRegion o) → x ≡ some region → o.as_ptr region.shmem ≢ p)
      → o.is_mapped w.state p ≡ true
      → o.is_mapped (drop_held x w).state p ≡ true
  drop_held_mapped none w p ok h = h
  drop_held_mapped (some region) w p ok h =
      laws.drop-keeps region.shmem w.state p (ok region refl) h

module _ {o : Os} (rt : Runtime o) where
  abbrev pub IsHub : Hub rt → Type 0
  IsHub h = Holds h.bus.region h.bus.overflow_regions h.world

  abbrev pub IsWorker : Worker rt → Type 0
  IsWorker k = Holds k.slots.region k.slots.overflow_regions k.world
