-- ===== src/Region.antt =====
-- slotbus/src/region.rs: the handle on a mapping, the names that are created or opened, and the
-- reclaim of a backing file that nobody uses. The children have the rest of the file.
pub mod Heap
pub mod Control
pub mod Overflow
pub mod Slots
pub mod Allocation
pub mod Payload
pub mod Calm
pub mod Requests
pub mod Responses
pub mod Isolation
use slotbus.Base.{
  ℕ, ◌+◌, ◌≡◌, Text, ascii, Bool, true, false, Option, none, some, List, [], ◌∷◌, if◌then◌else◌,
  ◌==◌, text_eq, ◌*◌,
}
use slotbus.Error.{
  SlotBusError, shared_memory, create_failed, open_failed, Outcome, ok, err, panicked,
}
use slotbus.Memory.{Memory}
use slotbus.Config.OsName.{Target, windows, linux, macos}
use slotbus.Types.{shm_header_size, slot_meta_size}
use slotbus.Os.{
  Os, World, M, ◌>>=◌, ◌>>◌, pure, fail, created, mapping_id_exists, create_error, opened,
  open_error, Component, normal,
}

pub record ShmRegion (o : Os) : Type 0 where
  pub shmem : o.Shmem
  pub ptr : ℕ
  pub len : ℕ
  pub name : Text
  pub num_slots : ℕ
  pub heap_offset : ℕ
  pub heap_size : ℕ

-- `name.trim_start_matches('/')`
abbrev trim_start : Text → Text
trim_start [] = []
trim_start (c ∷ cs) = let rest = trim_start cs in if c == b'/' then rest else c ∷ cs

-- The backing file of a name that is exactly one normal path component.
abbrev single_normal : List Component → Bool
single_normal (normal ∷ []) = true
single_normal _ = false

abbrev is_parent : Option Text → Text → Bool
is_parent none dir = false
is_parent (some p) dir = text_eq p dir

-- The address of a slot in its mapping.
abbrev pub slot_address : ℕ → ℕ
slot_address index = shm_header_size + index * slot_meta_size

unfoldable pub backing_file_path : Os → Text → Option Text
backing_file_path o name =
    if single_normal (o.components (trim_start name))
    then some (o.join o.backing_file_dir (trim_start name))
    else none

module _ {o : Os} where
  -- A handle on a mapping whose layout is not known yet.
  abbrev pub fresh_region : o.Shmem → Text → ShmRegion o
  fresh_region h name = record {
    shmem = h;
    ptr = o.as_ptr h;
    len = o.size_of h;
    name = name;
    num_slots = 0;
    heap_offset = 0;
    heap_size = 0;
  }

  abbrev pub region_memory : ShmRegion o → World o → Memory
  region_memory r w = w.memory r.ptr

  -- Change the bytes of the mapping.
  abbrev pub set_memory : ShmRegion o → Memory → World o → World o
  set_memory r m w = record w { memory = λ p. if p == r.ptr then m else w.memory p }

  unfoldable pub create : Text → ℕ → M (World o) (ShmRegion o)
  create name size w = elim (o.create_map name size w.state).0 [
    | created h ↦
        (ok (fresh_region h name), record w { state = (o.create_map name size w.state).1 })
    | mapping_id_exists ↦ (
      err (shared_memory (create_failed name (ascii "mapping id exists"))),
      record w { state = (o.create_map name size w.state).1 },
    )
    | create_error e ↦ (
      err (shared_memory (create_failed name e)),
      record w { state = (o.create_map name size w.state).1 },
    )
  ]

  unfoldable pub open_region : Text → M (World o) (ShmRegion o)
  open_region name w = elim (o.open_map name w.state).0 [
    | opened h ↦ (ok (fresh_region h name), record w { state = (o.open_map name w.state).1 })
    | open_error e ↦
        (err (shared_memory (open_failed name e)), record w { state = (o.open_map name w.state).1 })
  ]

  -- `Drop` of the handle that a region owns.
  unfoldable pub drop_region : ShmRegion o → M (World o) (Unit {0})
  drop_region r w = (ok tt, record w { state = o.drop_map r.shmem w.state })

  -- One attempt. `none`: the name is taken.
  unfoldable pub try_create_exclusive : Text → ℕ → M (World o) (Option (ShmRegion o))
  try_create_exclusive name size w = elim (o.create_map name size w.state).0 [
    | created h ↦
        (ok (some (fresh_region h name)), record w { state = (o.create_map name size w.state).1 })
    | mapping_id_exists ↦ (ok none, record w { state = (o.create_map name size w.state).1 })
    | create_error e ↦ (
      err (shared_memory (create_failed name e)),
      record w { state = (o.create_map name size w.state).1 },
    )
  ]

  -- The backing directory and the file, with links resolved, if both are there and the one is the
  -- parent of the other.
  unfoldable pub resolve_backing_file : Text → World o → Option Text
  resolve_backing_file path w = elim (o.canonicalize path w.state) [
    | none ↦ none
    | some resolved ↦ elim (o.canonicalize o.backing_file_dir w.state) [
      | none ↦ none
      | some dir ↦ if is_parent (o.parent resolved) dir then some resolved else none
    ]
  ]

  -- `reclaim_orphaned_backing_file` as it is on Windows.
  unfoldable pub reclaim_on_windows : Text → World o → Bool × World o
  reclaim_on_windows name w = elim (backing_file_path o name) [
    | none ↦ (false, w)
    | some path ↦ elim (resolve_backing_file path w) [
      | none ↦ (false, w)
      | some resolved ↦ (
        (o.open_exclusive resolved w.state).0,
        record w { state = (o.open_exclusive resolved w.state).1 },
      )
    ]
  ]

  unfoldable pub reclaim_orphaned_backing_file : Target → Text → World o → Bool × World o
  reclaim_orphaned_backing_file windows name w = reclaim_on_windows name w
  reclaim_orphaned_backing_file linux name w = (false, w)
  reclaim_orphaned_backing_file macos name w = (false, w)

  -- A second attempt follows a successful reclaim.
  unfoldable pub create_after_reclaim : Target → Text → ℕ → M (World o) (Option (ShmRegion o))
  unfolding reclaim_orphaned_backing_file
  create_after_reclaim target name size w = elim (reclaim_orphaned_backing_file target name w).0 [
    | true ↦ try_create_exclusive name size (reclaim_orphaned_backing_file target name w).1
    | false ↦ (ok none, (reclaim_orphaned_backing_file target name w).1)
  ]

  -- What `create_exclusive` does with its first attempt.
  unfoldable pub or_reclaim :
      Target → Text → ℕ → Option (ShmRegion o) → M (World o) (Option (ShmRegion o))
  or_reclaim target name size (some region) = pure (some region)
  or_reclaim target name size none = create_after_reclaim target name size

  unfoldable pub create_exclusive : Target → Text → ℕ → M (World o) (Option (ShmRegion o))
  unfolding or_reclaim
  create_exclusive target name size = try_create_exclusive name size >>= or_reclaim target name size

  unfoldable pub create_or_open : Target → Text → ℕ → M (World o) (ShmRegion o)
  create_or_open target name size =
      create_exclusive target name size
      >>= elim [ some region ↦ pure region | none ↦ open_region name ]
