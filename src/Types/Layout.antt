-- ===== src/Types/Layout.antt =====
-- The C layout of `ShmHeader` and `SlotMeta` in slotbus/src/types.rs: where `#[repr(C)]` puts each
-- field. The writers of slotbus/src/region.rs use raw offsets; these are the readers' offsets.
use slotbus.Base.{ℕ, ◌+◌, ◌-◌, ◌*◌, ◌/◌, ◌≡◌, refl, List, [], ◌∷◌, max}
use slotbus.Types.{slot_meta_size, shm_header_size}

-- The size and the alignment of a field.
pub record Field : Type 0 where
  pub size : ℕ
  pub align : ℕ

abbrev field : ℕ → ℕ → Field
field size align = record { size = size; align = align }

abbrev round_up : ℕ → ℕ → ℕ
round_up n align = (n + (align - 1)) / align * align

-- The offset of each field, and the size of the struct at the end.
pub offsets : ℕ → ℕ → List Field → List ℕ
offsets at align [] = round_up at align ∷ []
offsets at align (f ∷ fs) =
    round_up at f.align ∷ offsets (round_up at f.align + f.size) (max align f.align) fs

pub shm_header : List Field
shm_header = field 4 4 ∷ field 4 4 ∷ field 4 4 ∷ field 4 4 ∷ field 4 4 ∷ field 4 4 ∷ field 40 1 ∷ []

pub slot_meta : List Field
slot_meta =
    field 4 4
    ∷ field 36 1
    ∷ field 1 1
    ∷ field 3 1
    ∷ field 4 4
    ∷ field 2 2
    ∷ field 2 2
    ∷ field 4 4
    ∷ field 4 4
    ∷ field 1 1
    ∷ field 3 1
    ∷ field 2 2
    ∷ field 2 2
    ∷ field 4 4
    ∷ field 2 2
    ∷ field 2 2
    ∷ field 4 4
    ∷ field 4 4
    ∷ field 1 1
    ∷ field 3 1
    ∷ field 40 1
    ∷ []

-- The raw offsets of the writers are the offsets of the fields, and the size is the asserted one.
shm_header-offsets : offsets 0 1 shm_header ≡ 0 ∷ 4 ∷ 8 ∷ 12 ∷ 16 ∷ 20 ∷ 24 ∷ shm_header_size ∷ []
unfolding offsets shm_header
shm_header-offsets = refl

slot_meta-offsets :
    offsets 0 1 slot_meta
    ≡ 0 ∷ 4 ∷ 40 ∷ 41 ∷ 44 ∷ 48 ∷ 50 ∷ 52 ∷ 56 ∷ 60 ∷ 61 ∷ 64 ∷ 66 ∷ 68 ∷ 72 ∷ 74 ∷ 76 ∷ 80 ∷ 84
      ∷ 85 ∷ 88 ∷ slot_meta_size ∷ []
unfolding offsets slot_meta
slot_meta-offsets = refl
