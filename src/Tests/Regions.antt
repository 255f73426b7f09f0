-- ===== src/Tests/Regions.antt =====
-- Control regions, heaps, slot tables and overflow regions at the fixture.
use slotbus.Base.{
  ℕ, decimal, ◌+◌, ◌≡◌, ◌≤◌, refl, arith, [], ◌∷◌, Option, some, none, ascii, replicate,
  if◌then◌else◌, ◌==◌, ◌<◌,
}
use slotbus.Error.{Outcome, ok}
use slotbus.Memory.{read_u32, write_u32}
use slotbus.Types.{slot_free, slot_writing, shm_magic, shm_version}
use slotbus.Config.{request_overflow_name_gen, overflow_name}
use slotbus.Config.OsName.{linux, sanitize_os_name}
use slotbus.Os.{World}
use slotbus.Region.{ShmRegion, region_memory, create_exclusive, try_create_exclusive}
use slotbus.Region.Control.{init_control, validate_control}
use slotbus.Region.Control.Handshake.{
  laid_out, validate_control-init_control, validate_control_sound,
}
use slotbus.Region.Slots.{load_status, claim_free_slot, find_free_slot}
use slotbus.Region.Slots.Claim.{find_free_slot-claim_free_slot, claim_free_slot-some}
use slotbus.Region.Overflow.{create_overflow_fresh, fill_overflow, overflow_size_for}
use slotbus.Region.Overflow.Spill.{Spills, create_overflow_fresh-Spills}
use slotbus.Region.{set_memory}
use slotbus.Region.Allocation.{alloc_heap}
use slotbus.Tests.Machine.{machine, machine-IsOs}
use slotbus.Tests.Fixture.{config, raw, hub, start}

validate_control-init_control_example :
    let w' = (init_control raw config start).1 in
    ((init_control raw config start).0 ≡ ok (laid_out raw config))
    × (validate_control raw w' ≡ (ok (laid_out raw config), w'))
validate_control-init_control_example =
    validate_control-init_control raw raw config start (omega arith, omega arith) (omega arith) refl
      refl

abbrev short : ShmRegion machine
short = record raw { len = 300 }

-- The bytes that the hub leaves in the header of the fixture's region.
abbrev header_byte : ℕ → ℕ
header_byte x =
    if x == 0
    then 49
    else if x == 1
    then 66
    else if x == 2
    then 76
    else if x == 3
    then 83
    else if x == 4
    then 2
    else if x == 8
    then 2
    else if x == 12
    then 64
    else if x == 13
    then 1
    else if x == 16
    then 192
    else 0

abbrev headed : World machine
headed = record start { memory = λ p x. header_byte x }

validated : validate_control raw headed ≡ (ok hub, headed)
unfolding validate_control read_u32
validated = refl

validate_control_sound_example :
    (read_u32 (region_memory raw headed) 0 ≡ shm_magic)
    × (read_u32 (region_memory raw headed) 4 ≡ shm_version)
    × (hub.heap_offset + hub.heap_size ≤ hub.len)
    × (hub.ptr ≡ raw.ptr)
    × (headed ≡ headed)
validate_control_sound_example =
    validate_control_sound raw hub headed headed (λ x. ground arith) validated

abbrev once : Option ℕ × World machine
once = claim_free_slot hub start

abbrev twice : Option ℕ × World machine
twice = claim_free_slot hub once.1

abbrev thrice : Option ℕ × World machine
thrice = claim_free_slot hub twice.1

once_ok : once ≡ (some 0, once.1)
unfolding claim_free_slot read_u32
once_ok = refl

twice_ok : twice ≡ (some 1, twice.1)
unfolding claim_free_slot read_u32 write_u32
twice_ok = refl

thrice_ok : thrice.0 ≡ none
unfolding claim_free_slot read_u32 write_u32
thrice_ok = refl

slot_1_free : load_status hub 1 start ≡ slot_free
unfolding load_status read_u32
slot_1_free = refl

abbrev spilled : Outcome (ShmRegion machine × ℕ) × World machine
spilled =
    create_overflow_fresh linux (request_overflow_name_gen linux config 1) (replicate 5000 7) start

abbrev overflow : ShmRegion machine
overflow = record {
  shmem = record { ptr = 1; size = 8192 };
  ptr = 1;
  len = 8192;
  name = ascii "slotbus-w-req-1";
  num_slots = 0;
  heap_offset = 0;
  heap_size = 0;
}

spilled_ok : spilled ≡ (ok (overflow, 1), spilled.1)
unfolding create_overflow_fresh request_overflow_name_gen sanitize_os_name create_exclusive
    try_create_exclusive overflow_name fill_overflow overflow_size_for decimal
spilled_ok = refl

create_overflow_fresh-Spills_example :
    Spills (request_overflow_name_gen linux config 1) (replicate 5000 7) 0 overflow 1 spilled.1
create_overflow_fresh-Spills_example =
    create_overflow_fresh-Spills machine-IsOs linux (request_overflow_name_gen linux config 1)
      (replicate 5000 7) (omega arith) start spilled.1 overflow 1 0 refl spilled_ok

-- Another thread takes eight bytes between the load and the exchange of the first round.
abbrev raced : Option ℕ × World machine
raced =
    alloc_heap hub 20 ((λ w. set_memory hub (write_u32 (region_memory hub w) 20 8) w) ∷ []) start

refused_ok : (alloc_heap hub 200 [] start).0 ≡ none
unfolding alloc_heap read_u32
refused_ok = refl

find_free_slot-claim_free_slot_example : find_free_slot hub start ≡ (claim_free_slot hub start).0
find_free_slot-claim_free_slot_example = find_free_slot-claim_free_slot hub start

claim_free_slot-some_example :
    (1 < hub.num_slots)
    × (load_status hub 1 once.1 ≡ slot_free)
    × (load_status hub 1 twice.1 ≡ slot_writing)
    × (load_status hub 0 twice.1 ≡ load_status hub 0 once.1)
claim_free_slot-some_example =
    claim_free_slot-some hub once.1 twice.1 1 0 twice_ok (λ e. ground arith)
