-- ===== src/Error.antt =====
-- slotbus/src/error.rs: the errors. The text that the source formats into an error is a `Message`,
-- with one constructor for each format string and the values that it shows.
use slotbus.Base.{ℕ, Text}

pub data Message : Type 0 where
  create_failed : (name cause : Text) → Message
  open_failed : (name cause : Text) → Message
  heap_read_out_of_bounds : (offset len heap_size : ℕ) → Message
  heap_write_out_of_bounds : (offset len heap_size base : ℕ) → Message
  mapping_too_small : (name : Text) (len needed num_slots region_size : ℕ) → Message
  bad_magic : (found : ℕ) → Message
  bad_version : (found : ℕ) → Message
  layout_too_large : (name : Text) (len heap_offset heap_size : ℕ) → Message
  overflow_exists : (name : Text) (need : ℕ) → Message
  generations_exhausted : (last_name : Text) (need : ℕ) → Message
  overflow_write_too_small : (name : Text) (need have : ℕ) → Message
  overflow_read_too_small : (name : Text) (need have : ℕ) → Message
  request_index_out_of_range : (slot_index num_slots : ℕ) → Message
  response_index_out_of_range : (slot_index num_slots : ℕ) → Message
  request_meta_full : (need holds : ℕ) → Message
  response_meta_full : (need holds : ℕ) → Message
  create_event_failed : (name : Text) → Message
  open_event_failed : (name : Text) → Message
  sem_create_failed : (name errno : Text) → Message
  sem_open_failed : (name : Text) → Message
  -- The position of a zero byte, as `NulError` shows it.
  invalid_event_name : (position : ℕ) → Message

pub data SlotBusError : Type 0 where
  shared_memory : Message → SlotBusError
  event : Message → SlotBusError
  invalid_region : Message → SlotBusError
  no_free_slots : ℕ → SlotBusError
  serialization : Text → SlotBusError
  timeout : ℕ → SlotBusError
  bad_slot_state : (expected found : ℕ) → SlotBusError
  cas_failed : (slot expected found : ℕ) → SlotBusError
  receive_loop_stopped : SlotBusError

-- `Result<A, SlotBusError>`, and the third way in which a Rust function ends: it panics.
pub data Outcome (A : Type 0) : Type 0 where
  ok : A → Outcome A
  err : SlotBusError → Outcome A
  panicked : Outcome A

abbrev pub map_ok : {A B : Type 0} → (A → B) → Outcome A → Outcome B
map_ok f (ok a) = ok (f a)
map_ok f (err e) = err e
map_ok f panicked = panicked
