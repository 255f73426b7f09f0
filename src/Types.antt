-- ===== src/Types.antt =====
-- slotbus/src/types.rs: the constants of the shared layout, the overflow marker, the method codes,
-- the layout of the control region, the arenas of the slots, and the metadata records. The byte
-- layout of `ShmHeader` and `SlotMeta` is in `Types.Layout`.
pub mod Arenas
pub mod Codes
pub mod Layout
use slotbus.Base.{
  ℕ, ◌+◌, ◌-◌, ◌/◌, Bool, List, Option, none, some, if◌then◌else◌, ltb, ◌==◌, Text, ascii, text_eq,
  add_usize, mul_usize, saturating_sub, clear_low3,
}

abbrev pub shm_magic : ℕ
shm_magic = 0x534C4231

abbrev pub shm_version : ℕ
shm_version = 2

abbrev pub slot_meta_size : ℕ
slot_meta_size = 128

abbrev pub shm_header_size : ℕ
shm_header_size = 64

abbrev pub slot_free : ℕ
slot_free = 0

abbrev pub slot_ready : ℕ
slot_ready = 1

abbrev pub slot_claimed : ℕ
slot_claimed = 2

abbrev pub slot_done : ℕ
slot_done = 3

abbrev pub slot_writing : ℕ
slot_writing = 4

abbrev pub overflow_inline : ℕ
overflow_inline = 0

abbrev pub max_overflow_generation : ℕ
max_overflow_generation = 254

-- `marker.checked_sub(1)`
unfoldable pub overflow_generation : ℕ → Option ℕ
overflow_generation marker = if ltb marker 1 then none else some (marker - 1)

abbrev pub method_get : ℕ
method_get = 0

abbrev pub method_post : ℕ
method_post = 1

abbrev pub method_put : ℕ
method_put = 2

abbrev pub method_delete : ℕ
method_delete = 3

abbrev pub method_patch : ℕ
method_patch = 4

abbrev pub method_head : ℕ
method_head = 5

abbrev pub method_options : ℕ
method_options = 6

unfoldable pub method_to_u8 : Text → ℕ
method_to_u8 method =
    if text_eq method (ascii "GET")
    then method_get
    else if text_eq method (ascii "POST")
    then method_post
    else if text_eq method (ascii "PUT")
    then method_put
    else if text_eq method (ascii "DELETE")
    then method_delete
    else if text_eq method (ascii "PATCH")
    then method_patch
    else if text_eq method (ascii "HEAD")
    then method_head
    else if text_eq method (ascii "OPTIONS")
    then method_options
    else method_get

unfoldable pub u8_to_method : ℕ → Text
u8_to_method m =
    if m == method_get
    then ascii "GET"
    else if m == method_post
    then ascii "POST"
    else if m == method_put
    then ascii "PUT"
    else if m == method_delete
    then ascii "DELETE"
    else if m == method_patch
    then ascii "PATCH"
    else if m == method_head
    then ascii "HEAD"
    else if m == method_options
    then ascii "OPTIONS"
    else ascii "GET"

-- The heap's offset and size.
unfoldable pub compute_layout : ℕ → ℕ → ℕ × ℕ
compute_layout num_slots region_size =
    let heap_offset = add_usize shm_header_size (mul_usize num_slots slot_meta_size) in
    let heap_size = saturating_sub region_size heap_offset in (heap_offset, heap_size)

unfoldable pub arena_size : ℕ → ℕ → ℕ
arena_size num_slots heap_size = if num_slots == 0 then 0 else clear_low3 (heap_size / num_slots)

-- A span of the heap: its offset and its length.
pub record Span : Type 0 where
  pub offset : ℕ
  pub size : ℕ

-- The two halves of a slot's arena.
pub record Halves : Type 0 where
  pub request : Span
  pub response : Span

unfoldable pub slot_arenas : ℕ → ℕ → ℕ → Halves
slot_arenas slot_index num_slots heap_size =
    let arena = arena_size num_slots heap_size in
    let base = mul_usize slot_index arena in
    let half = clear_low3 (arena / 2) in
    record {
      request = record { offset = base; size = half };
      response = record { offset = add_usize base half; size = arena - half };
    }

unfoldable pub align8 : ℕ → ℕ
align8 n = clear_low3 (add_usize n 7)

pub record RequestMeta : Type 0 where
  pub path : Text
  pub route_pattern : Text
  pub path_params : List (Text × Text)
  pub query : Option Text
  pub headers : List (Text × Text)

pub record ResponseMeta : Type 0 where
  pub content_type : Text
  pub headers : List (Text × Text)
