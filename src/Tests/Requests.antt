-- ===== src/Tests/Requests.antt =====
-- Requests in the slots of the fixture.
use slotbus.Base.{ℕ, ◌≡◌, refl, arith, List, [], ◌∷◌, Option, none, ascii, length, ◌≤◌}
use slotbus.Error.{Outcome, ok, err, invalid_region, request_index_out_of_range}
use slotbus.Types.{method_post, slot_free, slot_arenas as types_slot_arenas, arena_size, align8}
use slotbus.Config.OsName.{linux}
use slotbus.Os.{World}
use slotbus.Region.{ShmRegion, region_memory}
use slotbus.Memory.{read_u32}
use slotbus.Region.Heap.{slot_arenas, inline_body_capacity, heap_write_checked, arena_body_offset}
use slotbus.Region.Payload.{place_payload}
use slotbus.Region.Slots.{load_status}
use slotbus.Region.Requests.{write_request, read_request, set_status}
use slotbus.Region.Requests.RoundTrip.{read_request-write_request}
use slotbus.Region.Requests.Effects.{settled, write_request-settled}
use slotbus.Region.Requests.Refused.{write_request_past_table}
use slotbus.Tests.Machine.{machine, machine-IsOs}
use slotbus.Tests.Fixture.{
  config, hub, worker, start, hub-IsControl, worker-Agrees, request_meta, meta_bytes, postcard,
}

abbrev body : List ℕ
body = 1 ∷ 2 ∷ 3 ∷ 4 ∷ []

half_room : length meta_bytes ≤ (slot_arenas hub 1).request.size
unfolding slot_arenas types_slot_arenas arena_size
half_room = omega arith

body_room : length body ≤ inline_body_capacity hub (length meta_bytes)
unfolding inline_body_capacity slot_arenas types_slot_arenas arena_size align8
body_room = omega arith

abbrev wrote : Outcome (Option (ShmRegion machine)) × World machine
wrote = write_request linux hub 1 (ascii "req-001") method_post meta_bytes body config start

wrote_ok : wrote ≡ (ok none, wrote.1)
unfolding write_request place_payload slot_arenas types_slot_arenas arena_size heap_write_checked
    arena_body_offset align8 set_status
wrote_ok = refl

read_request-write_request_example :
    (read_request linux worker postcard 1 config wrote.1).0
    ≡ ok (record {
      req_id = ascii "req-001";
      method = method_post;
      meta = request_meta;
      body = body;
    })
read_request-write_request_example =
    read_request-write_request machine-IsOs linux hub hub-IsControl 1 (omega arith)
      (ascii "req-001") method_post meta_bytes body (omega arith) config start refl worker wrote.1
      none postcard request_meta worker-Agrees (omega arith) (omega arith) refl wrote_ok

write_request-settled_example : load_status hub 1 wrote.1 ≡ settled wrote.0 slot_free
unfolding load_status read_u32
write_request-settled_example =
    write_request-settled machine-IsOs linux hub hub-IsControl 1 (omega arith) (ascii "req-001")
      method_post meta_bytes body (omega arith) config start refl

write_request_past_table_example :
    let past =
      write_request linux hub 2 (ascii "req-001") method_post meta_bytes body config start in
    (past.0 ≡ err (invalid_region (request_index_out_of_range 2 2)))
    × (region_memory hub past.1 323 ≡ 0)
write_request_past_table_example =
    write_request_past_table linux hub hub-IsControl (ascii "req-001") method_post meta_bytes body
      config start 323 (omega arith) (omega arith)
