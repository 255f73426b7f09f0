-- ===== src/Tests/Responses.antt =====
-- Responses in the slots of the fixture, and what they leave alone.
use slotbus.Base.{ℕ, ◌≡◌, ◌≤◌, refl, inl, arith, List, [], ◌∷◌, Option, none, ascii, length}
use slotbus.Error.{Outcome, ok}
use slotbus.Types.{method_post, slot_arenas as types_slot_arenas, arena_size, align8}
use slotbus.Config.OsName.{linux}
use slotbus.Os.{World}
use slotbus.Region.{ShmRegion, region_memory}
use slotbus.Region.Heap.{slot_arenas, inline_body_capacity, heap_write_checked, arena_body_offset}
use slotbus.Region.Payload.{place_payload}
use slotbus.Region.Requests.{write_request, set_status}
use slotbus.Region.Responses.{write_response, read_response}
use slotbus.Region.Responses.RoundTrip.{read_response-write_response}
use slotbus.Region.Isolation.{
  write_request_isolated, write_response_isolated, write_response_keeps_request,
}
use slotbus.Tests.Machine.{machine, machine-IsOs}
use slotbus.Tests.Fixture.{
  config, hub, worker, start, hub-IsControl, worker-Agrees, meta_bytes, response_meta,
  response_postcard,
}

abbrev body : List ℕ
body = 1 ∷ 2 ∷ 3 ∷ 4 ∷ []

abbrev wrote : Outcome (Option (ShmRegion machine)) × World machine
wrote = write_response linux hub 1 200 meta_bytes body config start

response_room : length meta_bytes ≤ (slot_arenas hub 1).response.size
unfolding slot_arenas types_slot_arenas arena_size
response_room = omega arith

body_room : length body ≤ inline_body_capacity hub (length meta_bytes)
unfolding inline_body_capacity slot_arenas types_slot_arenas arena_size align8
body_room = omega arith

wrote_ok : wrote ≡ (ok none, wrote.1)
unfolding write_response place_payload slot_arenas types_slot_arenas arena_size heap_write_checked
    arena_body_offset align8 set_status
wrote_ok = refl

read_response-write_response_example :
    (read_response linux worker response_postcard 1 config wrote.1).0
    ≡ ok (record { status = 200; meta = response_meta; body = body })
read_response-write_response_example =
    read_response-write_response machine-IsOs linux hub hub-IsControl 1 (omega arith) 200 meta_bytes
      body (omega arith) config start refl worker wrote.1 none response_postcard response_meta
      worker-Agrees (omega arith) (omega arith) refl wrote_ok

write_request_isolated_example :
    region_memory hub
      (write_request linux hub 1 (ascii "req-001") method_post meta_bytes body config start).1
      100
    ≡ 0
write_request_isolated_example =
    write_request_isolated hub hub-IsControl machine-IsOs linux 1 (omega arith) meta_bytes body
      (omega arith) config start refl (ascii "req-001") method_post 0 100 (omega arith)
      (λ e. ground arith) (inl (omega arith, omega arith))

write_response_keeps_request_example : region_memory hub wrote.1 200 ≡ 0
write_response_keeps_request_example =
    write_response_keeps_request hub hub-IsControl machine-IsOs linux 1 (omega arith) meta_bytes
      body (omega arith) config start refl 200 200 (inl (omega arith, omega arith))

write_response_isolated_example : region_memory hub wrote.1 100 ≡ 0
write_response_isolated_example =
    write_response_isolated hub hub-IsControl machine-IsOs linux 1 (omega arith) meta_bytes body
      (omega arith) config start refl 200 0 100 (omega arith) (λ e. ground arith)
      (inl (omega arith, omega arith))
