-- ===== src/Tests/Delivered.antt =====
-- A whole exchange on the region of the fixture, and one whose response comes too early.
use slotbus.Base.{ℕ, ◌<◌, ◌≢◌, ◌≡◌, refl, arith, [], none, ascii}
use slotbus.Error.{Outcome, ok}
use slotbus.Memory.{read_u32, read_u16, write_u32, write_u16, load, fill}
use slotbus.Types.{
  overflow_generation, method_to_u8, slot_done, slot_free, slot_arenas as types_slot_arenas,
  arena_size, align8,
}
use slotbus.Region.Heap.{
  slot_arenas, inline_body_capacity, heap_read_checked, heap_write_checked, arena_body_offset,
}
use slotbus.Region.Payload.{place_payload, read_payload, read_body}
use slotbus.Region.Requests.{write_request, write_request_inner, set_status, read_req_id}
use slotbus.Region.Slots.{load_status, store_status, exchange_status, claim_free_slot}
use slotbus.Region.Responses.{read_response, write_response}
use slotbus.Region.Responses.Stored.{read_response-AnswerAt}
use slotbus.Transport.{request_of}
use slotbus.Transport.Hub as Hub
use slotbus.Transport.Hub.{
  Hub, dispatch, claim_slot, fill_slot, register, keep_overflow, take_response, settle, resolve,
  watch_slot, watch_from, watch_round, publish,
}
use slotbus.Transport.Worker as Worker
use slotbus.Transport.Worker.{
  Worker, receive_slot, send_response, write_answer, after_write, answered,
}
use slotbus.Transport.State.{IsWorker}
use slotbus.Transport.Served.{replies, Beside}
use slotbus.Transport.Trip.{Trip}
use slotbus.Transport.Total.{Inline}
use slotbus.Transport.Delivered.{dispatch-delivers}
use slotbus.Events.{signal, wait_timeout, timed_deadline}
use slotbus.Transport.Sweep.{watch_round-Swept}
use slotbus.Transport.Overtaken.{Lost, publish-watch_slot}
use slotbus.Tests.Machine.{machine-IsOs}
use slotbus.Tests.Fixture.{hub, worker, start}
use slotbus.Tests.Runtime.{
  runtime, runtime-IsRuntime, request_code-IsPostcard, response_code-IsPostcard, path_meta,
  type_meta,
}
use slotbus.Tests.Transport.{bus, bus-IsHub, idle, body, echo, request_fits, response_fits, answer}
use slotbus.Tests.Watch.{waiting, written, done, same_id, worker_Agrees}

-- The worker of the fixture in the world of the hub.
abbrev pub beside : Worker runtime
beside = record idle { world = start }

pub beside-IsWorker : IsWorker runtime beside
beside-IsWorker = record {
  control = record { table = refl; small = omega arith };
  mapped = refl;
  apart = λ i region e. absurd (ground arith);
}

pub bus-Beside : Beside runtime bus beside
bus-Beside = record {
  agrees = record { ptr = refl; num_slots = refl; heap_offset = refl; heap_size = refl };
  config = refl;
  world = refl;
}

pub first_free : load_status hub 0 start ≡ slot_free
unfolding load_status read_u32
first_free = refl

pub request-Inline : Inline hub (ascii "/a") body
unfolding slot_arenas types_slot_arenas arena_size align8 inline_body_capacity
request-Inline = record { half = omega arith; room = omega arith }

response-Inline : Inline hub (ascii "b") body
unfolding slot_arenas types_slot_arenas arena_size align8 inline_body_capacity
response-Inline = record { half = omega arith; room = omega arith }

dispatch-delivers_example :
    (rx : ℕ) × (h1 : Hub runtime) × (i : ℕ) × (k' : Worker runtime) × (h' : Hub runtime) × (dispatch
        runtime
        (ascii "r1")
        (ascii "GET")
        (path_meta (ascii "/a"))
        body
        bus
      ≡ (ok rx, h1))
    × (receive_slot runtime (replies runtime echo) i (record beside { world = h1.world })
        ≡ (ok tt, k'))
    × (watch_slot runtime i (record h1 { world = k'.world }) ≡ (ok tt, h'))
    × Trip machine-IsOs runtime runtime-IsRuntime request_code-IsPostcard bus i
        (ascii "r1")
        rx
        (record { status = 200; body = body; content_type = ascii "b"; headers = [] })
        h'
unfolding request_of
dispatch-delivers_example =
    dispatch-delivers machine-IsOs runtime runtime-IsRuntime request_code-IsPostcard echo bus beside
      (ascii "r1") (ascii "GET") (path_meta (ascii "/a")) body (ascii "/a") (ascii "b") 0 bus-IsHub
      beside-IsWorker bus-Beside (omega arith) first_free request_fits refl request-Inline
      response_code-IsPostcard (response_fits body (omega arith)) refl response-Inline

-- The hub when the worker has answered, and `dispatch` has not come to register the request.
abbrev early : Hub runtime
early = record bus { world = answer.1.world }

readable :
    (read_response runtime.target hub runtime.response_code 0 early.bus.config early.world).0
    ≡ ok (record { status = 200; meta = type_meta (ascii "b"); body = body })
readable =
    read_response-AnswerAt worker 0 runtime.target hub early.bus.config 200 written.meta_bytes body
      early.world runtime.response_code (type_meta (ascii "b")) (omega arith) worker_Agrees
      (omega arith)
      (written.answers.stored
        ((response_fits body (omega arith)).meta_len written.meta_bytes written.encoded))
      (response_code-IsPostcard (type_meta (ascii "b")) written.meta_bytes written.encoded)

publish-watch_slot_example :
    (h' h'' : Hub runtime) × (rx : ℕ) × (watch_slot runtime 0 early ≡ (ok tt, h'))
    × (publish runtime 0 (ascii "r1") (ascii "GET /a") none h' ≡ (ok rx, h''))
    × Lost runtime runtime-IsRuntime 0 (ascii "r1") h' h'' rx
publish-watch_slot_example =
    publish-watch_slot runtime runtime-IsRuntime 0 (ascii "r1") (ascii "GET /a")
      (record { status = 200; meta = type_meta (ascii "b"); body = body }) early done same_id
      readable refl

-- A round of the watcher when the worker has answered.
abbrev round : Outcome (Unit {0}) × Hub runtime
round = watch_round runtime waiting

round_ok : round ≡ (ok tt, round.1)
unfolding watch_round wait_timeout timed_deadline watch_from watch_slot take_response
    Hub.exchange_slot settle resolve Hub.forget_overflow exchange_status load_status store_status
    read_u32 read_u16 write_u32 write_u16 read_response read_payload read_body heap_read_checked
    overflow_generation load fill read_req_id dispatch claim_slot fill_slot publish register
    keep_overflow claim_free_slot write_request write_request_inner place_payload slot_arenas
    types_slot_arenas arena_size heap_write_checked arena_body_offset align8 set_status method_to_u8
    signal send_response Worker.forget_overflow write_answer after_write answered write_response
round_ok = refl

watch_round-Swept_example :
    ((j : ℕ) → j < 2 → load_status hub j round.1.world ≢ slot_done)
    × ((j : ℕ)
        → load_status hub j waiting.world ≢ slot_done
        → load_status hub j round.1.world ≡ load_status hub j waiting.world)
watch_round-Swept_example = watch_round-Swept runtime runtime-IsRuntime waiting round.1 round_ok
