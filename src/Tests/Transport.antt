-- ===== src/Tests/Transport.antt =====
-- A hub and a worker on the region of the fixture, a request, and its answer.
use native.Mathlib.Decide.{ℕ_discrete}
use slotbus.Base.{
  u32_mod, sym, ◌∙◌, ℕ, ◌≡◌, ◌<◌, refl, arith, List, [], ◌∷◌, none, ascii, true, false, length,
}
use slotbus.Error.{Outcome, ok}
use slotbus.Memory.{read_u32, write_u32, write_u16, read_u16, load, fill}
use slotbus.Types.{
  slot_arenas as types_slot_arenas, arena_size, align8, method_to_u8, overflow_generation,
}
use slotbus.Events.{posix, signal}
use slotbus.Region.Heap.{slot_arenas, heap_write_checked, arena_body_offset}
use slotbus.Region.Payload.{place_payload}
use slotbus.Region.Slots.{load_status, store_status, exchange_status, claim_free_slot}
use slotbus.Region.Requests.{write_request, write_request_inner, set_status}
use slotbus.Region.Payload.{read_payload, read_body}
use slotbus.Region.Responses.{write_response}
use slotbus.Region.Heap.{heap_read_checked}
use slotbus.Region.Requests.{read_request}
use slotbus.Transport.{Request, Response, request_of}
use slotbus.Transport.Hub.{
  Hub, watch_slot, dispatch, claim_slot, fill_slot, publish, register, keep_overflow,
  forget_overflow,
}
use slotbus.Transport.Worker as Worker
use slotbus.Transport.Worker.{
  Worker, receive_slot, take_request, handle, send_response, write_answer, after_write, answered,
}
use slotbus.Transport.Served.{replies, RequestFits, ResponseFits, Beside}
use slotbus.Transport.Trip.{Trip, watch_slot-receive_slot}
use slotbus.Region.Requests.Stored.{IsRequestId}
use slotbus.Transport.State.{IsHub, IsWorker}
use slotbus.Transport.Dispatch.{Dispatched, dispatch-Dispatched}
use slotbus.Transport.Receive.{Handed, receive_slot-Handed}
use slotbus.Transport.Respond.{Sent, send_response-Sent}
use slotbus.Tests.Machine.{machine-IsOs}
use slotbus.Tests.Fixture.{config, hub, worker, start, hub-IsControl, worker-Agrees}
use slotbus.Tests.Runtime.{
  runtime, runtime-IsRuntime, request_code-IsPostcard, response_code-IsPostcard, path_meta,
  type_meta,
}

abbrev pub bus : Hub runtime
bus = record {
  bus = record {
    config = config;
    region = hub;
    req_event = posix 0 (ascii "/q") true;
    rsp_event = posix 1 (ascii "/p") true;
    pending = λ k. none;
    overflow_regions = λ i. none;
    running = true;
  };
  world = start;
}

abbrev pub body : List ℕ
body = 1 ∷ 2 ∷ []

pub bus-IsHub : IsHub runtime bus
bus-IsHub = record {
  control = hub-IsControl;
  mapped = refl;
  apart = λ i region e. absurd (ground arith);
}

abbrev pub sent : Outcome ℕ × Hub runtime
sent = dispatch runtime (ascii "r1") (ascii "GET") (path_meta (ascii "/a")) body bus

pub sent_ok : sent ≡ (ok 0, sent.1)
unfolding dispatch claim_slot fill_slot publish register keep_overflow forget_overflow
    claim_free_slot exchange_status load_status store_status write_request write_request_inner
    place_payload slot_arenas types_slot_arenas arena_size heap_write_checked arena_body_offset
    align8 set_status method_to_u8 signal read_u32
sent_ok = refl

abbrev pub dispatched :
    Dispatched machine-IsOs runtime runtime-IsRuntime bus
      (ascii "r1")
      (ascii "GET")
      (path_meta (ascii "/a"))
      body
      0
      sent.1
dispatched =
    dispatch-Dispatched machine-IsOs runtime runtime-IsRuntime bus sent.1 (ascii "r1") (ascii "GET")
      (path_meta (ascii "/a")) body 0 bus-IsHub (omega arith) sent_ok

dispatch-Dispatched_example :
    Dispatched machine-IsOs runtime runtime-IsRuntime bus
      (ascii "r1")
      (ascii "GET")
      (path_meta (ascii "/a"))
      body
      0
      sent.1
dispatch-Dispatched_example =
    dispatch-Dispatched machine-IsOs runtime runtime-IsRuntime bus sent.1 (ascii "r1") (ascii "GET")
      (path_meta (ascii "/a")) body 0 bus-IsHub (omega arith) sent_ok

-- The worker on the other handle of the region, after the request was sent.
abbrev pub idle : Worker runtime
idle = record {
  slots = record {
    config = config;
    region = worker;
    req_event = posix 0 (ascii "/q") false;
    rsp_event = posix 1 (ascii "/p") false;
    overflow_regions = λ i. none;
    running = true;
  };
  world = sent.1.world;
}

pub idle-IsWorker : IsWorker runtime idle
unfolding dispatch claim_slot fill_slot publish register keep_overflow forget_overflow
    claim_free_slot exchange_status load_status store_status write_request write_request_inner
    place_payload slot_arenas types_slot_arenas arena_size heap_write_checked arena_body_offset
    align8 set_status method_to_u8 signal read_u32
idle-IsWorker = record {
  control = record { table = refl; small = omega arith };
  mapped = refl;
  apart = λ i region e. absurd (ground arith);
}

-- It answers with the body that it has got.
abbrev pub echo : Request → Response
echo q = record { status = 200; body = q.body; content_type = ascii "b"; headers = [] }

abbrev served : Outcome (Unit {0}) × Worker runtime
served = receive_slot runtime (replies runtime echo) 0 idle

served_ok : served ≡ (ok tt, served.1)
unfolding dispatch claim_slot fill_slot publish register keep_overflow forget_overflow
    claim_free_slot exchange_status load_status store_status write_request write_request_inner
    place_payload slot_arenas types_slot_arenas arena_size heap_write_checked arena_body_offset
    align8 set_status method_to_u8 signal read_u32 receive_slot take_request handle send_response
    Worker.forget_overflow write_answer after_write answered Worker.exchange_slot read_request
    read_payload read_body write_response heap_read_checked request_of write_u32 write_u16 read_u16
    overflow_generation load
served_ok = refl

pub id_ok : IsRequestId (ascii "r1")
id_ok = (omega arith, (omega arith, (omega arith, tt)), (omega arith, (omega arith, tt)))

slot_1_empty : load_status hub 1 sent.1.world ≡ 0
unfolding dispatch claim_slot fill_slot publish register keep_overflow forget_overflow
    claim_free_slot exchange_status load_status store_status write_request write_request_inner
    place_payload slot_arenas types_slot_arenas arena_size heap_write_checked arena_body_offset
    align8 set_status method_to_u8 signal read_u32 write_u32 write_u16 fill
slot_1_empty = refl

pub first_slot : dispatched.slot ≡ 0
first_slot = elim (ℕ_discrete dispatched.slot 1) [
  | yes second ↦
      let ready = rw second at (dispatched.ready) in
      absurd (omega (arith, sym slot_1_empty ∙ ready))
  | no other ↦ omega (arith, dispatched.inside, other)
]

pub request_fits : RequestFits runtime (ascii "r1") (path_meta (ascii "/a")) body
request_fits = record {
  id = id_ok;
  meta_len = λ bytes e. let same : ascii "/a" ≡ bytes = ground arith in rw (← same) (omega arith);
  body_len = omega arith;
}

pub response_fits :
    (q : List ℕ)
    → length q < u32_mod
    → ResponseFits runtime
        (record { status = 200; body = q; content_type = ascii "b"; headers = [] })
response_fits q short = record {
  status = omega arith;
  meta_len = λ bytes e. let same : ascii "b" ≡ bytes = ground arith in rw (← same) (omega arith);
  body_len = short;
}

idle-Beside : Beside runtime sent.1 idle
unfolding dispatch claim_slot fill_slot publish register keep_overflow forget_overflow
    claim_free_slot exchange_status load_status store_status write_request write_request_inner
    place_payload slot_arenas types_slot_arenas arena_size heap_write_checked arena_body_offset
    align8 set_status method_to_u8 signal read_u32 write_u32
idle-Beside = record {
  agrees = record { ptr = refl; num_slots = refl; heap_offset = refl; heap_size = refl };
  config = refl;
  world = refl;
}

watch_slot-receive_slot_example :
    (h' : Hub runtime) × (watch_slot runtime dispatched.slot
        (record sent.1 { world = served.1.world })
      ≡ (ok tt, h'))
    × Trip machine-IsOs runtime runtime-IsRuntime request_code-IsPostcard bus dispatched.slot
        (ascii "r1")
        0
        (record { status = 200; body = body; content_type = ascii "b"; headers = [] })
        h'
unfolding request_of
watch_slot-receive_slot_example =
    watch_slot-receive_slot machine-IsOs runtime runtime-IsRuntime request_code-IsPostcard echo bus
      sent.1 (ascii "r1") (ascii "GET") (path_meta (ascii "/a")) body 0 dispatched idle served.1
      request_fits idle-Beside idle-IsWorker response_code-IsPostcard
      (response_fits body (omega arith)) (rw first_slot served_ok)

receive_slot-Handed_example :
    Handed runtime runtime-IsRuntime
      (replies runtime echo)
      hub
      dispatched.slot
      (record { req_id = ascii "r1"; method = 0; meta = path_meta (ascii "/a"); body = body })
      idle
unfolding method_to_u8
receive_slot-Handed_example =
    receive_slot-Handed runtime runtime-IsRuntime (replies runtime echo) hub hub-IsControl
      dispatched.slot idle (ascii "r1") 0 dispatched.meta_bytes body (path_meta (ascii "/a"))
      dispatched.inside worker-Agrees id_ok dispatched.ready
      (dispatched.stored (request_fits.meta_len dispatched.meta_bytes dispatched.encoded))
      (request_code-IsPostcard (path_meta (ascii "/a")) dispatched.meta_bytes dispatched.encoded)

abbrev pub answer : Outcome (Unit {0}) × Worker runtime
answer = send_response runtime 0 200 body (ascii "b") [] idle

pub answer_ok : answer ≡ (ok tt, answer.1)
unfolding send_response Worker.forget_overflow write_answer after_write answered write_response
    place_payload slot_arenas types_slot_arenas arena_size heap_write_checked arena_body_offset
    align8 set_status
answer_ok = refl

send_response-Sent_example :
    Sent machine-IsOs runtime runtime-IsRuntime 0 200 (type_meta (ascii "b")) body idle answer.1
send_response-Sent_example =
    send_response-Sent machine-IsOs runtime runtime-IsRuntime 0 200 body (ascii "b") [] idle
      answer.1 idle-IsWorker (omega arith) (omega arith) answer_ok
