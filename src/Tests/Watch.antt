-- ===== src/Tests/Watch.antt =====
-- The answer of the fixture's worker on its way to the receiver.
use slotbus.Base.{◌≡◌, refl, ◌∙◌, arith, [], none, some, ascii, subst, put, text_eq}
use slotbus.Error.{ok}
use slotbus.Types.{slot_done}
use slotbus.Region.Slots.{load_status}
use slotbus.Region.Requests.{read_req_id}
use slotbus.Region.Requests.Stored.{read_req_id-RequestAt}
use slotbus.Transport.Hub.{Hub, PendingEntry, watch_slot}
use slotbus.Transport.Respond.{Sent, send_response-Sent}
use slotbus.Transport.Watch.{Resolved, watch_slot-Resolved}
use slotbus.Tests.Machine.{machine-IsOs}
use slotbus.Tests.Fixture.{hub, worker, hub-IsControl}
use slotbus.Transport.State.{IsHub}
use slotbus.Region.Payload.Stored.{Agrees}
use slotbus.Tests.Runtime.{runtime, runtime-IsRuntime, response_code-IsPostcard, type_meta}
use slotbus.Tests.Transport.{
  bus, sent, idle, body, answer, answer_ok, dispatched, first_slot, idle-IsWorker, id_ok,
  response_fits, request_fits,
}

abbrev entry : PendingEntry runtime
entry = record { t0 = 0; label = ascii "GET /a"; tx = 0 }

-- The hub when the worker has answered.
abbrev pub waiting : Hub runtime
waiting = record {
  bus = record bus.bus { pending = put text_eq (ascii "r1") (some entry) (λ k. none) };
  world = answer.1.world;
}

pub written :
    Sent machine-IsOs runtime runtime-IsRuntime 0 200 (type_meta (ascii "b")) body idle answer.1
written =
    send_response-Sent machine-IsOs runtime runtime-IsRuntime 0 200 body (ascii "b") [] idle
      answer.1 idle-IsWorker (omega arith) (omega arith) answer_ok

pub same_id : read_req_id hub 0 answer.1.world ≡ ascii "r1"
unfolding read_req_id
same_id =
    written.answers.same_id
    ∙ subst (λ i. read_req_id hub i sent.1.world ≡ ascii "r1") first_slot
        (read_req_id-RequestAt hub dispatched.slot _ (ascii "r1") _ dispatched.meta_bytes body
          sent.1.world id_ok
          (dispatched.stored (request_fits.meta_len dispatched.meta_bytes dispatched.encoded)))

waiting-IsHub : IsHub runtime waiting
waiting-IsHub = record {
  control = hub-IsControl;
  mapped = rw (written.answers.same_region) at (written.answers.holds.mapped);
  apart = λ i region e. absurd (ground arith);
}

pub worker_Agrees : Agrees worker hub
worker_Agrees = record { ptr = refl; num_slots = refl; heap_offset = refl; heap_size = refl }

pub done : load_status hub 0 answer.1.world ≡ slot_done
unfolding load_status
done = written.answers.done

watch_slot-Resolved_example :
    (h' : Hub runtime) × (watch_slot runtime 0 waiting ≡ (ok tt, h'))
    × Resolved runtime waiting 0
        (ascii "r1")
        0
        (record { status = 200; meta = type_meta (ascii "b"); body = body })
        h'
watch_slot-Resolved_example =
    watch_slot-Resolved runtime runtime-IsRuntime worker 0 waiting (ascii "r1") 200
      written.meta_bytes body (type_meta (ascii "b")) entry 0 waiting-IsHub (omega arith)
      worker_Agrees (omega arith) done
      (written.answers.stored
        ((response_fits body (omega arith)).meta_len written.meta_bytes written.encoded))
      (omega arith)
      (response_code-IsPostcard (type_meta (ascii "b")) written.meta_bytes written.encoded) same_id
      refl (λ t response. refl)
