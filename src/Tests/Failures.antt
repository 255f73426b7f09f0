-- ===== src/Tests/Failures.antt =====
-- A request that meets a full table, and a response that cannot be encoded.
use slotbus.Base.{ℕ, ◌≡◌, refl, arith, List, [], ◌∷◌, Text, ascii, ◌⊎◌}
use slotbus.Error.{Outcome, err, no_free_slots, serialization}
use slotbus.Memory.{read_u32}
use slotbus.Types.{slot_free}
use slotbus.Postcard.{code_error}
use slotbus.Region.Slots.{load_status, exchange_status, claim_free_slot}
use slotbus.Transport.Hub.{Hub, dispatch, claim_slot}
use slotbus.Transport.Worker.{Worker, send_response}
use slotbus.Transport.State.{IsHub}
use slotbus.Transport.Failures.{Refused, dispatch-Refused, send_response-Refused}
use slotbus.Tests.Machine.{machine-IsOs}
use slotbus.Tests.Fixture.{hub-IsControl, start}
use slotbus.Tests.Runtime.{runtime, runtime-IsRuntime, path_meta}
use slotbus.Tests.Transport.{bus, idle, body}

-- Every status is 0x01010101.
abbrev busy : Hub runtime
busy = record bus { world = record start { memory = λ p x. 1 } }

busy-IsHub : IsHub runtime busy
busy-IsHub = record {
  control = hub-IsControl;
  mapped = refl;
  apart = λ i region e. absurd (ground arith);
}

abbrev refused : Outcome ℕ × Hub runtime
refused = dispatch runtime (ascii "r1") (ascii "GET") (path_meta (ascii "/a")) body busy

refused_full : refused ≡ (err (no_free_slots 2), refused.1)
unfolding dispatch claim_slot claim_free_slot exchange_status load_status read_u32
refused_full = refl

dispatch-Refused_example :
    Refused runtime busy (path_meta (ascii "/a")) (no_free_slots 2) refused.1
    × (refused.1.bus.pending ≡ busy.bus.pending)
    × (refused.1.bus.region ≡ busy.bus.region)
dispatch-Refused_example =
    dispatch-Refused machine-IsOs runtime runtime-IsRuntime busy refused.1 (ascii "r1")
      (ascii "GET") (path_meta (ascii "/a")) body (no_free_slots 2) busy-IsHub (omega arith)
      (omega arith) refused_full

abbrev one_header : List (Text × Text)
one_header = (ascii "a", ascii "b") ∷ []

abbrev lost : Outcome (Unit {0}) × Worker runtime
lost = send_response runtime 0 200 body (ascii "b") one_header idle

lost_lem : lost ≡ (err (serialization []), lost.1)
unfolding send_response
lost_lem = refl

send_response-Refused_example :
    ((t : Text) × (runtime.response_code.to_allocvec
          (record { content_type = ascii "b"; headers = one_header })
        ≡ code_error t)
      × (serialization [] ≡ serialization t)
      × (lost.1 ≡ idle))
    ⊎ (load_status idle.slots.region 0 lost.1.world ≡ slot_free)
send_response-Refused_example =
    send_response-Refused runtime 0 200 body (ascii "b") one_header idle lost.1 (serialization [])
      lost_lem
