-- ===== src/Tests/Examples.antt =====
-- The echo worker on the region of the fixture.
use slotbus.Base.{ℕ, ◌≡◌, refl, arith, [], ascii}
use slotbus.Error.{ok}
use slotbus.Types.{slot_arenas as types_slot_arenas, arena_size, align8}
use slotbus.Region.Heap.{slot_arenas, inline_body_capacity}
use slotbus.Transport.Hub.{Hub, dispatch, watch_slot}
use slotbus.Transport.Worker.{Worker, receive_slot}
use slotbus.Transport.Trip.{Trip}
use slotbus.Transport.Total.{Inline}
use slotbus.Examples.Echo.{octets, handler, handler-echoes}
use slotbus.Tests.Machine.{machine-IsOs}
use slotbus.Tests.Fixture.{hub}
use slotbus.Tests.Runtime.{
  runtime, runtime-IsRuntime, request_code-IsPostcard, response_code-IsPostcard, path_meta,
}
use slotbus.Tests.Transport.{bus, bus-IsHub, body, request_fits}
use slotbus.Tests.Delivered.{beside, beside-IsWorker, bus-Beside, first_free, request-Inline}

octets-Inline : Inline hub octets body
unfolding slot_arenas types_slot_arenas arena_size align8 inline_body_capacity
octets-Inline = record { half = omega arith; room = omega arith }

handler-echoes_example :
    (rx : ℕ) × (h1 : Hub runtime) × (i : ℕ) × (k' : Worker runtime) × (h' : Hub runtime) × (dispatch
        runtime
        (ascii "r1")
        (ascii "GET")
        (path_meta (ascii "/a"))
        body
        bus
      ≡ (ok rx, h1))
    × (receive_slot runtime (handler runtime) i (record beside { world = h1.world }) ≡ (ok tt, k'))
    × (watch_slot runtime i (record h1 { world = k'.world }) ≡ (ok tt, h'))
    × Trip machine-IsOs runtime runtime-IsRuntime request_code-IsPostcard bus i
        (ascii "r1")
        rx
        (record { status = 200; body = body; content_type = octets; headers = [] })
        h'
handler-echoes_example =
    handler-echoes runtime machine-IsOs runtime-IsRuntime request_code-IsPostcard bus beside
      (ascii "r1") (ascii "GET") (path_meta (ascii "/a")) body (ascii "/a") octets 0 bus-IsHub
      beside-IsWorker bus-Beside (omega arith) first_free request_fits refl request-Inline
      response_code-IsPostcard refl (omega arith) octets-Inline
