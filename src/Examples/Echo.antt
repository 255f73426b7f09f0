-- ===== src/Examples/Echo.antt =====
-- slotbus/examples/echo_worker.rs: a worker that answers with the body it got.
use slotbus.Base.{ℕ, ◌<◌, ◌≡◌, List, [], Text, ascii, Bool, length, u16_mod, arith}
use slotbus.Error.{SlotBusError, Outcome, ok, err, panicked}
use slotbus.Types.{RequestMeta, slot_free}
use slotbus.Config.{SlotBusConfig}
use slotbus.Config.Builder as Builder
use slotbus.Config.Builder.{builder, build}
use slotbus.Postcard.{IsPostcard, coded}
use slotbus.Os.{Os, IsOs, World, M, ◌>>=◌, lift}
use slotbus.Region.Slots.{load_status}
use slotbus.Transport.{Request, Response, Runtime, request_of}
use slotbus.Transport.Hub.{Hub, dispatch, watch_slot}
use slotbus.Transport.Worker.{Worker, SlotWorker, open_worker, receive, receive_slot, send_response}
use slotbus.Transport.Laws.{IsRuntime}
use slotbus.Transport.State.{IsHub, IsWorker}
use slotbus.Transport.Served.{replies, RequestFits, ResponseFits, Beside}
use slotbus.Transport.Total.{Inline}
use slotbus.Transport.Delivered.{dispatch-delivers}
use slotbus.Transport.Trip.{Trip}
use slotbus.Examples.{expect, receive_slot-expects}

-- `SlotBusConfig::builder().name("echo").build()`
unfoldable pub config : Outcome SlotBusConfig
unfolding builder Builder.name build
config = build (Builder.name builder (ascii "echo"))

abbrev pub octets : Text
octets = ascii "application/octet-stream"

-- The response to a request.
abbrev pub echo : Request → Response
echo q = record { status = 200; body = q.body; content_type = octets; headers = [] }

module _ {o : Os} (rt : Runtime o) where
  -- The closure of the receive loop.
  unfoldable pub handler : ℕ → Request → M (Worker rt) (Unit {0})
  handler slot req = expect (send_response rt slot 200 req.body octets [])

  unfoldable pub open_echo : M (World o) (SlotWorker rt)
  open_echo = lift config >>= λ c. expect (open_worker rt c)

  -- The worker in its loop, `rounds` of it at most.
  in_loop : ℕ → SlotWorker rt → M (World o) Bool
  unfolding handler
  in_loop rounds slots w =
      let x = receive rt (handler) rounds (record { slots = slots; world = w }) in (x.0, x.1.world)

  -- The program. A panic of the receive loop is one of `main`, which joins its thread.
  main : ℕ → M (World o) Bool
  unfolding open_echo in_loop
  main rounds = open_echo >>= in_loop rounds

  -- Without a hub, the program panics, and does no more.
  main_alone :
      (rounds : ℕ) (c : SlotBusConfig) (w : World o) (e : SlotBusError)
      → config ≡ ok c
      → (open_worker rt c w).0 ≡ err e
      → main rounds w ≡ (panicked, (open_worker rt c w).1)
  unfolding main
  main_alone rounds c w e configured failed = rw (configured, failed)

  -- Take a hub and the echo worker, opened on its region with its configuration, both of whose invariants hold,
  -- with a slot of the table free. Take a request with an id of at most 36 ASCII bytes and none of them zero, such
  -- that its metadata and the content type of the answer can be encoded and decoded again and fit the request half
  -- of a slot and the fields of a slot, and its body has no more bytes than `inline_body_capacity` says for either.
  -- Then the request is dispatched, the worker's look at the slot with the example's handler comes out
  -- well, without a panic, and so does the watcher's: the receiver gets the status 200 and exactly the body that was sent.
  pub handler-echoes :
      (os : IsOs o) (laws : IsRuntime rt) (request_code : IsPostcard rt.request_code) (h : Hub rt)
      (k : Worker rt) (req_id method : Text) (meta : RequestMeta) (body meta_bytes bytes : List ℕ)
      (j : ℕ)
      → IsHub rt h
      → IsWorker rt k
      → Beside rt h k
      → j < h.bus.region.num_slots
      → load_status h.bus.region j h.world ≡ slot_free
      → RequestFits rt req_id meta body
      → rt.request_code.to_allocvec meta ≡ coded meta_bytes
      → Inline h.bus.region meta_bytes body
      → IsPostcard rt.response_code
      → rt.response_code.to_allocvec (record { content_type = octets; headers = [] }) ≡ coded bytes
      → length bytes < u16_mod
      → Inline h.bus.region bytes body
      → (rx : rt.Receiver) × (h1 : Hub rt) × (i : ℕ) × (k' : Worker rt) × (h' : Hub rt) × (dispatch
            rt req_id method meta body h
          ≡ (ok rx, h1))
        × (receive_slot rt handler i (record k { world = h1.world }) ≡ (ok tt, k'))
        × (watch_slot rt i (record h1 { world = k'.world }) ≡ (ok tt, h'))
        × Trip os rt laws request_code h i req_id rx
            (record { status = 200; body = body; content_type = octets; headers = [] })
            h'
  unfolding handler request_of
  handler-echoes os laws request_code h k req_id method meta body meta_bytes bytes j hub holds
        beside lt free fits encoded inline response_code coded_type short inline' =
      let fits' : ResponseFits rt
          (record { status = 200; body = body; content_type = octets; headers = [] }) =
        record {
          status = omega arith;
          meta_len =
              λ b e. let same : bytes ≡ b = ground (arith, e, coded_type) in rw (← same) short;
          body_len = fits.body_len;
        } in
      let (rx, h1, i, k', h', sent, served, watched, trip) =
        dispatch-delivers os rt laws request_code echo h k req_id method meta body meta_bytes bytes
          j hub holds beside lt free fits encoded inline response_code fits' coded_type inline' in
      (
        rx,
        h1,
        i,
        k',
        h',
        sent,
        receive_slot-expects rt (replies rt echo) i (record k { world = h1.world }) k' served,
        watched,
        trip,
      )
