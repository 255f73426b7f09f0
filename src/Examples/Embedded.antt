-- ===== src/Examples/Embedded.antt =====
-- slotbus/examples/embedded.rs: both sides in one process, and five requests one after another. The
-- number of the process, and what is printed, are left out of the model of the exchange.
use slotbus.Base.{
  ℕ, ◌<◌, ◌≡◌, refl, List, [], ◌∷◌, ◌++◌, none, Text, ascii, decimal, decimal_digit, length,
  u16_mod, u32_mod, arith,
}
use slotbus.Error.{Outcome, ok}
use slotbus.Types.{RequestMeta, method_to_u8, u8_to_method, slot_free}
use slotbus.Config.{SlotBusConfig}
use slotbus.Config.Builder as Builder
use slotbus.Config.Builder.{builder, build}
use slotbus.Postcard.{IsPostcard, coded}
use slotbus.Os.{Os, IsOs, World, M, ◌>>=◌, lift, pure}
use slotbus.Region.Slots.{load_status}
use slotbus.Region.Requests.Stored.{IsRequestId}
use slotbus.Transport.{Request, Response, Runtime, request_of}
use slotbus.Transport.Hub.{Hub, SlotBus, create, dispatch, watch_slot}
use slotbus.Transport.Worker.{Worker, SlotWorker, open_worker, receive_slot, send_response}
use slotbus.Transport.Laws.{IsRuntime}
use slotbus.Transport.State.{IsHub, IsWorker}
use slotbus.Transport.Served.{replies, RequestFits, ResponseFits, Beside}
use slotbus.Transport.Total.{Inline}
use slotbus.Transport.Delivered.{dispatch-delivers}
use slotbus.Transport.Trip.{Trip}
use slotbus.Examples.{expect, expect-ok, receive_slot-expects}

-- Of the process `pid`.
unfoldable pub config : ℕ → Outcome SlotBusConfig
unfolding builder Builder.name Builder.num_slots build
config pid =
    build (Builder.num_slots (Builder.name builder (ascii "embedded-demo-" ++ decimal pid)) 8)

unfoldable pub greeting : Request → Text
greeting req =
    ascii "Hello from embedded worker! You sent "
    ++ (decimal (length req.body)
        ++ (ascii " bytes to " ++ (req.method ++ (ascii " " ++ req.path))))

abbrev pub plain : Text
plain = ascii "text/plain"

abbrev pub marks : List (Text × Text)
marks = (ascii "x-worker", ascii "embedded") ∷ []

-- The response to a request.
abbrev pub greet : Request → Response
greet req = record { status = 200; body = greeting req; content_type = plain; headers = marks }

-- The `i`-th request.
unfoldable pub path : ℕ → Text
path i = ascii "/test/" ++ decimal i

unfoldable pub meta : ℕ → RequestMeta
unfolding path
meta i = record {
  path = path i;
  route_pattern = ascii "/test/:id";
  path_params = (ascii "id", decimal i) ∷ [];
  query = none;
  headers = (ascii "content-type", plain) ∷ [];
}

unfoldable pub body : ℕ → Text
body i = ascii "request body #" ++ decimal i

unfoldable pub req_id : ℕ → Text
req_id i = ascii "req-" ++ decimal i

req_id-IsRequestId : (i : ℕ) → i < 10 → IsRequestId (req_id i)
unfolding req_id
req_id-IsRequestId i h = rw (decimal_digit i h) (ground (arith, h))

-- What the handler gets.
abbrev pub received : ℕ → Request
received i = request_of (record {
  req_id = req_id i;
  method = method_to_u8 (ascii "POST");
  meta = meta i;
  body = body i;
})

abbrev pub reply : ℕ → Text
reply i = ascii "Hello from embedded worker! You sent 15 bytes to POST /test/" ++ decimal i

reply_len : (i : ℕ) → i < 10 → length (reply i) < u32_mod
reply_len i h = rw (decimal_digit i h) (omega arith)

body_len : (i : ℕ) → i < 10 → length (body i) ≡ 15
unfolding body
body_len i h = rw (decimal_digit i h) refl

greeting-received : (i : ℕ) → i < 10 → greeting (received i) ≡ reply i
unfolding greeting request_of meta path method_to_u8 u8_to_method decimal
greeting-received i h = rw (body_len i h) refl

module _ {o : Os} (rt : Runtime o) where
  -- The closure of the receive loop.
  unfoldable pub handler : ℕ → Request → M (Worker rt) (Unit {0})
  unfolding greeting
  handler slot req = expect (send_response rt slot 200 (greeting req) plain marks)

  -- Both sides of the bus.
  sides : ℕ → M (World o) (SlotBus rt × SlotWorker rt)
  unfolding config
  sides pid = do
    c ← lift (config pid)
    bus ← expect (create rt c)
    d ← lift (config pid)
    slots ← expect (open_worker rt d)
    pure (bus, slots)

  -- The `i`-th dispatch.
  unfoldable pub send : ℕ → M (Hub rt) rt.Receiver
  unfolding meta body req_id
  send i = expect (dispatch rt (req_id i) (ascii "POST") (meta i) (body i))

  -- The exchange, with the results of the calls in place of panics.
  exchange :
      (os : IsOs o) (laws : IsRuntime rt) (request_code : IsPostcard rt.request_code) (i : ℕ)
      (h : Hub rt) (k : Worker rt) (meta_bytes bytes : List ℕ) (j : ℕ)
      → i < 5
      → IsHub rt h
      → IsWorker rt k
      → Beside rt h k
      → j < h.bus.region.num_slots
      → load_status h.bus.region j h.world ≡ slot_free
      → rt.request_code.to_allocvec (meta i) ≡ coded meta_bytes
      → length meta_bytes < u16_mod
      → Inline h.bus.region meta_bytes (body i)
      → IsPostcard rt.response_code
      → rt.response_code.to_allocvec (record { content_type = plain; headers = marks })
        ≡ coded bytes
      → length bytes < u16_mod
      → Inline h.bus.region bytes (reply i)
      → (rx : rt.Receiver) × (h1 : Hub rt) × (slot : ℕ) × (k' : Worker rt) × (h' : Hub rt)
        × (dispatch rt (req_id i) (ascii "POST") (meta i) (body i) h ≡ (ok rx, h1))
        × (receive_slot rt (replies rt greet) slot (record k { world = h1.world }) ≡ (ok tt, k'))
        × (watch_slot rt slot (record h1 { world = k'.world }) ≡ (ok tt, h'))
        × Trip os rt laws request_code h slot
            (req_id i)
            rx
            (record { status = 200; body = reply i; content_type = plain; headers = marks })
            h'
  exchange os laws request_code i h k meta_bytes bytes j small hub holds beside lt free encoded
        short inline response_code coded_type short' inline' =
      let text = greeting-received i (omega (arith, small)) in
      let fits : RequestFits rt (req_id i) (meta i) (body i) = record {
        id = req_id-IsRequestId i (omega (arith, small));
        meta_len =
            λ b e. let same : meta_bytes ≡ b = ground (arith, e, encoded) in rw (← same) short;
        body_len = omega (arith, body_len i (omega (arith, small)));
      } in
      let fits' : ResponseFits rt (greet (received i)) = record {
        status = omega arith;
        meta_len =
            λ b e. let same : bytes ≡ b = ground (arith, e, coded_type) in rw (← same) short';
        body_len = rw text (reply_len i (omega (arith, small)));
      } in
      let (rx, h1, slot, k', h', sent, served, watched, trip) =
        dispatch-delivers os rt laws request_code greet h k (req_id i) (ascii "POST") (meta i)
          (body i) meta_bytes bytes j hub holds beside lt free fits encoded inline response_code
          fits' coded_type (rw text inline') in
      (rx, h1, slot, k', h', sent, served, watched, rw text at trip)

  -- Take a hub and a worker that was opened on its region with its configuration, both of whose invariants hold,
  -- with a slot of the table free, and one of the five requests of the example. Let its metadata and those of the
  -- answer be encoded and decoded again, and fit the request half of a slot and the fields of a slot, with bodies of
  -- no more bytes than `inline_body_capacity` says. Then the dispatch does not panic, nor does the
  -- handler, both looks at the slot come out well, and the receiver gets the status 200 and the greeting, which names the
  -- 15 bytes of the body, the method POST, and the path with the number of the request.
  pub send-greeted :
      (os : IsOs o) (laws : IsRuntime rt) (request_code : IsPostcard rt.request_code) (i : ℕ)
      (h : Hub rt) (k : Worker rt) (meta_bytes bytes : List ℕ) (j : ℕ)
      → i < 5
      → IsHub rt h
      → IsWorker rt k
      → Beside rt h k
      → j < h.bus.region.num_slots
      → load_status h.bus.region j h.world ≡ slot_free
      → rt.request_code.to_allocvec (meta i) ≡ coded meta_bytes
      → length meta_bytes < u16_mod
      → Inline h.bus.region meta_bytes (body i)
      → IsPostcard rt.response_code
      → rt.response_code.to_allocvec (record { content_type = plain; headers = marks })
        ≡ coded bytes
      → length bytes < u16_mod
      → Inline h.bus.region bytes (reply i)
      → (rx : rt.Receiver) × (h1 : Hub rt) × (slot : ℕ) × (k' : Worker rt) × (h' : Hub rt) × (send i
            h
          ≡ (ok rx, h1))
        × (receive_slot rt handler slot (record k { world = h1.world }) ≡ (ok tt, k'))
        × (watch_slot rt slot (record h1 { world = k'.world }) ≡ (ok tt, h'))
        × Trip os rt laws request_code h slot
            (req_id i)
            rx
            (record { status = 200; body = reply i; content_type = plain; headers = marks })
            h'
  unfolding send handler
  send-greeted os laws request_code i h k meta_bytes bytes j small hub holds beside lt free encoded
        short inline response_code coded_type short' inline' =
      let (rx, h1, slot, k', h', sent, served, watched, trip) =
        exchange os laws request_code i h k meta_bytes bytes j small hub holds beside lt free
          encoded short inline response_code coded_type short' inline' in
      (
        rx,
        h1,
        slot,
        k',
        h',
        expect-ok (dispatch rt (req_id i) (ascii "POST") (meta i) (body i)) rx h h1 sent,
        receive_slot-expects rt (replies rt greet) slot (record k { world = h1.world }) k' served,
        watched,
        trip,
      )
