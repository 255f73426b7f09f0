-- ===== src/Transport.antt =====
-- slotbus/src/transport.rs: the hub (`SlotBus`) and its worker (`SlotWorker`). This file has what the
-- two share.
pub mod Hub
pub mod Worker
pub mod Laws
pub mod State
pub mod Reads
pub mod Claimed
pub mod Published
pub mod Dispatch
pub mod Receive
pub mod Respond
pub mod Watch
pub mod Served
pub mod Trip
pub mod Failures
pub mod Protocol
pub mod Opening
pub mod Made
pub mod Handshake
pub mod Joined
pub mod Threads
pub mod Overtaken
pub mod Total
pub mod Delivered
pub mod Sweep
use slotbus.Base.{ℕ, List, Option, none, some, Text, text_eq, put, collect, ◌==◌}
use slotbus.Types.{RequestMeta, ResponseMeta, u8_to_method}
use slotbus.Config.OsName.{Target}
use slotbus.Postcard.{Postcard}
use slotbus.Os.{Os, World, M}
use slotbus.Events.{Signals}
use slotbus.Region.{ShmRegion}
use slotbus.Region.Requests.{Received}
use slotbus.Region.Responses.{Answer}

-- A request as the handler of a worker gets it.
pub record Request : Type 0 where
  pub req_id : Text
  pub method : Text
  pub path : Text
  pub route_pattern : Text
  pub path_params : Text → Option Text
  pub query : Option Text
  pub body : List ℕ
  pub headers : Text → Option Text

pub record Response : Type 0 where
  pub status : ℕ
  pub body : List ℕ
  pub content_type : Text
  pub headers : List (Text × Text)

-- What the transport takes from outside beside the shared memory: the target that it is built for,
-- the events, `postcard` for both kinds of metadata, and the channels of `tokio::sync::oneshot`.
pub record Runtime (o : Os) : Type 1 where
  pub target : Target
  pub sys : Signals o
  pub request_code : Postcard RequestMeta
  pub response_code : Postcard ResponseMeta
  pub Sender : Type 0
  pub Receiver : Type 0
  pub channel : o.State → (Sender × Receiver) × o.State
  -- Both use a sender up. What `send` gives back is ignored.
  pub send : Sender → Response → o.State → o.State
  pub drop_sender : Sender → o.State → o.State
  -- What a receiver would get, if somebody still holds it.
  pub resolved : Receiver → o.State → Option Response

-- The `Request` that the receive loop makes of what it has read.
unfoldable pub request_of : Received → Request
request_of r = record {
  req_id = r.req_id;
  method = u8_to_method r.method;
  path = r.meta.path;
  route_pattern = r.meta.route_pattern;
  path_params = collect text_eq r.meta.path_params;
  query = r.meta.query;
  body = r.body;
  headers = collect text_eq r.meta.headers;
}

-- The `Response` that the watcher makes of what it has read.
unfoldable pub response_of : Answer → Response
response_of a = record {
  status = a.status;
  body = a.body;
  content_type = a.meta.content_type;
  headers = a.meta.headers;
}

-- The overflow regions that a side keeps, by slot.
abbrev pub Kept : Os → Type 0
Kept o = ℕ → Option (ShmRegion o)

module _ {o : Os} where
  -- `Drop` of what a map gave up.
  abbrev pub drop_held : Option (ShmRegion o) → World o → World o
  drop_held none w = w
  drop_held (some region) w = record w { state = o.drop_map region.shmem w.state }

  -- The entry of a slot after a write: a region that was made is kept.
  abbrev pub keep : ℕ → Option (ShmRegion o) → Kept o → Kept o
  keep slot_index none kept = kept
  keep slot_index (some region) kept = put ◌==◌ slot_index (some region) kept

  -- What `keep` replaces.
  abbrev pub replaced : ℕ → Option (ShmRegion o) → Kept o → Option (ShmRegion o)
  replaced slot_index none kept = none
  replaced slot_index (some region) kept = kept slot_index
