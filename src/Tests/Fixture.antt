-- ===== src/Tests/Fixture.antt =====
-- A control region of 512 bytes with two slots, as the hub and a worker hold it: 64 bytes of header,
-- 256 of slots, and a heap of 192, of which each slot has two halves of 48.
use slotbus.Base.{ℕ, List, [], ◌∷◌, ascii, none, false}
use slotbus.Types.{RequestMeta, ResponseMeta}
use slotbus.Config.{SlotBusConfig}
use slotbus.Postcard.{Postcard, coded}
use slotbus.Os.{World}
use slotbus.Region.{ShmRegion}
use slotbus.Region.Requests.Steps.{IsControl}
use slotbus.Region.Payload.Stored.{Agrees}
use slotbus.Base.{refl, arith}
use slotbus.Tests.Machine.{machine, Mapping}

abbrev pub config : SlotBusConfig
config = record {
  name = ascii "w";
  prefix = ascii "slotbus";
  num_slots = 2;
  region_size = 512;
  wait_timeout_ms = 5000;
  instrumentation = false;
}

abbrev pub mapping : Mapping
mapping = record { ptr = 0; size = 512 }

-- The handle before its layout is known.
abbrev pub raw : ShmRegion machine
raw = record {
  shmem = mapping;
  ptr = 0;
  len = 512;
  name = ascii "slotbus-w";
  num_slots = 0;
  heap_offset = 0;
  heap_size = 0;
}

abbrev pub hub : ShmRegion machine
hub = record raw { num_slots = 2; heap_offset = 320; heap_size = 192 }

-- The same region, opened under another name for the same mapping.
abbrev pub worker : ShmRegion machine
worker = record hub { name = ascii "again" }

-- The control region is the only mapping, and all bytes are zero.
abbrev pub start : World machine
start = record {
  state = record { taken = (ascii "slotbus-w", 512) ∷ []; channels = 0; sent = λ c. none; now = 0 };
  memory = λ p x. 0;
}

abbrev pub hub-IsControl : IsControl hub
hub-IsControl = record { table = refl; small = omega arith }

abbrev pub worker-Agrees : Agrees hub worker
worker-Agrees = record { ptr = refl; num_slots = refl; heap_offset = refl; heap_size = refl }

abbrev pub request_meta : RequestMeta
request_meta = record {
  path = ascii "/a";
  route_pattern = ascii "/a";
  path_params = [];
  query = none;
  headers = [];
}

abbrev pub meta_bytes : List ℕ
meta_bytes = 2 ∷ 47 ∷ 97 ∷ []

abbrev pub postcard : Postcard RequestMeta
postcard = record { to_allocvec = λ m. coded meta_bytes; from_bytes = λ b. coded request_meta }

abbrev pub response_meta : ResponseMeta
response_meta = record { content_type = ascii "text/plain"; headers = [] }

abbrev pub response_postcard : Postcard ResponseMeta
response_postcard = record {
  to_allocvec = λ m. coded meta_bytes;
  from_bytes = λ b. coded response_meta;
}
