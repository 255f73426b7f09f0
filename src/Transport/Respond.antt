-- ===== src/Transport/Respond.antt =====
-- What `send_response` leaves in the slot when it succeeds, and when it does not.
use slotbus.Base.{
  ℕ, ◌<◌, ◌≡◌, refl, ap, subst, ◌∙◌, arith, List, Option, none, Text, true, ◌==◌, length, u16_mod,
  u32_mod, inl,
}
use slotbus.Error.{Outcome, ok, err, panicked}
use slotbus.Memory.{Memory}
use slotbus.Types.{ResponseMeta, slot_done}
use slotbus.Config.{response_overflow_name_gen}
use slotbus.Postcard.{Coded, coded, code_error, from_postcard}
use slotbus.Os.{Os, IsOs, World, lift, >>=-eq-ok}
use slotbus.Region.{ShmRegion}
use slotbus.Region.Calm.{Calm, region_memory-Calm}
use slotbus.Region.Slots.{load_status}
use slotbus.Region.Requests.{read_req_id}
use slotbus.Region.Requests.Stored.{read_req_id-SameOn, read_req_id-same}
use slotbus.Region.Responses.{write_response}
use slotbus.Region.Responses.Stored.{AnswerAt, AnswerAt-Calm}
use slotbus.Region.Responses.Effects.{write_response-answered, write_response-mapped}
use slotbus.Region.Responses.RoundTrip.{write_response-AnswerAt, write_response-Elsewhere}
use slotbus.Region.Isolation.{
  write_response_keeps_request, write_response_isolated, OthersKept, OthersKept-trans,
  OthersKept-same,
}
use slotbus.Transport.{Runtime}
use slotbus.Transport.Worker.{
  Worker, forget_overflow, answered, after_write, write_answer, send_response,
}
use slotbus.Transport.Laws.{IsRuntime, signal-Quiet, signal-memory}
use slotbus.Transport.State.{
  IsWorker, put-AllApart, keep-AllApart, replaced-none, drop_held_mapped, drop_held-memory,
}

module _ {o : Os} (os : IsOs o) (rt : Runtime o) (laws : IsRuntime rt) where
  after_write-ok :
      (i : ℕ) (x : Outcome (Option (ShmRegion o)) × Worker rt) (k' : Worker rt)
      → after_write rt i x ≡ (ok tt, k')
      → (overflow : Option (ShmRegion o)) × (k : Worker rt) × (x ≡ (ok overflow, k))
        × (k' ≡ answered rt i overflow k)
  unfolding after_write
  after_write-ok i (ok overflow, k) k' e = (overflow, k, refl, ground arith)
  after_write-ok i (err x, k) k' e = absurd (ground arith)
  after_write-ok i (panicked, k) k' e = absurd (ground arith)

  -- What `send_response` needs and gives for the worker's region.
  pub record Answers (i status : ℕ) (meta_bytes body : List ℕ) (k k' : Worker rt) : Type 0 where
    pub done : load_status k.slots.region i k'.world ≡ slot_done
    pub stored :
        length meta_bytes < u16_mod
        → AnswerAt k.slots.region i
            (response_overflow_name_gen rt.target k.slots.config i)
            status
            meta_bytes
            body
            k'.world
    pub same_id : read_req_id k.slots.region i k'.world ≡ read_req_id k.slots.region i k.world
    pub same_region : k'.slots.region ≡ k.slots.region
    pub same_config : k'.slots.config ≡ k.slots.config
    pub others : OthersKept k.slots.region i k.world k'.world
    pub holds : IsWorker rt k'

  answered-Calm :
      (i : ℕ) (overflow : Option (ShmRegion o)) (k : Worker rt)
      → k.slots.overflow_regions i ≡ none
      → Calm k.world (answered rt i overflow k).world
  unfolding answered
  answered-Calm i overflow k empty =
      rw (replaced-none i overflow k.slots.overflow_regions empty) (record {
        memory = signal-memory rt laws k.slots.rsp_event k.world;
        state = signal-Quiet rt laws k.slots.rsp_event k.world;
      })

  wrote-Answers :
      (i status : ℕ) (meta_bytes body : List ℕ) (k : Worker rt) (overflow : Option (ShmRegion o))
      (w : World o)
      → IsWorker rt k
      → i < k.slots.region.num_slots
      → length body < u32_mod
      → k.slots.overflow_regions i ≡ none
      → write_response rt.target k.slots.region i status meta_bytes body k.slots.config k.world
        ≡ (ok overflow, w)
      → Answers i status meta_bytes body k (answered rt i overflow (record k { world = w }))
  unfolding load_status answered
  wrote-Answers i status meta_bytes body k overflow w holds inside short empty wrote =
      let r = k.slots.region in
      let c = k.slots.config in
      let last = (answered rt i overflow (record k { world = w })).world in
      let calm = answered-Calm i overflow (record k { world = w }) empty in
      let memory = region_memory-Calm r w _ calm in
      let result = ap (λ (x : Outcome (Option (ShmRegion o)) × World o). x.0) wrote in
      let world = ap (λ (x : Outcome (Option (ShmRegion o)) × World o). x.1) wrote in
      let kept_id : read_req_id r i w ≡ read_req_id r i k.world =
        subst (λ v. read_req_id r i v ≡ read_req_id r i k.world) world
          (read_req_id-SameOn r i k.world _ (λ x lo hi.
            write_response_keeps_request r (holds.control) os rt.target i inside meta_bytes body
              short c k.world (holds.mapped) status x (inl (lo, omega (arith, hi))))) in
      let settles : load_status r i w ≡ slot_done = rw world at (
        rw result at (
          write_response-answered os rt.target r (holds.control) i inside status meta_bytes body
            short c k.world (holds.mapped))) in
      let used : o.is_mapped w.state r.ptr ≡ true = rw world at (
        write_response-mapped os rt.target r (holds.control) i inside status meta_bytes body short c
          k.world (holds.mapped)) in
      record {
        done = rw memory settles;
        stored = λ brief.
            AnswerAt-Calm r i (response_overflow_name_gen rt.target c i) status meta_bytes body w _
              calm
              (write_response-AnswerAt os rt.target r (holds.control) i inside status meta_bytes
                body short c k.world (holds.mapped) w overflow brief wrote);
        same_id = read_req_id-same r i w _ memory ∙ kept_id;
        same_region = refl;
        same_config = refl;
        others =
            OthersKept-trans r i k.world w last
              (subst (OthersKept r i k.world) world (λ j x lt ne owns.
                write_response_isolated r (holds.control) os rt.target i inside meta_bytes body
                  short c k.world (holds.mapped) status j x lt ne owns))
              (OthersKept-same r i w last memory);
        holds = record {
          control = holds.control;
          mapped = calm.state.mapped r.ptr used;
          apart =
              keep-AllApart r.ptr i overflow k.slots.overflow_regions
                (write_response-Elsewhere os rt.target r (holds.control) i inside status meta_bytes
                  body short c k.world (holds.mapped) w overflow wrote)
                (holds.apart);
        };
      }

  -- A response that was sent, with its metadata encoded.
  pub record Sent (i status : ℕ) (meta : ResponseMeta) (body : List ℕ) (k k' : Worker rt)
      : Type 0 where
    pub meta_bytes : List ℕ
    pub encoded : rt.response_code.to_allocvec meta ≡ coded meta_bytes
    pub answers : Answers i status meta_bytes body k k'

  -- A worker whose entry for a slot was dropped.
  forgotten-IsWorker :
      (i : ℕ) (k : Worker rt) → IsWorker rt k → IsWorker rt (forget_overflow rt i k)
  unfolding forget_overflow
  forgotten-IsWorker i k holds = record {
    control = holds.control;
    mapped =
        drop_held_mapped rt laws (k.slots.overflow_regions i) k.world k.slots.region.ptr
          (λ region e. holds.apart i region e) (holds.mapped);
    apart =
        put-AllApart k.slots.region.ptr i none k.slots.overflow_regions
          (λ region e. absurd (ground arith)) (holds.apart);
  }

  forgotten_none :
      (i : ℕ) (k : Worker rt) → (forget_overflow rt i k).slots.overflow_regions i ≡ none
  unfolding forget_overflow
  forgotten_none i k = let same : (i == i) ≡ true = ground arith in rw same

  forgotten-Answers :
      (i status : ℕ) (meta_bytes body : List ℕ) (k k' : Worker rt)
      → Answers i status meta_bytes body (forget_overflow rt i k) k'
      → Answers i status meta_bytes body k k'
  unfolding forget_overflow
  forgotten-Answers i status meta_bytes body k k' a = record {
    done = a.done;
    stored = a.stored;
    same_id =
        a.same_id
        ∙ read_req_id-same k.slots.region i k.world _ (
            ap (λ (f : ℕ → Memory). f k.slots.region.ptr)
              (drop_held-memory (k.slots.overflow_regions i) k.world));
    same_region = a.same_region;
    same_config = a.same_config;
    others =
        OthersKept-trans k.slots.region i k.world (forget_overflow rt i k).world k'.world
          (OthersKept-same k.slots.region i k.world (forget_overflow rt i k).world (
            ap (λ (f : ℕ → Memory). f k.slots.region.ptr)
              (drop_held-memory (k.slots.overflow_regions i) k.world)))
          (a.others);
    holds = a.holds;
  }

  from_postcard-ok :
      (meta : ResponseMeta) (bytes : List ℕ) (k k1 : Worker rt)
      → lift (from_postcard (rt.response_code.to_allocvec meta)) k ≡ (ok bytes, k1)
      → (rt.response_code.to_allocvec meta ≡ coded bytes) × (k1 ≡ k)
  from_postcard-ok meta bytes k k1 e = by_code (rt.response_code.to_allocvec meta) e
    where
      by_code :
          (x : Coded (List ℕ))
          → lift (from_postcard x) k ≡ (ok bytes, k1)
          → (x ≡ coded bytes) × (k1 ≡ k)
      by_code (coded b) e = (ground arith, ground arith)
      by_code (code_error t) e = absurd (ground arith)

  write_answer-Answers :
      (i status : ℕ) (meta_bytes body : List ℕ) (g k' : Worker rt)
      → IsWorker rt g
      → i < g.slots.region.num_slots
      → length body < u32_mod
      → g.slots.overflow_regions i ≡ none
      → write_answer rt i status meta_bytes body g ≡ (ok tt, k')
      → Answers i status meta_bytes body g k'
  unfolding write_answer
  write_answer-Answers i status meta_bytes body g k' holds inside short empty e =
      let (overflow, k1, wrote, last) = after_write-ok i _ k' e in
      let world : k1 ≡ record g { world = k1.world } = ground arith in
      let wrote' : write_response rt.target g.slots.region i status meta_bytes body g.slots.config
            g.world
          ≡ (ok overflow, k1.world) =
        ground arith in
      rw (last, world)
        (wrote-Answers i status meta_bytes body g overflow k1.world holds inside short empty wrote')

  -- Take a worker whose invariant holds, a slot of the table, and a body of less than 4 GiB. Where
  -- `send_response` succeeds, the slot is done and holds exactly the response (if its encoded metadata
  -- have less than 2 ^ 16 bytes), the request's id is still in the slot, nothing that belongs to another
  -- slot has changed, and the invariant holds.
  pub send_response-Sent :
      (i status : ℕ) (body : List ℕ) (content_type : Text) (headers : List (Text × Text))
      (k k' : Worker rt)
      → IsWorker rt k
      → i < k.slots.region.num_slots
      → length body < u32_mod
      → send_response rt i status body content_type headers k ≡ (ok tt, k')
      → Sent i status (record { content_type = content_type; headers = headers }) body k k'
  unfolding send_response forget_overflow
  send_response-Sent i status body content_type headers k k' holds inside short e =
      let meta : ResponseMeta = record { content_type = content_type; headers = headers } in
      let (meta_bytes, k1, code, rest) =
        >>=-eq-ok (lift (from_postcard (rt.response_code.to_allocvec meta))) _ tt k k' e in
      let (encoded, same) = from_postcard-ok meta meta_bytes k k1 code in
      record {
        meta_bytes = meta_bytes;
        encoded = encoded;
        answers = forgotten-Answers i status meta_bytes body k k' (
            write_answer-Answers i status meta_bytes body (forget_overflow rt i k) k'
              (forgotten-IsWorker i k holds) inside short (forgotten_none i k) (rw same at rest));
      }
