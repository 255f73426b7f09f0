-- ===== src/Region/Requests/Steps.antt =====
-- The steps of `write_request`, and what each leaves alone.
use slotbus.Base.{
  ℕ, zero, suc, ◌+◌, ◌-◌, ◌*◌, ◌≤◌, ◌<◌, ◌≡◌, refl, ap, ap₂, ◌∙◌, arith, List, [], ◌∷◌, ◌++◌,
  Option, length, take, replicate, min, Text, u32_mod, lt→not-leb, le→leb, length-take,
}
use slotbus.Error.{
  invalid_region, request_index_out_of_range, request_meta_full, Outcome, ok, err, panicked,
}
use slotbus.Memory.{Memory, store, fill, load}
use slotbus.Memory.Laws.{
  SameOn, Apart, SameOn-trans, store-SameOn, fill-SameOn, poke-SameOn, load-SameOn, load-store,
}
use slotbus.Types.{slot_ready, slot_free}
use slotbus.Config.{SlotBusConfig, request_overflow_name_gen}
use slotbus.Config.OsName.{Target}
use slotbus.Os.{Os, World, continue, ◌>>◌, pure}
use slotbus.Region.{ShmRegion, region_memory, set_memory, slot_address}
use slotbus.Region.Heap.{slot_arenas}
use slotbus.Region.Slots.{store_status}
use slotbus.Region.Payload.{place_payload}
use slotbus.Region.Requests.{put_identity, set_status, until_zero, write_request, free_on_error}

-- A control region whose heap lies right behind its slot table, and is measured by a `u32`. The
-- handles that `init_control` and `validate_control` give are such.
pub record IsControl {o : Os} (r : ShmRegion o) : Type 0 where
  pub table : r.heap_offset ≡ 64 + r.num_slots * 128
  pub small : r.heap_size < u32_mod

pub put_identity-SameOn :
    (m : Memory) (slot : ℕ) (req_id : Text) (method a n : ℕ)
    → Apart a n (slot + 4) 37
    → SameOn m (put_identity m slot req_id method) a n
put_identity-SameOn m slot req_id method a n h =
    let cut = take (min (length req_id) 36) req_id in
    let cut_length = length-take (min (length req_id) 36) req_id in
    let m1 = fill m (slot + 4) 0 36 in
    SameOn-trans m m1 _ a n (fill-SameOn m (slot + 4) 0 36 a n (omega arith)) (
      SameOn-trans m1 (store m1 (slot + 4) cut) _ a n
        (store-SameOn m1 (slot + 4) cut a n (omega arith))
        (poke-SameOn (store m1 (slot + 4) cut) (slot + 40) method a n (omega arith)))

load-append : (m : Memory) (a n k : ℕ) → load m a (n + k) ≡ load m a n ++ load m (a + n) k
unfolding load
load-append m a zero k =
    let e : zero + k ≡ k = omega arith in let e' : a + 0 ≡ a = omega arith in rw (e, e')
load-append m a (suc n) k =
    let e : suc n + k ≡ suc (n + k) = omega arith in
    let e' : a + suc n ≡ a + 1 + n = omega arith in
    rw (e, e') (ap (◌∷◌ (m a)) (load-append m (a + 1) n k))

load-fill :
    (m : Memory) (a v n b k : ℕ) → a ≤ b → b + k ≤ a + n → load (fill m a v n) b k ≡ replicate k v
unfolding load fill
load-fill m a v n b zero lo hi = refl
load-fill m a v n b (suc k) lo hi = ground (arith, load-fill m a v n (b + 1) k)

until_zero-append : (t : Text) (k : ℕ) → until_zero (t ++ replicate k 0) ≡ until_zero t
until_zero-append [] zero = refl
until_zero-append [] (suc k) = refl
until_zero-append (b ∷ t) k = ground (arith, until_zero-append t k)

-- What a reader finds of a request id: its first 36 bytes, up to a zero.
pub put_identity_read :
    (m : Memory) (slot : ℕ) (req_id : Text) (method : ℕ)
    → until_zero (load (put_identity m slot req_id method) (slot + 4) 36)
      ≡ until_zero (take (min (length req_id) 36) req_id)
put_identity_read m slot req_id method =
    rw (first, split) (ap until_zero (ap₂ ◌++◌ front back) ∙ until_zero-append cut left)
  where
    cut : Text
    cut = take (min (length req_id) 36) req_id

    left : ℕ
    left = 36 - length cut

    short : length cut ≤ 36
    short = omega (arith, length-take (min (length req_id) 36) req_id)

    cleared : Memory
    cleared = fill m (slot + 4) 0 36

    written : Memory
    written = store cleared (slot + 4) cut

    first :
        load (put_identity m slot req_id method) (slot + 4) 36
        ≡ load written (slot + 4) (length cut + left)
    first =
        load-SameOn written _ (slot + 4) 36
          (poke-SameOn written (slot + 40) method (slot + 4) 36 (omega arith))
        ∙ (let e : 36 ≡ length cut + left = omega (arith, short) in ap (load written (slot + 4)) e)

    split :
        load written (slot + 4) (length cut + left)
        ≡ load written (slot + 4) (length cut) ++ load written (slot + 4 + length cut) left
    split = load-append written (slot + 4) (length cut) left

    front : load written (slot + 4) (length cut) ≡ cut
    front = load-store cleared (slot + 4) cut

    back : load written (slot + 4 + length cut) left ≡ replicate left 0
    back =
        load-SameOn cleared written (slot + 4 + length cut) left
          (store-SameOn cleared (slot + 4) cut (slot + 4 + length cut) left (omega arith))
        ∙ load-fill m (slot + 4) 0 36 (slot + 4 + length cut) left (omega arith)
            (omega (arith, short))

module _ {o : Os} (target : Target) (r : ShmRegion o) (i : ℕ) (req_id : Text) (method : ℕ)
    (meta_bytes body : List ℕ) (c : SlotBusConfig) (w : World o) where
  -- The state behind the first step.
  unfoldable pub with_identity : World o
  with_identity = set_memory r (put_identity (region_memory r w) (slot_address i) req_id method) w

  -- The payload of the request, placed from there.
  unfoldable pub placed : Outcome (Option (ShmRegion o)) × World o
  unfolding with_identity
  placed =
      place_payload target r (slot_address i + 44) (slot_arenas r i).request request_meta_full
        meta_bytes body (request_overflow_name_gen target c i) with_identity

  pub write_request_refuses :
      r.num_slots ≤ i
      → write_request target r i req_id method meta_bytes body c w ≡ (
        err (invalid_region (request_index_out_of_range i r.num_slots)),
        store_status r i slot_free w,
      )
  unfolding write_request
  write_request_refuses h = rw (le→leb r.num_slots i h)

  -- A request in the table is placed; then the slot becomes ready, or free again on an error.
  unfoldable pub finish :
      Outcome (Option (ShmRegion o)) × World o → Outcome (Option (ShmRegion o)) × World o
  finish (ok ovf, v) = (ok ovf, store_status r i slot_ready v)
  finish (err e, v) = (err e, store_status r i slot_free v)
  finish (panicked, v) = (panicked, v)

  pub write_request_lem :
      i < r.num_slots → write_request target r i req_id method meta_bytes body c w ≡ finish placed
  unfolding write_request finish placed with_identity set_status
  write_request_lem h = rw (lt→not-leb r.num_slots i h) (by_result placed)
    where
      by_result :
          (x : Outcome (Option (ShmRegion o)) × World o)
          → free_on_error target r i
              (continue x (λ overflow. set_status r i slot_ready >> pure overflow))
            ≡ finish x
      by_result (ok ovf, v) = refl
      by_result (err e, v) = refl
      by_result (panicked, v) = refl
