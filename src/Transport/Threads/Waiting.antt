-- ===== src/Transport/Threads/Waiting.antt =====
-- A request on its way between the thread that publishes it and the one that takes it.
use slotbus.Base.{ℕ, ◌+◌, ◌≤◌, ◌⊎◌, ◌<◌, ◌≡◌, refl, ◌∙◌, inl, inr}
use slotbus.Types.{slot_ready}
use slotbus.Os.{Os}
use slotbus.Region.{ShmRegion, region_memory, slot_address}
use slotbus.Region.Isolation.{Owns}
use slotbus.Region.Slots.{load_status}
use slotbus.Region.Requests.Steps.{IsControl}
use slotbus.Transport.Threads.{serving, System, Step, Steps, rest, step}
use slotbus.Transport.Threads.Acts.{IsSystem}
use slotbus.Transport.Threads.Owned.{Step-IsSystem, Step-ready}

module _ {o : Os} (r : ShmRegion o) where
  -- Slot `i` is ready still, and is as it was, byte by byte.
  pub record Waits (i : ℕ) (s t : System o) : Type 0 where
    pub ready : load_status r i t.world ≡ slot_ready
    pub bytes : (x : ℕ) → Owns r i x → region_memory r t.world x ≡ region_memory r s.world x

  -- On the way from `s` to `t`, a thread came to serve slot `i`, which had waited until then, and found every
  -- byte of it but the status word as it was.
  pub record Taken (who : ℕ → Type 0) (i : ℕ) (s t : System o) : Type 0 where
    pub taker : ℕ
    pub before : System o
    pub served : System o
    pub allowed : who taker
    pub first : Steps r who s before
    pub waits : Waits i s before
    pub takes : Step r taker before served
    pub serves : served.phase taker ≡ serving i
    pub bytes :
        (x : ℕ)
        → (x < slot_address i) ⊎ (slot_address i + 4 ≤ x)
        → Owns r i x
        → region_memory r served.world x ≡ region_memory r s.world x
    pub later : Steps r who served t

  module _ (control : IsControl r) (who : ℕ → Type 0) (i : ℕ) where
    after : (s t : System o) → IsSystem r s → Steps r who s t → IsSystem r t
    after s t sys rest = sys
    after s t sys (step p u v allowed run last) =
        Step-IsSystem r control p u v (after s u sys run) last

    Taken-step :
        (p : ℕ) (s t u : System o) → who p → Step r p t u → Taken who i s t → Taken who i s u
    Taken-step p s t u allowed last k = record {
      taker = k.taker;
      before = k.before;
      served = k.served;
      allowed = k.allowed;
      first = k.first;
      waits = k.waits;
      takes = k.takes;
      serves = k.serves;
      bytes = k.bytes;
      later = step p t u allowed (k.later) last;
    }

    -- Take a control region with its heap of less than 4 GiB right behind the table, threads each of which holds
    -- its slot alone and in the right status, and a slot of the table that is ready. Whatever steps the threads
    -- take from there, in any order: either the slot is ready still, and no byte of its entry or of its two
    -- halves has changed; or, on the way, one of the threads came to serve the slot, before that step the
    -- slot had stayed ready with no byte of it changed, and after that step no byte of it but its status
    -- word had.
    pub Steps-Taken :
        (s t : System o)
        → IsSystem r s
        → i < r.num_slots
        → load_status r i s.world ≡ slot_ready
        → Steps r who s t
        → Waits i s t ⊎ Taken who i s t
    Steps-Taken s t sys lt ready rest = inl (record { ready = ready; bytes = λ x owns. refl })
    Steps-Taken s t sys lt ready (step p u v allowed run last) =
        elim (Steps-Taken s u sys lt ready run) [
          | inr taken ↦ inr (Taken-step p s u v allowed last taken)
          | inl waits ↦
              elim (Step-ready r control p i u v (after s u sys run) lt (waits.ready) last) [
                | inl (ready', same) ↦
                    inl (record {
                      ready = ready';
                      bytes = λ x owns. same x owns ∙ waits.bytes x owns;
                    })
                | inr (serves, only) ↦ inr (record {
                  taker = p;
                  before = u;
                  served = v;
                  allowed = allowed;
                  first = run;
                  waits = waits;
                  takes = last;
                  serves = serves;
                  bytes = λ x apart owns. only x apart ∙ waits.bytes x owns;
                  later = rest;
                })
              ]
        ]
