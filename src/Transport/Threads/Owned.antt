-- ===== src/Transport/Threads/Owned.antt =====
-- The runs of all threads of slotbus/src/transport.rs: who holds a slot, and what happens to its bytes.
use native.Mathlib.Decide.{ℕ_discrete}
use slotbus.Base.{ℕ, ◌<◌, ◌≡◌, ◌≢◌, ◌⊎◌, inl, inr, refl, sym, ap, ◌∙◌, arith, some, true}
use slotbus.Types.{slot_free, slot_ready, slot_done, slot_claimed}
use slotbus.Memory.{Memory}
use slotbus.Os.{Os}
use slotbus.Region.{ShmRegion, region_memory}
use slotbus.Region.Isolation.{Owns, OthersKept-status}
use slotbus.Region.Slots.{load_status, store_status, exchange_status}
use slotbus.Region.Requests.Steps.{IsControl}
use slotbus.Transport.Threads.{
  idle, serving, collecting, held, System, watcher, Step, Steps, rest, step,
}
use slotbus.Transport.Threads.Acts.{
  IsSystem, StatusOnly, Acts, held-busy, held-claimed, ready-Turn, same-status,
}
use slotbus.Transport.Threads.Cases.{Step-Acts, collected}

module _ {o : Os} (r : ShmRegion o) where
  idle-IsSystem : (s : System o) → ((p : ℕ) → s.phase p ≡ idle) → IsSystem r s
  unfolding held
  idle-IsSystem s all = record {
    right = λ p i v e. absurd (let now = all p in ground (arith, now, e));
    alone = λ p q i u v e f. absurd (let now = all p in ground (arith, now, e));
    one_watcher = λ p i e. absurd (let now = all p in ground (arith, now, e));
  }

  Acts-IsSystem : (p : ℕ) (s t : System o) → IsSystem r s → Acts r p s t → IsSystem r t
  Acts-IsSystem p s t sys a = record {
    right = λ q i v e. elim (ℕ_discrete q p) [
      | yes same ↦ let (lt, status, other) = a.now i v (rw same at e) in (lt, status)
      | no apart ↦
          let before = rw (a.phases q apart) at e in
          let (lt, status) = sys.right q i v before in
          let ne : i ≢ a.slot = λ same. a.unheld q v apart (rw same at before) in
          (lt, OthersKept-status r (a.slot) s.world t.world i (a.others) lt ne ∙ status)
    ];
    alone = λ q q' i u v e f. elim (ℕ_discrete q p) [
      | yes acts ↦ elim (ℕ_discrete q' p) [
        | yes acts' ↦ acts ∙ sym acts'
        | no apart ↦ absurd (shared q' i u v apart (rw acts at e) f)
      ]
      | no apart ↦ elim (ℕ_discrete q' p) [
        | yes acts' ↦ absurd (shared q i v u apart (rw acts' at f) e)
        | no apart' ↦
            sys.alone q q' i u v (rw (a.phases q apart) at e) (rw (a.phases q' apart') at f)
      ]
    ];
    one_watcher = λ q i e. elim (ℕ_discrete q p) [
      | yes same ↦ same ∙ a.watches i (rw same at e)
      | no apart ↦ sys.one_watcher q i (rw (a.phases q apart) at e)
    ];
  }
    where
      -- What the thread that acts holds afterwards, no other thread does.
      shared :
          (q i u v : ℕ) → q ≢ p → held (t.phase p) ≡ some (i, u) → held (t.phase q) ≢ some (i, v)
      shared q i u v apart e f =
          let (lt, status, other) = a.now i u e in other q v apart (rw (a.phases q apart) at f)

  -- A ready slot that comes to be held is claimed.
  taken :
      (p : ℕ) (s t : System o) (a : Acts r p s t) (v : ℕ)
      → load_status r (a.slot) s.world ≡ slot_ready
      → held (t.phase p) ≡ some (a.slot, v)
      → v ≡ slot_claimed
  taken p s t a v ready holds =
      let (lt, status, other) = a.now (a.slot) v holds in
      elim (a.turns) [
        | inl same ↦
            absurd ((held-busy r (t.phase p) (a.slot) v holds).1 (sym status ∙ same ∙ ready))
        | inr (inside, turn) ↦ sym status ∙ ready-Turn r _ _ ready turn
      ]

  module _ (control : IsControl r) where
    pub Step-IsSystem : (p : ℕ) (s t : System o) → IsSystem r s → Step r p s t → IsSystem r t
    Step-IsSystem p s t sys last = Acts-IsSystem p s t sys (Step-Acts r control s sys p t last)

    -- Take a control region with its heap of less than 4 GiB right behind the table, and threads of which none
    -- holds a slot. Whatever steps the threads take from there, in any order: a slot that a thread holds is in the
    -- table, has the status of the thread's phase (Writing while a request is written, Claimed while it is
    -- served, Done while its response is read), and is held by no other thread; and only the watcher reads a
    -- response.
    pub Steps-IsSystem :
        (who : ℕ → Type 0) (s t : System o)
        → ((p : ℕ) → s.phase p ≡ idle)
        → Steps r who s t
        → IsSystem r t
    Steps-IsSystem who s t all run = after s t (idle-IsSystem s all) run
      where
        after : (s t : System o) → IsSystem r s → Steps r who s t → IsSystem r t
        after s t sys rest = sys
        after s t sys (step p u v allowed run last) = Step-IsSystem p u v (after s u sys run) last

    -- What the holder of a slot may rely on.
    pub record Mine (p i : ℕ) (s t : System o) : Type 0 where
      pub system : IsSystem r t
      pub still : t.phase p ≡ s.phase p
      pub bytes : (x : ℕ) → Owns r i x → region_memory r t.world x ≡ region_memory r s.world x

    -- Take a control region with its heap of less than 4 GiB right behind the table, and threads each of which
    -- holds its slot alone and in the right status. While thread `p` holds slot `i`, whatever steps the other
    -- threads take, in any order, thread `p` still holds the slot as it did, and no byte of the slot's entry or of
    -- its two halves changes.
    pub Steps-Mine :
        (p i v : ℕ) (s t : System o)
        → IsSystem r s
        → held (s.phase p) ≡ some (i, v)
        → Steps r (λ q. q ≢ p) s t
        → Mine p i s t
    Steps-Mine p i v s t sys holds rest = record {
      system = sys;
      still = refl;
      bytes = λ x owns. refl;
    }
    Steps-Mine p i v s t sys holds (step q u w other run last) =
        let m = Steps-Mine p i v s u sys holds run in
        let a = Step-Acts r control u (m.system) q w last in
        let mine = rw (← m.still) at holds in
        let (lt, status) = m.system.right p i v mine in
        let ne : i ≢ a.slot = λ same. a.unheld p v (λ e. other (sym e)) (rw same at mine) in
        record {
          system = Step-IsSystem q u w (m.system) last;
          still = a.phases p (λ e. other (sym e)) ∙ m.still;
          bytes = λ x owns. a.others i x lt ne owns ∙ m.bytes x owns;
        }

    -- Take a control region with its heap of less than 4 GiB right behind the table, and threads each of which
    -- holds its slot alone and in the right status. Where the watcher has seen that a slot is done, then whatever
    -- steps the other threads take, in any order, before the watcher goes on: its exchange of Done for Free
    -- succeeds.
    pub exchange_status-Steps :
        (i : ℕ) (s t : System o)
        → IsSystem r s
        → s.phase watcher ≡ collecting i
        → Steps r (λ q. q ≢ watcher) s t
        → exchange_status r i slot_done slot_free t.world
          ≡ (true, store_status r i slot_free t.world)
    unfolding held
    exchange_status-Steps i s t sys holds run =
        let m = Steps-Mine watcher i slot_done s t sys (rw holds refl) run in
        collected r control t (m.system) watcher i (m.still ∙ holds)

    -- Take a control region with its heap of less than 4 GiB right behind the table, threads each of which holds
    -- its slot alone and in the right status, and a slot of the table that is ready. After one step of any thread,
    -- either the slot is still ready and no byte of it has changed, or that thread serves it, and no byte of it but
    -- its status word has changed.
    pub Step-ready :
        (p i : ℕ) (s t : System o)
        → IsSystem r s
        → i < r.num_slots
        → load_status r i s.world ≡ slot_ready
        → Step r p s t
        → ((load_status r i t.world ≡ slot_ready)
            × ((x : ℕ) → Owns r i x → region_memory r t.world x ≡ region_memory r s.world x))
          ⊎ ((t.phase p ≡ serving i) × StatusOnly r i s.world t.world)
    Step-ready p i s t sys lt ready last =
        let a = Step-Acts r control s sys p t last in
        let unheld : (v : ℕ) → held (s.phase p) ≢ some (i, v) =
          λ v e. (held-busy r (s.phase p) i v e).1 (sym ((sys.right p i v e).1) ∙ ready) in
        elim (ℕ_discrete i (a.slot)) [
          | no apart ↦ inl (
            OthersKept-status r (a.slot) s.world t.world i (a.others) lt apart ∙ ready,
            λ x owns. a.others i x lt apart owns,
          )
          | yes here ↦ elim (a.untouched (rw here at unheld)) [
            | inl same ↦ inl (
              same-status r s.world t.world i same ∙ ready,
              λ x owns. ap (λ (m : Memory). m x) same,
            )
            | inr (v, holds, only) ↦
                let claimed = taken p s t a v (rw here at ready) holds in
                inr (held-claimed r (t.phase p) i (rw (here, ← claimed) holds), rw here only)
          ]
        ]
