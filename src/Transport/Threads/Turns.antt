-- ===== src/Transport/Threads/Turns.antt =====
-- What one step of a thread of slotbus/src/transport.rs does to the status words of the table.
use native.Mathlib.Decide.{ℕ_discrete}
use slotbus.Base.{ℕ, ◌<◌, ◌≡◌, ◌≢◌, ◌⊎◌, inl, inr, ap, ◌∙◌, sym, arith, some, Option-cases}
use slotbus.Os.{Os}
use slotbus.Region.{ShmRegion}
use slotbus.Region.Isolation.{OthersKept-status}
use slotbus.Region.Slots.{load_status}
use slotbus.Region.Requests.Steps.{IsControl}
use slotbus.Transport.Protocol.{Turn}
use slotbus.Transport.Threads.{Phase, held, System, Step}
use slotbus.Transport.Threads.Acts.{IsSystem, Acts, same-status}
use slotbus.Transport.Threads.Cases.{Step-Acts}

-- A phase holds the slot, or not.
held-cases :
    (ph : Phase) (i : ℕ) → ((v : ℕ) × (held ph ≡ some (i, v))) ⊎ ((v : ℕ) → held ph ≢ some (i, v))
held-cases ph i = elim (Option-cases (held ph)) [
  | inl nothing ↦ inr (λ v e. ground (arith, nothing, e))
  | inr (mine, holds) ↦ elim (ℕ_discrete (mine.0) i) [
    | yes here ↦ inl (mine.1, holds ∙ ap (λ k. some (k, mine.1)) here)
    | no apart ↦
        inr (λ v e.
          apart (let same : some mine ≡ some (i, v) = sym holds ∙ e in ground (arith, same)))
  ]
]

module _ {o : Os} (r : ShmRegion o) where
  -- Thread `p` turns one slot, which it held before or holds afterwards.
  pub record Turned (p : ℕ) (s t : System o) : Type 0 where
    pub slot : ℕ
    pub inside : slot < r.num_slots
    pub turn : Turn (load_status r slot s.world) (load_status r slot t.world)
    pub others :
        (j : ℕ) → j < r.num_slots → j ≢ slot → load_status r j t.world ≡ load_status r j s.world
    pub holds :
        ((v : ℕ) × (held (s.phase p) ≡ some (slot, v)))
        ⊎ ((v : ℕ) × (held (t.phase p) ≡ some (slot, v)))

  -- No status of the table changes.
  abbrev pub Unturned : System o → System o → Type 0
  Unturned s t = (j : ℕ) → j < r.num_slots → load_status r j t.world ≡ load_status r j s.world

  Acts-Unturned :
      (p : ℕ) (s t : System o) (a : Acts r p s t)
      → load_status r (a.slot) t.world ≡ load_status r (a.slot) s.world
      → Unturned s t
  Acts-Unturned p s t a same j lt = elim (ℕ_discrete j (a.slot)) [
    | yes here ↦ rw here same
    | no apart ↦ OthersKept-status r (a.slot) s.world t.world j (a.others) lt apart
  ]

  Acts-Turned :
      (p : ℕ) (s t : System o) (a : Acts r p s t)
      → a.slot < r.num_slots
      → Turn (load_status r (a.slot) s.world) (load_status r (a.slot) t.world)
      → ((v : ℕ) × (held (s.phase p) ≡ some (a.slot, v)))
        ⊎ ((v : ℕ) × (held (t.phase p) ≡ some (a.slot, v)))
      → Turned p s t
  Acts-Turned p s t a inside turn holds = record {
    slot = a.slot;
    inside = inside;
    turn = turn;
    others = λ j lt apart. OthersKept-status r (a.slot) s.world t.world j (a.others) lt apart;
    holds = holds;
  }

  -- Take a control region with its heap of less than 4 GiB right behind the table, and threads each of which
  -- holds its slot alone and in the right status. After one step of any thread, either every status in the table
  -- is as it was; or one slot of the table has a new status, which is a turn of the protocol (Free to
  -- Writing, Writing to Ready or Free, Ready to Claimed, Claimed to Done or Free, Done to Free), that thread
  -- held the slot before the step or holds it afterwards, and every other status in the table is as it was.
  pub Step-Turned :
      (p : ℕ) (s t : System o)
      → IsControl r
      → IsSystem r s
      → Step r p s t
      → Unturned s t ⊎ Turned p s t
  Step-Turned p s t control sys last =
      let a = Step-Acts r control s sys p t last in
      elim (a.turns) [
        | inl same ↦ inl (Acts-Unturned p s t a same)
        | inr (inside, turn) ↦ elim (held-cases (s.phase p) (a.slot)) [
          | inl before ↦ inr (Acts-Turned p s t a inside turn (inl before))
          | inr unheld ↦ elim (a.untouched unheld) [
            | inl same ↦ inl (Acts-Unturned p s t a (same-status r s.world t.world (a.slot) same))
            | inr (v, holds, only) ↦ inr (Acts-Turned p s t a inside turn (inr (v, holds)))
          ]
        ]
      ]
