-- ===== src/Region/Calm.antt =====
-- Steps that leave every byte alone, every mapping in use, and every name: what is stored stays stored.
use slotbus.Base.{ℕ, ◌≡◌, refl, ap, ◌∙◌, Text, List, true}
use slotbus.Memory.{Memory}
use slotbus.Error.{Outcome}
use slotbus.Os.{Os, World, Opened, opened}
use slotbus.Region.{ShmRegion, region_memory}
use slotbus.Region.Overflow.Fresh.{Opens}
use slotbus.Region.Overflow.Spill.{Spills}
use slotbus.Region.Payload.Stored.{BodyAt, nowhere, inline, overflow}

-- Every mapping in use stays so, and every name goes on opening the same mapping.
pub record Quiet (o : Os) (s s' : o.State) : Type 0 where
  pub mapped : (p : ℕ) → o.is_mapped s p ≡ true → o.is_mapped s' p ≡ true
  pub names :
      (name : Text) (h : o.Shmem)
      → (o.open_map name s).0 ≡ opened h
      → (g : o.Shmem) × ((o.open_map name s').0 ≡ opened g)
        × (o.as_ptr g ≡ o.as_ptr h)
        × (o.size_of g ≡ o.size_of h)

module _ {o : Os} where
  pub Quiet-refl : (s : o.State) → Quiet o s s
  Quiet-refl s = record { mapped = λ p h. h; names = λ name h e. (h, e, refl, refl) }

  pub Quiet-trans : (s s' s'' : o.State) → Quiet o s s' → Quiet o s' s'' → Quiet o s s''
  Quiet-trans s s' s'' q q' = record {
    mapped = λ p h. q'.mapped p (q.mapped p h);
    names = λ name h e.
        let (g, found, ptr, len) = q.names name h e in
        let (g', found', ptr', len') = q'.names name g found in
        (g', found', ptr' ∙ ptr, len' ∙ len);
  }

  pub Opens-Quiet :
      (name : Text) (reg : ShmRegion o) (s s' : o.State)
      → Quiet o s s'
      → Opens name reg s
      → Opens name reg s'
  Opens-Quiet name reg s s' q opens =
      let (g, found, ptr, len) =
        q.names name opens.handle (ap (λ (x : Opened o.Shmem × o.State). x.0) (opens.open_lem)) in
      record {
        handle = g;
        after = (o.open_map name s').1;
        open_lem = ap (λ (x : Opened o.Shmem). (x, (o.open_map name s').1)) found;
        same_ptr = ptr ∙ opens.same_ptr;
        same_len = len ∙ opens.same_len;
      }

  pub record Calm (w w' : World o) : Type 0 where
    pub memory : w'.memory ≡ w.memory
    pub state : Quiet o w.state w'.state

  pub Calm-refl : (w : World o) → Calm w w
  Calm-refl w = record { memory = refl; state = Quiet-refl w.state }

  pub Calm-trans : (w w' w'' : World o) → Calm w w' → Calm w' w'' → Calm w w''
  Calm-trans w w' w'' k l = record {
    memory = l.memory ∙ k.memory;
    state = Quiet-trans w.state w'.state w''.state (k.state) (l.state);
  }

  pub region_memory-Calm :
      (r : ShmRegion o) (w w' : World o) → Calm w w' → region_memory r w' ≡ region_memory r w
  region_memory-Calm r w w' k = ap (λ (f : ℕ → Memory). f r.ptr) (k.memory)

  Spills-Calm :
      (name_for : ℕ → Outcome Text) (body : List ℕ) (p : ℕ) (reg : ShmRegion o) (marker : ℕ)
      (w w' : World o)
      → Calm w w'
      → Spills name_for body p reg marker w
      → Spills name_for body p reg marker w'
  Spills-Calm name_for body p reg marker w w' k s = record {
    generation = s.generation;
    marked = s.marked;
    encoded = s.encoded;
    name = s.name;
    named = s.named;
    own = s.own;
    long = s.long;
    opens = Opens-Quiet s.name reg w.state w'.state (k.state) (s.opens);
    apart = s.apart;
    holds = rw (region_memory-Calm reg w w' k) (s.holds);
  }

  pub BodyAt-Calm :
      (r : ShmRegion o) (name_for : ℕ → Outcome Text) (f : ℕ) (body : List ℕ) (w w' : World o)
      → Calm w w'
      → BodyAt r name_for f body w
      → BodyAt r name_for f body w'
  BodyAt-Calm r name_for f body w w' k (nowhere empty len) =
      nowhere empty (rw (region_memory-Calm r w w' k) len)
  BodyAt-Calm r name_for f body w w' k (inline at) = inline (rw (region_memory-Calm r w w' k) at)
  BodyAt-Calm r name_for f body w w' k (overflow s) = overflow (record {
    region = s.region;
    marker = s.marker;
    some_bytes = s.some_bytes;
    len_field = rw (region_memory-Calm r w w' k) (s.len_field);
    marker_field = rw (region_memory-Calm r w w' k) (s.marker_field);
    spills = Spills-Calm name_for body r.ptr s.region s.marker w w' k (s.spills);
  })
