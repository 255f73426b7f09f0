-- ===== src/Region/Overflow/Spill.antt =====
-- A payload that spills: which region it goes to, that the region holds it, and that no mapping that
-- was in use is touched.
use slotbus.Base.{
  ℕ, zero, suc, ◌+◌, ◌≤◌, ◌<◌, ◌≡◌, ◌≢◌, refl, ap, subst, ◌∙◌, arith, List, [], Option, some, none,
  Text, true, false, length, usize_mod, ltb, le→not-ltb,
}
use slotbus.Error.{Outcome, ok, err, panicked}
use slotbus.Memory.{Memory, store, load}
use slotbus.Memory.Laws.{load-store}
use slotbus.Types.{max_overflow_generation}
use slotbus.Config.OsName.{Target}
use slotbus.Os.{Os, IsOs, World, Opened, M, lift, continue, >>=-respects, >>=-eq-ok}
use slotbus.Region.{
  ShmRegion, region_memory, set_memory, open_region, drop_region, create_exclusive,
}
use slotbus.Region.Heap.Access.{set_memory_self}
use slotbus.Region.Overflow.Fresh.{
  Opens, IsFresh, Keeps, create_exclusive-Keeps, create_exclusive-IsFresh,
}
use slotbus.Region.Overflow.{
  overflow_size_for, fill_overflow, fill_or_next, create_from, create_overflow_fresh, read_overflow,
}

overflow_size_for-le : (n : ℕ) → n + 4095 < usize_mod → n ≤ overflow_size_for n
unfolding overflow_size_for
overflow_size_for-le n h = omega arith

module _ {o : Os} where
  -- Every mapping that is in use stays so, with the same bytes.
  abbrev pub Spares : World o → World o → Type 0
  Spares w w' =
      (p : ℕ)
      → o.is_mapped w.state p ≡ true
      → (o.is_mapped w'.state p ≡ true) × (w'.memory p ≡ w.memory p)

  Spares-trans : (u v w : World o) → Spares u v → Spares v w → Spares u w
  Spares-trans u v w f g p h = let (m, e) = f p h in let (m', e') = g p m in (m', e' ∙ e)

  Spares-refl : (w : World o) → Spares w w
  Spares-refl w p h = (h, refl)

  Keeps-Spares : (w w' : World o) → Keeps w w' → Spares w w'
  Keeps-Spares w w' k p h = (k.mapped p h, ap (λ (f : ℕ → Memory). f p) (k.memory))

  -- A payload that lies in a region of its own, which a reader finds by its marker. The mapping `p`
  -- is another one.
  pub record Spills (name_for : ℕ → Outcome Text) (bytes : List ℕ) (p : ℕ) (reg : ShmRegion o)
      (marker : ℕ) (w' : World o) : Type 0 where
    pub generation : ℕ
    pub marked : marker ≡ generation + 1
    pub encoded : generation ≤ max_overflow_generation
    pub name : Text
    pub named : name_for generation ≡ ok name
    pub own : o.as_ptr reg.shmem ≡ reg.ptr
    pub long : length bytes ≤ reg.len
    pub opens : Opens name reg w'.state
    pub apart : reg.ptr ≢ p
    pub holds : load (w'.memory reg.ptr) 0 (length bytes) ≡ bytes

  module _ (laws : IsOs o) (target : Target) (name_for : ℕ → Outcome Text) (bytes : List ℕ)
      (sized : length bytes + 4095 < usize_mod) where
    fill_overflow_ok :
        (reg : ShmRegion o) (name : Text) (w : World o)
        → length bytes ≤ reg.len
        → fill_overflow target reg name bytes w
          ≡ (ok reg, set_memory reg (store (region_memory reg w) 0 bytes) w)
    unfolding fill_overflow
    fill_overflow_ok reg name w long = rw (le→not-ltb reg.len (length bytes) long)

    -- A new region is long enough for the payload, and is no mapping that was in use.
    made_IsFresh :
        (name : Text) (w v : World o) (reg : ShmRegion o)
        → create_exclusive target name (overflow_size_for (length bytes)) w ≡ (ok (some reg), v)
        → (length bytes ≤ reg.len) × IsFresh name (overflow_size_for (length bytes)) w reg v
    made_IsFresh name w v reg made =
        let fresh =
          create_exclusive-IsFresh laws target name (overflow_size_for (length bytes)) w v reg
            made in
        (omega (arith, overflow_size_for-le (length bytes) sized, fresh.long), fresh)

    exclusive-Spares :
        (name : Text) (n : ℕ) (w v : World o) (r : Outcome (Option (ShmRegion o)))
        → create_exclusive target name n w ≡ (r, v)
        → Spares w v
    exclusive-Spares name n w v r e =
        subst (Spares w) (ap (λ (x : Outcome (Option (ShmRegion o)) × World o). x.1) e)
          (Keeps-Spares w _ (create_exclusive-Keeps laws target name n w))

    fill_or_next-Spares :
        (name : Text) (g : ℕ) (next : M (World o) (ShmRegion o × ℕ)) (w : World o)
        → ((v : World o) → Spares v (next v).1)
        → (r : Outcome (Option (ShmRegion o)) × World o)
        → create_exclusive target name (overflow_size_for (length bytes)) w ≡ r
        → Spares w (continue r (fill_or_next target name bytes g next)).1
    unfolding fill_or_next
    fill_or_next-Spares name g next w ih (ok (some reg), v) e =
        let (long, fresh) = made_IsFresh name w v reg e in
        rw (fill_overflow_ok reg name v long) (λ p h.
          let (m, same) = exclusive-Spares name _ w v _ e p h in
          let other = fresh.apart p h in (m, ground arith))
    fill_or_next-Spares name g next w ih (ok none, v) e =
        Spares-trans w v _ (exclusive-Spares name _ w v _ e) (ih v)
    fill_or_next-Spares name g next w ih (err x, v) e = exclusive-Spares name _ w v _ e
    fill_or_next-Spares name g next w ih (panicked, v) e = exclusive-Spares name _ w v _ e

    -- However the search for a free name ends, no mapping in use is touched.
    pub create_from-Spares :
        (left g : ℕ) (last_name : Text) (w : World o)
        → Spares w (create_from target name_for bytes left g last_name w).1
    unfolding create_from
    create_from-Spares zero g last_name w = Spares-refl w
    create_from-Spares (suc left) g last_name w =
        >>=-respects Spares (lift (name_for g)) _ w Spares-trans (Spares-refl w) λ name v.
          fill_or_next-Spares name g (create_from target name_for bytes left (g + 1) name) v
            (create_from-Spares left (g + 1) name) _ refl

    fill_or_next-Spills :
        (name : Text) (g : ℕ) (next : M (World o) (ShmRegion o × ℕ)) (w w' : World o)
        (reg : ShmRegion o) (marker p : ℕ)
        → o.is_mapped w.state p ≡ true
        → name_for g ≡ ok name
        → g ≤ max_overflow_generation
        → ((v : World o)
            → Spares w v
            → next v ≡ (ok (reg, marker), w')
            → Spills name_for bytes p reg marker w')
        → (r : Option (ShmRegion o)) (v : World o)
        → create_exclusive target name (overflow_size_for (length bytes)) w ≡ (ok r, v)
        → fill_or_next target name bytes g next r v ≡ (ok (reg, marker), w')
        → Spills name_for bytes p reg marker w'
    unfolding fill_or_next
    fill_or_next-Spills name g next w w' reg marker p used named le ih (some made) v e h =
        let (long, fresh) = made_IsFresh name w v made e in
        let done = rw (fill_overflow_ok made name v long) at h in
        let m = store (region_memory made v) 0 bytes in
        let built : reg ≡ made = ground arith in
        let marked : marker ≡ g + 1 = ground arith in
        let last : w' ≡ set_memory made m v = ground arith in
        rw (built, marked, last)
          (record {
            generation = g;
            marked = refl;
            encoded = le;
            name = name;
            named = named;
            own = fresh.own;
            long = long;
            opens = fresh.opens;
            apart = fresh.apart p used;
            holds = rw (set_memory_self made m v) (load-store (region_memory made v) 0 bytes);
          })
    fill_or_next-Spills name g next w w' reg marker p used named le ih none v e h =
        ih v (exclusive-Spares name _ w v _ e) h

    create_from-Spills :
        (left g : ℕ) (last_name : Text) (w w' : World o) (reg : ShmRegion o) (marker p : ℕ)
        → o.is_mapped w.state p ≡ true
        → g + left ≤ max_overflow_generation + 1
        → create_from target name_for bytes left g last_name w ≡ (ok (reg, marker), w')
        → Spills name_for bytes p reg marker w'
    unfolding create_from
    create_from-Spills zero g last_name w w' reg marker p used le h = absurd (ground arith)
    create_from-Spills (suc left) g last_name w w' reg marker p used le h =
        let (name, v, named, made) = >>=-eq-ok (lift (name_for g)) _ (reg, marker) w w' h in
        let (r, v', tried, rest) =
          >>=-eq-ok (create_exclusive target name (overflow_size_for (length bytes)))
            (fill_or_next target name bytes g (create_from target name_for bytes left (g + 1) name))
            (reg, marker) v w' made in
        fill_or_next-Spills name g (create_from target name_for bytes left (g + 1) name) v w' reg
          marker p (ground arith) (ground arith) (omega arith)
          (λ u spares e.
            create_from-Spills left (g + 1) name u w' reg marker p (spares p (ground arith)).0
              (omega arith) e)
          r v' tried rest

    -- Where `create_overflow_fresh` succeeds, the marker is a generation of at most 254 plus
    -- one; the name of that generation opens a mapping at the new region's address and of its
    -- length; that region is long enough and begins with the payload; and it is not at an
    -- address that was mapped before. The payload is shorter than 2 ^ 64 less a page.
    pub create_overflow_fresh-Spills :
        (w w' : World o) (reg : ShmRegion o) (marker p : ℕ)
        → o.is_mapped w.state p ≡ true
        → create_overflow_fresh target name_for bytes w ≡ (ok (reg, marker), w')
        → Spills name_for bytes p reg marker w'
    unfolding create_overflow_fresh
    create_overflow_fresh-Spills w w' reg marker p used h =
        create_from-Spills (max_overflow_generation + 1) 0 [] w w' reg marker p used (omega arith) h

    -- Whatever comes of `create_overflow_fresh`, every mapping that was in use before is still
    -- mapped, with the same bytes. The payload is shorter than 2 ^ 64 less a page.
    pub create_overflow_fresh-Spares :
        (w : World o) → Spares w (create_overflow_fresh target name_for bytes w).1
    unfolding create_overflow_fresh
    create_overflow_fresh-Spares w = create_from-Spares (max_overflow_generation + 1) 0 [] w

  -- A reader that knows the name gets the payload.
  pub read_overflow_ok :
      (target : Target) (name : Text) (bytes : List ℕ) (reg : ShmRegion o) (w : World o)
      → Opens name reg w.state
      → length bytes ≤ reg.len
      → load (w.memory reg.ptr) 0 (length bytes) ≡ bytes
      → (read_overflow target name (length bytes) w).0 ≡ ok bytes
  unfolding read_overflow open_region drop_region
  read_overflow_ok target name bytes reg w opens long holds =
      let found = ap (λ (x : Opened o.Shmem × o.State). x.0) (opens.open_lem) in
      let enough : ltb (o.size_of opens.handle) (length bytes) ≡ false =
        le→not-ltb _ _ (omega (arith, opens.same_len)) in
      rw (found, open_region, enough, opens.same_ptr, holds)
