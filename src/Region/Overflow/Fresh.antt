-- ===== src/Region/Overflow/Fresh.antt =====
-- A new overflow region is nobody else's, is as long as was asked for, and is found by its name.
use slotbus.Base.{
  ℕ, ◌≤◌, ◌≡◌, ◌≢◌, ◌⊎◌, inl, inr, refl, ap, ◌∙◌, arith, Option, some, none, Text, true, Bool-cases,
  Option-cases,
}
use slotbus.Error.{ok}
use slotbus.Config.OsName.{Target, windows, linux, macos}
use slotbus.Os.{
  Os, IsOs, World, >>=-respects, >>=-eq-ok, Created, created, mapping_id_exists, create_error,
  opened,
}
use slotbus.Region.{
  ShmRegion, fresh_region, try_create_exclusive, reclaim_on_windows, reclaim_orphaned_backing_file,
  resolve_backing_file, backing_file_path, create_after_reclaim, or_reclaim, create_exclusive,
}

Created-cases :
    {H : Type 0} (c : Created H)
    → ((h : H) × (c ≡ created h)) ⊎ ((c ≡ mapping_id_exists) ⊎ ((e : Text) × (c ≡ create_error e)))
Created-cases (created h) = inl (h, refl)
Created-cases mapping_id_exists = inr (inl refl)
Created-cases (create_error e) = inr (inr (e, refl))

module _ {o : Os} where
  -- The region can be opened by its name in this state.
  pub record Opens (name : Text) (reg : ShmRegion o) (s : o.State) : Type 0 where
    pub handle : o.Shmem
    pub after : o.State
    pub open_lem : o.open_map name s ≡ (opened handle, after)
    pub same_ptr : o.as_ptr handle ≡ reg.ptr
    pub same_len : o.size_of handle ≡ reg.len

  -- A region that was made by a step from `w` to `w'`.
  pub record IsFresh (name : Text) (size : ℕ) (w : World o) (reg : ShmRegion o) (w' : World o)
      : Type 0 where
    pub own : o.as_ptr reg.shmem ≡ reg.ptr
    pub long : size ≤ reg.len
    pub used : o.is_mapped w'.state reg.ptr ≡ true
    pub opens : Opens name reg w'.state
    pub apart : (p : ℕ) → o.is_mapped w.state p ≡ true → reg.ptr ≢ p

  -- A step that leaves the bytes of every mapping alone, and every mapping that is in use.
  pub record Keeps (w w' : World o) : Type 0 where
    pub memory : w'.memory ≡ w.memory
    pub mapped : (p : ℕ) → o.is_mapped w.state p ≡ true → o.is_mapped w'.state p ≡ true

  pub Keeps-refl : (w : World o) → Keeps w w
  Keeps-refl w = record { memory = refl; mapped = λ p h. h }

  pub Keeps-trans : (w w' w'' : World o) → Keeps w w' → Keeps w' w'' → Keeps w w''
  Keeps-trans w w' w'' k l = record {
    memory = l.memory ∙ k.memory;
    mapped = λ p h. l.mapped p (k.mapped p h);
  }

  module _ (laws : IsOs o) where
    try_state :
        (name : Text) (size : ℕ) (w : World o)
        → (try_create_exclusive name size w).1
          ≡ record w { state = (o.create_map name size w.state).1 }
    unfolding try_create_exclusive
    try_state name size w = elim (Created-cases (o.create_map name size w.state).0) [
      | inl (h, e) ↦ rw (e, try_create_exclusive)
      | inr (inl e) ↦ rw (e, try_create_exclusive)
      | inr (inr (t, e)) ↦ rw (e, try_create_exclusive)
    ]

    try-Keeps :
        (name : Text) (size : ℕ) (w : World o) → Keeps w (try_create_exclusive name size w).1
    try-Keeps name size w =
        rw (try_state name size w)
          (record { memory = refl; mapped = λ p h. laws.create-keeps name size p w.state h })

    try-IsFresh :
        (name : Text) (size : ℕ) (w w' : World o) (reg : ShmRegion o)
        → try_create_exclusive name size w ≡ (ok (some reg), w')
        → IsFresh name size w reg w'
    unfolding try_create_exclusive
    try-IsFresh name size w w' reg h = elim (Created-cases (o.create_map name size w.state).0) [
      | inl (g, e) ↦ found g e
      | inr (inl e) ↦ absurd (ground arith)
      | inr (inr (t, e)) ↦ absurd (ground arith)
    ]
      where
        found :
            (g : o.Shmem)
            → (o.create_map name size w.state).0 ≡ created g
            → IsFresh name size w reg w'
        found g e =
            let made : o.create_map name size w.state
                ≡ (created g, (o.create_map name size w.state).1) =
              ap (λ (c : Created o.Shmem). (c, (o.create_map name size w.state).1)) e in
            let built : reg ≡ fresh_region g name = ground arith in
            let next : w' ≡ record w { state = (o.create_map name size w.state).1 } =
              ground arith in
            rw (built, next)
              (record {
                own = refl;
                long = laws.create-size name size w.state _ g made;
                used = laws.create-maps name size w.state _ g made;
                opens =
                    let (k, s, opens, ptr, len) = laws.create-open name size w.state _ g made in
                    record {
                      handle = k;
                      after = s;
                      open_lem = opens;
                      same_ptr = ptr;
                      same_len = len;
                    };
                apart = λ p mapped same.
                    let fresh = laws.create-fresh name size w.state _ g made in absurd (cc);
              })

    reclaim_on_windows-Keeps : (name : Text) (w : World o) → Keeps w (reclaim_on_windows name w).1
    unfolding reclaim_on_windows
    reclaim_on_windows-Keeps name w = elim (Option-cases (backing_file_path o name)) [
      | inl none_given ↦ rw (none_given, reclaim_on_windows) (Keeps-refl w)
      | inr (path, given) ↦ elim (Option-cases (resolve_backing_file path w)) [
        | inl elsewhere ↦ rw (given, elsewhere, reclaim_on_windows) (Keeps-refl w)
        | inr (file, there) ↦
            rw (given, there, reclaim_on_windows)
              (record { memory = refl; mapped = λ p h. laws.open_exclusive-keeps file p w.state h })
      ]
    ]

    reclaim-Keeps :
        (target : Target) (name : Text) (w : World o)
        → Keeps w (reclaim_orphaned_backing_file target name w).1
    unfolding reclaim_orphaned_backing_file
    reclaim-Keeps linux name w = Keeps-refl w
    reclaim-Keeps macos name w = Keeps-refl w
    reclaim-Keeps windows name w = reclaim_on_windows-Keeps name w

    create_after_reclaim-Keeps :
        (target : Target) (name : Text) (size : ℕ) (w : World o)
        → Keeps w (create_after_reclaim target name size w).1
    unfolding create_after_reclaim
    create_after_reclaim-Keeps target name size w =
        elim (Bool-cases (reclaim_orphaned_backing_file target name w).0) [
          | inl freed ↦
              rw (freed, create_after_reclaim)
                (Keeps-trans w _ _ (reclaim-Keeps target name w) (try-Keeps name size _))
          | inr kept ↦ rw (kept, create_after_reclaim) (reclaim-Keeps target name w)
        ]

    IsFresh-after :
        (name : Text) (size : ℕ) (w w' w'' : World o) (reg : ShmRegion o)
        → Keeps w w'
        → IsFresh name size w' reg w''
        → IsFresh name size w reg w''
    IsFresh-after name size w w' w'' reg k f = record {
      own = f.own;
      long = f.long;
      used = f.used;
      opens = f.opens;
      apart = λ p h. f.apart p (k.mapped p h);
    }

    create_after_reclaim-IsFresh :
        (target : Target) (name : Text) (size : ℕ) (w w' : World o) (reg : ShmRegion o)
        → create_after_reclaim target name size w ≡ (ok (some reg), w')
        → IsFresh name size w reg w'
    unfolding create_after_reclaim
    create_after_reclaim-IsFresh target name size w w' reg h =
        elim (Bool-cases (reclaim_orphaned_backing_file target name w).0) [
          | inl freed ↦
              IsFresh-after name size w _ w' reg (reclaim-Keeps target name w)
                (try-IsFresh name size _ w' reg (rw (freed, create_after_reclaim) at h))
          | inr kept ↦ absurd (ground arith)
        ]

    -- An exclusive creation leaves every mapping alone that was in use.
    pub create_exclusive-Keeps :
        (target : Target) (name : Text) (size : ℕ) (w : World o)
        → Keeps w (create_exclusive target name size w).1
    unfolding create_exclusive
    create_exclusive-Keeps target name size w =
        >>=-respects Keeps (try_create_exclusive name size) (or_reclaim target name size) w
          Keeps-trans (try-Keeps name size w) retry
      where
        retry :
            (r : Option (ShmRegion o)) (v : World o) → Keeps v (or_reclaim target name size r v).1
        retry (some reg) v = Keeps-refl v
        retry none v = create_after_reclaim-Keeps target name size v

    -- A region that it gives is new, long enough, and can be opened by its name.
    pub create_exclusive-IsFresh :
        (target : Target) (name : Text) (size : ℕ) (w w' : World o) (reg : ShmRegion o)
        → create_exclusive target name size w ≡ (ok (some reg), w')
        → IsFresh name size w reg w'
    unfolding create_exclusive
    create_exclusive-IsFresh target name size w w' reg h =
        let (r, v, tried, rest) =
          >>=-eq-ok (try_create_exclusive name size) (or_reclaim target name size) (some reg) w w'
            h in
        retried r v tried rest
      where
        retried :
            (r : Option (ShmRegion o)) (v : World o)
            → try_create_exclusive name size w ≡ (ok r, v)
            → or_reclaim target name size r v ≡ (ok (some reg), w')
            → IsFresh name size w reg w'
        retried (some made) v tried rest = try-IsFresh name size w w' reg (ground arith)
        retried none v tried rest =
            IsFresh-after name size w v w' reg (ground (arith, try-Keeps name size w))
              (create_after_reclaim-IsFresh target name size v w' reg rest)
