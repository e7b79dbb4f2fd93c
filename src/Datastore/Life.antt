-- ===== src/Datastore/Life.antt =====
-- The life of the files that src/datastore.c opens: every file that `fopen` gave is in the list of
-- sessions or has been closed, once.
use iwtftpd.Base.{
  ℕ, suc, ◌+◌, ◌≡◌, refl, true, false, List, Option, none, some, arith, length, Bool-cases, inl,
  inr, ltb, ◌==◌, ◌&&◌, take,
}
use iwtftpd.Host.{Host, OpenMode}
use iwtftpd.Util.{Join, join_path, joined, too_long, before_buffer}
use iwtftpd.Datastore.{
  Iwds, Dsession, Dsreq, get_dsession, del_dsession, add_opened, sizeof_dsession, create_dsession,
  read_session, write_bytes, write_session,
}
use iwtftpd.Datastore.Sessions.{length-unlink, get_dsession-key, get_dsession_self}

-- How often `fopen` has succeeded and `fclose` has been called.
pub record Tally (W : Type 0) : Type 0 where
  pub opens : W → ℕ
  pub closes : W → ℕ

-- What the calls of the C library count.
pub record Counts {W : Type 0} (h : Host W) (t : Tally W) : Type 0 where
  pub malloc_opens : (n : ℕ) (w : W) → t.opens (h.malloc n w).1 ≡ t.opens w
  pub malloc_closes : (n : ℕ) (w : W) → t.closes (h.malloc n w).1 ≡ t.closes w
  pub fopen_some :
      (p : List ℕ) (m : OpenMode) (w : W) (fp : ℕ)
      → (h.fopen p m w).0 ≡ some fp
      → t.opens (h.fopen p m w).1 ≡ suc (t.opens w)
  pub fopen_none :
      (p : List ℕ) (m : OpenMode) (w : W)
      → (h.fopen p m w).0 ≡ none
      → t.opens (h.fopen p m w).1 ≡ t.opens w
  pub fopen_closes : (p : List ℕ) (m : OpenMode) (w : W) → t.closes (h.fopen p m w).1 ≡ t.closes w
  pub fread_opens : (fp n : ℕ) (w : W) → t.opens (h.fread fp n w).1 ≡ t.opens w
  pub fread_closes : (fp n : ℕ) (w : W) → t.closes (h.fread fp n w).1 ≡ t.closes w
  pub fwrite_opens : (fp : ℕ) (b : List ℕ) (w : W) → t.opens (h.fwrite fp b w).1 ≡ t.opens w
  pub fwrite_closes : (fp : ℕ) (b : List ℕ) (w : W) → t.closes (h.fwrite fp b w).1 ≡ t.closes w
  pub fclose_opens : (fp : ℕ) (w : W) → t.opens (h.fclose fp w).1 ≡ t.opens w
  pub fclose_closes : (fp : ℕ) (w : W) → t.closes (h.fclose fp w).1 ≡ suc (t.closes w)

module _ {W : Type 0} ⦃h : Host W⦄ (t : Tally W) (laws : Counts h t) where
  -- The files opened are those closed and those in the list, unless a NULL was dereferenced.
  abbrev pub Balanced : Iwds → W → Type 0
  Balanced ds w = ds.fault ≡ false → t.opens w ≡ t.closes w + length ds.dhead

  pub malloc-Balanced : (ds : Iwds) (n : ℕ) (w : W) → Balanced ds w → Balanced ds (h.malloc n w).1
  malloc-Balanced ds n w b f = omega (arith, b f, laws.malloc_opens n w, laws.malloc_closes n w)

  -- `del_dsession` of a session of the list.
  pub del-Balanced :
      (ds : Iwds) (s : Dsession) (id : ℕ) (file : List ℕ) (w : W)
      → get_dsession ds.dhead id file ≡ some s
      → Balanced ds w
      → let (_, ds', w') = del_dsession ds s w in Balanced ds' w'
  unfolding del_dsession
  del-Balanced ds s id file w e b =
      let (c, f) = get_dsession-key ds.dhead id file e in
      let e' : get_dsession ds.dhead s.clid s.filename ≡ some s =
        get_dsession_self ds.dhead id file e in
      rw (e', del_dsession)
        λ g. omega (
          arith,
          b g,
          length-unlink ds.dhead s.clid s.filename e',
          laws.fclose_opens s.fp w,
          laws.fclose_closes s.fp w,
        )

  add_opened-Balanced :
      (ds : Iwds) (id : ℕ) (file : List ℕ) (fp : ℕ) (w : W)
      → (ds.fault ≡ false → t.opens w ≡ suc (t.closes w + length ds.dhead))
      → let (_, ds', w') = add_opened ds id file fp w in Balanced ds' w'
  unfolding add_opened
  add_opened-Balanced ds id file fp w b =
      let w1 = (h.malloc sizeof_dsession w).1 in
      ground (
        arith,
        laws.malloc_opens sizeof_dsession w,
        laws.malloc_closes sizeof_dsession w,
        laws.malloc_opens (length file + 1) w1,
        laws.malloc_closes (length file + 1) w1,
        laws.fclose_opens fp w1,
        laws.fclose_closes fp w1,
      )

  pub create-Balanced :
      (ds : Iwds) (id : ℕ) (file : List ℕ) (m : OpenMode) (w : W)
      → Balanced ds w
      → let (_, ds', w') = create_dsession ds id file m w in Balanced ds' w'
  unfolding create_dsession
  create-Balanced ds id file m w b = elim (Bool-cases (h.malloc size w).0) [
    | inl a ↦ by_join (join_path ds.dspath file size) refl a
    | inr a ↦ rw (a, create_dsession) (malloc-Balanced ds size w b)
  ]
    where
      size : ℕ
      size = length ds.dspath + length file + 2

      w1 : W
      w1 = (h.malloc size w).1

      by_open :
          (len : ℕ) (path : List ℕ)
          → join_path ds.dspath file size ≡ joined len path
          → (h.malloc size w).0 ≡ true
          → (o : Option ℕ) → (h.fopen path m w1).0 ≡ o
          → let (_, ds', w') = create_dsession ds id file m w in Balanced ds' w'
      by_open len path j a none o =
          rw (a, j, o, create_dsession)
            λ f. omega (
              arith,
              malloc-Balanced ds size w b f,
              laws.fopen_none path m w1 o,
              laws.fopen_closes path m w1,
            )
      by_open len path j a (some fp) o =
          rw (a, j, o, create_dsession)
            (add_opened-Balanced ds id file fp (h.fopen path m w1).1 λ f. omega (
              arith,
              malloc-Balanced ds size w b f,
              laws.fopen_some path m w1 fp o,
              laws.fopen_closes path m w1,
            ))

      by_join :
          (j : Join)
          → join_path ds.dspath file size ≡ j
          → (h.malloc size w).0 ≡ true
          → let (_, ds', w') = create_dsession ds id file m w in Balanced ds' w'
      by_join (joined len path) j a = by_open len path j a (h.fopen path m w1).0 refl
      by_join too_long j a = rw (a, j, create_dsession) (malloc-Balanced ds size w b)
      by_join before_buffer j a = rw (a, j, create_dsession) (malloc-Balanced ds size w b)

  pub read_session-Balanced :
      (ds : Iwds) (s : Dsession) (req : Dsreq) (w : W)
      → get_dsession ds.dhead s.clid s.filename ≡ some s
      → Balanced ds w
      → let r = read_session ds s req w in Balanced r.ds r.world
  unfolding read_session
  read_session-Balanced ds s req w e b =
      let (bytes, w1) = h.fread s.fp req.dlen w in
      let b1 : Balanced ds w1 = λ f.
        omega (arith, b f, laws.fread_opens s.fp req.dlen w, laws.fread_closes s.fp req.dlen w) in
      elim (Bool-cases (ltb (length bytes) req.dlen && h.ferror s.fp w1)) [
        | inl c ↦ rw c (del-Balanced ds s s.clid s.filename w1 e b1)
        | inr c ↦ rw c b1
      ]

  write_bytes-Balanced :
      (ds : Iwds) (s : Dsession) (req : Dsreq) (w : W)
      → get_dsession ds.dhead s.clid s.filename ≡ some s
      → Balanced ds w
      → let r = write_bytes ds s req w in Balanced r.ds r.world
  unfolding write_bytes
  write_bytes-Balanced ds s req w e b =
      let bytes = take req.dlen req.dbuf in
      let (wlen, w1) = h.fwrite s.fp bytes w in
      let b1 : Balanced ds w1 =
        λ f. omega (arith, b f, laws.fwrite_opens s.fp bytes w, laws.fwrite_closes s.fp bytes w) in
      elim (Bool-cases (ltb wlen req.dlen)) [
        | inl c ↦ rw c (del-Balanced ds s s.clid s.filename w1 e b1)
        | inr c ↦ rw c b1
      ]

  pub write_session-Balanced :
      (ds : Iwds) (s : Dsession) (req : Dsreq) (w : W)
      → get_dsession ds.dhead s.clid s.filename ≡ some s
      → Balanced ds w
      → let r = write_session ds s req w in Balanced r.ds r.world
  unfolding write_session
  write_session-Balanced ds s req w e b = elim (Bool-cases (req.dlen == 0)) [
    | inl c ↦ rw c (del-Balanced ds s s.clid s.filename w e b)
    | inr c ↦ rw c (write_bytes-Balanced ds s req w e b)
  ]
