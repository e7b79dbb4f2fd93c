-- ===== src/Datastore/Moves.antt =====
-- How the requests of src/datastore.c change the list of sessions.
use iwtftpd.Base.{
  ℕ, ◌≡◌, refl, ◌∙◌, sym, List, ◌∷◌, none, some, arith, length, Option-cases, Bool-cases, inl, inr,
  ltb, ◌==◌, ◌&&◌, take,
}
use iwtftpd.Host.{Host, OpenMode, for_read, for_write}
use iwtftpd.Datastore.{
  Iwds, Dsession, Dsreq, is_key, get_dsession, unlink, is_dsfile, del_dsession, create_dsession,
  read_session, read_open, write_bytes, write_session, write_new, iwds_read, iwds_write, iwds_close,
  failed, missing, found, Check,
}
use iwtftpd.Datastore.Sessions.{
  OtherKey, IsUnique, is_key_iff, get_dsession-key, get-unlink_ne, unlink-IsUnique,
}

-- What one request under a key may do to the list: drop the session under the key, or put a new
-- one in front where there is none.
pub data Moves (id : ℕ) (file : List ℕ) (ss : List Dsession) : List Dsession → Type 0 where
  stay : Moves id file ss ss
  without : {ts : List Dsession} → Moves id file ss ts → Moves id file ss (unlink ts id file)
  with_new :
      {ts : List Dsession} (s : Dsession)
      → Moves id file ss ts
      → s.clid ≡ id
      → s.filename ≡ file
      → get_dsession ts id file ≡ none
      → Moves id file ss (s ∷ ts)

pub Moves-IsUnique :
    {id : ℕ} {file : List ℕ} {ss ts : List Dsession}
    → Moves id file ss ts
    → IsUnique ss
    → IsUnique ts
Moves-IsUnique stay u = u
Moves-IsUnique {id} {file} (without {ts = ts} m) u = unlink-IsUnique ts id file (Moves-IsUnique m u)
Moves-IsUnique (with_new s m c f e) u = (rw (c, f) e, Moves-IsUnique m u)

pub Moves-frame :
    {id : ℕ} {file : List ℕ} {ss ts : List Dsession} (id' : ℕ) (file' : List ℕ)
    → OtherKey id file id' file'
    → Moves id file ss ts
    → get_dsession ts id' file' ≡ get_dsession ss id' file'
unfolding get_dsession
Moves-frame id' file' ne stay = refl
Moves-frame {id} {file} id' file' ne (without {ts = ts} m) =
    get-unlink_ne ts id file id' file' ne ∙ Moves-frame id' file' ne m
Moves-frame {id} {file} id' file' ne (with_new s m c f e) = elim (Bool-cases (is_key id' file' s)) [
  | inl hit ↦ let (c', f') = (is_key_iff id' file' s).0 hit in absurd (ne (sym c ∙ c', sym f ∙ f'))
  | inr miss ↦ rw miss (Moves-frame id' file' ne m)
]

module _ {W : Type 0} ⦃h : Host W⦄ {id : ℕ} {file : List ℕ} {ss : List Dsession} where
  del-Moves :
      (ds : Iwds) (s : Dsession) (w : W)
      → s.clid ≡ id
      → s.filename ≡ file
      → Moves id file ss ds.dhead
      → Moves id file ss (del_dsession ds s w).1.dhead
  unfolding del_dsession
  del-Moves ds s w c f m = elim (Option-cases (get_dsession ds.dhead s.clid s.filename)) [
    | inl e ↦ rw (e, del_dsession) m
    | inr (p, e) ↦ rw (e, del_dsession) (rw (c, f) (without m))
  ]

  read_session-Moves :
      (ds : Iwds) (s : Dsession) (req : Dsreq) (w : W)
      → s.clid ≡ id
      → s.filename ≡ file
      → Moves id file ss ds.dhead
      → Moves id file ss (read_session ds s req w).ds.dhead
  unfolding read_session
  read_session-Moves ds s req w c f m =
      let (bytes, w1) = h.fread s.fp req.dlen w in
      elim (Bool-cases (ltb (length bytes) req.dlen && h.ferror s.fp w1)) [
        | inl e ↦ rw e (del-Moves ds s w1 c f m)
        | inr e ↦ rw e m
      ]

  write_bytes-Moves :
      (ds : Iwds) (s : Dsession) (req : Dsreq) (w : W)
      → s.clid ≡ id
      → s.filename ≡ file
      → Moves id file ss ds.dhead
      → Moves id file ss (write_bytes ds s req w).ds.dhead
  unfolding write_bytes
  write_bytes-Moves ds s req w c f m =
      let (wlen, w1) = h.fwrite s.fp (take req.dlen req.dbuf) w in
      elim (Bool-cases (ltb wlen req.dlen)) [
        | inl e ↦ rw e (del-Moves ds s w1 c f m)
        | inr e ↦ rw e m
      ]

  write_session-Moves :
      (ds : Iwds) (s : Dsession) (req : Dsreq) (w : W)
      → s.clid ≡ id
      → s.filename ≡ file
      → Moves id file ss ds.dhead
      → Moves id file ss (write_session ds s req w).ds.dhead
  unfolding write_session
  write_session-Moves ds s req w c f m = elim (Bool-cases (req.dlen == 0)) [
    | inl e ↦ rw e (del-Moves ds s w c f m)
    | inr e ↦ rw e (write_bytes-Moves ds s req w c f m)
  ]

module _ {W : Type 0} ⦃h : Host W⦄ where
  -- What `create_dsession` returns stands in front of the list under the key; when it returns NULL
  -- the list is as it was.
  pub create_lem :
      (ds : Iwds) (id : ℕ) (file : List ℕ) (mode : OpenMode) (w : W)
      → let (created, ds', w') = create_dsession ds id file mode w in
        (created ≡ none → ds'.dhead ≡ ds.dhead)
        × ((s : Dsession)
            → created ≡ some s
            → (s.clid ≡ id) × (s.filename ≡ file) × (ds'.dhead ≡ s ∷ ds.dhead))
  unfolding create_dsession
  create_lem ds id file mode w = (ground arith, λ s e. ground arith)

  create-Moves :
      (ds : Iwds) (id : ℕ) (file : List ℕ) (mode : OpenMode) (w : W)
      → get_dsession ds.dhead id file ≡ none
      → Moves id file ds.dhead (create_dsession ds id file mode w).1.dhead
  create-Moves ds id file mode w e =
      let (kept, new) = create_lem ds id file mode w in
      elim (Option-cases (create_dsession ds id file mode w).0) [
        | inl n ↦ rw (kept n) stay
        | inr (s, c) ↦ let (i, f, d) = new s c in rw d (with_new s stay i f e)
      ]

  read_open-Moves :
      (ds : Iwds) (req : Dsreq) (w : W)
      → Moves req.dsid req.dfile ds.dhead (read_open ds req w).ds.dhead
  unfolding read_open
  read_open-Moves ds req w = elim (Option-cases (get_dsession ds.dhead req.dsid req.dfile)) [
    | inr (s, e) ↦
        let (c, f) = get_dsession-key ds.dhead req.dsid req.dfile e in
        rw (e, read_open) (read_session-Moves ds s req w c f stay)
    | inl e ↦
        let (kept, new) = create_lem ds req.dsid req.dfile for_read w in
        let (created, ds', w1) = create_dsession ds req.dsid req.dfile for_read w in
        elim (Option-cases created) [
          | inl n ↦ rw (e, n, read_open) (create-Moves ds req.dsid req.dfile for_read w e)
          | inr (s, n) ↦
              let (c, f, d) = new s n in
              rw (e, n, read_open)
                (read_session-Moves ds' s req w1 c f
                  (create-Moves ds req.dsid req.dfile for_read w e))
        ]
  ]

  pub read-Moves :
      (ds : Iwds) (req : Dsreq) (w : W)
      → Moves req.dsid req.dfile ds.dhead (iwds_read ds req w).ds.dhead
  unfolding iwds_read
  read-Moves ds req w = by_check (is_dsfile ds.dspath req.dfile w).0 refl
    where
      by_check :
          (c : Check)
          → (is_dsfile ds.dspath req.dfile w).0 ≡ c
          → Moves req.dsid req.dfile ds.dhead (iwds_read ds req w).ds.dhead
      by_check failed e = rw (e, iwds_read) stay
      by_check missing e = rw (e, iwds_read) stay
      by_check found e =
          rw (e, iwds_read) (read_open-Moves ds req (is_dsfile ds.dspath req.dfile w).1)

  write_new-Moves :
      (ds : Iwds) (req : Dsreq) (w : W)
      → get_dsession ds.dhead req.dsid req.dfile ≡ none
      → Moves req.dsid req.dfile ds.dhead (write_new ds req w).ds.dhead
  unfolding write_new
  write_new-Moves ds req w e =
      let (kept, new) = create_lem ds req.dsid req.dfile for_write w in
      let (created, ds', w1) = create_dsession ds req.dsid req.dfile for_write w in
      elim (Option-cases created) [
        | inl n ↦ rw (n, write_new) (create-Moves ds req.dsid req.dfile for_write w e)
        | inr (s, n) ↦
            let (c, f, d) = new s n in
            rw (n, write_new)
              (write_session-Moves ds' s req w1 c f
                (create-Moves ds req.dsid req.dfile for_write w e))
      ]

  pub write-Moves :
      (ds : Iwds) (req : Dsreq) (w : W)
      → Moves req.dsid req.dfile ds.dhead (iwds_write ds req w).ds.dhead
  unfolding iwds_write
  write-Moves ds req w = elim (Option-cases (get_dsession ds.dhead req.dsid req.dfile)) [
    | inr (s, e) ↦
        let (c, f) = get_dsession-key ds.dhead req.dsid req.dfile e in
        rw (e, iwds_write) (write_session-Moves ds s req w c f stay)
    | inl e ↦ by_check e (is_dsfile ds.dspath req.dfile w).0 refl
  ]
    where
      by_check :
          get_dsession ds.dhead req.dsid req.dfile ≡ none
          → (c : Check) → (is_dsfile ds.dspath req.dfile w).0 ≡ c
          → Moves req.dsid req.dfile ds.dhead (iwds_write ds req w).ds.dhead
      by_check e failed k = rw (e, k, iwds_write) stay
      by_check e found k = rw (e, k, iwds_write) stay
      by_check e missing k =
          rw (e, k, iwds_write) (write_new-Moves ds req (is_dsfile ds.dspath req.dfile w).1 e)

  pub close-Moves :
      (ds : Iwds) (req : Dsreq) (w : W)
      → Moves req.dsid req.dfile ds.dhead (iwds_close ds req w).2.dhead
  unfolding iwds_close
  close-Moves ds req w = elim (Option-cases (get_dsession ds.dhead req.dsid req.dfile)) [
    | inl e ↦ elim (Bool-cases (req.dlen == 0)) [
      | inl z ↦ rw (e, iwds_close, z) stay
      | inr z ↦ rw (e, iwds_close, z) stay
    ]
    | inr (s, e) ↦
        let (c, f) = get_dsession-key ds.dhead req.dsid req.dfile e in
        rw (e, iwds_close) (del-Moves ds s w c f stay)
  ]
