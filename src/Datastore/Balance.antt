-- ===== src/Datastore/Balance.antt =====
-- The open files of src/datastore.c over a run of requests.
use iwtftpd.Base.{
  ℕ, ◌+◌, ◌≡◌, refl, false, List, [], ◌∷◌, none, some, arith, length, Option-cases, Bool-cases, inl,
  inr, ◌==◌,
}
use iwtftpd.Host.{Host, for_read, for_write}
use iwtftpd.Datastore.{
  Iwds, Dsession, Dsreq, get_dsession, is_dsfile, create_dsession, read_open, write_new, iwds_read,
  iwds_write, iwds_close, close_all, failed, missing, found, Check,
}
use iwtftpd.Datastore.Sessions.{get_dsession_self, is_key_iff}
use iwtftpd.Datastore.Moves.{create_lem}
use iwtftpd.Datastore.Requests.{Request, reads, writes, closes, step, run}
use iwtftpd.Datastore.Life.{
  Tally, Counts, Balanced, malloc-Balanced, create-Balanced, read_session-Balanced,
  write_session-Balanced, del-Balanced,
}

created_self :
    (s : Dsession) (ss : List Dsession) → get_dsession (s ∷ ss) s.clid s.filename ≡ some s
unfolding get_dsession
created_self s ss = rw ((is_key_iff s.clid s.filename s).1 (refl, refl))

module _ {W : Type 0} ⦃h : Host W⦄ (t : Tally W) (laws : Counts h t) where
  check-Balanced :
      (ds : Iwds) (dir file : List ℕ) (w : W)
      → Balanced t laws ds w
      → Balanced t laws ds (is_dsfile dir file w).1
  unfolding is_dsfile
  check-Balanced ds dir file w b =
      ground (arith, malloc-Balanced t laws ds (length dir + length file + 2) w b)

  read_open-Balanced :
      (ds : Iwds) (req : Dsreq) (w : W)
      → Balanced t laws ds w
      → let r = read_open ds req w in Balanced t laws r.ds r.world
  unfolding read_open
  read_open-Balanced ds req w b = elim (Option-cases (get_dsession ds.dhead req.dsid req.dfile)) [
    | inr (s, e) ↦
        rw (e, read_open)
          (read_session-Balanced t laws ds s req w (get_dsession_self ds.dhead _ _ e) b)
    | inl e ↦
        let b' = create-Balanced t laws ds req.dsid req.dfile for_read w b in
        let (kept, new) = create_lem ds req.dsid req.dfile for_read w in
        let (created, ds', w1) = create_dsession ds req.dsid req.dfile for_read w in
        elim (Option-cases created) [
          | inl n ↦ rw (e, n, read_open) b'
          | inr (s, n) ↦
              let (c, f, d) = new s n in
              rw (e, n, read_open)
                (read_session-Balanced t laws ds' s req w1 (rw d (created_self s ds.dhead)) b')
        ]
  ]

  write_new-Balanced :
      (ds : Iwds) (req : Dsreq) (w : W)
      → Balanced t laws ds w
      → let r = write_new ds req w in Balanced t laws r.ds r.world
  unfolding write_new
  write_new-Balanced ds req w b =
      let b' = create-Balanced t laws ds req.dsid req.dfile for_write w b in
      let (kept, new) = create_lem ds req.dsid req.dfile for_write w in
      let (created, ds', w1) = create_dsession ds req.dsid req.dfile for_write w in
      elim (Option-cases created) [
        | inl n ↦ rw (n, write_new) b'
        | inr (s, n) ↦
            let (c, f, d) = new s n in
            rw (n, write_new)
              (write_session-Balanced t laws ds' s req w1 (rw d (created_self s ds.dhead)) b')
      ]

  read-Balanced :
      (ds : Iwds) (req : Dsreq) (w : W)
      → Balanced t laws ds w
      → let r = iwds_read ds req w in Balanced t laws r.ds r.world
  unfolding iwds_read
  read-Balanced ds req w b = by_check (is_dsfile ds.dspath req.dfile w).0 refl
    where
      b1 : Balanced t laws ds (is_dsfile ds.dspath req.dfile w).1
      b1 = check-Balanced ds ds.dspath req.dfile w b

      by_check :
          (c : Check)
          → (is_dsfile ds.dspath req.dfile w).0 ≡ c
          → let r = iwds_read ds req w in Balanced t laws r.ds r.world
      by_check failed e = rw (e, iwds_read) b1
      by_check missing e = rw (e, iwds_read) b1
      by_check found e = rw (e, iwds_read) (read_open-Balanced ds req _ b1)

  write-Balanced :
      (ds : Iwds) (req : Dsreq) (w : W)
      → Balanced t laws ds w
      → let r = iwds_write ds req w in Balanced t laws r.ds r.world
  unfolding iwds_write
  write-Balanced ds req w b = elim (Option-cases (get_dsession ds.dhead req.dsid req.dfile)) [
    | inr (s, e) ↦
        rw (e, iwds_write)
          (write_session-Balanced t laws ds s req w (get_dsession_self ds.dhead _ _ e) b)
    | inl e ↦ by_check e (is_dsfile ds.dspath req.dfile w).0 refl
  ]
    where
      b1 : Balanced t laws ds (is_dsfile ds.dspath req.dfile w).1
      b1 = check-Balanced ds ds.dspath req.dfile w b

      by_check :
          get_dsession ds.dhead req.dsid req.dfile ≡ none
          → (c : Check) → (is_dsfile ds.dspath req.dfile w).0 ≡ c
          → let r = iwds_write ds req w in Balanced t laws r.ds r.world
      by_check e failed k = rw (e, k, iwds_write) b1
      by_check e found k = rw (e, k, iwds_write) b1
      by_check e missing k = rw (e, k, iwds_write) (write_new-Balanced ds req _ b1)

  close-Balanced :
      (ds : Iwds) (req : Dsreq) (w : W)
      → Balanced t laws ds w
      → let (_, _, ds', w') = iwds_close ds req w in Balanced t laws ds' w'
  unfolding iwds_close
  close-Balanced ds req w b = elim (Option-cases (get_dsession ds.dhead req.dsid req.dfile)) [
    | inr (s, e) ↦ rw (e, iwds_close) (del-Balanced t laws ds s _ _ w e b)
    | inl e ↦ elim (Bool-cases (req.dlen == 0)) [
      | inl z ↦ rw (e, iwds_close, z) b
      | inr z ↦ rw (e, iwds_close, z) b
    ]
  ]

  step-Balanced :
      (r : Request) (ds : Iwds) (w : W)
      → Balanced t laws ds w
      → let (ds', w') = step r (ds, w) in Balanced t laws ds' w'
  unfolding step
  step-Balanced (reads req) ds w b = read-Balanced ds req w b
  step-Balanced (writes req) ds w b = write-Balanced ds req w b
  step-Balanced (closes req) ds w b = close-Balanced ds req w b

  run-Balanced :
      (rs : List Request) (ds : Iwds) (w : W)
      → Balanced t laws ds w
      → let (ds', w') = run rs (ds, w) in Balanced t laws ds' w'
  unfolding run
  run-Balanced [] ds w b = b
  run-Balanced (r ∷ rs) ds w b = run-Balanced rs _ _ (step-Balanced r ds w b)

  close_all_counts :
      (ss : List Dsession) (w : W)
      → (t.opens (close_all ss w) ≡ t.opens w)
        × (t.closes (close_all ss w) ≡ t.closes w + length ss)
  unfolding close_all
  close_all_counts [] w = omega arith
  close_all_counts (s ∷ ss) w = omega (
    arith,
    close_all_counts ss (h.fclose s.fp w).1,
    laws.fclose_opens s.fp w,
    laws.fclose_closes s.fp w,
  )

  -- From a state in which the open files are those of the list, any history of requests followed by
  -- `iwds_exit` closes as many files as were opened, unless the history dereferences a NULL pointer
  -- (at the failing allocation of a file name in `create_dsession`).
  pub run_closes_files :
      (rs : List Request) (ds : Iwds) (w : W)
      → t.opens w ≡ t.closes w + length ds.dhead
      → (run rs (ds, w)).0.fault ≡ false
      → let (ds', w') = run rs (ds, w) in
        t.opens (close_all ds'.dhead w') ≡ t.closes (close_all ds'.dhead w')
  run_closes_files rs ds w b f =
      let (ds', w') = run rs (ds, w) in
      omega (arith, run-Balanced rs ds w (λ _. b) f, close_all_counts ds'.dhead w')
