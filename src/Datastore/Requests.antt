-- ===== src/Datastore/Requests.antt =====
-- What the requests of src/datastore.c keep, and what they refuse.
use iwtftpd.Base.{
  ℕ, ◌≡◌, refl, ◌∙◌, true, false, List, [], ◌∷◌, none, some, arith, ◌<◌, Option-cases, inl, inr,
  ltb, ◌==◌, take, lt→ltb, All,
}
use iwtftpd.Host.{Host}
use iwtftpd.Datastore.{
  Iwds, Dsession, Dsreq, ok, notpermit, get_dsession, del_dsession, write_bytes, iwds_read,
  iwds_write, iwds_close, iwds_isfile, found, refuse, write_session,
}
use iwtftpd.Datastore.Sessions.{
  OtherKey, IsUnique, get-unlink_self, get_dsession-key, get_dsession_self,
}
use iwtftpd.Datastore.Moves.{
  Moves, Moves-IsUnique, Moves-frame, read-Moves, write-Moves, close-Moves,
}

-- The requests that the TFTP server makes.
pub data Request : Type 0 where
  reads writes closes : Dsreq → Request

abbrev pub ticket : Request → Dsreq
ticket (reads req) = req
ticket (writes req) = req
ticket (closes req) = req

module _ {W : Type 0} ⦃h : Host W⦄ where
  unfoldable pub step : Request → Iwds × W → Iwds × W
  step (reads req) (ds, w) = let r = iwds_read ds req w in (r.ds, r.world)
  step (writes req) (ds, w) = let r = iwds_write ds req w in (r.ds, r.world)
  step (closes req) (ds, w) = let (_, _, ds', w') = iwds_close ds req w in (ds', w')

  unfoldable pub run : List Request → Iwds × W → Iwds × W
  unfolding step
  run [] s = s
  run (r ∷ rs) s = run rs (step r s)

  step-Moves :
      (r : Request) (ds : Iwds) (w : W)
      → Moves (ticket r).dsid (ticket r).dfile ds.dhead (step r (ds, w)).0.dhead
  unfolding step
  step-Moves (reads req) ds w = read-Moves ds req w
  step-Moves (writes req) ds w = write-Moves ds req w
  step-Moves (closes req) ds w = close-Moves ds req w

  -- Whatever the host answers, no history of requests makes two datastore sessions of one number and
  -- file, if there were none.
  pub run-IsUnique :
      (rs : List Request) (ds : Iwds) (w : W)
      → IsUnique ds.dhead
      → IsUnique (run rs (ds, w)).0.dhead
  unfolding run
  run-IsUnique [] ds w u = u
  run-IsUnique (r ∷ rs) ds w u = run-IsUnique rs _ _ (Moves-IsUnique (step-Moves r ds w) u)

  -- A history of requests under keys other than (id, file) leaves the session of that key, its open
  -- file included, exactly as it was.
  pub run-frame :
      (rs : List Request) (ds : Iwds) (w : W) (id : ℕ) (file : List ℕ)
      → All (λ r. OtherKey (ticket r).dsid (ticket r).dfile id file) rs
      → get_dsession (run rs (ds, w)).0.dhead id file ≡ get_dsession ds.dhead id file
  unfolding run
  run-frame [] ds w id file a = refl
  run-frame (r ∷ rs) ds w id file (o, a) =
      run-frame rs _ _ id file a ∙ Moves-frame id file o (step-Moves r ds w)

  -- `del_dsession` of the session that was found under a key.
  pub del-clears :
      (ds : Iwds) (s : Dsession) (id : ℕ) (file : List ℕ) (w : W)
      → IsUnique ds.dhead
      → get_dsession ds.dhead id file ≡ some s
      → get_dsession (del_dsession ds s w).1.dhead id file ≡ none
  unfolding del_dsession
  del-clears ds s id file w u e =
      let (c, f) = get_dsession-key ds.dhead id file e in
      let e' : get_dsession ds.dhead s.clid s.filename ≡ some s =
        get_dsession_self ds.dhead id file e in
      rw (e', del_dsession) (rw (c, f) (get-unlink_self ds.dhead id file u))

  -- With a `dlen` of 0, `iwds_close` succeeds and leaves no session of the key, if no two sessions
  -- have one key.
  pub close_lem :
      (ds : Iwds) (req : Dsreq) (w : W)
      → req.dlen ≡ 0
      → IsUnique ds.dhead
      → let (done, e, ds', w') = iwds_close ds req w in
        (done ≡ true) × (e ≡ ok) × (get_dsession ds'.dhead req.dsid req.dfile ≡ none)
  unfolding iwds_close
  close_lem ds req w z u = elim (Option-cases (get_dsession ds.dhead req.dsid req.dfile)) [
    | inl e ↦ rw (e, z, iwds_close) (refl, refl, e)
    | inr (s, e) ↦ rw (e, iwds_close) (refl, refl, del-clears ds s _ _ w u e)
  ]

  -- A request to write a file that exists, from a client that is not writing it already, is refused
  -- with DSERR_NOTPERMIT; nothing is opened and the sessions stay as they are.
  pub write_refuses_existing :
      (ds : Iwds) (req : Dsreq) (w : W)
      → get_dsession ds.dhead req.dsid req.dfile ≡ none
      → (iwds_isfile ds req.dfile w).0 ≡ found
      → iwds_write ds req w ≡ refuse notpermit ds (iwds_isfile ds req.dfile w).1
  unfolding iwds_write iwds_isfile
  write_refuses_existing ds req w e k = rw (e, k, iwds_write)

  -- A write to a session that takes fewer bytes than asked for drops the session, and is reported
  -- as IW_OK: only the count shows the failure. No two sessions have one key.
  pub short_write_is_ok :
      (ds : Iwds) (req : Dsreq) (w : W) (s : Dsession)
      → IsUnique ds.dhead
      → get_dsession ds.dhead req.dsid req.dfile ≡ some s
      → (h.fwrite s.fp (take req.dlen req.dbuf) w).0 < req.dlen
      → let r = iwds_write ds req w in
        (r.derr ≡ ok)
        × (r.count ≡ (h.fwrite s.fp (take req.dlen req.dbuf) w).0)
        × (get_dsession r.ds.dhead req.dsid req.dfile ≡ none)
  unfolding iwds_write write_session write_bytes
  short_write_is_ok ds req w s u e lt =
      let (wlen, w1) = h.fwrite s.fp (take req.dlen req.dbuf) w in
      let short : ltb wlen req.dlen ≡ true = lt→ltb _ _ lt in
      let more : (req.dlen == 0) ≡ false = ground arith in
      rw (e, iwds_write, write_session, more, write_bytes, short)
        (refl, refl, del-clears ds s _ _ w1 u e)
