-- ===== src/Tftp/Transfer/Ends.antt =====
-- `get_session_data` of src/tftp.c over a datastore that may fail at any call.
use iwtftpd.Base.{
  ℕ, zero, suc, ◌+◌, ◌-◌, ◌≤◌, ◌<◌, ◌≡◌, refl, ◌⊎◌, Bool, true, false, ◌&&◌, List, [], ◌++◌, ltb,
  ◌==◌, none, some, length, arith, Bool-cases, Option-cases, inl, inr, length-append,
}
use iwtftpd.Host.{Host, FreadBound, for_read}
use iwtftpd.Datastore.{
  Iwds, Dsession, Dsreq, Reply, get_dsession, create_dsession, is_dsfile, failed, missing, found,
  refuse, intererror, notexist, nosession, read_session, read_open, iwds_read,
}
use iwtftpd.Tftp.Types.{Storage, Session, session_bufsize}
use iwtftpd.Tftp.Store.{is_ok, load_data, dticket}
use iwtftpd.Tftp.Netascii.Emit.{buffer, least_room}
use iwtftpd.Tftp.Transfer.{moved, io_error, Transferred, give, refill, get_loop, get_session_data}
use iwtftpd.Tftp.Transfer.Feed.{Sendable, filled-Sendable}
use iwtftpd.Tftp.Transfer.Get.{give-Gives, least_room_left}

-- No more bytes are read than there is room for, and `dlen` is their number.
record Reads {W : Type 0} (n : ℕ) (r : Reply W) : Type 0 where
  counted : r.count ≡ length r.bytes
  bounded : length r.bytes ≤ n

-- What a call of `get_session_data` with this room may end with, and that the buffer is well-formed
-- after it.
pub record Fetched {W : Type 0} (s : Session) (room : ℕ) (out : List ℕ) (r : Transferred W)
    : Type 0 where
  pub total : ℕ
  pub bytes : List ℕ
  pub result : r.result ≡ moved total bytes
  pub counted : total ≡ length bytes
  pub bounded : length bytes ≤ length out + room
  pub sendable : Sendable s.tftpmode r.buf

module _ {W : Type 0} ⦃h : Host W⦄ (bound : FreadBound h) where
  read_session-Reads :
      (ds : Iwds) (ses : Dsession) (req : Dsreq) (w : W)
      → Reads req.dlen (read_session ds ses req w)
  unfolding read_session
  read_session-Reads ds ses req w =
      let bytes = (h.fread ses.fp req.dlen w).0 in
      elim (Bool-cases
        (ltb (length bytes) req.dlen && h.ferror ses.fp (h.fread ses.fp req.dlen w).1)) [
          | inl e ↦ rw e (record { counted = refl; bounded = bound ses.fp req.dlen w })
          | inr e ↦ rw e (record { counted = refl; bounded = bound ses.fp req.dlen w })
        ]

  read_open-Reads : (ds : Iwds) (req : Dsreq) (w : W) → Reads req.dlen (read_open ds req w)
  unfolding read_open
  read_open-Reads ds req w = elim (Option-cases (get_dsession ds.dhead req.dsid req.dfile)) [
    | inr (ses, e) ↦ rw (e, read_open) (read_session-Reads ds ses req w)
    | inl e ↦
        let (created, ds', w1) = create_dsession ds req.dsid req.dfile for_read w in
        rw (e, read_open)
          (elim created
            as (λ c. Reads req.dlen (elim c [
              | none ↦ refuse nosession ds' w1
              | some ses ↦ read_session ds' ses req w1
            ])) [
              | none ↦ record { counted = refl; bounded = omega arith }
              | some ses ↦ read_session-Reads ds' ses req w1
            ])
  ]

  iwds_read-Reads : (ds : Iwds) (req : Dsreq) (w : W) → Reads req.dlen (iwds_read ds req w)
  unfolding iwds_read
  iwds_read-Reads ds req w =
      let (check, w1) = is_dsfile ds.dspath req.dfile w in
      elim check
        as (λ c. Reads req.dlen (elim c [
          | failed ↦ refuse intererror ds w1
          | missing ↦ refuse notexist ds w1
          | found ↦ read_open ds req w1
        ])) [
          | failed ↦ record { counted = refl; bounded = omega arith }
          | missing ↦ record { counted = refl; bounded = omega arith }
          | found ↦ read_open-Reads ds req w1
        ]

  -- An empty buffer that was filled without an error.
  load-Sendable :
      (s : Session) (pos : ℕ) (storage : List ℕ) (ds : Iwds) (w : W)
      → length storage ≡ session_bufsize
      → let r = load_data s (buffer pos false 0 storage) ds w in
        r.good ≡ true → Sendable s.tftpmode r.buf × (r.buf.fopt ≡ false)
  unfolding load_data
  load-Sendable s pos storage ds w size e =
      let req = dticket s [] session_bufsize in
      let k = iwds_read-Reads ds req w in
      let bytes = (iwds_read ds req w).bytes in
      elim (Bool-cases (is_ok (iwds_read ds req w).derr)) [
        | inl o ↦
            let n = k.counted in
            rw (o, n) (filled-Sendable s.tftpmode storage bytes size k.bounded, refl)
        | inr o ↦ absurd (cc (rw o at e))
      ]

  refill-Sendable :
      (s : Session) (sb : Storage) (ds : Iwds) (w : W)
      → Sendable s.tftpmode sb
      → (refill s sb ds w).good ≡ true
      → Sendable s.tftpmode (refill s sb ds w).buf × ((refill s sb ds w).buf.fopt ≡ sb.fopt)
  unfolding refill
  refill-Sendable s sb ds w v = by_fields sb.pos sb.fopt sb.datalen sb.storage v
    where
      by_fields :
          (pos : ℕ) (fopt : Bool) (datalen : ℕ) (storage : List ℕ)
          → let sb' = buffer pos fopt datalen storage in
            let r = refill s sb' ds w in
            Sendable s.tftpmode sb'
            → r.good ≡ true
            → Sendable s.tftpmode r.buf × (r.buf.fopt ≡ fopt)
      by_fields pos true zero storage u e = absurd u.ready.after_cr
      by_fields pos false zero storage u e = load-Sendable s pos storage ds w u.size e
      by_fields pos fopt (suc left) storage u e =
          let nonempty : (suc left == 0) ≡ false = ground arith in rw nonempty (u, refl)

  -- The loop ends, with IW_ERR or with bytes.
  abbrev Ended : Session → ℕ → List ℕ → Transferred W → Type 0
  Ended s room out r = (r.result ≡ io_error) ⊎ Fetched s room out r

  Ended-prefix :
      (s : Session) (room : ℕ) (out b : List ℕ) (r : Transferred W)
      → length b ≤ room
      → Ended s (room - length b) (out ++ b) r
      → Ended s room out r
  Ended-prefix s room out b r k (inl e) = inl e
  Ended-prefix s room out b r k (inr g) = inr (record {
    total = g.total;
    bytes = g.bytes;
    result = g.result;
    counted = g.counted;
    bounded = omega (arith, g.bounded, length-append out b);
    sendable = g.sendable;
  })

  get_loop-Ended :
      (fuel : ℕ) (s : Session) (room : ℕ) (out : List ℕ) (sb : Storage) (ds : Iwds) (w : W)
      → room < fuel
      → least_room sb.fopt ≤ room
      → Sendable s.tftpmode sb
      → Ended s room out (get_loop fuel s room out sb ds w)
  unfolding get_loop
  get_loop-Ended zero s room out sb ds w p q v = absurd (omega arith)
  get_loop-Ended (suc fuel) s room out sb ds w p q v =
      let r = refill s sb ds w in
      elim (Bool-cases r.good) [
        | inr bad ↦ rw bad (inl refl)
        | inl good ↦
            let filled = refill-Sendable s sb ds w v good in
            elim (Bool-cases (r.buf.datalen == 0)) [
              | inl e ↦
                  rw (good, e)
                    (inr (record {
                      total = length out;
                      bytes = out;
                      result = refl;
                      counted = refl;
                      bounded = omega arith;
                      sendable = filled.0;
                    }))
              | inr e ↦
                  let g =
                    give-Gives s.tftpmode room r.buf [] filled.0 (ground arith) (rw (filled.1) q) in
                  let (b, sb') = give s.tftpmode room r.buf in
                  rw (good, e)
                    (elim (Bool-cases (ltb (length b) room)) [
                      | inl more ↦ rw more (
                          Ended-prefix s room out b _ g.fits (
                            get_loop-Ended fuel s (room - length b) (out ++ b) sb' r.ds r.world
                              (omega (arith, g.some_bytes))
                              (least_room_left sb'.fopt (length b) room g.cut_fills (ground arith))
                              g.sendable))
                      | inr full ↦ rw full (
                          inr (record {
                            total = length (out ++ b);
                            bytes = out ++ b;
                            result = refl;
                            counted = refl;
                            bounded = omega (arith, g.fits, length-append out b);
                            sendable = g.sendable;
                          }))
                    ])
            ]
      ]

  -- Whatever the files do, as long as `fread` gives no more than it is asked for: with a well-formed
  -- buffer and room for two bytes or more, `get_session_data` ends; it returns IW_ERR, or at most as
  -- many bytes as there is room for, their number, and a buffer that is well-formed again.
  pub get_session_data-ends :
      (s : Session) (ds : Iwds) (room : ℕ) (w : W)
      → 2 ≤ room
      → Sendable s.tftpmode s.sesbuf
      → let r = get_session_data s ds room w in (r.result ≡ io_error) ⊎ Fetched s room [] r
  unfolding get_session_data
  get_session_data-ends s ds room w p v =
      get_loop-Ended (suc room) s room [] s.sesbuf ds w (omega arith) (enough s.sesbuf.fopt) v
    where
      enough : (b : Bool) → least_room b ≤ room
      enough true = p
      enough false = omega arith
