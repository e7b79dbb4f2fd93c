-- ===== src/Tftp/Message/Shape.antt =====
-- The messages that src/tftp.c makes: what they hold, and what the session is after them.
use iwtftpd.Base.{
  ℕ, ◌≤◌, ◌≡◌, refl, sym, ◌∙◌, Bool, true, false, ◌||◌, List, [], ◌∷◌, ◌++◌, some, ltb, length,
  take, drop, be16, arith, Bool-cases, inl, inr, length-take,
}
use iwtftpd.Host.{Host}
use iwtftpd.Datastore.{Iwds, Dsession, get_dsession, iwds_isfile, found}
use iwtftpd.Tftp.Types.{
  Session, TftpError, seemsg, notfound, accessdeny, diskfull, illegalope, unknownid, fileexist,
  nouser, error_code, errmsg, op_data, op_error, datalen_max, msglen_max,
}
use iwtftpd.Tftp.Transfer.{moved, get_session_data}
use iwtftpd.Tftp.Transfer.Feed.{Feeds, Sendable}
use iwtftpd.Tftp.Transfer.Get.{get_session_data_lem, to_send}
use iwtftpd.Tftp.Message.{
  Made, next_block, finish_data, make_tftpdata_msg, error_text, make_tftperr_msg,
}

-- An ERROR message with its number and its text.
abbrev pub error_msg : TftpError → List ℕ → List ℕ
error_msg e text = be16 op_error ++ (be16 (error_code e) ++ (text ++ (0 ∷ [])))

-- A DATA message.
abbrev pub data_msg : ℕ → List ℕ → List ℕ
data_msg blk payload = be16 op_data ++ (be16 blk ++ payload)

make_tftperr_msg-some :
    (e : TftpError) (emsg : List ℕ)
    → length (error_text e emsg) ≤ 511
    → make_tftperr_msg e msglen_max emsg ≡ some (error_msg e (error_text e emsg))
unfolding make_tftperr_msg
make_tftperr_msg-some e emsg fits = ground arith

errmsg_short : (e : TftpError) → length (errmsg e) ≤ 511
errmsg_short seemsg = omega arith
errmsg_short notfound = omega arith
errmsg_short accessdeny = omega arith
errmsg_short diskfull = omega arith
errmsg_short illegalope = omega arith
errmsg_short unknownid = omega arith
errmsg_short fileexist = omega arith
errmsg_short nouser = omega arith

error_text_short :
    (e : TftpError) (emsg : List ℕ) → length emsg ≤ 511 → length (error_text e emsg) ≤ 511
error_text_short seemsg emsg fits = fits
error_text_short notfound emsg fits = errmsg_short notfound
error_text_short accessdeny emsg fits = errmsg_short accessdeny
error_text_short diskfull emsg fits = errmsg_short diskfull
error_text_short illegalope emsg fits = errmsg_short illegalope
error_text_short unknownid emsg fits = errmsg_short unknownid
error_text_short fileexist emsg fits = errmsg_short fileexist
error_text_short nouser emsg fits = errmsg_short nouser

-- The space that `tftp_proc` gives always holds an ERROR message.
pub make_tftperr_msg_lem :
    (e : TftpError) (emsg : List ℕ)
    → length emsg ≤ 511
    → make_tftperr_msg e msglen_max emsg ≡ some (error_msg e (error_text e emsg))
make_tftperr_msg_lem e emsg fits = make_tftperr_msg-some e emsg (error_text_short e emsg fits)

is_short-take : (n : ℕ) (t : List ℕ) → ltb (length t) n ≡ ltb (length (take n t)) n
is_short-take n t = ground (arith, length-take n t)

not_short : (n : ℕ) (t : List ℕ) → ltb (length (take n t)) n ≡ true → n ≤ length t → ⊥
not_short n t e p = ground (arith, length-take n t)

module _ {W : Type 0} ⦃h : Host W⦄ (rest : ℕ → W → List ℕ) (laws : Feeds h rest) (s : Session)
    (ds : Iwds) (f : Dsession) (opened : get_dsession ds.dhead s.clsock s.filename ≡ some f)
    (present : (w : W) → (iwds_isfile ds s.filename w).0 ≡ found) where
  -- What `make_tftpdata_msg` does with a whole block, and with a short one, which is the last.
  pub record Sends (text : List ℕ) (w : W) (r : Made W) : Type 0 where
    pub msg : r.msg ≡ some (data_msg (next_block s.blknum) (take datalen_max text))
    pub number : r.ses.blknum ≡ next_block s.blknum
    pub ends : r.ses.fin ≡ (s.fin || ltb (length text) datalen_max)
    pub same_key : (r.ses.clsock ≡ s.clsock) × (r.ses.filename ≡ s.filename)
    pub same_mode : r.ses.tftpmode ≡ s.tftpmode
    pub goes_on :
        datalen_max ≤ length text
        → (r.ds ≡ ds)
          × (to_send rest laws s ds f opened present r.ses.sesbuf r.world ≡ drop datalen_max text)
          × Sendable s.tftpmode r.ses.sesbuf

  -- What `make_tftpdata_msg` makes, from what `get_session_data` has done.
  pub transfer-Sends :
      (before : Iwds) (w : W) (text : List ℕ)
      → let s1 : Session = record s { blknum = next_block s.blknum } in
        let t = get_session_data s1 before datalen_max w in
        t.result ≡ moved (length (take datalen_max text)) (take datalen_max text)
        → to_send rest laws s ds f opened present t.buf t.world ≡ drop datalen_max text
        → t.ds ≡ ds
        → Sendable s.tftpmode t.buf
        → Sends text w (make_tftpdata_msg s before msglen_max w)
  unfolding make_tftpdata_msg finish_data
  transfer-Sends before w text result later same_ds sendable =
      elim (Bool-cases (ltb (length (take datalen_max text)) datalen_max)) [
        | inl short ↦
            rw (result, make_tftpdata_msg, short)
              (record {
                msg = refl;
                number = refl;
                ends =
                    ends_short s.fin (ltb (length text) datalen_max)
                      (is_short-take datalen_max text ∙ short);
                same_key = (refl, refl);
                same_mode = refl;
                goes_on = λ p. absurd (not_short datalen_max text short p);
              })
        | inr whole ↦
            rw (result, make_tftpdata_msg, whole)
              (record {
                msg = refl;
                number = refl;
                ends =
                    ends_whole s.fin (ltb (length text) datalen_max)
                      (is_short-take datalen_max text ∙ whole);
                same_key = (refl, refl);
                same_mode = refl;
                goes_on = λ p. (same_ds, later, sendable);
              })
      ]
    where
      ends_short : (a b : Bool) → b ≡ true → true ≡ (a || b)
      ends_short true b e = refl
      ends_short false b e = sym e

      ends_whole : (a b : Bool) → b ≡ false → a ≡ (a || b)
      ends_whole true b e = refl
      ends_whole false b e = sym e

  pub make_tftpdata_msg-Sends :
      (w : W)
      → Sendable s.tftpmode s.sesbuf
      → Sends
          (to_send rest laws s ds f opened present s.sesbuf w)
          w
          (make_tftpdata_msg s ds msglen_max w)
  make_tftpdata_msg-Sends w v =
      let s1 : Session = record s { blknum = next_block s.blknum } in
      let text = to_send rest laws s ds f opened present s.sesbuf w in
      let (result, later, same_ds, sendable) =
        get_session_data_lem rest laws s1 ds f opened present datalen_max w (omega arith) v in
      transfer-Sends ds w text result later same_ds sendable
