-- ===== src/Tftp/Proc/Total.antt =====
-- When `tftp_proc` of src/tftp.c returns IW_OK.
use iwtftpd.Base.{
  ℕ, ◌+◌, ◌-◌, ◌≤◌, ◌≡◌, refl, Bool, true, false, ◌&&◌, ◌||◌, not, List, [], Option, none, some,
  ltb, ◌==◌, if◌then◌else◌, length, load16, arith, Bool-cases, Option-cases, inl, inr,
}
use iwtftpd.Host.{Host}
use iwtftpd.Datastore.{Check, found, missing, failed, iwds_isfile}
use iwtftpd.Tftp.Types.{
  Session, SendInfo, TftpError, seemsg, notfound, accessdeny, illegalope, unknownid, fileexist,
  op_rrq, op_wrq, op_data, op_ack, op_error, msglen_max, datalen_max, resend_countmax,
}
use iwtftpd.Tftp.Store.{close_data}
use iwtftpd.Tftp.Transfer.{Moved, moved, io_error, stuck, put_session_data}
use iwtftpd.Tftp.Parse.{parse_tftpreq, parse_tftpdata, parse_tftpack}
use iwtftpd.Tftp.Message.{next_block, make_tftpdata_msg, make_tftpack_msg}
use iwtftpd.Tftp.Message.Shape.{make_tftperr_msg_lem}
use iwtftpd.Tftp.Sessions.{get_session, add_newsession}
use iwtftpd.Tftp.Proc.{
  Server, Sender, Processed, update, errsend, resend, send_data, send_ack, open_session, on_request,
  take_block, on_data, on_ack, on_error, tftp_proc, server_error,
}

abbrev pub is_none : Option Session → Bool
is_none none = true
is_none (some s) = false

module _ {W : Type 0} ⦃h : Host W⦄ where
  -- The function returns IW_OK.
  abbrev IsGood : Processed W → Type 0
  IsGood r = r.good ≡ true

  if-IsGood : (b : Bool) (x y : Processed W) → IsGood x → IsGood y → IsGood (if b then x else y)
  if-IsGood true x y p q = p
  if-IsGood false x y p q = q

  errsend-IsGood :
      (sv : Server) (s : Option Session) (e : TftpError) (emsg : List ℕ) (sinfo : SendInfo) (w : W)
      → length emsg ≤ 511
      → IsGood (errsend sv s e emsg sinfo w)
  unfolding errsend
  errsend-IsGood sv none e emsg sinfo w p = rw (make_tftperr_msg_lem e emsg p, errsend) refl
  errsend-IsGood sv (some s) e emsg sinfo w p = rw (make_tftperr_msg_lem e emsg p, errsend) refl

  resend-IsGood :
      (sv : Server) (s : Session) (sinfo : SendInfo) (w : W) → IsGood (resend sv s sinfo w)
  unfolding resend
  resend-IsGood sv s sinfo w = if-IsGood (ltb s.retrycount resend_countmax) _ _ refl refl

  send_data-IsGood :
      (sv : Server) (s : Session) (sinfo : SendInfo) (w : W) → IsGood (send_data sv s sinfo w)
  unfolding send_data
  send_data-IsGood sv s sinfo w =
      let m = make_tftpdata_msg s sv.ads msglen_max w in
      elim (Option-cases m.msg) [
        | inl absent ↦
            rw (absent, send_data)
              (errsend-IsGood (update sv m.ses m.ds) (some m.ses) seemsg server_error sinfo m.world
                (omega arith))
        | inr (msg, made) ↦ rw (made, send_data) refl
      ]

  send_ack-IsGood :
      (sv : Server) (s : Session) (blk : ℕ) (sinfo : SendInfo) (w : W)
      → IsGood (send_ack sv s blk sinfo w)
  unfolding send_ack make_tftpack_msg
  send_ack-IsGood sv s blk sinfo w = refl

  opened-IsGood :
      (sv : Server) (opcode : ℕ) (new : Option Session) (sinfo : SendInfo) (w : W)
      → let r : Processed W = elim new [
        | none ↦ errsend sv none seemsg server_error sinfo w
        | some s ↦ if opcode == op_rrq then send_data sv s sinfo w else send_ack sv s 0 sinfo w
      ] in
        IsGood r
  opened-IsGood sv opcode none sinfo w =
      errsend-IsGood sv none seemsg server_error sinfo w (omega arith)
  opened-IsGood sv opcode (some s) sinfo w =
      if-IsGood (opcode == op_rrq) _ _ (send_data-IsGood sv s sinfo w)
        (send_ack-IsGood sv s 0 sinfo w)

  checked-IsGood :
      (check : Check) (b c : Bool) (x y z : Processed W)
      → IsGood x
      → IsGood y
      → IsGood z
      → let r : Processed W = elim check [
        | found ↦ if b then x else z
        | missing ↦ if c then y else z
        | failed ↦ z
      ] in
        IsGood r
  checked-IsGood found b c x y z p q r = if-IsGood b x z p r
  checked-IsGood missing b c x y z p q r = if-IsGood c y z q r
  checked-IsGood failed b c x y z p q r = r

  on_request-IsGood :
      (sv : Server) (s : Option Session) (from : Sender) (opcode : ℕ) (rbuf : List ℕ) (rlen : ℕ)
      (sinfo : SendInfo) (w : W)
      → IsGood (on_request sv s from opcode rbuf rlen sinfo w)
  unfolding on_request open_session
  on_request-IsGood sv (some s) from opcode rbuf rlen sinfo w = resend-IsGood sv s sinfo w
  on_request-IsGood sv none from opcode rbuf rlen sinfo w =
      elim (Option-cases (parse_tftpreq rbuf rlen)) [
        | inl bad ↦
            rw (bad, on_request) (errsend-IsGood sv none illegalope [] sinfo w (omega arith))
        | inr (req, parsed) ↦
            let (check, w1) = iwds_isfile sv.ads req.filename w in
            let (new, ss', w2) =
              add_newsession sv.seshead from.sock from.clip from.clport req.filename req.mode w1 in
            rw (parsed, on_request)
              (checked-IsGood check (opcode == op_wrq) (opcode == op_rrq) _ _ _
                (errsend-IsGood sv none fileexist [] sinfo w1 (omega arith))
                (errsend-IsGood sv none notfound [] sinfo w1 (omega arith))
                (opened-IsGood (record sv { seshead = ss' }) opcode new sinfo w2))
      ]

  stored-IsGood :
      (m : Moved) (x y : Processed W)
      → IsGood x
      → IsGood y
      → let r : Processed W = elim m [ moved n bytes ↦ x | io_error ↦ y | stuck ↦ y ] in IsGood r
  stored-IsGood (moved n bytes) x y p q = p
  stored-IsGood io_error x y p q = q
  stored-IsGood stuck x y p q = q

  take_block-IsGood :
      (sv : Server) (s : Session) (blk : ℕ) (payload : List ℕ) (rlen : ℕ) (sinfo : SendInfo) (w : W)
      → IsGood (take_block sv s blk payload rlen sinfo w)
  unfolding take_block
  take_block-IsGood sv s blk payload rlen sinfo w =
      let s1 : Session = if ltb (rlen - 4) datalen_max then record s { fin = true } else s in
      let t = put_session_data s1 sv.ads payload w in
      let s2 : Session = record s1 { sesbuf = t.buf } in
      let (ds', w') = close_data s2 t.ds t.world in
      stored-IsGood t.result _ _
        (if-IsGood s2.fin _ _ (send_ack-IsGood (update sv s2 ds') s2 blk sinfo w')
          (send_ack-IsGood (update sv s2 t.ds) s2 blk sinfo t.world))
        (errsend-IsGood (update sv s2 t.ds) (some s2) accessdeny [] sinfo t.world (omega arith))

  on_data-IsGood :
      (sv : Server) (s : Option Session) (rbuf : List ℕ) (rlen : ℕ) (sinfo : SendInfo) (w : W)
      → IsGood (on_data sv s rbuf rlen sinfo w)
  unfolding on_data
  on_data-IsGood sv none rbuf rlen sinfo w =
      errsend-IsGood sv none unknownid [] sinfo w (omega arith)
  on_data-IsGood sv (some s) rbuf rlen sinfo w =
      let refused = errsend-IsGood sv (some s) illegalope [] sinfo w (omega arith) in
      elim (Option-cases (parse_tftpdata rbuf rlen)) [
        | inl bad ↦ rw (bad, on_data) refused
        | inr (dat, parsed) ↦
            rw (parsed, on_data)
              (if-IsGood (dat.blknum == s.blknum) _ _ (resend-IsGood sv s sinfo w) (
                if-IsGood (dat.blknum == next_block s.blknum) _ _
                  (take_block-IsGood sv s dat.blknum dat.payload rlen sinfo w) refused))
      ]

  on_ack-IsGood :
      (sv : Server) (s : Option Session) (rbuf : List ℕ) (rlen : ℕ) (sinfo : SendInfo) (w : W)
      → IsGood (on_ack sv s rbuf rlen sinfo w)
  unfolding on_ack
  on_ack-IsGood sv none rbuf rlen sinfo w =
      errsend-IsGood sv none unknownid [] sinfo w (omega arith)
  on_ack-IsGood sv (some s) rbuf rlen sinfo w = elim (Option-cases (parse_tftpack rbuf rlen)) [
    | inl bad ↦ rw (bad, on_ack) (errsend-IsGood sv (some s) illegalope [] sinfo w (omega arith))
    | inr (ack, parsed) ↦
        rw (parsed, on_ack)
          (if-IsGood (ack.blknum + 1 == s.blknum) _ _ (resend-IsGood sv s sinfo w) (
            if-IsGood (ack.blknum == s.blknum) _ _
              (if-IsGood s.fin _ _ refl (send_data-IsGood sv s sinfo w)) refl))
  ]

  on_error-good :
      (sv : Server) (s : Option Session) (sinfo : SendInfo) (w : W)
      → (on_error sv s sinfo w).good ≡ not (is_none s)
  unfolding on_error
  on_error-good sv none sinfo w = refl
  on_error-good sv (some s) sinfo w = refl

  -- `tftp_proc` returns IW_ERR in one case only, an ERROR message from a client without a session;
  -- every other message is answered or taken, whatever it holds.
  pub tftp_proc-good :
      (sv : Server) (from : Sender) (rbuf : List ℕ) (rlen : ℕ) (sinfo : SendInfo) (w : W)
      → (tftp_proc sv from rbuf rlen sinfo w).good
        ≡ not
            ((load16 rbuf 0 == op_error) && is_none (get_session sv.seshead from.clip from.clport))
  unfolding tftp_proc
  tftp_proc-good sv from rbuf rlen sinfo w =
      let s = get_session sv.seshead from.clip from.clport in
      let opcode = load16 rbuf 0 in
      elim (Bool-cases (opcode == op_error)) [
        | inl error ↦
            let five : opcode ≡ op_error = ground (arith, error) in
            rw (tftp_proc, five) (on_error-good sv s sinfo w)
        | inr other ↦
            rw (tftp_proc, other)
              (if-IsGood (opcode == op_rrq || opcode == op_wrq) _ _
                (on_request-IsGood sv s from opcode rbuf rlen sinfo w)
                (if-IsGood (opcode == op_data) _ _ (on_data-IsGood sv s rbuf rlen sinfo w)
                  (if-IsGood (opcode == op_ack) _ _ (on_ack-IsGood sv s rbuf rlen sinfo w) refl)))
      ]
