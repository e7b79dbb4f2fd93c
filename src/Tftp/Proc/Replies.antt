-- ===== src/Tftp/Proc/Replies.antt =====
-- What `tftp_proc` of src/tftp.c answers to the messages of a transfer.
use iwtftpd.Base.{
  ℕ, ◌+◌, ◌≤◌, ◌<◌, ◌≡◌, refl, true, false, List, [], ◌++◌, none, some, ◌==◌, load16, arith, lt→ltb,
  le→ltb,
}
use iwtftpd.Host.{Host}
use iwtftpd.Datastore.{get_dsession}
use iwtftpd.Tftp.Types.{
  Session, SendInfo, op_rrq, op_wrq, op_data, op_ack, msglen_max, resend_countmax,
}
use iwtftpd.Datastore.Requests.{close_lem}
use iwtftpd.Datastore.Sessions
use iwtftpd.Tftp.Store.{close_data, dticket}
use iwtftpd.Tftp.Parse.{TftpData, TftpAck, parse_tftpdata, parse_tftpack}
use iwtftpd.Tftp.Parse.Format.{ack_msg, parse_tftpack-ack_msg}
use iwtftpd.Tftp.Message.{make_tftpdata_msg}
use iwtftpd.Tftp.Sessions.{get_session}
use iwtftpd.Tftp.Sessions.Keys.{get-put_back_key, get_session-key}
use iwtftpd.Tftp.Proc.{
  Server, Sender, update, done, resend, send_data, on_request, on_data, on_ack, tftp_proc,
}

-- A message that the client of `s` has sent before: its request, the last DATA, or the ACK before the
-- last block.
pub data IsRepeat (s : Session) (rbuf : List ℕ) (rlen : ℕ) : Type 0 where
  again_rrq : load16 rbuf 0 ≡ op_rrq → IsRepeat s rbuf rlen
  again_wrq : load16 rbuf 0 ≡ op_wrq → IsRepeat s rbuf rlen
  again_data :
      (dat : TftpData)
      → load16 rbuf 0 ≡ op_data
      → parse_tftpdata rbuf rlen ≡ some dat
      → dat.blknum ≡ s.blknum
      → IsRepeat s rbuf rlen
  again_ack :
      (ack : TftpAck)
      → load16 rbuf 0 ≡ op_ack
      → parse_tftpack rbuf rlen ≡ some ack
      → ack.blknum + 1 ≡ s.blknum
      → IsRepeat s rbuf rlen

module _ {W : Type 0} ⦃h : Host W⦄ (sv : Server) (from : Sender) (sinfo : SendInfo) where
  -- An acknowledgement of the current block gets to `send_data`.
  pub current_ack :
      (s : Session) (stale : List ℕ) (w : W)
      → get_session sv.seshead from.clip from.clport ≡ some s
      → s.blknum < 65536
      → s.fin ≡ false
      → tftp_proc sv from (ack_msg s.blknum ++ stale) 4 sinfo w ≡ send_data sv s sinfo w
  unfolding tftp_proc on_ack
  current_ack s stale w e b f =
      let older : (s.blknum + 1 == s.blknum) ≡ false = ground arith in
      let same : (s.blknum == s.blknum) ≡ true = ground arith in
      rw (tftp_proc, e, on_ack, parse_tftpack-ack_msg s.blknum stale b, older, same, f) refl

  -- The session that `send_data` stores is found again.
  pub send_data_lem :
      (s : Session) (w : W) {msg : List ℕ}
      → (make_tftpdata_msg s sv.ads msglen_max w).msg ≡ some msg
      → let m = make_tftpdata_msg s sv.ads msglen_max w in
        let r = send_data sv s sinfo w in
        (r.sinfo ≡ record { ses = some m.ses; msg = msg })
        × (r.server ≡ update sv m.ses m.ds)
        × (r.world ≡ m.world)
        × (r.good ≡ true)
  unfolding send_data
  send_data_lem s w {msg} made = rw (made, send_data) (refl, refl, refl, refl)

  repeat_resends :
      (s : Session) (rbuf : List ℕ) (rlen : ℕ) (w : W)
      → get_session sv.seshead from.clip from.clport ≡ some s
      → IsRepeat s rbuf rlen
      → tftp_proc sv from rbuf rlen sinfo w ≡ resend sv s sinfo w
  unfolding tftp_proc on_request on_data on_ack
  repeat_resends s rbuf rlen w e (again_rrq o) = rw (tftp_proc, o, e, on_request) refl
  repeat_resends s rbuf rlen w e (again_wrq o) = rw (tftp_proc, o, e, on_request) refl
  repeat_resends s rbuf rlen w e (again_data dat o p n) =
      let same : (dat.blknum == s.blknum) ≡ true = ground (arith, n) in
      rw (tftp_proc, o, e, on_data, p, same) refl
  repeat_resends s rbuf rlen w e (again_ack ack o p n) =
      let older : (ack.blknum + 1 == s.blknum) ≡ true = ground (arith, n) in
      rw (tftp_proc, o, e, on_ack, p, older) refl

  -- A repeated message is answered with the last message sent, and the try is counted, if there
  -- have been fewer than three; the rest of the session is as it was, and so are the datastore and
  -- the host.
  pub repeat_gets_last :
      (s : Session) (rbuf : List ℕ) (rlen : ℕ) (w : W)
      → get_session sv.seshead from.clip from.clport ≡ some s
      → IsRepeat s rbuf rlen
      → s.retrycount < resend_countmax
      → let r = tftp_proc sv from rbuf rlen sinfo w in
        let s' : Session = record s { lastsending = h.time w; retrycount = s.retrycount + 1 } in
        (r.sinfo ≡ record { ses = some s'; msg = s.lastmsg })
        × (get_session r.server.seshead from.clip from.clport ≡ some s')
        × (r.server.ads ≡ sv.ads)
        × (r.world ≡ w)
  unfolding resend
  repeat_gets_last s rbuf rlen w e again few =
      let retried : Session = record s { lastsending = h.time w; retrycount = s.retrycount + 1 } in
      let stored =
        get-put_back_key retried sv.seshead from.clip from.clport {t = s}
          (get_session-key sv.seshead from.clip from.clport {t = s} e) e in
      rw (repeat_resends s rbuf rlen w e again, resend, lt→ltb s.retrycount resend_countmax few)
        (refl, stored, refl, refl)

  -- A repeated message after three tries ends the session: it is disabled, and its file is closed,
  -- where the files of the datastore have distinct keys.
  pub repeat_gives_up :
      (s : Session) (rbuf : List ℕ) (rlen : ℕ) (w : W)
      → get_session sv.seshead from.clip from.clport ≡ some s
      → Sessions.IsUnique sv.ads.dhead
      → IsRepeat s rbuf rlen
      → resend_countmax ≤ s.retrycount
      → let r = tftp_proc sv from rbuf rlen sinfo w in
        (get_session r.server.seshead from.clip from.clport ≡ some (record s { disabled = true }))
        × (get_dsession r.server.ads.dhead s.clsock s.filename ≡ none)
  unfolding resend close_data
  repeat_gives_up s rbuf rlen w e unique again many =
      let given_up : Session = record s { disabled = true } in
      let stored =
        get-put_back_key given_up sv.seshead from.clip from.clport {t = s}
          (get_session-key sv.seshead from.clip from.clport {t = s} e) e in
      let (done, derr, closed) = close_lem sv.ads (dticket s [] 0) w refl unique in
      rw (repeat_resends s rbuf rlen w e again, resend, le→ltb s.retrycount resend_countmax many)
        (stored, closed)
