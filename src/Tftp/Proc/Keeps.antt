-- ===== src/Tftp/Proc/Keeps.antt =====
-- The sessions of the other clients when `tftp_proc` of src/tftp.c takes a message.
use iwtftpd.Base.{
  ℕ, ◌+◌, ◌-◌, ◌≤◌, ◌≡◌, refl, Bool, true, false, ◌||◌, List, [], Option, none, some, ltb, ◌==◌,
  if◌then◌else◌, length, load16, Bool-cases, Option-cases, inl, inr,
}
use iwtftpd.Host.{Host}
use iwtftpd.Datastore.{Check, found, missing, failed, iwds_isfile}
use iwtftpd.Tftp.Types.{
  Session, SendInfo, seemsg, notfound, accessdeny, illegalope, unknownid, fileexist, op_rrq, op_wrq,
  op_data, op_ack, op_error, datalen_max,
}
use iwtftpd.Tftp.Store.{close_data}
use iwtftpd.Tftp.Transfer.{Moved, moved, io_error, stuck, put_session_data}
use iwtftpd.Tftp.Parse.{TftpReq, parse_tftpreq, parse_tftpdata, parse_tftpack}
use iwtftpd.Tftp.Message.{next_block}
use iwtftpd.Tftp.Sessions.{get_session, put_back, add_newsession}
use iwtftpd.Tftp.Sessions.Keys.{OtherClient, IsUnique, get_session-key}
use iwtftpd.Tftp.Proc.{
  Server, Sender, Processed, errsend, send_data, send_ack, open_session, on_request, take_block,
  on_data, on_ack, on_error, tftp_proc, server_error,
}
use iwtftpd.Tftp.Proc.Local.{
  HasKey, HasKey?, Local, same-Local, then-Local, put_back-Local, errsend-Local, resend-Local,
  send_data-Local, send_ack-Local, add_newsession-Adds,
}

module _ {W : Type 0} ⦃h : Host W⦄ {ip : List ℕ} {port : ℕ} where
  Added_lem :
      (sv : Server) (opcode : ℕ) (new : Option Session) (ss' : List Session) (sinfo : SendInfo)
      (w : W)
      → Local ip port sv.seshead ss'
      → HasKey? ip port new
      → let sv' : Server = record sv { seshead = ss' } in
        let r : Processed W = elim new [
          | none ↦ errsend sv' none seemsg server_error sinfo w
          | some s ↦ if opcode == op_rrq then send_data sv' s sinfo w else send_ack sv' s 0 sinfo w
        ] in
        Local ip port sv.seshead r.server.seshead
  Added_lem sv opcode none ss' sinfo w l k =
      then-Local l (errsend-Local (record sv { seshead = ss' }) none seemsg server_error sinfo w tt)
  Added_lem sv opcode (some s) ss' sinfo w l k =
      let sv' : Server = record sv { seshead = ss' } in
      elim (Bool-cases (opcode == op_rrq)) [
        | inl rrq ↦ rw rrq (then-Local l (send_data-Local sv' s sinfo w k))
        | inr wrq ↦ rw wrq (then-Local l (send_ack-Local sv' s 0 sinfo w k))
      ]

  on_request-Local :
      (sv : Server) (s : Option Session) (sock opcode : ℕ) (rbuf : List ℕ) (rlen : ℕ)
      (sinfo : SendInfo) (w : W)
      → get_session sv.seshead ip port ≡ s
      → length ip ≤ 61
      → HasKey? ip port s
      → let from : Sender = record { sock = sock; clip = ip; clport = port } in
        Local ip port sv.seshead (on_request sv s from opcode rbuf rlen sinfo w).server.seshead
  unfolding on_request open_session
  on_request-Local sv (some s) sock opcode rbuf rlen sinfo w e fits k = resend-Local sv s sinfo w k
  on_request-Local sv none sock opcode rbuf rlen sinfo w e fits k =
      elim (Option-cases (parse_tftpreq rbuf rlen)) [
        | inl bad ↦ rw (bad, on_request) (errsend-Local sv none illegalope [] sinfo w tt)
        | inr (req, parsed) ↦
            let (check, w1) = iwds_isfile sv.ads req.filename w in
            rw (parsed, on_request) (by_check req check w1)
      ]
    where
      opens :
          (req : TftpReq) (w1 : W)
          → let from : Sender = record { sock = sock; clip = ip; clport = port } in
            Local ip port sv.seshead (open_session sv from opcode req sinfo w1).server.seshead
      opens req w1 =
          let a = add_newsession-Adds sv.seshead sock req.filename req.mode w1 e fits in
          let (new, ss', w2) = add_newsession sv.seshead sock ip port req.filename req.mode w1 in
          Added_lem sv opcode new ss' sinfo w2 a.local a.key

      by_check :
          (req : TftpReq) (check : Check) (w1 : W)
          → let from : Sender = record { sock = sock; clip = ip; clport = port } in
            let go = open_session sv from opcode req sinfo w1 in
            let r : Processed W = elim check [
              | found ↦ if opcode == op_wrq then errsend sv none fileexist [] sinfo w1 else go
              | missing ↦ if opcode == op_rrq then errsend sv none notfound [] sinfo w1 else go
              | failed ↦ go
            ] in
            Local ip port sv.seshead r.server.seshead
      by_check req found w1 = elim (Bool-cases (opcode == op_wrq)) [
        | inl wrq ↦ rw wrq (errsend-Local sv none fileexist [] sinfo w1 tt)
        | inr rrq ↦ rw rrq (opens req w1)
      ]
      by_check req missing w1 = elim (Bool-cases (opcode == op_rrq)) [
        | inl rrq ↦ rw rrq (errsend-Local sv none notfound [] sinfo w1 tt)
        | inr wrq ↦ rw wrq (opens req w1)
      ]
      by_check req failed w1 = opens req w1

  either_way :
      {ss : List Session} (b : Bool) (x y : Processed W)
      → Local ip port ss x.server.seshead
      → Local ip port ss y.server.seshead
      → Local ip port ss (if b then x else y).server.seshead
  either_way true x y p q = p
  either_way false x y p q = q

  Moved_lem :
      {ss : List Session} (m : Moved) (x : ℕ → List ℕ → Processed W) (y : Processed W)
      → ((n : ℕ) (bytes : List ℕ) → Local ip port ss (x n bytes).server.seshead)
      → Local ip port ss y.server.seshead
      → let r : Processed W = elim m [ moved n bytes ↦ x n bytes | io_error ↦ y | stuck ↦ y ] in
        Local ip port ss r.server.seshead
  Moved_lem (moved n bytes) x y p q = p n bytes
  Moved_lem io_error x y p q = q
  Moved_lem stuck x y p q = q

  take_block-Local :
      (sv : Server) (s : Session) (blk : ℕ) (payload : List ℕ) (rlen : ℕ) (sinfo : SendInfo) (w : W)
      → HasKey ip port s
      → Local ip port sv.seshead (take_block sv s blk payload rlen sinfo w).server.seshead
  unfolding take_block
  take_block-Local sv s blk payload rlen sinfo w k =
      let short = ltb (rlen - 4) datalen_max in
      by_result (if short then record s { fin = true } else s) (key short)
    where
      key : (b : Bool) → HasKey ip port (if b then record s { fin = true } else s)
      key true = k
      key false = k

      by_result :
          (s1 : Session)
          → HasKey ip port s1
          → let t = put_session_data s1 sv.ads payload w in
            let s2 : Session = record s1 { sesbuf = t.buf } in
            let (ds', w') = close_data s2 t.ds t.world in
            let sv1 : Server = record { seshead = put_back s2 sv.seshead; ads = t.ds } in
            let sv2 : Server = record { seshead = put_back s2 sv.seshead; ads = ds' } in
            let failure = errsend sv1 (some s2) accessdeny [] sinfo t.world in
            let r : Processed W = elim t.result [
              | moved n bytes ↦
                  if s2.fin then send_ack sv2 s2 blk sinfo w' else send_ack sv1 s2 blk sinfo t.world
              | io_error ↦ failure
              | stuck ↦ failure
            ] in
            Local ip port sv.seshead r.server.seshead
      by_result s1 k1 =
          let t = put_session_data s1 sv.ads payload w in
          let s2 : Session = record s1 { sesbuf = t.buf } in
          let (ds', w') = close_data s2 t.ds t.world in
          let sv1 : Server = record { seshead = put_back s2 sv.seshead; ads = t.ds } in
          let sv2 : Server = record { seshead = put_back s2 sv.seshead; ads = ds' } in
          let stored = put_back-Local s2 sv.seshead k1 in
          let failure =
            then-Local stored (errsend-Local sv1 (some s2) accessdeny [] sinfo t.world k1) in
          let sent =
            either_way s1.fin _ _ (then-Local stored (send_ack-Local sv2 s2 blk sinfo w' k1))
              (then-Local stored (send_ack-Local sv1 s2 blk sinfo t.world k1)) in
          Moved_lem t.result _ _ (λ n bytes. sent) failure

  on_data-Local :
      (sv : Server) (s : Option Session) (rbuf : List ℕ) (rlen : ℕ) (sinfo : SendInfo) (w : W)
      → HasKey? ip port s
      → Local ip port sv.seshead (on_data sv s rbuf rlen sinfo w).server.seshead
  unfolding on_data
  on_data-Local sv none rbuf rlen sinfo w k = errsend-Local sv none unknownid [] sinfo w tt
  on_data-Local sv (some s) rbuf rlen sinfo w k = elim (Option-cases (parse_tftpdata rbuf rlen)) [
    | inl bad ↦ rw (bad, on_data) (errsend-Local sv (some s) illegalope [] sinfo w k)
    | inr (dat, parsed) ↦
        rw (parsed, on_data)
          (either_way (dat.blknum == s.blknum) _ _ (resend-Local sv s sinfo w k) (
            either_way (dat.blknum == next_block s.blknum) _ _
              (take_block-Local sv s dat.blknum dat.payload rlen sinfo w k)
              (errsend-Local sv (some s) illegalope [] sinfo w k)))
  ]

  on_ack-Local :
      (sv : Server) (s : Option Session) (rbuf : List ℕ) (rlen : ℕ) (sinfo : SendInfo) (w : W)
      → HasKey? ip port s
      → Local ip port sv.seshead (on_ack sv s rbuf rlen sinfo w).server.seshead
  unfolding on_ack
  on_ack-Local sv none rbuf rlen sinfo w k = errsend-Local sv none unknownid [] sinfo w tt
  on_ack-Local sv (some s) rbuf rlen sinfo w k = elim (Option-cases (parse_tftpack rbuf rlen)) [
    | inl bad ↦ rw (bad, on_ack) (errsend-Local sv (some s) illegalope [] sinfo w k)
    | inr (ack, parsed) ↦
        rw (parsed, on_ack)
          (either_way (ack.blknum + 1 == s.blknum) _ _ (resend-Local sv s sinfo w k) (
            either_way (ack.blknum == s.blknum) _ _
              (either_way s.fin _ _ (put_back-Local (record s { disabled = true }) sv.seshead k)
                (send_data-Local sv s sinfo w k))
              (same-Local ip port sv.seshead)))
  ]

  on_error-Local :
      (sv : Server) (s : Option Session) (sinfo : SendInfo) (w : W)
      → HasKey? ip port s
      → Local ip port sv.seshead (on_error sv s sinfo w).server.seshead
  unfolding on_error
  on_error-Local sv none sinfo w k = same-Local ip port sv.seshead
  on_error-Local sv (some s) sinfo w k = put_back-Local (record s { disabled = true }) sv.seshead k

-- What `get_session` finds has the key it was looked up by.
get_session-HasKey :
    (ss : List Session) (ip : List ℕ) (port : ℕ) (s : Option Session)
    → get_session ss ip port ≡ s
    → HasKey? ip port s
get_session-HasKey ss ip port none e = tt
get_session-HasKey ss ip port (some s) e = get_session-key ss ip port {t = s} e

module _ {W : Type 0} ⦃h : Host W⦄ where
  tftp_proc-Local :
      (sv : Server) (from : Sender) (rbuf : List ℕ) (rlen : ℕ) (sinfo : SendInfo) (w : W)
      → length from.clip ≤ 61
      → Local from.clip from.clport sv.seshead (tftp_proc sv from rbuf rlen sinfo w).server.seshead
  unfolding tftp_proc
  tftp_proc-Local sv from rbuf rlen sinfo w fits =
      let ip = from.clip in
      let port = from.clport in
      let opcode = load16 rbuf 0 in
      let s = get_session sv.seshead ip port in
      let k = get_session-HasKey sv.seshead ip port s refl in
      either_way (opcode == op_rrq || opcode == op_wrq) _ _
        (on_request-Local sv s from.sock opcode rbuf rlen sinfo w refl fits k)
        (either_way (opcode == op_data) _ _ (on_data-Local sv s rbuf rlen sinfo w k) (
          either_way (opcode == op_ack) _ _ (on_ack-Local sv s rbuf rlen sinfo w k) (
            either_way (opcode == op_error) _ _ (on_error-Local sv s sinfo w k)
              (same-Local ip port sv.seshead))))

  -- Whatever a message holds, `tftp_proc` keeps the clients of the session list distinct: if no two
  -- sessions have one address and port before, none have after. The address of the sender must fit
  -- into the session's field.
  pub tftp_proc-IsUnique :
      (sv : Server) (from : Sender) (rbuf : List ℕ) (rlen : ℕ) (sinfo : SendInfo) (w : W)
      → length from.clip ≤ 61
      → IsUnique sv.seshead
      → IsUnique (tftp_proc sv from rbuf rlen sinfo w).server.seshead
  tftp_proc-IsUnique sv from rbuf rlen sinfo w fits u =
      (tftp_proc-Local sv from rbuf rlen sinfo w fits).unique u

  -- Whatever a message holds, `tftp_proc` leaves the session of every other client as it is, if the
  -- address of the sender fits into the session's field.
  pub tftp_proc-isolates :
      (sv : Server) (from : Sender) (rbuf : List ℕ) (rlen : ℕ) (sinfo : SendInfo) (w : W)
      (ip : List ℕ) (port : ℕ)
      → length from.clip ≤ 61
      → OtherClient from.clip from.clport ip port
      → get_session (tftp_proc sv from rbuf rlen sinfo w).server.seshead ip port
        ≡ get_session sv.seshead ip port
  tftp_proc-isolates sv from rbuf rlen sinfo w ip port fits ne =
      (tftp_proc-Local sv from rbuf rlen sinfo w fits).others ip port ne
