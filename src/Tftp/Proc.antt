-- ===== src/Tftp/Proc.antt =====
-- `tftp_proc` of src/tftp.c, by its cases and its labels.
pub mod Replies
pub mod Download
pub mod Block
pub mod Upload
pub mod Request
pub mod Total
pub mod Opening
pub mod Local
pub mod Keeps
mod Tests
use iwtftpd.Base.{
  ℕ, ◌+◌, ◌-◌, Bool, true, false, ◌&&◌, ◌||◌, List, [], ◌∷◌, Option, none, some, ltb, ◌==◌,
  if◌then◌else◌, length, load16, codes,
}
use iwtftpd.Host.{Host}
use iwtftpd.Datastore.{Iwds, Check, found, missing, failed, iwds_isfile}
use iwtftpd.Tftp.Types.{
  Session, SendInfo, TftpError, seemsg, notfound, accessdeny, illegalope, unknownid, fileexist,
  op_rrq, op_wrq, op_data, op_ack, op_error, msglen_max, datalen_max, resend_countmax,
}
use iwtftpd.Tftp.Store.{close_data}
use iwtftpd.Tftp.Transfer.{Moved, moved, io_error, stuck, put_session_data}
use iwtftpd.Tftp.Parse.{TftpReq, parse_tftpreq, parse_tftpdata, parse_tftpack, parse_tftperror}
use iwtftpd.Tftp.Message.{Made, next_block, make_tftpdata_msg, make_tftpack_msg, make_tftperr_msg}
use iwtftpd.Tftp.Sessions.{get_session, put_back, add_newsession}

-- The part of `struct _iwtftp` that a message changes: the sessions, and the datastore.
pub record Server : Type 0 where
  pub seshead : List Session
  pub ads : Iwds

-- What a message came with: the socket, and the client's address and port.
pub record Sender : Type 0 where
  pub sock : ℕ
  pub clip : List ℕ
  pub clport : ℕ

-- `good` is `true` for IW_OK; `sinfo` is what the caller sends.
pub record Processed (W : Type 0) : Type 0 where
  pub good : Bool
  pub server : Server
  pub sinfo : SendInfo
  pub world : W

abbrev pub server_error : List ℕ
server_error = codes "server error"

-- The session as it now is, in the list.
abbrev pub update : Server → Session → Iwds → Server
update sv s ds = record { seshead = put_back s sv.seshead; ads = ds }

module _ {W : Type 0} ⦃h : Host W⦄ where
  -- The label `done`. The message is the one that `sinfo` holds.
  abbrev pub done : Server → Option Session → List ℕ → W → Processed W
  done sv s msg w = record {
    good = true;
    server = sv;
    sinfo = record { ses = s; msg = msg };
    world = w;
  }

  -- The label `errsend`: the session, if there is one, is finished.
  unfoldable pub errsend : Server → Option Session → TftpError → List ℕ → SendInfo → W → Processed W
  errsend sv none e emsg sinfo w = elim (make_tftperr_msg e msglen_max emsg) [
    | none ↦ record { good = false; server = sv; sinfo = sinfo; world = w }
    | some msg ↦ done sv none msg w
  ]
  errsend sv (some s) e emsg sinfo w =
      let s' : Session = record s { fin = true } in
      let sv' : Server = update sv s' sv.ads in
      elim (make_tftperr_msg e msglen_max emsg) [
        | none ↦ record { good = false; server = sv'; sinfo = sinfo; world = w }
        | some msg ↦ done sv' (some s') msg w
      ]

  -- The label `resend`.
  unfoldable pub resend : Server → Session → SendInfo → W → Processed W
  resend sv s sinfo w =
      let again : Session = record s { lastsending = h.time w; retrycount = s.retrycount + 1 } in
      let (ds', w') = close_data s sv.ads w in
      let given_up : Session = record s { disabled = true } in
      if ltb s.retrycount resend_countmax
      then done (update sv again sv.ads) (some again) s.lastmsg w
      else done (update sv given_up ds') (some given_up) sinfo.msg w'

  -- What `make_tftpdata_msg` made is sent, or a server error.
  unfoldable pub send_data : Server → Session → SendInfo → W → Processed W
  send_data sv s sinfo w =
      let m = make_tftpdata_msg s sv.ads msglen_max w in
      let sv' : Server = update sv m.ses m.ds in
      elim m.msg [
        | some msg ↦ done sv' (some m.ses) msg m.world
        | none ↦ errsend sv' (some m.ses) seemsg server_error sinfo m.world
      ]

  -- What `make_tftpack_msg` made is sent, or a server error.
  unfoldable pub send_ack : Server → Session → ℕ → SendInfo → W → Processed W
  send_ack sv s blk sinfo w =
      let (made, s') = make_tftpack_msg s blk msglen_max w in
      let sv' : Server = update sv s' sv.ads in
      elim made [
        | some msg ↦ done sv' (some s') msg w
        | none ↦ errsend sv' (some s') seemsg server_error sinfo w
      ]

  -- A request after the check of the file.
  unfoldable pub open_session : Server → Sender → ℕ → TftpReq → SendInfo → W → Processed W
  open_session sv from opcode req sinfo w =
      let (new, ss', w1) =
        add_newsession sv.seshead from.sock from.clip from.clport req.filename req.mode w in
      let sv' : Server = record sv { seshead = ss' } in
      elim new [
        | none ↦ errsend sv' none seemsg server_error sinfo w1
        | some s ↦ if opcode == op_rrq then send_data sv' s sinfo w1 else send_ack sv' s 0 sinfo w1
      ]

  -- The cases OP_RRQ and OP_WRQ. The result IW_ERR of the check passes.
  unfoldable pub on_request :
      Server → Option Session → Sender → ℕ → List ℕ → ℕ → SendInfo → W → Processed W
  on_request sv (some s) from opcode rbuf rlen sinfo w = resend sv s sinfo w
  on_request sv none from opcode rbuf rlen sinfo w = elim (parse_tftpreq rbuf rlen) [
    | none ↦ errsend sv none illegalope [] sinfo w
    | some req ↦
        let (check, w1) = iwds_isfile sv.ads req.filename w in
        let go = open_session sv from opcode req sinfo w1 in
        elim check [
          | found ↦ if opcode == op_wrq then errsend sv none fileexist [] sinfo w1 else go
          | missing ↦ if opcode == op_rrq then errsend sv none notfound [] sinfo w1 else go
          | failed ↦ go
        ]
  ]

  -- The next block of an upload: a short block is the last one.
  unfoldable pub take_block : Server → Session → ℕ → List ℕ → ℕ → SendInfo → W → Processed W
  take_block sv s blk payload rlen sinfo w =
      let s1 : Session = if ltb (rlen - 4) datalen_max then record s { fin = true } else s in
      let t = put_session_data s1 sv.ads payload w in
      let s2 : Session = record s1 { sesbuf = t.buf } in
      let (ds', w') = close_data s2 t.ds t.world in
      let failure = errsend (update sv s2 t.ds) (some s2) accessdeny [] sinfo t.world in
      elim t.result [
        | moved n bytes ↦
            if s2.fin
            then send_ack (update sv s2 ds') s2 blk sinfo w'
            else send_ack (update sv s2 t.ds) s2 blk sinfo t.world
        | io_error ↦ failure
        | stuck ↦ failure
      ]

  -- The case OP_DATA.
  unfoldable pub on_data : Server → Option Session → List ℕ → ℕ → SendInfo → W → Processed W
  on_data sv none rbuf rlen sinfo w = errsend sv none unknownid [] sinfo w
  on_data sv (some s) rbuf rlen sinfo w = elim (parse_tftpdata rbuf rlen) [
    | none ↦ errsend sv (some s) illegalope [] sinfo w
    | some dat ↦
        if dat.blknum == s.blknum
        then resend sv s sinfo w
        else if dat.blknum == next_block s.blknum
        then take_block sv s dat.blknum dat.payload rlen sinfo w
        else errsend sv (some s) illegalope [] sinfo w
  ]

  -- The case OP_ACK. `clses->blknum - 1` is an `int`, so that no block is before block 0. A number
  -- that is not expected leaves `sinfo` as it was.
  unfoldable pub on_ack : Server → Option Session → List ℕ → ℕ → SendInfo → W → Processed W
  on_ack sv none rbuf rlen sinfo w = errsend sv none unknownid [] sinfo w
  on_ack sv (some s) rbuf rlen sinfo w = elim (parse_tftpack rbuf rlen) [
    | none ↦ errsend sv (some s) illegalope [] sinfo w
    | some ack ↦
        let over : Session = record s { disabled = true } in
        if ack.blknum + 1 == s.blknum
        then resend sv s sinfo w
        else if ack.blknum == s.blknum
        then if s.fin
          then done (update sv over sv.ads) (some over) sinfo.msg w
          else send_data sv s sinfo w
        else done sv (some s) sinfo.msg w
  ]

  -- The case OP_ERROR: the session is given up, whether or not the message can be parsed.
  unfoldable pub on_error : Server → Option Session → SendInfo → W → Processed W
  on_error sv none sinfo w = record { good = false; server = sv; sinfo = sinfo; world = w }
  on_error sv (some s) sinfo w =
      let s' : Session = record s { disabled = true } in
      let (ds', w') = close_data s' sv.ads w in done (update sv s' ds') (some s') sinfo.msg w'

  -- The first two bytes of the buffer are the opcode. An unknown one leaves `sinfo` as it was.
  unfoldable pub tftp_proc : Server → Sender → List ℕ → ℕ → SendInfo → W → Processed W
  tftp_proc sv from rbuf rlen sinfo w =
      let opcode = load16 rbuf 0 in
      let s = get_session sv.seshead from.clip from.clport in
      if opcode == op_rrq || opcode == op_wrq
      then on_request sv s from opcode rbuf rlen sinfo w
      else if opcode == op_data
      then on_data sv s rbuf rlen sinfo w
      else if opcode == op_ack
      then on_ack sv s rbuf rlen sinfo w
      else if opcode == op_error
      then on_error sv s sinfo w
      else done sv s sinfo.msg w
