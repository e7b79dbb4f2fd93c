-- ===== src/Tftp/Message.antt =====
-- The functions of src/tftp.c that make the messages to send.
pub mod Shape
use iwtftpd.Base.{
  ℕ, zero, suc, ◌+◌, ◌-◌, ◌%◌, ◌^◌, Bool, true, false, List, [], ◌∷◌, ◌++◌, Option, none, some, ltb,
  ◌==◌, if◌then◌else◌, length, be16,
}
use iwtftpd.Host.{Host}
use iwtftpd.Datastore.{Iwds}
use iwtftpd.Tftp.Types.{
  Session, TftpError, seemsg, error_code, errmsg, op_data, op_ack, op_error, blknum_max,
  datalen_max, msglen_max,
}
use iwtftpd.Tftp.Store.{close_data}
use iwtftpd.Tftp.Transfer.{Moved, moved, io_error, stuck, Transferred, get_session_data}

-- The bytes of a message, `none` for IW_ERR, with the state after the call.
pub record Made (W : Type 0) : Type 0 where
  pub msg : Option (List ℕ)
  pub ses : Session
  pub ds : Iwds
  pub world : W

-- `blknum < TFTP_BLKNUM_MAX ? blknum + 1 : 0`
unfoldable pub next_block : ℕ → ℕ
next_block b = if ltb b blknum_max then b + 1 else 0

-- What is kept for resending.
abbrev pub remember : Session → List ℕ → ℕ → Session
remember s msg now = record s { lastmsg = msg; lastsending = now; retrycount = 0 }

module _ {W : Type 0} ⦃h : Host W⦄ where
  -- After the data has been fetched into the message.
  unfoldable pub finish_data : Session → ℕ → List ℕ → Iwds → W → Made W
  unfolding close_data
  finish_data s len payload ds w =
      let (ds', w') = close_data s ds w in
      let msg = be16 op_data ++ (be16 s.blknum ++ payload) in
      let last = remember (record s { fin = true }) msg (h.time w') in
      let more = remember s msg (h.time w) in
      if ltb len datalen_max
      then record { msg = some msg; ses = last; ds = ds'; world = w' }
      else record { msg = some msg; ses = more; ds = ds; world = w }

  -- The block number is advanced before the data is fetched.
  unfoldable pub make_tftpdata_msg : Session → Iwds → ℕ → W → Made W
  make_tftpdata_msg s ds bufsize w =
      let s1 = record s { blknum = next_block s.blknum } in
      let t = get_session_data s1 ds datalen_max w in
      let s2 = record s1 { sesbuf = t.buf } in
      let failure : Made W = record { msg = none; ses = s2; ds = t.ds; world = t.world } in
      let too_short : Made W = record { msg = none; ses = s; ds = ds; world = w } in
      if ltb bufsize msglen_max then too_short else elim t.result [
        | moved len payload ↦ finish_data s2 len payload t.ds t.world
        | io_error ↦ failure
        | stuck ↦ failure
      ]

  unfoldable pub make_tftpack_msg : Session → ℕ → ℕ → W → Option (List ℕ) × Session
  make_tftpack_msg s blk bufsize w =
      let s1 = record s { blknum = blk } in
      let msg = be16 op_ack ++ be16 blk in
      if ltb bufsize 4 then (none, s) else (some msg, remember s1 msg (h.time w))

-- The message text: the table's, unless the code is TFTP_ERR_SEEMSG.
abbrev pub error_text : TftpError → List ℕ → List ℕ
error_text seemsg emsg = emsg
error_text e emsg = errmsg e

-- `bufsize - 4` is a `size_t`.
unfoldable pub make_tftperr_msg : TftpError → ℕ → List ℕ → Option (List ℕ)
make_tftperr_msg e bufsize emsg =
    let text = error_text e emsg in
    if ltb ((bufsize + 2 ^ 64 - 4) % 2 ^ 64) (length text + 1)
    then none
    else some (be16 op_error ++ (be16 (error_code e) ++ (text ++ (0 ∷ []))))
