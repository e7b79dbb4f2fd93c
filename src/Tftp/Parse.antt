-- ===== src/Tftp/Parse.antt =====
-- The parsers of src/tftp.c. They are given the receive buffer as a whole and the length of what was
-- received; a pointer into the buffer is the text or the bytes that are read through it.
pub mod Bounds
pub mod Format
mod Tests
use iwtftpd.Base.{
  ℕ, zero, suc, ◌+◌, ◌-◌, Bool, true, false, ◌&&◌, ◌||◌, not, List, [], ◌∷◌, Option, none, some,
  ltb, ◌==◌, if◌then◌else◌, take, drop, length, load16, str_eq, codes,
}
use iwtftpd.Tftp.Types.{
  op_rrq, op_wrq, op_data, op_ack, op_error, filename_max, modename_max, emsglen_max, datalen_max,
}

-- `struct tftpreq`, `struct tftpdata`, `struct tftpack`, `struct tftperror`
pub record TftpReq : Type 0 where
  pub opcode : ℕ
  pub filename : List ℕ
  pub mode : List ℕ

pub record TftpData : Type 0 where
  pub blknum : ℕ
  pub payload : List ℕ

pub record TftpAck : Type 0 where
  pub blknum : ℕ

pub record TftpErr : Type 0 where
  pub errcode : ℕ
  pub errmsg : List ℕ

-- The loop that looks for a NUL among the first `limit` bytes, and the text before it. At the end of
-- the buffer the source would read past it; the model finds nothing there.
unfoldable pub c_string : ℕ → List ℕ → Option (List ℕ)
c_string zero bytes = none
c_string (suc limit) [] = none
c_string (suc limit) (b ∷ bytes) =
    let rest = c_string limit bytes in
    if b == 0 then some [] else elim rest [ none ↦ none | some text ↦ some (b ∷ text) ]

-- IS_NETASCII and IS_OCTET
abbrev pub is_netascii : List ℕ → Bool
is_netascii m = str_eq m (codes "netascii")

abbrev pub is_octet : List ℕ → Bool
is_octet m = str_eq m (codes "octet")

-- The mode field, after a file name of a given length.
unfoldable pub parse_mode : List ℕ → ℕ → List ℕ → Option TftpReq
unfolding c_string
parse_mode msg opcode filename = elim (c_string modename_max (drop (2 + length filename + 1) msg)) [
  | none ↦ none
  | some mode ↦
      if is_netascii mode || is_octet mode
      then some (record { opcode = opcode; filename = filename; mode = mode })
      else none
]

-- `sizeof(uint16_t) + 2 + strlen("octet") + 1` is 10.
unfoldable pub parse_tftpreq : List ℕ → ℕ → Option TftpReq
unfolding c_string parse_mode
parse_tftpreq msg msglen =
    let opcode = load16 msg 0 in
    let fields : Option TftpReq = elim (c_string filename_max (drop 2 msg)) [
      | none ↦ none
      | some filename ↦ parse_mode msg opcode filename
    ] in
    if ltb msglen 10
    then none
    else if not (opcode == op_rrq) && not (opcode == op_wrq)
    then none
    else fields

unfoldable pub parse_tftpdata : List ℕ → ℕ → Option TftpData
parse_tftpdata msg msglen =
    if ltb msglen 4 || ltb datalen_max (msglen - 4)
    then none
    else if load16 msg 0 == op_data
    then some (record { blknum = load16 msg 2; payload = take (msglen - 4) (drop 4 msg) })
    else none

unfoldable pub parse_tftpack : List ℕ → ℕ → Option TftpAck
parse_tftpack msg msglen =
    if not (msglen == 4)
    then none
    else if load16 msg 0 == op_ack
    then some (record { blknum = load16 msg 2 })
    else none

unfoldable pub parse_tftperror : List ℕ → ℕ → Option TftpErr
unfolding c_string
parse_tftperror msg msglen =
    let fields : Option TftpErr = elim (c_string emsglen_max (drop 4 msg)) [
      | none ↦ none
      | some text ↦ some (record { errcode = load16 msg 2; errmsg = text })
    ] in
    if ltb msglen 5 then none else if load16 msg 0 == op_error then fields else none
