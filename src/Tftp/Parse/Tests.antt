-- ===== src/Tftp/Parse/Tests.antt =====
-- The theorems on the parsers of src/tftp.c at concrete messages.
use iwtftpd.Base.{
  ℕ, ◌≤◌, ◌<◌, ◌≡◌, refl, true, ◌||◌, List, [], ◌∷◌, ◌++◌, some, arith, codes, take, drop, length,
  inl, ◌⊎◌, str_eq,
}
use iwtftpd.Tftp.Types.{octet, unknownid, op_rrq, op_wrq, filename_max, msglen_max}
use iwtftpd.Tftp.Message.{make_tftperr_msg}
use iwtftpd.Tftp.Message.Shape.{error_msg}
use iwtftpd.Tftp.Parse.{
  TftpReq, c_string, parse_mode, parse_tftpreq, parse_tftperror, is_netascii, is_octet,
}
use iwtftpd.Tftp.Parse.Format.{
  HasNoNul, request_msg, mode_name, parse_tftpreq-request_msg, parse_tftperror-make_tftperr_msg,
}
use iwtftpd.Tftp.Parse.Bounds.{parse_tftpreq-take, parse_tftpreq_sound}

-- A request for "a" in octet mode, with a byte of an earlier message after it.
abbrev ask_a : List ℕ
ask_a = request_msg 1 (codes "a") (codes "octet") ++ 7 ∷ []

parse_tftpreq-request_msg_example :
    parse_tftpreq ask_a 10
    ≡ some (record { opcode = 1; filename = codes "a"; mode = mode_name octet })
parse_tftpreq-request_msg_example =
    parse_tftpreq-request_msg 1 (codes "a") octet (7 ∷ []) 10 (inl refl) (omega arith, tt)
      (omega arith) (omega arith)

parse_tftpreq-take_example : parse_tftpreq (take 267 ask_a) 10 ≡ parse_tftpreq ask_a 10
parse_tftpreq-take_example = parse_tftpreq-take ask_a 10

parse_tftpreq_sound_example :
    let req : TftpReq = record { opcode = 1; filename = codes "a"; mode = codes "octet" } in
    (10 ≤ 10)
    × ((req.opcode ≡ op_rrq) ⊎ (req.opcode ≡ op_wrq))
    × (length req.filename < filename_max)
    × HasNoNul req.filename
    × ((is_netascii req.mode || is_octet req.mode) ≡ true)
    × ((rest : List ℕ) × (drop 2 ask_a ≡ req.filename ++ 0 ∷ rest))
unfolding parse_tftpreq parse_mode c_string str_eq
parse_tftpreq_sound_example =
    parse_tftpreq_sound ask_a 10
      {req = record { opcode = 1; filename = codes "a"; mode = codes "octet" }} refl

parse_tftperror-make_tftperr_msg_example :
    (make_tftperr_msg unknownid msglen_max []
      ≡ some (error_msg unknownid (codes "unknown transfer id")))
    × (parse_tftperror (error_msg unknownid (codes "unknown transfer id") ++ 7 ∷ []) 24
        ≡ some (record { errcode = 5; errmsg = codes "unknown transfer id" }))
parse_tftperror-make_tftperr_msg_example =
    parse_tftperror-make_tftperr_msg unknownid [] (7 ∷ []) 24 tt (omega arith) (omega arith)
