-- ===== src/Tftp/Parse/Format.antt =====
-- The messages that a client makes, and what the parsers of src/tftp.c read from them. After the
-- message a receive buffer may hold bytes of an earlier one.
use iwtftpd.Base.{
  ℕ, zero, suc, ◌+◌, ◌-◌, ◌*◌, ◌/◌, ◌%◌, ◌⊎◌, ◌≤◌, ◌<◌, ◌≡◌, refl, sym, ap, ◌∙◌, true, false, ◌&&◌,
  ◌||◌, not, List, [], ◌∷◌, ◌++◌, some, ltb, ◌==◌, length, drop, be16, codes, arith,
  take-length-append, append_assoc, str_eq, drop-length-append, drop-drop,
}
use iwtftpd.Tftp.Types.{
  TftpMode, netascii, octet, TftpError, seemsg, notfound, accessdeny, diskfull, illegalope,
  unknownid, fileexist, nouser, error_code, op_rrq, op_wrq, op_ack, msglen_max, datalen_max,
  filename_max, modename_max, emsglen_max,
}
use iwtftpd.Tftp.Parse.{
  c_string, parse_mode, parse_tftpreq, parse_tftpdata, parse_tftpack, parse_tftperror, is_netascii,
  is_octet,
}
use iwtftpd.Tftp.Message.{error_text, make_tftperr_msg}
use iwtftpd.Tftp.Message.Shape.{error_msg, data_msg, make_tftperr_msg_lem}

-- A text without a NUL.
abbrev pub HasNoNul : List ℕ → Type 0
HasNoNul [] = Unit {0}
HasNoNul (c ∷ t) = (0 < c) × HasNoNul t

pub c_string_lem :
    (n : ℕ) (t tail : List ℕ) → HasNoNul t → length t < n → c_string n (t ++ 0 ∷ tail) ≡ some t
unfolding c_string
c_string_lem zero t tail nn fits = absurd (omega arith)
c_string_lem (suc n) [] tail nn fits = refl
c_string_lem (suc n) (c ∷ t) tail nn fits =
    let nonzero : (c == 0) ≡ false = ground (arith, nn.0) in
    rw (nonzero, c_string_lem n t tail nn.1 (omega arith)) refl

-- RRQ and WRQ
abbrev pub request_msg : ℕ → List ℕ → List ℕ → List ℕ
request_msg opcode file mode = be16 opcode ++ (file ++ 0 ∷ (mode ++ 0 ∷ []))

-- The words for the two modes.
abbrev pub mode_name : TftpMode → List ℕ
mode_name netascii = codes "netascii"
mode_name octet = codes "octet"

abbrev pub ack_msg : ℕ → List ℕ
ack_msg blk = be16 op_ack ++ be16 blk

mode_name-HasNoNul : (m : TftpMode) → HasNoNul (mode_name m)
mode_name-HasNoNul netascii = ground arith
mode_name-HasNoNul octet = ground arith

be16_lem : (n : ℕ) → n < 65536 → n / 256 % 256 * 256 + n % 256 ≡ n
be16_lem n b = omega arith

is_mode_name : (m : TftpMode) → (is_netascii (mode_name m) || is_octet (mode_name m)) ≡ true
unfolding str_eq
is_mode_name netascii = refl
is_mode_name octet = refl

mode_name_short : (m : TftpMode) → length (mode_name m) < modename_max
mode_name_short netascii = omega arith
mode_name_short octet = omega arith

-- What follows the file name in the buffer.
after_name :
    (file rest : List ℕ) (a b : ℕ) → drop (2 + length file + 1) (a ∷ b ∷ (file ++ 0 ∷ rest)) ≡ rest
after_name file rest a b =
    let msg = a ∷ b ∷ (file ++ 0 ∷ rest) in
    sym (drop-drop (2 + length file) 1 msg)
    ∙ ap (drop 1) (sym (drop-drop 2 (length file) msg) ∙ drop-length-append file (0 ∷ rest))

parse_mode_lem :
    (opcode a b : ℕ) (file : List ℕ) (m : TftpMode) (stale : List ℕ)
    → parse_mode (a ∷ b ∷ (file ++ 0 ∷ (mode_name m ++ 0 ∷ stale))) opcode file
      ≡ some (record { opcode = opcode; filename = file; mode = mode_name m })
unfolding parse_mode
parse_mode_lem opcode a b file m stale =
    rw
      (
        parse_mode,
        after_name file (mode_name m ++ 0 ∷ stale) a b,
        c_string_lem modename_max (mode_name m) stale (mode_name-HasNoNul m) (mode_name_short m),
        is_mode_name m,
      )
      refl

-- A request with a name shorter than 256 bytes and without a NUL, and one of the two modes, is
-- parsed to just that name and mode, whatever length of 10 or more was received and whatever the
-- buffer holds after it.
pub parse_tftpreq-request_msg :
    (opcode : ℕ) (file : List ℕ) (m : TftpMode) (stale : List ℕ) (msglen : ℕ)
    → (opcode ≡ op_rrq) ⊎ (opcode ≡ op_wrq)
    → HasNoNul file
    → length file < filename_max
    → 10 ≤ msglen
    → parse_tftpreq (request_msg opcode file (mode_name m) ++ stale) msglen
      ≡ some (record { opcode = opcode; filename = file; mode = mode_name m })
unfolding parse_tftpreq
parse_tftpreq-request_msg opcode file m stale msglen op nn fits long =
    let a = opcode / 256 % 256 in
    let b = opcode % 256 in
    let known : (not (opcode == op_rrq) && not (opcode == op_wrq)) ≡ false = ground arith in
    let number : a * 256 + b ≡ opcode = omega arith in
    let rest = mode_name m ++ 0 ∷ stale in
    let whole : request_msg opcode file (mode_name m) ++ stale ≡ a ∷ b ∷ (file ++ 0 ∷ rest) =
      rw
        (
          append_assoc file (0 ∷ (mode_name m ++ 0 ∷ [])) stale,
          append_assoc (mode_name m) (0 ∷ []) stale,
        )
        refl in
    let enough : ltb msglen 10 ≡ false = ground arith in
    ap (λ x. parse_tftpreq x msglen) whole
    ∙ rw (parse_tftpreq, enough, number, known, c_string_lem filename_max file rest nn fits, number)
        (parse_mode_lem opcode a b file m stale)

pub parse_tftpack-ack_msg :
    (blk : ℕ) (stale : List ℕ)
    → blk < 65536
    → parse_tftpack (ack_msg blk ++ stale) 4 ≡ some (record { blknum = blk })
unfolding parse_tftpack
parse_tftpack-ack_msg blk stale b = ap (λ n. some (record { blknum = n })) (be16_lem blk b)

pub parse_tftpdata-data_msg :
    (blk : ℕ) (payload stale : List ℕ)
    → blk < 65536
    → length payload ≤ datalen_max
    → parse_tftpdata (data_msg blk payload ++ stale) (4 + length payload)
      ≡ some (record { blknum = blk; payload = payload })
unfolding parse_tftpdata
parse_tftpdata-data_msg blk payload stale b fits =
    let number = be16_lem blk b in
    let long : ltb (4 + length payload) 4 ≡ false = ground arith in
    let size : 4 + length payload - 4 ≡ length payload = omega arith in
    let bounded : ltb datalen_max (length payload) ≡ false = ground arith in
    rw (parse_tftpdata, long, size, bounded, number, take-length-append payload stale) refl

-- The ERROR message that `make_tftperr_msg` makes is parsed to its code and its text, also with
-- bytes after it, if the text has no NUL and fits.
pub parse_tftperror-make_tftperr_msg :
    (e : TftpError) (emsg stale : List ℕ) (msglen : ℕ)
    → HasNoNul emsg
    → length emsg < emsglen_max
    → 5 ≤ msglen
    → let text = error_text e emsg in
      (make_tftperr_msg e msglen_max emsg ≡ some (error_msg e text))
      × (parse_tftperror (error_msg e text ++ stale) msglen
          ≡ some (record { errcode = error_code e; errmsg = text }))
unfolding parse_tftperror
parse_tftperror-make_tftperr_msg e emsg stale msglen nn fits long =
    let (clean, short) = error_text-HasNoNul e emsg nn fits in
    let text = error_text e emsg in
    let enough : ltb msglen 5 ≡ false = ground arith in
    let number = be16_lem (error_code e) (error_code_small e) in
    (
      make_tftperr_msg_lem e emsg (omega arith),
      rw
          (
            parse_tftperror,
            append_assoc text (0 ∷ []) stale,
            enough,
            c_string_lem emsglen_max text stale clean short,
            number,
          )
          refl,
    )
  where
    error_code_small : (e' : TftpError) → error_code e' < 65536
    error_code_small seemsg = omega arith
    error_code_small notfound = omega arith
    error_code_small accessdeny = omega arith
    error_code_small diskfull = omega arith
    error_code_small illegalope = omega arith
    error_code_small unknownid = omega arith
    error_code_small fileexist = omega arith
    error_code_small nouser = omega arith

    error_text-HasNoNul :
        (e' : TftpError) (emsg' : List ℕ)
        → HasNoNul emsg'
        → length emsg' < emsglen_max
        → HasNoNul (error_text e' emsg') × (length (error_text e' emsg') < emsglen_max)
    error_text-HasNoNul seemsg emsg' n f = (n, f)
    error_text-HasNoNul notfound emsg' n f = (ground arith, omega arith)
    error_text-HasNoNul accessdeny emsg' n f = (ground arith, omega arith)
    error_text-HasNoNul diskfull emsg' n f = (ground arith, omega arith)
    error_text-HasNoNul illegalope emsg' n f = (ground arith, omega arith)
    error_text-HasNoNul unknownid emsg' n f = (ground arith, omega arith)
    error_text-HasNoNul fileexist emsg' n f = (ground arith, omega arith)
    error_text-HasNoNul nouser emsg' n f = (ground arith, omega arith)
