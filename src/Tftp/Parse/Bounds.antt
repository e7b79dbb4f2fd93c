-- ===== src/Tftp/Parse/Bounds.antt =====
-- What `parse_tftpreq` of src/tftp.c reads of the receive buffer, and what it accepts.
use iwtftpd.Base.{
  ℕ, zero, suc, ◌+◌, ◌-◌, ◌≤◌, ◌<◌, ◌≡◌, refl, sym, ap, ◌∙◌, ◌⊎◌, inl, inr, true, false, ◌&&◌, ◌||◌,
  not, List, [], ◌∷◌, ◌++◌, none, some, ltb, ◌==◌, take, drop, length, load16, arith, drop-take,
  ltb→le, Bool-cases, Option-cases,
}
use iwtftpd.Tftp.Types.{op_rrq, op_wrq, filename_max, modename_max}
use iwtftpd.Tftp.Parse.{TftpReq, c_string, parse_mode, parse_tftpreq, is_netascii, is_octet}
use iwtftpd.Tftp.Parse.Format.{HasNoNul}

-- The most that is read: the opcode, a name of 255 bytes and its NUL, and 9 bytes of the mode.
abbrev pub request_max : ℕ
request_max = 267

c_string-take : (n m : ℕ) (bytes : List ℕ) → n ≤ m → c_string n (take m bytes) ≡ c_string n bytes
unfolding c_string
c_string-take zero m bytes p = refl
c_string-take (suc n) zero bytes p = absurd (omega arith)
c_string-take (suc n) (suc m) [] p = refl
c_string-take (suc n) (suc m) (b ∷ bytes) p = rw (c_string-take n m bytes (omega arith)) refl

none-some : {t : List ℕ} → none ≡ some t → ⊥
none-some e = cc

-- What was found: a text without a NUL, shorter than the limit, with a NUL after it.
pub c_string_sound :
    (n : ℕ) (bytes : List ℕ) {t : List ℕ}
    → c_string n bytes ≡ some t
    → (length t < n) × HasNoNul t × ((rest : List ℕ) × (bytes ≡ t ++ 0 ∷ rest))
unfolding c_string
c_string_sound zero bytes e = cc
c_string_sound (suc n) [] e = cc
c_string_sound (suc n) (b ∷ bytes) {t} e = elim (Bool-cases (b == 0)) [
  | inl nul ↦
      let zero_byte : b ≡ 0 = ground (arith, nul) in
      let empty : some [] ≡ some t = rw (← e, nul) refl in
      let same : t ≡ [] = cc empty in
      rw same (omega arith, tt, (bytes, ap (λ x. x ∷ bytes) zero_byte))
  | inr char ↦ elim (Option-cases (c_string n bytes)) [
    | inl unended ↦ absurd (none-some {t = t} (rw (← e, char, unended) refl))
    | inr (u, found) ↦
        let (short, clean, (rest, whole)) = c_string_sound n bytes {t = u} found in
        let longer : some (b ∷ u) ≡ some t = rw (← e, char, found) refl in
        let same : t ≡ b ∷ u = cc longer in
        let positive : 0 < b = ground (arith, char) in
        rw same (omega (arith, short), (positive, clean), (rest, ap (◌∷◌ b) whole))
  ]
]

load16-take : (m : ℕ) (msg : List ℕ) → load16 (take (suc (suc m)) msg) 0 ≡ load16 msg 0
load16-take m [] = refl
load16-take m (a ∷ []) = refl
load16-take m (a ∷ b ∷ msg) = refl

no_request : {req : TftpReq} → none ≡ some req → ⊥
no_request e = cc

-- The parts of a buffer that are read.
same_mode :
    (msg msg' : List ℕ) (opcode : ℕ) (file : List ℕ)
    → c_string modename_max (drop (2 + length file + 1) msg)
      ≡ c_string modename_max (drop (2 + length file + 1) msg')
    → parse_mode msg opcode file ≡ parse_mode msg' opcode file
unfolding parse_mode
same_mode msg msg' opcode file e = rw (parse_mode, e) refl

same_request :
    (msg msg' : List ℕ) (msglen : ℕ)
    → load16 msg 0 ≡ load16 msg' 0
    → c_string filename_max (drop 2 msg) ≡ c_string filename_max (drop 2 msg')
    → ((file : List ℕ)
        → length file < filename_max
        → c_string modename_max (drop (2 + length file + 1) msg)
          ≡ c_string modename_max (drop (2 + length file + 1) msg'))
    → parse_tftpreq msg msglen ≡ parse_tftpreq msg' msglen
unfolding parse_tftpreq
same_request msg msg' msglen op name mode =
    elim (Option-cases (c_string filename_max (drop 2 msg'))) [
      | inl unended ↦ rw (parse_tftpreq, op, name, unended) refl
      | inr (file, found) ↦
          let (short, clean, after) = c_string_sound filename_max (drop 2 msg') {t = file} found in
          rw
            (
              parse_tftpreq,
              op,
              name,
              found,
              op,
              same_mode msg msg' (load16 msg' 0) file (mode file short),
            )
            refl
    ]

c_string-drop :
    (n k m : ℕ) (msg : List ℕ)
    → n + k ≤ m
    → c_string n (drop k (take m msg)) ≡ c_string n (drop k msg)
c_string-drop n k m msg p =
    ap (c_string n) (drop-take k m msg) ∙ c_string-take n (m - k) (drop k msg) (omega arith)

-- `parse_tftpreq` reads no more than the first 267 bytes of the buffer: the rest of it does not
-- change the result, whatever length was received.
pub parse_tftpreq-take :
    (msg : List ℕ) (msglen : ℕ)
    → parse_tftpreq (take request_max msg) msglen ≡ parse_tftpreq msg msglen
parse_tftpreq-take msg msglen =
    same_request (take request_max msg) msg msglen (load16-take 265 msg)
      (c_string-drop filename_max 2 request_max msg (omega arith))
      (λ file short.
        c_string-drop modename_max (2 + length file + 1) request_max msg (omega (arith, short)))

parse_mode_sound :
    (msg : List ℕ) (opcode : ℕ) (file : List ℕ) {req : TftpReq}
    → parse_mode msg opcode file ≡ some req
    → (mode : List ℕ) × ((is_netascii mode || is_octet mode) ≡ true)
      × (req ≡ record { opcode = opcode; filename = file; mode = mode })
unfolding parse_mode
parse_mode_sound msg opcode file {req} e =
    let text = drop (2 + length file + 1) msg in
    elim (Option-cases (c_string modename_max text)) [
      | inl unended ↦ absurd (no_request {req = req} (sym (rw (parse_mode, unended) refl) ∙ e))
      | inr (mode, named) ↦ elim (Bool-cases (is_netascii mode || is_octet mode)) [
        | inr other ↦ absurd (no_request {req = req} (sym (rw (parse_mode, named, other) refl) ∙ e))
        | inl known ↦
            let made : some (record { opcode = opcode; filename = file; mode = mode }) ≡ some req =
              sym (rw (parse_mode, named, known) refl) ∙ e in
            (mode, known, cc made)
      ]
    ]

two_opcodes :
    (n : ℕ) → (not (n == op_rrq) && not (n == op_wrq)) ≡ false → (n ≡ op_rrq) ⊎ (n ≡ op_wrq)
two_opcodes n e = ground arith

-- A request that is accepted has ten bytes or more, one of the two opcodes, one of the two modes,
-- and a name of 255 bytes at most without a NUL, which stands in the buffer from its third byte on
-- with a NUL after it.
pub parse_tftpreq_sound :
    (msg : List ℕ) (msglen : ℕ) {req : TftpReq}
    → parse_tftpreq msg msglen ≡ some req
    → (10 ≤ msglen)
      × ((req.opcode ≡ op_rrq) ⊎ (req.opcode ≡ op_wrq))
      × (length req.filename < filename_max)
      × HasNoNul req.filename
      × ((is_netascii req.mode || is_octet req.mode) ≡ true)
      × ((rest : List ℕ) × (drop 2 msg ≡ req.filename ++ 0 ∷ rest))
unfolding parse_tftpreq parse_mode
parse_tftpreq_sound msg msglen {req} e =
    let opcode = load16 msg 0 in
    elim (Bool-cases (ltb msglen 10)) [
      | inl short ↦ absurd (no_request {req = req} (sym (rw (parse_tftpreq, short) refl) ∙ e))
      | inr long ↦ elim (Bool-cases (not (opcode == op_rrq) && not (opcode == op_wrq))) [
        | inl other ↦
            absurd (no_request {req = req} (sym (rw (parse_tftpreq, long, other) refl) ∙ e))
        | inr known ↦ elim (Option-cases (c_string filename_max (drop 2 msg))) [
          | inl unended ↦
              absurd
                (no_request {req = req} (sym (rw (parse_tftpreq, long, known, unended) refl) ∙ e))
          | inr (file, named) ↦
              let (short, clean, after) =
                c_string_sound filename_max (drop 2 msg) {t = file} named in
              let fields : parse_mode msg opcode file ≡ some req =
                sym (rw (parse_tftpreq, long, known, named) refl) ∙ e in
              let (mode, listed, same) = parse_mode_sound msg opcode file {req = req} fields in
              rw same (ltb→le msglen 10 long, two_opcodes opcode known, short, clean, listed, after)
        ]
      ]
    ]
