-- ===== src/Tftp/Netascii/Decode.antt =====
-- `netascii_to_local` of src/tftp.c: it stores what it uses up, without the carriage returns.
use iwtftpd.Base.{
  ℕ, zero, suc, ◌+◌, ◌-◌, ◌≤◌, ◌<◌, ◌≡◌, refl, sym, ap, ◌∙◌, ◌&&◌, List, [], ◌∷◌, ◌++◌, ltb, ◌==◌,
  if◌then◌else◌, take, drop, length, arith, Bool-cases, inl, inr, length-append, length-take,
  length-drop, take-append, blit, take_all, take-length-append,
}
use iwtftpd.Tftp.Types.{Storage, session_bufsize}
use iwtftpd.Tftp.Netascii.{scan_cr, append_bytes, netascii_to_local}

-- The bytes of a text that are kept: all but the carriage returns.
unfoldable pub decode : List ℕ → List ℕ
decode [] = []
decode (c ∷ u) = if c == b'\r' then decode u else c ∷ decode u

pub decode-append : (u v : List ℕ) → decode (u ++ v) ≡ decode u ++ decode v
unfolding decode
decode-append [] v = refl
decode-append (c ∷ u) v = ground (arith, decode-append u v)

-- What has been received and not yet saved.
abbrev pub unsaved : Storage → List ℕ
unsaved sb = take sb.datalen sb.storage

-- The buffer of a session that receives: it is filled from the front.
pub record Fillable (sb : Storage) : Type 0 where
  pub size : length sb.storage ≡ session_bufsize
  pub at_end : sb.pos ≡ sb.datalen
  pub bounded : sb.datalen ≤ session_bufsize

append_take :
    (d : ℕ) (st b : List ℕ) → d ≤ length st → take (d + length b) (blit st d b) ≡ take d st ++ b
append_take d st b h =
    let rest = b ++ drop (d + length b) st in
    let exact : length (take d st) ≡ d = omega (arith, length-take d st) in
    let room : d + length b - length (take d st) ≡ length b = omega (arith, exact) in
    take-append (d + length b) (take d st) rest
    ∙ ap (λ x. x ++ take (d + length b - length (take d st)) rest)
        (take_all (d + length b) (take d st) (omega (arith, exact)))
    ∙ ap (λ n. take d st ++ take n rest) room
    ∙ ap (◌++◌ (take d st)) (take-length-append b (drop (d + length b) st))

-- Bytes that fit are put behind those that are there.
pub append_bytes_lem :
    (sb : Storage) (b : List ℕ)
    → Fillable sb
    → sb.datalen + length b ≤ session_bufsize
    → (unsaved (append_bytes sb b) ≡ unsaved sb ++ b) × Fillable (append_bytes sb b)
unfolding append_bytes
append_bytes_lem sb b v h =
    let whole : length (blit sb.storage sb.pos b) ≡ session_bufsize = omega (
      arith,
      v.size,
      v.at_end,
      length-append (take sb.pos sb.storage) (b ++ drop (sb.pos + length b) sb.storage),
      length-append b (drop (sb.pos + length b) sb.storage),
      length-take sb.pos sb.storage,
      length-drop (sb.pos + length b) sb.storage,
    ) in
    (
      ap (λ p. take (sb.datalen + length b) (blit sb.storage p b)) v.at_end
          ∙ append_take sb.datalen sb.storage b (omega (arith, v.size, v.bounded)),
      record { size = whole; at_end = omega (arith, v.at_end); bounded = h },
    )

-- How many bytes go before the first carriage return, `room` at most.
cr_run : ℕ → List ℕ → ℕ
cr_run zero u = 0
cr_run (suc room) [] = 0
cr_run (suc room) (c ∷ u) = if c == b'\r' then 0 else suc (cr_run room u)

cr_run_bounds : (room : ℕ) (u : List ℕ) → (cr_run room u ≤ room) × (cr_run room u ≤ length u)
unfolding cr_run
cr_run_bounds zero u = omega arith
cr_run_bounds (suc room) [] = omega arith
cr_run_bounds (suc room) (c ∷ u) = ground (arith, cr_run_bounds room u)

decode_run : (room : ℕ) (u : List ℕ) → decode (take (cr_run room u) u) ≡ take (cr_run room u) u
unfolding decode cr_run
decode_run zero u = refl
decode_run (suc room) [] = refl
decode_run (suc room) (c ∷ u) = ground (arith, decode_run room u)

-- A run that stops early stops at a carriage return, which decodes to nothing.
decode_run_stop :
    (room : ℕ) (u : List ℕ)
    → cr_run room u < room
    → cr_run room u < length u
    → decode (take (suc (cr_run room u)) u) ≡ take (cr_run room u) u
unfolding decode cr_run
decode_run_stop zero u h k = absurd (omega arith)
decode_run_stop (suc room) [] h k = absurd (omega arith)
decode_run_stop (suc room) (c ∷ u) h k = ground (arith, decode_run_stop room u)

cr_run_cons :
    (room c : ℕ) (u : List ℕ)
    → 0 < room
    → cr_run room (c ∷ u) ≡ (if c == b'\r' then 0 else suc (cr_run (room - 1) u))
unfolding cr_run
cr_run_cons zero c u h = absurd (omega arith)
cr_run_cons (suc room) c u h = ap (λ n. if c == b'\r' then 0 else suc (cr_run n u)) (omega arith)

scan_cr_lem :
    (room chklen : ℕ) (u : List ℕ)
    → let k = cr_run (room - chklen) u in
      scan_cr room u chklen ≡ (chklen + k, ltb k (room - chklen) && ltb k (length u))
unfolding scan_cr cr_run
scan_cr_lem room chklen [] = ground (arith, cr_run_bounds (room - chklen) [])
scan_cr_lem room chklen (c ∷ u) =
    let shift : room - chklen - 1 ≡ room - (chklen + 1) = omega arith in
    elim (Bool-cases (ltb chklen room)) [
      | inr stop ↦
          let no_room : room - chklen ≡ 0 = ground arith in
          rw (stop, no_room, cr_run) (ground arith)
      | inl go ↦
          rw (go, cr_run_cons (room - chklen) c u (ground arith), shift)
            (ground (arith, scan_cr_lem room (chklen + 1) u, cr_run_bounds (room - (chklen + 1)) u))
    ]

-- What a call promises: `len` bytes are used up, at least one if there are any and there is room;
-- they are stored decoded.
pub record Takes (dec : List ℕ → List ℕ) (sb : Storage) (src : List ℕ) (r : ℕ × Storage)
    : Type 0 where
  pub within : r.0 ≤ length src
  pub some_used : 0 < length src → sb.datalen < session_bufsize → 0 < r.0
  pub stored : unsaved r.1 ≡ unsaved sb ++ dec (take r.0 src)
  pub fillable : Fillable r.1

module _ (sb : Storage) (src : List ℕ) (v : Fillable sb) where
  abbrev room : ℕ
  room = session_bufsize - sb.datalen

  abbrev run : ℕ
  run = cr_run room src

  scan_start : scan_cr room src 0 ≡ (run, ltb run room && ltb run (length src))
  scan_start =
      let whole : room - 0 ≡ room = omega arith in
      let none_yet : 0 + run ≡ run = omega arith in rw (whole, none_yet) at (scan_cr_lem room 0 src)

  stored_run :
      (unsaved (append_bytes sb (take run src)) ≡ unsaved sb ++ take run src)
      × Fillable (append_bytes sb (take run src))
  stored_run =
      append_bytes_lem sb (take run src) v
        (omega (arith, v.bounded, cr_run_bounds room src, length-take run src))

  pub netascii-Takes : Takes decode sb src (netascii_to_local sb src)
  unfolding netascii_to_local
  netascii-Takes = elim (Bool-cases (ltb run room && ltb run (length src))) [
    | inl hit ↦
        let next : run + 1 ≡ suc run = omega arith in
        rw (scan_start, hit, next)
          (record {
            within = ground arith;
            some_used = λ p q. omega arith;
            stored =
                stored_run.0
                ∙ ap (◌++◌ (unsaved sb))
                    (sym (decode_run_stop room src (ground arith) (ground arith)));
            fillable = stored_run.1;
          })
    | inr end ↦
        rw (scan_start, end)
          (record {
            within = (cr_run_bounds room src).1;
            some_used = λ p q. ground (arith, cr_run_bounds room src);
            stored = stored_run.0 ∙ ap (◌++◌ (unsaved sb)) (sym (decode_run room src));
            fillable = stored_run.1;
          })
  ]
