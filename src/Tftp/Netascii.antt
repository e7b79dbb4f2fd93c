-- ===== src/Tftp/Netascii.antt =====
-- The two functions of src/tftp.c that convert between the bytes of a file and netascii.
pub mod Encode
pub mod Emit
pub mod Decode
use iwtftpd.Base.{
  ℕ, zero, suc, ◌+◌, ◌-◌, Bool, true, false, ◌&&◌, List, [], ◌∷◌, ◌++◌, ltb, leb, ◌==◌,
  if◌then◌else◌, take, drop, get_or, blit, length,
}
use iwtftpd.Tftp.Types.{Storage, session_bufsize}

-- Where a scan stops: `ps`, `dstlen`, `sb->datalen` and `found`.
pub record Scan : Type 0 where
  pub ps : ℕ
  pub len : ℕ
  pub left : ℕ
  pub hit : Bool

-- `while (dstlen < bufsize && sb->datalen > 0)`, which ends at a line feed: recursion on `datalen`.
unfoldable pub scan_lf : List ℕ → ℕ → ℕ → ℕ → ℕ → Scan
scan_lf storage bufsize ps dstlen zero = record { ps = ps; len = dstlen; left = 0; hit = false }
scan_lf storage bufsize ps dstlen (suc left) =
    let rest = scan_lf storage bufsize (ps + 1) (dstlen + 1) left in
    if ltb dstlen bufsize
    then (if get_or storage ps 0 == b'\n'
        then record { ps = ps; len = dstlen; left = suc left; hit = true }
        else rest)
    else record { ps = ps; len = dstlen; left = suc left; hit = false }

-- The part after the loop, where a line feed was found. It gives the bytes that follow those copied.
unfoldable pub put_lf : ℕ → Storage → List ℕ × Storage
put_lf room sb =
    let lf = get_or sb.storage sb.pos 0 in
    let next = record sb { pos = sb.pos + 1; datalen = sb.datalen - 1 } in
    if leb 2 room
    then (if sb.fopt then (lf ∷ [], record next { fopt = false }) else (b'\r' ∷ lf ∷ [], next))
    else if room == 1
    then (b'\r' ∷ [], record sb { fopt = true })
    else ([], sb)

-- `local_to_netascii` after its loop.
unfoldable pub after_scan : ℕ → Storage → Scan → List ℕ × Storage
after_scan bufsize sb s =
    let copied = take s.len (drop sb.pos sb.storage) in
    let sb' = record sb { pos = s.ps; datalen = s.left } in
    let (more, sb'') = put_lf (bufsize - s.len) sb' in
    if s.hit then (copied ++ more, sb'') else (copied, sb')

-- The bytes stored at `dstbuf`, whose number is the result, and the buffer after the call.
unfoldable pub local_to_netascii : ℕ → Storage → List ℕ × Storage
unfolding after_scan
local_to_netascii bufsize sb =
    after_scan bufsize sb (scan_lf sb.storage bufsize sb.pos 0 sb.datalen)

-- `while (chklen < room && chklen < srclen)`, which ends at a carriage return: the number of bytes
-- passed, and whether one was found.
unfoldable pub scan_cr : ℕ → List ℕ → ℕ → ℕ × Bool
scan_cr room [] chklen = (chklen, false)
scan_cr room (c ∷ src) chklen =
    let rest = scan_cr room src (chklen + 1) in
    if ltb chklen room then (if c == b'\r' then (chklen, true) else rest) else (chklen, false)

-- `memcpy` at `pos`, where `chklen > 0` or not.
unfoldable pub append_bytes : Storage → List ℕ → Storage
append_bytes sb bytes = record sb {
  storage = blit sb.storage sb.pos bytes;
  pos = sb.pos + length bytes;
  datalen = sb.datalen + length bytes;
}

-- The number of bytes of `src` used up, and the buffer after the call.
unfoldable pub netascii_to_local : Storage → List ℕ → ℕ × Storage
netascii_to_local sb src =
    let (chklen, hit) = scan_cr (session_bufsize - sb.datalen) src 0 in
    let sb' = append_bytes sb (take chklen src) in (if hit then chklen + 1 else chklen, sb')
