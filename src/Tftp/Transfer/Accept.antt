-- ===== src/Tftp/Transfer/Accept.antt =====
-- One piece of the data that `put_session_data` of src/tftp.c receives goes into the buffer; what
-- the file that it is saved to is assumed to do.
use iwtftpd.Base.{
  ℕ, ◌+◌, ◌-◌, ◌≤◌, ◌<◌, ◌≡◌, refl, List, [], ◌∷◌, ◌++◌, ltb, if◌then◌else◌, take, length, arith,
  length-take,
}
use iwtftpd.Host.{Host}
use iwtftpd.Tftp.Types.{TftpMode, netascii, octet, Storage, session_bufsize}
use iwtftpd.Tftp.Netascii.{append_bytes}
use iwtftpd.Tftp.Netascii.Decode.{
  decode, decode-append, Fillable, append_bytes_lem, Takes, netascii-Takes,
}
use iwtftpd.Tftp.Transfer.{store_octet, accept}

-- What is written to an open file: `wrote fp w` is what the file took so far. Every write is taken
-- whole, at the end.
pub record Sinks {W : Type 0} (h : Host W) (wrote : ℕ → W → List ℕ) : Type 0 where
  pub fwrite_all : (fp : ℕ) (b : List ℕ) (w : W) → (h.fwrite fp b w).0 ≡ length b
  pub fwrite_wrote : (fp : ℕ) (b : List ℕ) (w : W) → wrote fp (h.fwrite fp b w).1 ≡ wrote fp w ++ b

-- The bytes that a session's mode keeps of those received.
abbrev pub kept : TftpMode → List ℕ → List ℕ
kept octet u = u
kept netascii u = decode u

pub kept-append : (mode : TftpMode) (u v : List ℕ) → kept mode (u ++ v) ≡ kept mode u ++ kept mode v
kept-append octet u v = refl
kept-append netascii u v = decode-append u v

pub kept-nil : (mode : TftpMode) → kept mode [] ≡ []
unfolding decode
kept-nil octet = refl
kept-nil netascii = refl

pub nil_of_length : (u : List ℕ) → length u ≡ 0 → u ≡ []
nil_of_length [] e = refl
nil_of_length (c ∷ u) e = absurd (omega arith)

-- `len` is the smaller of the room and the length of `src`.
octet_piece :
    (sb : Storage) (src : List ℕ) (len : ℕ)
    → Fillable sb
    → len ≤ length src
    → sb.datalen + len ≤ session_bufsize
    → (0 < length src → sb.datalen < session_bufsize → 0 < len)
    → Takes (λ u. u) sb src (len, append_bytes sb (take len src))
octet_piece sb src len v h k p =
    let stored = append_bytes_lem sb (take len src) v (omega (arith, length-take len src)) in
    record { within = h; some_used = p; stored = stored.0; fillable = stored.1 }

pub accept-Takes :
    (mode : TftpMode) (sb : Storage) (src : List ℕ)
    → Fillable sb
    → Takes (kept mode) sb src (accept mode sb src)
unfolding accept store_octet
accept-Takes netascii sb src v = netascii-Takes sb src v
accept-Takes octet sb src v =
    let room = session_bufsize - sb.datalen in
    octet_piece sb src (if ltb (length src) room then length src else room) v (ground arith)
      (ground (arith, v.bounded)) (λ p q. ground arith)

pub octet_grows :
    (sb : Storage) (src : List ℕ)
    → Fillable sb
    → sb.datalen < session_bufsize
    → 0 < length src + sb.datalen
    → 0 < (accept octet sb src).1.datalen
unfolding accept store_octet append_bytes
octet_grows sb src v d p =
    let room = session_bufsize - sb.datalen in
    let len = if ltb (length src) room then length src else room in
    ground (arith, length-take len src)
