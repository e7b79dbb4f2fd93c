-- ===== src/Tftp/Transfer/Get.antt =====
-- `get_session_data` of src/tftp.c, against the text that is to be sent.
use iwtftpd.Base.{
  ℕ, zero, suc, ◌+◌, ◌-◌, ◌≤◌, ◌<◌, ◌≡◌, refl, sym, ap, ◌∙◌, Bool, true, false, List, [], ◌∷◌, ◌++◌,
  ltb, ◌==◌, if◌then◌else◌, some, take, drop, length, arith, slice, length-slice, drop-slice,
  Bool-cases, inl, inr, append_assoc, append-nil, take-append-drop, take-append, drop-append,
  take_all, drop_all, take-nil, drop-nil, take-take,
}
use iwtftpd.Host.{Host}
use iwtftpd.Datastore.{Iwds, Dsession, get_dsession, iwds_isfile, found}
use iwtftpd.Tftp.Types.{TftpMode, netascii, octet, Storage, Session}
use iwtftpd.Tftp.Netascii.Encode.{encode}
use iwtftpd.Tftp.Netascii.Emit.{unread, pending, AfterCr, buffer, least_room, CutFills, emit_lem}
use iwtftpd.Tftp.Transfer.{
  moved, Transferred, ends, copy_octet, give, refill, get_loop, get_session_data,
}
use iwtftpd.Tftp.Transfer.Feed.{Feeds, Sendable, left_to_send, refill_lem}

-- One piece of what is to be sent.
pub record Gives (mode : TftpMode) (room : ℕ) (sb : Storage) (tail : List ℕ) (r : List ℕ × Storage)
    : Type 0 where
  pub text : left_to_send mode sb tail ≡ r.0 ++ left_to_send mode r.1 tail
  pub some_bytes : 0 < length r.0
  pub fits : length r.0 ≤ room
  pub sendable : Sendable mode r.1
  pub cut_fills : CutFills r.1.fopt (length r.0) room

encode-append : (u v : List ℕ) → encode (u ++ v) ≡ encode u ++ encode v
unfolding encode
encode-append [] v = refl
encode-append (c ∷ u) v = ground (arith, encode-append u v)

pending-append :
    (f : Bool) (u v : List ℕ) → AfterCr f u → pending f (u ++ v) ≡ pending f u ++ encode v
unfolding encode
pending-append false u v a = encode-append u v
pending-append true [] v a = absurd a
pending-append true (c ∷ u) v a = rw a (ap (◌∷◌ b'\n') (encode-append u v))

netascii-Gives :
    (room : ℕ) (sb : Storage) (tail : List ℕ)
    → Sendable netascii sb
    → 0 < sb.datalen
    → least_room sb.fopt ≤ room
    → Gives netascii room sb tail (give netascii room sb)
unfolding give
netascii-Gives room sb tail v d r =
    let e = emit_lem room sb v.ready d r in
    let (bytes, sb') = give netascii room sb in
    record {
      text =
          pending-append sb.fopt (unread sb) tail v.ready.after_cr
          ∙ ap (λ x. x ++ encode tail) e.bytes
          ∙ append_assoc bytes _ (encode tail)
          ∙ ap (◌++◌ bytes) (sym (pending-append sb'.fopt (unread sb') tail e.ready.after_cr));
      some_bytes = e.some_bytes;
      fits = e.fits;
      sendable = record { size = ap length e.same ∙ v.size; ready = e.ready; mode_fits = tt };
      cut_fills = e.cr_last;
    }

-- The first `len` bytes of the buffer.
octet_piece :
    (room : ℕ) (tail : List ℕ) (len pos datalen : ℕ) (storage : List ℕ)
    → Sendable octet (buffer pos false datalen storage)
    → 0 < len
    → len ≤ datalen
    → len ≤ room
    → Gives octet room
        (buffer pos false datalen storage)
        tail
        (take len (drop pos storage), buffer (pos + len) false (datalen - len) storage)
octet_piece room tail len pos datalen storage u p q r = record {
  text =
      ap (λ x. x ++ tail)
        (sym (take-append-drop len (slice pos datalen storage))
          ∙ ap (λ x. x ++ drop len (slice pos datalen storage))
              (take-take len datalen (drop pos storage) q)
          ∙ ap (◌++◌ (take len (drop pos storage))) (drop-slice len pos datalen storage))
      ∙ append_assoc (take len (drop pos storage)) _ tail;
  some_bytes = omega (arith, exact);
  fits = omega (arith, exact);
  sendable = record {
    size = u.size;
    ready = record { in_range = omega (arith, u.ready.in_range); after_cr = tt };
    mode_fits = tt;
  };
  cut_fills = tt;
}
  where
    exact : length (take len (drop pos storage)) ≡ len
    exact = length-slice pos len storage (omega (arith, u.ready.in_range))

octet-Gives :
    (room : ℕ) (sb : Storage) (tail : List ℕ)
    → Sendable octet sb
    → 0 < sb.datalen
    → 0 < room
    → Gives octet room sb tail (give octet room sb)
unfolding give copy_octet
octet-Gives room sb tail v d r = by_fields sb.pos sb.fopt sb.datalen sb.storage v d
  where
    by_fields :
        (pos : ℕ) (fopt : Bool) (datalen : ℕ) (storage : List ℕ)
        → Sendable octet (buffer pos fopt datalen storage)
        → 0 < datalen
        → let sb' = buffer pos fopt datalen storage in
          Gives octet room sb' tail (give octet room sb')
    by_fields pos true datalen storage u d' = absurd u.mode_fits
    by_fields pos false datalen storage u d' =
        octet_piece room tail (if ltb datalen room then datalen else room) pos datalen storage u
          (ground arith) (ground arith) (ground arith)

pub give-Gives :
    (mode : TftpMode) (room : ℕ) (sb : Storage) (tail : List ℕ)
    → Sendable mode sb
    → 0 < sb.datalen
    → least_room sb.fopt ≤ room
    → Gives mode room sb tail (give mode room sb)
give-Gives netascii room sb tail v d r = netascii-Gives room sb tail v d r
give-Gives octet room sb tail v d r = octet-Gives room sb tail v d (positive sb.fopt r)
  where
    positive : (f : Bool) → least_room f ≤ room → 0 < room
    positive true k = omega arith
    positive false k = k

take_prefix :
    (room : ℕ) (b t : List ℕ) → length b ≤ room → take room (b ++ t) ≡ b ++ take (room - length b) t
take_prefix room b t h =
    take-append room b t ∙ ap (λ x. x ++ take (room - length b) t) (take_all room b h)

drop_prefix :
    (room : ℕ) (b t : List ℕ) → length b ≤ room → drop room (b ++ t) ≡ drop (room - length b) t
drop_prefix room b t h =
    drop-append room b t ∙ ap (λ x. x ++ drop (room - length b) t) (drop_all room b h)

pub least_room_left :
    (f : Bool) (n room : ℕ) → CutFills f n room → n < room → least_room f ≤ room - n
least_room_left true n room c h = absurd (omega arith)
least_room_left false n room c h = omega arith

module _ {W : Type 0} ⦃h : Host W⦄ (rest : ℕ → W → List ℕ) (laws : Feeds h rest) (s : Session)
    (ds : Iwds) (f : Dsession) (opened : get_dsession ds.dhead s.clsock s.filename ≡ some f)
    (present : (w : W) → (iwds_isfile ds s.filename w).0 ≡ found) where
  -- What is to be sent before a call.
  abbrev pub to_send : Storage → W → List ℕ
  to_send sb w = left_to_send s.tftpmode sb (rest f.fp w)

  -- After the loop: the text stored is what had been stored, and as much more as there is room for.
  pub record Got (room : ℕ) (out text : List ℕ) (r : Transferred W) : Type 0 where
    pub bytes : r.result ≡ moved (length (out ++ take room text)) (out ++ take room text)
    pub same_ds : r.ds ≡ ds
    pub later : to_send r.buf r.world ≡ drop room text
    pub sendable : Sendable s.tftpmode r.buf

  -- Bytes given before the loop goes on.
  Got-prefix :
      (room : ℕ) (out b text : List ℕ) {r : Transferred W}
      → length b ≤ room
      → Got (room - length b) (out ++ b) text r
      → Got room out (b ++ text) r
  Got-prefix room out b text {r} k g = record {
    bytes =
        g.bytes
        ∙ ap (λ x. moved (length x) x)
            (append_assoc out b (take (room - length b) text)
              ∙ ap (◌++◌ out) (sym (take_prefix room b text k)));
    same_ds = g.same_ds;
    later = g.later ∙ sym (drop_prefix room b text k);
    sendable = g.sendable;
  }

  -- No room is left.
  Got-full :
      (room : ℕ) (out : List ℕ) (sb : Storage) (w : W)
      → room ≡ 0
      → Sendable s.tftpmode sb
      → Got room out (to_send sb w) (ends (moved (length out) out) sb ds w)
  Got-full room out sb w e v = rw e (record {
    bytes = ap (λ x. moved (length x) x) (sym (append-nil out));
    same_ds = refl;
    later = refl;
    sendable = v;
  })

  pub get_loop-Got :
      (fuel room : ℕ) (out : List ℕ) (sb : Storage) (w : W)
      → room < fuel
      → least_room sb.fopt ≤ room
      → Sendable s.tftpmode sb
      → Got room out (to_send sb w) (get_loop fuel s room out sb ds w)
  unfolding get_loop
  get_loop-Got zero room out sb w p q v = absurd (omega arith)
  get_loop-Got (suc fuel) room out sb w p q v =
      let r = refill s sb ds w in
      let filled = refill_lem rest laws s ds f opened present sb w v in
      elim (Bool-cases (r.buf.datalen == 0)) [
        | inl e ↦
            let nothing = filled.at_end (ground arith) in
            rw (filled.good, e, filled.same_ds, nothing)
              (record {
                bytes =
                    ap (λ x. moved (length x) x)
                      (sym (ap (◌++◌ out) (take-nil ℕ room) ∙ append-nil out));
                same_ds = refl;
                later = filled.same_text ∙ nothing ∙ sym (drop-nil ℕ room);
                sendable = filled.sendable;
              })
        | inr e ↦
            let g =
              give-Gives s.tftpmode room r.buf (rest f.fp r.world) filled.sendable (ground arith)
                (rw filled.same_fopt q) in
            let (b, sb') = give s.tftpmode room r.buf in
            rw (filled.good, e, filled.same_ds, sym filled.same_text ∙ g.text)
              (elim (Bool-cases (ltb (length b) room)) [
                | inl more ↦ rw more (
                    Got-prefix room out b (to_send sb' r.world) g.fits (
                      get_loop-Got fuel (room - length b) (out ++ b) sb' r.world
                        (omega (arith, g.some_bytes))
                        (least_room_left sb'.fopt (length b) room g.cut_fills (ground arith))
                        g.sendable))
                | inr full ↦ rw full (
                    Got-prefix room out b (to_send sb' r.world) g.fits
                      (Got-full (room - length b) (out ++ b) sb' r.world (ground arith) g.sendable))
              ])
      ]

  -- Over an open file that is there and reads without error, with a well-formed buffer and room for
  -- two bytes or more, `get_session_data` ends, and returns the next bytes of what is to be sent in
  -- the session's mode, as many as there is room for; exactly the rest is left to send, and the
  -- datastore is as it was.
  pub get_session_data_lem :
      (room : ℕ) (w : W)
      → 2 ≤ room
      → Sendable s.tftpmode s.sesbuf
      → let text = to_send s.sesbuf w in
        let r = get_session_data s ds room w in
        (r.result ≡ moved (length (take room text)) (take room text))
        × (to_send r.buf r.world ≡ drop room text)
        × (r.ds ≡ ds)
        × Sendable s.tftpmode r.buf
  unfolding get_session_data
  get_session_data_lem room w h v =
      let g = get_loop-Got (suc room) room [] s.sesbuf w (omega arith) (enough s.sesbuf.fopt) v in
      (g.bytes, g.later, g.same_ds, g.sendable)
    where
      enough : (b : Bool) → least_room b ≤ room
      enough true = h
      enough false = omega arith
