-- ===== src/Tftp/Transfer/Feed.antt =====
-- `load_data` of src/tftp.c over an open file: the buffer is filled with the next bytes of the file.
use iwtftpd.Base.{
  ℕ, zero, suc, ◌+◌, ◌≤◌, ◌<◌, ◌≡◌, refl, sym, ap, ◌∙◌, Bool, true, false, List, [], ◌∷◌, ◌++◌,
  ◌==◌, some, take, drop, length, arith, length-append, length-take, length-drop, take-append-drop,
  take-length-append, blit,
}
use iwtftpd.Host.{Host}
use iwtftpd.Datastore.{
  Iwds, Dsession, get_dsession, is_dsfile, iwds_isfile, iwds_read, read_open, found, ok,
}
use iwtftpd.Tftp.Types.{TftpMode, netascii, octet, Storage, Session, session_bufsize}
use iwtftpd.Tftp.Store.{Io, load_data, dticket}
use iwtftpd.Tftp.Netascii.Emit.{unread, pending, IsReady, buffer}
use iwtftpd.Tftp.Netascii.Encode.{encode}
use iwtftpd.Tftp.Transfer.{refill}

-- What is read from an open file: `rest fp w` is the part of its contents that is still to be read.
-- Reading takes from its front, a read error does not occur, and `malloc` does not change it.
pub record Feeds {W : Type 0} (h : Host W) (rest : ℕ → W → List ℕ) : Type 0 where
  pub malloc_rest : (fp n : ℕ) (w : W) → rest fp (h.malloc n w).1 ≡ rest fp w
  pub fread_bytes : (fp n : ℕ) (w : W) → (h.fread fp n w).0 ≡ take n (rest fp w)
  pub fread_rest : (fp n : ℕ) (w : W) → rest fp (h.fread fp n w).1 ≡ drop n (rest fp w)
  pub no_error : (fp n : ℕ) (w : W) → h.ferror fp (h.fread fp n w).1 ≡ false

-- `fopt` is used in netascii mode only.
abbrev pub ModeFits : TftpMode → Bool → Type 0
ModeFits octet true = ⊥
ModeFits octet false = Unit {0}
ModeFits netascii f = Unit {0}

pub record Sendable (mode : TftpMode) (sb : Storage) : Type 0 where
  pub size : length sb.storage ≡ session_bufsize
  pub ready : IsReady sb
  pub mode_fits : ModeFits mode sb.fopt

-- What is still to be sent, `tail` being the part of the file that is still to be read.
abbrev pub left_to_send : TftpMode → Storage → List ℕ → List ℕ
left_to_send octet sb tail = unread sb ++ tail
left_to_send netascii sb tail = pending sb.fopt (unread sb ++ tail)

nil_of_take : (n : ℕ) (xs : List ℕ) → 0 < n → length (take n xs) ≡ 0 → xs ≡ []
nil_of_take zero xs p h = absurd (omega arith)
nil_of_take (suc n) [] p h = refl
nil_of_take (suc n) (x ∷ xs) p h = absurd (omega arith)

pub same_left :
    (mode : TftpMode) (a b : Storage) (t u : List ℕ)
    → a.fopt ≡ b.fopt
    → unread a ++ t ≡ unread b ++ u
    → left_to_send mode a t ≡ left_to_send mode b u
same_left octet a b t u f e = e
same_left netascii a b t u f e = rw (f, e)

ended :
    (mode : TftpMode) (a : Storage) → a.fopt ≡ false → unread a ≡ [] → left_to_send mode a [] ≡ []
unfolding encode
ended octet a f e = rw e
ended netascii a f e = rw (f, e)

-- A buffer that was just filled holds the bytes it was filled with.
pub unread-filled :
    (storage c : List ℕ) (f : Bool) → unread (buffer 0 f (length c) (blit storage 0 c)) ≡ c
unread-filled storage c f = take-length-append c _

pub filled-Sendable :
    (mode : TftpMode) (storage c : List ℕ)
    → length storage ≡ session_bufsize
    → length c ≤ session_bufsize
    → Sendable mode (buffer 0 false (length c) (blit storage 0 c))
filled-Sendable mode storage c h k = record {
  size = whole;
  ready = record { in_range = omega (arith, whole); after_cr = tt };
  mode_fits = fits mode;
}
  where
    whole : length (blit storage 0 c) ≡ session_bufsize
    whole =
        omega
          (arith, length-append c (drop (0 + length c) storage), length-drop (0 + length c) storage)

    fits : (m : TftpMode) → ModeFits m false
    fits octet = tt
    fits netascii = tt

module _ {W : Type 0} ⦃h : Host W⦄ (rest : ℕ → W → List ℕ) (laws : Feeds h rest) (s : Session)
    (ds : Iwds) (f : Dsession) (opened : get_dsession ds.dhead s.clsock s.filename ≡ some f)
    (present : (w : W) → (iwds_isfile ds s.filename w).0 ≡ found) where
  abbrev pub chunk : W → List ℕ
  chunk w = take session_bufsize (rest f.fp w)

  check_world :
      (w : W)
      → (is_dsfile ds.dspath s.filename w).1
        ≡ (h.malloc (length ds.dspath + length s.filename + 2) w).1
  unfolding is_dsfile
  check_world w = ground arith

  rest_after_check : (w : W) → rest f.fp (is_dsfile ds.dspath s.filename w).1 ≡ rest f.fp w
  rest_after_check w = rw (check_world w) (laws.malloc_rest f.fp _ w)

  abbrev read_world : W → W
  read_world w = (h.fread f.fp session_bufsize (is_dsfile ds.dspath s.filename w).1).1

  -- A request to read gives the next bytes of the file.
  read_lem :
      (w : W)
      → iwds_read ds (dticket s [] session_bufsize) w ≡ record {
        count = length (chunk w);
        bytes = chunk w;
        derr = ok;
        ds = ds;
        world = read_world w;
      }
  unfolding iwds_read iwds_isfile
  read_lem w =
      let w1 = (is_dsfile ds.dspath s.filename w).1 in
      let bytes : (h.fread f.fp session_bufsize w1).0 ≡ chunk w =
        laws.fread_bytes f.fp session_bufsize w1 ∙ ap (take session_bufsize) (rest_after_check w) in
      rw (present w, iwds_read, opened, read_open)
        (ground (arith, bytes, laws.no_error f.fp session_bufsize w1))

  pub load_lem :
      (sb : Storage) (w : W)
      → let r = load_data s sb ds w in
        (r.good ≡ true)
        × (r.buf ≡ buffer 0 sb.fopt (length (chunk w)) (blit sb.storage 0 (chunk w)))
        × (r.ds ≡ ds)
        × (rest f.fp r.world ≡ drop session_bufsize (rest f.fp w))
  unfolding load_data
  load_lem sb w =
      let w1 = (is_dsfile ds.dspath s.filename w).1 in
      rw (read_lem w, load_data)
        (
          refl,
          refl,
          refl,
          laws.fread_rest f.fp session_bufsize w1 ∙ ap (drop session_bufsize) (rest_after_check w),
        )

  length-chunk : (w : W) → length (chunk w) ≤ session_bufsize
  length-chunk w = omega (arith, length-take session_bufsize (rest f.fp w))

  -- What holds after the buffer was refilled: nothing of what is to be sent is lost, and the buffer
  -- is empty only at the end of the file.
  pub record Refilled (sb : Storage) (w : W) (r : Io W) : Type 0 where
    pub good : r.good ≡ true
    pub sendable : Sendable s.tftpmode r.buf
    pub same_ds : r.ds ≡ ds
    pub same_fopt : r.buf.fopt ≡ sb.fopt
    pub same_text :
        left_to_send s.tftpmode r.buf (rest f.fp r.world) ≡ left_to_send s.tftpmode sb (rest f.fp w)
    pub at_end : (r.buf.datalen ≡ 0) → left_to_send s.tftpmode sb (rest f.fp w) ≡ []

  pub refill_lem :
      (sb : Storage) (w : W) → Sendable s.tftpmode sb → Refilled sb w (refill s sb ds w)
  unfolding refill
  refill_lem sb w v = by_fields sb.pos sb.fopt sb.datalen sb.storage v
    where
      by_fields :
          (pos : ℕ) (fopt : Bool) (datalen : ℕ) (storage : List ℕ)
          → Sendable s.tftpmode (buffer pos fopt datalen storage)
          → let sb' = buffer pos fopt datalen storage in Refilled sb' w (refill s sb' ds w)
      by_fields pos true zero storage u = absurd u.ready.after_cr
      by_fields pos false zero storage u = record {
        good = good;
        sendable = rw buf (filled-Sendable s.tftpmode storage (chunk w) u.size (length-chunk w));
        same_ds = same_ds;
        same_fopt = rw buf refl;
        same_text = same_left s.tftpmode _ sb' _ _ (rw buf refl) (unread_text ∙ whole);
        at_end = λ e. rw (nothing e) (ended s.tftpmode sb' refl refl);
      }
        where
          sb' : Storage
          sb' = buffer pos false zero storage

          good : (load_data s sb' ds w).good ≡ true
          good = (load_lem sb' w).0

          buf :
              (load_data s sb' ds w).buf
              ≡ buffer 0 false (length (chunk w)) (blit storage 0 (chunk w))
          buf = (load_lem sb' w).1

          same_ds : (load_data s sb' ds w).ds ≡ ds
          same_ds = (load_lem sb' w).2

          whole : chunk w ++ drop session_bufsize (rest f.fp w) ≡ rest f.fp w
          whole = take-append-drop session_bufsize (rest f.fp w)

          unread_text :
              unread (load_data s sb' ds w).buf ++ rest f.fp (load_data s sb' ds w).world
              ≡ chunk w ++ drop session_bufsize (rest f.fp w)
          unread_text = rw (buf, (load_lem sb' w).3, unread-filled storage (chunk w) false)

          nothing : (load_data s sb' ds w).buf.datalen ≡ 0 → rest f.fp w ≡ []
          nothing e =
              nil_of_take session_bufsize (rest f.fp w) (omega arith)
                (ap (λ b. b.datalen) (sym buf) ∙ e)
      by_fields pos fopt (suc left) storage u =
          let nonempty : (suc left == 0) ≡ false = ground arith in
          rw nonempty (record {
            good = refl;
            sendable = u;
            same_ds = refl;
            same_fopt = refl;
            same_text = refl;
            at_end = λ e. absurd (omega arith);
          })
