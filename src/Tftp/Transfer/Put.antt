-- ===== src/Tftp/Transfer/Put.antt =====
-- `put_session_data` of src/tftp.c, against the text that was received.
use iwtftpd.Base.{
  ℕ, zero, suc, ◌+◌, ◌-◌, ◌<◌, ◌≡◌, refl, sym, ap, ◌∙◌, ◌⊎◌, Bool, true, false, ◌&&◌, ◌||◌, List,
  [], ◌++◌, ltb, ◌==◌, some, take, drop, length, arith, Bool-cases, inl, inr, append_assoc,
  length-take, length-drop, append-nil, take-append-drop, take_all, ==_refl,
}
use iwtftpd.Host.{Host}
use iwtftpd.Datastore.{Iwds, Dsession, get_dsession, iwds_write, write_session, write_bytes, ok}
use iwtftpd.Tftp.Types.{octet, Storage, Session, session_bufsize}
use iwtftpd.Tftp.Store.{Io, save_data, dticket}
use iwtftpd.Tftp.Netascii.Decode.{unsaved, Fillable}
use iwtftpd.Tftp.Transfer.{moved, Transferred, accept, flush, put_loop, put_session_data}
use iwtftpd.Tftp.Transfer.Accept.{
  Sinks, kept, kept-append, kept-nil, nil_of_length, accept-Takes, octet_grows,
}

module _ {W : Type 0} ⦃h : Host W⦄ (wrote : ℕ → W → List ℕ) (laws : Sinks h wrote) (s : Session)
    (ds : Iwds) (f : Dsession) (opened : get_dsession ds.dhead s.clsock s.filename ≡ some f) where
  -- What the client has sent so far, as it is kept: saved, or in the buffer.
  abbrev pub received : Storage → W → List ℕ
  received sb w = wrote f.fp w ++ unsaved sb

  write_lem :
      (sb : Storage) (w : W)
      → Fillable sb
      → 0 < sb.datalen
      → iwds_write ds (dticket s sb.storage sb.datalen) w ≡ record {
        count = sb.datalen;
        bytes = [];
        derr = ok;
        ds = ds;
        world = (h.fwrite f.fp (unsaved sb) w).1;
      }
  unfolding iwds_write write_session write_bytes
  write_lem sb w v d =
      let more : (sb.datalen == 0) ≡ false = ground arith in
      let all : (h.fwrite f.fp (unsaved sb) w).0 ≡ sb.datalen =
        laws.fwrite_all f.fp (unsaved sb) w
        ∙ omega (arith, length-take sb.datalen sb.storage, v.size, v.bounded) in
      let whole : ltb sb.datalen sb.datalen ≡ false = ground arith in
      rw (opened, iwds_write, more, write_session, all, whole) refl

  save_lem :
      (sb : Storage) (w : W)
      → Fillable sb
      → 0 < sb.datalen
      → let r = save_data s sb ds w in
        (r.good ≡ true)
        × (r.ds ≡ ds)
        × (r.buf ≡ record sb { datalen = 0; pos = 0 })
        × (wrote f.fp r.world ≡ received sb w)
  unfolding save_data
  save_lem sb w v d =
      rw (write_lem sb w v d, save_data, ==_refl sb.datalen)
        (refl, refl, refl, laws.fwrite_wrote f.fp (unsaved sb) w)

  -- Whether all is saved, as it is at the end of the transfer, or there is room for more.
  abbrev pub Settled : Bool → Storage → Type 0
  Settled true sb = sb.datalen ≡ 0
  Settled false sb = sb.datalen < session_bufsize

  record Flushed (sb : Storage) (w : W) (r : Io W) : Type 0 where
    good : r.good ≡ true
    same_ds : r.ds ≡ ds
    text : received r.buf r.world ≡ received sb w
    fillable : Fillable r.buf
    settled : Settled s.fin r.buf

  saved-Flushed :
      (sb : Storage) (w : W) → Fillable sb → 0 < sb.datalen → Flushed sb w (save_data s sb ds w)
  saved-Flushed sb w v d =
      let (good, same, buf, text) = save_lem sb w v d in
      record {
        good = good;
        same_ds = same;
        text = rw buf (append-nil _ ∙ text);
        fillable = rw buf (record { size = v.size; at_end = refl; bounded = omega arith });
        settled = rw buf (settled s.fin);
      }
    where
      settled : (b : Bool) → Settled b (record sb { datalen = 0; pos = 0 })
      settled true = refl
      settled false = omega arith

  flush-Flushed :
      (sb : Storage) (w : W)
      → Fillable sb
      → (s.fin ≡ false) ⊎ (0 < sb.datalen)
      → Flushed sb w (flush s sb ds w)
  unfolding flush
  flush-Flushed sb w v c = elim (Bool-cases (sb.datalen == session_bufsize || s.fin)) [
    | inl now ↦ rw now (saved-Flushed sb w v (ground arith))
    | inr later ↦
        let going : s.fin ≡ false = ground arith in
        rw later (record {
          good = refl;
          same_ds = refl;
          text = refl;
          fillable = v;
          settled = rw going (ground (arith, v.bounded));
        })
  ]

  -- At the end of a transfer in octet mode there is something to save in each round.
  abbrev pub Saves : Storage → List ℕ → Type 0
  Saves sb src = (s.fin ≡ false) ⊎ ((s.tftpmode ≡ octet) × (0 < length src + sb.datalen))

  -- After the loop all of `src` has been received.
  pub record Took (total : ℕ) (src : List ℕ) (sb : Storage) (w : W) (r : Transferred W)
      : Type 0 where
    pub result : r.result ≡ moved (total + length src) []
    pub same_ds : r.ds ≡ ds
    pub text : received r.buf r.world ≡ received sb w ++ kept s.tftpmode src
    pub fillable : Fillable r.buf
    pub settled : Settled s.fin r.buf

  accepted_text :
      (sb : Storage) (src : List ℕ) (w : W)
      → Fillable sb
      → let (len, sb') = accept s.tftpmode sb src in
        received sb' w ≡ received sb w ++ kept s.tftpmode (take len src)
  accepted_text sb src w v =
      let t = accept-Takes s.tftpmode sb src v in
      let (len, sb') = accept s.tftpmode sb src in
      ap (◌++◌ (wrote f.fp w)) t.stored ∙ sym (append_assoc (wrote f.fp w) (unsaved sb) _)

  to_save :
      (sb : Storage) (src : List ℕ)
      → Fillable sb
      → sb.datalen < session_bufsize
      → Saves sb src
      → (s.fin ≡ false) ⊎ (0 < (accept s.tftpmode sb src).1.datalen)
  to_save sb src v d (inl e) = inl e
  to_save sb src v d (inr (m, p)) = inr (rw m (octet_grows sb src v d p))

  Settled-room : (b : Bool) (sb : Storage) → Settled b sb → sb.datalen < session_bufsize
  Settled-room true sb e = omega arith
  Settled-room false sb e = e

  Saves-more :
      (sb sb' : Storage) (src src' : List ℕ) → 0 < length src' → Saves sb src → Saves sb' src'
  Saves-more sb sb' src src' p (inl e) = inl e
  Saves-more sb sb' src src' p (inr (m, q)) = inr (m, omega arith)

  put_loop-Took :
      (fuel total : ℕ) (src : List ℕ) (sb : Storage) (w : W)
      → length src < fuel
      → Fillable sb
      → sb.datalen < session_bufsize
      → Saves sb src
      → Took total src sb w (put_loop fuel s total src sb ds w)
  unfolding put_loop
  put_loop-Took zero total src sb w p v d c = absurd (omega arith)
  put_loop-Took (suc fuel) total src sb w p v d c =
      let t = accept-Takes s.tftpmode sb src v in
      let (len, sb') = accept s.tftpmode sb src in
      let fl = flush-Flushed sb' w t.fillable (to_save sb src v d c) in
      let r = flush s sb' ds w in
      let text = fl.text ∙ accepted_text sb src w v in
      elim (Bool-cases (ltb len (length src))) [
        | inl more ↦
            let some_used = t.some_used (ground arith) d in
            let left : length (drop len src) ≡ length src - len = length-drop len src in
            let ih =
              put_loop-Took fuel (total + len) (drop len src) r.buf r.world
                (omega (arith, left, some_used)) fl.fillable (Settled-room s.fin r.buf fl.settled)
                (Saves-more sb r.buf src (drop len src) (ground (arith, left)) c) in
            rw (fl.good, more, fl.same_ds)
              (record {
                result = ih.result ∙ ap (λ n. moved n []) (omega (arith, left, t.within));
                same_ds = ih.same_ds;
                text =
                    ih.text
                    ∙ ap (λ x. x ++ kept s.tftpmode (drop len src)) text
                    ∙ append_assoc (received sb w) _ _
                    ∙ ap (◌++◌ (received sb w)) (
                        sym (kept-append s.tftpmode (take len src) (drop len src))
                        ∙ ap (kept s.tftpmode) (take-append-drop len src));
                fillable = ih.fillable;
                settled = ih.settled;
              })
        | inr full ↦
            let all : len ≡ length src = ground (arith, t.within) in
            rw (fl.good, full)
              (record {
                result = ap (λ n. moved (total + n) []) all;
                same_ds = fl.same_ds;
                text =
                    text
                    ∙ ap (λ x. received sb w ++ kept s.tftpmode x)
                        (take_all len src (omega (arith, all)));
                fillable = fl.fillable;
                settled = fl.settled;
              })
      ]

  -- Over an open file that takes every write, and with a well-formed buffer that has room,
  -- `put_session_data` ends, and the data received is added to what the client has sent, in octet
  -- mode as it is and in netascii mode without its carriage returns; at the end of a transfer all
  -- of it is saved. The case left out is the end of a transfer in netascii mode.
  pub put_session_data_lem :
      (src : List ℕ) (w : W)
      → Fillable s.sesbuf
      → s.sesbuf.datalen < session_bufsize
      → (s.fin ≡ false) ⊎ (s.tftpmode ≡ octet)
      → let r = put_session_data s ds src w in
        (r.result ≡ moved (length src) [])
        × (received r.buf r.world ≡ received s.sesbuf w ++ kept s.tftpmode src)
        × (r.ds ≡ ds)
        × Fillable r.buf
        × Settled s.fin r.buf
  unfolding put_session_data
  put_session_data_lem src w v d c = elim (Bool-cases (s.sesbuf.datalen == 0 && length src == 0)) [
    | inl none_left ↦
        let nothing : src ≡ [] = nil_of_length src (ground arith) in
        rw (none_left, nothing, kept-nil s.tftpmode)
          (refl, sym (append-nil _), refl, v, settled_empty s.fin s.sesbuf (ground arith))
    | inr some_left ↦
        let t =
          put_loop-Took (suc (length src)) 0 src s.sesbuf w (omega arith) v d
            (saves c (ground arith)) in
        rw some_left
          (t.result ∙ ap (λ n. moved n []) (omega arith), t.text, t.same_ds, t.fillable, t.settled)
  ]
    where
      settled_empty : (b : Bool) (sb : Storage) → sb.datalen ≡ 0 → Settled b sb
      settled_empty true sb e = e
      settled_empty false sb e = omega arith

      saves :
          (s.fin ≡ false) ⊎ (s.tftpmode ≡ octet)
          → 0 < length src + s.sesbuf.datalen
          → Saves s.sesbuf src
      saves (inl e) p = inl e
      saves (inr m) p = inr (m, p)
