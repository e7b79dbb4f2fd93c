-- ===== src/Tftp/Netascii/Emit.antt =====
-- One call of `local_to_netascii` of src/tftp.c: it gives the next bytes of the encoded text.
use iwtftpd.Base.{
  ℕ, zero, suc, ◌+◌, ◌-◌, ◌≤◌, ◌<◌, ◌≡◌, refl, sym, ap, ◌∙◌, Bool, true, false, ◌&&◌, List, [], ◌∷◌,
  ◌++◌, ltb, leb, ◌==◌, take, drop, get_or, length, arith, slice, slice_cons, length-slice,
  drop-slice, take-take, Bool-cases, inl, inr, append_assoc, length-append, length-take,
}
use iwtftpd.Tftp.Types.{Storage}
use iwtftpd.Tftp.Netascii.{scan_lf, put_lf, local_to_netascii}
use iwtftpd.Tftp.Netascii.Encode.{
  encode, lf_run, lf_run_bounds, encode_run, run_stops, scan_lf_lem, suc-eq-add_one,
}

-- The bytes of the buffer that are still to be sent.
abbrev pub unread : Storage → List ℕ
unread sb = slice sb.pos sb.datalen sb.storage

-- `fopt` is set between the two bytes of a line end.
abbrev pub AfterCr : Bool → List ℕ → Type 0
AfterCr false u = Unit {0}
AfterCr true [] = ⊥
AfterCr true (c ∷ u) = c ≡ b'\n'

-- What is still to be sent of a text: with `fopt` its first carriage return has gone already.
abbrev pub pending : Bool → List ℕ → List ℕ
pending false u = encode u
pending true u = drop 1 (encode u)

pub record IsReady (sb : Storage) : Type 0 where
  pub in_range : sb.pos + sb.datalen ≤ length sb.storage
  pub after_cr : AfterCr sb.fopt (unread sb)

-- The room that a call needs to get on.
abbrev pub least_room : Bool → ℕ
least_room false = 1
least_room true = 2

-- A line end is cut only where the room is used up.
abbrev pub CutFills : Bool → ℕ → ℕ → Type 0
CutFills false n room = Unit {0}
CutFills true n room = n ≡ room

-- What a call with `room` bytes of space promises of the bytes it gives and the buffer it leaves.
pub record Emits (room : ℕ) (sb : Storage) (r : List ℕ × Storage) : Type 0 where
  pub bytes : pending sb.fopt (unread sb) ≡ r.0 ++ pending r.1.fopt (unread r.1)
  pub some_bytes : 0 < length r.0
  pub fits : length r.0 ≤ room
  pub ready : IsReady r.1
  pub same : r.1.storage ≡ sb.storage
  pub cr_last : CutFills r.1.fopt (length r.0) room

cons_parts : {a b : ℕ} {u v : List ℕ} → a ∷ u ≡ b ∷ v → (a ≡ b) × (u ≡ v)
cons_parts e = (cc, cc)

abbrev pub buffer : ℕ → Bool → ℕ → List ℕ → Storage
buffer pos fopt datalen storage = record {
  pos = pos;
  fopt = fopt;
  datalen = datalen;
  storage = storage;
}

module _ (room pos left : ℕ) (storage v : List ℕ) (h : pos + suc left ≤ length storage)
    (e : slice pos (suc left) storage ≡ b'\n' ∷ v) where
  -- The line feed, and what follows it.
  lf_parts : (get_or storage pos 0 ≡ b'\n') × (slice (pos + 1) left storage ≡ v)
  lf_parts =
      let (lf, rest) = cons_parts (sym (slice_cons pos left storage 0 (omega arith)) ∙ e) in
      (lf, ap (λ p. slice p left storage) (sym (suc-eq-add_one pos)) ∙ rest)

  less : suc left - 1 ≡ left
  less = omega arith

  -- At a line feed, for each value of `fopt`.
  put_lf-Emits_plain :
      1 ≤ room
      → Emits room
          (buffer pos false (suc left) storage)
          (put_lf room (buffer pos false (suc left) storage))
  unfolding put_lf encode
  put_lf-Emits_plain r = elim (Bool-cases (leb 2 room)) [
    | inl two ↦
        rw (two, lf_parts.0, less)
          (record {
            bytes = rw e (ap (λ u. b'\r' ∷ b'\n' ∷ encode u) (sym lf_parts.1));
            some_bytes = omega arith;
            fits = ground arith;
            ready = record { in_range = omega arith; after_cr = tt };
            same = refl;
            cr_last = tt;
          })
    | inr one ↦
        let single : (room == 1) ≡ true = ground arith in
        rw (one, single)
          (record {
            bytes = rw e refl;
            some_bytes = omega arith;
            fits = omega arith;
            ready = record { in_range = h; after_cr = rw e refl };
            same = refl;
            cr_last = ground arith;
          })
  ]

  put_lf-Emits_after_cr :
      2 ≤ room
      → Emits room
          (buffer pos true (suc left) storage)
          (put_lf room (buffer pos true (suc left) storage))
  unfolding put_lf encode
  put_lf-Emits_after_cr r =
      let two : leb 2 room ≡ true = ground arith in
      rw (two, lf_parts.0, less)
        (record {
          bytes = rw e (ap (λ u. b'\n' ∷ encode u) (sym lf_parts.1));
          some_bytes = omega arith;
          fits = omega arith;
          ready = record { in_range = omega arith; after_cr = tt };
          same = refl;
          cr_last = tt;
        })

CutFills-prefix :
    (f : Bool) (k room n m : ℕ) → k ≤ room → m ≡ k + n → CutFills f n (room - k) → CutFills f m room
CutFills-prefix false k room n m h e c = tt
CutFills-prefix true k room n m h e c = omega arith

-- Copied bytes in front of what a call for the rest of the room gives.
Emits-prefix :
    (k room : ℕ) (sb sb' : Storage) (copied : List ℕ) {r : List ℕ × Storage}
    → k ≤ room
    → length copied ≡ k
    → pending sb.fopt (unread sb) ≡ copied ++ pending sb'.fopt (unread sb')
    → sb'.storage ≡ sb.storage
    → Emits (room - k) sb' r
    → Emits room sb (copied ++ r.0, r.1)
Emits-prefix k room sb sb' copied {r} h l e k_same m = record {
  bytes = e ∙ ap (◌++◌ copied) m.bytes ∙ sym (append_assoc copied r.0 _);
  some_bytes = omega (arith, m.some_bytes, length-append copied r.0);
  fits = omega (arith, m.fits, length-append copied r.0);
  ready = m.ready;
  same = m.same ∙ k_same;
  cr_last =
      CutFills-prefix r.1.fopt k room (length r.0) _ h (omega (arith, l, length-append copied r.0))
        m.cr_last;
}

module _ (room pos left : ℕ) (storage : List ℕ) (h : pos + suc left ≤ length storage) where
  abbrev text : List ℕ
  text = slice pos (suc left) storage

  abbrev run : ℕ
  run = lf_run room text

  -- After a carriage return the call goes straight to the line feed.
  emit-AfterCr :
      2 ≤ room
      → AfterCr true text
      → let sb = buffer pos true (suc left) storage in Emits room sb (local_to_netascii room sb)
  unfolding local_to_netascii scan_lf
  emit-AfterCr r lf =
      let rest = slice (suc pos) left storage in
      let split = slice_cons pos left storage 0 (omega arith) in
      let here : get_or storage pos 0 ≡ b'\n' = rw split at lf in
      let go : ltb 0 room ≡ true = ground arith in
      let whole : room - 0 ≡ room = omega arith in
      rw (go, here, whole)
        (put_lf-Emits_after_cr room pos left storage rest h (split ∙ ap (λ c. c ∷ rest) here) r)

  copied-eq : take run (drop pos storage) ≡ take run text
  copied-eq = sym (
      take-take run (suc left) (drop pos storage)
        (omega (arith, lf_run_bounds room text, length-slice pos (suc left) storage h)))

  run_bounds : (run ≤ room) × (run ≤ suc left)
  run_bounds = omega (arith, lf_run_bounds room text, length-slice pos (suc left) storage h)

  scan_start : scan_lf storage room pos 0 (suc left) ≡ record {
    ps = pos + run;
    len = run;
    left = suc left - run;
    hit = ltb run room && ltb run (suc left);
  }
  scan_start =
      let whole : room - 0 ≡ room = omega arith in
      let none_yet : 0 + run ≡ run = omega arith in
      rw (whole, none_yet) at (scan_lf_lem storage room pos 0 (suc left) h)

  -- What follows the run is the rest of the text.
  after_run : slice (pos + run) (suc left - run) storage ≡ drop run text
  after_run = sym (drop-slice run pos (suc left) storage)

  length-copied : length (take run text) ≡ run
  length-copied =
      omega (arith, length-take run text, length-slice pos (suc left) storage h, run_bounds)

  text_split : encode text ≡ take run text ++ encode (slice (pos + run) (suc left - run) storage)
  text_split = rw after_run (encode_run room text)

  emit_at_lf :
      run < room
      → run < suc left
      → Emits
          (room - run)
          (buffer (pos + run) false (suc left - run) storage)
          (put_lf (room - run) (buffer (pos + run) false (suc left - run) storage))
  emit_at_lf p q =
      let some_left : suc left - run ≡ suc (left - run) = omega arith in
      let stop = run_stops room text p (omega (arith, length-slice pos (suc left) storage h)) in
      rw some_left (
        put_lf-Emits_plain (room - run) (pos + run) (left - run) storage (drop (suc run) text)
          (omega arith) (rw some_left at (after_run ∙ stop)) (omega arith))

  emit_end :
      (ltb run room && ltb run (suc left)) ≡ false
      → 1 ≤ room
      → Emits room
          (buffer pos false (suc left) storage)
          (take run text, buffer (pos + run) false (suc left - run) storage)
  emit_end e r = record {
    bytes = text_split;
    some_bytes = ground (arith, length-copied, run_bounds);
    fits = omega (arith, length-copied, run_bounds);
    ready = record { in_range = omega (arith, run_bounds); after_cr = tt };
    same = refl;
    cr_last = tt;
  }

  -- Otherwise the run before the first line feed is copied.
  emit_plain :
      1 ≤ room
      → let sb = buffer pos false (suc left) storage in Emits room sb (local_to_netascii room sb)
  unfolding local_to_netascii
  emit_plain r = elim (Bool-cases (ltb run room && ltb run (suc left))) [
    | inl hit ↦
        rw (scan_start, hit, copied-eq)
          (Emits-prefix run room (buffer pos false (suc left) storage)
            (buffer (pos + run) false (suc left - run) storage) (take run text) run_bounds.0
            length-copied text_split refl (emit_at_lf (ground arith) (ground arith)))
    | inr end ↦ rw (scan_start, end, copied-eq) (emit_end end r)
  ]

-- If a well-formed buffer holds bytes and there is room, which is two bytes in the middle of a line
-- end, `local_to_netascii` gives at least one byte and at most `room`; they are the next bytes of
-- the encoding of what the buffer held, and the buffer keeps the rest, with `fopt` set only where a
-- line end was cut after its first byte, which then fills the room.
pub emit_lem :
    (room : ℕ) (sb : Storage)
    → IsReady sb
    → 0 < sb.datalen
    → least_room sb.fopt ≤ room
    → Emits room sb (local_to_netascii room sb)
emit_lem room sb ready some_left r =
    by_fields sb.pos sb.fopt sb.datalen sb.storage ready some_left r
  where
    by_fields :
        (pos : ℕ) (fopt : Bool) (datalen : ℕ) (storage : List ℕ)
        → IsReady (buffer pos fopt datalen storage)
        → 0 < datalen
        → least_room fopt ≤ room
        → let sb' = buffer pos fopt datalen storage in Emits room sb' (local_to_netascii room sb')
    by_fields pos fopt zero storage v d r = absurd (omega arith)
    by_fields pos false (suc left) storage v d r = emit_plain room pos left storage v.in_range r
    by_fields pos true (suc left) storage v d r =
        emit-AfterCr room pos left storage v.in_range r v.after_cr
