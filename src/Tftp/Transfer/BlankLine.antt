-- ===== src/Tftp/Transfer/BlankLine.antt =====
-- A short last block that begins with a carriage return, in netascii mode, through `put_session_data`
-- of src/tftp.c with an empty buffer: `save_data` is called for no bytes, which ends the writing.
use iwtftpd.Base.{
  ℕ, suc, ◌+◌, ◌≡◌, refl, ap, ◌∙◌, Bool, true, false, ◌&&◌, List, [], ◌∷◌, some, none, ltb, ◌==◌,
  drop, length, arith, or_true, lt→ltb, Option-cases, inl, inr,
}
use iwtftpd.Host.{Host}
use iwtftpd.Datastore.{
  Iwds, Dsession, get_dsession, del_dsession, iwds_write, write_session, iwds_isfile, is_dsfile,
  refuse, ok, found,
}
use iwtftpd.Datastore.Requests.{del-clears, write_refuses_existing}
use iwtftpd.Datastore.Sessions
use iwtftpd.Tftp.Types.{netascii, Storage, Session, session_bufsize}
use iwtftpd.Tftp.Store.{save_data, dticket}
use iwtftpd.Tftp.Netascii.{scan_cr, append_bytes, netascii_to_local}
use iwtftpd.Tftp.Transfer.{io_error, accept, flush, put_loop, put_session_data}

nonzero : (b : Bool) (n : ℕ) → (b && suc n == 0) ≡ false
nonzero b n = ground arith

module _ {W : Type 0} ⦃h : Host W⦄ (s : Session) (ds : Iwds) (f : Dsession)
    (opened : get_dsession ds.dhead s.clsock s.filename ≡ some f)
    (unique : Sessions.IsUnique ds.dhead)
    (present : (w : W) → (iwds_isfile ds s.filename w).0 ≡ found) where
  -- The datastore after a request to write no bytes.
  abbrev closed_ds : W → Iwds
  closed_ds w = (del_dsession ds f w).1

  closed_dspath : (w : W) → (del_dsession ds f w).1.dspath ≡ ds.dspath
  unfolding del_dsession
  closed_dspath w = elim (Option-cases (get_dsession ds.dhead f.clid f.filename)) [
    | inl absent ↦ rw (absent, del_dsession) refl
    | inr (pm, there) ↦ rw (there, del_dsession) refl
  ]

  closed_absent : (w : W) → get_dsession (closed_ds w).dhead s.clsock s.filename ≡ none
  closed_absent w = del-clears ds f s.clsock s.filename w unique opened

  still_present : (w w' : W) → (iwds_isfile (closed_ds w) s.filename w').0 ≡ found
  unfolding iwds_isfile
  still_present w w' = ap (λ p. (is_dsfile p s.filename w').0) (closed_dspath w) ∙ present w'

  write_nothing :
      (storage : List ℕ) (w : W)
      → iwds_write ds (dticket s storage 0) w ≡ refuse ok (closed_ds w) (del_dsession ds f w).2
  unfolding iwds_write write_session
  write_nothing storage w = rw (opened, iwds_write, write_session) refl

  save_nothing :
      (sb : Storage) (w : W)
      → sb.datalen ≡ 0
      → let r = save_data s sb ds w in
        (r.good ≡ true) × (r.ds ≡ closed_ds w) × (r.world ≡ (del_dsession ds f w).2)
  unfolding save_data
  save_nothing sb w e = rw (e, write_nothing sb.storage w, save_data) (refl, refl, refl)

  save_fails : (sb : Storage) (w w' : W) → (save_data s sb (closed_ds w) w').good ≡ false
  unfolding save_data
  save_fails sb w w' =
      rw
        (
          write_refuses_existing (closed_ds w) (dticket s sb.storage sb.datalen) w'
              (closed_absent w) (still_present w w'),
          save_data,
        )
        refl

  first_piece :
      (sb : Storage) (src : List ℕ)
      → sb.datalen ≡ 0
      → netascii_to_local sb (b'\r' ∷ src) ≡ (1, append_bytes sb [])
  unfolding netascii_to_local scan_cr
  first_piece sb src e = simp (netascii_to_local, e)

  starts :
      (src : List ℕ) (w : W)
      → (s.sesbuf.datalen == 0 && length src == 0) ≡ false
      → put_session_data s ds src w ≡ put_loop (suc (length src)) s 0 src s.sesbuf ds w
  unfolding put_session_data
  starts src w e = simp (put_session_data, e)

  -- A step of the loop that uses up some, but not all, of the data, and one that cannot save.
  goes_on :
      (fuel total len : ℕ) (src : List ℕ) (sb sb' : Storage) (w : W)
      → accept s.tftpmode sb src ≡ (len, sb')
      → (flush s sb' ds w).good ≡ true
      → ltb len (length src) ≡ true
      → let r = flush s sb' ds w in
        put_loop (suc fuel) s total src sb ds w
        ≡ put_loop fuel s (total + len) (drop len src) r.buf r.ds r.world
  unfolding put_loop
  goes_on fuel total len src sb sb' w a g l = simp (put_loop, a, g, l)

  stops :
      (fuel total : ℕ) (src : List ℕ) (sb : Storage) (w w' : W)
      → s.fin ≡ true
      → (put_loop (suc fuel) s total src sb (closed_ds w) w').result ≡ io_error
  unfolding put_loop flush
  stops fuel total src sb w w' fin =
      let (len, sb') = accept s.tftpmode sb src in
      let now = or_true (sb'.datalen == session_bufsize) s.fin fin in
      simp (put_loop, flush, now, save_fails sb' w w')

  -- In netascii mode the last block fails with IW_ERR if it has two bytes or more, begins with a
  -- carriage return and finds the buffer empty, where the file is open under its key only once, and
  -- exists: the file is closed, and then it cannot be written again.
  pub blank_line_fails :
      (c : ℕ) (src : List ℕ) (w : W)
      → s.fin ≡ true
      → s.tftpmode ≡ netascii
      → s.sesbuf.datalen ≡ 0
      → (put_session_data s ds (b'\r' ∷ c ∷ src) w).result ≡ io_error
  unfolding accept flush append_bytes
  blank_line_fails c src w fin mode empty =
      let sb = s.sesbuf in
      let rest = c ∷ src in
      let sb' = append_bytes sb [] in
      let none_yet : sb'.datalen ≡ 0 = omega (arith, empty) in
      let saved = save_nothing sb' w none_yet in
      let some_data : (sb.datalen == 0 && length (b'\r' ∷ rest) == 0) ≡ false =
        nonzero (sb.datalen == 0) (length rest) in
      let now = or_true (sb'.datalen == session_bufsize) s.fin fin in
      let flushed : flush s sb' ds w ≡ save_data s sb' ds w = simp (flush, now) in
      let piece : accept s.tftpmode sb (b'\r' ∷ rest) ≡ (1, sb') =
        ap (λ m. accept m sb (b'\r' ∷ rest)) mode ∙ first_piece sb rest empty in
      let r = flush s sb' ds w in
      ap (λ t. t.result) (starts (b'\r' ∷ rest) w some_data)
      ∙ ap (λ t. t.result)
          (goes_on (length (b'\r' ∷ rest)) 0 1 (b'\r' ∷ rest) sb sb' w piece
            (ap (λ x. x.good) flushed ∙ saved.0) (lt→ltb 1 (length (b'\r' ∷ rest)) (omega arith)))
      ∙ ap (λ d. (put_loop (length (b'\r' ∷ rest)) s (0 + 1) rest r.buf d r.world).result)
          (ap (λ x. x.ds) flushed ∙ saved.1)
      ∙ stops (length rest) (0 + 1) rest r.buf w r.world fin
