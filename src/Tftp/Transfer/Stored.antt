-- ===== src/Tftp/Transfer/Stored.antt =====
-- `put_session_data` of src/tftp.c over a datastore that may fail at any call.
use iwtftpd.Base.{
  ℕ, zero, suc, ◌+◌, ◌-◌, ◌<◌, ◌≡◌, refl, sym, ap, ◌⊎◌, true, ◌&&◌, ◌||◌, List, [], ltb, ◌==◌, drop,
  length, arith, Bool-cases, inl, inr, length-drop,
}
use iwtftpd.Host.{Host}
use iwtftpd.Datastore.{Iwds, iwds_write}
use iwtftpd.Tftp.Types.{Storage, Session, session_bufsize}
use iwtftpd.Tftp.Store.{is_ok, save_data, dticket}
use iwtftpd.Tftp.Netascii.Decode.{Fillable}
use iwtftpd.Tftp.Transfer.{moved, io_error, Transferred, accept, flush, put_loop, put_session_data}
use iwtftpd.Tftp.Transfer.Accept.{accept-Takes}

module _ {W : Type 0} ⦃h : Host W⦄ where
  save-Fillable :
      (s : Session) (sb : Storage) (ds : Iwds) (w : W)
      → Fillable sb
      → let r = save_data s sb ds w in
        r.good ≡ true → Fillable r.buf × (r.buf.datalen < session_bufsize)
  unfolding save_data
  save-Fillable s sb ds w v e =
      let r = iwds_write ds (dticket s sb.storage sb.datalen) w in
      elim (Bool-cases (is_ok r.derr && (r.count == sb.datalen))) [
        | inl o ↦ rw o (record { size = v.size; at_end = refl; bounded = omega arith }, omega arith)
        | inr o ↦ absurd (cc (rw o at e))
      ]

  flush-Fillable :
      (s : Session) (sb : Storage) (ds : Iwds) (w : W)
      → Fillable sb
      → let r = flush s sb ds w in
        r.good ≡ true → Fillable r.buf × (r.buf.datalen < session_bufsize)
  unfolding flush
  flush-Fillable s sb ds w v e = elim (Bool-cases (sb.datalen == session_bufsize || s.fin)) [
    | inl now ↦ rw now (save-Fillable s sb ds w v (rw now at e))
    | inr later ↦ rw later (v, ground (arith, v.bounded))
  ]

  -- What a call of `put_session_data` for `n` bytes may end with.
  abbrev pub Stored : ℕ → Transferred W → Type 0
  Stored n r =
      (r.result ≡ io_error)
      ⊎ ((r.result ≡ moved n []) × Fillable r.buf × (r.buf.datalen < session_bufsize))

  put_loop-Stored :
      (fuel : ℕ) (s : Session) (total : ℕ) (src : List ℕ) (sb : Storage) (ds : Iwds) (w : W)
      → length src < fuel
      → Fillable sb
      → sb.datalen < session_bufsize
      → Stored (total + length src) (put_loop fuel s total src sb ds w)
  unfolding put_loop
  put_loop-Stored zero s total src sb ds w p v d = absurd (omega arith)
  put_loop-Stored (suc fuel) s total src sb ds w p v d =
      let t = accept-Takes s.tftpmode sb src v in
      let (len, sb') = accept s.tftpmode sb src in
      let r = flush s sb' ds w in
      elim (Bool-cases r.good) [
        | inr bad ↦ rw bad (inl refl)
        | inl good ↦
            let (fillable, room) = flush-Fillable s sb' ds w t.fillable good in
            elim (Bool-cases (ltb len (length src))) [
              | inl more ↦
                  let left : length (drop len src) ≡ length src - len = length-drop len src in
                  let sum : total + len + length (drop len src) ≡ total + length src =
                    omega (arith, left, t.within) in
                  rw (good, more, sym sum)
                    (put_loop-Stored fuel s (total + len) (drop len src) r.buf r.ds r.world
                      (omega (arith, left, t.some_used (ground arith) d)) fillable room)
              | inr full ↦
                  let all : len ≡ length src = ground (arith, t.within) in
                  rw (good, full) (inr (ap (λ n. moved (total + n) []) all, fillable, room))
            ]
      ]

  -- Whatever the files do: with a well-formed buffer that has room, `put_session_data` ends; it returns
  -- IW_ERR, or the number of bytes received and a buffer that is well-formed and has room again.
  pub put_session_data-ends :
      (s : Session) (ds : Iwds) (src : List ℕ) (w : W)
      → Fillable s.sesbuf
      → s.sesbuf.datalen < session_bufsize
      → Stored (length src) (put_session_data s ds src w)
  unfolding put_session_data
  put_session_data-ends s ds src w v d =
      elim (Bool-cases (s.sesbuf.datalen == 0 && length src == 0)) [
        | inl nothing ↦
            let empty : length src ≡ 0 = ground arith in rw (nothing, empty) (inr (refl, v, d))
        | inr some_left ↦
            let start : 0 + length src ≡ length src = omega arith in
            rw some_left (
              rw start at
                (put_loop-Stored (suc (length src)) s 0 src s.sesbuf ds w (omega arith) v d))
      ]
