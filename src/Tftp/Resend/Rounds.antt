-- ===== src/Tftp/Resend/Rounds.antt =====
-- `resend_allsession` of src/tftp.c again and again, for a client that does not answer.
use iwtftpd.Base.{
  ℕ, zero, suc, ◌+◌, ◌-◌, ◌≤◌, ◌<◌, ◌≡◌, refl, ap, ◌∙◌, true, false, ◌||◌, List, some, leb, arith,
  or_true, or_false, Bool-cases, inl, inr,
}
use iwtftpd.Host.{Host}
use iwtftpd.Datastore.{Iwds}
use iwtftpd.Tftp.Types.{Session, resend_interval, resend_countmax}
use iwtftpd.Tftp.Store.{close_data}
use iwtftpd.Tftp.Resend.{send_again, resend_one}

not_early : (a b : ℕ) → resend_interval + b < a → leb (a - b) resend_interval ≡ false
not_early a b p = ground arith

module _ {W : Type 0} ⦃h : Host W⦄ (s : Session) (ds : Iwds) (w : W) where
  skips : (s.fin || s.disabled) ≡ true → resend_one s ds w ≡ (s, ds, w)
  unfolding resend_one
  skips over = elim (Bool-cases (leb (h.time w - s.lastsending) resend_interval)) [
    | inl early ↦ simp (resend_one, early)
    | inr late ↦ simp (resend_one, late, over)
  ]

  gives_up :
      leb (h.time w - s.lastsending) resend_interval ≡ false
      → (s.fin || s.disabled) ≡ false
      → leb resend_countmax s.retrycount ≡ true
      → resend_one s ds w
        ≡ (let (ds', w') = close_data s ds w in (record s { disabled = true }, ds', w'))
  unfolding resend_one
  gives_up late live spent = simp (resend_one, late, live, spent)

  tries_again :
      {addr : ℕ}
      → leb (h.time w - s.lastsending) resend_interval ≡ false
      → (s.fin || s.disabled) ≡ false
      → leb resend_countmax s.retrycount ≡ false
      → h.getsockname s.clsock w ≡ some addr
      → let w' = (h.sendto s.clsock s.lastmsg addr w).1 in
        resend_one s ds w
        ≡ (record s { retrycount = s.retrycount + 1; lastsending = h.time w }, ds, w')
  unfolding resend_one send_again
  tries_again late live tries named = simp (resend_one, late, live, tries, send_again, named)

-- `tick` is what happens between two calls: more than ten seconds pass. The session's socket has a
-- name, and sending takes no time.
module _ {W : Type 0} ⦃h : Host W⦄ (tick : W → W)
    (later : (w : W) → resend_interval + h.time w < h.time (tick w))
    (sends : (sock : ℕ) (b : List ℕ) (addr : ℕ) (w : W)
      → h.time (h.sendto sock b addr w).1 ≡ h.time w)
    (addr : ℕ) (named : (sock : ℕ) (w : W) → h.getsockname sock w ≡ some addr) where
  unfoldable pub rounds : ℕ → Session → Iwds → W → Session
  rounds zero s ds w = s
  rounds (suc n) s ds w = let (s', ds', w') = resend_one s ds (tick w) in rounds n s' ds' w'

  disabled_stays :
      (n : ℕ) (s : Session) (ds : Iwds) (w : W)
      → s.disabled ≡ true
      → (rounds n s ds w).disabled ≡ true
  unfolding rounds resend_one
  disabled_stays zero s ds w e = e
  disabled_stays (suc n) s ds w e =
      ap (λ r. (rounds n r.0 r.1 r.2).disabled) (skips s ds (tick w) (or_true s.fin s.disabled e))
      ∙ disabled_stays n s ds (tick w) e

  -- A session that is neither finished nor disabled, with at most three tries used, is disabled after
  -- as many calls as it has tries left, and one more, whatever its file is and if the client does not
  -- answer; more than ten seconds pass between two calls, its last sending is not in the future, the
  -- socket has an address, and sending takes no time.
  pub rounds_lem :
      (n : ℕ) (s : Session) (ds : Iwds) (w : W)
      → s.fin ≡ false
      → s.disabled ≡ false
      → s.lastsending ≤ h.time w
      → s.retrycount ≤ resend_countmax
      → resend_countmax < n + s.retrycount
      → (rounds n s ds w).disabled ≡ true
  unfolding rounds resend_one send_again
  rounds_lem zero s ds w f d p r q = absurd (omega arith)
  rounds_lem (suc n) s ds w f d p r q =
      let t = tick w in
      let late = not_early (h.time t) s.lastsending (omega (arith, later w)) in
      let live = or_false s.fin s.disabled f d in
      elim (Bool-cases (leb resend_countmax s.retrycount)) [
        | inl spent ↦
            let given_up : Session = record s { disabled = true } in
            let (ds', w') = close_data s ds t in
            ap (λ r. (rounds n r.0 r.1 r.2).disabled) (gives_up s ds t late live spent)
            ∙ disabled_stays n given_up ds' w' refl
        | inr tries ↦
            let again : Session = record s {
              retrycount = s.retrycount + 1;
              lastsending = h.time t;
            } in
            let w' = (h.sendto s.clsock s.lastmsg addr t).1 in
            ap (λ r. (rounds n r.0 r.1 r.2).disabled)
              (tries_again s ds t {addr = addr} late live tries (named s.clsock t))
            ∙ rounds_lem n again ds w' f d (omega (arith, sends s.clsock s.lastmsg addr t))
                (below tries) (omega arith)
      ]
    where
      below : leb resend_countmax s.retrycount ≡ false → s.retrycount + 1 ≤ resend_countmax
      below e = ground arith
