-- ===== src/Tftp/Resend.antt =====
-- `resend_allsession` of src/tftp.c.
pub mod Rounds
mod Tests
use iwtftpd.Base.{◌+◌, ◌-◌, true, ◌||◌, List, [], ◌∷◌, none, some, leb, if◌then◌else◌}
use iwtftpd.Host.{Host}
use iwtftpd.Datastore.{Iwds}
use iwtftpd.Tftp.Types.{Session, resend_interval, resend_countmax}
use iwtftpd.Tftp.Store.{close_data}

module _ {W : Type 0} ⦃h : Host W⦄ where
  open h use {time, getsockname, sendto}

  -- One more sending of the last message. It goes to the address that `getsockname` gives, which is
  -- that of the session's own socket. A failure of `sendto` is only reported.
  unfoldable pub send_again : Session → Iwds → W → Session × Iwds × W
  send_again s ds w = elim (getsockname s.clsock w) [
    | none ↦ (s, ds, w)
    | some addr ↦
        let (sent, w') = sendto s.clsock s.lastmsg addr w in
        (record s { retrycount = s.retrycount + 1; lastsending = time w }, ds, w')
  ]

  -- The body of the loop; times are below 2^31.
  unfoldable pub resend_one : Session → Iwds → W → Session × Iwds × W
  resend_one s ds w =
      let (ds', w') = close_data s ds w in
      if leb (time w - s.lastsending) resend_interval
      then (s, ds, w)
      else if s.fin || s.disabled
      then (s, ds, w)
      else if leb resend_countmax s.retrycount
      then (record s { disabled = true }, ds', w')
      else send_again s ds w

  unfoldable pub resend_allsession : List Session → Iwds → W → List Session × Iwds × W
  resend_allsession [] ds w = ([], ds, w)
  resend_allsession (s ∷ rest) ds w =
      let (s', ds1, w1) = resend_one s ds w in
      let (rest', ds2, w2) = resend_allsession rest ds1 w1 in (s' ∷ rest', ds2, w2)
