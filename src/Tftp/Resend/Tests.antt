-- ===== src/Tftp/Resend/Tests.antt =====
-- `resend_one` of src/tftp.c again and again on a host in memory.
use iwtftpd.Base.{◌+◌, ◌≡◌, refl, true, false, [], arith, codes}
use iwtftpd.Sim.{Sim, sim, start}
use iwtftpd.Datastore.{Iwds}
use iwtftpd.Tftp.Types.{Session}
use iwtftpd.Tftp.Sessions.{new_session}
use iwtftpd.Tftp.Resend.Rounds.{rounds, rounds_lem}

abbrev ds : Iwds
ds = record { dhead = []; dspath = codes "/d"; fchroot = false; fault = false }

-- Eleven seconds pass.
abbrev pass : Sim → Sim
pass w = record w { clock = w.clock + 11 }

abbrev silent : Session
silent = record new_session { lastsending = 100; retrycount = 1 }

rounds_lem_example :
    (rounds pass
      (λ w. omega arith)
      (λ sock b addr w. refl)
      0
      (λ sock w. refl)
      3
      silent
      ds
      start).disabled
    ≡ true
rounds_lem_example =
    rounds_lem pass (λ w. omega arith) (λ sock b addr w. refl) 0 (λ sock w. refl) 3 silent ds start
      refl refl (omega arith) (omega arith) (omega arith)
