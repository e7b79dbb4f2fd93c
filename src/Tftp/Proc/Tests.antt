-- ===== src/Tftp/Proc/Tests.antt =====
-- `tftp_proc` of src/tftp.c on a host in memory, and its theorems at concrete states.
use iwtftpd.Base.{◌⊎◌, ℕ, ◌≡◌, refl, true, false, List, [], ◌∷◌, none, some, arith, codes, str_eq}
use iwtftpd.Sim.{sim, start}
use iwtftpd.Datastore.{Iwds, get_dsession}
use iwtftpd.Tftp.Types.{Session, SendInfo}
use iwtftpd.Tftp.Sessions.{new_session, get_session, is_client}
use iwtftpd.Tftp.Sessions.Keys.{IsUnique}
use iwtftpd.Tftp.Parse.{parse_tftpack}
use iwtftpd.Tftp.Parse.Format.{request_msg, ack_msg}
use iwtftpd.Tftp.Transfer.Tests.{pipe, contents, pipe-Feeds, open_file, present, opened, pipe-Sinks}
use iwtftpd.Tftp.Proc.{Server, Sender, tftp_proc}
use iwtftpd.Tftp.Proc.Keeps.{tftp_proc-IsUnique, tftp_proc-isolates}
use iwtftpd.Tftp.Proc.Replies.{again_ack, repeat_gets_last, repeat_gives_up}
use iwtftpd.Tftp.Proc.Opening.{MayOpen, tftp_proc-opens}
use iwtftpd.Tftp.Proc.Total.{tftp_proc-good}
use iwtftpd.Tftp.Proc.Upload.{store, store_lem}
use iwtftpd.Tftp.Proc.Download.{fetch, fetch_lem}

abbrev ds : Iwds
ds = record { dhead = []; dspath = codes "/d"; fchroot = false; fault = false }

abbrev server : Server
server = record { seshead = []; ads = ds }

abbrev from : Sender
from = record { sock = 3; clip = codes "10.0.0.2"; clport = 4000 }

abbrev quiet : SendInfo
quiet = record { ses = none; msg = [] }

abbrev other : Session
other = record new_session { clip = codes "10.0.0.3"; clport = 5000 }

abbrev busy : Server
busy = record server { seshead = other ∷ [] }

abbrev ask : ℕ → List ℕ → List ℕ
ask opcode file = request_msg opcode file (codes "octet")

tftp_proc-IsUnique_example :
    IsUnique (tftp_proc busy from (ask 1 (codes "a")) 10 quiet start).server.seshead
unfolding get_session
tftp_proc-IsUnique_example =
    tftp_proc-IsUnique busy from (ask 1 (codes "a")) 10 quiet start (omega arith) (refl, tt)

tftp_proc-isolates_example :
    get_session
      (tftp_proc busy from (ask 1 (codes "a")) 10 quiet start).server.seshead
      (codes "10.0.0.3")
      5000
    ≡ get_session busy.seshead (codes "10.0.0.3") 5000
tftp_proc-isolates_example =
    tftp_proc-isolates busy from (ask 1 (codes "a")) 10 quiet start (codes "10.0.0.3") 5000
      (omega arith) (λ k. absurd (omega (arith, k.1)))

tftp_proc-opens_example :
    ((tftp_proc server from (ask 1 (codes "a")) 10 quiet start).server ≡ server)
    ⊎ MayOpen server from quiet (ask 1 (codes "a")) 10 start
unfolding get_session
tftp_proc-opens_example = tftp_proc-opens server from quiet (ask 1 (codes "a")) 10 start refl

abbrev halfway : Session
halfway = record new_session {
  clip = codes "10.0.0.2";
  clport = 4000;
  clsock = 7;
  filename = codes "a";
  blknum = 3;
  lastmsg = codes "again";
}

abbrev sending : Server
sending = record { seshead = halfway ∷ []; ads = record ds { dhead = open_file ∷ [] } }

repeat_gets_last_example :
    let r = tftp_proc sending from (ack_msg 2) 4 quiet start in
    let s' : Session = record halfway { lastsending = 100; retrycount = 1 } in
    (r.sinfo ≡ record { ses = some s'; msg = codes "again" })
    × (get_session r.server.seshead (codes "10.0.0.2") 4000 ≡ some s')
    × (r.server.ads ≡ sending.ads)
    × (r.world ≡ start)
unfolding get_session is_client str_eq parse_tftpack
repeat_gets_last_example =
    repeat_gets_last sending from quiet halfway (ack_msg 2) 4 start refl
      (again_ack (record { blknum = 2 }) refl refl refl) (omega arith)

abbrev tired : Session
tired = record halfway { retrycount = 3 }

repeat_gives_up_example :
    let sv : Server = record sending { seshead = tired ∷ [] } in
    let r = tftp_proc sv from (ack_msg 2) 4 quiet start in
    (get_session r.server.seshead (codes "10.0.0.2") 4000 ≡ some (record tired { disabled = true }))
    × (get_dsession r.server.ads.dhead 7 (codes "a") ≡ none)
unfolding get_session is_client str_eq parse_tftpack get_dsession
repeat_gives_up_example =
    repeat_gives_up (record sending { seshead = tired ∷ [] }) from quiet tired (ack_msg 2) 4 start
      refl (refl, tt) (again_ack (record { blknum = 2 }) refl refl refl) (omega arith)

-- The client has block 3, and a file with three bytes is still to be sent.
fetch_lem_example : fetch 1 sending from 3 quiet (codes "end") ≡ some (codes "end")
unfolding get_session is_client str_eq
fetch_lem_example =
    fetch_lem contents pipe-Feeds from open_file 1 sending halfway quiet (codes "end") (codes "end")
      (record {
        found_session = refl;
        opened = opened;
        present = present;
        sendable = record {
          size = refl;
          ready = record { in_range = omega arith; after_cr = tt };
          mode_fits = tt;
        };
        unfinished = refl;
        block = omega arith;
        left = refl;
      })
      (omega arith)

tftp_proc-good_example : (tftp_proc server from (0 ∷ 9 ∷ []) 2 quiet start).good ≡ true
unfolding get_session
tftp_proc-good_example = tftp_proc-good server from (0 ∷ 9 ∷ []) 2 quiet start

-- The client has sent some bytes, and the last three follow.
store_lem_example :
    (sv' : Server) × (w' : List ℕ) × (store 1 sending from 3 (codes "end") quiet (codes "so far ")
      ≡ some (sv', w'))
    × (contents 1 w' ≡ codes "so far end")
    × (get_dsession sv'.ads.dhead 7 (codes "a") ≡ none)
unfolding get_session is_client str_eq get_dsession
store_lem_example =
    store_lem contents pipe-Sinks (λ fp w. refl) from open_file 1 sending halfway quiet
      (codes "so far ") (codes "end") (codes "so far ")
      (record {
        found_session = refl;
        opened = opened;
        fillable = record { size = refl; at_end = refl; bounded = omega arith };
        room = omega arith;
        mode = refl;
        unfinished = refl;
        block = omega arith;
        received = refl;
      })
      (refl, tt) (omega arith)
