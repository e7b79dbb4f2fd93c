-- ===== src/Datastore/Tests.antt =====
-- Runs of the datastore on a host in memory, and its theorems at concrete states.
use iwtftpd.Base.{◌≡◌, refl, true, false, List, [], ◌∷◌, none, some, arith, codes, str_eq}
use iwtftpd.Util.{join_path}
use iwtftpd.Sim.{Sim, sim, start}
use iwtftpd.Datastore.{
  Iwds, Dsreq, ok, notpermit, iwds_read, iwds_write, iwds_close, iwds_strerr, is_key, get_dsession,
  close_all,
}
use iwtftpd.Datastore.Sessions.{IsUnique}
use iwtftpd.Datastore.Requests.{
  Request, reads, writes, closes, run, run-IsUnique, run-frame, close_lem, short_write_is_ok,
}
use iwtftpd.Datastore.Life.{Tally, Counts}
use iwtftpd.Datastore.Balance.{run_closes_files}

abbrev ds : Iwds
ds = record { dhead = []; dspath = codes "/d"; fchroot = false; fault = false }

abbrev get_a : Dsreq
get_a = record { dsid = 7; dfile = codes "a"; dbuf = []; dlen = 3 }

abbrev put_c : Dsreq
put_c = record { dsid = 8; dfile = codes "c"; dbuf = codes "data"; dlen = 4 }

abbrev put_a : Dsreq
put_a = record { dsid = 8; dfile = codes "a"; dbuf = codes "data"; dlen = 4 }

abbrev close_a : Dsreq
close_a = record { dsid = 7; dfile = codes "a"; dbuf = []; dlen = 0 }

abbrev history : List Request
history = reads get_a ∷ writes put_c ∷ reads get_a ∷ closes close_a ∷ []

abbrev reading : Iwds
reading = record ds { dhead = record { clid = 7; fp = 1; filename = codes "a" } ∷ [] }

abbrev writing : Iwds
writing = record ds { dhead = record { clid = 8; fp = 1; filename = codes "c" } ∷ [] }

reads_in_parts : (iwds_read ds get_a start).bytes ≡ codes "hel"
unfolding iwds_read str_eq is_key join_path
reads_in_parts = refl

history_ends :
    (run history (ds, start)).0.dhead ≡ record { clid = 8; fp = 2; filename = codes "c" } ∷ []
unfolding run iwds_read iwds_write iwds_close str_eq is_key join_path
history_ends = refl

messages : iwds_strerr notpermit ≡ some "access is not permitted"
unfolding iwds_strerr
messages = refl

run-IsUnique_example : IsUnique (run history (ds, start)).0.dhead
run-IsUnique_example = run-IsUnique history ds start tt

-- The session of the client 8 outlasts the requests of the client 7.
run-frame_example :
    get_dsession (run (reads get_a ∷ closes close_a ∷ []) (writing, start)).0.dhead 8 (codes "c")
    ≡ get_dsession writing.dhead 8 (codes "c")
run-frame_example =
    run-frame (reads get_a ∷ closes close_a ∷ []) writing start 8 (codes "c")
      ((λ k. absurd (omega (arith, k.0))), ((λ k. absurd (omega (arith, k.0))), tt))

close_lem_example :
    let (done, e, ds', w') = iwds_close reading close_a start in
    (done ≡ true) × (e ≡ ok) × (get_dsession ds'.dhead 7 (codes "a") ≡ none)
unfolding get_dsession
close_lem_example = close_lem reading close_a start refl (refl, tt)

-- No room is left for the four bytes.
abbrev full : Sim
full = record start {
  room = 3;
  files = (codes "/d/c", []) ∷ [];
  handles = (1, record { path = codes "/d/c"; rest = [] }) ∷ [];
}

short_write_is_ok_example :
    let r = iwds_write writing put_c full in
    (r.derr ≡ ok) × (r.count ≡ 3) × (get_dsession r.ds.dhead 8 (codes "c") ≡ none)
unfolding get_dsession is_key str_eq
short_write_is_ok_example =
    short_write_is_ok writing put_c full (record { clid = 8; fp = 1; filename = codes "c" })
      (refl, tt) refl (omega arith)

abbrev tally : Tally Sim
tally = record { opens = λ w. w.opened; closes = λ w. w.closed }

sim-Counts : Counts sim tally
sim-Counts = record {
  malloc_opens = λ n w. ground arith;
  malloc_closes = λ n w. ground arith;
  fopen_some = λ p m w fp e. ground arith;
  fopen_none = λ p m w e. ground arith;
  fopen_closes = λ p m w. ground arith;
  fread_opens = λ fp n w. ground arith;
  fread_closes = λ fp n w. ground arith;
  fwrite_opens = λ fp b w. ground arith;
  fwrite_closes = λ fp b w. ground arith;
  fclose_opens = λ fp w. refl;
  fclose_closes = λ fp w. refl;
}

run_closes_files_example :
    let (ds', w') = run history (ds, start) in
    (close_all ds'.dhead w').opened ≡ (close_all ds'.dhead w').closed
unfolding run iwds_read iwds_write iwds_close str_eq is_key join_path
run_closes_files_example = run_closes_files tally sim-Counts history ds start refl refl
