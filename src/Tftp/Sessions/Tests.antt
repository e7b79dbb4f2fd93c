-- ===== src/Tftp/Sessions/Tests.antt =====
-- `cleanup_session` of src/tftp.c at lists of two sessions.
use iwtftpd.Base.{◌≡◌, refl, true, [], ◌∷◌, none, some, codes, str_eq}
use iwtftpd.Sim.{sim, start}
use iwtftpd.Tftp.Types.{Session}
use iwtftpd.Tftp.Sessions.{
  new_session, get_session, is_client, cleanup_session, cleanup_loop, is_over,
}

abbrev live : Session
live = record new_session { clip = codes "10.0.0.2"; clport = 4000 }

abbrev over : Session
over = record new_session { clip = codes "10.0.0.3"; clport = 4000; disabled = true }

live_stay : cleanup_session (live ∷ live ∷ []) start ≡ some (live ∷ live ∷ [], start)
unfolding cleanup_session cleanup_loop is_over
live_stay = refl

over_faults : cleanup_session (live ∷ over ∷ []) start ≡ none
unfolding cleanup_session cleanup_loop get_session is_client is_over str_eq
over_faults = refl
