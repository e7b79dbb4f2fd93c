-- ===== src/Tftp/Store.antt =====
-- The functions of src/tftp.c that move a session's buffer from and to the datastore: `load_data`,
-- `save_data` and `close_data`.
use iwtftpd.Base.{ℕ, Bool, true, false, ◌&&◌, List, [], ◌==◌, if◌then◌else◌, blit}
use iwtftpd.Host.{Host}
use iwtftpd.Datastore.{Iwds, Dsreq, Derr, ok, iwds_read, iwds_write, iwds_close}
use iwtftpd.Tftp.Types.{Storage, Session, session_bufsize}

-- The session's buffer and the datastore after a call, with whether it returned IW_OK.
pub record Io (W : Type 0) : Type 0 where
  pub good : Bool
  pub buf : Storage
  pub ds : Iwds
  pub world : W

-- `derr == 0`
abbrev pub is_ok : Derr → Bool
is_ok ok = true
is_ok _ = false

-- The request for a session.
abbrev pub dticket : Session → List ℕ → ℕ → Dsreq
dticket s dbuf dlen = record { dsid = s.clsock; dfile = s.filename; dbuf = dbuf; dlen = dlen }

module _ {W : Type 0} ⦃h : Host W⦄ where
  -- A failure is only reported.
  unfoldable pub close_data : Session → Iwds → W → Iwds × W
  close_data s ds w = let (_, _, ds', w') = iwds_close ds (dticket s [] 0) w in (ds', w')

  -- `sb` is the buffer of the session `s`. The length is stored before `derr` is looked at.
  unfoldable pub load_data : Session → Storage → Iwds → W → Io W
  unfolding close_data
  load_data s sb ds w =
      let r = iwds_read ds (dticket s [] session_bufsize) w in
      let read = record sb { storage = blit sb.storage 0 r.bytes; datalen = r.count } in
      let (ds', w') = close_data s r.ds r.world in
      if is_ok r.derr
      then record { good = true; buf = record read { pos = 0 }; ds = r.ds; world = r.world }
      else record { good = false; buf = read; ds = ds'; world = w' }

  unfoldable pub save_data : Session → Storage → Iwds → W → Io W
  unfolding close_data
  save_data s sb ds w =
      let r = iwds_write ds (dticket s sb.storage sb.datalen) w in
      let (ds', w') = close_data s r.ds r.world in
      if is_ok r.derr && (r.count == sb.datalen)
      then record {
        good = true;
        buf = record sb { datalen = 0; pos = 0 };
        ds = r.ds;
        world = r.world;
      }
      else record { good = false; buf = sb; ds = ds'; world = w' }
