-- ===== src/Tftp/Transfer/First.antt =====
-- The first call of `get_session_data` of src/tftp.c for a session: the datastore opens the file.
use iwtftpd.Base.{
  ℕ, suc, ◌+◌, ◌≤◌, ◌<◌, ◌≡◌, refl, ap, ◌∙◌, true, false, List, [], ◌∷◌, none, some, ◌==◌, ltb,
  take, drop, length, arith, length-take, take-append-drop, str_eq_refl, ==_refl, and_false, blit,
}
use iwtftpd.Host.{Host, for_read}
use iwtftpd.Util.{join_path, joined}
use iwtftpd.Datastore.{
  Iwds, Dsession, is_key, get_dsession, is_dsfile, iwds_isfile, iwds_read, read_open, read_session,
  create_dsession, add_opened, found, ok,
}
use iwtftpd.Tftp.Types.{Storage, Session, session_bufsize}
use iwtftpd.Tftp.Store.{load_data, dticket}
use iwtftpd.Tftp.Netascii.Emit.{buffer}
use iwtftpd.Tftp.Transfer.{refill, get_loop, get_session_data}
use iwtftpd.Tftp.Transfer.Feed.{
  Feeds, Sendable, left_to_send, filled-Sendable, same_left, unread-filled,
}
use iwtftpd.Tftp.Transfer.Get.{to_send, Got, get_loop-Got}

-- Opening a file for reading gives `fp`, at the start of `contents`, and memory does not run out.
pub record OpensFile {W : Type 0} (h : Host W) (rest : ℕ → W → List ℕ) (path : List ℕ) (fp : ℕ)
    (contents : List ℕ) : Type 0 where
  pub memory : (n : ℕ) (w : W) → (h.malloc n w).0 ≡ true
  pub opens : (w : W) → (h.fopen path for_read w).0 ≡ some fp
  pub at_start : (w : W) → rest fp (h.fopen path for_read w).1 ≡ contents

neq_zero : (n : ℕ) → 0 < n → (n == 0) ≡ false
neq_zero n p = ground arith

module _ {W : Type 0} ⦃h : Host W⦄ (rest : ℕ → W → List ℕ) (laws : Feeds h rest) (s : Session)
    (ds : Iwds) (contents path : List ℕ) (fp len : ℕ) (file : OpensFile h rest path fp contents)
    (closed : get_dsession ds.dhead s.clsock s.filename ≡ none)
    (joins : join_path ds.dspath s.filename (length ds.dspath + length s.filename + 2)
      ≡ joined len path)
    (present : (w : W) → (iwds_isfile ds s.filename w).0 ≡ found) where
  abbrev pub node : Dsession
  node = record { clid = s.clsock; fp = fp; filename = s.filename }

  -- The datastore with the file open.
  abbrev pub opened_ds : Iwds
  opened_ds = record ds { dhead = node ∷ ds.dhead }

  pub now_open : get_dsession opened_ds.dhead s.clsock s.filename ≡ some node
  unfolding get_dsession is_key
  now_open = rw (==_refl s.clsock, str_eq_refl s.filename) refl

  pub still_present : (w : W) → (iwds_isfile opened_ds s.filename w).0 ≡ found
  unfolding iwds_isfile
  still_present w = present w

  -- The states that `create_dsession` goes through.
  abbrev at_open : W → W
  at_open w = (h.malloc (length ds.dspath + length s.filename + 2) w).1

  abbrev created_world : W → W
  created_world w =
      (h.malloc (length s.filename + 1) (h.malloc 48 (h.fopen path for_read (at_open w)).1).1).1

  create_lem :
      (w : W)
      → create_dsession ds s.clsock s.filename for_read w ≡ (some node, opened_ds, created_world w)
  unfolding create_dsession add_opened
  create_lem w =
      let w1 = at_open w in
      let w2 = (h.fopen path for_read w1).1 in
      simp (
        create_dsession,
        file.memory (length ds.dspath + length s.filename + 2) w,
        joins,
        file.opens w1,
        add_opened,
        file.memory 48 w2,
        file.memory (length s.filename + 1) (h.malloc 48 w2).1,
      )

  at_contents : (w : W) → rest fp (created_world w) ≡ contents
  at_contents w =
      let w2 = (h.fopen path for_read (at_open w)).1 in
      laws.malloc_rest fp (length s.filename + 1) (h.malloc 48 w2).1
      ∙ laws.malloc_rest fp 48 w2
      ∙ file.at_start (at_open w)

  abbrev first_chunk : List ℕ
  first_chunk = take session_bufsize contents

  abbrev first_world : W → W
  first_world w =
      (h.fread fp session_bufsize (created_world (is_dsfile ds.dspath s.filename w).1)).1

  read_first :
      (w : W)
      → iwds_read ds (dticket s [] session_bufsize) w ≡ record {
        count = length first_chunk;
        bytes = first_chunk;
        derr = ok;
        ds = opened_ds;
        world = first_world w;
      }
  unfolding iwds_read iwds_isfile read_session
  read_first w =
      let w1 = (is_dsfile ds.dspath s.filename w).1 in
      let w5 = created_world w1 in
      let bytes : (h.fread fp session_bufsize w5).0 ≡ first_chunk =
        laws.fread_bytes fp session_bufsize w5 ∙ ap (take session_bufsize) (at_contents w1) in
      simp (
        present w,
        iwds_read,
        closed,
        read_open,
        create_lem w1,
        read_session,
        bytes,
        laws.no_error fp session_bufsize w5,
        and_false (ltb (length first_chunk) session_bufsize),
      )

  -- The loop goes on with the buffer that was filled.
  enter_loop :
      (fuel room : ℕ) (out : List ℕ) (sb : Storage) (w : W)
      → sb.datalen ≡ 0
      → let r = load_data s sb ds w in
        r.good ≡ true
        → (r.buf.datalen == 0) ≡ false
        → get_loop (suc fuel) s room out sb ds w ≡ get_loop (suc fuel) s room out r.buf r.ds r.world
  unfolding get_loop refill
  enter_loop fuel room out sb w empty good filled = simp (get_loop, refill, empty, good, filled)

  start_loop :
      (room : ℕ) (w : W)
      → get_session_data s ds room w ≡ get_loop (suc room) s room [] s.sesbuf ds w
  unfolding get_session_data
  start_loop room w = refl

  module _ (storage : List ℕ) (size : length storage ≡ session_bufsize)
      (fresh : s.sesbuf ≡ buffer 0 false 0 storage) (some_contents : 0 < length contents) where
    load_first :
        (w : W)
        → let r = load_data s s.sesbuf ds w in
          (r.good ≡ true)
          × (r.buf ≡ buffer 0 false (length first_chunk) (blit storage 0 first_chunk))
          × (r.ds ≡ opened_ds)
          × (rest fp r.world ≡ drop session_bufsize contents)
    unfolding load_data
    load_first w =
        let w5 = created_world (is_dsfile ds.dspath s.filename w).1 in
        rw (fresh, read_first w, load_data)
          (
            refl,
            refl,
            refl,
            laws.fread_rest fp session_bufsize w5
                ∙ ap (drop session_bufsize) (at_contents (is_dsfile ds.dspath s.filename w).1),
          )

    -- What is sent of the file, in the session's mode.
    abbrev pub file_text : List ℕ
    file_text = left_to_send s.tftpmode (buffer 0 false 0 storage) contents

    pub first_transfer :
        (room : ℕ) (w : W)
        → 1 ≤ room
        → Got rest laws s opened_ds node now_open still_present room [] file_text
            (get_session_data s ds room w)
    first_transfer room w p =
        let r = load_data s s.sesbuf ds w in
        let (good, buf, opened, tail) = load_first w in
        let empty : s.sesbuf.datalen ≡ 0 = ap (λ b. b.datalen) fresh in
        let chunk_size : length first_chunk ≤ session_bufsize =
          omega (arith, length-take session_bufsize contents) in
        let sendable : Sendable s.tftpmode r.buf =
          rw buf (filled-Sendable s.tftpmode storage first_chunk size chunk_size) in
        let text : to_send rest laws s opened_ds node now_open still_present r.buf r.world
            ≡ file_text =
          same_left s.tftpmode r.buf (buffer 0 false 0 storage) (rest fp r.world) contents
            (ap (λ b. b.fopt) buf)
            (rw (buf, tail, unread-filled storage first_chunk false)
              (take-append-drop session_bufsize contents)) in
        let filled : (r.buf.datalen == 0) ≡ false = neq_zero r.buf.datalen (
          omega (
            arith,
            ap (λ b. b.datalen) buf,
            length-take session_bufsize contents,
            some_contents,
          )) in
        let fopt : r.buf.fopt ≡ false = ap (λ b. b.fopt) buf in
        let got =
          get_loop-Got rest laws s opened_ds node now_open still_present (suc room) room [] r.buf
            r.world (omega arith) (rw fopt p) sendable in
        let same : get_session_data s ds room w
            ≡ get_loop (suc room) s room [] r.buf opened_ds r.world =
          start_loop room w
          ∙ enter_loop room room [] s.sesbuf w empty good filled
          ∙ ap (λ d. get_loop (suc room) s room [] r.buf d r.world) opened in
        rw (same, ← text) got
