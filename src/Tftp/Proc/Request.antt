-- ===== src/Tftp/Proc/Request.antt =====
-- A download from its request on, through `tftp_proc` of src/tftp.c: the session is made, the file is
-- opened, and the client gets it.
mod Tests
use iwtftpd.Base.{
  ℕ, zero, suc, ◌+◌, ◌-◌, ◌*◌, ◌≤◌, ◌<◌, ◌≡◌, refl, sym, ap, ◌∙◌, Bool, true, false, ◌&&◌, ◌||◌,
  List, [], ◌∷◌, ◌++◌, Option, none, some, ltb, ◌==◌, if◌then◌else◌, length, take, drop, replicate,
  arith, take_all, length-append, length-replicate, str_eq, str_eq_refl, inl, inr, Bool-cases,
  take-append-drop,
}
use iwtftpd.Host.{Host}
use iwtftpd.Util.{join_path, joined}
use iwtftpd.Datastore.{Iwds, Dsession, get_dsession, found, iwds_isfile}
use iwtftpd.Tftp.Types.{
  TftpMode, netascii, octet, Session, SendInfo, op_rrq, filename_max, msglen_max, datalen_max,
  session_bufsize,
}
use iwtftpd.Tftp.Netascii.Encode.{encode}
use iwtftpd.Tftp.Transfer.Feed.{Feeds, left_to_send}
use iwtftpd.Tftp.Transfer.Get.{Got}
use iwtftpd.Tftp.Transfer.First.{
  OpensFile, first_transfer, file_text, opened_ds, node, now_open, still_present,
}
use iwtftpd.Tftp.Parse.Format.{HasNoNul, request_msg, mode_name, parse_tftpreq-request_msg}
use iwtftpd.Tftp.Message.{next_block, make_tftpdata_msg}
use iwtftpd.Tftp.Message.Shape.{Sends, transfer-Sends, data_msg}
use iwtftpd.Tftp.Sessions.{
  get_session, is_client, new_session, client_session, mode_of, create_socket, add_newsession,
  host_or_any,
}
use iwtftpd.Tftp.Sessions.Keys.{is_client_iff}
use iwtftpd.Tftp.Proc.{Server, Sender, Processed, tftp_proc, on_request, open_session, send_data}
use iwtftpd.Tftp.Proc.Download.{
  Answers, fetch, fetch_lem, send_data-Answers, short_take, whole_take, left_enough,
}

-- The calls for a new session succeed, and its socket is `sock`.
pub record Connects {W : Type 0} (h : Host W) (svsock sock : ℕ) : Type 0 where
  pub memory : (n : ℕ) (w : W) → (h.malloc n w).0 ≡ true
  pub svaddr : ℕ
  pub svip : List ℕ
  pub addr : ℕ
  pub named : (w : W) → h.getsockname svsock w ≡ some svaddr
  pub resolved : (w : W) → h.getnameinfo svaddr w ≡ some svip
  pub found_addr :
      (w : W) → h.getaddrinfo (h.family_of svaddr) (host_or_any svip) none w ≡ some addr
  pub made : (w : W) → (h.socket addr w).0 ≡ some sock
  pub set : (w : W) → (h.setsockopt sock w).0 ≡ true
  pub bound : (w : W) → (h.bind sock addr w).0 ≡ true

-- The contents of a file as they are sent.
abbrev pub sent_as : TftpMode → List ℕ → List ℕ
sent_as octet contents = contents
sent_as netascii contents = encode contents

mode_of-mode_name : (m : TftpMode) → mode_of (mode_name m) ≡ m
unfolding str_eq
mode_of-mode_name netascii = refl
mode_of-mode_name octet = refl

-- The client's address and file are the session's.
abbrev pub ready_session : Sender → ℕ → List ℕ → TftpMode → Session
ready_session from sock file m = record (client_session from.clip from.clport file (mode_name m)) {
  clsock = sock;
}

module _ {W : Type 0} ⦃h : Host W⦄ where
  add_newsession_lem :
      (ss : List Session) (from : Sender) (sock : ℕ) (file : List ℕ) (m : TftpMode) (w : W)
      → Connects h from.sock sock
      → let s = ready_session from sock file m in
        (w' : W) × (add_newsession ss from.sock from.clip from.clport file (mode_name m) w
          ≡ (some s, s ∷ ss, w'))
  unfolding add_newsession create_socket
  add_newsession_lem ss from sock file m w c =
      let w2 = (h.malloc 8216 (h.malloc 912 w).1).1 in
      let w3 = (h.socket c.addr w2).1 in
      let w4 = (h.setsockopt sock w3).1 in
      (
        (h.bind sock c.addr w4).1,
        simp (
          add_newsession,
          create_socket,
          c.memory 912 w,
          c.memory 8216 (h.malloc 912 w).1,
          c.named w2,
          c.resolved w2,
          c.found_addr w2,
          c.made w2,
          c.set w3,
          c.bound w4,
        ),
      )

  -- A request, then an acknowledgement for every block: the data of the blocks that the client gets.
  unfoldable pub download : ℕ → Server → Sender → List ℕ → ℕ → SendInfo → W → Option (List ℕ)
  download fuel sv from rbuf rlen sinfo w =
      let r = tftp_proc sv from rbuf rlen sinfo w in
      let payload = drop 4 r.sinfo.msg in
      let more = fetch fuel r.server from 1 r.sinfo r.world in
      if ltb (length payload) datalen_max
      then some payload
      else elim more [ none ↦ none | some later ↦ some (payload ++ later) ]

-- What is sent of a file, by `left_to_send` at a buffer that is empty.
sent_text :
    (m : TftpMode) (contents : List ℕ)
    → left_to_send (mode_of (mode_name m)) (new_session.sesbuf) contents ≡ sent_as m contents
sent_text m contents =
    ap (λ k. left_to_send k (new_session.sesbuf) contents) (mode_of-mode_name m) ∙ by_mode m
  where
    by_mode : (k : TftpMode) → left_to_send k (new_session.sesbuf) contents ≡ sent_as k contents
    by_mode octet = refl
    by_mode netascii = refl

module _ {W : Type 0} ⦃h : Host W⦄ (rest : ℕ → W → List ℕ) (laws : Feeds h rest) (sv : Server)
    (from : Sender) (sock : ℕ) (c : Connects h from.sock sock) (file : List ℕ) (m : TftpMode)
    (clean : HasNoNul file) (short : length file ≤ 255) (fits : length from.clip ≤ 61)
    (free : get_session sv.seshead from.clip from.clport ≡ none)
    (present : (w : W) → (iwds_isfile sv.ads file w).0 ≡ found) (contents path : List ℕ)
    (fp len : ℕ) (opens : OpensFile h rest path fp contents)
    (closed : get_dsession sv.ads.dhead sock file ≡ none)
    (joins : join_path sv.ads.dspath file (length sv.ads.dspath + length file + 2)
      ≡ joined len path)
    (some_contents : 0 < length contents) where
  abbrev ready : Session
  ready = ready_session from sock file m

  same_file : file ≡ ready.filename
  same_file = sym (take_all 255 file short)

  request_sends :
      (stale : List ℕ) (rlen : ℕ) (sinfo : SendInfo) (w : W)
      → 10 ≤ rlen
      → (w' : W) × (tftp_proc sv from (request_msg op_rrq file (mode_name m) ++ stale) rlen sinfo w
          ≡ send_data (record sv { seshead = ready ∷ sv.seshead }) ready sinfo w')
  unfolding tftp_proc on_request open_session
  request_sends stale rlen sinfo w long =
      let parsed =
        parse_tftpreq-request_msg op_rrq file m stale rlen (inl refl) clean (omega (arith, short))
          long in
      let (w', added) =
        add_newsession_lem sv.seshead from sock file m (iwds_isfile sv.ads file w).1 c in
      (w', simp (tftp_proc, free, on_request, parsed, present w, open_session, added))

  request-Answers :
      (sinfo : SendInfo) (w : W)
      → Answers rest from ready
          (record { clid = sock; fp = fp; filename = ready.filename })
          (sent_as m contents)
          (send_data (record sv { seshead = ready ∷ sv.seshead }) ready sinfo w)
  unfolding get_session
  request-Answers sinfo w =
      let s1 : Session = record ready { blknum = next_block 0 } in
      let closed' : get_dsession sv.ads.dhead sock ready.filename ≡ none =
        ap (get_dsession sv.ads.dhead sock) (sym same_file) ∙ closed in
      let joins' =
        ap (λ n. join_path sv.ads.dspath n (length sv.ads.dspath + length n + 2)) (sym same_file)
        ∙ joins in
      let present' : (w' : W) → (iwds_isfile sv.ads ready.filename w').0 ≡ found =
        λ w'. ap (λ n. (iwds_isfile sv.ads n w').0) (sym same_file) ∙ present w' in
      let zeros : List ℕ = replicate session_bufsize 0 in
      let got =
        first_transfer rest laws s1 sv.ads contents path fp len opens closed' joins' present' zeros
          (length-replicate {A = ℕ} session_bufsize 0) refl some_contents datalen_max w
          (omega arith) in
      let ds' : Iwds = record sv.ads {
        dhead = record { clid = sock; fp = fp; filename = ready.filename } ∷ sv.ads.dhead;
      } in
      let open' = now_open rest laws s1 sv.ads contents path fp len opens closed' joins' present' in
      let present2 =
        still_present rest laws s1 sv.ads contents path fp len opens closed' joins' present' in
      let f : Dsession = record { clid = sock; fp = fp; filename = ready.filename } in
      let text = left_to_send ready.tftpmode (new_session.sesbuf) contents in
      let sends =
        transfer-Sends rest laws ready ds' f open' present2 sv.ads w text got.bytes got.later
          got.same_ds got.sendable in
      let key : (ready.clip ≡ from.clip) × (ready.clport ≡ from.clport) =
        (take_all 61 from.clip fits, refl) in
      let there : get_session (ready ∷ sv.seshead) from.clip from.clport ≡ some ready =
        rw ((is_client_iff from.clip from.clport ready).1 key) refl in
      rw (← sent_text m contents) (
        send_data-Answers rest laws from f (record sv { seshead = ready ∷ sv.seshead }) ready ready
          sinfo w text ds' open' present2 there key refl sends)

  -- A client without a session asks for a file that is there, is not empty, has a name of 255 bytes
  -- at most without a NUL, and is not open for the new session; it asks in one of the two modes,
  -- and acknowledges every block. If the client's address fits into the session, ten bytes or more
  -- are received, the calls of the host succeed, and the file reads without error, then the client
  -- gets just the file, as it is in octet mode and encoded in netascii mode, with no more messages
  -- than there are blocks, the short one included, whatever the receive buffer holds after the
  -- request.
  pub download_lem :
      (fuel : ℕ) (stale : List ℕ) (rlen : ℕ) (sinfo : SendInfo) (w : W)
      → 10 ≤ rlen
      → length (sent_as m contents) < datalen_max * suc fuel
      → download fuel sv from (request_msg op_rrq file (mode_name m) ++ stale) rlen sinfo w
        ≡ some (sent_as m contents)
  unfolding download next_block
  download_lem fuel stale rlen sinfo w long enough =
      let text = sent_as m contents in
      let rbuf = request_msg op_rrq file (mode_name m) ++ stale in
      let r = tftp_proc sv from rbuf rlen sinfo w in
      let f : Dsession = record { clid = sock; fp = fp; filename = ready.filename } in
      let (w', sent) = request_sends stale rlen sinfo w long in
      let a : Answers rest from ready f text r = rw sent (request-Answers sinfo w') in
      elim (Bool-cases (ltb (length (take datalen_max text)) datalen_max)) [
        | inl last ↦ rw (download, a.msg, last) (ap some (short_take text last))
        | inr whole ↦
            let (s', number, d) = a.goes_on (whole_take text whole) in
            let e =
              fetch_lem rest laws from f fuel r.server s' r.sinfo r.world (drop datalen_max text) d
                (left_enough text fuel (whole_take text whole) enough) in
            let e' : fetch fuel r.server from 1 r.sinfo r.world ≡ some (drop datalen_max text) =
              ap (λ b. fetch fuel r.server from b r.sinfo r.world) (sym number) ∙ e in
            rw (download, a.msg, whole, e', a.msg) (ap some (take-append-drop datalen_max text))
      ]
