-- ===== src/Tftp/Proc/Block.antt =====
-- One block of data through `tftp_proc` of src/tftp.c: a whole block, and a short one, which is the last.
use iwtftpd.Base.{
  ℕ, ◌+◌, ◌-◌, ◌≤◌, ◌<◌, ◌≡◌, refl, sym, ap, ◌∙◌, Bool, true, false, List, [], ◌++◌, none, some,
  ltb, ◌==◌, length, take, arith, ltb→le, ltb→lt, inl, inr, append-nil, length-take, take_all,
}
use iwtftpd.Host.{Host}
use iwtftpd.Datastore.{Iwds, Dsession, get_dsession, iwds_close, del_dsession}
use iwtftpd.Datastore.Requests.{close_lem}
use iwtftpd.Datastore.Sessions
use iwtftpd.Tftp.Types.{
  Session, Storage, TftpMode, octet, netascii, SendInfo, datalen_max, session_bufsize,
}
use iwtftpd.Tftp.Store.{close_data, dticket}
use iwtftpd.Tftp.Netascii.Decode.{Fillable, unsaved}
use iwtftpd.Tftp.Transfer.{moved, put_session_data}
use iwtftpd.Tftp.Transfer.Accept.{Sinks, kept}
use iwtftpd.Tftp.Transfer.Put.{put_session_data_lem, Settled}
use iwtftpd.Tftp.Parse.Format.{ack_msg, parse_tftpdata-data_msg}
use iwtftpd.Tftp.Message.{next_block, remember, make_tftpack_msg}
use iwtftpd.Tftp.Message.Shape.{data_msg}
use iwtftpd.Tftp.Sessions.{get_session, put_back}
use iwtftpd.Tftp.Sessions.Keys.{get-put_back_key, get_session-key}
use iwtftpd.Tftp.Proc.{Server, Sender, tftp_proc, on_data, take_block, send_ack, update, done}
use iwtftpd.Tftp.Proc.Download.{next_block_small}

-- The session `s` of the client writes the file that `f` has open, in octet mode; `so_far` is what the
-- client has sent, saved or still in the buffer.
pub record Uploading {W : Type 0} (wrote : ℕ → W → List ℕ) (sv : Server) (from : Sender)
    (s : Session) (f : Dsession) (w : W) (so_far : List ℕ) : Type 0 where
  pub found_session : get_session sv.seshead from.clip from.clport ≡ some s
  pub opened : get_dsession sv.ads.dhead s.clsock s.filename ≡ some f
  pub fillable : Fillable s.sesbuf
  pub room : s.sesbuf.datalen < session_bufsize
  pub mode : s.tftpmode ≡ octet
  pub unfinished : s.fin ≡ false
  pub block : s.blknum < 65536
  pub received : wrote f.fp w ++ unsaved s.sesbuf ≡ so_far

pub next_block_differs : (b : ℕ) → b < 65536 → (next_block b == b) ≡ false
unfolding next_block
next_block_differs b p = ground arith

pub full_size :
    (t : List ℕ) → ltb (length t) datalen_max ≡ false → length (take datalen_max t) ≡ datalen_max
full_size t e = omega (arith, length-take datalen_max t, ltb→le (length t) datalen_max e)

pub short_size :
    (t : List ℕ) → ltb (length t) datalen_max ≡ true → length (take datalen_max t) < datalen_max
short_size t e = omega (arith, length-take datalen_max t, ltb→lt (length t) datalen_max e)

pub all_of : (t : List ℕ) → ltb (length t) datalen_max ≡ true → take datalen_max t ≡ t
all_of t e = take_all datalen_max t (omega (arith, ltb→lt (length t) datalen_max e))

module _ {W : Type 0} ⦃h : Host W⦄ (sv : Server) (from : Sender) (sinfo : SendInfo)
    (s : Session) where
  -- The next block of data gets to `take_block`.
  pub next_data :
      (payload stale : List ℕ) (w : W)
      → get_session sv.seshead from.clip from.clport ≡ some s
      → s.blknum < 65536
      → length payload ≤ datalen_max
      → let blk = next_block s.blknum in
        tftp_proc sv from (data_msg blk payload ++ stale) (4 + length payload) sinfo w
        ≡ take_block sv s blk payload (4 + length payload) sinfo w
  unfolding tftp_proc on_data
  next_data payload stale w e b fits =
      let blk = next_block s.blknum in
      let parsed = parse_tftpdata-data_msg blk payload stale (next_block_small s.blknum) fits in
      let same : (blk == blk) ≡ true = ground arith in
      rw (tftp_proc, e, on_data, parsed, next_block_differs s.blknum b, same) refl

  pub take_whole :
      (blk : ℕ) (payload : List ℕ) (w : W) {n : ℕ}
      → length payload ≡ datalen_max
      → s.fin ≡ false
      → let t = put_session_data s sv.ads payload w in
        t.result ≡ moved n []
        → let s2 : Session = record s { sesbuf = t.buf } in
          take_block sv s blk payload (4 + length payload) sinfo w
          ≡ send_ack (update sv s2 t.ds) s2 blk sinfo t.world
  unfolding take_block
  take_whole blk payload w {n} size unfinished result =
      let whole : ltb (4 + length payload - 4) datalen_max ≡ false = ground (arith, size) in
      simp (take_block, whole, result, unfinished)

  pub take_short :
      (blk : ℕ) (payload : List ℕ) (w : W) {n : ℕ}
      → length payload < datalen_max
      → let s1 : Session = record s { fin = true } in
        let t = put_session_data s1 sv.ads payload w in
        t.result ≡ moved n []
        → let s2 : Session = record s1 { sesbuf = t.buf } in
          let (ds', w') = close_data s2 t.ds t.world in
          take_block sv s blk payload (4 + length payload) sinfo w
          ≡ send_ack (update sv s2 ds') s2 blk sinfo w'
  unfolding take_block
  take_short blk payload w {n} size result =
      let short : ltb (4 + length payload - 4) datalen_max ≡ true = ground (arith, size) in
      simp (take_block, short, result)

  pub send_ack_lem :
      (blk : ℕ) (w : W)
      → send_ack sv s blk sinfo w ≡ (
          let s' = remember (record s { blknum = blk }) (ack_msg blk) (h.time w) in
          done (update sv s' sv.ads) (some s') (ack_msg blk) w)
  unfolding send_ack make_tftpack_msg
  send_ack_lem blk w = refl

module _ {W : Type 0} ⦃h : Host W⦄ where
  pub closed :
      (s : Session) (ds : Iwds) (w : W)
      → Sessions.IsUnique ds.dhead
      → get_dsession (close_data s ds w).0.dhead s.clsock s.filename ≡ none
  unfolding close_data
  closed s ds w unique = (close_lem ds (dticket s [] 0) w refl unique).2

  pub close_data_lem :
      (s : Session) (ds : Iwds) (f : Dsession) (w : W)
      → get_dsession ds.dhead s.clsock s.filename ≡ some f
      → (close_data s ds w).1 ≡ (h.fclose f.fp w).1
  unfolding close_data iwds_close del_dsession
  close_data_lem s ds f w e =
      let e' = Sessions.get_dsession_self ds.dhead s.clsock s.filename {t = f} e in
      rw (e, iwds_close, e', del_dsession) refl

module _ {W : Type 0} ⦃h : Host W⦄ (wrote : ℕ → W → List ℕ) (laws : Sinks h wrote)
    (closes : (fp : ℕ) (w : W) → wrote fp (h.fclose fp w).1 ≡ wrote fp w) (from : Sender)
    (f : Dsession) where
  pub kept_octet : (m : TftpMode) (u : List ℕ) → m ≡ octet → kept m u ≡ u
  kept_octet octet u e = refl
  kept_octet netascii u e = cc

  pub room_of :
      (s : Session) (ds : Iwds) (opened : get_dsession ds.dhead s.clsock s.filename ≡ some f)
      (b : Bool) (sb : Storage)
      → b ≡ false
      → Settled wrote laws s ds f opened b sb
      → sb.datalen < session_bufsize
  room_of s ds opened true sb e p = cc
  room_of s ds opened false sb e p = p

  -- A whole block is acknowledged, and the upload goes on.
  pub whole_block :
      (sv : Server) (s : Session) (sinfo : SendInfo) (w : W) (payload so_far : List ℕ)
      → Uploading wrote sv from s f w so_far
      → length payload ≡ datalen_max
      → let blk = next_block s.blknum in
        let r = tftp_proc sv from (data_msg blk payload) (4 + length payload) sinfo w in
        (r.sinfo.msg ≡ ack_msg blk)
        × (r.server.ads ≡ sv.ads)
        × ((s' : Session) × (s'.blknum ≡ blk)
            × (s'.clsock ≡ s.clsock)
            × (s'.filename ≡ s.filename)
            × Uploading wrote r.server from s' f r.world (so_far ++ payload))
  whole_block sv s sinfo w payload so_far u size =
      let blk = next_block s.blknum in
      let ds = sv.ads in
      let t = put_session_data s ds payload w in
      let (result, text, same_ds, fillable, settled) =
        put_session_data_lem wrote laws s ds f u.opened payload w u.fillable u.room
          (inl u.unfinished) in
      let s2 : Session = record s { sesbuf = t.buf } in
      let s3 = remember (record s2 { blknum = blk }) (ack_msg blk) (h.time t.world) in
      let key = get_session-key sv.seshead from.clip from.clport {t = s} u.found_session in
      let stored =
        get-put_back_key s2 sv.seshead from.clip from.clport {t = s} key u.found_session in
      let again =
        get-put_back_key s3 (put_back s2 sv.seshead) from.clip from.clport {t = s2} key stored in
      let answer =
        ap (λ m. tftp_proc sv from m (4 + length payload) sinfo w)
          (sym (append-nil (data_msg blk payload)))
        ∙ next_data sv from sinfo s payload [] w u.found_session u.block (omega (arith, size))
        ∙ take_whole sv from sinfo s blk payload w {n = length payload} size u.unfinished result
        ∙ send_ack_lem (update sv s2 t.ds) from sinfo s2 blk t.world in
      rw answer (
        refl,
        same_ds,
        (
          s3,
          refl,
          refl,
          refl,
          record {
            found_session = again;
            opened = rw same_ds u.opened;
            fillable = fillable;
            room = room_of s ds u.opened s.fin t.buf u.unfinished settled;
            mode = u.mode;
            unfinished = u.unfinished;
            block = next_block_small s.blknum;
            received =
                text
                ∙ ap (λ x. (wrote f.fp w ++ unsaved s.sesbuf) ++ x)
                    (kept_octet s.tftpmode payload u.mode)
                ∙ ap (λ x. x ++ payload) u.received;
          },
        ),
      )

  -- A short block is acknowledged, all of the file is written, and the file is closed.
  pub short_block :
      (sv : Server) (s : Session) (sinfo : SendInfo) (w : W) (payload so_far : List ℕ)
      → Uploading wrote sv from s f w so_far
      → Sessions.IsUnique sv.ads.dhead
      → length payload < datalen_max
      → let blk = next_block s.blknum in
        let r = tftp_proc sv from (data_msg blk payload) (4 + length payload) sinfo w in
        (r.sinfo.msg ≡ ack_msg blk)
        × (wrote f.fp r.world ≡ so_far ++ payload)
        × (get_dsession r.server.ads.dhead s.clsock s.filename ≡ none)
  short_block sv s sinfo w payload so_far u unique size =
      let blk = next_block s.blknum in
      let ds = sv.ads in
      let s1 : Session = record s { fin = true } in
      let t = put_session_data s1 ds payload w in
      let (result, text, same_ds, fillable, settled) =
        put_session_data_lem wrote laws s1 ds f u.opened payload w u.fillable u.room (inr u.mode) in
      let s2 : Session = record s1 { sesbuf = t.buf } in
      let (ds', w') = close_data s2 t.ds t.world in
      let answer =
        ap (λ m. tftp_proc sv from m (4 + length payload) sinfo w)
          (sym (append-nil (data_msg blk payload)))
        ∙ next_data sv from sinfo s payload [] w u.found_session u.block (omega (arith, size))
        ∙ take_short sv from sinfo s blk payload w {n = length payload} size result
        ∙ send_ack_lem (update sv s2 ds') from sinfo s2 blk w' in
      let all_saved : wrote f.fp t.world ≡ so_far ++ payload =
        sym (append-nil (wrote f.fp t.world))
        ∙ ap (λ n. wrote f.fp t.world ++ take n t.buf.storage) (sym settled)
        ∙ text
        ∙ ap (λ x. (wrote f.fp w ++ unsaved s.sesbuf) ++ x) (kept_octet s.tftpmode payload u.mode)
        ∙ ap (λ x. x ++ payload) u.received in
      let opened : get_dsession t.ds.dhead s.clsock s.filename ≡ some f = rw same_ds u.opened in
      let still : Sessions.IsUnique t.ds.dhead = rw same_ds unique in
      rw answer (
        refl,
        ap (wrote f.fp) (close_data_lem s2 t.ds f t.world opened) ∙ closes f.fp t.world ∙ all_saved,
        closed s2 t.ds t.world still,
      )
