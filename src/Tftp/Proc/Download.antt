-- ===== src/Tftp/Proc/Download.antt =====
-- A whole download through `tftp_proc` of src/tftp.c.
use iwtftpd.Base.{
  ℕ, zero, suc, ◌*◌, ◌≤◌, ◌<◌, ◌≡◌, ap, ◌∙◌, true, false, List, [], ◌++◌, Option, none, some, ltb,
  if◌then◌else◌, length, take, drop, arith, le→ltb, Bool-cases, inl, inr, length-take, length-drop,
  take-append-drop, take_all,
}
use iwtftpd.Host.{Host}
use iwtftpd.Datastore.{Iwds, Dsession, found, iwds_isfile, get_dsession}
use iwtftpd.Tftp.Types.{Session, SendInfo, msglen_max, datalen_max}
use iwtftpd.Tftp.Transfer.Feed.{Feeds, Sendable, left_to_send}
use iwtftpd.Tftp.Parse.Format.{ack_msg}
use iwtftpd.Tftp.Message.{next_block, make_tftpdata_msg}
use iwtftpd.Tftp.Message.Shape.{Sends, data_msg, make_tftpdata_msg-Sends}
use iwtftpd.Tftp.Sessions.{get_session}
use iwtftpd.Tftp.Sessions.Keys.{get-put_back_key, get_session-key}
use iwtftpd.Tftp.Proc.{send_data, Server, Sender, Processed, tftp_proc}
use iwtftpd.Tftp.Proc.Local.{HasKey, make_tftpdata_msg-HasKey}
use iwtftpd.Tftp.Proc.Replies.{current_ack, send_data_lem}

-- The session `s` of the client sends the file that `f` has open, and `text` is still to be sent.
pub record Downloading {W : Type 0} ⦃h : Host W⦄ (rest : ℕ → W → List ℕ) (sv : Server)
    (from : Sender) (s : Session) (f : Dsession) (w : W) (text : List ℕ) : Type 0 where
  pub found_session : get_session sv.seshead from.clip from.clport ≡ some s
  pub opened : get_dsession sv.ads.dhead s.clsock s.filename ≡ some f
  pub present : (w' : W) → (iwds_isfile sv.ads s.filename w').0 ≡ found
  pub sendable : Sendable s.tftpmode s.sesbuf
  pub unfinished : s.fin ≡ false
  pub block : s.blknum < 65536
  pub left : left_to_send s.tftpmode s.sesbuf (rest f.fp w) ≡ text

pub next_block_small : (b : ℕ) → next_block b < 65536
unfolding next_block
next_block_small b = ground arith

pub short_take :
    (t : List ℕ) → ltb (length (take datalen_max t)) datalen_max ≡ true → take datalen_max t ≡ t
short_take t e = take_all datalen_max t (ground (arith, length-take datalen_max t))

pub whole_take :
    (t : List ℕ) → ltb (length (take datalen_max t)) datalen_max ≡ false → datalen_max ≤ length t
whole_take t e = ground (arith, length-take datalen_max t)

pub left_enough :
    (t : List ℕ) (fuel : ℕ)
    → datalen_max ≤ length t
    → length t < datalen_max * suc fuel
    → length (drop datalen_max t) < datalen_max * fuel
left_enough t fuel p q = omega (arith, length-drop datalen_max t)

module _ {W : Type 0} ⦃h : Host W⦄ where
  -- A client that has the block `blk` acknowledges it, and so on until a block is short: the data of
  -- the blocks it gets, or `none` if more messages are needed than `fuel`.
  unfoldable pub fetch : ℕ → Server → Sender → ℕ → SendInfo → W → Option (List ℕ)
  fetch zero sv from blk sinfo w = none
  fetch (suc fuel) sv from blk sinfo w =
      let r = tftp_proc sv from (ack_msg blk) 4 sinfo w in
      let payload = drop 4 r.sinfo.msg in
      let more = fetch fuel r.server from (next_block blk) r.sinfo r.world in
      if ltb (length payload) datalen_max
      then some payload
      else elim more [ none ↦ none | some later ↦ some (payload ++ later) ]

  -- The answer to an acknowledgement, and the download after it if the block was a whole one.
  pub record Answers (rest : ℕ → W → List ℕ) (from : Sender) (s : Session) (f : Dsession)
      (text : List ℕ) (r : Processed W) : Type 0 where
    pub msg : r.sinfo.msg ≡ data_msg (next_block s.blknum) (take datalen_max text)
    pub goes_on :
        datalen_max ≤ length text
        → (s' : Session) × (s'.blknum ≡ next_block s.blknum)
          × Downloading rest r.server from s' f r.world (drop datalen_max text)

module _ {W : Type 0} ⦃h : Host W⦄ (rest : ℕ → W → List ℕ) (laws : Feeds h rest) (from : Sender)
    (f : Dsession) where
  -- What `send_data` sends, and the download after it. The list has a session of the client, which
  -- `s` takes the place of.
  pub send_data-Answers :
      (sv : Server) (s t : Session) (sinfo : SendInfo) (w : W) (text : List ℕ) (ds : Iwds)
      (opened : get_dsession ds.dhead s.clsock s.filename ≡ some f)
      (present : (w' : W) → (iwds_isfile ds s.filename w').0 ≡ found)
      → get_session sv.seshead from.clip from.clport ≡ some t
      → HasKey from.clip from.clport s
      → s.fin ≡ false
      → Sends rest laws s ds f opened present text w (make_tftpdata_msg s sv.ads msglen_max w)
      → Answers rest from s f text (send_data sv s sinfo w)
  send_data-Answers sv s t sinfo w text ds opened present there key unfinished sends =
      let m = make_tftpdata_msg s sv.ads msglen_max w in
      let (info, server, world, good) = send_data_lem sv from sinfo s w {msg = _} sends.msg in
      let key' = make_tftpdata_msg-HasKey s sv.ads w key in
      record {
        msg = ap (λ i. i.msg) info;
        goes_on = λ long.
            let (same_ds, later, sendable) = sends.goes_on long in
            (
              m.ses,
              sends.number,
              rw (server, world)
                  (record {
                    found_session =
                        get-put_back_key m.ses sv.seshead from.clip from.clport {t = t} key' there;
                    opened = rw (same_ds, sends.same_key.0, sends.same_key.1) opened;
                    present = λ w'. rw (same_ds, sends.same_key.1) (present w');
                    sendable = rw sends.same_mode sendable;
                    unfinished = sends.ends ∙ rw unfinished (le→ltb (length text) datalen_max long);
                    block = rw sends.number (next_block_small s.blknum);
                    left = rw sends.same_mode later;
                  }),
            );
      }

  ack-Answers :
      (sv : Server) (s : Session) (sinfo : SendInfo) (w : W) (text : List ℕ)
      → Downloading rest sv from s f w text
      → Answers rest from s f text (tftp_proc sv from (ack_msg s.blknum) 4 sinfo w)
  ack-Answers sv s sinfo w text d =
      let sends = make_tftpdata_msg-Sends rest laws s sv.ads f d.opened d.present w d.sendable in
      let key = get_session-key sv.seshead from.clip from.clport {t = s} d.found_session in
      rw (current_ack sv from sinfo s [] w d.found_session d.block d.unfinished) (
        send_data-Answers sv s s sinfo w text sv.ads d.opened d.present d.found_session key
          d.unfinished (rw (← d.left) sends))

  -- A client that acknowledges every block, from a block that it has, gets exactly the text that
  -- was still to be sent, and no more messages are needed than there are blocks, the short one
  -- included. The session is not finished, its buffer is well formed, and its file is open, is
  -- there, and reads without error.
  pub fetch_lem :
      (fuel : ℕ) (sv : Server) (s : Session) (sinfo : SendInfo) (w : W) (text : List ℕ)
      → Downloading rest sv from s f w text
      → length text < datalen_max * fuel
      → fetch fuel sv from s.blknum sinfo w ≡ some text
  unfolding fetch
  fetch_lem zero sv s sinfo w text d enough = absurd (omega arith)
  fetch_lem (suc fuel) sv s sinfo w text d enough =
      let a = ack-Answers sv s sinfo w text d in
      let r = tftp_proc sv from (ack_msg s.blknum) 4 sinfo w in
      elim (Bool-cases (ltb (length (take datalen_max text)) datalen_max)) [
        | inl short ↦ rw (fetch, a.msg, short) (ap some (short_take text short))
        | inr whole ↦
            let (s', number, d') = a.goes_on (whole_take text whole) in
            rw
              (
                fetch,
                a.msg,
                whole,
                ← number,
                fetch_lem fuel r.server s' r.sinfo r.world (drop datalen_max text) d'
                    (left_enough text fuel (whole_take text whole) enough),
                a.msg,
              )
              (ap some (take-append-drop datalen_max text))
      ]
