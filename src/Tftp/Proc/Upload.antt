-- ===== src/Tftp/Proc/Upload.antt =====
-- A whole upload in octet mode through `tftp_proc` of src/tftp.c.
use iwtftpd.Base.{
  ℕ, zero, suc, ◌+◌, ◌*◌, ◌<◌, ◌≡◌, refl, sym, ap, ◌∙◌, List, ◌++◌, Option, none, some, ltb,
  if◌then◌else◌, length, take, drop, str_eq, str_eq_refl, arith, ltb→le, Bool-cases, inl, inr,
  append_assoc, take-append-drop,
}
use iwtftpd.Host.{Host}
use iwtftpd.Datastore.{Dsession, get_dsession}
use iwtftpd.Datastore.Sessions
use iwtftpd.Tftp.Types.{Session, SendInfo, datalen_max}
use iwtftpd.Tftp.Transfer.Accept.{Sinks}
use iwtftpd.Tftp.Parse.Format.{ack_msg}
use iwtftpd.Tftp.Message.{next_block}
use iwtftpd.Tftp.Message.Shape.{data_msg}
use iwtftpd.Tftp.Proc.{Server, Sender, tftp_proc}
use iwtftpd.Tftp.Proc.Download.{left_enough}
use iwtftpd.Tftp.Proc.Block.{Uploading, full_size, short_size, all_of, whole_block, short_block}

module _ {W : Type 0} ⦃h : Host W⦄ where
  -- A client that has had the block `blk` acknowledged sends the next block of `text`, and so on until
  -- a block is short: the state after it, or `none` if a block is not acknowledged, or if more messages
  -- are needed than `fuel`.
  unfoldable pub store : ℕ → Server → Sender → ℕ → List ℕ → SendInfo → W → Option (Server × W)
  store zero sv from blk text sinfo w = none
  store (suc fuel) sv from blk text sinfo w =
      let next = next_block blk in
      let payload = take datalen_max text in
      let r = tftp_proc sv from (data_msg next payload) (4 + length payload) sinfo w in
      let more = store fuel r.server from next (drop datalen_max text) r.sinfo r.world in
      if str_eq r.sinfo.msg (ack_msg next)
      then if ltb (length text) datalen_max then some (r.server, r.world) else more
      else none

module _ {W : Type 0} ⦃h : Host W⦄ (wrote : ℕ → W → List ℕ) (laws : Sinks h wrote)
    (closes : (fp : ℕ) (w : W) → wrote fp (h.fclose fp w).1 ≡ wrote fp w) (from : Sender)
    (f : Dsession) where
  -- If a client sends a text in blocks to a session in octet mode that is not finished, has a well-
  -- formed buffer with room, and has a file open that takes every write, and if closing keeps what
  -- was written and the files of the datastore have distinct keys, then every block is
  -- acknowledged, no more messages are needed than there are blocks, and afterwards the file holds
  -- what the client had sent before and the text, and is closed.
  pub store_lem :
      (fuel : ℕ) (sv : Server) (s : Session) (sinfo : SendInfo) (w : W) (text so_far : List ℕ)
      → Uploading wrote sv from s f w so_far
      → Sessions.IsUnique sv.ads.dhead
      → length text < datalen_max * fuel
      → (sv' : Server) × (w' : W) × (store fuel sv from s.blknum text sinfo w ≡ some (sv', w'))
        × (wrote f.fp w' ≡ so_far ++ text)
        × (get_dsession sv'.ads.dhead s.clsock s.filename ≡ none)
  unfolding store
  store_lem zero sv s sinfo w text so_far u unique enough = absurd (omega arith)
  store_lem (suc fuel) sv s sinfo w text so_far u unique enough =
      let blk = next_block s.blknum in
      let payload = take datalen_max text in
      let r = tftp_proc sv from (data_msg blk payload) (4 + length payload) sinfo w in
      let same = str_eq_refl (ack_msg blk) in
      elim (Bool-cases (ltb (length text) datalen_max)) [
        | inl short ↦
            let (m, all, c) =
              short_block wrote laws closes from f sv s sinfo w payload so_far u unique
                (short_size text short) in
            (
              r.server,
              r.world,
              rw (store, m, same, short) refl,
              all ∙ ap (◌++◌ so_far) (all_of text short),
              c,
            )
        | inr whole ↦
            let (m, ads, goes_on) =
              whole_block wrote laws closes from f sv s sinfo w payload so_far u
                (full_size text whole) in
            let (s', number, sock, file, u') = goes_on in
            let at_number : ℕ → Option (Server × W) =
              λ b. store fuel r.server from b (drop datalen_max text) r.sinfo r.world in
            let unique' : Sessions.IsUnique r.server.ads.dhead = rw ads unique in
            let (sv', w', e, all, c) =
              store_lem fuel r.server s' r.sinfo r.world (drop datalen_max text) (so_far ++ payload)
                u' unique'
                (left_enough text fuel (ltb→le (length text) datalen_max whole) enough) in
            (
              sv',
              w',
              rw (store, m, same, whole) (ap at_number (sym number) ∙ e),
              all
                  ∙ append_assoc so_far payload (drop datalen_max text)
                  ∙ ap (◌++◌ so_far) (take-append-drop datalen_max text),
              ap (λ k. get_dsession sv'.ads.dhead k s.filename) (sym sock)
                  ∙ ap (get_dsession sv'.ads.dhead s'.clsock) (sym file)
                  ∙ c,
            )
      ]
