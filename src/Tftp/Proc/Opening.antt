-- ===== src/Tftp/Proc/Opening.antt =====
-- What `tftp_proc` of src/tftp.c does for a client without a session.
use iwtftpd.Base.{
  ℕ, ◌≡◌, ◌≢◌, ◌⊎◌, refl, List, [], none, some, ◌==◌, load16, arith, Bool-cases, Option-cases, inl,
  inr,
}
use iwtftpd.Host.{Host}
use iwtftpd.Datastore.{Check, found, missing, failed, iwds_isfile}
use iwtftpd.Tftp.Types.{
  SendInfo, TftpError, unknownid, illegalope, notfound, fileexist, op_rrq, op_wrq, op_data, op_ack,
  op_error,
}
use iwtftpd.Tftp.Parse.{TftpReq, parse_tftpreq}
use iwtftpd.Tftp.Message.Shape.{make_tftperr_msg_lem}
use iwtftpd.Tftp.Sessions.{get_session}
use iwtftpd.Tftp.Proc.{Server, Sender, errsend, on_request, on_data, on_ack, on_error, tftp_proc}

Check-cases : (c : Check) → (c ≡ found) ⊎ ((c ≡ missing) ⊎ (c ≡ failed))
Check-cases found = inl refl
Check-cases missing = inr (inl refl)
Check-cases failed = inr (inr refl)

module _ {W : Type 0} ⦃h : Host W⦄ (sv : Server) (from : Sender) (sinfo : SendInfo) where
  -- A well-formed request to read a file that is not missing, or to write one that is not there. A
  -- check of the file that fails says neither.
  pub record MayOpen (rbuf : List ℕ) (rlen : ℕ) (w : W) : Type 0 where
    pub req : TftpReq
    pub parsed : parse_tftpreq rbuf rlen ≡ some req
    pub allowed :
        ((load16 rbuf 0 ≡ op_rrq) × ((iwds_isfile sv.ads req.filename w).0 ≢ missing))
        ⊎ ((load16 rbuf 0 ≡ op_wrq) × ((iwds_isfile sv.ads req.filename w).0 ≢ found))

  errsend-server : (e : TftpError) (w : W) → (errsend sv none e [] sinfo w).server ≡ sv
  unfolding errsend
  errsend-server e w = rw (make_tftperr_msg_lem e [] (omega arith), errsend) refl

  on_request_lem :
      (rbuf : List ℕ) (rlen : ℕ) (w : W)
      → (load16 rbuf 0 ≡ op_rrq) ⊎ (load16 rbuf 0 ≡ op_wrq)
      → ((on_request sv none from (load16 rbuf 0) rbuf rlen sinfo w).server ≡ sv)
        ⊎ MayOpen rbuf rlen w
  unfolding on_request
  on_request_lem rbuf rlen w o = elim (Option-cases (parse_tftpreq rbuf rlen)) [
    | inl bad ↦ inl (rw (bad, on_request) (errsend-server illegalope w))
    | inr (req, parsed) ↦
        let (check, w1) = iwds_isfile sv.ads req.filename w in
        elim o [
          | inl rrq ↦ elim (Check-cases check) [
            | inl there ↦ inr (record { req = req; parsed = parsed; allowed = inl (rrq, λ e. cc) })
            | inr (inl absent) ↦
                inl (rw (parsed, on_request, absent, rrq) (errsend-server notfound w1))
            | inr (inr fails) ↦
                inr (record { req = req; parsed = parsed; allowed = inl (rrq, λ e. cc) })
          ]
          | inr wrq ↦ elim (Check-cases check) [
            | inl there ↦ inl (rw (parsed, on_request, there, wrq) (errsend-server fileexist w1))
            | inr (inl absent) ↦
                inr (record { req = req; parsed = parsed; allowed = inr (wrq, λ e. cc) })
            | inr (inr fails) ↦
                inr (record { req = req; parsed = parsed; allowed = inr (wrq, λ e. cc) })
          ]
        ]
  ]

  -- Whatever message a client without a session sends, and whatever the host answers, the session
  -- list and the datastore stay as they are, unless the message is a well-formed request to read a file
  -- that is not missing, or to write one that is not there.
  pub tftp_proc-opens :
      (rbuf : List ℕ) (rlen : ℕ) (w : W)
      → get_session sv.seshead from.clip from.clport ≡ none
      → ((tftp_proc sv from rbuf rlen sinfo w).server ≡ sv) ⊎ MayOpen rbuf rlen w
  unfolding tftp_proc on_data on_ack on_error
  tftp_proc-opens rbuf rlen w e =
      let opcode = load16 rbuf 0 in
      elim (Bool-cases (opcode == op_rrq)) [
        | inl r ↦
            let is : opcode ≡ op_rrq = ground arith in
            rw (tftp_proc, e, r) (on_request_lem rbuf rlen w (inl is))
        | inr r ↦ elim (Bool-cases (opcode == op_wrq)) [
          | inl q ↦
              let is : opcode ≡ op_wrq = ground arith in
              rw (tftp_proc, e, r, q) (on_request_lem rbuf rlen w (inr is))
          | inr q ↦ elim (Bool-cases (opcode == op_data)) [
            | inl d ↦ inl (rw (tftp_proc, e, r, q, d, on_data) (errsend-server unknownid w))
            | inr d ↦ elim (Bool-cases (opcode == op_ack)) [
              | inl a ↦ inl (rw (tftp_proc, e, r, q, d, a, on_ack) (errsend-server unknownid w))
              | inr a ↦ elim (Bool-cases (opcode == op_error)) [
                | inl g ↦ inl (rw (tftp_proc, e, r, q, d, a, g, on_error) refl)
                | inr g ↦ inl (rw (tftp_proc, e, r, q, d, a, g) refl)
              ]
            ]
          ]
        ]
      ]
