-- ===== src/Tftp/Proc/Local.antt =====
-- What each part of `tftp_proc` of src/tftp.c does to the session list: it changes the session of one
-- client only.
use iwtftpd.Base.{
  ℕ, ◌+◌, ◌≤◌, ◌≡◌, refl, sym, ◌∙◌, true, List, ◌∷◌, Option, none, some, ltb, length, take_all,
  Bool-cases, Option-cases, inl, inr,
}
use iwtftpd.Host.{Host}
use iwtftpd.Datastore.{Iwds}
use iwtftpd.Tftp.Types.{
  Session, SendInfo, TftpError, seemsg, msglen_max, datalen_max, resend_countmax,
}
use iwtftpd.Tftp.Transfer.{Moved, moved, io_error, stuck, get_session_data}
use iwtftpd.Tftp.Message.{
  Made, next_block, finish_data, make_tftpdata_msg, make_tftpack_msg, make_tftperr_msg,
}
use iwtftpd.Tftp.Sessions.{get_session, put_back, add_newsession, create_socket, client_session}
use iwtftpd.Tftp.Sessions.Keys.{
  OtherClient, IsUnique, get-put_back_ne, put_back-IsUnique, get-cons_ne,
}
use iwtftpd.Tftp.Proc.{Server, errsend, resend, send_data, send_ack, server_error}

-- The session is that of the client.
abbrev pub HasKey : List ℕ → ℕ → Session → Type 0
HasKey ip port s = (s.clip ≡ ip) × (s.clport ≡ port)

abbrev pub HasKey? : List ℕ → ℕ → Option Session → Type 0
HasKey? ip port none = Unit {0}
HasKey? ip port (some s) = HasKey ip port s

-- The list changes for one client only.
pub record Local (ip : List ℕ) (port : ℕ) (ss ss' : List Session) : Type 0 where
  pub unique : IsUnique ss → IsUnique ss'
  pub others :
      (ip' : List ℕ) (port' : ℕ)
      → OtherClient ip port ip' port'
      → get_session ss' ip' port' ≡ get_session ss ip' port'

pub same-Local : (ip : List ℕ) (port : ℕ) (ss : List Session) → Local ip port ss ss
same-Local ip port ss = record { unique = λ u. u; others = λ ip' port' ne. refl }

pub then-Local :
    {ip : List ℕ} {port : ℕ} {a b c : List Session}
    → Local ip port a b
    → Local ip port b c
    → Local ip port a c
then-Local p q = record {
  unique = λ u. q.unique (p.unique u);
  others = λ ip' port' ne. q.others ip' port' ne ∙ p.others ip' port' ne;
}

pub put_back-Local :
    {ip : List ℕ} {port : ℕ} (s : Session) (ss : List Session)
    → HasKey ip port s
    → Local ip port ss (put_back s ss)
put_back-Local s ss k = record {
  unique = λ u. put_back-IsUnique s ss u;
  others =
      λ ip' port' ne. get-put_back_ne s ss ip' port' (λ e. ne (sym (k.0) ∙ e.0, sym (k.1) ∙ e.1));
}

pub cons-Local :
    {ip : List ℕ} {port : ℕ} (s : Session) (ss : List Session)
    → get_session ss ip port ≡ none
    → HasKey ip port s
    → Local ip port ss (s ∷ ss)
cons-Local s ss free k = record {
  unique = λ u. (rw (k.0, k.1) free, u);
  others = λ ip' port' ne. get-cons_ne s ss ip' port' (λ e. ne (sym (k.0) ∙ e.0, sym (k.1) ∙ e.1));
}

-- What `add_newsession` returns: a new list, and a session of the client if it succeeds.
pub record Adds {W : Type 0} (ip : List ℕ) (port : ℕ) (ss : List Session)
    (r : Option Session × List Session × W) : Type 0 where
  pub local : Local ip port ss (r.1)
  pub key : HasKey? ip port (r.0)

module _ {W : Type 0} ⦃h : Host W⦄ {ip : List ℕ} {port : ℕ} where
  pub errsend-Local :
      (sv : Server) (s : Option Session) (e : TftpError) (emsg : List ℕ) (sinfo : SendInfo) (w : W)
      → HasKey? ip port s
      → Local ip port sv.seshead (errsend sv s e emsg sinfo w).server.seshead
  unfolding errsend
  errsend-Local sv none e emsg sinfo w k =
      elim (Option-cases (make_tftperr_msg e msglen_max emsg)) [
        | inl absent ↦ rw (absent, errsend) (same-Local ip port sv.seshead)
        | inr (msg, made) ↦ rw (made, errsend) (same-Local ip port sv.seshead)
      ]
  errsend-Local sv (some s) e emsg sinfo w k =
      let over = put_back-Local (record s { fin = true }) sv.seshead k in
      elim (Option-cases (make_tftperr_msg e msglen_max emsg)) [
        | inl absent ↦ rw (absent, errsend) over
        | inr (msg, made) ↦ rw (made, errsend) over
      ]

  pub resend-Local :
      (sv : Server) (s : Session) (sinfo : SendInfo) (w : W)
      → HasKey ip port s
      → Local ip port sv.seshead (resend sv s sinfo w).server.seshead
  unfolding resend
  resend-Local sv s sinfo w k = elim (Bool-cases (ltb s.retrycount resend_countmax)) [
    | inl few ↦ rw few (
        put_back-Local (record s { lastsending = h.time w; retrycount = s.retrycount + 1 })
          sv.seshead k)
    | inr many ↦ rw many (put_back-Local (record s { disabled = true }) sv.seshead k)
  ]

  pub finish_data-HasKey :
      (s : Session) (len : ℕ) (payload : List ℕ) (ds : Iwds) (w : W)
      → HasKey ip port s
      → HasKey ip port (finish_data s len payload ds w).ses
  unfolding finish_data
  finish_data-HasKey s len payload ds w k = elim (Bool-cases (ltb len datalen_max)) [
    | inl short ↦ rw short k
    | inr whole ↦ rw whole k
  ]

  pub Moved-HasKey :
      (s : Session) (m : Moved) (ds : Iwds) (w : W)
      → HasKey ip port s
      → let failure : Made W = record { msg = none; ses = s; ds = ds; world = w } in
        let r : Made W = elim m [
          | moved len payload ↦ finish_data s len payload ds w
          | io_error ↦ failure
          | stuck ↦ failure
        ] in
        HasKey ip port r.ses
  Moved-HasKey s (moved len payload) ds w k = finish_data-HasKey s len payload ds w k
  Moved-HasKey s io_error ds w k = k
  Moved-HasKey s stuck ds w k = k

  pub make_tftpdata_msg-HasKey :
      (s : Session) (ds : Iwds) (w : W)
      → HasKey ip port s
      → HasKey ip port (make_tftpdata_msg s ds msglen_max w).ses
  unfolding make_tftpdata_msg
  make_tftpdata_msg-HasKey s ds w k =
      let s1 = record s { blknum = next_block s.blknum } in
      let t = get_session_data s1 ds datalen_max w in
      Moved-HasKey (record s1 { sesbuf = t.buf }) t.result t.ds t.world k

  pub send_data-Local :
      (sv : Server) (s : Session) (sinfo : SendInfo) (w : W)
      → HasKey ip port s
      → Local ip port sv.seshead (send_data sv s sinfo w).server.seshead
  unfolding send_data
  send_data-Local sv s sinfo w k =
      let m = make_tftpdata_msg s sv.ads msglen_max w in
      let sv' : Server = record { seshead = put_back m.ses sv.seshead; ads = m.ds } in
      let key = make_tftpdata_msg-HasKey s sv.ads w k in
      let stored = put_back-Local m.ses sv.seshead key in
      elim (Option-cases m.msg) [
        | inl absent ↦
            rw (absent, send_data)
              (then-Local stored
                (errsend-Local sv' (some m.ses) seemsg server_error sinfo m.world key))
        | inr (msg, made) ↦ rw (made, send_data) stored
      ]

  pub send_ack-Local :
      (sv : Server) (s : Session) (blk : ℕ) (sinfo : SendInfo) (w : W)
      → HasKey ip port s
      → Local ip port sv.seshead (send_ack sv s blk sinfo w).server.seshead
  unfolding send_ack make_tftpack_msg
  send_ack-Local sv s blk sinfo w k =
      put_back-Local (make_tftpack_msg s blk msglen_max w).1 sv.seshead k

  pub add_newsession-Adds :
      (ss : List Session) (svsock : ℕ) (file mode : List ℕ) (w : W)
      → get_session ss ip port ≡ none
      → length ip ≤ 61
      → Adds ip port ss (add_newsession ss svsock ip port file mode w)
  unfolding add_newsession
  add_newsession-Adds ss svsock file mode w free fits =
      let node : Session = client_session ip port file mode in
      let (ok1, w1) = h.malloc 912 w in
      let (ok2, w2) = h.malloc 8216 w1 in
      elim (Bool-cases ok1) [
        | inr no_node ↦ rw no_node (unchanged w1)
        | inl node_ok ↦ elim (Bool-cases ok2) [
          | inr no_buf ↦ rw (node_ok, no_buf) (unchanged w2)
          | inl buf_ok ↦ elim (Option-cases (h.getsockname svsock w2)) [
            | inl nameless ↦ rw (node_ok, buf_ok, nameless) (left_over w2)
            | inr (addr, named) ↦ elim (Option-cases (h.getnameinfo addr w2)) [
              | inl nameless ↦ rw (node_ok, buf_ok, named, nameless) (left_over w2)
              | inr (host, resolved) ↦
                  let (made, w3) = create_socket (h.family_of addr) host none w2 in
                  elim (Option-cases made) [
                    | inl unmade ↦ rw (node_ok, buf_ok, named, resolved, unmade) (left_over w3)
                    | inr (sock, socketed) ↦
                        rw (node_ok, buf_ok, named, resolved, socketed) (ready sock w3)
                  ]
            ]
          ]
        ]
      ]
    where
      key : HasKey ip port (client_session ip port file mode)
      key = (take_all 61 ip fits, refl)

      unchanged : (w' : W) → Adds ip port ss (none, ss, w')
      unchanged w' = record { local = same-Local ip port ss; key = tt }

      left_over : (w' : W) → Adds ip port ss (none, client_session ip port file mode ∷ ss, w')
      left_over w' = record { local = cons-Local _ ss free key; key = tt }

      ready :
          (sock : ℕ) (w' : W)
          → let s : Session = record (client_session ip port file mode) { clsock = sock } in
            Adds ip port ss (some s, s ∷ ss, w')
      ready sock w' = record { local = cons-Local _ ss free key; key = key }
