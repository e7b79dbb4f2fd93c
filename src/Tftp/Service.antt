-- ===== src/Tftp/Service.antt =====
-- The event loop of src/tftp.c: `iwtftp_service`, `update_event` and `iwtftp_exit`. What `epoll_wait`,
-- `recvfrom` and `getnameinfo` give is the input of a step; an address is an opaque number.
pub mod Distinct
mod Tests
use iwtftpd.Base.{
  ℕ, suc, ◌+◌, Bool, true, false, ◌&&◌, ◌||◌, not, List, [], ◌∷◌, Option, none, some, ltb, ◌==◌,
  if◌then◌else◌, length, blit,
}
use iwtftpd.Host.{Host}
use iwtftpd.Datastore.{Iwds}
use iwtftpd.Tftp.Types.{Session, SendInfo, ipaddrlen_max}
use iwtftpd.Tftp.Sessions.{del_allsession, cleanup_session}
use iwtftpd.Tftp.Resend.{resend_allsession}
use iwtftpd.Tftp.Proc.{Server, Sender, Processed, tftp_proc}

-- `epoll_create` and `epoll_ctl` for adding and deleting; `false` and `none` are the result -1.
pub record Epoll (W : Type 0) : Type 0 where
  pub epoll_create : W → Option ℕ × W
  pub epoll_add : ℕ → ℕ → W → Bool × W
  pub epoll_del : ℕ → ℕ → W → Bool × W

-- A socket that is ready: the bytes that `recvfrom` stores, if it does not fail, the address that they
-- come from, and the numeric host and the port that `getnameinfo` finds for it, if it does not fail.
pub record Arrival : Type 0 where
  pub sock : ℕ
  pub bytes : Option (List ℕ)
  pub addr : ℕ
  pub client : Option (List ℕ × ℕ)

-- The result of `epoll_wait`.
pub data Wakeup : Type 0 where
  wait_failed timed_out : Wakeup
  ready : List Arrival → Wakeup

-- The variables of the loop that outlast a message: the server, `rbuf` and `sinfo`.
pub record Loop : Type 0 where
  pub server : Server
  pub rbuf : List ℕ
  pub sinfo : SendInfo

-- `sinfo.ses ? sinfo.ses->clsock : events[n].data.fd`
abbrev pub send_socket : Option Session → ℕ → ℕ
send_socket none sock = sock
send_socket (some s) sock = s.clsock

abbrev pub is_disabled : Option Session → Bool
is_disabled none = false
is_disabled (some s) = s.disabled

-- The number of sessions whose event is registered.
unfoldable pub count_registered : List Session → ℕ
count_registered [] = 0
count_registered (s ∷ rest) = let n = count_registered rest in if s.regevent then suc n else n

module _ {W : Type 0} ⦃h : Host W⦄ where
  -- The reply to a message, unless its session is disabled. A failure of `sendto` is only reported.
  unfoldable pub send_reply : SendInfo → ℕ → ℕ → W → W
  send_reply sinfo sock addr w =
      let (sent, w') = h.sendto (send_socket sinfo.ses sock) sinfo.msg addr w in
      if is_disabled sinfo.ses then w else w'

  -- A message from a client with a known address.
  unfoldable pub process : Loop → ℕ → ℕ → List ℕ → ℕ → ℕ → W → Loop × W
  process st sock addr clip clport rlen w =
      let from : Sender = record { sock = sock; clip = clip; clport = clport } in
      let r = tftp_proc st.server from st.rbuf rlen st.sinfo w in
      let st' : Loop = record { server = r.server; rbuf = st.rbuf; sinfo = r.sinfo } in
      let replied = send_reply r.sinfo sock addr r.world in
      if r.good then (st', replied) else (st', r.world)

  -- The body of the loop over the sockets that are ready.
  unfoldable pub receive : Loop → Arrival → W → Loop × W
  receive st a w = elim a.bytes [
    | none ↦ (st, w)
    | some bytes ↦
        let st1 : Loop = record st { rbuf = blit st.rbuf 0 bytes } in
        elim a.client [
          | none ↦ (st1, w)
          | some (clip, clport) ↦
              let processed = process st1 a.sock a.addr clip clport (length bytes) w in
              if ltb ipaddrlen_max (length clip + 1) then (st1, w) else processed
        ]
  ]

  unfoldable pub receive_all : Loop → List Arrival → W → Loop × W
  receive_all st [] w = (st, w)
  receive_all st (a ∷ rest) w = let (st', w') = receive st a w in receive_all st' rest w'

  -- What is done after every wakeup: `resend_allsession`, and then `cleanup_session`.
  unfoldable pub resent : Loop → W → Loop × W
  resent st w =
      let (ss1, ds1, w1) = resend_allsession st.server.seshead st.server.ads w in
      (record st { server = record { seshead = ss1; ads = ds1 } }, w1)

  -- `none` where the source reads a session that it has freed.
  unfoldable pub cleaned : Loop → W → Option (Loop × W)
  cleaned st w = elim (cleanup_session st.server.seshead w) [
    | none ↦ none
    | some (ss, w') ↦ some (record st { server = record st.server { seshead = ss } }, w')
  ]

  unfoldable pub close_sockets : List ℕ → W → W
  close_sockets [] w = w
  close_sockets (sock ∷ rest) w = close_sockets rest (h.close sock w)

  -- `svsocks` holds the entries that are not -1.
  unfoldable pub iwtftp_exit : List Session → List ℕ → W → W
  iwtftp_exit ss svsocks w = close_sockets svsocks (del_allsession ss w)

  module _ (epoll : Epoll W) (epollfd : ℕ) where
    -- The first loop of `update_event` for a session: whether it went without an error. The flag is
    -- changed also where `epoll_ctl` fails.
    unfoldable pub update_one : Session → W → Bool × Session × W
    update_one s w =
        let (added, w1) = epoll.epoll_add epollfd s.clsock w in
        let (deleted, w2) = epoll.epoll_del epollfd s.clsock w in
        if s.disabled
        then (if s.regevent then (deleted, record s { regevent = false }, w2) else (true, s, w))
        else if s.regevent
        then (true, s, w)
        else (added, record s { regevent = true }, w1)

    unfoldable pub update_all : List Session → W → Bool × List Session × W
    update_all [] w = (true, [], w)
    update_all (s ∷ rest) w =
        let (done, s', w1) = update_one s w in
        let (all_done, rest', w2) = update_all rest w1 in (done && all_done, s' ∷ rest', w2)

    -- `none` is IW_ERR.
    unfoldable pub update_event : List Session → W → Option ℕ × List Session × W
    update_event ss w =
        let (done, ss', w') = update_all ss w in
        (if done then some (count_registered ss') else none, ss', w')

    -- A turn of the event loop up to `resend_allsession`. The result of `update_event` is only
    -- reported.
    unfoldable pub served : Loop → Wakeup → W → Loop × W
    served st wait_failed w = (st, w)
    served st timed_out w = (st, w)
    served st (ready arrivals) w =
        let (st1, w1) = receive_all st arrivals w in
        let (nevents, ss, w2) = update_event st1.server.seshead w1 in
        (record st1 { server = record st1.server { seshead = ss } }, w2)

    -- A turn up to the call of `cleanup_session`, and the whole turn.
    unfoldable pub before_cleanup : Loop → Wakeup → W → Loop × W
    before_cleanup st e w = let (st1, w1) = served st e w in resent st1 w1

    unfoldable pub turn : Loop → Wakeup → W → Option (Loop × W)
    turn st e w = let (st1, w1) = before_cleanup st e w in cleaned st1 w1

    -- The loop, which ends when `g_evloop_exit` is set: the wakeups until then.
    unfoldable pub event_loop : Loop → List Wakeup → W → Option (Loop × W)
    event_loop st [] w = some (st, w)
    event_loop st (e ∷ rest) w = elim (turn st e w) [
      | none ↦ none
      | some (st', w') ↦ event_loop st' rest w'
    ]

    -- The server sockets that are watched, and how many.
    unfoldable pub watch_all : List ℕ → W → ℕ × W
    watch_all [] w = (0, w)
    watch_all (sock ∷ rest) w =
        let (added, w1) = epoll.epoll_add epollfd sock w in
        let (n, w2) = watch_all rest w1 in if added then (suc n, w2) else (n, w2)

  -- The end of `iwtftp_service`.
  unfoldable pub shut_down : List Session → Option ℕ → List ℕ → W → W
  shut_down ss none svsocks w = close_sockets svsocks (del_allsession ss w)
  shut_down ss (some epollfd) svsocks w =
      close_sockets svsocks (h.close epollfd (del_allsession ss w))

  -- The Boolean is `true` for IW_OK; the datastore is returned with the files that are still open.
  -- `none` where the source reads a session that it has freed.
  unfoldable pub iwtftp_service :
      Epoll W → Loop → List ℕ → List Wakeup → W → Option (Bool × Iwds × W)
  iwtftp_service epoll st svsocks wakeups w =
      let (created, w1) = epoll.epoll_create w in
      let ads = st.server.ads in
      elim created [
        | none ↦ some (false, ads, shut_down st.server.seshead none svsocks w1)
        | some epollfd ↦
            let (nevents, w2) = watch_all epoll epollfd svsocks w1 in
            let looped : Option (Bool × Iwds × W) = elim (event_loop epoll epollfd st wakeups w2) [
              | none ↦ none
              | some (st', w3) ↦
                  some
                    (true, st'.server.ads, shut_down st'.server.seshead (some epollfd) svsocks w3)
            ] in
            if nevents == 0
            then some (false, ads, shut_down st.server.seshead (some epollfd) svsocks w2)
            else looped
      ]
