-- ===== src/Tftp/Service/Distinct.antt =====
-- The clients of the session list in the event loop of src/tftp.c.
use iwtftpd.Base.{
  ℕ, ◌+◌, ◌-◌, ◌≤◌, ◌≡◌, refl, sym, ap, ◌∙◌, ◌||◌, true, List, [], ◌∷◌, ◌++◌, Option, none,
  if◌then◌else◌, some, ltb, leb, length, blit, arith, Bool-cases, Option-cases, inl, inr, ltb→le,
}
use mathlib.Core.Path.{subst}
use iwtftpd.Host.{Host}
use iwtftpd.Datastore.{Iwds}
use iwtftpd.Tftp.Types.{Session, ipaddrlen_max, resend_interval, resend_countmax}
use iwtftpd.Tftp.Sessions.{is_client, get_session}
use iwtftpd.Tftp.Sessions.Keys.{IsUnique}
use iwtftpd.Tftp.Sessions.Cleanup.{any_over, cleanup_session_lem}
use iwtftpd.Tftp.Resend.{send_again, resend_one, resend_allsession}
use iwtftpd.Tftp.Proc.{Sender, tftp_proc}
use iwtftpd.Tftp.Proc.Keeps.{tftp_proc-IsUnique}
use iwtftpd.Tftp.Service.{
  Epoll, Arrival, Wakeup, wait_failed, timed_out, ready, Loop, process, receive, receive_all,
  resent, cleaned, served, before_cleanup, update_one, update_all, update_event, turn, event_loop,
}

-- The sessions of two lists have the same clients, in order.
abbrev pub SameClients : List Session → List Session → Type 0
SameClients [] [] = Unit {0}
SameClients [] (t ∷ ts) = ⊥
SameClients (s ∷ ss) [] = ⊥
SameClients (s ∷ ss) (t ∷ ts) = (t.clip ≡ s.clip) × (t.clport ≡ s.clport) × SameClients ss ts

same_client :
    (s t : Session) (ip : List ℕ) (port : ℕ)
    → t.clip ≡ s.clip
    → t.clport ≡ s.clport
    → is_client ip port t ≡ is_client ip port s
unfolding is_client
same_client s t ip port c p = rw (c, p) refl

none_stays :
    (ss ts : List Session) (ip : List ℕ) (port : ℕ)
    → SameClients ss ts
    → get_session ss ip port ≡ none
    → get_session ts ip port ≡ none
unfolding get_session
none_stays [] [] ip port k e = refl
none_stays [] (t ∷ ts) ip port k e = absurd k
none_stays (s ∷ ss) [] ip port k e = refl
none_stays (s ∷ ss) (t ∷ ts) ip port (c, p, k) e =
    let same = same_client s t ip port c p in
    elim (Bool-cases (is_client ip port s)) [
      | inl hit ↦ absurd (found_some s (sym (rw hit refl) ∙ e))
      | inr miss ↦ rw (same, miss) (none_stays ss ts ip port k (sym (rw miss refl) ∙ e))
    ]
  where
    found_some : (u : Session) → some u ≡ none → ⊥
    found_some u e = cc

SameClients-IsUnique : (ss ts : List Session) → SameClients ss ts → IsUnique ss → IsUnique ts
SameClients-IsUnique [] [] k u = tt
SameClients-IsUnique [] (t ∷ ts) k u = absurd k
SameClients-IsUnique (s ∷ ss) [] k u = tt
SameClients-IsUnique (s ∷ ss) (t ∷ ts) (c, p, k) u =
    (rw (c, p) (none_stays ss ts s.clip s.clport k (u.0)), SameClients-IsUnique ss ts k u.1)

-- The session has its client still.
abbrev KeepsClient : Session → Session → Type 0
KeepsClient s t = (t.clip ≡ s.clip) × (t.clport ≡ s.clport)

module _ {W : Type 0} ⦃h : Host W⦄ where
  resend_one-KeepsClient : (s : Session) (ds : Iwds) (w : W) → KeepsClient s (resend_one s ds w).0
  unfolding resend_one send_again
  resend_one-KeepsClient s ds w =
      elim (Bool-cases (leb (h.time w - s.lastsending) resend_interval)) [
        | inl early ↦ simp (resend_one, early) (refl, refl)
        | inr late ↦ elim (Bool-cases (s.fin || s.disabled)) [
          | inl over ↦ simp (resend_one, late, over) (refl, refl)
          | inr live ↦ elim (Bool-cases (leb resend_countmax s.retrycount)) [
            | inl spent ↦ simp (resend_one, late, live, spent) (refl, refl)
            | inr tries ↦ elim (Option-cases (h.getsockname s.clsock w)) [
              | inl unnamed ↦ simp (resend_one, late, live, tries, send_again, unnamed) (refl, refl)
              | inr (addr, named) ↦
                  simp (resend_one, late, live, tries, send_again, named) (refl, refl)
            ]
          ]
        ]
      ]

  resend_allsession-SameClients :
      (ss : List Session) (ds : Iwds) (w : W) → SameClients ss (resend_allsession ss ds w).0
  unfolding resend_allsession
  resend_allsession-SameClients [] ds w = tt
  resend_allsession-SameClients (s ∷ rest) ds w =
      let (c, p) = resend_one-KeepsClient s ds w in
      let (s', ds1, w1) = resend_one s ds w in (c, p, resend_allsession-SameClients rest ds1 w1)

  resent-IsUnique :
      (st : Loop) (w : W) → IsUnique st.server.seshead → IsUnique (resent st w).0.server.seshead
  unfolding resent
  resent-IsUnique st w u =
      let (ss1, ds1, w1) = resend_allsession st.server.seshead st.server.ads w in
      SameClients-IsUnique st.server.seshead ss1
        (resend_allsession-SameClients st.server.seshead st.server.ads w) u

  cleaned_lem :
      (st : Loop) (w : W)
      → IsUnique st.server.seshead
      → cleaned st w ≡ (if any_over st.server.seshead w then none else some (st, w))
  unfolding cleaned
  cleaned_lem st w u =
      rw (cleanup_session_lem st.server.seshead w u, cleaned)
        (elim (Bool-cases (any_over st.server.seshead w)) [ inl t ↦ rw t refl | inr t ↦ rw t refl ])

  process-IsUnique :
      (st : Loop) (sock addr : ℕ) (clip : List ℕ) (clport rlen : ℕ) (w : W)
      → length clip ≤ 61
      → IsUnique st.server.seshead
      → IsUnique (process st sock addr clip clport rlen w).0.server.seshead
  unfolding process
  process-IsUnique st sock addr clip clport rlen w fits u =
      let from : Sender = record { sock = sock; clip = clip; clport = clport } in
      let r = tftp_proc st.server from st.rbuf rlen st.sinfo w in
      let unique = tftp_proc-IsUnique st.server from st.rbuf rlen st.sinfo w fits u in
      elim (Bool-cases r.good) [
        | inl good ↦ rw (process, good) unique
        | inr bad ↦ rw (process, bad) unique
      ]

  receive-IsUnique :
      (st : Loop) (a : Arrival) (w : W)
      → IsUnique st.server.seshead
      → IsUnique (receive st a w).0.server.seshead
  unfolding receive
  receive-IsUnique st a w u = elim (Option-cases a.bytes) [
    | inl failed ↦ rw (receive, failed) u
    | inr (bytes, got) ↦ elim (Option-cases a.client) [
      | inl unknown ↦ rw (receive, got, unknown) u
      | inr (client, known) ↦ elim (Bool-cases (ltb ipaddrlen_max (length client.0 + 1))) [
        | inl long ↦ rw (receive, got, known, long) u
        | inr fits ↦
            rw (receive, got, known, fits)
              (process-IsUnique (record st { rbuf = blit st.rbuf 0 bytes }) a.sock a.addr client.0
                client.1 (length bytes) w
                (omega (arith, ltb→le ipaddrlen_max (length client.0 + 1) fits)) u)
      ]
    ]
  ]

  receive_all-IsUnique :
      (st : Loop) (arrivals : List Arrival) (w : W)
      → IsUnique st.server.seshead
      → IsUnique (receive_all st arrivals w).0.server.seshead
  unfolding receive_all
  receive_all-IsUnique st [] w u = u
  receive_all-IsUnique st (a ∷ arrivals) w u =
      let (st', w') = receive st a w in
      receive_all-IsUnique st' arrivals w' (receive-IsUnique st a w u)

  module _ (epoll : Epoll W) (epollfd : ℕ) where
    update_one-KeepsClient : (s : Session) (w : W) → KeepsClient s (update_one epoll epollfd s w).1
    unfolding update_one
    update_one-KeepsClient s w = elim (Bool-cases s.disabled) [
      | inl off ↦ elim (Bool-cases s.regevent) [
        | inl known ↦ simp (update_one, off, known) (refl, refl)
        | inr unknown ↦ simp (update_one, off, unknown) (refl, refl)
      ]
      | inr on ↦ elim (Bool-cases s.regevent) [
        | inl known ↦ simp (update_one, on, known) (refl, refl)
        | inr unknown ↦ simp (update_one, on, unknown) (refl, refl)
      ]
    ]

    update_all-SameClients :
        (ss : List Session) (w : W) → SameClients ss (update_all epoll epollfd ss w).1
    unfolding update_all
    update_all-SameClients [] w = tt
    update_all-SameClients (s ∷ rest) w =
        let (c, p) = update_one-KeepsClient s w in
        let (done, s', w1) = update_one epoll epollfd s w in (c, p, update_all-SameClients rest w1)

    served-IsUnique :
        (st : Loop) (e : Wakeup) (w : W)
        → IsUnique st.server.seshead
        → IsUnique (served epoll epollfd st e w).0.server.seshead
    unfolding served update_event
    served-IsUnique st wait_failed w u = u
    served-IsUnique st timed_out w u = u
    served-IsUnique st (ready arrivals) w u =
        let (st1, w1) = receive_all st arrivals w in
        let (done, ss, w2) = update_all epoll epollfd st1.server.seshead w1 in
        SameClients-IsUnique st1.server.seshead ss (update_all-SameClients st1.server.seshead w1)
          (receive_all-IsUnique st arrivals w u)

    before_cleanup-IsUnique :
        (st : Loop) (e : Wakeup) (w : W)
        → IsUnique st.server.seshead
        → IsUnique (before_cleanup epoll epollfd st e w).0.server.seshead
    unfolding before_cleanup
    before_cleanup-IsUnique st e w u =
        let (st1, w1) = served epoll epollfd st e w in
        resent-IsUnique st1 w1 (served-IsUnique st e w u)

    turn_lem :
        (st : Loop) (e : Wakeup) (w : W)
        → IsUnique st.server.seshead
        → let (st1, w1) = before_cleanup epoll epollfd st e w in
          turn epoll epollfd st e w
          ≡ (if any_over st1.server.seshead w1 then none else some (st1, w1))
    unfolding turn
    turn_lem st e w u =
        let (st1, w1) = before_cleanup epoll epollfd st e w in
        cleaned_lem st1 w1 (before_cleanup-IsUnique st e w u)

    -- The loop got through some of its wakeups, and in the turn of the next one a session of the list
    -- was over when `cleanup_session` was called.
    pub record StopsAtOver (st : Loop) (wakeups : List Wakeup) (w : W) : Type 0 where
      pub before : List Wakeup
      pub e : Wakeup
      pub after : List Wakeup
      pub split : wakeups ≡ before ++ (e ∷ after)
      pub st1 : Loop
      pub w1 : W
      pub ran : event_loop epoll epollfd st before w ≡ some (st1, w1)
      pub distinct : IsUnique st1.server.seshead
      pub over :
          any_over
            (before_cleanup epoll epollfd st1 e w1).0.server.seshead
            (before_cleanup epoll epollfd st1 e w1).1
          ≡ true

    -- What the loop may end with.
    abbrev pub Ends : Loop → List Wakeup → W → Option (Loop × W) → Type 0
    Ends st wakeups w none = StopsAtOver st wakeups w
    Ends st wakeups w (some (st', w')) = IsUnique st'.server.seshead

    event_loop-step :
        (st st' : Loop) (e : Wakeup) (rest : List Wakeup) (w w' : W)
        → turn epoll epollfd st e w ≡ some (st', w')
        → event_loop epoll epollfd st (e ∷ rest) w ≡ event_loop epoll epollfd st' rest w'
    unfolding event_loop
    event_loop-step st st' e rest w w' t = rw (t, event_loop) refl

    event_loop-stop :
        (st : Loop) (e : Wakeup) (rest : List Wakeup) (w : W)
        → turn epoll epollfd st e w ≡ none
        → event_loop epoll epollfd st (e ∷ rest) w ≡ none
    unfolding event_loop
    event_loop-stop st e rest w t = rw (t, event_loop) refl

    Ends-step :
        (st st' : Loop) (e : Wakeup) (rest : List Wakeup) (w w' : W) (o : Option (Loop × W))
        → turn epoll epollfd st e w ≡ some (st', w')
        → Ends st' rest w' o
        → Ends st (e ∷ rest) w o
    Ends-step st st' e rest w w' none t k = record {
      before = e ∷ k.before;
      e = k.e;
      after = k.after;
      split = ap (◌∷◌ e) k.split;
      st1 = k.st1;
      w1 = k.w1;
      ran = event_loop-step st st' e k.before w w' t ∙ k.ran;
      distinct = k.distinct;
      over = k.over;
    }
    Ends-step st st' e rest w w' (some p) t k = k

    -- Whatever messages arrive, from whom, and however `epoll_wait` ends, the event loop keeps the
    -- clients of the session list distinct: if they are at its start, for example because the list
    -- is empty, then either the loop gets through all its turns and they are distinct at the end,
    -- or it stops where `cleanup_session` reads a session that it has freed. It stops only in a
    -- turn in which a session of the list, whose clients were distinct at the start of that turn,
    -- is over when `cleanup_session` is called.
    pub event_loop-IsUnique :
        (st : Loop) (wakeups : List Wakeup) (w : W)
        → IsUnique st.server.seshead
        → Ends st wakeups w (event_loop epoll epollfd st wakeups w)
    unfolding event_loop
    event_loop-IsUnique st [] w u = u
    event_loop-IsUnique st (e ∷ rest) w u =
        let (st1, w1) = before_cleanup epoll epollfd st e w in
        elim (Bool-cases (any_over st1.server.seshead w1)) [
          | inl over ↦
              let stops : turn epoll epollfd st e w ≡ none = rw over at (turn_lem st e w u) in
              subst (Ends st (e ∷ rest) w) (sym (event_loop-stop st e rest w stops)) (record {
                before = [];
                e = e;
                after = rest;
                split = refl;
                st1 = st;
                w1 = w;
                ran = refl;
                distinct = u;
                over = over;
              })
          | inr on ↦
              let goes : turn epoll epollfd st e w ≡ some (st1, w1) =
                rw on at (turn_lem st e w u) in
              subst (Ends st (e ∷ rest) w) (sym (event_loop-step st st1 e rest w w1 goes)) (
                Ends-step st st1 e rest w w1 (event_loop epoll epollfd st1 rest w1) goes
                  (event_loop-IsUnique st1 rest w1 (before_cleanup-IsUnique st e w u)))
        ]
