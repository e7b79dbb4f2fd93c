-- ===== src/Tftp/Sessions.antt =====
-- The session list of src/tftp.c, and the sockets of its sessions. A `struct session *` is a session
-- of the list `seshead`; what is changed through the pointer is stored back by `put_back`.
pub mod Keys
pub mod Cleanup
mod Tests
use iwtftpd.Base.{
  ℕ, ◌+◌, ◌-◌, Bool, true, false, ◌&&◌, List, [], ◌∷◌, ◌++◌, Option, none, some, ltb, ◌==◌,
  if◌then◌else◌, length, take, str_eq, replicate, codes,
}
use iwtftpd.Host.{Host}
use iwtftpd.Tftp.Types.{
  Session, Storage, TftpMode, netascii, octet, session_bufsize, minus_one, ipaddrlen_max,
  filename_max, session_closewait,
}
use iwtftpd.Tftp.Parse.{is_netascii, is_octet}

-- The test of `get_session`.
unfoldable pub is_client : List ℕ → ℕ → Session → Bool
is_client ip port s = str_eq s.clip ip && (s.clport == port)

unfoldable pub get_session : List Session → List ℕ → ℕ → Option Session
get_session [] ip port = none
get_session (s ∷ rest) ip port = if is_client ip port s then some s else get_session rest ip port

-- The list after the session of a client, found by `get_session`, was changed to `s`.
unfoldable pub put_back : Session → List Session → List Session
put_back s [] = []
put_back s (t ∷ rest) = if is_client s.clip s.clport t then s ∷ rest else t ∷ put_back s rest

-- What the unlinking in `del_session` leaves.
unfoldable pub unlink_session : List Session → List ℕ → ℕ → List Session
unlink_session [] ip port = []
unlink_session (s ∷ rest) ip port =
    if is_client ip port s then rest else s ∷ unlink_session rest ip port

abbrev sizeof_session : ℕ
sizeof_session = 912

abbrev sizeof_datastorage : ℕ
sizeof_datastorage = 8216

-- A zeroed session with its buffer.
abbrev pub new_session : Session
new_session = record {
  clip = [];
  clport = 0;
  clsock = minus_one;
  regevent = false;
  tftpmode = octet;
  sesbuf = record { pos = 0; fopt = false; datalen = 0; storage = replicate session_bufsize 0 };
  filename = [];
  blknum = 0;
  fin = false;
  lastmsg = [];
  lastsending = 0;
  retrycount = 0;
  disabled = false;
}

-- The mode that `add_newsession` stores.
abbrev pub mode_of : List ℕ → TftpMode
mode_of m = if is_netascii m then netascii else octet

-- The fields that `add_newsession` fills before it makes the socket; the texts are cut to size.
abbrev pub client_session : List ℕ → ℕ → List ℕ → List ℕ → Session
client_session ip port file mode = record new_session {
  clip = take (ipaddrlen_max - 1) ip;
  clport = port;
  filename = take (filename_max - 1) file;
  tftpmode = mode_of mode;
}

-- The name "ANY" stands for NULL.
abbrev pub host_or_any : List ℕ → Option (List ℕ)
host_or_any ip = if str_eq ip (codes "ANY") then none else some ip

module _ {W : Type 0} ⦃h : Host W⦄ where
  open h use {
    malloc, time, getsockname, getnameinfo, family_of, getaddrinfo, socket, setsockopt, bind, close,
  }

  -- `create_socket`: the socket, or `none` for IW_ERR; a service is `none` for NULL. Where `getaddrinfo`
  -- fails, the source closes a descriptor that was never set; the model closes none.
  unfoldable pub create_socket : ℕ → List ℕ → Option (List ℕ) → W → Option ℕ × W
  create_socket family ip service w = elim (getaddrinfo family (host_or_any ip) service w) [
    | none ↦ (none, w)
    | some addr ↦
        let (made, w1) = socket addr w in
        elim made [
          | none ↦ (none, w1)
          | some sock ↦
              let (set, w2) = setsockopt sock w1 in
              let (bound, w3) = bind sock addr w2 in
              if set
              then if bound then (some sock, w3) else (none, close sock w3)
              else (none, close sock w2)
        ]
  ]

  -- The new node is linked in front at once; every failure after that leaves it in the list.
  unfoldable pub add_newsession :
      List Session → ℕ → List ℕ → ℕ → List ℕ → List ℕ → W → Option Session × List Session × W
  add_newsession ss svsock ip port file mode w =
      let node : Session = client_session ip port file mode in
      let (node_allocated, w1) = malloc sizeof_session w in
      let (buf_allocated, w2) = malloc sizeof_datastorage w1 in
      let linked : Option Session × List Session × W = elim (getsockname svsock w2) [
        | none ↦ (none, node ∷ ss, w2)
        | some svaddr ↦ elim (getnameinfo svaddr w2) [
          | none ↦ (none, node ∷ ss, w2)
          | some svip ↦
              let (made, w3) = create_socket (family_of svaddr) svip none w2 in
              elim made [
                | none ↦ (none, node ∷ ss, w3)
                | some sock ↦
                    let ready : Session = record node { clsock = sock } in
                    (some ready, ready ∷ ss, w3)
              ]
        ]
      ] in
      if node_allocated then if buf_allocated then linked else (none, ss, w2) else (none, ss, w1)

  unfoldable pub del_session : List Session → List ℕ → ℕ → W → List Session × W
  del_session ss ip port w = elim (get_session ss ip port) [
    | none ↦ (ss, w)
    | some s ↦ (unlink_session ss ip port, close s.clsock w)
  ]

  unfoldable pub del_allsession : List Session → W → W
  del_allsession [] w = w
  del_allsession (s ∷ rest) w = del_allsession rest (close s.clsock w)

  -- The test of `cleanup_session`; `diff > SESSION_CLOSEWAIT`, for times below 2^31.
  unfoldable pub is_over : Session → W → Bool
  is_over s w = if s.disabled then true else s.fin && ltb session_closewait (time w - s.lastsending)

  -- The loop of `cleanup_session`, with the sessions it has passed and those from `pm` on. The step
  -- to the next session reads `pm->next` also where `del_session` has freed `pm`, which is the result
  -- `none`. A session of the same client that stands before `pm` is deleted in its place.
  unfoldable pub cleanup_loop : List Session → List Session → W → Option (List Session × W)
  cleanup_loop passed [] w = some (passed, w)
  cleanup_loop passed (pm ∷ next) w =
      let (left, w') = del_session passed pm.clip pm.clport w in
      let kept = cleanup_loop (passed ++ (pm ∷ [])) next w in
      let other_deleted = cleanup_loop (left ++ (pm ∷ [])) next w' in
      let deleted : Option (List Session × W) = elim (get_session passed pm.clip pm.clport) [
        | none ↦ none
        | some s ↦ other_deleted
      ] in
      if is_over pm w then deleted else kept

  unfoldable pub cleanup_session : List Session → W → Option (List Session × W)
  unfolding cleanup_loop
  cleanup_session ss w = cleanup_loop [] ss w
