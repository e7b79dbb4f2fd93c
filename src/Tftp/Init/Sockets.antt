-- ===== src/Tftp/Init/Sockets.antt =====
-- The server sockets that `iwtftp_init` opens.
use iwtftpd.Base.{ℕ, ◌≡◌, refl, ◌∙◌, ap, Bool, true, false, List, [], ◌∷◌, ◌++◌, Option, none, some}
use iwtftpd.Host.{Host}
use iwtftpd.Datastore.{Iwds}
use iwtftpd.Tftp.Sessions.{create_socket}
use iwtftpd.Tftp.Init.{
  Ifinet, Iwtftp, NetHost, addresses, iwtftp_init, open_server, new_server, server_if, listen, live,
  uses_ipv4, uses_ipv6, af_inet, af_inet6, tftp_port,
}

abbrev pub opened : Option ℕ → List ℕ
opened none = []
opened (some sock) = sock ∷ []

-- The open sockets of a server that was started.
abbrev pub sockets_of : Option Iwtftp → List ℕ
sockets_of none = []
sockets_of (some s) = live s.svsocks

sockets_of-server_if :
    (socks : List ℕ) (ins : Iwtftp)
    → live ins.svsocks ≡ socks
    → sockets_of (server_if socks ins) ≡ socks
sockets_of-server_if [] ins e = refl
sockets_of-server_if (sock ∷ rest) ins e = e

-- The array after the second socket.
abbrev places : Option ℕ → Option ℕ → List (Option ℕ)
places none s = s ∷ none ∷ []
places (some a) s = some a ∷ s ∷ []

live-places : (o s : Option ℕ) → live (places o s) ≡ opened o ++ opened s
unfolding live
live-places none none = refl
live-places none (some s) = refl
live-places (some a) none = refl
live-places (some a) (some s) = refl

new_server-places :
    (ads : Iwds) (o s : Option ℕ) → sockets_of (new_server ads (places o s)) ≡ opened o ++ opened s
unfolding new_server
new_server-places ads o s = sockets_of-server_if (live (places o s)) _ refl ∙ live-places o s

new_server-empty :
    (ads : Iwds) (o s : Option ℕ) → opened o ++ opened s ≡ [] → new_server ads (places o s) ≡ none
unfolding new_server
new_server-empty ads o s e =
    let ins : Iwtftp = record {
      svsocks = places o s;
      server = record { seshead = []; ads = ads };
    } in
    ap (λ socks. server_if socks ins) (live-places o s ∙ e)

module _ {W : Type 0} ⦃h : Host W⦄ where
  -- A socket for a family that was asked for.
  abbrev pub wanted : Bool → ℕ → List ℕ → W → Option ℕ × W
  wanted false family ip w = (none, w)
  wanted true family ip w = create_socket family ip (some tftp_port) w

  listen-first :
      (b : Bool) (family : ℕ) (ip : List ℕ) (w : W)
      → listen b family ip (none ∷ none ∷ []) w
        ≡ ((wanted b family ip w).0 ∷ none ∷ [], (wanted b family ip w).1)
  unfolding listen
  listen-first false family ip w = refl
  listen-first true family ip w = refl

  listen-second :
      (b : Bool) (family : ℕ) (ip : List ℕ) (o : Option ℕ) (w : W)
      → listen b family ip (o ∷ none ∷ []) w
        ≡ (places o (wanted b family ip w).0, (wanted b family ip w).1)
  unfolding listen
  listen-second false family ip none w = refl
  listen-second false family ip (some a) w = refl
  listen-second true family ip none w = refl
  listen-second true family ip (some a) w = refl

  open_server_lem :
      (ipver : ℕ) (a : Ifinet) (ads : Iwds) (w : W)
      → let r4 = wanted (uses_ipv4 ipver) af_inet a.ipv4addr w in
        let r6 = wanted (uses_ipv6 ipver) af_inet6 a.ipv6addr r4.1 in
        open_server ipver a ads w ≡ (new_server ads (places r4.0 r6.0), r6.1)
  unfolding open_server
  open_server_lem ipver a ads w =
      rw
        (
          listen-first (uses_ipv4 ipver) af_inet a.ipv4addr w,
          listen-second (uses_ipv6 ipver) af_inet6 a.ipv6addr,
        )
        refl

  init-open :
      (net : NetHost W) (ipver : ℕ) (ifname : Option (List ℕ)) (ads : Iwds) (a : Ifinet) (w : W)
      → (h.malloc 24 w).0 ≡ true
      → addresses net ipver ifname (h.malloc 24 w).1 ≡ some a
      → iwtftp_init net ipver ifname ads w ≡ open_server ipver a ads (h.malloc 24 w).1
  unfolding iwtftp_init
  init-open net ipver ifname ads a w m e = rw (m, e, iwtftp_init) refl

  -- With memory for the object and with addresses to listen at, `iwtftp_init` opens the sockets that
  -- `create_socket` makes for port 69 at the IPv4 address, if IPv4 is asked for, and then at the
  -- IPv6 address, if IPv6 is: the object has those that could be made, in this order, and there is an
  -- object only if there is one.
  pub iwtftp_init_lem :
      (net : NetHost W) (ipver : ℕ) (ifname : Option (List ℕ)) (ads : Iwds) (a : Ifinet) (w : W)
      → (h.malloc 24 w).0 ≡ true
      → addresses net ipver ifname (h.malloc 24 w).1 ≡ some a
      → let r4 = wanted (uses_ipv4 ipver) af_inet a.ipv4addr (h.malloc 24 w).1 in
        let r6 = wanted (uses_ipv6 ipver) af_inet6 a.ipv6addr r4.1 in
        (sockets_of (iwtftp_init net ipver ifname ads w).0 ≡ opened r4.0 ++ opened r6.0)
        × (opened r4.0 ++ opened r6.0 ≡ [] → (iwtftp_init net ipver ifname ads w).0 ≡ none)
        × ((iwtftp_init net ipver ifname ads w).1 ≡ r6.1)
  iwtftp_init_lem net ipver ifname ads a w m e =
      let w1 = (h.malloc 24 w).1 in
      let r4 = wanted (uses_ipv4 ipver) af_inet a.ipv4addr w1 in
      let r6 = wanted (uses_ipv6 ipver) af_inet6 a.ipv6addr r4.1 in
      let run = init-open net ipver ifname ads a w m e ∙ open_server_lem ipver a ads w1 in
      (
        ap (λ r. sockets_of r.0) run ∙ new_server-places ads r4.0 r6.0,
        λ n. ap (λ r. r.0) run ∙ new_server-empty ads r4.0 r6.0 n,
        ap (λ r. r.1) run,
      )
