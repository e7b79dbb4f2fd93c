-- ===== src/Tftp/Init.antt =====
-- The start of src/tftp.c: `iwtftp_init`, and `get_ifaddress`, which it calls for the addresses of a
-- network interface.
pub mod Sockets
pub mod Interface
mod Tests
use iwtftpd.Base.{
  ℕ, zero, suc, ◌+◌, ◌-◌, ◌/◌, ◌%◌, Bool, true, false, ◌&&◌, List, [], ◌∷◌, ◌++◌, Option, none,
  some, length, take, replicate, str_eq, codes, ltb, ◌==◌, if◌then◌else◌,
}
use iwtftpd.Host.{Host}
use iwtftpd.Datastore.{Iwds}
use iwtftpd.Tftp.Sessions.{create_socket}
use iwtftpd.Tftp.Proc.{Server}

-- IW_IPV4 and IW_IPV6 are the bits 0 and 1 of `ipver`.
abbrev pub uses_ipv4 : ℕ → Bool
uses_ipv4 ipver = ipver % 2 == 1

abbrev pub uses_ipv6 : ℕ → Bool
uses_ipv6 ipver = ipver / 2 % 2 == 1

-- AF_INET, AF_INET6, TFTP_PORT, SVSOCKS_MAX and IPV6_ADDR_SIZE
abbrev pub af_inet : ℕ
af_inet = 2

abbrev pub af_inet6 : ℕ
af_inet6 = 10

abbrev pub tftp_port : List ℕ
tftp_port = codes "69"

abbrev pub svsocks_max : ℕ
svsocks_max = 2

abbrev pub ipv6_addr_size : ℕ
ipv6_addr_size = 62

-- An entry of the list that `getifaddrs` makes; an address is opaque but for its family.
pub record IfAddrs : Type 0 where
  pub ifa_name : List ℕ
  pub ifa_addr : Option (ℕ × ℕ)

pub record NetHost (W : Type 0) : Type 0 where
  -- `none` is the result -1
  pub getifaddrs : W → Option (List IfAddrs)
  -- the text of an address of a family; `none` is NULL
  pub inet_ntop : ℕ → ℕ → Option (List ℕ)

-- `struct ifinet`, as texts
pub record Ifinet : Type 0 where
  pub ipv4addr : List ℕ
  pub ipv6addr : List ℕ

-- `struct _iwtftp`; a server socket is `none` for -1.
pub record Iwtftp : Type 0 where
  pub svsocks : List (Option ℕ)
  pub server : Server

-- The first loop of `get_ifaddress`.
unfoldable pub has_interface : List ℕ → List IfAddrs → Bool
has_interface ifname [] = false
has_interface ifname (pm ∷ rest) =
    if str_eq pm.ifa_name ifname then true else has_interface ifname rest

-- The address, a percent sign, and as much of the name as leaves the last byte of the array.
unfoldable pub with_zone : List ℕ → List ℕ → List ℕ
with_zone addr ifname = addr ++ (b'%' ∷ take (ipv6_addr_size - (length addr + 1) - 1) ifname)

-- The first free place of the array, or its size.
unfoldable pub first_free : List (Option ℕ) → ℕ
first_free [] = 0
first_free (none ∷ rest) = 0
first_free (some sock ∷ rest) = suc (first_free rest)

unfoldable pub set : List (Option ℕ) → ℕ → Option ℕ → List (Option ℕ)
set [] i v = []
set (s ∷ rest) zero v = v ∷ rest
set (s ∷ rest) (suc i) v = s ∷ set rest i v

-- The sockets of the array that are open.
unfoldable pub live : List (Option ℕ) → List ℕ
live [] = []
live (none ∷ rest) = live rest
live (some sock ∷ rest) = sock ∷ live rest

abbrev is_empty : List ℕ → Bool
is_empty [] = true
is_empty (c ∷ s) = false

module _ {W : Type 0} (net : NetHost W) where
  abbrev add_ipv4 : Option (List ℕ) → Ifinet → Option Ifinet
  add_ipv4 none a = none
  add_ipv4 (some text) a = some (record a { ipv4addr = text })

  abbrev add_ipv6 : List ℕ → Option (List ℕ) → Ifinet → Option Ifinet
  add_ipv6 ifname none a = none
  add_ipv6 ifname (some text) a = some (record a { ipv6addr = with_zone text ifname })

  -- An address of the interface, in the second loop of `get_ifaddress`.
  unfoldable pub add_address : List ℕ → Option (ℕ × ℕ) → Ifinet → Option Ifinet
  unfolding with_zone
  add_address ifname none a = some a
  add_address ifname (some (family, addr)) a =
      if family == af_inet
      then add_ipv4 (net.inet_ntop family addr) a
      else if family == af_inet6
      then add_ipv6 ifname (net.inet_ntop family addr) a
      else some a

  -- The body of that loop.
  unfoldable pub add_entry : List ℕ → IfAddrs → Ifinet → Option Ifinet
  unfolding add_address
  add_entry ifname pm a =
      if str_eq pm.ifa_name ifname then add_address ifname pm.ifa_addr a else some a

  unfoldable pub add_addresses : List ℕ → List IfAddrs → Ifinet → Option Ifinet
  add_addresses ifname [] a = some a
  add_addresses ifname (pm ∷ rest) a = elim (add_entry ifname pm a) [
    | none ↦ none
    | some a' ↦ add_addresses ifname rest a'
  ]

  -- `none` is IW_ERR. Where `getifaddrs` fails, the source frees a list that was never set.
  unfoldable pub get_ifaddress : List ℕ → W → Option Ifinet
  unfolding has_interface add_addresses
  get_ifaddress ifname w = elim (net.getifaddrs w) [
    | none ↦ none
    | some ifa ↦
        if has_interface ifname ifa
        then add_addresses ifname ifa (record { ipv4addr = []; ipv6addr = [] })
        else none
  ]

  abbrev checked : ℕ → Option Ifinet → Option Ifinet
  checked ipver none = none
  checked ipver (some a) =
      if uses_ipv4 ipver && is_empty a.ipv4addr
      then none
      else if uses_ipv6 ipver && is_empty a.ipv6addr
      then none
      else some a

  -- The addresses to listen at.
  unfoldable pub addresses : ℕ → Option (List ℕ) → W → Option Ifinet
  unfolding get_ifaddress
  addresses ipver none w = some (record { ipv4addr = codes "ANY"; ipv6addr = codes "ANY" })
  addresses ipver (some ifname) w = checked ipver (get_ifaddress ifname w)

-- The object, if one of its sockets is open.
abbrev pub server_if : List ℕ → Iwtftp → Option Iwtftp
server_if [] ins = none
server_if (sock ∷ rest) ins = some ins

unfoldable pub new_server : Iwds → List (Option ℕ) → Option Iwtftp
unfolding live
new_server ads svsocks =
    let ins : Iwtftp = record { svsocks = svsocks; server = record { seshead = []; ads = ads } } in
    server_if (live svsocks) ins

module _ {W : Type 0} ⦃h : Host W⦄ where
  -- A server socket goes to the first free place, also where it could not be made.
  unfoldable pub listen : Bool → ℕ → List ℕ → List (Option ℕ) → W → List (Option ℕ) × W
  unfolding first_free set
  listen false family ip svsocks w = (svsocks, w)
  listen true family ip svsocks w =
      let (sock, w') = create_socket family ip (some tftp_port) w in
      (set svsocks (first_free svsocks) sock, w')

  unfoldable pub open_server : ℕ → Ifinet → Iwds → W → Option Iwtftp × W
  unfolding listen
  open_server ipver a ads w =
      let (socks4, w1) =
        listen (uses_ipv4 ipver) af_inet a.ipv4addr (replicate svsocks_max none) w in
      let (socks6, w2) = listen (uses_ipv6 ipver) af_inet6 a.ipv6addr socks4 w1 in
      (new_server ads socks6, w2)

  -- `none` is NULL; on its way there the source closes the sockets that are open, of which there are
  -- none.
  unfoldable pub iwtftp_init : NetHost W → ℕ → Option (List ℕ) → Iwds → W → Option Iwtftp × W
  iwtftp_init net ipver ifname ads w =
      let (allocated, w1) = h.malloc 24 w in
      let started : Option Iwtftp × W = elim (addresses net ipver ifname w1) [
        | none ↦ (none, w1)
        | some a ↦ open_server ipver a ads w1
      ] in
      if allocated then started else (none, w1)
