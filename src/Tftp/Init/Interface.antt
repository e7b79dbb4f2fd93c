-- ===== src/Tftp/Init/Interface.antt =====
-- The addresses that `get_ifaddress` of src/tftp.c finds.
use iwtftpd.Base.{ℕ, ◌≡◌, List, [], ◌∷◌, Option, none, some, str_eq, ◌==◌, if◌then◌else◌}
use iwtftpd.Tftp.Init.{IfAddrs, NetHost, Ifinet, with_zone, af_inet, af_inet6}

-- The addresses of a family among those of an interface, in order.
abbrev pub of_family : ℕ → Option (ℕ × ℕ) → List ℕ → List ℕ
of_family family none rest = rest
of_family family (some (f, addr)) rest = if f == family then addr ∷ rest else rest

abbrev pub family_addresses : ℕ → List ℕ → List IfAddrs → List ℕ
family_addresses family ifname [] = []
family_addresses family ifname (pm ∷ rest) =
    let others = family_addresses family ifname rest in
    if str_eq pm.ifa_name ifname then of_family family pm.ifa_addr others else others

-- The text of the last address, or else the text given.
abbrev pub last_text : (ℕ → List ℕ) → List ℕ → List ℕ → List ℕ
last_text text [] t = t
last_text text (addr ∷ rest) t = last_text text rest (text addr)

module _ {W : Type 0} (net : NetHost W) (text : ℕ → ℕ → List ℕ)
    (converts : (family addr : ℕ) → net.inet_ntop family addr ≡ some (text family addr))
    (ifname : List ℕ) where
  abbrev zoned : ℕ → List ℕ
  zoned addr = with_zone (text af_inet6 addr) ifname

  abbrev found_in : List IfAddrs → Ifinet → Ifinet
  found_in ifa a = record {
    ipv4addr = last_text (text af_inet) (family_addresses af_inet ifname ifa) a.ipv4addr;
    ipv6addr = last_text zoned (family_addresses af_inet6 ifname ifa) a.ipv6addr;
  }

  abbrev stepped : Option (ℕ × ℕ) → Ifinet → Ifinet
  stepped o a = record {
    ipv4addr = last_text (text af_inet) (of_family af_inet o []) a.ipv4addr;
    ipv6addr = last_text zoned (of_family af_inet6 o []) a.ipv6addr;
  }
