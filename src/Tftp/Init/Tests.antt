-- ===== src/Tftp/Init/Tests.antt =====
-- `iwtftp_init` and `get_ifaddress` at small inputs.
use iwtftpd.Base.{
  ℕ, ◌≡◌, refl, true, false, List, [], ◌∷◌, ◌++◌, none, some, codes, if◌then◌else◌, ◌==◌, str_eq,
}
use iwtftpd.Sim.{Sim, sim, start}
use iwtftpd.Datastore.{Iwds}
use iwtftpd.Tftp.Init.{
  IfAddrs, NetHost, get_ifaddress, add_entry, iwtftp_init, af_inet, af_inet6, addresses,
}
use iwtftpd.Tftp.Init.Sockets.{opened, sockets_of, wanted, iwtftp_init_lem}

abbrev text : ℕ → ℕ → List ℕ
text family addr = if family == af_inet then codes "10.0.0.1" else codes "fe80::1"

-- Two interfaces; the second has an address of each family.
abbrev interfaces : List IfAddrs
interfaces =
    record { ifa_name = codes "lo"; ifa_addr = some (af_inet, 1) }
    ∷ record { ifa_name = codes "eth0"; ifa_addr = none }
    ∷ record { ifa_name = codes "eth0"; ifa_addr = some (af_inet, 2) }
    ∷ record { ifa_name = codes "eth0"; ifa_addr = some (af_inet6, 3) }
    ∷ []

abbrev net : NetHost Sim
net = record {
  getifaddrs = λ w. some interfaces;
  inet_ntop = λ family addr. some (text family addr);
}

abbrev ads : Iwds
ads = record { dhead = []; dspath = codes "/d"; fchroot = false; fault = false }

zone_runs :
    get_ifaddress net (codes "eth0") start
    ≡ some (record { ipv4addr = codes "10.0.0.1"; ipv6addr = codes "fe80::1%eth0" })
unfolding get_ifaddress str_eq add_entry
zone_runs = refl

iwtftp_init_lem_example :
    let r4 = wanted true af_inet (codes "ANY") (sim.malloc 24 start).1 in
    let r6 = wanted true af_inet6 (codes "ANY") r4.1 in
    (sockets_of (iwtftp_init net 3 none ads start).0 ≡ opened r4.0 ++ opened r6.0)
    × (opened r4.0 ++ opened r6.0 ≡ [] → (iwtftp_init net 3 none ads start).0 ≡ none)
    × ((iwtftp_init net 3 none ads start).1 ≡ r6.1)
unfolding addresses
iwtftp_init_lem_example =
    iwtftp_init_lem net 3 none ads (record { ipv4addr = codes "ANY"; ipv6addr = codes "ANY" }) start
      refl refl
