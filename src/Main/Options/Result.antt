-- ===== src/Main/Options/Result.antt =====
-- What `set_svconf` makes of a command line.
use iwtftpd.Base.{
  ℕ, ◌≡◌, refl, ◌∙◌, ap, Bool, true, false, ◌&&◌, ◌||◌, List, [], ◌∷◌, Option, none, some, arith,
  if◌then◌else◌, ◌==◌, or_true, Bool-cases, inl, inr,
}
use iwtftpd.Main.Options.{
  Svconf, Opt, only_ipv4, only_ipv6, verbose_mode, show_version, show_help, netdev, dirpath, uname,
  CommandLine, Configured, version, usage, help, configured, Reading, read_option, read_options,
  check_options, checked_or_help, set_svconf, clear_ipv4, clear_ipv6, default_ipver,
  user_or_default, new_svconf,
}

-- Which options stand on the command line, and the last value of those that have one.
abbrev pub says_ipv4 : List Opt → Bool
says_ipv4 [] = false
says_ipv4 (only_ipv4 ∷ rest) = true
says_ipv4 (only_ipv6 ∷ rest) = says_ipv4 rest
says_ipv4 (verbose_mode ∷ rest) = says_ipv4 rest
says_ipv4 (show_version ∷ rest) = says_ipv4 rest
says_ipv4 (show_help ∷ rest) = says_ipv4 rest
says_ipv4 (netdev name ∷ rest) = says_ipv4 rest
says_ipv4 (dirpath path ∷ rest) = says_ipv4 rest
says_ipv4 (uname name ∷ rest) = says_ipv4 rest

abbrev pub says_ipv6 : List Opt → Bool
says_ipv6 [] = false
says_ipv6 (only_ipv4 ∷ rest) = says_ipv6 rest
says_ipv6 (only_ipv6 ∷ rest) = true
says_ipv6 (verbose_mode ∷ rest) = says_ipv6 rest
says_ipv6 (show_version ∷ rest) = says_ipv6 rest
says_ipv6 (show_help ∷ rest) = says_ipv6 rest
says_ipv6 (netdev name ∷ rest) = says_ipv6 rest
says_ipv6 (dirpath path ∷ rest) = says_ipv6 rest
says_ipv6 (uname name ∷ rest) = says_ipv6 rest

abbrev pub says_verbose : List Opt → Bool
says_verbose [] = false
says_verbose (only_ipv4 ∷ rest) = says_verbose rest
says_verbose (only_ipv6 ∷ rest) = says_verbose rest
says_verbose (verbose_mode ∷ rest) = true
says_verbose (show_version ∷ rest) = says_verbose rest
says_verbose (show_help ∷ rest) = says_verbose rest
says_verbose (netdev name ∷ rest) = says_verbose rest
says_verbose (dirpath path ∷ rest) = says_verbose rest
says_verbose (uname name ∷ rest) = says_verbose rest

abbrev pub says_version : List Opt → Bool
says_version [] = false
says_version (only_ipv4 ∷ rest) = says_version rest
says_version (only_ipv6 ∷ rest) = says_version rest
says_version (verbose_mode ∷ rest) = says_version rest
says_version (show_version ∷ rest) = true
says_version (show_help ∷ rest) = says_version rest
says_version (netdev name ∷ rest) = says_version rest
says_version (dirpath path ∷ rest) = says_version rest
says_version (uname name ∷ rest) = says_version rest

abbrev pub says_help : List Opt → Bool
says_help [] = false
says_help (only_ipv4 ∷ rest) = says_help rest
says_help (only_ipv6 ∷ rest) = says_help rest
says_help (verbose_mode ∷ rest) = says_help rest
says_help (show_version ∷ rest) = says_help rest
says_help (show_help ∷ rest) = true
says_help (netdev name ∷ rest) = says_help rest
says_help (dirpath path ∷ rest) = says_help rest
says_help (uname name ∷ rest) = says_help rest

abbrev pub last_netdev : List Opt → Option (List ℕ) → Option (List ℕ)
last_netdev [] d = d
last_netdev (only_ipv4 ∷ rest) d = last_netdev rest d
last_netdev (only_ipv6 ∷ rest) d = last_netdev rest d
last_netdev (verbose_mode ∷ rest) d = last_netdev rest d
last_netdev (show_version ∷ rest) d = last_netdev rest d
last_netdev (show_help ∷ rest) d = last_netdev rest d
last_netdev (netdev name ∷ rest) d = last_netdev rest (some name)
last_netdev (dirpath path ∷ rest) d = last_netdev rest d
last_netdev (uname name ∷ rest) d = last_netdev rest d

abbrev pub last_dirpath : List Opt → Option (List ℕ) → Option (List ℕ)
last_dirpath [] d = d
last_dirpath (only_ipv4 ∷ rest) d = last_dirpath rest d
last_dirpath (only_ipv6 ∷ rest) d = last_dirpath rest d
last_dirpath (verbose_mode ∷ rest) d = last_dirpath rest d
last_dirpath (show_version ∷ rest) d = last_dirpath rest d
last_dirpath (show_help ∷ rest) d = last_dirpath rest d
last_dirpath (netdev name ∷ rest) d = last_dirpath rest d
last_dirpath (dirpath path ∷ rest) d = last_dirpath rest (some path)
last_dirpath (uname name ∷ rest) d = last_dirpath rest d

abbrev pub last_uname : List Opt → Option (List ℕ) → Option (List ℕ)
last_uname [] d = d
last_uname (only_ipv4 ∷ rest) d = last_uname rest d
last_uname (only_ipv6 ∷ rest) d = last_uname rest d
last_uname (verbose_mode ∷ rest) d = last_uname rest d
last_uname (show_version ∷ rest) d = last_uname rest d
last_uname (show_help ∷ rest) d = last_uname rest d
last_uname (netdev name ∷ rest) d = last_uname rest d
last_uname (dirpath path ∷ rest) d = last_uname rest d
last_uname (uname name ∷ rest) d = last_uname rest (some name)

-- The versions of IP after the options.
abbrev masked : Bool → Bool → ℕ → ℕ
masked false false v = v
masked true false v = clear_ipv6 v
masked false true v = clear_ipv4 v
masked true true v = clear_ipv4 (clear_ipv6 v)

masked-ipv4 : (a b : Bool) (v : ℕ) → masked a b (clear_ipv6 v) ≡ masked true b v
masked-ipv4 true true v = omega arith
masked-ipv4 true false v = omega arith
masked-ipv4 false true v = refl
masked-ipv4 false false v = refl

masked-ipv6 : (a b : Bool) (v : ℕ) → masked a b (clear_ipv4 v) ≡ masked a true v
masked-ipv6 true true v = omega arith
masked-ipv6 true false v = omega arith
masked-ipv6 false true v = omega arith
masked-ipv6 false false v = refl

abbrev found_in : List Opt → Reading → Reading
found_in opts r = record {
  svc = record {
    ipver = r.svc.ipver;
    ifname = last_netdev opts r.svc.ifname;
    datastore = last_dirpath opts r.svc.datastore;
    user = last_uname opts r.svc.user;
    verbose = r.svc.verbose;
  };
  useipver = masked (says_ipv4 opts) (says_ipv6 opts) r.useipver;
  verbose = says_verbose opts || r.verbose;
  showver = says_version opts || r.showver;
}

-- What the loop over the options ends with, if it gets through to this reading.
abbrev through : List Opt → Reading → Option Reading
through opts r = if says_help opts then none else some r

read_options_lem :
    (opts : List Opt) (r : Reading) → read_options opts r ≡ through opts (found_in opts r)
unfolding read_options read_option
read_options_lem [] r = refl
read_options_lem (only_ipv4 ∷ rest) r =
    read_options_lem rest (record r { useipver = clear_ipv6 r.useipver })
    ∙ ap (λ v. through rest (record (found_in (only_ipv4 ∷ rest) r) { useipver = v }))
        (masked-ipv4 (says_ipv4 rest) (says_ipv6 rest) r.useipver)
read_options_lem (only_ipv6 ∷ rest) r =
    read_options_lem rest (record r { useipver = clear_ipv4 r.useipver })
    ∙ ap (λ v. through rest (record (found_in (only_ipv6 ∷ rest) r) { useipver = v }))
        (masked-ipv6 (says_ipv4 rest) (says_ipv6 rest) r.useipver)
read_options_lem (verbose_mode ∷ rest) r =
    read_options_lem rest (record r { verbose = true })
    ∙ ap (λ v. through rest (record (found_in (verbose_mode ∷ rest) r) { verbose = v }))
        (or_true (says_verbose rest) true refl)
read_options_lem (show_version ∷ rest) r =
    read_options_lem rest (record r { showver = true })
    ∙ ap (λ v. through rest (record (found_in (show_version ∷ rest) r) { showver = v }))
        (or_true (says_version rest) true refl)
read_options_lem (show_help ∷ rest) r = refl
read_options_lem (netdev name ∷ rest) r =
    read_options_lem rest (record r { svc = record r.svc { ifname = some name } })
read_options_lem (dirpath path ∷ rest) r =
    read_options_lem rest (record r { svc = record r.svc { datastore = some path } })
read_options_lem (uname name ∷ rest) r =
    read_options_lem rest (record r { svc = record r.svc { user = some name } })

-- The bits IW_IPV4 and IW_IPV6 of the versions that are left.
abbrev pub versions : Bool → Bool → ℕ
versions only4 only6 = if only4 then 1 else if only6 then 2 else 3

-- The result where no help is asked for.
abbrev pub described_silent : CommandLine → Configured
described_silent cmd =
    let opts = cmd.options in
    let svc : Svconf = record {
      ipver = versions (says_ipv4 opts) (says_ipv6 opts);
      ifname = last_netdev opts none;
      datastore = last_dirpath opts none;
      user = user_or_default (last_uname opts none);
      verbose = says_verbose opts;
    } in
    let accepted =
      if says_version opts
      then version
      else if says_ipv4 opts && says_ipv6 opts
      then usage
      else configured svc in
    if cmd.bad_option then usage else elim cmd.leftover [ none ↦ accepted | some arg ↦ usage ]

abbrev pub described : CommandLine → Configured
described cmd = if says_help cmd.options then help else described_silent cmd

abbrev new_reading : Reading
new_reading = record {
  svc = new_svconf;
  useipver = default_ipver;
  verbose = false;
  showver = false;
}

-- The last tests, for the options found.
accepted :
    (ifname datastore user : Option (List ℕ)) (v only4 only6 verbose : Bool)
    → (if v || false
        then version
        else if masked only4 only6 3 == 0
        then usage
        else configured (record {
          ipver = masked only4 only6 3;
          ifname = ifname;
          datastore = datastore;
          user = user;
          verbose = verbose || false;
        }))
      ≡ (if v
          then version
          else if only4 && only6
          then usage
          else configured (record {
            ipver = versions only4 only6;
            ifname = ifname;
            datastore = datastore;
            user = user;
            verbose = verbose;
          }))
accepted i d u true only4 only6 verbose = refl
accepted i d u false true true verbose = refl
accepted i d u false true false true = refl
accepted i d u false true false false = refl
accepted i d u false false true true = refl
accepted i d u false false true false = refl
accepted i d u false false false true = refl
accepted i d u false false false false = refl

checked :
    (opts : List Opt) (bad : Bool) (leftover : Option (List ℕ))
    → let cmd : CommandLine = record { options = opts; bad_option = bad; leftover = leftover } in
      checked_or_help cmd (through opts (found_in opts new_reading)) ≡ described cmd
unfolding check_options
checked opts bad leftover = elim (Bool-cases (says_help opts)) [
  | inl asked ↦ rw asked refl
  | inr silent ↦ rw silent (by_tests bad leftover)
]
  where
    by_tests :
        (b : Bool) (o : Option (List ℕ))
        → let cmd : CommandLine = record { options = opts; bad_option = b; leftover = o } in
          check_options cmd (found_in opts new_reading) ≡ described_silent cmd
    by_tests true o = refl
    by_tests false (some arg) = refl
    by_tests false none =
        accepted (last_netdev opts none) (last_dirpath opts none)
          (user_or_default (last_uname opts none)) (says_version opts) (says_ipv4 opts)
          (says_ipv6 opts) (says_verbose opts)

-- For the new configuration of `create_svconf`: if one of the options that popt reads, which are those
-- up to the end or to one that it refuses, is --help, -? or --usage, popt prints and ends the process;
-- else an option that it refuses or an argument left over is an error; else -V asks for the
-- version; else -4 and -6 together are an error, and one of them leaves the one version of IP that it
-- names; else the configuration has the last interface, directory and user that are named, the user
-- being "nobody" if none is, and is verbose if -v is there.
pub set_svconf_lem : (cmd : CommandLine) → set_svconf new_svconf cmd ≡ described cmd
unfolding set_svconf
set_svconf_lem cmd =
    ap (checked_or_help cmd) (read_options_lem cmd.options new_reading)
    ∙ checked cmd.options cmd.bad_option cmd.leftover
