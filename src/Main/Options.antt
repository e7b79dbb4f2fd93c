-- ===== src/Main/Options.antt =====
-- The configuration of src/iwtftpd.c: `struct svconf` and `set_svconf`. What popt reads from the
-- command line is the input.
pub mod Result
use iwtftpd.Base.{
  ℕ, ◌-◌, ◌*◌, ◌%◌, ◌/◌, Bool, true, false, List, [], ◌∷◌, Option, none, some, codes, ◌==◌,
  if◌then◌else◌,
}

-- `struct svconf`; `none` is NULL.
pub record Svconf : Type 0 where
  pub ipver : ℕ
  pub ifname : Option (List ℕ)
  pub datastore : Option (List ℕ)
  pub user : Option (List ℕ)
  pub verbose : Bool

-- An option of the command line, as in `optlist`; `show_help` is one of those of POPT_AUTOHELP, which
-- are --help, -? and --usage.
pub data Opt : Type 0 where
  only_ipv4 only_ipv6 verbose_mode show_version show_help : Opt
  netdev dirpath uname : List ℕ → Opt

-- The options up to the end or to one that popt refuses, and the first argument left over.
pub record CommandLine : Type 0 where
  pub options : List Opt
  pub bad_option : Bool
  pub leftover : Option (List ℕ)

-- The results I_SHOW_VER, IW_ERR and IW_OK; or popt printed its help, and has ended the process with
-- the code 0.
pub data Configured : Type 0 where
  version usage help : Configured
  configured : Svconf → Configured

-- DEFAULT_IPVER, DEFAULT_USER, and the bits IW_IPV4 and IW_IPV6
abbrev pub default_ipver : ℕ
default_ipver = 3

abbrev pub default_user : List ℕ
default_user = codes "nobody"

abbrev pub clear_ipv6 : ℕ → ℕ
clear_ipv6 ipver = ipver - 2 * (ipver / 2 % 2)

abbrev pub clear_ipv4 : ℕ → ℕ
clear_ipv4 ipver = ipver - ipver % 2

-- The variables of `set_svconf` and the object that it fills.
pub record Reading : Type 0 where
  pub svc : Svconf
  pub useipver : ℕ
  pub verbose : Bool
  pub showver : Bool

-- The members as `create_svconf` sets them.
abbrev pub new_svconf : Svconf
new_svconf = record { ipver = 0; ifname = none; datastore = none; user = none; verbose = false }

-- What popt does with an option, and the body of the loop for those that it returns; `none` is the
-- end of the process.
unfoldable pub read_option : Opt → Reading → Option Reading
read_option only_ipv4 r = some (record r { useipver = clear_ipv6 r.useipver })
read_option only_ipv6 r = some (record r { useipver = clear_ipv4 r.useipver })
read_option verbose_mode r = some (record r { verbose = true })
read_option show_version r = some (record r { showver = true })
read_option show_help r = none
read_option (netdev name) r = some (record r { svc = record r.svc { ifname = some name } })
read_option (dirpath path) r = some (record r { svc = record r.svc { datastore = some path } })
read_option (uname name) r = some (record r { svc = record r.svc { user = some name } })

unfoldable pub read_options : List Opt → Reading → Option Reading
read_options [] r = some r
read_options (o ∷ rest) r = elim (read_option o r) [ none ↦ none | some r' ↦ read_options rest r' ]

abbrev pub user_or_default : Option (List ℕ) → Option (List ℕ)
user_or_default none = some default_user
user_or_default (some name) = some name

-- The tests after the loop.
unfoldable pub check_options : CommandLine → Reading → Configured
check_options cmd r =
    let svc = r.svc in
    let filled : Svconf = record svc {
      ipver = r.useipver;
      user = user_or_default svc.user;
      verbose = r.verbose;
    } in
    let checked =
      if r.showver then version else if r.useipver == 0 then usage else configured filled in
    if cmd.bad_option then usage else elim cmd.leftover [ none ↦ checked | some arg ↦ usage ]

abbrev pub checked_or_help : CommandLine → Option Reading → Configured
checked_or_help cmd none = help
checked_or_help cmd (some r) = check_options cmd r

unfoldable pub set_svconf : Svconf → CommandLine → Configured
set_svconf svc cmd = checked_or_help cmd (
    read_options cmd.options
      (record { svc = svc; useipver = default_ipver; verbose = false; showver = false }))
