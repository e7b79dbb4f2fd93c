-- ===== src/Main/Start.antt =====
-- `main` of src/iwtftpd.c. It is cut where it hands over: `configure` until the log file is open,
-- `start_modules` and `confine` until the service starts. Its messages are left out.
pub mod Stages
pub mod Confined
pub mod Codes
use iwtftpd.Base.{
  ℕ, ◌+◌, Bool, true, false, List, [], ◌∷◌, Option, none, some, codes, replicate, ◌==◌,
  if◌then◌else◌,
}
use iwtftpd.Host.{Host}
use iwtftpd.Datastore.{Iwds, iwds_init, iwds_get_dspath, iwds_set_chroot, close_all}
use iwtftpd.Logging.{Alog, null, object, freed, Effect, ok, bad_pointer, overrun, LogHost}
use iwtftpd.Logging.File.{iwlog_init, iwlog_getfd, iwlog_exit}
use iwtftpd.Tftp.Types.{nwbuf_size}
use iwtftpd.Tftp.Init.{Iwtftp, NetHost, iwtftp_init, live}
use iwtftpd.Tftp.Service.{Epoll, Loop, Wakeup, iwtftp_exit, iwtftp_service}
use iwtftpd.Main.Options.{
  Svconf, CommandLine, Configured, version, usage, help, configured, new_svconf, set_svconf,
}
use iwtftpd.Main.Process.{
  Passwd, Handler, sig_handler, sig_ign, Unix, Daemon, parent_exits, not_detached, detached,
  init_signal, daemonize, exec_chroot, set_credential,
}

-- The exit codes of sysexits.h
abbrev pub ex_ok : ℕ
ex_ok = 0

abbrev pub ex_usage : ℕ
ex_usage = 64

abbrev pub ex_software : ℕ
ex_software = 70

abbrev pub ex_oserr : ℕ
ex_oserr = 71

-- SIGTERM, SIGQUIT, SIGHUP; and SIGINT, SIGPIPE, SIGUSR1, SIGUSR2, SIGTSTP, SIGTTIN, SIGTTOU
abbrev pub siglist : List ℕ
siglist = 15 ∷ 3 ∷ 1 ∷ []

abbrev pub ign_siglist : List ℕ
ign_siglist = 2 ∷ 13 ∷ 10 ∷ 12 ∷ 20 ∷ 21 ∷ 22 ∷ []

-- What `main` holds when it goes to `ferr`: the log object, and the modules that were started.
pub record Held : Type 0 where
  pub alog : Alog
  pub ads : Option Iwds
  pub atftp : Option Iwtftp

-- A stage of `main`: it goes on with a value; or to `ferr` with an exit code, or to `showver`; or popt
-- has ended it after its help; or the
-- process is the parent of the daemon; or it reads through a bad pointer.
pub data Stage (A W : Type 0) : Type 0 where
  go : A → W → Stage A W
  ferr : ℕ → Held → W → Stage A W
  showver : W → Stage A W
  help_exit : W → Stage A W
  parent_exit : W → Stage A W
  crash : Stage A W

-- Code that passes the state on.
abbrev pub Run : Type 0 → Type 0 → Type 0
Run W A = W → Stage A W

unfoldable pub and_then : {A B W : Type 0} → Stage A W → (A → Run W B) → Stage B W
and_then (go a w) f = f a w
and_then (ferr code held w) f = ferr code held w
and_then (showver w) f = showver w
and_then (help_exit w) f = help_exit w
and_then (parent_exit w) f = parent_exit w
and_then crash f = crash

infixl 5 ◌>>=◌ ◌>>◌
abbrev ◌>>=◌ : {A B W : Type 0} → Run W A → (A → Run W B) → Run W B
m >>= f = λ w. and_then (m w) f

abbrev ◌>>◌ : {B W : Type 0} → Run W (Unit {0}) → Run W B → Run W B
m >> k = m >>= λ _. k

-- How the process ends.
pub data Ending (W : Type 0) : Type 0 where
  exits : ℕ → W → Ending W
  crashes : Ending W

abbrev pub nothing_held : Held
nothing_held = record { alog = null; ads = none; atftp = none }

-- `if (... == IW_ERR)`
abbrev pub checked : {W : Type 0} → ℕ → Held → Bool → Run W (Unit {0})
checked code held true w = go tt w
checked code held false w = ferr code held w

abbrev pub check : {W : Type 0} → ℕ → Held → (W → Bool × W) → Run W (Unit {0})
check code held f w = checked code held (f w).0 (f w).1

-- `if (! (... = ...))`
abbrev pub object_of : {A W : Type 0} → ℕ → Held → Option A → Run W A
object_of code held none w = ferr code held w
object_of code held (some a) w = go a w

abbrev pub get : {A W : Type 0} → ℕ → Held → (W → Option A × W) → Run W A
get code held f w = object_of code held (f w).0 (f w).1

abbrev pub with_log : Alog → Held
with_log alog = record { alog = alog; ads = none; atftp = none }

abbrev pub user_of : Svconf → List ℕ
user_of svc = elim svc.user [ none ↦ [] | some name ↦ name ]

-- The server with the datastore at "/".
abbrev pub in_jail : Iwds → Iwtftp → Iwtftp
in_jail ads atftp = record atftp { server = record atftp.server { ads = iwds_set_chroot ads } }

-- What `iwtftp_service` starts from: `rbuf` and `sinfo` hold what the stack holds.
abbrev pub first_turn : Iwtftp → List ℕ → Loop
first_turn ins rbuf = record {
  server = ins.server;
  rbuf = rbuf;
  sinfo = record { ses = none; msg = [] };
}

-- The service has closed its sockets and freed its sessions.
abbrev pub after_service : Alog → Iwds → Held
after_service alog ads = record { alog = alog; ads = some ads; atftp = none }

module _ {W : Type 0} ⦃h : Host W⦄ ⦃log : LogHost W⦄ (unix : Unix W) (net : NetHost W) where
  abbrev pub options : Configured → Run W Svconf
  options version w = showver w
  options help w = help_exit w
  options usage w = ferr ex_usage nothing_held w
  options (configured svc) w = go svc w

  unfoldable pub create_svconf : W → Option Svconf × W
  create_svconf w =
      let (allocated, w1) = h.malloc 40 w in (if allocated then some new_svconf else none, w1)

  abbrev pub as_root : Run W (Unit {0})
  as_root w = if unix.getuid w == 0 then go tt w else ferr ex_usage nothing_held w

  abbrev pub opened_log : Effect (Bool × Alog × W) → Stage Alog W
  opened_log (ok (true, alog, w)) = go alog w
  opened_log (ok (false, alog, w)) = ferr ex_software (with_log alog) w
  opened_log bad_pointer = crash
  opened_log overrun = crash

  abbrev pub fd_of : Alog → Effect (Option ℕ × W) → Stage ℕ W
  fd_of alog (ok (some fd, w)) = go fd w
  fd_of alog (ok (none, w)) = ferr ex_software (with_log alog) w
  fd_of alog bad_pointer = crash
  fd_of alog overrun = crash

  abbrev pub as_daemon : Alog → Daemon W → Stage (Unit {0}) W
  as_daemon alog (parent_exits w) = parent_exit w
  as_daemon alog (not_detached w) = ferr ex_oserr (with_log alog) w
  as_daemon alog (detached w) = go tt w

  -- From the command line to the daemon.
  unfoldable pub configure : CommandLine → Run W (Svconf × Alog)
  configure cmd = do
    psv ← get ex_software nothing_held create_svconf
    svc ← options (set_svconf psv cmd)
    as_root
    check ex_oserr nothing_held (init_signal unix siglist 3 sig_handler)
    check ex_oserr nothing_held (init_signal unix ign_siglist 7 sig_ign)
    alog ← λ w. opened_log (iwlog_init svc.verbose null w)
    fd ← λ w. fd_of alog (iwlog_getfd alog w)
    λ w. as_daemon alog (daemonize unix fd w)
    λ w. go (svc, alog) w

  -- From the datastore to the server. `atftp` refers to the datastore `ads` itself.
  unfoldable pub start_modules : Svconf → Alog → Run W (Iwds × Iwtftp)
  start_modules svc alog = do
    ads ← get ex_software (with_log alog) (iwds_init svc.datastore)
    atftp ←
        get ex_software (record { alog = alog; ads = some ads; atftp = none })
          (iwtftp_init net svc.ipver svc.ifname ads)
    λ w. go (ads, atftp) w

  -- From the user's entry to the user's rights.
  unfoldable pub confine : Svconf → Alog → Iwds → Iwtftp → Run W Iwtftp
  confine svc alog ads atftp =
      let held : Held = record { alog = alog; ads = some ads; atftp = some atftp } in
      let jailed : Held = record {
        alog = alog;
        ads = some (iwds_set_chroot ads);
        atftp = some (in_jail ads atftp);
      } in
      do
        pwd ← λ w. object_of ex_oserr held (unix.getpwnam (user_of svc) w) w
        check ex_oserr held (exec_chroot unix (iwds_get_dspath ads))
        check ex_oserr jailed (set_credential unix pwd.pw_name pwd.pw_uid pwd.pw_gid)
        λ w. go (in_jail ads atftp) w

  abbrev pub with_modules : Svconf → Alog → Iwds × Iwtftp → Run W (Alog × Iwtftp)
  with_modules svc alog (ads, atftp) = do
    jailed ← confine svc alog ads atftp
    λ w. go (alog, jailed) w

  abbrev pub with_options : Svconf × Alog → Run W (Alog × Iwtftp)
  with_options (svc, alog) = start_modules svc alog >>= with_modules svc alog

  -- All that `main` does before it calls `iwtftp_service`.
  unfoldable pub prepare : CommandLine → Run W (Alog × Iwtftp)
  prepare cmd = configure cmd >>= with_options

  -- `iwtftp_exit(atftp); iwds_exit(ads); iwlog_exit(); exit(code);`
  abbrev exit_tftp : Option Iwtftp → W → W
  exit_tftp none w = w
  exit_tftp (some ins) w = iwtftp_exit ins.server.seshead (live ins.svsocks) w

  abbrev exit_ds : Option Iwds → W → W
  exit_ds none w = w
  exit_ds (some ads) w = close_all ads.dhead w

  abbrev pub exit_log : ℕ → Effect (Alog × W) → Ending W
  exit_log code (ok (alog, w)) = exits code w
  exit_log code bad_pointer = crashes
  exit_log code overrun = crashes

  unfoldable pub leave : ℕ → Held → W → Ending W
  leave code held w =
      exit_log code (iwlog_exit held.alog (exit_ds held.ads (exit_tftp held.atftp w)))

  -- `crashes` where the service reads a session that it has freed.
  abbrev pub after_return : Alog → Option (Bool × Iwds × W) → Ending W
  after_return alog none = crashes
  after_return alog (some (done, ads, w)) =
      leave (if done then ex_ok else ex_software) (after_service alog ads) w

  abbrev pub serve : Epoll W → List Wakeup → List ℕ → Stage (Alog × Iwtftp) W → Ending W
  serve epoll wakeups rbuf (go (alog, ins) w) =
      after_return alog (iwtftp_service epoll (first_turn ins rbuf) (live ins.svsocks) wakeups w)
  serve epoll wakeups rbuf (ferr code held w) = leave code held w
  serve epoll wakeups rbuf (showver w) = exits ex_ok w
  serve epoll wakeups rbuf (help_exit w) = exits ex_ok w
  serve epoll wakeups rbuf (parent_exit w) = exits ex_ok w
  serve epoll wakeups rbuf crash = crashes

  unfoldable pub main : CommandLine → Epoll W → List Wakeup → List ℕ → W → Ending W
  main cmd epoll wakeups rbuf w = serve epoll wakeups rbuf (prepare cmd w)
