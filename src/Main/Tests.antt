-- ===== src/Main/Tests.antt =====
-- The main program on a machine in memory, whose descriptors are a table.
use iwtftpd.Base.{
  ℕ, ◌≡◌, refl, Bool, true, false, List, [], ◌∷◌, Option, none, some, arith, codes, replicate,
  if◌then◌else◌, ◌==◌, str_eq,
}
use iwtftpd.Host.{Host, directory}
use iwtftpd.Datastore.{iwds_init, iwds_set_chroot}
use iwtftpd.Logging.{Alog, object, LogHost}
use iwtftpd.Logging.File.{iwlog_init, iwlog_getfd}
use iwtftpd.Tftp.Sessions.{create_socket}
use iwtftpd.Tftp.Init.{Iwtftp, NetHost, iwtftp_init, open_server, listen, new_server, addresses}
use iwtftpd.Tftp.Service.{Epoll}
use iwtftpd.Main.Options.{
  only_ipv4, verbose_mode, show_help, help, CommandLine, configured, new_svconf, set_svconf,
  read_options, read_option, check_options,
}
use iwtftpd.Main.Options.Result.{described, set_svconf_lem}
use iwtftpd.Main.Process.{
  Passwd, child, Unix, detached, daemonize, init_signal, exec_chroot, set_credential, close_loop,
  dup_loop, detach,
}
use iwtftpd.Main.Process.Descriptors.{Descriptors, daemon_fd, daemonize_lem}
use iwtftpd.Main.Start.{
  Stage, go, ferr, showver, help_exit, parent_exit, crash, Ending, exits, crashes, and_then,
  configure, start_modules, confine, prepare, create_svconf,
}
use iwtftpd.Main.Start.Confined.{IsConfined, prepare_confines}

record Machine : Type 0 where
  fds : ℕ → Option ℕ
  uid : ℕ
  root : List ℕ

instance abbrev machine : Host Machine
machine = record {
  malloc = λ n w. (true, w);
  realpath = λ p w. some p;
  stat = λ p w. some directory;
  fopen = λ p m w. (none, w);
  fread = λ fp n w. ([], w);
  ferror = λ fp w. false;
  fwrite = λ fp b w. (0, w);
  fclose = λ fp w. (true, w);
  time = λ w. 0;
  getsockname = λ s w. some 0;
  getnameinfo = λ a w. some (codes "10.0.0.1");
  family_of = λ a. 2;
  getaddrinfo = λ f ip s w. some 0;
  socket = λ a w. (some 9, w);
  setsockopt = λ s w. (true, w);
  bind = λ s a w. (true, w);
  close = λ s w. w;
  sendto = λ s m a w. (true, w);
}

instance abbrev machine_log : LogHost Machine
machine_log = record {
  open_log = λ path w. (some 4, record w { fds = λ j. if 4 == j then some 40 else w.fds j });
  malloc_iwlog = λ w. (some (replicate 280 0), w);
  time = λ w. 0;
  localtime = λ t. none;
  strftime = λ tm n. none;
  write = λ fd bytes w. (true, w);
  close = λ fd w. (true, w);
  stderr = λ bytes w. w;
  strerror = λ w. [];
  decimal = λ n. [];
}

abbrev nobody : Passwd
nobody = record { pw_name = codes "nobody"; pw_uid = 99; pw_gid = 98 }

abbrev is_open : Option ℕ → Bool
is_open none = false
is_open (some f) = true

abbrev unix : Unix Machine
unix = record {
  getuid = λ w. w.uid;
  sigaction_get = λ sig w. true;
  sigaction_set = λ sig func w. (true, w);
  fork = λ w. (child, w);
  open_null = λ w. (some 5, record w { fds = λ j. if 5 == j then some 50 else w.fds j });
  close = λ i w. record w { fds = λ j. if i == j then none else w.fds j };
  dup2 = λ a b w. (is_open (w.fds a), record w { fds = λ j. if b == j then w.fds a else w.fds j });
  umask = λ m w. w;
  setsid = λ w. (true, w);
  getpwnam = λ name w. some nobody;
  chroot = λ path w. (true, record w { root = path });
  chdir = λ path w. (true, w);
  setgid = λ gid w. (true, w);
  initgroups = λ name gid w. (true, w);
  setuid = λ uid w. (true, record w { uid = uid });
}

abbrev fd : ℕ → Machine → Option ℕ
fd j w = w.fds j

unix-Descriptors : Descriptors unix fd
unix-Descriptors = record {
  close_fd = λ i j w. refl;
  dup_ok = λ a b f w e. rw e refl;
  dup_fd = λ a b j f w e. rw e refl;
  umask_fd = λ m j w. refl;
  setsid_fd = λ j w. refl;
  setsid_ok = λ w. refl;
}

abbrev booted : Machine
booted = record {
  fds = λ j. if j == 0 then some 1 else if j == 4 then some 40 else none;
  uid = 0;
  root = codes "/";
}

daemonize_lem_example :
    (w : Machine) × (daemonize unix 4 booted ≡ detached w)
    × ((j : ℕ) → fd j w ≡ daemon_fd fd 4 50 (unix.open_null booted).1 j)
daemonize_lem_example =
    daemonize_lem unix fd unix-Descriptors 4 5 50 (omega arith) (omega arith) (omega arith)
      (omega arith) booted refl refl refl

abbrev net : NetHost Machine
net = record { getifaddrs = λ w. none; inet_ntop = λ family addr. none }

abbrev ipv4_verbose : CommandLine
ipv4_verbose = record {
  options = only_ipv4 ∷ verbose_mode ∷ [];
  bad_option = false;
  leftover = none;
}

svconf_runs :
    set_svconf new_svconf ipv4_verbose
    ≡ configured (record {
      ipver = 1;
      ifname = none;
      datastore = none;
      user = some (codes "nobody");
      verbose = true;
    })
unfolding set_svconf read_options read_option check_options
svconf_runs = refl

-- The help ends the process, also before an option that popt refuses.
help_runs :
    set_svconf new_svconf
      (record { options = verbose_mode ∷ show_help ∷ []; bad_option = true; leftover = none })
    ≡ help
unfolding set_svconf read_options read_option
help_runs = refl

set_svconf_lem_example : set_svconf new_svconf ipv4_verbose ≡ described ipv4_verbose
set_svconf_lem_example = set_svconf_lem ipv4_verbose

-- The state that a stage or the process ends in.
abbrev state_of : {A : Type 0} → Stage A Machine → Machine
state_of (go a w) = w
state_of (ferr code held w) = w
state_of (showver w) = w
state_of (help_exit w) = w
state_of (parent_exit w) = w
state_of crash = booted

abbrev last_state : Ending Machine → Machine
last_state (exits code w) = w
last_state crashes = booted

abbrev log : Alog
log = object (record { fverbose = true; logfd = 4; msglen = 0; msgbuf = replicate 280 0 })

abbrev server : Iwtftp
server = record {
  svsocks = some 9 ∷ none ∷ [];
  server = record {
    seshead = [];
    ads = record { dhead = []; dspath = codes "/"; fchroot = true; fault = false };
  };
}

prepare_runs :
    prepare unix net ipv4_verbose booted
    ≡ go (log, server) (state_of (prepare unix net ipv4_verbose booted))
unfolding prepare configure create_svconf start_modules confine and_then set_svconf read_options
    read_option check_options init_signal iwlog_init iwlog_getfd daemonize detach close_loop
    dup_loop iwds_init iwtftp_init open_server listen create_socket str_eq exec_chroot
    set_credential iwds_set_chroot new_server addresses
prepare_runs = refl

prepare_confines_example :
    IsConfined unix ipv4_verbose server (state_of (prepare unix net ipv4_verbose booted))
prepare_confines_example = prepare_confines unix net ipv4_verbose log server booted _ prepare_runs

abbrev epoll : Epoll Machine
epoll = record {
  epoll_create = λ w. (some 6, w);
  epoll_add = λ fd sock w. (true, w);
  epoll_del = λ fd sock w. (true, w);
}
