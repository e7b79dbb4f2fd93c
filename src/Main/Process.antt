-- ===== src/Main/Process.antt =====
-- The functions of src/iwtftpd.c that change the process: `init_signal`, `daemonize`, `exec_chroot` and
-- `set_credential`. The system calls are a record of functions over the state `W` outside.
pub mod Descriptors
use iwtftpd.Base.{
  ℕ, zero, suc, ◌+◌, Bool, true, false, ◌||◌, List, [], ◌∷◌, Option, none, some, get_or, codes,
  ◌==◌, if◌then◌else◌,
}

-- `struct passwd`, the members that are used
pub record Passwd : Type 0 where
  pub pw_name : List ℕ
  pub pw_uid : ℕ
  pub pw_gid : ℕ

-- The result of `fork`.
pub data Forked : Type 0 where
  fork_failed parent child : Forked

-- The handlers that `main` installs.
pub data Handler : Type 0 where
  sig_handler sig_ign : Handler

-- A Boolean is `true` unless the result is -1.
pub record Unix (W : Type 0) : Type 0 where
  pub getuid : W → ℕ
  pub sigaction_get : ℕ → W → Bool
  pub sigaction_set : ℕ → Handler → W → Bool × W
  pub fork : W → Forked × W
  pub open_null : W → Option ℕ × W
  pub close : ℕ → W → W
  pub dup2 : ℕ → ℕ → W → Bool × W
  pub umask : ℕ → W → W
  pub setsid : W → Bool × W
  pub getpwnam : List ℕ → W → Option Passwd
  pub chroot : List ℕ → W → Bool × W
  pub chdir : List ℕ → W → Bool × W
  pub setgid : ℕ → W → Bool × W
  pub initgroups : List ℕ → ℕ → W → Bool × W
  pub setuid : ℕ → W → Bool × W

-- How `daemonize` ends: in the parent process, which exits with IW_OK; with IW_ERR; or with IW_OK.
pub data Daemon (W : Type 0) : Type 0 where
  parent_exits : W → Daemon W
  not_detached : W → Daemon W
  detached : W → Daemon W

-- IW_FD_MAX
abbrev pub fd_max : ℕ
fd_max = 64

-- `g_evloop_exit` after a signal.
abbrev pub after_signal : ℕ → Bool
after_signal zero = false
after_signal (suc sig) = true

module _ {W : Type 0} (unix : Unix W) where
  -- The last signal of the list comes first. IW_ERR is `false`.
  unfoldable pub init_signal : List ℕ → ℕ → Handler → W → Bool × W
  init_signal siglist zero func w = (true, w)
  init_signal siglist (suc nlist) func w =
      let sig = get_or siglist nlist 0 in
      let (set, w1) = unix.sigaction_set sig func w in
      let rest = init_signal siglist nlist func w1 in
      if unix.sigaction_get sig w then if set then rest else (false, w1) else (false, w)

  -- `for (i = 0; i < IW_FD_MAX; i++)`, so many more rounds.
  unfoldable pub close_loop : ℕ → ℕ → ℕ → ℕ → W → W
  close_loop zero i excfd nullfd w = w
  close_loop (suc rounds) i excfd nullfd w =
      close_loop rounds (i + 1) excfd nullfd
        (if (i == excfd) || (i == nullfd) then w else unix.close i w)

  unfoldable pub dup_loop : ℕ → ℕ → ℕ → W → Bool × W
  dup_loop zero i nullfd w = (true, w)
  dup_loop (suc rounds) i nullfd w =
      let (done, w1) = unix.dup2 nullfd i w in
      let rest = dup_loop rounds (i + 1) nullfd w1 in if done then rest else (false, w1)

  -- `daemonize` in the child, after `open`.
  unfoldable pub detach : ℕ → ℕ → W → Daemon W
  detach excfd nullfd w =
      let (done, w1) = dup_loop 3 0 nullfd (close_loop fd_max 0 excfd nullfd w) in
      let (led, w2) = unix.setsid (unix.umask 0 (unix.close nullfd w1)) in
      if done then if led then detached w2 else not_detached w2 else not_detached w1

  abbrev detach_with : ℕ → Option ℕ → W → Daemon W
  detach_with excfd none w = not_detached w
  detach_with excfd (some nullfd) w = detach excfd nullfd w

  abbrev in_process : ℕ → Forked → W → Daemon W
  in_process excfd fork_failed w = not_detached w
  in_process excfd parent w = parent_exits w
  in_process excfd child w = detach_with excfd (unix.open_null w).0 (unix.open_null w).1

  unfoldable pub daemonize : ℕ → W → Daemon W
  daemonize excfd w = in_process excfd (unix.fork w).0 (unix.fork w).1

  unfoldable pub exec_chroot : List ℕ → W → Bool × W
  exec_chroot dirpath w =
      let (jailed, w1) = unix.chroot dirpath w in
      let moved = unix.chdir (codes "/") w1 in if jailed then moved else (false, w1)

  unfoldable pub set_credential : List ℕ → ℕ → ℕ → W → Bool × W
  set_credential username uid gid w =
      let (group, w1) = unix.setgid gid w in
      let (groups, w2) = unix.initgroups username gid w1 in
      let user = unix.setuid uid w2 in
      if group then if groups then user else (false, w2) else (false, w1)
