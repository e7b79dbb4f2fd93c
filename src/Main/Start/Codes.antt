-- ===== src/Main/Start/Codes.antt =====
-- The exit codes of `main`.
use iwtftpd.Base.{ℕ, ◌≡◌, Bool, true, List, Option, none, some}
use iwtftpd.Host.{Host}
use iwtftpd.Datastore.{Iwds}
use iwtftpd.Logging.{Alog}
use iwtftpd.Tftp.Init.{Iwtftp, live}
use iwtftpd.Tftp.Service.{Epoll, Wakeup, iwtftp_service}
use iwtftpd.Main.Options.{CommandLine, version, help, new_svconf, set_svconf}
use iwtftpd.Main.Start.{Stage, go, ferr, showver, help_exit, parent_exit, crash, first_turn}

module _ {W : Type 0} ⦃h : Host W⦄ (epoll : Epoll W) (wakeups : List Wakeup) (rbuf : List ℕ) where
  -- The service returned, and returned IW_OK.
  abbrev pub ReturnsOk : Option (Bool × Iwds × W) → Type 0
  ReturnsOk none = ⊥
  ReturnsOk (some (done, ads, w)) = done ≡ true

  -- What ends well: the service returned IW_OK, the version or the help was shown as the command line
  -- asks, or it is the parent process.
  abbrev pub Succeeds : CommandLine → Stage (Alog × Iwtftp) W → Type 0
  Succeeds cmd (go (alog, ins) w) =
      ReturnsOk (iwtftp_service epoll (first_turn ins rbuf) (live ins.svsocks) wakeups w)
  Succeeds cmd (ferr code held w) = ⊥
  Succeeds cmd (showver w) = set_svconf new_svconf cmd ≡ version
  Succeeds cmd (help_exit w) = set_svconf new_svconf cmd ≡ help
  Succeeds cmd (parent_exit w) = Unit {0}
  Succeeds cmd crash = ⊥
