-- ===== src/Status/Main.antt =====
-- The status codes of src/iwtftpd.h and the messages of src/iwtftpd.c, of a build without DEBUG.
use iwtftpd.Base.{ℕ, List, [], ◌∷◌}
use iwtftpd.Status.{IwStatus, status}

-- `enum STATCODE`
pub data Statcode : Type 0 where
  e_ds_fail_init e_ds_fail_setchroot e_fail_daemonize e_fail_exec_chroot e_fail_init_signal
        e_fail_malloc e_fail_service e_fail_set_credential e_fatalerr e_log_fail_init e_log_moderr
        e_option_bad e_tftp_fail_init e_user_unknown i_noasroot i_start_server i_exit_server
        i_show_ver :
      Statcode

abbrev pub m_statcode : Statcode → ℕ
m_statcode e_ds_fail_init = 1
m_statcode e_ds_fail_setchroot = 2
m_statcode e_fail_daemonize = 3
m_statcode e_fail_exec_chroot = 4
m_statcode e_fail_init_signal = 5
m_statcode e_fail_malloc = 6
m_statcode e_fail_service = 7
m_statcode e_fail_set_credential = 8
m_statcode e_fatalerr = 9
m_statcode e_log_fail_init = 10
m_statcode e_log_moderr = 11
m_statcode e_option_bad = 12
m_statcode e_tftp_fail_init = 13
m_statcode e_user_unknown = 14
m_statcode i_noasroot = 15
m_statcode i_start_server = 16
m_statcode i_exit_server = 17
m_statcode i_show_ver = 18

-- `statmsgs`
abbrev pub statmsgs : List IwStatus
statmsgs =
    status (m_statcode e_ds_fail_init) "error: iwds initialization failed"
    ∷ status (m_statcode e_ds_fail_setchroot) "error: failed to set the root directory to datastore"
    ∷ status (m_statcode e_fail_daemonize) "error: could not start daemon"
    ∷ status (m_statcode e_fail_exec_chroot) "error: could not change the root directory to '%s'"
    ∷ status (m_statcode e_fail_init_signal) "error: signal initialization failed"
    ∷ status (m_statcode e_fail_malloc) "error: failed memory allocation, %s"
    ∷ status (m_statcode e_fail_service) "error: failed to start the service"
    ∷ status (m_statcode e_fail_set_credential) "error: could not change the credential to '%s'"
    ∷ status (m_statcode e_fatalerr) "error: fatal error"
    ∷ status (m_statcode e_log_fail_init) "error: iwlog initialization failed"
    ∷ status (m_statcode e_log_moderr) "error: iwlog module error"
    ∷ status (m_statcode e_option_bad) "error: bad option: '%s': %s"
    ∷ status (m_statcode e_tftp_fail_init) "error: iwtftp initialization failed"
    ∷ status (m_statcode e_user_unknown) "error: unknown user '%s'"
    ∷ status (m_statcode i_noasroot) "info: must be run as root"
    ∷ status (m_statcode i_start_server) "info: starting server"
    ∷ status (m_statcode i_exit_server) "info: exiting server"
    ∷ status (m_statcode i_show_ver) "iwtftpd v0.0"
    ∷ []

-- `enum STATCODE_VERBOSE`
pub data StatcodeVerbose : Type 0 where
  ev_fail_chdir ev_fail_chroot ev_fail_create_svconf ev_fail_dup2 ev_fail_fork ev_fail_initgroups
        ev_fail_open ev_fail_setgid ev_fail_setsid ev_fail_setuid ev_fail_sigaction :
      StatcodeVerbose

abbrev pub m_statcode_verbose : StatcodeVerbose → ℕ
m_statcode_verbose ev_fail_chdir = 65
m_statcode_verbose ev_fail_chroot = 66
m_statcode_verbose ev_fail_create_svconf = 67
m_statcode_verbose ev_fail_dup2 = 68
m_statcode_verbose ev_fail_fork = 69
m_statcode_verbose ev_fail_initgroups = 70
m_statcode_verbose ev_fail_open = 71
m_statcode_verbose ev_fail_setgid = 72
m_statcode_verbose ev_fail_setsid = 73
m_statcode_verbose ev_fail_setuid = 74
m_statcode_verbose ev_fail_sigaction = 75

-- `statvmsgs`
abbrev pub statvmsgs : List IwStatus
statvmsgs =
    status (m_statcode_verbose ev_fail_chdir) "error: chdir: failed, '%s': %s"
    ∷ status (m_statcode_verbose ev_fail_chroot) "error: chroot: failed, '%s': %s"
    ∷ status (m_statcode_verbose ev_fail_create_svconf)
        "error: could not create a configuration object"
    ∷ status (m_statcode_verbose ev_fail_dup2) "error: dup2: failed to duplicate fd '%d': %s"
    ∷ status (m_statcode_verbose ev_fail_fork) "error: fork: failed: %s"
    ∷ status (m_statcode_verbose ev_fail_initgroups) "error: initgroups: failed, '%s': %s"
    ∷ status (m_statcode_verbose ev_fail_open) "error: open: failed, '%s': %s"
    ∷ status (m_statcode_verbose ev_fail_setgid) "error: setgid: failed, '%d': %s"
    ∷ status (m_statcode_verbose ev_fail_setsid) "error: setsid: failed: %s"
    ∷ status (m_statcode_verbose ev_fail_setuid) "error: setuid: failed, '%d': %s"
    ∷ status (m_statcode_verbose ev_fail_sigaction) "error: sigaction: failed to '%s' action: %s"
    ∷ []
