-- ===== src/Status/Codes.antt =====
-- The messages of the status codes of src/tftp.h, src/datastore.h, src/logging.h and src/iwtftpd.h.
use iwtftpd.Base.{ℕ, List, ◌≡◌, refl, true, some}
use iwtftpd.Status.{Messages, status_text}
use iwtftpd.Status.Tables.{tftp_messages, datastore_messages, log_messages, main_messages}
use iwtftpd.Status.Tftp.{TStatcode, TStatcodeVerbose, t_statcode, t_statcode_verbose}
use iwtftpd.Status.Datastore.{DStatcode, DStatcodeVerbose, d_statcode, d_statcode_verbose}
use iwtftpd.Status.Log.{LStatcode, LStatcodeVerbose, l_statcode, l_statcode_verbose}
use iwtftpd.Status.Main.{Statcode, StatcodeVerbose, m_statcode, m_statcode_verbose}
use iwtftpd.Status.Tftp
use iwtftpd.Status.Datastore
use iwtftpd.Status.Log
use iwtftpd.Status.Main

-- Every code of an enumeration is printed, a verbose one in verbose mode.
abbrev pub IsPrinted : Messages → ℕ → Type 0
IsPrinted m n = (args : List (List ℕ)) → (text : List ℕ) × (status_text m true n args ≡ some text)

t_statcode-IsPrinted : (c : TStatcode) → IsPrinted tftp_messages (t_statcode c)
unfolding status_text
t_statcode-IsPrinted Tftp.TStatcode.e_ds_fail_read args = (_, refl)
t_statcode-IsPrinted Tftp.TStatcode.e_ds_fail_write args = (_, refl)
t_statcode-IsPrinted Tftp.TStatcode.e_ds_fail_close args = (_, refl)
t_statcode-IsPrinted Tftp.TStatcode.e_event_notexist args = (_, refl)
t_statcode-IsPrinted Tftp.TStatcode.e_fail_addrconvert args = (_, refl)
t_statcode-IsPrinted Tftp.TStatcode.e_fail_create_socket args = (_, refl)
t_statcode-IsPrinted Tftp.TStatcode.e_fail_get_ifaddress args = (_, refl)
t_statcode-IsPrinted Tftp.TStatcode.e_fail_loadfile args = (_, refl)
t_statcode-IsPrinted Tftp.TStatcode.e_fail_makeack args = (_, refl)
t_statcode-IsPrinted Tftp.TStatcode.e_fail_makeerror args = (_, refl)
t_statcode-IsPrinted Tftp.TStatcode.e_fail_malloc args = (_, refl)
t_statcode-IsPrinted Tftp.TStatcode.e_fail_recv args = (_, refl)
t_statcode-IsPrinted Tftp.TStatcode.e_fail_resend args = (_, refl)
t_statcode-IsPrinted Tftp.TStatcode.e_fail_savefile args = (_, refl)
t_statcode-IsPrinted Tftp.TStatcode.e_fail_tftp_proc args = (_, refl)
t_statcode-IsPrinted Tftp.TStatcode.e_fail_update_event args = (_, refl)
t_statcode-IsPrinted Tftp.TStatcode.e_if_noaddr args = (_, refl)
t_statcode-IsPrinted Tftp.TStatcode.e_if_notfound args = (_, refl)
t_statcode-IsPrinted Tftp.TStatcode.e_server_err args = (_, refl)
t_statcode-IsPrinted Tftp.TStatcode.i_file_exist args = (_, refl)
t_statcode-IsPrinted Tftp.TStatcode.i_file_notfound args = (_, refl)
t_statcode-IsPrinted Tftp.TStatcode.i_invalid_blknum args = (_, refl)
t_statcode-IsPrinted Tftp.TStatcode.i_invalid_tftpmsg args = (_, refl)
t_statcode-IsPrinted Tftp.TStatcode.i_tftpack_incorrect args = (_, refl)
t_statcode-IsPrinted Tftp.TStatcode.i_tftpdata_incorrect args = (_, refl)
t_statcode-IsPrinted Tftp.TStatcode.i_tftperror_incorrect args = (_, refl)
t_statcode-IsPrinted Tftp.TStatcode.i_tftperror_recv args = (_, refl)
t_statcode-IsPrinted Tftp.TStatcode.i_tftpreq_get args = (_, refl)
t_statcode-IsPrinted Tftp.TStatcode.i_tftpreq_incorrect args = (_, refl)
t_statcode-IsPrinted Tftp.TStatcode.i_tftpreq_put args = (_, refl)
t_statcode-IsPrinted Tftp.TStatcode.i_tftptrans_fin args = (_, refl)

t_statcode_verbose-IsPrinted :
    (c : TStatcodeVerbose) → IsPrinted tftp_messages (t_statcode_verbose c)
unfolding status_text
t_statcode_verbose-IsPrinted Tftp.TStatcodeVerbose.ev_buf_tooshort args = (_, refl)
t_statcode_verbose-IsPrinted Tftp.TStatcodeVerbose.ev_errmsg_toolong args = (_, refl)
t_statcode_verbose-IsPrinted Tftp.TStatcodeVerbose.ev_fail_add_newsession args = (_, refl)
t_statcode_verbose-IsPrinted Tftp.TStatcodeVerbose.ev_fail_bind args = (_, refl)
t_statcode_verbose-IsPrinted Tftp.TStatcodeVerbose.ev_fail_create_session args = (_, refl)
t_statcode_verbose-IsPrinted Tftp.TStatcodeVerbose.ev_fail_epoll_create args = (_, refl)
t_statcode_verbose-IsPrinted Tftp.TStatcodeVerbose.ev_fail_epoll_ctl args = (_, refl)
t_statcode_verbose-IsPrinted Tftp.TStatcodeVerbose.ev_fail_epoll_wait args = (_, refl)
t_statcode_verbose-IsPrinted Tftp.TStatcodeVerbose.ev_fail_getaddrinfo args = (_, refl)
t_statcode_verbose-IsPrinted Tftp.TStatcodeVerbose.ev_fail_getifaddrs args = (_, refl)
t_statcode_verbose-IsPrinted Tftp.TStatcodeVerbose.ev_fail_getnameinfo args = (_, refl)
t_statcode_verbose-IsPrinted Tftp.TStatcodeVerbose.ev_fail_getsockname args = (_, refl)
t_statcode_verbose-IsPrinted Tftp.TStatcodeVerbose.ev_fail_inet_ntop args = (_, refl)
t_statcode_verbose-IsPrinted Tftp.TStatcodeVerbose.ev_fail_recvfrom args = (_, refl)
t_statcode_verbose-IsPrinted Tftp.TStatcodeVerbose.ev_fail_sendto args = (_, refl)
t_statcode_verbose-IsPrinted Tftp.TStatcodeVerbose.ev_fail_setsockopt args = (_, refl)
t_statcode_verbose-IsPrinted Tftp.TStatcodeVerbose.ev_fail_socket args = (_, refl)
t_statcode_verbose-IsPrinted Tftp.TStatcodeVerbose.ev_null_obj args = (_, refl)
t_statcode_verbose-IsPrinted Tftp.TStatcodeVerbose.ev_session_notfound args = (_, refl)
t_statcode_verbose-IsPrinted Tftp.TStatcodeVerbose.ev_fail_get_sesbuf args = (_, refl)
t_statcode_verbose-IsPrinted Tftp.TStatcodeVerbose.ev_fail_put_sesbuf args = (_, refl)
t_statcode_verbose-IsPrinted Tftp.TStatcodeVerbose.iv_ack_incorrect args = (_, refl)
t_statcode_verbose-IsPrinted Tftp.TStatcodeVerbose.iv_data_incorrect args = (_, refl)
t_statcode_verbose-IsPrinted Tftp.TStatcodeVerbose.iv_errmsg_incorrect args = (_, refl)
t_statcode_verbose-IsPrinted Tftp.TStatcodeVerbose.iv_errorlen_tooshort args = (_, refl)
t_statcode_verbose-IsPrinted Tftp.TStatcodeVerbose.iv_filename_incorrect args = (_, refl)
t_statcode_verbose-IsPrinted Tftp.TStatcodeVerbose.iv_mode_incorrect args = (_, refl)
t_statcode_verbose-IsPrinted Tftp.TStatcodeVerbose.iv_opcode_incorrect args = (_, refl)
t_statcode_verbose-IsPrinted Tftp.TStatcodeVerbose.iv_reqlen_tooshort args = (_, refl)
t_statcode_verbose-IsPrinted Tftp.TStatcodeVerbose.iv_unknown_msg args = (_, refl)

d_statcode-IsPrinted : (c : DStatcode) → IsPrinted datastore_messages (d_statcode c)
unfolding status_text
d_statcode-IsPrinted Datastore.DStatcode.e_dspath_incorrect args = (_, refl)
d_statcode-IsPrinted Datastore.DStatcode.e_fail_checkfile args = (_, refl)
d_statcode-IsPrinted Datastore.DStatcode.e_fail_fread args = (_, refl)
d_statcode-IsPrinted Datastore.DStatcode.e_fail_fwrite args = (_, refl)
d_statcode-IsPrinted Datastore.DStatcode.e_fail_malloc args = (_, refl)
d_statcode-IsPrinted Datastore.DStatcode.e_file_exist args = (_, refl)
d_statcode-IsPrinted Datastore.DStatcode.e_file_notexist args = (_, refl)

d_statcode_verbose-IsPrinted :
    (c : DStatcodeVerbose) → IsPrinted datastore_messages (d_statcode_verbose c)
unfolding status_text
d_statcode_verbose-IsPrinted Datastore.DStatcodeVerbose.ev_dsession_notfound args = (_, refl)
d_statcode_verbose-IsPrinted Datastore.DStatcodeVerbose.ev_fail_add_dsession args = (_, refl)
d_statcode_verbose-IsPrinted Datastore.DStatcodeVerbose.ev_fail_create_dsession args = (_, refl)
d_statcode_verbose-IsPrinted Datastore.DStatcodeVerbose.ev_fail_fclose args = (_, refl)
d_statcode_verbose-IsPrinted Datastore.DStatcodeVerbose.ev_fail_fopen args = (_, refl)
d_statcode_verbose-IsPrinted Datastore.DStatcodeVerbose.ev_fail_join_path args = (_, refl)
d_statcode_verbose-IsPrinted Datastore.DStatcodeVerbose.ev_fail_realpath args = (_, refl)
d_statcode_verbose-IsPrinted Datastore.DStatcodeVerbose.ev_nodsreq args = (_, refl)
d_statcode_verbose-IsPrinted Datastore.DStatcodeVerbose.ev_null_obj args = (_, refl)

l_statcode-IsPrinted : (c : LStatcode) → IsPrinted log_messages (l_statcode c)
unfolding status_text
l_statcode-IsPrinted Log.LStatcode.e_fail_malloc args = (_, refl)

l_statcode_verbose-IsPrinted :
    (c : LStatcodeVerbose) → IsPrinted log_messages (l_statcode_verbose c)
unfolding status_text
l_statcode_verbose-IsPrinted Log.LStatcodeVerbose.ev_fail_close args = (_, refl)
l_statcode_verbose-IsPrinted Log.LStatcodeVerbose.ev_fail_localtime args = (_, refl)
l_statcode_verbose-IsPrinted Log.LStatcodeVerbose.ev_fail_open args = (_, refl)
l_statcode_verbose-IsPrinted Log.LStatcodeVerbose.ev_fail_strftime args = (_, refl)
l_statcode_verbose-IsPrinted Log.LStatcodeVerbose.ev_fail_write args = (_, refl)
l_statcode_verbose-IsPrinted Log.LStatcodeVerbose.ev_null_obj args = (_, refl)

m_statcode-IsPrinted : (c : Statcode) → IsPrinted main_messages (m_statcode c)
unfolding status_text
m_statcode-IsPrinted Main.Statcode.e_ds_fail_init args = (_, refl)
m_statcode-IsPrinted Main.Statcode.e_ds_fail_setchroot args = (_, refl)
m_statcode-IsPrinted Main.Statcode.e_fail_daemonize args = (_, refl)
m_statcode-IsPrinted Main.Statcode.e_fail_exec_chroot args = (_, refl)
m_statcode-IsPrinted Main.Statcode.e_fail_init_signal args = (_, refl)
m_statcode-IsPrinted Main.Statcode.e_fail_malloc args = (_, refl)
m_statcode-IsPrinted Main.Statcode.e_fail_service args = (_, refl)
m_statcode-IsPrinted Main.Statcode.e_fail_set_credential args = (_, refl)
m_statcode-IsPrinted Main.Statcode.e_fatalerr args = (_, refl)
m_statcode-IsPrinted Main.Statcode.e_log_fail_init args = (_, refl)
m_statcode-IsPrinted Main.Statcode.e_log_moderr args = (_, refl)
m_statcode-IsPrinted Main.Statcode.e_option_bad args = (_, refl)
m_statcode-IsPrinted Main.Statcode.e_tftp_fail_init args = (_, refl)
m_statcode-IsPrinted Main.Statcode.e_user_unknown args = (_, refl)
m_statcode-IsPrinted Main.Statcode.i_noasroot args = (_, refl)
m_statcode-IsPrinted Main.Statcode.i_start_server args = (_, refl)
m_statcode-IsPrinted Main.Statcode.i_exit_server args = (_, refl)
m_statcode-IsPrinted Main.Statcode.i_show_ver args = (_, refl)

m_statcode_verbose-IsPrinted :
    (c : StatcodeVerbose) → IsPrinted main_messages (m_statcode_verbose c)
unfolding status_text
m_statcode_verbose-IsPrinted Main.StatcodeVerbose.ev_fail_chdir args = (_, refl)
m_statcode_verbose-IsPrinted Main.StatcodeVerbose.ev_fail_chroot args = (_, refl)
m_statcode_verbose-IsPrinted Main.StatcodeVerbose.ev_fail_create_svconf args = (_, refl)
m_statcode_verbose-IsPrinted Main.StatcodeVerbose.ev_fail_dup2 args = (_, refl)
m_statcode_verbose-IsPrinted Main.StatcodeVerbose.ev_fail_fork args = (_, refl)
m_statcode_verbose-IsPrinted Main.StatcodeVerbose.ev_fail_initgroups args = (_, refl)
m_statcode_verbose-IsPrinted Main.StatcodeVerbose.ev_fail_open args = (_, refl)
m_statcode_verbose-IsPrinted Main.StatcodeVerbose.ev_fail_setgid args = (_, refl)
m_statcode_verbose-IsPrinted Main.StatcodeVerbose.ev_fail_setsid args = (_, refl)
m_statcode_verbose-IsPrinted Main.StatcodeVerbose.ev_fail_setuid args = (_, refl)
m_statcode_verbose-IsPrinted Main.StatcodeVerbose.ev_fail_sigaction args = (_, refl)

-- The functions `pmsg` drop no message: for every status code of the four enumerations and every
-- arguments, the table of the module has a message for the code, which is printed, if the code is a verbose
-- one, in verbose mode.
pub codes-IsPrinted :
    ((c : TStatcode) → IsPrinted tftp_messages (t_statcode c))
    × ((c : TStatcodeVerbose) → IsPrinted tftp_messages (t_statcode_verbose c))
    × ((c : DStatcode) → IsPrinted datastore_messages (d_statcode c))
    × ((c : DStatcodeVerbose) → IsPrinted datastore_messages (d_statcode_verbose c))
    × ((c : LStatcode) → IsPrinted log_messages (l_statcode c))
    × ((c : LStatcodeVerbose) → IsPrinted log_messages (l_statcode_verbose c))
    × ((c : Statcode) → IsPrinted main_messages (m_statcode c))
    × ((c : StatcodeVerbose) → IsPrinted main_messages (m_statcode_verbose c))
codes-IsPrinted = (
  t_statcode-IsPrinted, t_statcode_verbose-IsPrinted, d_statcode-IsPrinted,
  d_statcode_verbose-IsPrinted, l_statcode-IsPrinted, l_statcode_verbose-IsPrinted,
  m_statcode-IsPrinted, m_statcode_verbose-IsPrinted,
)
