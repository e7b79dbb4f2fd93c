-- ===== src/Status/Tftp.antt =====
-- The status codes of src/tftp.h and the messages of src/tftp.c, of a build without DEBUG.
use iwtftpd.Base.{ℕ, List, [], ◌∷◌}
use iwtftpd.Status.{IwStatus, status}

-- `enum T_STATCODE`
pub data TStatcode : Type 0 where
  e_ds_fail_read e_ds_fail_write e_ds_fail_close e_event_notexist e_fail_addrconvert
        e_fail_create_socket e_fail_get_ifaddress e_fail_loadfile e_fail_makeack e_fail_makeerror
        e_fail_malloc e_fail_recv e_fail_resend e_fail_savefile e_fail_tftp_proc e_fail_update_event
        e_if_noaddr e_if_notfound e_server_err i_file_exist i_file_notfound i_invalid_blknum
        i_invalid_tftpmsg i_tftpack_incorrect i_tftpdata_incorrect i_tftperror_incorrect
        i_tftperror_recv i_tftpreq_get i_tftpreq_incorrect i_tftpreq_put i_tftptrans_fin :
      TStatcode

abbrev pub t_statcode : TStatcode → ℕ
t_statcode e_ds_fail_read = 1
t_statcode e_ds_fail_write = 2
t_statcode e_ds_fail_close = 3
t_statcode e_event_notexist = 4
t_statcode e_fail_addrconvert = 5
t_statcode e_fail_create_socket = 6
t_statcode e_fail_get_ifaddress = 7
t_statcode e_fail_loadfile = 8
t_statcode e_fail_makeack = 9
t_statcode e_fail_makeerror = 10
t_statcode e_fail_malloc = 11
t_statcode e_fail_recv = 12
t_statcode e_fail_resend = 13
t_statcode e_fail_savefile = 14
t_statcode e_fail_tftp_proc = 15
t_statcode e_fail_update_event = 16
t_statcode e_if_noaddr = 17
t_statcode e_if_notfound = 18
t_statcode e_server_err = 19
t_statcode i_file_exist = 20
t_statcode i_file_notfound = 21
t_statcode i_invalid_blknum = 22
t_statcode i_invalid_tftpmsg = 23
t_statcode i_tftpack_incorrect = 24
t_statcode i_tftpdata_incorrect = 25
t_statcode i_tftperror_incorrect = 26
t_statcode i_tftperror_recv = 27
t_statcode i_tftpreq_get = 28
t_statcode i_tftpreq_incorrect = 29
t_statcode i_tftpreq_put = 30
t_statcode i_tftptrans_fin = 31

-- `iwtftp_statmsgs`
abbrev pub iwtftp_statmsgs : List IwStatus
iwtftp_statmsgs =
    status (t_statcode e_ds_fail_read) "error: failed to read the data from datastore, %s"
    ∷ status (t_statcode e_ds_fail_write) "error: failed to write the data to datastore, %s"
    ∷ status (t_statcode e_ds_fail_close) "error: failed to close the session on datastore, %s"
    ∷ status (t_statcode e_event_notexist) "error: events nothing"
    ∷ status (t_statcode e_fail_addrconvert) "error: failed to convert ip address"
    ∷ status (t_statcode e_fail_create_socket) "error: failed to create socket, ipv%d, %s, %s"
    ∷ status (t_statcode e_fail_get_ifaddress) "error: failed to get addresses of interface '%s'"
    ∷ status (t_statcode e_fail_loadfile) "error: could not load the file, '%s'"
    ∷ status (t_statcode e_fail_makeack) "error: could not make TFTP ACK message, for '%s:%d'"
    ∷ status (t_statcode e_fail_makeerror) "error: could not make TFTP ERROR message, for '%s:%d'"
    ∷ status (t_statcode e_fail_malloc) "error: failed memory allocation, %s"
    ∷ status (t_statcode e_fail_recv) "error: failed to recv"
    ∷ status (t_statcode e_fail_resend) "error: failed to resend, to '%s:%d'"
    ∷ status (t_statcode e_fail_savefile) "error: could not save the file, '%s'"
    ∷ status (t_statcode e_fail_tftp_proc) "error: failed TFTP processing"
    ∷ status (t_statcode e_fail_update_event) "error: error of updating events"
    ∷ status (t_statcode e_if_noaddr) "error: interface '%s' has no ipv%d address"
    ∷ status (t_statcode e_if_notfound) "error: interface '%s' not found"
    ∷ status (t_statcode e_server_err) "error: server error"
    ∷ status (t_statcode i_file_exist) "info: '%s' already exists"
    ∷ status (t_statcode i_file_notfound) "info: '%s' not found"
    ∷ status (t_statcode i_invalid_blknum)
        "info: invalid block number in TFTP %s message, from '%s:%d'"
    ∷ status (t_statcode i_invalid_tftpmsg) "info: invalid TFTP %s message, from '%s:%d'"
    ∷ status (t_statcode i_tftpack_incorrect) "info: incorrect TFTP ACK format, from '%s:%d'"
    ∷ status (t_statcode i_tftpdata_incorrect) "info: incorrect TFTP DATA format, from '%s:%d'"
    ∷ status (t_statcode i_tftperror_incorrect) "info: incorrect TFTP ERROR format, from '%s:%d'"
    ∷ status (t_statcode i_tftperror_recv) "info: received TFTP ERROR, code %d, %s, from '%s:%d'"
    ∷ status (t_statcode i_tftpreq_get) "info: get request '%s', by '%s:%d'"
    ∷ status (t_statcode i_tftpreq_incorrect) "info: incorrect TFTP request format, from '%s:%d'"
    ∷ status (t_statcode i_tftpreq_put) "info: put request '%s', by '%s:%d'"
    ∷ status (t_statcode i_tftptrans_fin) "info: '%s' completed, with '%s:%d'"
    ∷ []

-- `enum T_STATCODE_VERBOSE`
pub data TStatcodeVerbose : Type 0 where
  ev_buf_tooshort ev_errmsg_toolong ev_fail_add_newsession ev_fail_bind ev_fail_create_session
        ev_fail_epoll_create ev_fail_epoll_ctl ev_fail_epoll_wait ev_fail_getaddrinfo
        ev_fail_getifaddrs ev_fail_getnameinfo ev_fail_getsockname ev_fail_inet_ntop
        ev_fail_recvfrom ev_fail_sendto ev_fail_setsockopt ev_fail_socket ev_null_obj
        ev_session_notfound ev_fail_get_sesbuf ev_fail_put_sesbuf iv_ack_incorrect iv_data_incorrect
        iv_errmsg_incorrect iv_errorlen_tooshort iv_filename_incorrect iv_mode_incorrect
        iv_opcode_incorrect iv_reqlen_tooshort iv_unknown_msg :
      TStatcodeVerbose

abbrev pub t_statcode_verbose : TStatcodeVerbose → ℕ
t_statcode_verbose ev_buf_tooshort = 65
t_statcode_verbose ev_errmsg_toolong = 66
t_statcode_verbose ev_fail_add_newsession = 67
t_statcode_verbose ev_fail_bind = 68
t_statcode_verbose ev_fail_create_session = 69
t_statcode_verbose ev_fail_epoll_create = 70
t_statcode_verbose ev_fail_epoll_ctl = 71
t_statcode_verbose ev_fail_epoll_wait = 72
t_statcode_verbose ev_fail_getaddrinfo = 73
t_statcode_verbose ev_fail_getifaddrs = 74
t_statcode_verbose ev_fail_getnameinfo = 75
t_statcode_verbose ev_fail_getsockname = 76
t_statcode_verbose ev_fail_inet_ntop = 77
t_statcode_verbose ev_fail_recvfrom = 78
t_statcode_verbose ev_fail_sendto = 79
t_statcode_verbose ev_fail_setsockopt = 80
t_statcode_verbose ev_fail_socket = 81
t_statcode_verbose ev_null_obj = 82
t_statcode_verbose ev_session_notfound = 83
t_statcode_verbose ev_fail_get_sesbuf = 84
t_statcode_verbose ev_fail_put_sesbuf = 85
t_statcode_verbose iv_ack_incorrect = 86
t_statcode_verbose iv_data_incorrect = 87
t_statcode_verbose iv_errmsg_incorrect = 88
t_statcode_verbose iv_errorlen_tooshort = 89
t_statcode_verbose iv_filename_incorrect = 90
t_statcode_verbose iv_mode_incorrect = 91
t_statcode_verbose iv_opcode_incorrect = 92
t_statcode_verbose iv_reqlen_tooshort = 93
t_statcode_verbose iv_unknown_msg = 94

-- `iwtftp_statvmsgs`
abbrev pub iwtftp_statvmsgs : List IwStatus
iwtftp_statvmsgs =
    status (t_statcode_verbose ev_buf_tooshort) "error: buffer of %s has shortage"
    ∷ status (t_statcode_verbose ev_errmsg_toolong) "error: TFTP error message is too long"
    ∷ status (t_statcode_verbose ev_fail_add_newsession) "error: failed to add the session, '%s:%d'"
    ∷ status (t_statcode_verbose ev_fail_bind) "error: bind: failed: %s"
    ∷ status (t_statcode_verbose ev_fail_create_session) "error: could not create a new session"
    ∷ status (t_statcode_verbose ev_fail_epoll_create) "error: epoll_create: failed: %s"
    ∷ status (t_statcode_verbose ev_fail_epoll_ctl)
        "error: epoll_ctl: failed to %s event of '%s:%d': %s"
    ∷ status (t_statcode_verbose ev_fail_epoll_wait) "error: epoll_wait: failed: %s"
    ∷ status (t_statcode_verbose ev_fail_getaddrinfo) "error: getaddrinfo: failed: %s"
    ∷ status (t_statcode_verbose ev_fail_getifaddrs) "error: getifaddrs: '%s': %s"
    ∷ status (t_statcode_verbose ev_fail_getnameinfo) "error: getnameinfo: failed: %s"
    ∷ status (t_statcode_verbose ev_fail_getsockname) "error: getsockname: failed: %s"
    ∷ status (t_statcode_verbose ev_fail_inet_ntop) "error: inet_ntop: ipv%d '%s': %s"
    ∷ status (t_statcode_verbose ev_fail_recvfrom) "error: recvfrom: failed: %s"
    ∷ status (t_statcode_verbose ev_fail_sendto) "error: sendto: failed to send to '%s:%d': %s"
    ∷ status (t_statcode_verbose ev_fail_setsockopt) "error: setsockopt: failed: %s"
    ∷ status (t_statcode_verbose ev_fail_socket) "error: socket: failed to create a socket: %s"
    ∷ status (t_statcode_verbose ev_null_obj) "error: invalid object"
    ∷ status (t_statcode_verbose ev_session_notfound) "error: session not found, '%s:%d'"
    ∷ status (t_statcode_verbose ev_fail_get_sesbuf)
        "error: failed to get the data from the session buffer, '%s:%d'"
    ∷ status (t_statcode_verbose ev_fail_put_sesbuf)
        "error: failed to put the data to the session buffer, '%s:%d'"
    ∷ status (t_statcode_verbose iv_ack_incorrect) "info: ack filed is incorrect"
    ∷ status (t_statcode_verbose iv_data_incorrect) "info: data filed is too long"
    ∷ status (t_statcode_verbose iv_errmsg_incorrect) "info: errormsg filed is incorrect"
    ∷ status (t_statcode_verbose iv_errorlen_tooshort)
        "info: length of TFTP ERROR message is too short"
    ∷ status (t_statcode_verbose iv_filename_incorrect) "info: filename field is incorrect"
    ∷ status (t_statcode_verbose iv_mode_incorrect) "info: mode field is incorrect"
    ∷ status (t_statcode_verbose iv_opcode_incorrect) "info: opcode filed is incorrect"
    ∷ status (t_statcode_verbose iv_reqlen_tooshort)
        "info: length of TFTP request message is too short"
    ∷ status (t_statcode_verbose iv_unknown_msg) "info: unknown message, from '%s:%d'"
    ∷ []
