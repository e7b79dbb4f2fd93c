-- ===== src/Status/Log.antt =====
-- The status codes of src/logging.h and the messages of src/logging.c, of a build without DEBUG.
use iwtftpd.Base.{ℕ, List, [], ◌∷◌}
use iwtftpd.Status.{IwStatus, status}

-- `enum L_STATCODE`
pub data LStatcode : Type 0 where
  e_fail_malloc : LStatcode

abbrev pub l_statcode : LStatcode → ℕ
l_statcode e_fail_malloc = 1

-- `iwlog_statmsgs`
abbrev pub iwlog_statmsgs : List IwStatus
iwlog_statmsgs = status (l_statcode e_fail_malloc) "error: failed memory allocation, %s" ∷ []

-- `enum L_STATCODE_VERBOSE`
pub data LStatcodeVerbose : Type 0 where
  ev_fail_close ev_fail_localtime ev_fail_open ev_fail_strftime ev_fail_write ev_null_obj :
      LStatcodeVerbose

abbrev pub l_statcode_verbose : LStatcodeVerbose → ℕ
l_statcode_verbose ev_fail_close = 65
l_statcode_verbose ev_fail_localtime = 66
l_statcode_verbose ev_fail_open = 67
l_statcode_verbose ev_fail_strftime = 68
l_statcode_verbose ev_fail_write = 69
l_statcode_verbose ev_null_obj = 70

-- `iwlog_statvmsgs`
abbrev pub iwlog_statvmsgs : List IwStatus
iwlog_statvmsgs =
    status (l_statcode_verbose ev_fail_close) "error: close: failed, 'fd=%d': %s"
    ∷ status (l_statcode_verbose ev_fail_localtime) "error: localtime_r: failed to convert: %s"
    ∷ status (l_statcode_verbose ev_fail_open) "error: open: failed, '%s': %s"
    ∷ status (l_statcode_verbose ev_fail_strftime) "error: strftime: failed to convert: %s"
    ∷ status (l_statcode_verbose ev_fail_write)
        "error: write: failed write to log, fd=%d msglen=%d: %s"
    ∷ status (l_statcode_verbose ev_null_obj) "error: invalid object"
    ∷ []
