-- ===== src/Status/Datastore.antt =====
-- The status codes of src/datastore.h and the messages of src/datastore.c, of a build without DEBUG.
use iwtftpd.Base.{ℕ, List, [], ◌∷◌}
use iwtftpd.Status.{IwStatus, status}

-- `enum D_STATCODE`
pub data DStatcode : Type 0 where
  e_dspath_incorrect e_fail_checkfile e_fail_fread e_fail_fwrite e_fail_malloc e_file_exist
        e_file_notexist :
      DStatcode

abbrev pub d_statcode : DStatcode → ℕ
d_statcode e_dspath_incorrect = 1
d_statcode e_fail_checkfile = 2
d_statcode e_fail_fread = 3
d_statcode e_fail_fwrite = 4
d_statcode e_fail_malloc = 5
d_statcode e_file_exist = 6
d_statcode e_file_notexist = 7

-- `iwds_statmsgs`
abbrev pub iwds_statmsgs : List IwStatus
iwds_statmsgs =
    status (d_statcode e_dspath_incorrect) "error: datastore path '%s' is incorrect"
    ∷ status (d_statcode e_fail_checkfile) "error: failed to check the file of datastore, '%s'"
    ∷ status (d_statcode e_fail_fread) "error: failed to read from datastore, '%s'"
    ∷ status (d_statcode e_fail_fwrite) "error: failed to write to datastore, '%s'"
    ∷ status (d_statcode e_fail_malloc) "error: failed memory allocation, %s"
    ∷ status (d_statcode e_file_exist) "error: '%s' already exists on datastore"
    ∷ status (d_statcode e_file_notexist) "error: '%s' does not exist on datastore"
    ∷ []

-- `enum D_STATCODE_VERBOSE`
pub data DStatcodeVerbose : Type 0 where
  ev_dsession_notfound ev_fail_add_dsession ev_fail_create_dsession ev_fail_fclose ev_fail_fopen
        ev_fail_join_path ev_fail_realpath ev_nodsreq ev_null_obj :
      DStatcodeVerbose

abbrev pub d_statcode_verbose : DStatcodeVerbose → ℕ
d_statcode_verbose ev_dsession_notfound = 65
d_statcode_verbose ev_fail_add_dsession = 66
d_statcode_verbose ev_fail_create_dsession = 67
d_statcode_verbose ev_fail_fclose = 68
d_statcode_verbose ev_fail_fopen = 69
d_statcode_verbose ev_fail_join_path = 70
d_statcode_verbose ev_fail_realpath = 71
d_statcode_verbose ev_nodsreq = 72
d_statcode_verbose ev_null_obj = 73

-- `iwds_statvmsgs`
abbrev pub iwds_statvmsgs : List IwStatus
iwds_statvmsgs =
    status (d_statcode_verbose ev_dsession_notfound)
      "error: datastore session not found, '%d', '%s'"
    ∷ status (d_statcode_verbose ev_fail_add_dsession) "error: faild to add a datastore session"
    ∷ status (d_statcode_verbose ev_fail_create_dsession)
        "error: could not create a new session of datastore, '%d', '%s'"
    ∷ status (d_statcode_verbose ev_fail_fclose) "error: fclose: failed, %s: %s"
    ∷ status (d_statcode_verbose ev_fail_fopen) "error: fopen: failed, '%s': %s"
    ∷ status (d_statcode_verbose ev_fail_join_path) "error: failed to join path '%s' and '%s'"
    ∷ status (d_statcode_verbose ev_fail_realpath) "error: realpath: failed to convert '%s': %s"
    ∷ status (d_statcode_verbose ev_nodsreq) "error: request was not passed"
    ∷ status (d_statcode_verbose ev_null_obj) "error: invalid object"
    ∷ []
