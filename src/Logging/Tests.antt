-- ===== src/Logging/Tests.antt =====
-- The log at a console in memory.
use iwtftpd.Base.{
  ℕ, ◌≡◌, refl, Bool, true, false, List, [], ◌∷◌, ◌++◌, ◌+◌, length, none, some, arith, codes,
  replicate, if◌then◌else◌,
}
use iwtftpd.Status.{status_text}
use iwtftpd.Status.Tables.{tftp_messages}
use iwtftpd.Status.Tftp.{t_statcode, i_tftpreq_get}
use iwtftpd.Logging.{
  put, strlen, copy_message, Iwlog, null, object, ok, bad_pointer, overrun, LogHost,
}
use iwtftpd.Logging.File.{iwlog_init, iwlog_getfd, iwlog_print_msg}
use iwtftpd.Logging.Pmsg.{pmsg}
use iwtftpd.Logging.Message.{cut_text, log_line}
use iwtftpd.Logging.Buffer.{zeros}
use iwtftpd.Logging.Written.{holding, print_lem, print_overrun, pmsg_lem}

record Console : Type 0 where
  has_file : Bool
  logged : List (List ℕ)
  printed : List (List ℕ)

abbrev now : List ℕ
now = codes "2026-01-02 03:04:05"

instance abbrev console : LogHost Console
console = record {
  open_log = λ path w. (if w.has_file then some 3 else none, w);
  malloc_iwlog = λ w. (some (replicate 280 7), w);
  time = λ w. 0;
  localtime = λ t. some 0;
  strftime = λ tm n. some now;
  write = λ fd bytes w. (true, record w { logged = bytes ∷ w.logged });
  close = λ fd w. (true, w);
  stderr = λ bytes w. record w { printed = bytes ∷ w.printed };
  strerror = λ w. codes "no such file";
  decimal = λ n. [];
}

abbrev empty : Console
empty = record { has_file = true; logged = []; printed = [] }

abbrev closed : Console
closed = record { has_file = false; logged = []; printed = [] }

abbrev log : Iwlog
log = record { fverbose = false; logfd = 3; msglen = 0; msgbuf = replicate 280 7 }

abbrev request : List (List ℕ)
request = codes "a.txt" ∷ codes "10.0.0.9" ∷ codes "4000" ∷ []

abbrev request_text : List ℕ
request_text = codes "info: get request 'a.txt', by '10.0.0.9:4000'"

print_lem_example :
    iwlog_print_msg (object log) (codes "starting") 8 empty
    ≡ ok (
      object (holding log now (codes "starting")),
      record empty { logged = log_line now (codes "starting") ∷ [] },
    )
print_lem_example =
    print_lem log now (codes "starting") 0 empty refl refl refl (omega arith) (omega arith)
      (omega arith) (omega arith) refl

print_overrun_example :
    let cut = cut_text now (replicate 260 b'x') in
    (copy_message now (replicate 260 b'x') 260 log.msgbuf ≡ some (cut ++ zeros 2))
    × (length cut ≡ 278)
    × (put (cut ++ zeros 2) (strlen (cut ++ zeros 2)) b'\n' ≡ some (cut ++ (b'\n' ∷ zeros 1)))
    × (strlen (cut ++ (b'\n' ∷ zeros 1)) + 1 ≡ 280)
    × (iwlog_print_msg (object log) (replicate 260 b'x') 260 empty ≡ overrun)
print_overrun_example =
    print_overrun log now (replicate 260 b'x') 0 empty refl refl refl (omega arith) (omega arith)
      (omega arith) (omega arith)

pmsg_lem_example :
    pmsg tftp_messages true (object log) (t_statcode i_tftpreq_get) request empty
    ≡ ok (
      object (holding log now request_text),
      record empty { logged = log_line now request_text ∷ [] },
    )
unfolding status_text
pmsg_lem_example =
    pmsg_lem tftp_messages log (t_statcode i_tftpreq_get) request now request_text 0 empty refl
      (omega arith) refl refl (omega arith) (omega arith) (omega arith) refl refl

-- Without a log object the message about it reads through NULL.
null_runs :
    (iwlog_init true null closed ≡ bad_pointer)
    × (iwlog_getfd null closed ≡ bad_pointer)
    × (iwlog_print_msg null (codes "x") 1 closed ≡ bad_pointer)
unfolding iwlog_init iwlog_getfd iwlog_print_msg
null_runs = (refl, refl, refl)
