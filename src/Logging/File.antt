-- ===== src/Logging/File.antt =====
-- The functions of src/logging.c on the log file.
use iwtftpd.Base.{
  ℕ, Bool, true, false, List, [], ◌∷◌, ◌++◌, Option, none, some, take, ltb, if◌then◌else◌, codes,
}
use iwtftpd.Status.{status_text, end_line}
use iwtftpd.Status.Tables.{log_messages}
use iwtftpd.Status.Log.{
  e_fail_malloc, l_statcode, l_statcode_verbose, ev_fail_close, ev_fail_localtime, ev_fail_open,
  ev_fail_strftime, ev_fail_write, ev_null_obj,
}
use iwtftpd.Logging.{
  Iwlog, Alog, null, object, freed, Effect, ok, bad_pointer, overrun, LogHost, make_line, strlen,
  timestrlen_max, logfilepath,
}

module _ {W : Type 0} ⦃h : LogHost W⦄ where
  -- `pmsg` of src/logging.c, which reads `alog->fverbose` for a verbose code.
  abbrev print_text : Option (List ℕ) → W → W
  print_text none w = w
  print_text (some text) w = h.stderr (end_line text) w

  unfoldable pub log_pmsg : Alog → ℕ → List (List ℕ) → W → Effect W
  log_pmsg alog n args w =
      let verbose : Effect W = elim alog [
        | null ↦ bad_pointer
        | object l ↦ ok (print_text (status_text log_messages l.fverbose n args) w)
        | freed ↦ bad_pointer
      ] in
      if ltb n 64 then ok (print_text (status_text log_messages true n args) w) else verbose

  -- IW_ERR is `false`.
  abbrev pub with_state : Bool → Alog → Effect W → Effect (Bool × Alog × W)
  with_state b alog (ok w) = ok (b, alog, w)
  with_state b alog bad_pointer = bad_pointer
  with_state b alog overrun = overrun

  abbrev close_if_positive : ℕ → Effect W → Effect W
  close_if_positive fd (ok w) = ok (if ltb 0 fd then (h.close fd w).1 else w)
  close_if_positive fd bad_pointer = bad_pointer
  close_if_positive fd overrun = overrun

  unfoldable pub iwlog_init : Bool → Alog → W → Effect (Bool × Alog × W)
  unfolding log_pmsg
  iwlog_init verbose alog w =
      let (opened, w1) = h.open_log logfilepath w in
      elim opened [
        | none ↦
            with_state false alog (
              log_pmsg alog (l_statcode_verbose ev_fail_open) (logfilepath ∷ h.strerror w1 ∷ []) w1)
        | some fd ↦
            let (plog, w2) = h.malloc_iwlog w1 in
            elim plog [
              | none ↦ with_state false alog (
                  close_if_positive fd
                    (log_pmsg alog (l_statcode e_fail_malloc) (codes "iwlog_init" ∷ []) w2))
              | some buf ↦
                  let new : Iwlog = record {
                    fverbose = verbose;
                    logfd = fd;
                    msglen = 0;
                    msgbuf = buf;
                  } in
                  ok (true, object new, w2)
            ]
      ]

  abbrev with_text : List ℕ → Effect W → Effect (List ℕ × W)
  with_text t (ok w) = ok (t, w)
  with_text t bad_pointer = bad_pointer
  with_text t overrun = overrun

  -- The text in `timebuf`.
  unfoldable pub time_text : Iwlog → W → Effect (List ℕ × W)
  unfolding log_pmsg
  time_text l w = elim (h.localtime (h.time w)) [
    | none ↦
        with_text (codes "- DATETIME ERROR -")
          (log_pmsg (object l) (l_statcode_verbose ev_fail_localtime) (h.strerror w ∷ []) w)
    | some tm ↦ elim (h.strftime tm timestrlen_max) [
      | none ↦
          with_text (codes "- TIMEFORM ERROR -")
            (log_pmsg (object l) (l_statcode_verbose ev_fail_strftime) (h.strerror w ∷ []) w)
      | some text ↦ ok (text, w)
    ]
  ]

  -- After a failure of `write` the line goes to `stderr`.
  abbrev fall_back : Iwlog → Effect W → Effect (Alog × W)
  fall_back l (ok w) =
      ok (object l, h.stderr (codes "[log fallback]: " ++ take l.msglen l.msgbuf) w)
  fall_back l bad_pointer = bad_pointer
  fall_back l overrun = overrun

  unfoldable pub write_line : Iwlog → Option (List ℕ) → W → Effect (Alog × W)
  unfolding log_pmsg strlen
  write_line l none w = overrun
  write_line l (some buf) w =
      let new : Iwlog = record l { msglen = strlen buf; msgbuf = buf } in
      let (done, w1) = h.write l.logfd (take (strlen buf) buf) w in
      let args = h.decimal l.logfd ∷ h.decimal (strlen buf) ∷ h.strerror w1 ∷ [] in
      let failed = log_pmsg (object new) (l_statcode_verbose ev_fail_write) args w1 in
      if done then ok (object new, w1) else fall_back new failed

  abbrev pub line_at : Iwlog → List ℕ → ℕ → Effect (List ℕ × W) → Effect (Alog × W)
  line_at l msg msglen (ok (t, w)) = write_line l (make_line t msg msglen l.msgbuf) w
  line_at l msg msglen bad_pointer = bad_pointer
  line_at l msg msglen overrun = overrun

  abbrev pub with_alog : Alog → Effect W → Effect (Alog × W)
  with_alog alog (ok w) = ok (alog, w)
  with_alog alog bad_pointer = bad_pointer
  with_alog alog overrun = overrun

  unfoldable pub iwlog_print_msg : Alog → List ℕ → ℕ → W → Effect (Alog × W)
  unfolding time_text write_line make_line log_pmsg
  iwlog_print_msg null msg msglen w =
      with_alog null (log_pmsg null (l_statcode_verbose ev_null_obj) [] w)
  iwlog_print_msg (object l) msg msglen w = line_at l msg msglen (time_text l w)
  iwlog_print_msg freed msg msglen w = bad_pointer

  -- The descriptor; IW_ERR is `none`.
  unfoldable pub iwlog_getfd : Alog → W → Effect (Option ℕ × W)
  unfolding log_pmsg
  iwlog_getfd null w = elim (log_pmsg null (l_statcode_verbose ev_null_obj) [] w) [
    | ok w' ↦ ok (none, w')
    | bad_pointer ↦ bad_pointer
    | overrun ↦ overrun
  ]
  iwlog_getfd (object l) w = ok (some l.logfd, w)
  iwlog_getfd freed w = bad_pointer

  -- `alog` still points to the object that is freed.
  unfoldable pub iwlog_exit : Alog → W → Effect (Alog × W)
  unfolding log_pmsg
  iwlog_exit null w = ok (null, w)
  iwlog_exit (object l) w =
      let (closed, w1) = h.close l.logfd w in
      let args = h.decimal l.logfd ∷ h.strerror w1 ∷ [] in
      if closed
      then ok (freed, w1)
      else with_alog freed (log_pmsg (object l) (l_statcode_verbose ev_fail_close) args w1)
  iwlog_exit freed w = bad_pointer
