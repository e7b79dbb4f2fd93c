-- ===== src/Logging/Written.antt =====
-- What `iwlog_print_msg` and the functions `pmsg` write to the log file.
use iwtftpd.Base.{
  ℕ, ◌+◌, ◌-◌, ◌≤◌, ◌<◌, ◌≡◌, refl, ◌∙◌, ap, Bool, true, List, [], ◌∷◌, ◌++◌, none, some, arith,
  length, length-append, append_assoc, sym, ltb, lt→ltb, le→ltb, if◌then◌else◌, Bool-cases, inl,
  inr, take-length-append,
}
use iwtftpd.Status.{Messages, status_text}
use iwtftpd.Status.Lines.{length-status_text}
use iwtftpd.Logging.{put, strlen, copy_message, Iwlog, object, ok, overrun, LogHost}
use iwtftpd.Logging.File.{time_text, write_line, iwlog_print_msg, line_at}
use iwtftpd.Logging.Pmsg.{send_text, pmsg}
use iwtftpd.Logging.Buffer.{IsText, zeros, strlen-text, IsText-append, put-end}
use iwtftpd.Logging.Message.{
  cut_text, cut_text-IsText, length-cut_text, copy_message-full, log_line, make_line_lem,
  log_line-IsText,
}

-- The log object after a line was made in its buffer.
abbrev pub holding : Iwlog → List ℕ → List ℕ → Iwlog
holding l t msg = record l {
  msglen = length (log_line t msg);
  msgbuf = log_line t msg ++ zeros (278 - (length t + length msg));
}

module _ {W : Type 0} ⦃h : LogHost W⦄ (l : Iwlog) (t msg : List ℕ) (tm : ℕ) (w : W)
    (size : length l.msgbuf ≡ 280) (local : h.localtime (h.time w) ≡ some tm)
    (time : h.strftime tm 24 ≡ some t) (ht : IsText t) (short : length t ≤ 23)
    (hm : IsText msg) where
  timed : time_text l w ≡ ok (t, w)
  unfolding time_text
  timed = rw (local, time_text) (rw time refl)

  printed :
      iwlog_print_msg (object l) msg (length msg) w
      ≡ write_line l
          (if ltb (length t + 1 + length msg) 278
            then some (log_line t msg ++ zeros (278 - (length t + length msg)))
            else none)
          w
  unfolding iwlog_print_msg
  printed =
      ap (line_at l msg (length msg)) timed
      ∙ ap (λ b. write_line l b w) (make_line_lem t msg l.msgbuf ht short size hm)

  -- For a time and a message that leave room for both, the space, the newline and two NULs,
  -- `iwlog_print_msg` writes the time, a space, the whole message and a newline to the log file, if
  -- the descriptor takes them, and the object keeps that line.
  pub print_lem :
      length t + 1 + length msg < 278
      → (h.write l.logfd (log_line t msg) w).0 ≡ true
      → iwlog_print_msg (object l) msg (length msg) w
        ≡ ok (object (holding l t msg), (h.write l.logfd (log_line t msg) w).1)
  unfolding write_line
  print_lem room done =
      let k = 278 - (length t + length msg) in
      let counted = strlen-text (log_line t msg) k (log_line-IsText t msg ht hm) in
      let whole = take-length-append (log_line t msg) (zeros k) in
      printed
      ∙ rw (lt→ltb (length t + 1 + length msg) 278 room, write_line, counted, whole, done) refl

  -- With a log object of 280 bytes of buffer, a time of at most 23 bytes and a message, both without
  -- a NUL: if the time, a space and the message take 278 bytes or more, `iwlog_print_msg` copies the
  -- first bytes of the message, up to the 278th of the buffer, with two NULs behind them; the
  -- newline takes the place of the first, and then the NUL behind the newline is stored at index 280,
  -- behind the end of the buffer.
  pub print_overrun :
      278 ≤ length t + 1 + length msg
      → (copy_message t msg (length msg) l.msgbuf ≡ some (cut_text t msg ++ zeros 2))
        × (length (cut_text t msg) ≡ 278)
        × (put (cut_text t msg ++ zeros 2) (strlen (cut_text t msg ++ zeros 2)) b'\n'
            ≡ some (cut_text t msg ++ (b'\n' ∷ zeros 1)))
        × (strlen (cut_text t msg ++ (b'\n' ∷ zeros 1)) + 1 ≡ 280)
        × (iwlog_print_msg (object l) msg (length msg) w ≡ overrun)
  unfolding write_line
  print_overrun full =
      let long = le→ltb (length t + 1 + length msg) 278 full in
      let cut = cut_text t msg in
      let text = cut_text-IsText t msg ht hm in
      let newline : IsText (b'\n' ∷ []) = (omega arith, tt) in
      let count = length-cut_text t msg short full in
      (
        copy_message-full t msg l.msgbuf ht short size long,
        count,
        ap (λ i. put (cut ++ zeros 2) i b'\n') (strlen-text cut 2 text) ∙ put-end cut 1 b'\n',
        ap (λ (buf : List ℕ). strlen buf + 1) (sym (append_assoc cut (b'\n' ∷ []) (zeros 1)))
            ∙ ap (λ n. n + 1)
                (strlen-text (cut ++ (b'\n' ∷ [])) 1 (IsText-append cut (b'\n' ∷ []) text newline))
            ∙ omega (arith, count, length-append cut (b'\n' ∷ [])),
        printed ∙ rw long refl,
      )

status_text-either :
    (m : Messages) (verbose : Bool) (n : ℕ) (args : List (List ℕ))
    → ltb n 64 ≡ true
    → status_text m true n args ≡ status_text m verbose n args
unfolding status_text
status_text-either m verbose n args e = rw e refl

module _ {W : Type 0} ⦃h : LogHost W⦄ where
  pmsg-send :
      (m : Messages) (l : Iwlog) (n : ℕ) (args : List (List ℕ)) (w : W)
      → pmsg m true (object l) n args w
        ≡ send_text true (object l) (status_text m l.fverbose n args) w
  unfolding pmsg
  pmsg-send m l n args w = elim (Bool-cases (ltb n 64)) [
    | inl e ↦
        rw e (ap (λ o. send_text true (object l) o w) (status_text-either m l.fverbose n args e))
    | inr e ↦ rw e refl
  ]

  -- With the log file open, a log object of 280 bytes of buffer, and a time of at most 21 bytes
  -- without a NUL, a call of `pmsg` for which there is a text without a NUL, in any of the modules
  -- whose name leaves room in the buffer, writes the time, a space, that whole text and a newline
  -- to the log file, if the descriptor takes them, and stores nothing outside of the buffers; the
  -- object keeps that line.
  pub pmsg_lem :
      (m : Messages) (l : Iwlog) (n : ℕ) (args : List (List ℕ)) (t text : List ℕ) (tm : ℕ) (w : W)
      → length l.msgbuf ≡ 280
      → length m.prefix ≤ 255
      → h.localtime (h.time w) ≡ some tm
      → h.strftime tm 24 ≡ some t
      → IsText t
      → length t ≤ 21
      → IsText text
      → status_text m l.fverbose n args ≡ some text
      → (h.write l.logfd (log_line t text) w).0 ≡ true
      → pmsg m true (object l) n args w
        ≡ ok (object (holding l t text), (h.write l.logfd (log_line t text) w).1)
  unfolding send_text
  pmsg_lem m l n args t text tm w size prefix local time ht short hm e done =
      let fits = length-status_text m l.fverbose n args text prefix e in
      pmsg-send m l n args w
      ∙ ap (λ o. send_text true (object l) o w) e
      ∙ print_lem l t text tm w size local time ht (omega arith) hm (omega arith) done

  -- What has no text is dropped: the log file and its object stay as they are.
  pub pmsg-none :
      (m : Messages) (l : Iwlog) (n : ℕ) (args : List (List ℕ)) (w : W)
      → status_text m l.fverbose n args ≡ none
      → pmsg m true (object l) n args w ≡ ok (object l, w)
  unfolding send_text
  pmsg-none m l n args w e = pmsg-send m l n args w ∙ ap (λ o. send_text true (object l) o w) e
