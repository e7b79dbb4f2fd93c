-- ===== src/Logging/Message.antt =====
-- The whole line that `iwlog_print_msg` makes of a time and a message, and when it does not fit.
use iwtftpd.Base.{
  ℕ, zero, suc, ◌+◌, ◌-◌, ◌≤◌, ◌≡◌, refl, ◌∙◌, sym, ap, true, false, List, [], ◌∷◌, ◌++◌, none,
  some, arith, length, length-append, length-take, take, ltb, ltb→lt, ltb→le, if◌then◌else◌,
  append_assoc, take_all, Bool-cases, inl, inr,
}
use iwtftpd.Logging.{add_message, copy_message, make_line, copied_length}
use iwtftpd.Logging.Buffer.{IsText, zeros, IsText-append, put-end, strncpy-end, strncpy-start}
use iwtftpd.Logging.Print.{space_loop_lem, finish_line-fits, finish_line-full}

IsText-take : (n : ℕ) (s : List ℕ) → IsText s → IsText (take n s)
IsText-take zero s h = tt
IsText-take (suc n) [] h = tt
IsText-take (suc n) (c ∷ s) h = (h.0, IsText-take n s h.1)

-- The text of a log line.
abbrev pub log_line : List ℕ → List ℕ → List ℕ
log_line t msg = (t ++ (b' ' ∷ msg)) ++ (b'\n' ∷ [])

-- `strncpy` for a number of bytes that is at hand.
add_message-copied :
    (s msg : List ℕ) (k n : ℕ)
    → copied_length (length s) (length msg) ≡ n
    → n ≤ suc k
    → n ≤ length msg
    → add_message (length s) msg (length msg) (s ++ zeros (suc k))
      ≡ some ((s ++ take n msg) ++ zeros (suc k - n))
unfolding add_message
add_message-copied s msg k n e h h' =
    rw (put-end s k 0, e, strncpy-end s msg (suc k) n h h')
      (ap some (sym (append_assoc s (take n msg) (zeros (suc k - n)))))

copy_message-spaced :
    (t msg : List ℕ) (buf : List ℕ)
    → IsText t
    → length t ≤ 23
    → length buf ≡ 280
    → copy_message t msg (length msg) buf
      ≡ add_message
          (length (t ++ (b' ' ∷ [])))
          msg
          (length msg)
          ((t ++ (b' ' ∷ [])) ++ zeros (suc (278 - length t)))
unfolding copy_message
copy_message-spaced t msg buf ht short e =
    let room : 280 - length t ≡ suc (suc (278 - length t)) = omega arith in
    let pb : 0 + length t + 1 ≡ length (t ++ (b' ' ∷ [])) =
      omega (arith, length-append t (b' ' ∷ [])) in
    rw
      (
        strncpy-start buf t 280 e (omega arith),
        room,
        space_loop_lem 279 [] t (suc (278 - length t)) 0 (t ++ zeros (suc (suc (278 - length t))))
            ht (omega arith) refl refl,
        pb,
        ← append_assoc t (b' ' ∷ []) (zeros (suc (278 - length t))),
      )
      refl

-- The time, a space, and the first bytes of the message that a buffer of 280 bytes has room for.
abbrev pub cut_text : List ℕ → List ℕ → List ℕ
cut_text t msg = t ++ (b' ' ∷ take (277 - length t) msg)

module _ (t msg buf : List ℕ) (ht : IsText t) (short : length t ≤ 23) (e : length buf ≡ 280) where
  abbrev s : List ℕ
  s = t ++ (b' ' ∷ [])

  count : length s ≡ length t + 1
  count = omega (arith, length-append t (b' ' ∷ []))

  copy_message-fits :
      ltb (length t + 1 + length msg) 278 ≡ true
      → copy_message t msg (length msg) buf
        ≡ some ((t ++ (b' ' ∷ msg)) ++ zeros (suc (suc (suc (276 - (length t + length msg))))))
  copy_message-fits fits =
      let small = ltb→lt (length t + 1 + length msg) 278 fits in
      let copied : copied_length (length s) (length msg) ≡ length msg = rw (count, fits) refl in
      let left : suc (278 - length t) - length msg
          ≡ suc (suc (suc (276 - (length t + length msg)))) =
        omega arith in
      let whole = take_all (length msg) msg (omega arith) in
      copy_message-spaced t msg buf ht short e
      ∙ add_message-copied s msg (278 - length t) (length msg) copied (omega arith) (omega arith)
      ∙ rw (left, whole, append_assoc t (b' ' ∷ []) msg) refl

  pub copy_message-full :
      ltb (length t + 1 + length msg) 278 ≡ false
      → copy_message t msg (length msg) buf ≡ some (cut_text t msg ++ zeros 2)
  copy_message-full full =
      let large = ltb→le (length t + 1 + length msg) 278 full in
      let rest : 280 - (length t + 1) - 2 ≡ 277 - length t = omega arith in
      let copied : copied_length (length s) (length msg) ≡ 277 - length t = rw (count, full) rest in
      let left : suc (278 - length t) - (277 - length t) ≡ 2 = omega arith in
      copy_message-spaced t msg buf ht short e
      ∙ add_message-copied s msg (278 - length t) (277 - length t) copied (omega arith)
          (omega arith)
      ∙ rw (left, append_assoc t (b' ' ∷ []) (take (277 - length t) msg)) refl

space-IsText : (t msg : List ℕ) → IsText t → IsText msg → IsText (t ++ (b' ' ∷ msg))
space-IsText t msg ht hm =
    let space : IsText (b' ' ∷ msg) = (omega arith, hm) in IsText-append t (b' ' ∷ msg) ht space

pub cut_text-IsText : (t msg : List ℕ) → IsText t → IsText msg → IsText (cut_text t msg)
cut_text-IsText t msg ht hm = space-IsText t _ ht (IsText-take (277 - length t) msg hm)

pub length-cut_text :
    (t msg : List ℕ)
    → length t ≤ 23
    → 278 ≤ length t + 1 + length msg
    → length (cut_text t msg) ≡ 278
length-cut_text t msg short full =
    omega
      (arith, length-append t (b' ' ∷ take (277 - length t) msg), length-take (277 - length t) msg)

-- What `make_line` leaves in the buffer, for a time and a message without a NUL.
pub make_line_lem :
    (t msg : List ℕ) (buf : List ℕ)
    → IsText t
    → length t ≤ 23
    → length buf ≡ 280
    → IsText msg
    → make_line t msg (length msg) buf ≡ (
        if ltb (length t + 1 + length msg) 278
        then some (log_line t msg ++ zeros (278 - (length t + length msg)))
        else none)
unfolding make_line
make_line_lem t msg buf ht short e hm = elim (Bool-cases (ltb (length t + 1 + length msg) 278)) [
  | inl fits ↦
      let small = ltb→lt (length t + 1 + length msg) 278 fits in
      let k = 276 - (length t + length msg) in
      let left : suc (suc k) ≡ 278 - (length t + length msg) = omega arith in
      rw (copy_message-fits t msg buf ht short e fits, make_line, fits)
        (finish_line-fits (t ++ (b' ' ∷ msg)) k (space-IsText t msg ht hm)
          ∙ ap some (sym (append_assoc (t ++ (b' ' ∷ msg)) (b'\n' ∷ []) (zeros (suc (suc k)))))
          ∙ ap (λ n. some (log_line t msg ++ zeros n)) left)
  | inr full ↦
      rw (copy_message-full t msg buf ht short e full, make_line, full)
        (finish_line-full (cut_text t msg) (cut_text-IsText t msg ht hm))
]

pub length-log_line : (t msg : List ℕ) → length (log_line t msg) ≡ length t + length msg + 2
length-log_line t msg =
    omega (arith, length-append (t ++ (b' ' ∷ msg)) (b'\n' ∷ []), length-append t (b' ' ∷ msg))

pub log_line-IsText : (t msg : List ℕ) → IsText t → IsText msg → IsText (log_line t msg)
log_line-IsText t msg ht hm =
    let newline : IsText (b'\n' ∷ []) = (omega arith, tt) in
    IsText-append (t ++ (b' ' ∷ msg)) (b'\n' ∷ []) (space-IsText t msg ht hm) newline
