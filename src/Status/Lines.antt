-- ===== src/Status/Lines.antt =====
-- The lengths of the texts that the functions `pmsg` make.
use iwtftpd.Base.{
  ℕ, ◌-◌, ◌≤◌, ◌≡◌, Bool, List, [], ◌∷◌, Option, none, some, arith, length, length-append,
  length-take, take, ltb, Bool-cases, inl, inr,
}
use iwtftpd.Status.{Messages, find_status, expand, message_text, status_text, end_line, text_of}

length-message_text :
    (prefix : List ℕ) (n : ℕ) (fmt : List ℕ) (args : List (List ℕ))
    → length prefix ≤ 255
    → length (message_text prefix n fmt args) ≤ 255
unfolding message_text
length-message_text prefix n fmt args le = ground (
  arith,
  length-take 255 (expand fmt args),
  length-take (256 - length prefix - 1) (expand fmt args),
  length-append prefix (take (256 - length prefix - 1) (expand fmt args)),
)

length-text_of :
    (prefix : List ℕ) (n : ℕ) (o : Option (List ℕ)) (args : List (List ℕ)) (text : List ℕ)
    → length prefix ≤ 255
    → text_of prefix n o args ≡ some text
    → length text ≤ 255
length-text_of prefix n none args text le e = absurd (cc)
length-text_of prefix n (some fmt) args text le e =
    ground (arith, length-message_text prefix n fmt args le)

pub length-status_text :
    (m : Messages) (verbose : Bool) (n : ℕ) (args : List (List ℕ)) (text : List ℕ)
    → length m.prefix ≤ 255
    → status_text m verbose n args ≡ some text
    → length text ≤ 255
unfolding status_text
length-status_text m verbose n args text le e = elim (Bool-cases (ltb n 64)) [
  | inl t ↦ length-text_of m.prefix n (find_status m.statmsgs n) args text le (rw t at e)
  | inr t ↦ elim (Bool-cases verbose) [
    | inl v ↦ length-text_of m.prefix n (find_status m.statvmsgs n) args text le (rw (t, v) at e)
    | inr v ↦ absurd (cc (rw (t, v) at e))
  ]
]

pub length-end_line : (text : List ℕ) → length text ≤ 255 → length (end_line text) ≤ 255
unfolding end_line
length-end_line text le = ground (
  arith,
  length-append text (b'\n' ∷ []),
  length-append (take (length text - 1) text) (b'\n' ∷ []),
  length-take (length text - 1) text,
)
