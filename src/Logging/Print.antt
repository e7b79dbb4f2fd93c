-- ===== src/Logging/Print.antt =====
-- The line that `iwlog_print_msg` makes of a time and a message.
use iwtftpd.Base.{
  ℕ, zero, suc, ◌+◌, ◌-◌, ◌<◌, ◌≡◌, refl, ◌∙◌, sym, ap, List, [], ◌∷◌, ◌++◌, none, some, arith,
  length, length-append, get_or, append_assoc, append-nil,
}
use iwtftpd.Logging.{put, strlen, space_loop, finish_line}
use iwtftpd.Logging.Buffer.{IsText, zeros, strlen-text, IsText-append, put-end, put-past, blit-end}

get_or-end : (s : List ℕ) (c : ℕ) (t : List ℕ) → get_or (s ++ (c ∷ t)) (length s) 0 ≡ c
get_or-end [] c t = refl
get_or-end (x ∷ s) c t = get_or-end s c t

space_loop-here :
    (rounds : ℕ) (s : List ℕ) (k : ℕ)
    → space_loop (suc rounds) (length s) (s ++ zeros (suc k))
      ≡ (length s + 1, s ++ (b' ' ∷ zeros k))
unfolding space_loop
space_loop-here rounds s k =
    let one_less : suc k - 1 ≡ k = omega arith in
    rw (get_or-end s 0 (zeros k), blit-end, one_less) refl

space_loop-on :
    (rounds pb : ℕ) (buf : List ℕ)
    → 0 < get_or buf pb 0
    → space_loop (suc rounds) pb buf ≡ space_loop rounds (pb + 1) buf
unfolding space_loop
space_loop-on rounds pb buf h = ground arith

-- The loop stops behind the text, at a space in the place of the first NUL.
pub space_loop_lem :
    (rounds : ℕ) (s t : List ℕ) (k pb : ℕ) (buf : List ℕ)
    → IsText t
    → length t < rounds
    → pb ≡ length s
    → buf ≡ s ++ (t ++ zeros (suc k))
    → space_loop rounds pb buf ≡ (pb + length t + 1, (s ++ t) ++ (b' ' ∷ zeros k))
space_loop_lem zero s t k pb buf h lt e f = absurd (omega arith)
space_loop_lem (suc rounds) s [] k pb buf h lt e f =
    let at_end : length s + 1 ≡ length s + 0 + 1 = omega arith in
    rw (f, e, append-nil s)
      (space_loop-here rounds s k ∙ ap (λ n. (n, s ++ (b' ' ∷ zeros k))) at_end)
space_loop_lem (suc rounds) s (c ∷ t) k pb buf h lt e f =
    let nonzero : get_or buf pb 0 ≡ c = rw (f, e) (get_or-end s c (t ++ zeros (suc k))) in
    let next : pb + 1 ≡ length (s ++ (c ∷ [])) = omega (arith, length-append s (c ∷ [])) in
    let at_end : pb + 1 + length t + 1 ≡ pb + suc (length t) + 1 = omega arith in
    space_loop-on rounds pb buf (rw nonzero (h.0))
    ∙ space_loop_lem rounds (s ++ (c ∷ [])) t k (pb + 1) buf h.1 (omega arith) next
        (f ∙ sym (append_assoc s (c ∷ []) (t ++ zeros (suc k))))
    ∙ rw (at_end, append_assoc s (c ∷ []) t) refl

-- The two stores of `finish_line`, for a text with at least two NULs behind it.
finish_line-put :
    (s : List ℕ) (k : ℕ)
    → IsText s
    → finish_line (s ++ zeros (suc k)) ≡ put (s ++ (b'\n' ∷ zeros k)) (length s + 1 + 1) 0
unfolding finish_line
finish_line-put s k h =
    let behind : length (s ++ (b'\n' ∷ [])) ≡ length s + 1 =
      omega (arith, length-append s (b'\n' ∷ [])) in
    let newline : IsText (b'\n' ∷ []) = (omega arith, tt) in
    let counted : strlen (s ++ (b'\n' ∷ zeros k)) ≡ length s + 1 =
      ap strlen (sym (append_assoc s (b'\n' ∷ []) (zeros k)))
      ∙ strlen-text (s ++ (b'\n' ∷ [])) k (IsText-append s (b'\n' ∷ []) h newline)
      ∙ behind in
    rw (strlen-text s (suc k) h, put-end s k b'\n', counted) refl

pub finish_line-fits :
    (s : List ℕ) (k : ℕ)
    → IsText s
    → finish_line (s ++ zeros (suc (suc (suc k)))) ≡ some (s ++ (b'\n' ∷ zeros (suc (suc k))))
finish_line-fits s k h =
    let t = s ++ (b'\n' ∷ 0 ∷ []) in
    let at_end : length s + 1 + 1 ≡ length t = omega (arith, length-append s (b'\n' ∷ 0 ∷ [])) in
    let split : s ++ (b'\n' ∷ zeros (suc (suc k))) ≡ t ++ zeros (suc k) =
      sym (append_assoc s (b'\n' ∷ 0 ∷ []) (zeros (suc k))) in
    finish_line-put s (suc (suc k)) h
    ∙ ap (λ buf. put buf (length s + 1 + 1) 0) split
    ∙ ap (λ i. put (t ++ zeros (suc k)) i 0) at_end
    ∙ put-end t k 0
    ∙ ap some (append_assoc s (b'\n' ∷ 0 ∷ []) (zeros (suc k)))

pub finish_line-full : (s : List ℕ) → IsText s → finish_line (s ++ zeros 2) ≡ none
finish_line-full s h =
    finish_line-put s 1 h
    ∙ put-past (s ++ (b'\n' ∷ zeros 1)) (length s + 1 + 1) 0
        (omega (arith, length-append s (b'\n' ∷ zeros 1)))
