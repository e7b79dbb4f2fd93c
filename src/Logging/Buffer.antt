-- ===== src/Logging/Buffer.antt =====
-- The buffer of a log line, while it is a text followed by NULs.
use iwtftpd.Base.{
  ℕ, zero, suc, ◌+◌, ◌-◌, ◌≤◌, ◌<◌, ◌≡◌, refl, ◌∙◌, ap, true, List, [], ◌∷◌, ◌++◌, none, some,
  arith, length, length-append, length-replicate, take, drop, replicate, blit, leb, lt→ltb, le→ltb,
  take-length-append, drop-length-append, drop-drop, append-nil, All, take_all, drop_all,
  length-take, zero_sub, sub_zero, sub-suc,
}
use iwtftpd.Logging.{put, strncpy, strlen}

-- The bytes of a C string.
abbrev pub IsText : List ℕ → Type 0
IsText s = All (λ (c : ℕ). 0 < c) s

abbrev pub zeros : ℕ → List ℕ
zeros k = replicate k 0

pub strlen-text : (s : List ℕ) (k : ℕ) → IsText s → strlen (s ++ zeros k) ≡ length s
unfolding strlen
strlen-text [] zero h = refl
strlen-text [] (suc k) h = refl
strlen-text (zero ∷ s) k h = absurd (omega arith)
strlen-text (suc c ∷ s) k h = ap suc (strlen-text s k h.1)

pub IsText-append : (s t : List ℕ) → IsText s → IsText t → IsText (s ++ t)
IsText-append [] t hs ht = ht
IsText-append (c ∷ s) t hs ht = (hs.0, IsText-append s t hs.1 ht)

drop-zeros : (n k : ℕ) → drop n (zeros k) ≡ zeros (k - n)
drop-zeros zero k = ap zeros (sub_zero k)
drop-zeros (suc n) zero = ap zeros (zero_sub (suc n))
drop-zeros (suc n) (suc k) = drop-zeros n k ∙ ap zeros (sub-suc k n)

pub blit-end :
    (s x : List ℕ) (k : ℕ) → blit (s ++ zeros k) (length s) x ≡ s ++ (x ++ zeros (k - length x))
blit-end s x k =
    rw
      (
        take-length-append,
        ← drop-drop (length s) (length x) (s ++ zeros k),
        drop-length-append,
        drop-zeros,
      )
      refl

pub length-text_zeros : (s : List ℕ) (k : ℕ) → length (s ++ zeros k) ≡ length s + k
length-text_zeros s k = omega (arith, length-append s (zeros k), length-replicate {A = ℕ} k 0)

-- A byte behind the text.
pub put-end :
    (s : List ℕ) (k c : ℕ) → put (s ++ zeros (suc k)) (length s) c ≡ some (s ++ (c ∷ zeros k))
unfolding put
put-end s k c =
    let one_less : suc k - 1 ≡ k = omega arith in
    rw
      (
        lt→ltb (length s) (length (s ++ zeros (suc k)))
            (omega (arith, length-text_zeros s (suc k))),
        blit-end,
        one_less,
      )
      refl

pub put-past : (buf : List ℕ) (i c : ℕ) → length buf ≤ i → put buf i c ≡ none
unfolding put
put-past buf i c h = rw (le→ltb i (length buf) h) refl

-- `n` bytes of a source that has as many, behind the text.
pub strncpy-end :
    (s src : List ℕ) (k n : ℕ)
    → n ≤ k
    → n ≤ length src
    → strncpy (s ++ zeros k) (length s) src n ≡ some (s ++ (take n src ++ zeros (k - n)))
unfolding strncpy
strncpy-end s src k n h h' =
    let fits : leb (length s + n) (length (s ++ zeros k)) ≡ true =
      ground (arith, length-text_zeros s k) in
    let none_left : n - length src ≡ 0 = omega arith in
    let whole : length (take n src) ≡ n = omega (arith, length-take n src) in
    rw (fits, none_left, append-nil (take n src), blit-end, whole) refl

-- The text that is copied to the start fills the buffer up.
pub strncpy-start :
    (buf t : List ℕ) (n : ℕ)
    → length buf ≡ n
    → length t ≤ n
    → strncpy buf 0 t n ≡ some (t ++ zeros (n - length t))
unfolding strncpy
strncpy-start buf t n e h =
    let fits : leb (0 + n) (length buf) ≡ true = ground arith in
    let filled : length buf ≤ 0 + length (t ++ zeros (n - length t)) =
      omega (arith, length-text_zeros t (n - length t)) in
    rw
      (
        fits,
        take_all n t h,
        drop_all (0 + length (t ++ zeros (n - length t))) buf filled,
        append-nil (t ++ zeros (n - length t)),
      )
      refl
