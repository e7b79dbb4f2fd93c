-- ===== src/Base/Slices.antt =====
-- Parts of a buffer: `slice p n xs` is the `n` bytes from index `p` on.
use Prim.Native.Nat.{ℕ, zero, suc, ◌+◌, ◌-◌, ◌≤◌, ◌<◌}
use mathlib.Core.Path.{◌≡◌, refl, ap, ◌∙◌, sym}
use mathlib.Core.List.{List, [], ◌∷◌, ◌++◌}
use native.Mathlib.Omega.{arith}
use iwtftpd.Base.Lists.{length, take, drop, get_or, length-take, length-drop, drop-nil, take-nil}

pub zero_sub : (n : ℕ) → 0 ≡ 0 - n
zero_sub n = omega arith

pub sub_zero : (n : ℕ) → n ≡ n - 0
sub_zero n = omega arith

pub sub-suc : (n k : ℕ) → n - k ≡ suc n - suc k
sub-suc n k = omega arith

suc-add : (n k : ℕ) → suc (n + k) ≡ suc n + k
suc-add n k = omega arith

zero_add : (k : ℕ) → k ≡ 0 + k
zero_add k = omega arith

module _ {ℓ} {A : Type ℓ} where
  abbrev pub slice : ℕ → ℕ → List A → List A
  slice p n xs = take n (drop p xs)

  pub slice_cons :
      (p n : ℕ) (xs : List A) (d : A)
      → p < length xs
      → slice p (suc n) xs ≡ get_or xs p d ∷ slice (suc p) n xs
  slice_cons p n [] d h = absurd (omega arith)
  slice_cons zero n (x ∷ xs) d h = refl
  slice_cons (suc p) n (x ∷ xs) d h = slice_cons p n xs d (omega arith)

  pub drop-drop : (p k : ℕ) (xs : List A) → drop k (drop p xs) ≡ drop (p + k) xs
  drop-drop zero k xs = ap (λ n. drop n xs) (zero_add k)
  drop-drop (suc p) k [] = drop-nil A k ∙ sym (drop-nil A (suc p + k))
  drop-drop (suc p) k (x ∷ xs) = drop-drop p k xs ∙ ap (λ n. drop n (x ∷ xs)) (suc-add p k)

  pub drop-take : (k n : ℕ) (xs : List A) → drop k (take n xs) ≡ take (n - k) (drop k xs)
  drop-take zero n xs = ap (λ m. take m xs) (sub_zero n)
  drop-take (suc k) zero xs = ap (λ m. take m (drop (suc k) xs)) (zero_sub (suc k))
  drop-take (suc k) (suc n) [] = sym (take-nil A (suc n - suc k))
  drop-take (suc k) (suc n) (x ∷ xs) = drop-take k n xs ∙ ap (λ m. take m (drop k xs)) (sub-suc n k)

  pub drop-slice : (k p n : ℕ) (xs : List A) → drop k (slice p n xs) ≡ slice (p + k) (n - k) xs
  drop-slice k p n xs = drop-take k n (drop p xs) ∙ ap (take (n - k)) (drop-drop p k xs)

  pub take-take : (k n : ℕ) (xs : List A) → k ≤ n → take k (take n xs) ≡ take k xs
  take-take zero n xs h = refl
  take-take (suc k) zero xs h = absurd (omega arith)
  take-take (suc k) (suc n) [] h = refl
  take-take (suc k) (suc n) (x ∷ xs) h = ap (◌∷◌ x) (take-take k n xs (omega arith))

  pub length-slice : (p n : ℕ) (xs : List A) → p + n ≤ length xs → length (slice p n xs) ≡ n
  length-slice p n xs h = omega (arith, length-take n (drop p xs), length-drop p xs)

  pub take-append :
      (n : ℕ) (xs ys : List A) → take n (xs ++ ys) ≡ take n xs ++ take (n - length xs) ys
  take-append n [] ys = rw (take-nil, ← sub_zero n)
  take-append zero (x ∷ xs) ys = ap (λ m. take m ys) (zero_sub (suc (length xs)))
  take-append (suc n) (x ∷ xs) ys =
      ap (◌∷◌ x) (take-append n xs ys ∙ ap (λ m. take n xs ++ take m ys) (sub-suc n (length xs)))

  pub drop-append :
      (n : ℕ) (xs ys : List A) → drop n (xs ++ ys) ≡ drop n xs ++ drop (n - length xs) ys
  drop-append n [] ys = rw (drop-nil, ← sub_zero n)
  drop-append zero (x ∷ xs) ys = ap (λ m. (x ∷ xs) ++ drop m ys) (zero_sub (suc (length xs)))
  drop-append (suc n) (x ∷ xs) ys =
      drop-append n xs ys ∙ ap (λ m. drop n xs ++ drop m ys) (sub-suc n (length xs))
