-- ===== src/Base/Bytes.antt =====
-- Bytes are numbers below 256, buffers are lists of bytes with indices for pointers into them, and a
-- C string is the list of its bytes before the terminating NUL.
use Prim.Native.Nat.{ℕ, ◌+◌, ◌*◌, ◌/◌, ◌%◌}
use mathlib.Core.Path.{◌≡◌, refl}
use mathlib.Core.Bool.{Bool, true, false, ◌&&◌}
use mathlib.Core.List.{List, [], ◌∷◌, ◌++◌}
use native.Mathlib.Omega.{arith}
use Prim.Native.String.{String}
use Prim.Native.Char.{code}
use iwtftpd.Base.Tests.{◌==◌}
use iwtftpd.Base.Lists.{length, take, drop, get_or}

-- The bytes of a text in ASCII.
abbrev pub codes : String → List ℕ
codes String.[] = []
codes (String.◌∷◌ c s) = code c ∷ codes s

-- `strcmp(s, t) == 0`
unfoldable pub str_eq : List ℕ → List ℕ → Bool
str_eq [] [] = true
str_eq [] (y ∷ ys) = false
str_eq (x ∷ xs) [] = false
str_eq (x ∷ xs) (y ∷ ys) = (x == y) && str_eq xs ys

pub str_eq_sound : (s t : List ℕ) → str_eq s t ≡ true → s ≡ t
unfolding str_eq
str_eq_sound [] [] h = refl
str_eq_sound [] (y ∷ ys) h = cc
str_eq_sound (x ∷ xs) [] h = cc
str_eq_sound (x ∷ xs) (y ∷ ys) h = ground (arith, str_eq_sound xs ys)

pub str_eq_refl : (s : List ℕ) → str_eq s s ≡ true
unfolding str_eq
str_eq_refl [] = refl
str_eq_refl (x ∷ xs) = ground (arith, str_eq_refl xs)

-- `memcpy(buf + at, bytes, length bytes)`
abbrev pub blit : List ℕ → ℕ → List ℕ → List ℕ
blit buf at bytes = take at buf ++ (bytes ++ drop (at + length bytes) buf)

-- `htons` followed by a store: a 16-bit number as two bytes, the high one first.
abbrev pub be16 : ℕ → List ℕ
be16 n = n / 256 % 256 ∷ n % 256 ∷ []

-- A load of two bytes at an index, followed by `ntohs`.
abbrev pub load16 : List ℕ → ℕ → ℕ
load16 buf i = get_or buf i 0 * 256 + get_or buf (i + 1) 0
