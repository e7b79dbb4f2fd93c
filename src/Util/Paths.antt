-- ===== src/Util/Paths.antt =====
-- What `join_path` stores, and how far into the buffer.
use iwtftpd.Base.{
  ℕ, ◌+◌, ◌≤◌, ◌≡◌, List, [], ◌∷◌, ◌++◌, arith, length, length-append, append-nil, append_assoc,
  false,
}
use iwtftpd.Util.{joined, copy_loop, skip_slashes, add_slash, ends_in_slash, join_path}

-- With room for all of it the loop copies the whole text.
copy_loop_lem :
    (n : ℕ) (s out : List ℕ) (len : ℕ)
    → len + length s ≤ n
    → copy_loop n s out len ≡ (out ++ s, len + length s)
unfolding copy_loop
copy_loop_lem n [] out len h = ground (arith, append-nil out)
copy_loop_lem n (c ∷ s) out len h =
    ground (arith, copy_loop_lem n s (out ++ (c ∷ [])) (len + 1), append_assoc out (c ∷ []) s)

pub length-skip_slashes : (s : List ℕ) → length (skip_slashes s) ≤ length s
unfolding skip_slashes
length-skip_slashes [] = omega arith
length-skip_slashes (c ∷ s) = ground (arith, length-skip_slashes s)

pub length-add_slash : (s : List ℕ) → length (add_slash s) ≤ length s + 1
unfolding add_slash
length-add_slash s = ground (arith, length-append s (b'/' ∷ []))

length-add_slash_ne : (s : List ℕ) → ends_in_slash s ≡ false → length (add_slash s) ≡ length s + 1
unfolding add_slash
length-add_slash_ne s e = ground (arith, length-append s (b'/' ∷ []))

-- For a non-empty head and a buffer of at least `strlen(head) + strlen(tail) + 2` bytes, `join_path`
-- stores the head, a delimiter unless the head ends in one, and the tail without its leading
-- slashes; the text and its NUL fit into the buffer, and the result counts the head and the tail.
pub join_path_fits :
    (c : ℕ) (head tail : List ℕ) (size : ℕ)
    → length (c ∷ head) + length tail + 2 ≤ size
    → (join_path (c ∷ head) tail size
        ≡ joined
            (length (c ∷ head) + length (skip_slashes tail))
            (add_slash (c ∷ head) ++ skip_slashes tail))
      × (length (add_slash (c ∷ head) ++ skip_slashes tail) + 1 ≤ size)
unfolding join_path
join_path_fits c head tail size h = ground (
  arith,
  copy_loop_lem size (c ∷ head) [] 0,
  copy_loop_lem size (skip_slashes tail) (add_slash (c ∷ head)) (length (c ∷ head)),
  length-skip_slashes tail,
  length-add_slash (c ∷ head),
  length-append (add_slash (c ∷ head)) (skip_slashes tail),
)

-- The delimiter is not counted: where a head that does not end in a slash and the stripped tail
-- leave just one byte of the buffer free, `join_path` reports success, and the text and its NUL
-- take one byte more than the buffer holds.
pub join_path_overflow :
    (c : ℕ) (head tail : List ℕ) (size : ℕ)
    → ends_in_slash (c ∷ head) ≡ false
    → length (c ∷ head) + length (skip_slashes tail) + 1 ≡ size
    → (join_path (c ∷ head) tail size
        ≡ joined
            (length (c ∷ head) + length (skip_slashes tail))
            (add_slash (c ∷ head) ++ skip_slashes tail))
      × (length (add_slash (c ∷ head) ++ skip_slashes tail) + 1 ≡ size + 1)
unfolding join_path
join_path_overflow c head tail size e h = ground (
  arith,
  copy_loop_lem size (c ∷ head) [] 0,
  copy_loop_lem size (skip_slashes tail) (add_slash (c ∷ head)) (length (c ∷ head)),
  length-add_slash_ne (c ∷ head),
  length-append (add_slash (c ∷ head)) (skip_slashes tail),
)
