-- ===== src/Util.antt =====
-- src/util.c: `join_path`, which the datastore calls with a buffer that it allocates itself.
pub mod Paths
mod Tests
use mathlib.Core.Bool.{cond}
use iwtftpd.Base.{
  ℕ, ◌+◌, ◌≡◌, Bool, true, false, List, [], ◌∷◌, ◌++◌, length, ltb, ◌==◌, if◌then◌else◌,
}

-- What `join_path` does: it returns the length that it counted, with the bytes stored before the
-- NUL; or -1; or it touches the byte before the buffer, as for an empty head or buffer.
pub data Join : Type 0 where
  joined : ℕ → List ℕ → Join
  too_long before_buffer : Join

-- `while (*s && len < bufsize) { *pm++ = *s++; len++; }`
unfoldable pub copy_loop : ℕ → List ℕ → List ℕ → ℕ → List ℕ × ℕ
copy_loop bufsize [] out len = (out, len)
copy_loop bufsize (c ∷ s) out len =
    if ltb len bufsize then copy_loop bufsize s (out ++ (c ∷ [])) (len + 1) else (out, len)

-- `while (*tail == '/') tail++;`
unfoldable pub skip_slashes : List ℕ → List ℕ
skip_slashes [] = []
skip_slashes (c ∷ s) = if c == b'/' then skip_slashes s else c ∷ s

-- `*(pm - 1) == '/'`, for a non-empty text
unfoldable pub ends_in_slash : List ℕ → Bool
ends_in_slash [] = false
ends_in_slash (c ∷ []) = c == b'/'
ends_in_slash (c ∷ d ∷ s) = ends_in_slash (d ∷ s)

-- The delimiter is stored, but not counted in `len`.
unfoldable pub add_slash : List ℕ → List ℕ
unfolding ends_in_slash
add_slash s = if ends_in_slash s then s else s ++ (b'/' ∷ [])

unfoldable pub join_tail : ℕ → List ℕ → List ℕ → ℕ → Join
unfolding copy_loop skip_slashes add_slash
join_tail bufsize tail [] len = before_buffer
join_tail bufsize tail (c ∷ out) len =
    let (text, total) = copy_loop bufsize (skip_slashes tail) (add_slash (c ∷ out)) len in
    if total == bufsize then too_long else joined total text

unfoldable pub join_path : List ℕ → List ℕ → ℕ → Join
unfolding copy_loop join_tail
join_path head tail bufsize =
    let (out, len) = copy_loop bufsize head [] 0 in
    if len == bufsize
    then cond (bufsize == 0) before_buffer too_long
    else join_tail bufsize tail out len
