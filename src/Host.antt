-- ===== src/Host.antt =====
-- The calls of the C library and of the operating system that src/datastore.c and src/tftp.c make,
-- as an interface: none of them is code of the repository. A value `W` is the state of everything
-- outside the process; a call that may change it returns the new one.
use iwtftpd.Base.{ℕ, ◌≤◌, Bool, Option, List, length}

-- What `stat` finds: `S_ISREG`, `S_ISDIR`, or neither.
pub data FileKind : Type 0 where
  regular directory special : FileKind

-- The mode argument of `fopen`, "r" or "w".
pub data OpenMode : Type 0 where
  for_read for_write : OpenMode

pub record Host (W : Type 0) : Type 0 where
  -- whether `malloc` of so many bytes succeeds
  pub malloc : ℕ → W → Bool × W
  -- the canonical path; `none` is NULL
  pub realpath : List ℕ → W → Option (List ℕ)
  -- `none` is the result -1
  pub stat : List ℕ → W → Option FileKind
  -- a `FILE *` is a number; `none` is NULL
  pub fopen : List ℕ → OpenMode → W → Option ℕ × W
  -- the bytes that `fread(buf, 1, n, fp)` stores
  pub fread : ℕ → ℕ → W → List ℕ × W
  pub ferror : ℕ → W → Bool
  -- the number of bytes that `fwrite(buf, 1, n, fp)` takes
  pub fwrite : ℕ → List ℕ → W → ℕ × W
  -- `true` unless the result is EOF
  pub fclose : ℕ → W → Bool × W
  -- `time(NULL)`
  pub time : W → ℕ
  -- the address of a socket, opaque; `none` is the result -1
  pub getsockname : ℕ → W → Option ℕ
  -- the numeric host of an address
  pub getnameinfo : ℕ → W → Option (List ℕ)
  -- the family of an address
  pub family_of : ℕ → ℕ
  -- the first address to bind for a family, a numeric host or any, and a service or any port
  pub getaddrinfo : ℕ → Option (List ℕ) → Option (List ℕ) → W → Option ℕ
  pub socket : ℕ → W → Option ℕ × W
  pub setsockopt : ℕ → W → Bool × W
  pub bind : ℕ → ℕ → W → Bool × W
  pub close : ℕ → W → W
  -- `sendto(sock, bytes, addr)`: `true` unless the result is -1
  pub sendto : ℕ → List ℕ → ℕ → W → Bool × W

-- `fread` stores no more than it was asked for.
abbrev pub FreadBound : {W : Type 0} → Host W → Type 0
FreadBound {W} h = (fp n : ℕ) (w : W) → length (h.fread fp n w).0 ≤ n
