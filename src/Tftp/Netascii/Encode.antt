-- ===== src/Tftp/Netascii/Encode.antt =====
-- `local_to_netascii` of src/tftp.c against the encoding of a whole text.
use iwtftpd.Base.{
  ℕ, zero, suc, ◌+◌, ◌-◌, ◌≤◌, ◌<◌, ◌≡◌, refl, ap, ◌∙◌, ◌&&◌, List, [], ◌∷◌, ◌++◌, ltb, ◌==◌,
  if◌then◌else◌, take, drop, get_or, length, arith, slice, slice_cons, Bool-cases, inl, inr,
}
use iwtftpd.Tftp.Netascii.{scan_lf}

-- Netascii: every line feed is preceded by a carriage return.
unfoldable pub encode : List ℕ → List ℕ
encode [] = []
encode (c ∷ u) = if c == b'\n' then b'\r' ∷ c ∷ encode u else c ∷ encode u

-- How many bytes go before the first line feed, `room` at most.
pub lf_run : ℕ → List ℕ → ℕ
lf_run zero u = 0
lf_run (suc room) [] = 0
lf_run (suc room) (c ∷ u) = if c == b'\n' then 0 else suc (lf_run room u)

lf_run_cons :
    (room c : ℕ) (u : List ℕ)
    → 0 < room
    → lf_run room (c ∷ u) ≡ (if c == b'\n' then 0 else suc (lf_run (room - 1) u))
unfolding lf_run
lf_run_cons zero c u h = absurd (omega arith)
lf_run_cons (suc room) c u h = ap (λ n. if c == b'\n' then 0 else suc (lf_run n u)) (omega arith)

pub lf_run_bounds : (room : ℕ) (u : List ℕ) → (lf_run room u ≤ room) × (lf_run room u ≤ length u)
unfolding lf_run
lf_run_bounds zero u = omega arith
lf_run_bounds (suc room) [] = omega arith
lf_run_bounds (suc room) (c ∷ u) = ground (arith, lf_run_bounds room u)

-- The bytes of the run are their own encoding.
pub encode_run :
    (room : ℕ) (u : List ℕ) → encode u ≡ take (lf_run room u) u ++ encode (drop (lf_run room u) u)
unfolding encode lf_run
encode_run zero u = refl
encode_run (suc room) [] = refl
encode_run (suc room) (c ∷ u) = ground (arith, encode_run room u)

-- A run that stops early stops at a line feed.
pub run_stops :
    (room : ℕ) (u : List ℕ)
    → lf_run room u < room
    → lf_run room u < length u
    → drop (lf_run room u) u ≡ b'\n' ∷ drop (suc (lf_run room u)) u
unfolding lf_run
run_stops zero u h k = absurd (omega arith)
run_stops (suc room) [] h k = absurd (omega arith)
run_stops (suc room) (c ∷ u) h k = ground (arith, run_stops room u)

pub suc-eq-add_one : (n : ℕ) → suc n ≡ n + 1
suc-eq-add_one n = omega arith

-- The loop over the storage finds the run of the bytes that are left.
pub scan_lf_lem :
    (storage : List ℕ) (bufsize ps len left : ℕ)
    → ps + left ≤ length storage
    → let k = lf_run (bufsize - len) (slice ps left storage) in
      scan_lf storage bufsize ps len left ≡ record {
        ps = ps + k;
        len = len + k;
        left = left - k;
        hit = ltb k (bufsize - len) && ltb k left;
      }
unfolding scan_lf lf_run
scan_lf_lem storage bufsize ps len zero h = ground (arith, lf_run_bounds (bufsize - len) [])
scan_lf_lem storage bufsize ps len (suc left) h =
    let rest = slice (ps + 1) left storage in
    let head : slice ps (suc left) storage ≡ get_or storage ps 0 ∷ rest =
      slice_cons ps left storage 0 (omega arith)
      ∙ ap (λ p. get_or storage ps 0 ∷ slice p left storage) (suc-eq-add_one ps) in
    let room : bufsize - len - 1 ≡ bufsize - (len + 1) = omega arith in
    elim (Bool-cases (ltb len bufsize)) [
      | inr stop ↦
          let none_left : bufsize - len ≡ 0 = ground arith in
          rw (stop, none_left, lf_run) (ground arith)
      | inl go ↦
          rw (head, go, lf_run_cons (bufsize - len) (get_or storage ps 0) rest (ground arith), room)
            (ground (
              arith,
              scan_lf_lem storage bufsize (ps + 1) (len + 1) left (omega arith),
              lf_run_bounds (bufsize - (len + 1)) rest,
            ))
    ]
