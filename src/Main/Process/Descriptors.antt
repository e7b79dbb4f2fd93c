-- ===== src/Main/Process/Descriptors.antt =====
-- The descriptors of the daemon after `daemonize`.
use iwtftpd.Base.{
  ℕ, zero, suc, ◌+◌, ◌≤◌, ◌<◌, ◌≡◌, ◌≢◌, refl, ◌∙◌, ap, Bool, true, ◌&&◌, ◌||◌, not, Option, none,
  some, arith, if◌then◌else◌, ltb, leb, ◌==◌, ==_iff, and_true, and_false, Bool-cases, inl, inr,
}
use iwtftpd.Main.Process.{Unix, child, detached, close_loop, dup_loop, detach, daemonize}

-- What the calls do to the descriptors of the process, as POSIX has it: `fd i w` is the open file that
-- descriptor `i` refers to.
pub record Descriptors {W : Type 0} (unix : Unix W) (fd : ℕ → W → Option ℕ) : Type 0 where
  pub close_fd : (i j : ℕ) (w : W) → fd j (unix.close i w) ≡ (if i == j then none else fd j w)
  pub dup_ok : (a b f : ℕ) (w : W) → fd a w ≡ some f → (unix.dup2 a b w).0 ≡ true
  pub dup_fd :
      (a b j f : ℕ) (w : W)
      → fd a w ≡ some f
      → fd j (unix.dup2 a b w).1 ≡ (if b == j then some f else fd j w)
  pub umask_fd : (m j : ℕ) (w : W) → fd j (unix.umask m w) ≡ fd j w
  pub setsid_fd : (j : ℕ) (w : W) → fd j (unix.setsid w).1 ≡ fd j w
  pub setsid_ok : (w : W) → (unix.setsid w).0 ≡ true

-- The descriptors of the daemon: `f` is what the null device's descriptor refers to.
abbrev pub daemon_fd : {W : Type 0} → (ℕ → W → Option ℕ) → ℕ → ℕ → W → ℕ → Option ℕ
daemon_fd fd excfd f w j =
    if ltb j 3 then some f else if j == excfd then fd excfd w else if ltb j 64 then none else fd j w

module _ {W : Type 0} (unix : Unix W) (fd : ℕ → W → Option ℕ) (laws : Descriptors unix fd) where
  abbrev closes : ℕ → ℕ → ℕ → ℕ → ℕ → Bool
  closes i end excfd nullfd j = (leb i j && ltb j end) && not ((j == excfd) || (j == nullfd))

  abbrev skips : ℕ → ℕ → ℕ → Bool
  skips excfd nullfd i = (i == excfd) || (i == nullfd)

  close_one :
      (i excfd nullfd j : ℕ) (w : W)
      → fd j (if skips excfd nullfd i then w else unix.close i w)
        ≡ (if (i == j) && not (skips excfd nullfd i) then none else fd j w)
  close_one i excfd nullfd j w = elim (Bool-cases (skips excfd nullfd i)) [
    | inl skip ↦ rw (skip, and_false (i == j)) refl
    | inr closed ↦ rw (closed, and_true (i == j)) (laws.close_fd i j w)
  ]

  -- The first of the rounds, and the others.
  closes_step :
      (i end excfd nullfd j : ℕ) (before : Option ℕ)
      → i < end
      → (if closes (i + 1) end excfd nullfd j
          then none
          else if (i == j) && not (skips excfd nullfd i)
          then none
          else before)
        ≡ (if closes i end excfd nullfd j then none else before)
  closes_step i end excfd nullfd j before lt = ground arith

  close_loop_lem :
      (rounds i end excfd nullfd j : ℕ) (w : W)
      → i + rounds ≡ end
      → fd j (close_loop unix rounds i excfd nullfd w)
        ≡ (if closes i end excfd nullfd j then none else fd j w)
  unfolding close_loop
  close_loop_lem zero i end excfd nullfd j w e = ground arith
  close_loop_lem (suc rounds) i end excfd nullfd j w e =
      close_loop_lem rounds (i + 1) end excfd nullfd j _ (omega arith)
      ∙ ap (λ o. if closes (i + 1) end excfd nullfd j then none else o)
          (close_one i excfd nullfd j w)
      ∙ closes_step i end excfd nullfd j (fd j w) (omega arith)

  dup_loop_lem :
      (rounds i end nullfd f : ℕ) (w : W)
      → i + rounds ≡ end
      → end ≤ nullfd
      → fd nullfd w ≡ some f
      → ((dup_loop unix rounds i nullfd w).0 ≡ true)
        × ((j : ℕ)
            → fd j (dup_loop unix rounds i nullfd w).1
              ≡ (if leb i j && ltb j end then some f else fd j w))
  unfolding dup_loop
  dup_loop_lem zero i end nullfd f w e below open_null = (refl, λ j. ground arith)
  dup_loop_lem (suc rounds) i end nullfd f w e below open_null =
      let done = laws.dup_ok nullfd i f w open_null in
      let w1 = (unix.dup2 nullfd i w).1 in
      let still : fd nullfd w1 ≡ some f =
        laws.dup_fd nullfd i nullfd f w open_null ∙ ground (arith, open_null) in
      let (rest, others) = dup_loop_lem rounds (i + 1) end nullfd f w1 (omega arith) below still in
      (
        rw done rest,
        λ j.
            rw done (others j)
            ∙ ap (λ o. if leb (i + 1) j && ltb j end then some f else o)
                (laws.dup_fd nullfd i j f w open_null)
            ∙ dup_step i end f j (fd j w) (omega arith),
      )
    where
      dup_step :
          (i end f j : ℕ) (before : Option ℕ)
          → i < end
          → (if leb (i + 1) j && ltb j end then some f else if i == j then some f else before)
            ≡ (if leb i j && ltb j end then some f else before)
      dup_step i end f j before lt = ground arith

  module _ (excfd nullfd f : ℕ) (log : 3 ≤ excfd) (std : 3 ≤ nullfd) (low : nullfd < 64)
      (other : excfd ≢ nullfd) where
    daemon_step :
        (j : ℕ) (w : W)
        → (if nullfd == j
            then none
            else if leb 0 j && ltb j 3
            then some f
            else if closes 0 64 excfd nullfd j
            then none
            else fd j w)
          ≡ daemon_fd fd excfd f w j
    daemon_step j w = elim (Bool-cases (j == excfd)) [
      | inl e ↦ let q = (==_iff j excfd).0 e in rw (q) (ground arith)
      | inr e ↦ ground arith
    ]

    detach_lem :
        (w : W)
        → fd nullfd w ≡ some f
        → (w' : W) × (detach unix excfd nullfd w ≡ detached w')
          × ((j : ℕ) → fd j w' ≡ daemon_fd fd excfd f w j)
    unfolding detach
    detach_lem w null =
        let w0 = close_loop unix 64 0 excfd nullfd w in
        let left : fd nullfd w0 ≡ some f =
          close_loop_lem 64 0 64 excfd nullfd nullfd w refl ∙ ground (arith, null) in
        let (done, fds) = dup_loop_lem 3 0 3 nullfd f w0 refl std left in
        let w1 = (dup_loop unix 3 0 nullfd w0).1 in
        let w2 = unix.umask 0 (unix.close nullfd w1) in
        (
          (unix.setsid w2).1,
          rw (done, laws.setsid_ok w2) refl,
          λ j.
              laws.setsid_fd j w2
              ∙ laws.umask_fd 0 j (unix.close nullfd w1)
              ∙ laws.close_fd nullfd j w1
              ∙ ap (λ o. if nullfd == j then none else o) (fds j)
              ∙ ap (λ o. if nullfd == j then none else if leb 0 j && ltb j 3 then some f else o)
                  (close_loop_lem 64 0 64 excfd nullfd j w refl)
              ∙ daemon_step j w,
        )

    -- In the child process, with the log file and the null device at different descriptors from 3
    -- on, the null device's below 64, with a `setsid` that succeeds and the calls on descriptors as
    -- documented, `daemonize` succeeds: the standard descriptors refer to the null device, the log
    -- file's descriptor is what it was after the null device was opened, all others below 64 are
    -- closed, and those above are left alone.
    pub daemonize_lem :
        (w : W)
        → (unix.fork w).0 ≡ child
        → (unix.open_null (unix.fork w).1).0 ≡ some nullfd
        → let w2 = (unix.open_null (unix.fork w).1).1 in
          fd nullfd w2 ≡ some f
          → (w' : W) × (daemonize unix excfd w ≡ detached w')
            × ((j : ℕ) → fd j w' ≡ daemon_fd fd excfd f w2 j)
    unfolding daemonize
    daemonize_lem w forked opened null =
        let (w', ran, fds) = detach_lem (unix.open_null (unix.fork w).1).1 null in
        (w', rw (forked, opened) ran, fds)
