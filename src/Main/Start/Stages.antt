-- ===== src/Main/Start/Stages.antt =====
-- What holds when a stage of `main` goes on, and when it leaves.
use mathlib.Core.Path.{subst, ap}
use iwtftpd.Base.{
  ℕ, ◌<◌, ◌≡◌, refl, sym, Bool, true, false, Option, none, some, arith, ◌==◌, Bool-cases, inl, inr,
}
use iwtftpd.Host.{Host}
use iwtftpd.Logging.{Alog, LogHost, Effect, ok, bad_pointer, overrun}
use iwtftpd.Tftp.Init.{NetHost}
use iwtftpd.Main.Options.{
  Svconf, CommandLine, Configured, version, usage, help, configured, new_svconf, set_svconf,
}
use iwtftpd.Main.Process.{Unix, Daemon, parent_exits, not_detached, detached}
use iwtftpd.Main.Start.{
  Held, Stage, go, ferr, showver, help_exit, parent_exit, crash, Run, and_then, checked, object_of,
  options, as_root, opened_log, fd_of, as_daemon, create_svconf, configure, start_modules,
}

-- The stage goes on with a value and a state that satisfy `P`, or leaves with an exit code other than
-- 0; it shows the version or the help only for a command line that asks for it.
pub data Meets {A W : Type 0} (cmd : CommandLine) (P : A → W → Type 0) : Stage A W → Type 0 where
  goes : (a : A) (w : W) → P a w → Meets cmd P (go a w)
  fails : (code : ℕ) (held : Held) (w : W) → 0 < code → Meets cmd P (ferr code held w)
  shows : set_svconf new_svconf cmd ≡ version → (w : W) → Meets cmd P (showver w)
  helps : set_svconf new_svconf cmd ≡ help → (w : W) → Meets cmd P (help_exit w)
  parent : (w : W) → Meets cmd P (parent_exit w)
  crashes : Meets cmd P crash

abbrev pub Any : {A W : Type 0} → A → W → Type 0
Any a w = Unit {0}

-- What a stage goes on with, or else `p`.
abbrev stage_or : {A W : Type 0} → Stage A W → A × W → A × W
stage_or (go a w) p = (a, w)
stage_or (ferr code held w) p = p
stage_or (showver w) p = p
stage_or (help_exit w) p = p
stage_or (parent_exit w) p = p
stage_or crash p = p

module _ {W : Type 0} {cmd : CommandLine} where
  pub bind-Meets :
      {A B : Type 0} {Q : A → W → Type 0} {P : B → W → Type 0} {m : Stage A W} {f : A → Run W B}
      → Meets cmd Q m
      → ((a : A) (w : W) → Q a w → Meets cmd P (f a w))
      → Meets cmd P (and_then m f)
  unfolding and_then
  bind-Meets (goes a w q) k = k a w q
  bind-Meets (fails code held w lt) k = fails code held w lt
  bind-Meets (shows e w) k = shows e w
  bind-Meets (helps e w) k = helps e w
  bind-Meets (parent w) k = parent w
  bind-Meets crashes k = crashes

  -- What a stage went on with.
  pub Meets-go :
      {A : Type 0} {P : A → W → Type 0} {s : Stage A W} (a : A) (w : W)
      → Meets cmd P s
      → s ≡ go a w
      → P a w
  Meets-go {P} a w (goes b v p) e =
      subst (λ (x : _ × W). P x.0 x.1) (ap (λ s. stage_or s (b, v)) e) p
  Meets-go a w (fails code held v lt) e = cc
  Meets-go a w (shows asked v) e = cc
  Meets-go a w (helps asked v) e = cc
  Meets-go a w (parent v) e = cc
  Meets-go a w crashes e = cc

  pub checked-Meets :
      (code : ℕ) (held : Held) (b : Bool) (w : W)
      → 0 < code
      → Meets cmd (λ _ v. (b ≡ true) × (v ≡ w)) (checked code held b w)
  checked-Meets code held true w lt = goes tt w (refl, refl)
  checked-Meets code held false w lt = fails code held w lt

  pub object_of-Meets :
      {A : Type 0} (code : ℕ) (held : Held) (o : Option A) (w : W)
      → 0 < code
      → Meets cmd (λ a v. (o ≡ some a) × (v ≡ w)) (object_of code held o w)
  object_of-Meets code held none w lt = fails code held w lt
  object_of-Meets code held (some a) w lt = goes a w (refl, refl)

module _ {W : Type 0} ⦃h : Host W⦄ ⦃log : LogHost W⦄ (unix : Unix W) (net : NetHost W)
    (cmd : CommandLine) where
  options-Meets :
      (c : Configured) (w : W)
      → set_svconf new_svconf cmd ≡ c
      → Meets cmd (λ svc _. set_svconf new_svconf cmd ≡ configured svc) (options unix net c w)
  options-Meets version w e = shows e w
  options-Meets help w e = helps e w
  options-Meets usage w e = fails 64 _ w (omega arith)
  options-Meets (configured svc) w e = goes svc w e

  as_root-Meets : (w : W) → Meets cmd Any (as_root unix net w)
  as_root-Meets w = elim (Bool-cases (unix.getuid w == 0)) [
    | inl root ↦ rw root (goes tt w tt)
    | inr other ↦ rw other (fails 64 _ w (omega arith))
  ]

  opened_log-Meets : (e : Effect (Bool × Alog × W)) → Meets cmd Any (opened_log unix net e)
  opened_log-Meets (ok (true, alog, w)) = goes alog w tt
  opened_log-Meets (ok (false, alog, w)) = fails 70 _ w (omega arith)
  opened_log-Meets bad_pointer = crashes
  opened_log-Meets overrun = crashes

  fd_of-Meets : (alog : Alog) (e : Effect (Option ℕ × W)) → Meets cmd Any (fd_of unix net alog e)
  fd_of-Meets alog (ok (some fd, w)) = goes fd w tt
  fd_of-Meets alog (ok (none, w)) = fails 70 _ w (omega arith)
  fd_of-Meets alog bad_pointer = crashes
  fd_of-Meets alog overrun = crashes

  as_daemon-Meets : (alog : Alog) (d : Daemon W) → Meets cmd Any (as_daemon unix net alog d)
  as_daemon-Meets alog (parent_exits w) = parent w
  as_daemon-Meets alog (not_detached w) = fails 71 _ w (omega arith)
  as_daemon-Meets alog (detached w) = goes tt w tt

  create_svconf-new :
      (psv : Svconf) (w : W) → (create_svconf unix net w).0 ≡ some psv → psv ≡ new_svconf
  unfolding create_svconf
  create_svconf-new psv w e = elim (Bool-cases (h.malloc 40 w).0) [
    | inl t ↦ cc (rw t at e)
    | inr t ↦ absurd (cc (rw t at e))
  ]

  -- `main` goes on with the configuration that the options give.
  pub configure-Meets :
      (w : W)
      → Meets cmd
          (λ (r : Svconf × Alog) (_ : W). set_svconf new_svconf cmd ≡ configured r.0)
          (configure unix net cmd w)
  unfolding configure
  configure-Meets w = bind-Meets (object_of-Meets 70 _ _ _ (omega arith)) λ psv w1 q1.
      let same = ap (λ p. set_svconf p cmd) (sym (create_svconf-new psv w q1.0)) in
      bind-Meets (options-Meets (set_svconf psv cmd) w1 same) λ svc w2 q2.
        bind-Meets (as_root-Meets w2) λ u3 w3 q3.
          bind-Meets (checked-Meets 71 _ _ _ (omega arith)) λ u4 w4 q4.
            bind-Meets (checked-Meets 71 _ _ _ (omega arith)) λ u5 w5 q5.
              bind-Meets (opened_log-Meets _) λ alog w6 q6.
                bind-Meets (fd_of-Meets alog _)
                  λ fd w7 q7. bind-Meets (as_daemon-Meets alog _) λ u8 w8 q8. goes (svc, alog) w8 q2

  pub start_modules-Meets :
      (svc : Svconf) (alog : Alog) (w : W) → Meets cmd Any (start_modules unix net svc alog w)
  unfolding start_modules
  start_modules-Meets svc alog w = bind-Meets (object_of-Meets 70 _ _ _ (omega arith)) λ ads w1 q1.
      bind-Meets (object_of-Meets 70 _ _ _ (omega arith)) λ atftp w2 q2. goes (ads, atftp) w2 tt
