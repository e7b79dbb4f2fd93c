-- ===== src/Main/Start/Confined.antt =====
-- What `main` has done to its rights when it calls `iwtftp_service`.
use iwtftpd.Base.{ℕ, ◌≡◌, refl, ◌∙◌, true, List, some, arith, codes, Bool-cases, inl, inr}
use iwtftpd.Host.{Host}
use iwtftpd.Datastore.{Iwds, iwds_set_chroot}
use iwtftpd.Logging.{Alog, LogHost}
use iwtftpd.Tftp.Init.{Iwtftp, NetHost}
use iwtftpd.Main.Options.{Svconf, CommandLine, configured, new_svconf, set_svconf}
use iwtftpd.Main.Process.{Passwd, Unix, exec_chroot, set_credential}
use iwtftpd.Main.Start.{go, in_jail, user_of, confine, prepare, with_modules, with_options}
use iwtftpd.Main.Start.Stages.{
  Meets, goes, bind-Meets, Meets-go, checked-Meets, object_of-Meets, configure-Meets,
  start_modules-Meets,
}

module _ {W : Type 0} (unix : Unix W) where
  exec_chroot-true :
      (dir : List ℕ) (w : W)
      → (exec_chroot unix dir w).0 ≡ true
      → ((unix.chroot dir w).0 ≡ true)
        × ((unix.chdir (codes "/") (unix.chroot dir w).1).0 ≡ true)
        × ((exec_chroot unix dir w).1 ≡ (unix.chdir (codes "/") (unix.chroot dir w).1).1)
  unfolding exec_chroot
  exec_chroot-true dir w e = elim (Bool-cases (unix.chroot dir w).0) [
    | inl t ↦ (t, rw t at e, rw t refl)
    | inr t ↦ absurd (cc (rw t at e))
  ]

  set_credential-true :
      (name : List ℕ) (uid gid : ℕ) (w : W)
      → (set_credential unix name uid gid w).0 ≡ true
      → let w1 = (unix.setgid gid w).1 in
        let w2 = (unix.initgroups name gid w1).1 in
        ((unix.setgid gid w).0 ≡ true)
        × ((unix.initgroups name gid w1).0 ≡ true)
        × ((unix.setuid uid w2).0 ≡ true)
        × ((set_credential unix name uid gid w).1 ≡ (unix.setuid uid w2).1)
  unfolding set_credential
  set_credential-true name uid gid w e = elim (Bool-cases (unix.setgid gid w).0) [
    | inr t ↦ absurd (cc (rw t at e))
    | inl t ↦ elim (Bool-cases (unix.initgroups name gid (unix.setgid gid w).1).0) [
      | inl s ↦ (t, s, rw (t, s) at e, rw (t, s) refl)
      | inr s ↦ absurd (cc (rw (t, s) at e))
    ]
  ]

  -- From the state `w` on, in this order: `chroot` to a directory and `chdir` to its root, then
  -- `setgid`, `initgroups` and `setuid` to a user's entry, none of which fails; `w'` is the state
  -- after them.
  pub record Confines (dir : List ℕ) (pwd : Passwd) (w w' : W) : Type 0 where
    pub rooted : (unix.chroot dir w).0 ≡ true
    pub w1 : W
    pub after_chroot : w1 ≡ (unix.chroot dir w).1
    pub moved : (unix.chdir (codes "/") w1).0 ≡ true
    pub w2 : W
    pub after_chdir : w2 ≡ (unix.chdir (codes "/") w1).1
    pub group : (unix.setgid pwd.pw_gid w2).0 ≡ true
    pub w3 : W
    pub after_setgid : w3 ≡ (unix.setgid pwd.pw_gid w2).1
    pub groups : (unix.initgroups pwd.pw_name pwd.pw_gid w3).0 ≡ true
    pub w4 : W
    pub after_initgroups : w4 ≡ (unix.initgroups pwd.pw_name pwd.pw_gid w3).1
    pub user : (unix.setuid pwd.pw_uid w4).0 ≡ true
    pub after_setuid : w' ≡ (unix.setuid pwd.pw_uid w4).1

  Confines-steps :
      (dir : List ℕ) (pwd : Passwd) (w w2 w' : W)
      → (exec_chroot unix dir w).0 ≡ true
      → w2 ≡ (exec_chroot unix dir w).1
      → (set_credential unix pwd.pw_name pwd.pw_uid pwd.pw_gid w2).0 ≡ true
      → w' ≡ (set_credential unix pwd.pw_name pwd.pw_uid pwd.pw_gid w2).1
      → Confines dir pwd w w'
  Confines-steps dir pwd w w2 w' jailed between changed ended =
      let (rooted, moved, same) = exec_chroot-true dir w jailed in
      let (group, groups, user, last) =
        set_credential-true pwd.pw_name pwd.pw_uid pwd.pw_gid w2 changed in
      record {
        rooted = rooted;
        w1 = (unix.chroot dir w).1;
        after_chroot = refl;
        moved = moved;
        w2 = w2;
        after_chdir = between ∙ same;
        group = group;
        w3 = (unix.setgid pwd.pw_gid w2).1;
        after_setgid = refl;
        groups = groups;
        w4 = (unix.initgroups pwd.pw_name pwd.pw_gid (unix.setgid pwd.pw_gid w2).1).1;
        after_initgroups = refl;
        user = user;
        after_setuid = ended ∙ last;
      }

  -- What has been done for a configuration when the server `ins` is about to serve.
  pub record Jailed (svc : Svconf) (ins : Iwtftp) (w' : W) : Type 0 where
    pub w : W
    pub pwd : Passwd
    pub dir : List ℕ
    pub known : unix.getpwnam (user_of svc) w ≡ some pwd
    pub confines : Confines dir pwd w w'
    pub at_root : ins.server.ads.dspath ≡ codes "/"

  -- The configuration of the command line, and that it is in force.
  abbrev pub IsConfined : CommandLine → Iwtftp → W → Type 0
  IsConfined cmd ins w' =
      (svc : Svconf) × (set_svconf new_svconf cmd ≡ configured svc) × Jailed svc ins w'

module _ {W : Type 0} ⦃h : Host W⦄ ⦃log : LogHost W⦄ (unix : Unix W) (net : NetHost W) where
  confine-Meets :
      (cmd : CommandLine) (svc : Svconf) (alog : Alog) (ads : Iwds) (atftp : Iwtftp) (w : W)
      → Meets cmd (λ ins w'. Jailed unix svc ins w') (confine unix net svc alog ads atftp w)
  unfolding confine iwds_set_chroot
  confine-Meets cmd svc alog ads atftp w =
      bind-Meets (object_of-Meets 71 _ _ _ (omega arith)) λ pwd w1 q1.
        bind-Meets (checked-Meets 71 _ _ _ (omega arith)) λ u2 w2 q2.
          bind-Meets (checked-Meets 71 _ _ _ (omega arith)) λ u3 w3 q3.
            goes (in_jail ads atftp) w3 (record {
              w = w1;
              pwd = pwd;
              dir = ads.dspath;
              known = rw (q1.1) (q1.0);
              confines = Confines-steps unix ads.dspath pwd w1 w2 w3 q2.0 q2.1 q3.0 q3.1;
              at_root = refl;
            })

  with_modules-Meets :
      (cmd : CommandLine) (svc : Svconf) (alog : Alog) (m : Iwds × Iwtftp) (w : W)
      → set_svconf new_svconf cmd ≡ configured svc
      → Meets cmd (λ p w'. IsConfined unix cmd p.1 w') (with_modules unix net svc alog m w)
  with_modules-Meets cmd svc alog (ads, atftp) w e =
      bind-Meets (confine-Meets cmd svc alog ads atftp w)
        λ ins w1 q. goes (alog, ins) w1 (svc, e, q)

  with_options-Meets :
      (cmd : CommandLine) (r : Svconf × Alog) (w : W)
      → set_svconf new_svconf cmd ≡ configured r.0
      → Meets cmd (λ p w'. IsConfined unix cmd p.1 w') (with_options unix net r w)
  with_options-Meets cmd (svc, alog) w e =
      bind-Meets (start_modules-Meets unix net cmd svc alog w)
        λ m w1 q1. with_modules-Meets cmd svc alog m w1 e

  pub prepare-Meets :
      (cmd : CommandLine) (w : W)
      → Meets cmd (λ p w'. IsConfined unix cmd p.1 w') (prepare unix net cmd w)
  unfolding prepare
  prepare-Meets cmd w =
      bind-Meets (configure-Meets unix net cmd w) λ r w1 q1. with_options-Meets cmd r w1 q1

  -- When `main` is about to call `iwtftp_service`: the command line was accepted, the user of the
  -- configuration it gives was found, and from that state on `chroot`, `chdir`, `setgid`, `initgroups`
  -- and `setuid`, to the entry of that user, have all succeeded, in this order and with nothing in
  -- between; and the datastore of the server looks for files at the new root.
  pub prepare_confines :
      (cmd : CommandLine) (alog : Alog) (ins : Iwtftp) (w w' : W)
      → prepare unix net cmd w ≡ go (alog, ins) w'
      → IsConfined unix cmd ins w'
  prepare_confines cmd alog ins w w' e = Meets-go (alog, ins) w' (prepare-Meets cmd w) e
