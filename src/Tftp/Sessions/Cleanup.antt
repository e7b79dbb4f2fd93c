-- ===== src/Tftp/Sessions/Cleanup.antt =====
-- `cleanup_session` of src/tftp.c on a list of sessions.
use iwtftpd.Base.{
  ℕ, ◌≡◌, refl, sym, ap, ◌∙◌, Bool, true, false, List, [], ◌∷◌, ◌++◌, none, some, if◌then◌else◌,
  Bool-cases, inl, inr, append_assoc, append-nil,
}
use mathlib.Core.Path.{subst}
use iwtftpd.Host.{Host}
use iwtftpd.Tftp.Types.{Session}
use iwtftpd.Tftp.Sessions.{is_client, get_session, is_over, cleanup_loop, cleanup_session}
use iwtftpd.Tftp.Sessions.Keys.{IsUnique, is_client_iff}

absent_later :
    (ip : List ℕ) (port : ℕ) (passed : List Session) (pm : Session) (next : List Session)
    → get_session (passed ++ (pm ∷ next)) ip port ≡ none
    → is_client ip port pm ≡ false
unfolding get_session
absent_later ip port [] pm next e = elim (Bool-cases (is_client ip port pm)) [
  | inl t ↦ absurd (cc (rw t at e))
  | inr t ↦ t
]
absent_later ip port (s ∷ passed) pm next e = elim (Bool-cases (is_client ip port s)) [
  | inl t ↦ absurd (cc (rw t at e))
  | inr t ↦ absent_later ip port passed pm next (rw t at e)
]

is_client-swap :
    (s t : Session) → is_client s.clip s.clport t ≡ false → is_client t.clip t.clport s ≡ false
is_client-swap s t e = elim (Bool-cases (is_client t.clip t.clport s)) [
  | inl hit ↦
      let (i, k) = (is_client_iff t.clip t.clport s).0 hit in
      cc ((is_client_iff s.clip s.clport t).1 (sym i, sym k))
  | inr miss ↦ miss
]

-- In a list with distinct clients, no session before `pm` has its client.
absent_before :
    (passed : List Session) (pm : Session) (next : List Session)
    → IsUnique (passed ++ (pm ∷ next))
    → get_session passed pm.clip pm.clport ≡ none
unfolding get_session
absent_before [] pm next u = refl
absent_before (s ∷ passed) pm next u =
    rw (is_client-swap s pm (absent_later s.clip s.clport passed pm next u.0))
      (absent_before passed pm next u.1)

module _ {W : Type 0} ⦃h : Host W⦄ where
  -- Whether a session of the list is over.
  abbrev pub any_over : List Session → W → Bool
  any_over [] w = false
  any_over (s ∷ rest) w = let others = any_over rest w in if is_over s w then true else others

  cleanup_loop_lem :
      (passed todo : List Session) (w : W)
      → IsUnique (passed ++ todo)
      → cleanup_loop passed todo w ≡ (if any_over todo w then none else some (passed ++ todo, w))
  unfolding cleanup_loop
  cleanup_loop_lem passed [] w u = ap (λ ss. some (ss, w)) (sym (append-nil passed))
  cleanup_loop_lem passed (pm ∷ next) w u =
      let same : (passed ++ (pm ∷ [])) ++ next ≡ passed ++ (pm ∷ next) =
        append_assoc passed (pm ∷ []) next in
      elim (Bool-cases (is_over pm w)) [
        | inl over ↦ rw (over, absent_before passed pm next u) refl
        | inr stays ↦ rw stays (
            cleanup_loop_lem (passed ++ (pm ∷ [])) next w (subst IsUnique (sym same) u)
            ∙ ap (λ ss. if any_over next w then none else some (ss, w)) same)
      ]

  -- `cleanup_session` on a list with distinct clients.
  pub cleanup_session_lem :
      (ss : List Session) (w : W)
      → IsUnique ss
      → cleanup_session ss w ≡ (if any_over ss w then none else some (ss, w))
  unfolding cleanup_session
  cleanup_session_lem ss w u = cleanup_loop_lem [] ss w u
