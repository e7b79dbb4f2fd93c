-- ===== src/Tftp/Sessions/Keys.antt =====
-- Lookups in the session list of src/tftp.c after it was changed under one client's key.
use iwtftpd.Base.{
  ℕ, ◌≡◌, refl, sym, ◌∙◌, true, false, List, [], ◌∷◌, none, some, arith, ◌↔◌, str_eq_sound,
  str_eq_refl, Bool-cases, inl, inr,
}
use iwtftpd.Tftp.Types.{Session}
use iwtftpd.Tftp.Sessions.{is_client, get_session, put_back, unlink_session}

-- Two clients differ in the address or in the port.
abbrev pub OtherClient : List ℕ → ℕ → List ℕ → ℕ → Type 0
OtherClient ip port ip' port' = (ip ≡ ip') × (port ≡ port') → ⊥

-- No two sessions of the list have one client.
abbrev pub IsUnique : List Session → Type 0
IsUnique [] = Unit {0}
IsUnique (s ∷ rest) = (get_session rest s.clip s.clport ≡ none) × IsUnique rest

pub is_client_iff :
    (ip : List ℕ) (port : ℕ) (s : Session)
    → (is_client ip port s ≡ true) ↔ ((s.clip ≡ ip) × (s.clport ≡ port))
unfolding is_client
is_client_iff ip port s =
    (λ e. ground (arith, str_eq_sound s.clip ip), λ k. ground (arith, k.0, k.1, str_eq_refl ip))

pub get_session-key :
    (ss : List Session) (ip : List ℕ) (port : ℕ) {t : Session}
    → get_session ss ip port ≡ some t
    → (t.clip ≡ ip) × (t.clport ≡ port)
unfolding get_session
get_session-key [] ip port e = cc
get_session-key (s ∷ rest) ip port {t} e = elim (Bool-cases (is_client ip port s)) [
  | inl hit ↦ ground (arith, (is_client_iff ip port s).0 hit)
  | inr miss ↦ get_session-key rest ip port {t = t} (ground arith)
]

-- A session cannot answer to two clients.
one_client :
    (ip : List ℕ) (port : ℕ) (ip' : List ℕ) (port' : ℕ) (t : Session)
    → OtherClient ip port ip' port'
    → is_client ip port t ≡ true
    → is_client ip' port' t ≡ false
one_client ip port ip' port' t ne hit = elim (Bool-cases (is_client ip' port' t)) [
  | inr miss ↦ miss
  | inl hit' ↦
      let (c, p) = (is_client_iff ip port t).0 hit in
      let (c', p') = (is_client_iff ip' port' t).0 hit' in absurd (ne (sym c ∙ c', sym p ∙ p'))
]

pub get-put_back_ne :
    (s : Session) (ss : List Session) (ip : List ℕ) (port : ℕ)
    → OtherClient s.clip s.clport ip port
    → get_session (put_back s ss) ip port ≡ get_session ss ip port
unfolding get_session put_back
get-put_back_ne s [] ip port ne = refl
get-put_back_ne s (t ∷ rest) ip port ne = elim (Bool-cases (is_client s.clip s.clport t)) [
  | inl hit ↦ rw (
    hit,
    one_client s.clip s.clport ip port t ne hit,
    one_client s.clip s.clport ip port s ne ((is_client_iff s.clip s.clport s).1 (refl, refl)),
  )
  | inr miss ↦ ground (arith, get-put_back_ne s rest ip port ne)
]

pub get-put_back_self :
    (s : Session) (ss : List Session) {t : Session}
    → get_session ss s.clip s.clport ≡ some t
    → get_session (put_back s ss) s.clip s.clport ≡ some s
unfolding get_session put_back
get-put_back_self s [] e = cc
get-put_back_self s (u ∷ rest) {t} e = elim (Bool-cases (is_client s.clip s.clport u)) [
  | inl hit ↦ rw (hit, (is_client_iff s.clip s.clport s).1 (refl, refl))
  | inr miss ↦ rw (miss, miss) (get-put_back_self s rest {t = t} (ground arith))
]

-- A list of sessions without a client's session still has none after one is stored back.
pub put_back-IsUnique : (s : Session) (ss : List Session) → IsUnique ss → IsUnique (put_back s ss)
unfolding put_back
put_back-IsUnique s [] u = tt
put_back-IsUnique s (t ∷ rest) u = elim (Bool-cases (is_client s.clip s.clport t)) [
  | inl hit ↦
      let (c, p) = (is_client_iff s.clip s.clport t).0 hit in rw hit (rw (← c, ← p) (u.0), u.1)
  | inr miss ↦ rw miss (kept miss, put_back-IsUnique s rest u.1)
]
  where
    kept :
        is_client s.clip s.clport t ≡ false → get_session (put_back s rest) t.clip t.clport ≡ none
    kept miss =
        get-put_back_ne s rest t.clip t.clport
          (λ k. cc (miss, (is_client_iff s.clip s.clport t).1 (sym k.0, sym k.1)))
        ∙ u.0

pub get-unlink_ne :
    (ss : List Session) (ip : List ℕ) (port : ℕ) (ip' : List ℕ) (port' : ℕ)
    → OtherClient ip port ip' port'
    → get_session (unlink_session ss ip port) ip' port' ≡ get_session ss ip' port'
unfolding get_session unlink_session
get-unlink_ne [] ip port ip' port' ne = refl
get-unlink_ne (s ∷ rest) ip port ip' port' ne = elim (Bool-cases (is_client ip port s)) [
  | inl hit ↦ rw (hit, one_client ip port ip' port' s ne hit)
  | inr miss ↦ ground (arith, get-unlink_ne rest ip port ip' port' ne)
]

pub unlink-IsUnique :
    (ss : List Session) (ip : List ℕ) (port : ℕ)
    → IsUnique ss
    → IsUnique (unlink_session ss ip port)
unfolding unlink_session
unlink-IsUnique [] ip port u = tt
unlink-IsUnique (s ∷ rest) ip port u = elim (Bool-cases (is_client ip port s)) [
  | inl hit ↦ rw hit (u.1)
  | inr miss ↦ rw miss (kept miss, unlink-IsUnique rest ip port u.1)
]
  where
    kept :
        is_client ip port s ≡ false
        → get_session (unlink_session rest ip port) s.clip s.clport ≡ none
    kept miss =
        get-unlink_ne rest ip port s.clip s.clport
          (λ k. cc (miss, (is_client_iff ip port s).1 (sym k.0, sym k.1)))
        ∙ u.0

-- A session in front of the list answers to its own client only.
pub get-cons_ne :
    (s : Session) (ss : List Session) (ip : List ℕ) (port : ℕ)
    → OtherClient s.clip s.clport ip port
    → get_session (s ∷ ss) ip port ≡ get_session ss ip port
unfolding get_session
get-cons_ne s ss ip port ne =
    rw (one_client s.clip s.clport ip port s ne ((is_client_iff s.clip s.clport s).1 (refl, refl)))

pub get-put_back_key :
    (s : Session) (ss : List Session) (ip : List ℕ) (port : ℕ) {t : Session}
    → (s.clip ≡ ip) × (s.clport ≡ port)
    → get_session ss ip port ≡ some t
    → get_session (put_back s ss) ip port ≡ some s
get-put_back_key s ss ip port {t} k e =
    rw (← k.0, ← k.1) (get-put_back_self s ss {t = t} (rw (k.0, k.1) e))

pub get-unlink_self :
    (ss : List Session) (ip : List ℕ) (port : ℕ)
    → IsUnique ss
    → get_session (unlink_session ss ip port) ip port ≡ none
unfolding get_session unlink_session
get-unlink_self [] ip port u = refl
get-unlink_self (s ∷ rest) ip port u = elim (Bool-cases (is_client ip port s)) [
  | inl hit ↦ let (c, p) = (is_client_iff ip port s).0 hit in rw hit (rw (← c, ← p) (u.0))
  | inr miss ↦ rw (miss, miss) (get-unlink_self rest ip port u.1)
]
