-- ===== src/Datastore/Sessions.antt =====
-- The session list of src/datastore.c: lookup and unlinking under keys that differ.
use iwtftpd.Base.{
  ℕ, suc, ◌≡◌, refl, ◌∙◌, sym, true, false, List, [], ◌∷◌, none, some, arith, ap, length,
  str_eq_sound, str_eq_refl, Bool-cases, inl, inr, ◌↔◌,
}
use iwtftpd.Datastore.{Dsession, is_key, get_dsession, unlink}

-- Two keys differ in the number or in the file.
abbrev pub OtherKey : ℕ → List ℕ → ℕ → List ℕ → Type 0
OtherKey id file id' file' = (id ≡ id') × (file ≡ file') → ⊥

-- No two sessions of the list have one key.
abbrev pub IsUnique : List Dsession → Type 0
IsUnique [] = Unit {0}
IsUnique (s ∷ rest) = (get_dsession rest s.clid s.filename ≡ none) × IsUnique rest

pub is_key_iff :
    (id : ℕ) (file : List ℕ) (s : Dsession)
    → (is_key id file s ≡ true) ↔ ((s.clid ≡ id) × (s.filename ≡ file))
unfolding is_key
is_key_iff id file s = (
  λ e. ground (arith, str_eq_sound s.filename file),
  λ k. ground (arith, k.0, k.1, str_eq_refl file),
)

-- What is found has the key that was asked for.
pub get_dsession-key :
    (ss : List Dsession) (id : ℕ) (file : List ℕ) {t : Dsession}
    → get_dsession ss id file ≡ some t
    → (t.clid ≡ id) × (t.filename ≡ file)
unfolding get_dsession
get_dsession-key [] id file e = cc
get_dsession-key (s ∷ rest) id file {t} e = elim (Bool-cases (is_key id file s)) [
  | inl hit ↦ ground (arith, (is_key_iff id file s).0 hit)
  | inr miss ↦ get_dsession-key rest id file {t = t} (ground arith)
]

pub get-unlink_self :
    (ss : List Dsession) (id : ℕ) (file : List ℕ)
    → IsUnique ss
    → get_dsession (unlink ss id file) id file ≡ none
unfolding get_dsession unlink
get-unlink_self [] id file u = refl
get-unlink_self (s ∷ rest) id file u = elim (Bool-cases (is_key id file s)) [
  | inl hit ↦
      let (c, f) = (is_key_iff id file s).0 hit in
      ground (arith, ap (λ i. get_dsession rest i s.filename) c, ap (get_dsession rest id) f)
  | inr miss ↦ ground (arith, get-unlink_self rest id file u.1)
]

pub get-unlink_ne :
    (ss : List Dsession) (id : ℕ) (file : List ℕ) (id' : ℕ) (file' : List ℕ)
    → OtherKey id file id' file'
    → get_dsession (unlink ss id file) id' file' ≡ get_dsession ss id' file'
unfolding get_dsession unlink
get-unlink_ne [] id file id' file' ne = refl
get-unlink_ne (s ∷ rest) id file id' file' ne = elim (Bool-cases (is_key id file s)) [
  | inl hit ↦ elim (Bool-cases (is_key id' file' s)) [
    | inl hit' ↦
        let (c, f) = (is_key_iff id file s).0 hit in
        let (c', f') = (is_key_iff id' file' s).0 hit' in absurd (ne (sym c ∙ c', sym f ∙ f'))
    | inr miss' ↦ ground arith
  ]
  | inr miss ↦ ground (arith, get-unlink_ne rest id file id' file' ne)
]

pub unlink-IsUnique :
    (ss : List Dsession) (id : ℕ) (file : List ℕ) → IsUnique ss → IsUnique (unlink ss id file)
unfolding unlink
unlink-IsUnique [] id file u = tt
unlink-IsUnique (s ∷ rest) id file u = elim (Bool-cases (is_key id file s)) [
  | inl hit ↦ rw hit (u.1)
  | inr miss ↦ rw miss (kept miss, unlink-IsUnique rest id file u.1)
]
  where
    kept : is_key id file s ≡ false → get_dsession (unlink rest id file) s.clid s.filename ≡ none
    kept miss =
        get-unlink_ne rest id file s.clid s.filename
          (λ k. cc (miss, (is_key_iff id file s).1 (sym k.0, sym k.1)))
        ∙ u.0

pub length-unlink :
    (ss : List Dsession) (id : ℕ) (file : List ℕ) {t : Dsession}
    → get_dsession ss id file ≡ some t
    → suc (length (unlink ss id file)) ≡ length ss
unfolding get_dsession unlink
length-unlink [] id file e = cc
length-unlink (s ∷ rest) id file {t} e = ground (arith, length-unlink rest id file {t = t})

-- A session that is found is found under its own key.
pub get_dsession_self :
    (ss : List Dsession) (id : ℕ) (file : List ℕ) {t : Dsession}
    → get_dsession ss id file ≡ some t
    → get_dsession ss t.clid t.filename ≡ some t
get_dsession_self ss id file {t} e = let (c, f) = get_dsession-key ss id file e in simp (c, f) e
