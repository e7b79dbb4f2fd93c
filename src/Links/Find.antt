-- ===== src/Links/Find.antt =====
-- Finding a node of a doubly linked list: `find_node` gives the address that `locate` finds in the
-- list that the cells hold.
use iwtftpd.Base.{
  ℕ, zero, suc, ◌<◌, ◌≡◌, refl, Bool, List, [], ◌∷◌, ◌++◌, Option, none, some, arith, ap, length,
  if◌then◌else◌, Bool-cases, inl, inr,
}
use iwtftpd.Links.{Cells, returned, find_node}
use iwtftpd.Links.Shape.{first, Linked}

module _ {A : Type 0} where
  abbrev pub locate : (A → Bool) → List (ℕ × A) → Option ℕ
  locate test [] = none
  locate test ((p, a) ∷ rest) = let q = locate test rest in if test a then some p else q

  abbrev pub drop_first : (A → Bool) → List (ℕ × A) → List (ℕ × A)
  drop_first test [] = []
  drop_first test ((p, a) ∷ rest) =
      let kept = drop_first test rest in if test a then rest else (p, a) ∷ kept

  pub find_node-Linked :
      (fuel : ℕ) (test : A → Bool) (cells : Cells A) (prev : Option ℕ) (xs : List (ℕ × A))
      → length xs < fuel
      → Linked cells prev xs
      → find_node fuel test cells (first xs) ≡ returned (locate test xs)
  unfolding find_node
  find_node-Linked zero test cells prev xs lt h = absurd (omega arith)
  find_node-Linked (suc fuel) test cells prev [] lt h = refl
  find_node-Linked (suc fuel) test cells prev ((p, a) ∷ rest) lt h = elim (Bool-cases (test a)) [
    | inl e ↦ rw (h.0, e) refl
    | inr e ↦ rw (h.0, e) (find_node-Linked fuel test cells (some p) rest (omega arith) h.1)
  ]

  -- A place of the list is what stands before it, and what stands after it.
  pub record Split (test : A → Bool) (p : ℕ) (xs : List (ℕ × A)) : Type 0 where
    pub before : List (ℕ × A)
    pub body : A
    pub after : List (ℕ × A)
    pub whole : xs ≡ before ++ ((p, body) ∷ after)
    pub rest : drop_first test xs ≡ before ++ after

  pub locate-Split :
      (test : A → Bool) (xs : List (ℕ × A)) (p : ℕ) → locate test xs ≡ some p → Split test p xs
  locate-Split test [] p e = cc
  locate-Split test ((q, a) ∷ xs) p e = elim (Bool-cases (test a)) [
    | inl t ↦ record {
      before = [];
      body = a;
      after = xs;
      whole = ap (λ k. (k, a) ∷ xs) (ground arith);
      rest = rw t refl;
    }
    | inr t ↦
        let s : Split test p xs = locate-Split test xs p (rw t at e) in
        record {
          before = (q, a) ∷ s.before;
          body = s.body;
          after = s.after;
          whole = ap (◌∷◌ (q, a)) s.whole;
          rest = rw t (ap (◌∷◌ (q, a)) s.rest);
        }
  ]
