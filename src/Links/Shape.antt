-- ===== src/Links/Shape.antt =====
-- When cells of memory are a doubly linked list, and what does not disturb one.
use iwtftpd.Base.{ℕ, ◌≡◌, refl, ◌∙◌, false, List, [], ◌∷◌, Option, none, some, ◌==◌, All}
use iwtftpd.Links.{Node, Cells, Links, write}

module _ {A : Type 0} where
  -- The address of the first node.
  abbrev pub first : List (ℕ × A) → Option ℕ
  first [] = none
  first ((p, a) ∷ rest) = some p

  abbrev pub Elsewhere : ℕ → List (ℕ × A) → Type 0
  Elsewhere p xs = All (λ (x : ℕ × A). (p == x.0) ≡ false) xs

  -- No two nodes have one address.
  abbrev pub Distinct : List (ℕ × A) → Type 0
  Distinct [] = Unit {0}
  Distinct ((p, a) ∷ rest) = Elsewhere p rest × Distinct rest

  -- The nodes with these addresses and contents are linked to their neighbours, the first one back
  -- to `prev`.
  abbrev pub Linked : Cells A → Option ℕ → List (ℕ × A) → Type 0
  Linked cells prev [] = Unit {0}
  Linked cells prev ((p, a) ∷ rest) =
      (cells p ≡ some (record { next = first rest; prev = prev; body = a }))
      × Linked cells (some p) rest

  abbrev pub IsList : Links A → List (ℕ × A) → Type 0
  IsList l xs = (l.head ≡ first xs) × Linked l.cells none xs × Distinct xs

  -- What the list holds.
  abbrev pub bodies : List (ℕ × A) → List A
  bodies [] = []
  bodies ((p, a) ∷ rest) = a ∷ bodies rest

  -- Cells that agree at the addresses of a list hold the same list.
  pub Linked-agree :
      (cells cells' : Cells A) (prev : Option ℕ) (xs : List (ℕ × A))
      → All (λ (x : ℕ × A). cells' x.0 ≡ cells x.0) xs
      → Linked cells prev xs
      → Linked cells' prev xs
  Linked-agree cells cells' prev [] same h = tt
  Linked-agree cells cells' prev ((p, a) ∷ rest) same h =
      (same.0 ∙ h.0, Linked-agree cells cells' (some p) rest same.1 h.1)

  -- A cell elsewhere is not read.
  pub write-agree :
      (cells : Cells A) (p : ℕ) (n : Option (Node A)) (xs : List (ℕ × A))
      → Elsewhere p xs
      → All (λ (x : ℕ × A). write cells p n x.0 ≡ cells x.0) xs
  write-agree cells p n [] away = tt
  write-agree cells p n ((q, a) ∷ rest) away = (rw (away.0) refl, write-agree cells p n rest away.1)
