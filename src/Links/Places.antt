-- ===== src/Links/Places.antt =====
-- A place of a doubly linked list: what its cell holds, and what the distinctness of all addresses
-- says about those around it.
use iwtftpd.Base.{
  ℕ, ◌≡◌, refl, Bool, false, List, [], ◌∷◌, ◌++◌, Option, none, some, arith, ◌==◌, All,
}
use iwtftpd.Links.{Node, Cells}
use iwtftpd.Links.Shape.{first, Elsewhere, Distinct, Linked}

abbrev pub is_at : Option ℕ → ℕ → Bool
is_at none x = false
is_at (some p) x = p == x

pub ==_sym : (a b : ℕ) → (a == b) ≡ false → (b == a) ≡ false
==_sym a b h = ground arith

module _ {A : Type 0} where
  -- The address of the last node, or of the one before the list.
  abbrev pub last_or : Option ℕ → List (ℕ × A) → Option ℕ
  last_or prev [] = prev
  last_or prev ((p, a) ∷ rest) = last_or (some p) rest

  abbrev pub IsAllocated : Cells A → Option ℕ → Type 0
  IsAllocated cells none = Unit {0}
  IsAllocated cells (some p) = (n : Node A) × (cells p ≡ some n)

  abbrev pub NotAt : Option ℕ → List (ℕ × A) → Type 0
  NotAt o xs = All (λ (x : ℕ × A). is_at o x.0 ≡ false) xs

  pub All-rest :
      (P : ℕ × A → Type 0) (before : List (ℕ × A)) (x : ℕ × A) (after : List (ℕ × A))
      → All P (before ++ (x ∷ after))
      → P x × All P (before ++ after)
  All-rest P [] x after h = (h.0, h.1)
  All-rest P (b ∷ before) x after h = let k = All-rest P before x after h.1 in (k.0, (h.0, k.1))

  pub All-after :
      (P : ℕ × A → Type 0) (before after : List (ℕ × A)) → All P (before ++ after) → All P after
  All-after P [] after h = h
  All-after P (b ∷ before) after h = All-after P before after h.1

  pub Distinct-rest :
      (before : List (ℕ × A)) (p : ℕ) (a : A) (after : List (ℕ × A))
      → Distinct (before ++ ((p, a) ∷ after))
      → Distinct (before ++ after)
  Distinct-rest [] p a after d = d.1
  Distinct-rest ((q, b) ∷ before) p a after d =
      ((All-rest _ before (p, a) after d.0).1, Distinct-rest before p a after d.1)

  pub first-NotAt : (p : ℕ) (xs : List (ℕ × A)) → Elsewhere p xs → is_at (first xs) p ≡ false
  first-NotAt p [] h = refl
  first-NotAt p ((q, a) ∷ xs) h = ==_sym p q h.0

  pub last-NotAt :
      (p : ℕ) (prev : Option ℕ) (before after : List (ℕ × A))
      → is_at prev p ≡ false
      → Elsewhere p (before ++ after)
      → is_at (last_or prev before) p ≡ false
  last-NotAt p prev [] after e h = e
  last-NotAt p prev ((q, a) ∷ before) after e h =
      last-NotAt p (some q) before after (==_sym p q h.0) h.1

  module _ (cells : Cells A) (p : ℕ) (a : A) (after : List (ℕ × A)) where
    pub cell-Linked :
        (prev : Option ℕ) (before : List (ℕ × A))
        → Linked cells prev (before ++ ((p, a) ∷ after))
        → cells p ≡ some (record { next = first after; prev = last_or prev before; body = a })
    cell-Linked prev [] h = h.0
    cell-Linked prev ((q, b) ∷ before) h = cell-Linked (some q) before h.1

    pub next-IsAllocated :
        (prev : Option ℕ) (before : List (ℕ × A))
        → Linked cells prev (before ++ ((p, a) ∷ after))
        → IsAllocated cells (first after)
    next-IsAllocated prev [] h = found after h.1
      where
        found : (xs : List (ℕ × A)) → Linked cells (some p) xs → IsAllocated cells (first xs)
        found [] k = tt
        found ((q, b) ∷ xs) k = (_, k.0)
    next-IsAllocated prev ((q, b) ∷ before) h = next-IsAllocated (some q) before h.1

    pub last-IsAllocated :
        (prev : Option ℕ) (before : List (ℕ × A))
        → IsAllocated cells prev
        → Linked cells prev (before ++ ((p, a) ∷ after))
        → IsAllocated cells (last_or prev before)
    last-IsAllocated prev [] k h = k
    last-IsAllocated prev ((q, b) ∷ before) k h = last-IsAllocated (some q) before (_, h.0) h.1
