-- ===== src/Links/Unlink.antt =====
-- Taking a node out of a doubly linked list and freeing it.
use mathlib.Core.Option
use mathlib.Core.Path.{fun_ext, subst}
use iwtftpd.Base.{
  ℕ, ◌≡◌, refl, ◌∙◌, sym, List, [], ◌∷◌, ◌++◌, Option, none, some, arith, ap, ◌==◌, ==_refl,
  if◌then◌else◌, All, Bool-cases, inl, inr,
}
use iwtftpd.Links.{
  Node, Cells, Links, returned, write, assign, relink, unlink_node, to_next, to_prev,
}
use iwtftpd.Links.Shape.{first, Elsewhere, Distinct, Linked, IsList, Linked-agree}
use iwtftpd.Links.Places.{
  is_at, last_or, IsAllocated, NotAt, All-after, Distinct-rest, ==_sym, first-NotAt, last-NotAt,
  cell-Linked, next-IsAllocated, last-IsAllocated,
}

-- The head after a node with this `prev` and this `next` was taken out.
abbrev new_head : Option ℕ → Option ℕ → Option ℕ → Option ℕ
new_head none r head = r
new_head (some q) r head = head

module _ {A : Type 0} where
  abbrev change : (Node A → Node A) → Option ℕ → Cells A → Cells A
  change f o cells x = if is_at o x then Option.map f (cells x) else cells x

  assign-change :
      (f : Node A → Node A) (p : ℕ) (cells : Cells A)
      → IsAllocated cells (some p)
      → (c : Cells A) × (assign f p cells ≡ some c) × ((x : ℕ) → c x ≡ change f (some p) cells x)
  unfolding assign
  assign-change f p cells (n, e) =
      (write cells p (some (f n)), rw (e, assign) refl, λ x. ground (arith, e))

  change-IsAllocated :
      (f : Node A → Node A) (o : Option ℕ) (cells : Cells A) (p : ℕ)
      → IsAllocated cells (some p)
      → IsAllocated (change f o cells) (some p)
  change-IsAllocated f o cells p (n, e) = elim (Bool-cases (is_at o p)) [
    | inl t ↦ (f n, rw (t, e) refl)
    | inr t ↦ (n, rw (t, e) refl)
  ]

  -- The four cases of `relink` in one.
  pub relink_lem :
      (q r : Option ℕ) (l : Links A)
      → IsAllocated l.cells q
      → IsAllocated l.cells r
      → (c : Cells A) × (relink q r l ≡ some (record { head = new_head q r l.head; cells = c }))
        × ((x : ℕ) → c x ≡ change (to_prev q) r (change (to_next r) q l.cells) x)
  unfolding relink
  relink_lem none none l kq kr = (l.cells, refl, λ x. refl)
  relink_lem none (some r) l kq kr =
      let (c, e, same) = assign-change (to_prev none) r l.cells kr in (c, rw e refl, same)
  relink_lem (some q) none l kq kr =
      let (c, e, same) = assign-change (to_next none) q l.cells kq in (c, rw e refl, same)
  relink_lem (some q) (some r) l kq kr =
      let (c, e, same) = assign-change (to_next (some r)) q l.cells kq in
      let (m, k) = change-IsAllocated (to_next (some r)) (some q) l.cells r kr in
      let (c', e', same') = assign-change (to_prev (some q)) r c (m, same r ∙ k) in
      (
        c',
        rw (e, e') refl,
        λ x. same' x ∙ ap (λ n. if r == x then Option.map (to_prev (some q)) n else n) (same x),
      )

  -- The cells without the node at `p`, whose neighbours are linked to one another.
  abbrev patched : ℕ → Option ℕ → Option ℕ → Cells A → Cells A
  patched p q r cells x =
      if p == x then none else change (to_prev q) r (change (to_next r) q cells) x

  patched-agree :
      (p : ℕ) (q r : Option ℕ) (cells : Cells A) (xs : List (ℕ × A))
      → Elsewhere p xs
      → NotAt q xs
      → NotAt r xs
      → All (λ (x : ℕ × A). patched p q r cells x.0 ≡ cells x.0) xs
  patched-agree p q r cells [] hp hq hr = tt
  patched-agree p q r cells ((x, a) ∷ xs) hp hq hr =
      (rw (hp.0, hr.0, hq.0) refl, patched-agree p q r cells xs hp.1 hq.1 hr.1)

  patched-after :
      (p : ℕ) (prev : Option ℕ) (cells : Cells A) (after : List (ℕ × A))
      → Linked cells (some p) after
      → Elsewhere p after
      → NotAt prev after
      → Distinct after
      → Linked (patched p prev (first after) cells) prev after
  patched-after p prev cells [] h hp hq d = tt
  patched-after p prev cells ((r, b) ∷ rest) h hp hq d = (
    rw (hp.0, ==_refl r, hq.0, h.0) refl,
    Linked-agree cells (patched p prev (some r) cells) (some r) rest
        (patched-agree p prev (some r) cells rest hp.1 hq.1 d.0) h.1,
  )

  patched-Linked :
      (cells : Cells A) (p : ℕ) (a : A) (after : List (ℕ × A)) (prev : Option ℕ)
      (before : List (ℕ × A))
      → NotAt prev (before ++ ((p, a) ∷ after))
      → Distinct (before ++ ((p, a) ∷ after))
      → Linked cells prev (before ++ ((p, a) ∷ after))
      → Linked (patched p (last_or prev before) (first after) cells) prev (before ++ after)
  patched-Linked cells p a after prev [] away d h =
      patched-after p prev cells after h.1 d.0 away.1 d.1
  patched-Linked cells p a after prev ((u, b) ∷ []) away d h = (
    rw (==_sym u p d.0.0, first-NotAt u after d.0.1, ==_refl u, h.0) refl,
    patched-Linked cells p a after (some u) [] d.0 d.1 h.1,
  )
  patched-Linked cells p a after prev ((u, b) ∷ (v, c) ∷ before) away d h = (
    rw
        (
          ==_sym u p (All-after _ ((v, c) ∷ before) ((p, a) ∷ after) d.0).0,
          first-NotAt u after (All-after _ ((v, c) ∷ before) ((p, a) ∷ after) d.0).1,
          last-NotAt u (some v) before ((p, a) ∷ after) (==_sym u v d.0.0) d.0.1,
        )
        (h.0),
    patched-Linked cells p a after (some u) ((v, c) ∷ before) d.0 d.1 h.1,
  )

  new_head-some :
      (u : ℕ) (before : List (ℕ × A)) (r head : Option ℕ)
      → new_head (last_or (some u) before) r head ≡ head
  new_head-some u [] r head = refl
  new_head-some u ((v, b) ∷ before) r head = new_head-some v before r head

  head-rest :
      (before : List (ℕ × A)) (p : ℕ) (a : A) (after : List (ℕ × A)) (head : Option ℕ)
      → head ≡ first (before ++ ((p, a) ∷ after))
      → new_head (last_or none before) (first after) head ≡ first (before ++ after)
  head-rest [] p a after head e = refl
  head-rest ((u, b) ∷ before) p a after head e = new_head-some u before (first after) head ∙ e

  nowhere : (xs : List (ℕ × A)) → NotAt none xs
  nowhere [] = tt
  nowhere (x ∷ xs) = (refl, nowhere xs)

  -- What `unlink_node` leaves of a list.
  pub record Unlinked (l : Links A) (p : ℕ) (xs rest : List (ℕ × A)) : Type 0 where
    pub left : Links A
    pub ran : unlink_node p l ≡ returned left
    pub linked : IsList left rest
    pub freed : left.cells p ≡ none
    pub kept : (x : ℕ) → Elsewhere x xs → left.cells x ≡ l.cells x

  unlink_node-relink :
      (p : ℕ) (l : Links A) (n : Node A) (l' : Links A)
      → l.cells p ≡ some n
      → relink n.prev n.next l ≡ some l'
      → unlink_node p l ≡ returned (record l' { cells = write l'.cells p none })
  unfolding unlink_node
  unlink_node-relink p l n l' e f = rw (e, unlink_node) (rw f refl)

  pub unlink_node_lem :
      (l : Links A) (p : ℕ) (a : A) (before after : List (ℕ × A))
      → IsList l (before ++ ((p, a) ∷ after))
      → Unlinked l p (before ++ ((p, a) ∷ after)) (before ++ after)
  unlink_node_lem l p a before after (hd, h, d) =
      let q = last_or none before in
      let r = first after in
      let (c, e, same) =
        relink_lem q r l (last-IsAllocated l.cells p a after none before tt h)
          (next-IsAllocated l.cells p a after none before h) in
      let cells : Cells A = write c p none in
      let patch : (x : ℕ) → cells x ≡ patched p q r l.cells x =
        λ x. ap (λ n. if p == x then none else n) (same x) in
      record {
        left = record { head = new_head q r l.head; cells = cells };
        ran = unlink_node-relink p l _ _ (cell-Linked l.cells p a after none before h) e;
        linked = (
          head-rest before p a after l.head hd,
          subst (λ k. Linked k none (before ++ after)) (sym (fun_ext patch))
              (patched-Linked l.cells p a after none before (nowhere _) d h),
          Distinct-rest before p a after d,
        );
        freed = rw (==_refl p) refl;
        kept = λ x away.
            patch x
            ∙ rw
                (
                  ==_sym x p (All-after _ before ((p, a) ∷ after) away).0,
                  first-NotAt x after (All-after _ before ((p, a) ∷ after) away).1,
                  last-NotAt x none before ((p, a) ∷ after) refl away,
                )
                refl;
      }
