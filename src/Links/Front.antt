-- ===== src/Links/Front.antt =====
-- A node put in front of a doubly linked list, and a whole list freed.
use iwtftpd.Base.{
  ℕ, zero, suc, ◌<◌, ◌≡◌, refl, ap, ◌∙◌, false, List, [], ◌∷◌, Option, none, some, arith, length,
  ◌==◌, ==_refl, All,
}
use iwtftpd.Links.{
  Node, Cells, Links, returned, write, assign, to_prev, link_front, insert_front, free_all,
}
use iwtftpd.Links.Shape.{first, Elsewhere, Distinct, Linked, IsList, Linked-agree, write-agree}
use iwtftpd.Links.Places.{==_sym}

module _ {A : Type 0} where
  -- A cell that is not allocated is none of the list's.
  pub free-Elsewhere :
      (cells : Cells A) (p : ℕ) (prev : Option ℕ) (xs : List (ℕ × A))
      → cells p ≡ none
      → Linked cells prev xs
      → Elsewhere p xs
  free-Elsewhere cells p prev [] e h = tt
  free-Elsewhere cells p prev ((q, a) ∷ xs) e h = (other, free-Elsewhere cells p (some q) xs e h.1)
    where
      other : (p == q) ≡ false
      other = ground (arith, e, h.0)

  assign-found :
      (f : Node A → Node A) (p : ℕ) (cells : Cells A) (n : Node A)
      → cells p ≡ some n
      → assign f p cells ≡ some (write cells p (some (f n)))
  unfolding assign
  assign-found f p cells n e = rw (e, assign) refl

  link_front-some :
      (cells : Cells A) (p q : ℕ) (a b : A) (next : Option ℕ)
      → (p == q) ≡ false
      → cells q ≡ some (record { next = next; prev = none; body = a })
      → link_front p b cells (some q)
        ≡ returned (record {
          head = some p;
          cells =
              write
                (write cells p (some (record { next = some q; prev = none; body = b })))
                q
                (some (record { next = next; prev = some p; body = a }));
        })
  unfolding link_front
  link_front-some cells p q a b next ne e =
      let new : Node A = record { next = some q; prev = none; body = b } in
      let old : Node A = record { next = next; prev = none; body = a } in
      let moved : write cells p (some new) q ≡ some old = rw ne e in
      rw (link_front, assign-found (to_prev (some p)) q (write cells p (some new)) old moved) refl

  -- What `insert_front` makes of a list.
  pub record Inserted (l : Links A) (p : ℕ) (b : A) (xs : List (ℕ × A)) : Type 0 where
    pub longer : Links A
    pub ran : insert_front p b l ≡ returned longer
    pub linked : IsList longer ((p, b) ∷ xs)

  pub insert_front_lem :
      (l : Links A) (p : ℕ) (b : A) (xs : List (ℕ × A))
      → IsList l xs
      → Elsewhere p xs
      → Inserted l p b xs
  unfolding insert_front link_front
  insert_front_lem l p b [] (hd, h, d) away = record {
    longer = record {
      head = some p;
      cells = write l.cells p (some (record { next = none; prev = none; body = b }));
    };
    ran = ap (link_front p b l.cells) hd;
    linked = (refl, (rw (==_refl p) refl, tt), (tt, tt));
  }
  insert_front_lem l p b ((q, a) ∷ xs) (hd, h, d) away =
      let new : Node A = record { next = some q; prev = none; body = b } in
      let old : Node A = record { next = first xs; prev = some p; body = a } in
      let cells1 : Cells A = write l.cells p (some new) in
      let cells2 : Cells A = write cells1 q (some old) in
      record {
        longer = record { head = some p; cells = cells2 };
        ran =
            ap (link_front p b l.cells) hd ∙ link_front-some l.cells p q a b (first xs) away.0 h.0;
        linked = (
          refl,
          (
            rw (==_sym p q away.0, ==_refl p) refl,
            (
              rw (==_refl q) refl,
              Linked-agree cells1 cells2 (some q) xs (write-agree cells1 q (some old) xs d.0) (
                  Linked-agree l.cells cells1 (some q) xs
                    (write-agree l.cells p (some new) xs away.1) h.1),
            ),
          ),
          (away, d),
        );
      }

  -- The cells without those of a list.
  abbrev pub wipe : Cells A → List (ℕ × A) → Cells A
  wipe cells [] = cells
  wipe cells ((p, a) ∷ rest) = wipe (write cells p none) rest

  -- The contents of the nodes closed from first to last.
  abbrev pub close_each : {W : Type 0} → (A → W → W) → List (ℕ × A) → W → W
  close_each close [] w = w
  close_each close ((p, a) ∷ rest) w = close_each close rest (close a w)

  pub free_all_lem :
      {W : Type 0} (close : A → W → W) (fuel : ℕ) (cells : Cells A) (prev : Option ℕ)
      (xs : List (ℕ × A)) (w : W)
      → length xs < fuel
      → Linked cells prev xs
      → Distinct xs
      → free_all close fuel cells (first xs) w ≡ returned (wipe cells xs, close_each close xs w)
  unfolding free_all
  free_all_lem close zero cells prev xs w lt h d = absurd (omega arith)
  free_all_lem close (suc fuel) cells prev [] w lt h d = refl
  free_all_lem close (suc fuel) cells prev ((p, a) ∷ rest) w lt h d = rw (h.0) (
      free_all_lem close fuel (write cells p none) (some p) rest (close a w) (omega arith)
        (Linked-agree cells (write cells p none) (some p) rest (write-agree cells p none rest d.0)
          h.1)
        d.1)

  wipe-kept :
      (cells : Cells A) (xs : List (ℕ × A)) (p : ℕ) → Elsewhere p xs → wipe cells xs p ≡ cells p
  wipe-kept cells [] p away = refl
  wipe-kept cells ((q, a) ∷ rest) p away =
      wipe-kept (write cells q none) rest p away.1 ∙ rw (==_sym p q away.0) refl

  -- All cells of the list are free.
  pub wipe-freed :
      (cells : Cells A) (xs : List (ℕ × A))
      → Distinct xs
      → All (λ (x : ℕ × A). wipe cells xs x.0 ≡ none) xs
  wipe-freed cells [] d = tt
  wipe-freed cells ((p, a) ∷ rest) d = (
    wipe-kept (write cells p none) rest p d.0 ∙ rw (==_refl p) refl,
    wipe-freed (write cells p none) rest d.1,
  )
