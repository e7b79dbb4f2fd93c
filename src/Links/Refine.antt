-- ===== src/Links/Refine.antt =====
-- The functions on linked cells for the session list of src/datastore.c, against those of
-- Datastore.antt on a list.
use iwtftpd.Base.{
  ℕ, suc, ◌+◌, ◌≤◌, ◌<◌, ◌≡◌, refl, ◌∙◌, sym, ap, Bool, true, false, List, [], ◌∷◌, ◌++◌, Option,
  none, some, arith, length, Bool-cases, inl, inr, Option-cases,
}
use mathlib.Core.Path.{subst}
use iwtftpd.Datastore.{Dsession, is_key, get_dsession, unlink}
use iwtftpd.Links.{Links, Ran, returned, bad_pointer, out_of_fuel, find_node, insert_front}
use iwtftpd.Links.Sessions.{
  heap_del_dsession, heap_change, heap_run, list_run, Change, add, del, drop_flag, finish,
}
use iwtftpd.Links.Shape.{IsList, bodies}
use iwtftpd.Links.Find.{locate, drop_first, find_node-Linked, locate-Split}
use iwtftpd.Links.Unlink.{unlink_node_lem}
use iwtftpd.Links.Front.{free-Elsewhere, insert_front_lem}

abbrev pub After : Ran (Links Dsession) → (Links Dsession → Type 0) → Type 0
After (returned l) P = P l
After bad_pointer P = Unit {0}
After out_of_fuel P = Unit {0}

-- `malloc` gives addresses that are not in use.
abbrev pub IsFresh : ℕ → List Change → Links Dsession → Type 0
IsFresh fuel [] l = Unit {0}
IsFresh fuel (add p s ∷ rest) l =
    (l.cells p ≡ none) × After (insert_front p s l) (λ l'. IsFresh fuel rest l')
IsFresh fuel (del id file ∷ rest) l =
    After (drop_flag (heap_del_dsession fuel l id file)) (λ l'. IsFresh fuel rest l')

-- The cells hold the list.
pub record Represents (l : Links Dsession) (ss : List Dsession) : Type 0 where
  pub nodes : List (ℕ × Dsession)
  pub linked : IsList l nodes
  pub holds : bodies nodes ≡ ss

locate-get :
    (id : ℕ) (file : List ℕ) (xs : List (ℕ × Dsession))
    → locate (is_key id file) xs ≡ none
    → get_dsession (bodies xs) id file ≡ none
unfolding get_dsession
locate-get id file [] e = refl
locate-get id file ((p, s) ∷ xs) e = elim (Bool-cases (is_key id file s)) [
  | inl t ↦ absurd (cc (rw t at e))
  | inr t ↦ rw t (locate-get id file xs (rw t at e))
]

locate-found :
    (id : ℕ) (file : List ℕ) (xs : List (ℕ × Dsession)) (p : ℕ)
    → locate (is_key id file) xs ≡ some p
    → (s : Dsession) × (get_dsession (bodies xs) id file ≡ some s)
unfolding get_dsession
locate-found id file [] p e = cc
locate-found id file ((q, s) ∷ xs) p e = elim (Bool-cases (is_key id file s)) [
  | inl t ↦ (s, rw t refl)
  | inr t ↦ let (s', e') = locate-found id file xs p (rw t at e) in (s', rw t e')
]

bodies-drop_first :
    (id : ℕ) (file : List ℕ) (xs : List (ℕ × Dsession))
    → bodies (drop_first (is_key id file) xs) ≡ unlink (bodies xs) id file
unfolding unlink
bodies-drop_first id file [] = refl
bodies-drop_first id file ((p, s) ∷ xs) = elim (Bool-cases (is_key id file s)) [
  | inl t ↦ rw t refl
  | inr t ↦ rw t (ap (◌∷◌ s) (bodies-drop_first id file xs))
]

unlink-missing :
    (ss : List Dsession) (id : ℕ) (file : List ℕ)
    → get_dsession ss id file ≡ none
    → unlink ss id file ≡ ss
unfolding get_dsession unlink
unlink-missing [] id file e = refl
unlink-missing (s ∷ ss) id file e = elim (Bool-cases (is_key id file s)) [
  | inl t ↦ absurd (cc (rw t at e))
  | inr t ↦ rw t (ap (◌∷◌ s) (unlink-missing ss id file (rw t at e)))
]

pub length-bodies : (xs : List (ℕ × Dsession)) → length (bodies xs) ≡ length xs
length-bodies [] = refl
length-bodies ((p, s) ∷ xs) = ap suc (length-bodies xs)

abbrev pub is_found : Option Dsession → Bool
is_found none = false
is_found (some s) = true

-- What `del_dsession` does to cells that hold a list.
pub record Deleted (fuel : ℕ) (l : Links Dsession) (ss : List Dsession) (id : ℕ) (file : List ℕ)
    : Type 0 where
  pub left : Links Dsession
  pub ran : heap_del_dsession fuel l id file ≡ returned (is_found (get_dsession ss id file), left)
  pub rest : Represents left (unlink ss id file)

find-Represents :
    (fuel : ℕ) (test : Dsession → Bool) (l : Links Dsession) (xs : List (ℕ × Dsession))
    → length xs < fuel
    → IsList l xs
    → find_node fuel test l.cells l.head ≡ returned (locate test xs)
find-Represents fuel test l xs lt h =
    ap (find_node fuel test l.cells) h.0 ∙ find_node-Linked fuel test l.cells none xs lt h.1

module _ (fuel : ℕ) (l : Links Dsession) (id : ℕ) (file : List ℕ) (xs : List (ℕ × Dsession))
    (lt : length xs < fuel) (h : IsList l xs) where
  del-missing : locate (is_key id file) xs ≡ none → Deleted fuel l (bodies xs) id file
  unfolding heap_del_dsession
  del-missing e =
      let gone = locate-get id file xs e in
      record {
        left = l;
        ran = rw (find-Represents fuel (is_key id file) l xs lt h, e, gone) refl;
        rest = record { nodes = xs; linked = h; holds = sym (unlink-missing _ id file gone) };
      }

  del-found : (p : ℕ) → locate (is_key id file) xs ≡ some p → Deleted fuel l (bodies xs) id file
  unfolding heap_del_dsession
  del-found p e =
      let k = locate-Split (is_key id file) xs p e in
      let u = unlink_node_lem l p k.body k.before k.after (subst (IsList l) k.whole h) in
      let (s, got) = locate-found id file xs p e in
      record {
        left = u.left;
        ran = rw (find-Represents fuel (is_key id file) l xs lt h, e, got) (ap finish u.ran);
        rest = record {
          nodes = k.before ++ k.after;
          linked = u.linked;
          holds = ap bodies (sym k.rest) ∙ bodies-drop_first id file xs;
        };
      }

pub del_dsession_lem :
    (fuel : ℕ) (l : Links Dsession) (ss : List Dsession) (id : ℕ) (file : List ℕ)
    → Represents l ss
    → length ss < fuel
    → Deleted fuel l ss id file
del_dsession_lem fuel l ss id file r lt =
    subst (λ (k : List Dsession). Deleted fuel l k id file) r.holds
      (elim (Option-cases (locate (is_key id file) r.nodes)) [
        | inl e ↦ del-missing fuel l id file r.nodes shorter r.linked e
        | inr (p, e) ↦ del-found fuel l id file r.nodes shorter r.linked p e
      ])
  where
    shorter : length r.nodes < fuel
    shorter = omega (arith, length-bodies r.nodes, ap (λ (k : List Dsession). length k) r.holds)

length-unlink-le :
    (ss : List Dsession) (id : ℕ) (file : List ℕ) → length (unlink ss id file) ≤ length ss
unfolding unlink
length-unlink-le [] id file = omega arith
length-unlink-le (s ∷ ss) id file = ground (arith, length-unlink-le ss id file)

heap_run-step :
    (fuel : ℕ) (c : Change) (rest : List Change) (l l' : Links Dsession)
    → heap_change fuel c l ≡ returned l'
    → heap_run fuel (c ∷ rest) l ≡ heap_run fuel rest l'
unfolding heap_run
heap_run-step fuel c rest l l' e = rw (e, heap_run) refl

-- Where the cells of memory hold the session list, any sequence of `add_dsession` with fresh addresses
-- and `del_dsession` ends without touching a cell that is not allocated, and the cells then hold
-- the list that the same calls make of the list; as many rounds as there are sessions and calls,
-- and one more, are enough for every loop.
pub run_refines :
    (fuel : ℕ) (calls : List Change) (l : Links Dsession) (ss : List Dsession)
    → Represents l ss
    → IsFresh fuel calls l
    → length ss + length calls < fuel
    → (l' : Links Dsession) × (heap_run fuel calls l ≡ returned l')
      × Represents l' (list_run calls ss)
unfolding heap_run heap_change list_run
run_refines fuel [] l ss r fresh lt = (l, refl, r)
run_refines fuel (add p s ∷ rest) l ss r fresh lt =
    let k =
      insert_front_lem l p s r.nodes r.linked
        (free-Elsewhere l.cells p none r.nodes fresh.0 r.linked.1) in
    let longer : Represents k.longer (s ∷ ss) = record {
      nodes = (p, s) ∷ r.nodes;
      linked = k.linked;
      holds = ap (◌∷◌ s) r.holds;
    } in
    let (l', e, r') =
      run_refines fuel rest k.longer (s ∷ ss) longer
        (subst (λ (q : Ran (Links Dsession)). After q (λ m. IsFresh fuel rest m)) k.ran fresh.1)
        (omega arith) in
    (l', heap_run-step fuel (add p s) rest l k.longer k.ran ∙ e, r')
run_refines fuel (del id file ∷ rest) l ss r fresh lt =
    let d = del_dsession_lem fuel l ss id file r (omega arith) in
    let (l', e, r') =
      run_refines fuel rest d.left (unlink ss id file) d.rest
        (subst (λ (q : Ran (Bool × Links Dsession)). After (drop_flag q) (λ m. IsFresh fuel rest m))
          d.ran fresh)
        (omega (arith, length-unlink-le ss id file)) in
    (l', heap_run-step fuel (del id file) rest l d.left (ap drop_flag d.ran) ∙ e, r')
