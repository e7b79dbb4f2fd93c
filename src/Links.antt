-- ===== src/Links.antt =====
-- The doubly linked lists of src/datastore.c and src/tftp.c as cells of memory: `next` and `prev` are
-- addresses, `none` is NULL, and a cell that was given back by `free` is `none`. The two files
-- handle their lists by the same statements, so the contents of a node are a parameter.
pub mod Shape
pub mod Find
pub mod Places
pub mod Unlink
pub mod Front
pub mod Sessions
pub mod Refine
pub mod Clients
pub mod Cleanup
mod Tests
use iwtftpd.Base.{ℕ, zero, suc, Bool, true, false, Option, none, some, ◌==◌, if◌then◌else◌}

pub record Node (A : Type 0) : Type 0 where
  pub next : Option ℕ
  pub prev : Option ℕ
  pub body : A

abbrev pub Cells : Type 0 → Type 0
Cells A = ℕ → Option (Node A)

pub record Links (A : Type 0) : Type 0 where
  pub head : Option ℕ
  pub cells : Cells A

-- How a function ends: it returns; it reads or writes a cell that is not allocated; or the rounds
-- that its loop was given are used up.
pub data Ran (R : Type 0) : Type 0 where
  returned : R → Ran R
  bad_pointer out_of_fuel : Ran R

module _ {A : Type 0} where
  abbrev pub write : Cells A → ℕ → Option (Node A) → Cells A
  write cells p n q = if p == q then n else cells q

  -- An assignment to a field of the node at an address.
  unfoldable pub assign : (Node A → Node A) → ℕ → Cells A → Option (Cells A)
  assign f p cells = elim (cells p) [ none ↦ none | some n ↦ some (write cells p (some (f n))) ]

  abbrev pub to_next : Option ℕ → Node A → Node A
  to_next q n = record n { next = q }

  abbrev pub to_prev : Option ℕ → Node A → Node A
  to_prev q n = record n { prev = q }

  abbrev with_head : Option ℕ → Option (Cells A) → Option (Links A)
  with_head p none = none
  with_head p (some cells) = some (record { head = p; cells = cells })

  abbrev and_then : Option (Cells A) → (Cells A → Option (Cells A)) → Option (Cells A)
  and_then none f = none
  and_then (some cells) f = f cells

  -- The four cases of a node by its `prev` and its `next`, in `del_dsession` and in `del_session`.
  unfoldable pub relink : Option ℕ → Option ℕ → Links A → Option (Links A)
  unfolding assign
  relink none none l = some (record l { head = none })
  relink none (some r) l = with_head (some r) (assign (to_prev none) r l.cells)
  relink (some q) none l = with_head l.head (assign (to_next none) q l.cells)
  relink (some q) (some r) l =
      with_head l.head
        (and_then (assign (to_next (some r)) q l.cells) (assign (to_prev (some q)) r))

  abbrev free : ℕ → Option (Links A) → Ran (Links A)
  free p none = bad_pointer
  free p (some l) = returned (record l { cells = write l.cells p none })

  -- A node is taken out of the list and freed.
  unfoldable pub unlink_node : ℕ → Links A → Ran (Links A)
  unfolding relink
  unlink_node p l = elim (l.cells p) [
    | none ↦ bad_pointer
    | some n ↦ free p (relink n.prev n.next l)
  ]

  -- The loop of `get_dsession` and `get_session`: the address of the first node that passes the test.
  unfoldable pub find_node : ℕ → (A → Bool) → Cells A → Option ℕ → Ran (Option ℕ)
  find_node zero test cells pm = out_of_fuel
  find_node (suc fuel) test cells none = returned none
  find_node (suc fuel) test cells (some p) = elim (cells p) [
    | none ↦ bad_pointer
    | some n ↦
        let rest = find_node fuel test cells n.next in
        if test n.body then returned (some p) else rest
  ]

  -- `memset`, `(*head)->prev = node`, `node->next = *head` and `*head = node`, by cases of `*head`.
  unfoldable pub link_front : ℕ → A → Cells A → Option ℕ → Ran (Links A)
  unfolding assign
  link_front p b cells none =
      let node : Node A = record { next = none; prev = none; body = b } in
      returned (record { head = some p; cells = write cells p (some node) })
  link_front p b cells (some q) =
      let node : Node A = record { next = some q; prev = none; body = b } in
      elim (assign (to_prev (some p)) q (write cells p (some node))) [
        | none ↦ bad_pointer
        | some cells' ↦ returned (record { head = some p; cells = cells' })
      ]

  -- A node at a new address `p` becomes the first.
  unfoldable pub insert_front : ℕ → A → Links A → Ran (Links A)
  unfolding link_front
  insert_front p b l = link_front p b l.cells l.head

  -- The loops of `iwds_exit` and `del_allsession`: the file or the socket of each node is closed, and
  -- the node freed after its `next` was read.
  unfoldable pub free_all :
      {W : Type 0} → (A → W → W) → ℕ → Cells A → Option ℕ → W → Ran (Cells A × W)
  free_all close zero cells pm w = out_of_fuel
  free_all close (suc fuel) cells none w = returned (cells, w)
  free_all close (suc fuel) cells (some p) w = elim (cells p) [
    | none ↦ bad_pointer
    | some n ↦ free_all close fuel (write cells p none) n.next (close n.body w)
  ]
