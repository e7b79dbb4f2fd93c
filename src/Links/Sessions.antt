-- ===== src/Links/Sessions.antt =====
-- The session list of src/datastore.c in memory: `add_dsession` and `del_dsession` on linked cells.
use iwtftpd.Base.{ℕ, Bool, true, false, List, [], ◌∷◌, Option, none, some}
use iwtftpd.Datastore.{Dsession, is_key, unlink}
use iwtftpd.Links.{
  Links, Ran, returned, bad_pointer, out_of_fuel, find_node, unlink_node, insert_front,
}

abbrev pub finish : Ran (Links Dsession) → Ran (Bool × Links Dsession)
finish (returned l) = returned (true, l)
finish bad_pointer = bad_pointer
finish out_of_fuel = out_of_fuel

abbrev pub unlink_found : Links Dsession → Ran (Option ℕ) → Ran (Bool × Links Dsession)
unlink_found l (returned none) = returned (false, l)
unlink_found l (returned (some p)) = finish (unlink_node p l)
unlink_found l bad_pointer = bad_pointer
unlink_found l out_of_fuel = out_of_fuel

-- `del_dsession` for a node with this number and this name; `false` is IW_ERR.
unfoldable pub heap_del_dsession : ℕ → Links Dsession → ℕ → List ℕ → Ran (Bool × Links Dsession)
heap_del_dsession fuel l id file = unlink_found l (find_node fuel (is_key id file) l.cells l.head)

-- The calls that change the list: `add_dsession` with an address from `malloc`, its fields being
-- filled in at once, and `del_dsession`.
pub data Change : Type 0 where
  add : ℕ → Dsession → Change
  del : ℕ → List ℕ → Change

abbrev pub drop_flag : Ran (Bool × Links Dsession) → Ran (Links Dsession)
drop_flag (returned (flag, l)) = returned l
drop_flag bad_pointer = bad_pointer
drop_flag out_of_fuel = out_of_fuel

unfoldable pub heap_change : ℕ → Change → Links Dsession → Ran (Links Dsession)
unfolding heap_del_dsession
heap_change fuel (add p s) l = insert_front p s l
heap_change fuel (del id file) l = drop_flag (heap_del_dsession fuel l id file)

unfoldable pub heap_run : ℕ → List Change → Links Dsession → Ran (Links Dsession)
unfolding heap_change
heap_run fuel [] l = returned l
heap_run fuel (c ∷ rest) l = elim (heap_change fuel c l) [
  | returned l' ↦ heap_run fuel rest l'
  | bad_pointer ↦ bad_pointer
  | out_of_fuel ↦ out_of_fuel
]

-- The same calls on a list.
unfoldable pub list_run : List Change → List Dsession → List Dsession
list_run [] ss = ss
list_run (add p s ∷ rest) ss = list_run rest (s ∷ ss)
list_run (del id file ∷ rest) ss = list_run rest (unlink ss id file)
