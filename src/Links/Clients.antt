-- ===== src/Links/Clients.antt =====
-- The session list of src/tftp.c in memory: `del_session`, `del_allsession` and `cleanup_session` on
-- linked cells.
use iwtftpd.Base.{ℕ, zero, suc, List, Option, none, some, if◌then◌else◌}
use iwtftpd.Host.{Host}
use iwtftpd.Tftp.Types.{Session}
use iwtftpd.Tftp.Sessions.{is_client, is_over}
use iwtftpd.Links.{Links, Ran, returned, bad_pointer, out_of_fuel, find_node, unlink_node, free_all}

module _ {W : Type 0} ⦃h : Host W⦄ where
  abbrev pub close_socket : Session → W → W
  close_socket s w = h.close s.clsock w

  abbrev pub and_close : Ran (Links Session) → Session → W → Ran (Links Session × W)
  and_close (returned l) s w = returned (l, close_socket s w)
  and_close bad_pointer s w = bad_pointer
  and_close out_of_fuel s w = out_of_fuel

  abbrev pub delete_found : Links Session → Ran (Option ℕ) → W → Ran (Links Session × W)
  delete_found l (returned none) w = returned (l, w)
  delete_found l (returned (some p)) w = elim (l.cells p) [
    | none ↦ bad_pointer
    | some n ↦ and_close (unlink_node p l) n.body w
  ]
  delete_found l bad_pointer w = bad_pointer
  delete_found l out_of_fuel w = out_of_fuel

  unfoldable pub heap_del_session : ℕ → Links Session → List ℕ → ℕ → W → Ran (Links Session × W)
  heap_del_session fuel l ip port w =
      delete_found l (find_node fuel (is_client ip port) l.cells l.head) w

  unfoldable pub heap_del_allsession : ℕ → Links Session → W → Ran (Links Session × W)
  heap_del_allsession fuel l w = elim (free_all close_socket fuel l.cells l.head w) [
    | returned (cells, w') ↦ returned (record { head = none; cells = cells }, w')
    | bad_pointer ↦ bad_pointer
    | out_of_fuel ↦ out_of_fuel
  ]

  -- The loop of `cleanup_session`: `pm = pm->next` reads the node after it may have been deleted. The
  -- first number is for the loop of `get_session`, the second for this one.
  unfoldable pub heap_cleanup_loop : ℕ → ℕ → Links Session → Option ℕ → W → Ran (Links Session × W)
  unfolding heap_del_session
  heap_cleanup_loop fuel zero l pm w = out_of_fuel
  heap_cleanup_loop fuel (suc rounds) l none w = returned (l, w)
  heap_cleanup_loop fuel (suc rounds) l (some p) w = elim (l.cells p) [
    | none ↦ bad_pointer
    | some n ↦
        let kept = heap_cleanup_loop fuel rounds l n.next w in
        let deleted : Ran (Links Session × W) =
          elim (heap_del_session fuel l n.body.clip n.body.clport w) [
            | returned (l', w') ↦ elim (l'.cells p) [
              | none ↦ bad_pointer
              | some n' ↦ heap_cleanup_loop fuel rounds l' n'.next w'
            ]
            | bad_pointer ↦ bad_pointer
            | out_of_fuel ↦ out_of_fuel
          ] in
        if is_over n.body w then deleted else kept
  ]

  unfoldable pub heap_cleanup_session : ℕ → Links Session → W → Ran (Links Session × W)
  unfolding heap_cleanup_loop
  heap_cleanup_session fuel l w = heap_cleanup_loop fuel fuel l l.head w
