-- ===== src/Links/Cleanup.antt =====
-- `cleanup_session`, `del_session` and `del_allsession` of src/tftp.c on linked cells.
use mathlib.Core.Path.{subst}
use iwtftpd.Base.{
  ℕ, zero, suc, ◌<◌, ◌≡◌, refl, ◌∙◌, sym, ap, Bool, true, false, List, [], ◌∷◌, ◌++◌, Option, none,
  some, arith, length, if◌then◌else◌, Bool-cases, inl, inr, append_assoc, All,
}
use iwtftpd.Host.{Host}
use iwtftpd.Tftp.Types.{Session}
use iwtftpd.Tftp.Sessions.{is_client, get_session, is_over, del_allsession}
use iwtftpd.Tftp.Sessions.Cleanup.{any_over}
use iwtftpd.Tftp.Sessions.Keys.{IsUnique, is_client_iff}
use iwtftpd.Links.{Node, Links, Ran, returned, bad_pointer, find_node, unlink_node}
use iwtftpd.Links.Shape.{first, Linked, IsList, bodies}
use iwtftpd.Links.Find.{locate, find_node-Linked}
use iwtftpd.Links.Places.{cell-Linked}
use iwtftpd.Links.Unlink.{Unlinked, unlink_node_lem}
use iwtftpd.Links.Front.{wipe, wipe-freed, close_each, free_all_lem}
use iwtftpd.Links.Clients.{
  close_socket, delete_found, heap_del_session, heap_del_allsession, heap_cleanup_loop,
  heap_cleanup_session,
}

missed :
    (ip : List ℕ) (port : ℕ) (before : List (ℕ × Session)) (p : ℕ) (a : Session)
    (after : List (ℕ × Session))
    → get_session (bodies (before ++ ((p, a) ∷ after))) ip port ≡ none
    → is_client ip port a ≡ false
unfolding get_session
missed ip port [] p a after e = elim (Bool-cases (is_client ip port a)) [
  | inl t ↦ absurd (cc (rw t at e))
  | inr t ↦ t
]
missed ip port ((q, b) ∷ before) p a after e = elim (Bool-cases (is_client ip port b)) [
  | inl t ↦ absurd (cc (rw t at e))
  | inr t ↦ missed ip port before p a after (rw t at e)
]

-- In a list without two sessions of one client, a session is found under its own client.
locate_self :
    (before : List (ℕ × Session)) (p : ℕ) (a : Session) (after : List (ℕ × Session))
    → IsUnique (bodies (before ++ ((p, a) ∷ after)))
    → locate (is_client a.clip a.clport) (before ++ ((p, a) ∷ after)) ≡ some p
locate_self [] p a after u =
    let self : is_client a.clip a.clport a ≡ true =
      (is_client_iff a.clip a.clport a).1 (refl, refl) in
    rw self refl
locate_self ((q, b) ∷ before) p a after u =
    rw (other b (missed b.clip b.clport before p a after u.0)) (locate_self before p a after u.1)
  where
    other :
        (b : Session) → is_client b.clip b.clport a ≡ false → is_client a.clip a.clport b ≡ false
    other b e = elim (Bool-cases (is_client a.clip a.clport b)) [
      | inl t ↦
          let (i, k) = (is_client_iff a.clip a.clport b).0 t in
          cc ((is_client_iff b.clip b.clport a).1 (sym i, sym k))
      | inr t ↦ t
    ]

find_self :
    (fuel : ℕ) (l : Links Session) (before : List (ℕ × Session)) (p : ℕ) (a : Session)
    (after : List (ℕ × Session))
    → IsList l (before ++ ((p, a) ∷ after))
    → IsUnique (bodies (before ++ ((p, a) ∷ after)))
    → length (before ++ ((p, a) ∷ after)) < fuel
    → find_node fuel (is_client a.clip a.clport) l.cells l.head ≡ returned (some p)
find_self fuel l before p a after k u lt =
    ap (find_node fuel (is_client a.clip a.clport) l.cells) k.0
    ∙ find_node-Linked fuel (is_client a.clip a.clport) l.cells none _ lt k.1
    ∙ ap returned (locate_self before p a after u)

module _ {W : Type 0} ⦃h : Host W⦄ where
  delete_found-some :
      (l l' : Links Session) (p : ℕ) (n : Node Session) (w : W)
      → l.cells p ≡ some n
      → unlink_node p l ≡ returned l'
      → delete_found l (returned (some p)) w ≡ returned (l', close_socket n.body w)
  delete_found-some l l' p n w e f = rw (e, delete_found) (rw f refl)

  -- A session of the list is deleted: its socket is closed, its node unlinked and freed.
  pub heap_del_session_lem :
      (fuel : ℕ) (l : Links Session) (before : List (ℕ × Session)) (p : ℕ) (a : Session)
      (after : List (ℕ × Session)) (w : W)
      → IsList l (before ++ ((p, a) ∷ after))
      → IsUnique (bodies (before ++ ((p, a) ∷ after)))
      → length (before ++ ((p, a) ∷ after)) < fuel
      → (u : Unlinked l p (before ++ ((p, a) ∷ after)) (before ++ after)) × (heap_del_session fuel l
            a.clip a.clport w
          ≡ returned (u.left, close_socket a w))
  unfolding heap_del_session
  heap_del_session_lem fuel l before p a after w k u lt =
      let cut = unlink_node_lem l p a before after k in
      (
        cut,
        ap (λ r. delete_found l r w) (find_self fuel l before p a after k u lt)
            ∙ delete_found-some l cut.left p _ w (cell-Linked l.cells p a after none before k.1)
                cut.ran,
      )

  loop-over :
      (fuel rounds : ℕ) (l l' : Links Session) (p : ℕ) (n : Node Session) (w w' : W)
      → l.cells p ≡ some n
      → is_over n.body w ≡ true
      → heap_del_session fuel l n.body.clip n.body.clport w ≡ returned (l', w')
      → l'.cells p ≡ none
      → heap_cleanup_loop fuel (suc rounds) l (some p) w ≡ bad_pointer
  unfolding heap_cleanup_loop
  loop-over fuel rounds l l' p n w w' e over d freed =
      rw (e, heap_cleanup_loop) (rw (over, d, freed) refl)

  loop-kept :
      (fuel rounds : ℕ) (l : Links Session) (p : ℕ) (n : Node Session) (w : W)
      → l.cells p ≡ some n
      → is_over n.body w ≡ false
      → heap_cleanup_loop fuel (suc rounds) l (some p) w ≡ heap_cleanup_loop fuel rounds l n.next w
  unfolding heap_cleanup_loop
  loop-kept fuel rounds l p n w e over = rw (e, heap_cleanup_loop) (rw over refl)

  abbrev verdict : Bool → Links Session → W → Ran (Links Session × W)
  verdict true l w = bad_pointer
  verdict false l w = returned (l, w)

  loop-verdict :
      (fuel rounds : ℕ) (l : Links Session) (w : W) (before suffix : List (ℕ × Session))
      → IsList l (before ++ suffix)
      → IsUnique (bodies (before ++ suffix))
      → length (before ++ suffix) < fuel
      → length suffix < rounds
      → (prev : Option ℕ) → Linked l.cells prev suffix
      → heap_cleanup_loop fuel rounds l (first suffix) w ≡ verdict (any_over (bodies suffix) w) l w
  unfolding heap_cleanup_loop
  loop-verdict fuel zero l w before suffix k u lt lt' prev linked = absurd (omega arith)
  loop-verdict fuel (suc rounds) l w before [] k u lt lt' prev linked = refl
  loop-verdict fuel (suc rounds) l w before ((p, a) ∷ rest) k u lt lt' prev linked =
      elim (Bool-cases (is_over a w)) [
        | inl over ↦
            let (cut, ran) = heap_del_session_lem fuel l before p a rest w k u lt in
            loop-over fuel rounds l cut.left p _ w (close_socket a w) (linked.0) over ran cut.freed
            ∙ rw over refl
        | inr on ↦
            let same = append_assoc before ((p, a) ∷ []) rest in
            loop-kept fuel rounds l p _ w (linked.0) on
            ∙ loop-verdict fuel rounds l w (before ++ ((p, a) ∷ [])) rest
                (subst (IsList l) (sym same) k)
                (subst (λ (xs : List (ℕ × Session)). IsUnique (bodies xs)) (sym same) u)
                (subst (λ (xs : List (ℕ × Session)). length xs < fuel) (sym same) lt) (omega arith)
                (some p) (linked.1)
            ∙ rw on refl
      ]

  -- `cleanup_session` on the cells of memory, for a list without two sessions of one client and with
  -- enough rounds for the loops: as soon as one of its sessions is over, it reads the field `next`
  -- of a node that it has just freed; if none is over, it changes nothing.
  pub heap_cleanup_session_lem :
      (fuel : ℕ) (l : Links Session) (xs : List (ℕ × Session)) (w : W)
      → IsList l xs
      → IsUnique (bodies xs)
      → length xs < fuel
      → heap_cleanup_session fuel l w
        ≡ (if any_over (bodies xs) w then bad_pointer else returned (l, w))
  unfolding heap_cleanup_session
  heap_cleanup_session_lem fuel l xs w k u lt =
      ap (λ pm. heap_cleanup_loop fuel fuel l pm w) k.0
      ∙ loop-verdict fuel fuel l w [] xs k u lt lt none k.1
      ∙ elim (Bool-cases (any_over (bodies xs) w)) [ inl t ↦ rw t refl | inr t ↦ rw t refl ]

  close_each-list :
      (xs : List (ℕ × Session)) (w : W)
      → close_each close_socket xs w ≡ del_allsession (bodies xs) w
  unfolding del_allsession
  close_each-list [] w = refl
  close_each-list ((p, a) ∷ xs) w = close_each-list xs (close_socket a w)

  -- `del_allsession` on the cells of memory, with enough rounds for its loop: it reads no cell that is
  -- not allocated, closes the sockets that the function on lists closes, in the same order, leaves an empty
  -- list, and every cell of the list is free.
  pub heap_del_allsession_lem :
      (fuel : ℕ) (l : Links Session) (xs : List (ℕ × Session)) (w : W)
      → IsList l xs
      → length xs < fuel
      → (l' : Links Session) × (heap_del_allsession fuel l w
          ≡ returned (l', del_allsession (bodies xs) w))
        × IsList l' []
        × All (λ (x : ℕ × Session). l'.cells x.0 ≡ none) xs
  unfolding heap_del_allsession
  heap_del_allsession_lem fuel l xs w k lt = (
    record { head = none; cells = wipe l.cells xs },
    rw
        (
          k.0,
          free_all_lem close_socket fuel l.cells none xs w lt k.1 k.2,
          close_each-list xs w,
          heap_del_allsession,
        )
        refl,
    (refl, tt, tt),
    wipe-freed l.cells xs k.2,
  )
