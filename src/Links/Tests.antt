-- ===== src/Links/Tests.antt =====
-- The linked lists of src/datastore.c and src/tftp.c at small inputs.
use iwtftpd.Base.{
  ℕ, ◌≡◌, refl, Bool, true, false, List, [], ◌∷◌, none, some, arith, codes, str_eq, All,
  if◌then◌else◌,
}
use iwtftpd.Sim.{sim, start}
use iwtftpd.Datastore.{Dsession, is_key, unlink}
use iwtftpd.Tftp.Types.{Session}
use iwtftpd.Tftp.Sessions.{new_session, del_allsession, is_client, is_over, get_session}
use iwtftpd.Tftp.Sessions.Keys.{IsUnique}
use iwtftpd.Links.{Links, returned, bad_pointer, write, find_node, unlink_node, insert_front}
use iwtftpd.Links.Shape.{IsList, bodies}
use iwtftpd.Links.Sessions.{Change, add, del, heap_run, list_run, heap_del_dsession}
use iwtftpd.Links.Refine.{Represents, IsFresh, run_refines}
use iwtftpd.Links.Clients.{heap_cleanup_session, heap_del_allsession}
use iwtftpd.Tftp.Sessions.Cleanup.{any_over}
use iwtftpd.Links.Cleanup.{heap_cleanup_session_lem, heap_del_allsession_lem}

abbrev no_sessions : Links Dsession
no_sessions = record { head = none; cells = λ x. none }

abbrev opened : ℕ → Dsession
opened n = record { clid = n; fp = n; filename = codes "a" }

-- Three sessions, and the one in the middle deleted.
abbrev calls : List Change
calls = add 100 (opened 1) ∷ add 200 (opened 2) ∷ add 300 (opened 3) ∷ del 2 (codes "a") ∷ []

no_sessions-Represents : Represents no_sessions []
no_sessions-Represents = record { nodes = []; linked = (refl, tt, tt); holds = refl }

calls-IsFresh : IsFresh 10 calls no_sessions
unfolding heap_del_dsession find_node unlink_node insert_front is_key str_eq
calls-IsFresh = (refl, (refl, (refl, tt)))

run_refines_example :
    (l : Links Dsession) × (heap_run 10 calls no_sessions ≡ returned l)
    × Represents l (list_run calls [])
run_refines_example =
    run_refines 10 calls no_sessions [] no_sessions-Represents calls-IsFresh (omega arith)

middle_deleted : list_run calls [] ≡ opened 3 ∷ opened 1 ∷ []
unfolding list_run unlink is_key str_eq
middle_deleted = refl

abbrev client : ℕ → Bool → Session
client n over = record new_session { clip = codes "10.0.0.9"; clport = n; disabled = over }

abbrev two : Links Session
two = record {
  head = some 10;
  cells =
      write
        (write (λ x. none) 10 (some (record { next = some 20; prev = none; body = client 1 true })))
        20 (some (record { next = none; prev = some 10; body = client 2 false }));
}

abbrev two_nodes : List (ℕ × Session)
two_nodes = (10, client 1 true) ∷ (20, client 2 false) ∷ []

two-IsList : IsList two two_nodes
two-IsList = (refl, (refl, (refl, tt)), ((refl, tt), (tt, tt)))

two-IsUnique : IsUnique (bodies two_nodes)
unfolding get_session is_client str_eq
two-IsUnique = (refl, (refl, tt))

-- The first session is disabled: the fault shows.
freed_read : heap_cleanup_session 3 two start ≡ bad_pointer
unfolding heap_cleanup_session find_node unlink_node is_client str_eq is_over
freed_read = refl

heap_cleanup_session_lem_example :
    heap_cleanup_session 3 two start
    ≡ (if any_over (bodies two_nodes) start then bad_pointer else returned (two, start))
heap_cleanup_session_lem_example =
    heap_cleanup_session_lem 3 two two_nodes start two-IsList two-IsUnique (omega arith)

heap_del_allsession_lem_example :
    (l : Links Session) × (heap_del_allsession 3 two start
      ≡ returned (l, del_allsession (bodies two_nodes) start))
    × IsList l []
    × All (λ (x : ℕ × Session). l.cells x.0 ≡ none) two_nodes
heap_del_allsession_lem_example =
    heap_del_allsession_lem 3 two two_nodes start two-IsList (omega arith)
