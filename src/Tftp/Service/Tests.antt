-- ===== src/Tftp/Service/Tests.antt =====
-- The event loop of src/tftp.c on a host in memory.
use iwtftpd.Base.{
  ℕ, ◌≡◌, refl, true, false, List, [], ◌∷◌, Option, some, none, codes, replicate, str_eq,
}
use iwtftpd.Util.{join_path}
use iwtftpd.Sim.{Sim, sim, start}
use iwtftpd.Datastore.{iwds_isfile, iwds_read, iwds_close, is_key}
use iwtftpd.Tftp.Store.{load_data, close_data}
use iwtftpd.Tftp.Transfer.{get_session_data, refill, give}
use iwtftpd.Tftp.Parse.{parse_tftpreq}
use iwtftpd.Tftp.Parse.Format.{request_msg}
use iwtftpd.Tftp.Message.{make_tftpdata_msg, finish_data, next_block}
use iwtftpd.Tftp.Message.Shape.{data_msg}
use iwtftpd.Tftp.Sessions.{
  get_session, is_client, put_back, add_newsession, create_socket, cleanup_session, cleanup_loop,
  is_over,
}
use iwtftpd.Tftp.Resend.{resend_allsession, resend_one}
use iwtftpd.Tftp.Proc.{tftp_proc, on_request, open_session, send_data}
use iwtftpd.Tftp.Service.{
  Epoll, Arrival, timed_out, ready, Loop, event_loop, turn, receive_all, receive, process,
  send_reply, update_event, update_all, update_one, served, before_cleanup, resent, cleaned,
}
use iwtftpd.Tftp.Service.Distinct.{Ends, event_loop-IsUnique}

abbrev epoll : Epoll Sim
epoll = record {
  epoll_create = λ w. (some 5, w);
  epoll_add = λ fd sock w. (true, w);
  epoll_del = λ fd sock w. (true, w);
}

abbrev idle : Loop
idle = record {
  server = record {
    seshead = [];
    ads = record { dhead = []; dspath = codes "/d"; fchroot = false; fault = false };
  };
  rbuf = replicate 1024 0;
  sinfo = record { ses = none; msg = [] };
}

abbrev ask_a : Arrival
ask_a = record {
  sock = 3;
  bytes = some (request_msg 1 (codes "a") (codes "octet"));
  addr = 77;
  client = some (codes "10.0.0.2", 4000);
}

-- What was sent, if the loop did not stop.
abbrev sent_by : Option (Loop × Sim) → List (List ℕ)
sent_by none = []
sent_by (some (st, w)) = w.sent

-- A request for the file "a" is answered with its contents.
file_is_sent :
    sent_by (event_loop epoll 5 idle (ready (ask_a ∷ []) ∷ []) start)
    ≡ data_msg 1 (codes "hello") ∷ []
unfolding event_loop turn receive_all receive process send_reply update_event update_all update_one
    served before_cleanup resent cleaned tftp_proc on_request open_session send_data get_session
    is_client put_back add_newsession create_socket cleanup_session cleanup_loop is_over
    resend_allsession resend_one parse_tftpreq iwds_isfile iwds_read iwds_close is_key join_path
    str_eq make_tftpdata_msg finish_data next_block get_session_data refill give load_data
    close_data
file_is_sent = refl

event_loop-IsUnique_example :
    Ends epoll 5 idle
      (ready (ask_a ∷ []) ∷ timed_out ∷ [])
      start
      (event_loop epoll 5 idle (ready (ask_a ∷ []) ∷ timed_out ∷ []) start)
event_loop-IsUnique_example =
    event_loop-IsUnique epoll 5 idle (ready (ask_a ∷ []) ∷ timed_out ∷ []) start tt
