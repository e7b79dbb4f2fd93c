-- ===== src/Lib.antt =====
-- iwtftpd, a TFTP server in C: a model of the whole program, with proofs.
--
-- Parts of the program
--   src/util.c joins a directory and a file name. src/datastore.c keeps the open files of the
--   clients, each under the pair of a client's number and a file name, and reads, writes and closes
--   them on request. src/tftp.c keeps the sessions of the clients, each under an address and a
--   port; `tftp_proc` takes one message and says what to answer. It calls the parsers, the makers
--   of messages, and `get_session_data` and `put_session_data`, which move data between a
--   session's buffer and the datastore in octet or netascii mode. `resend_allsession` and
--   `cleanup_session` run in every turn of the event loop.
--   src/logging.c keeps one log object, whose buffer `iwlog_print_msg` fills with a line for the log
--   file; every module has a `pmsg` that makes the text of a status code and hands it over.
--   src/iwtftpd.c reads the options, opens the log, becomes a daemon, starts the datastore and the
--   server, gives up its rights, and calls `iwtftp_service`.
--
-- Files
--   Base.antt: numbers, tests, lists, bytes and slices that all files share.
--   Host.antt: the interface to the C library and the operating system, a record of functions
--     over a state `W`: files, allocator, clock and sockets. Every definition that calls them has
--     it as an instance argument, and passes the state on. Sim.antt is a host in memory for the
--     tests.
--   Util.antt: `join_path`. The result `before_buffer` is its read before the buffer for an
--     empty head. Util/Paths.antt has its theorems.
--   Datastore.antt: src/datastore.c with src/datastore.h and src/iw_ds.h. `Iwds` is `struct
--     _iwds` and `Dsession` is `struct dsession`, the linked list being a list; the functions have
--     the names of the source, and those that it writes as one are cut where they branch
--     (`iwds_read`, `read_open`, `read_session`). Sessions, Moves and Requests are about keys,
--     Life and Balance about open files.
--   Tftp/Types.antt: src/tftp.h. Tftp/Store.antt: `load_data`, `save_data` and `close_data`.
--   Tftp/Netascii.antt: `local_to_netascii` and `netascii_to_local`; Netascii/Encode and Emit,
--     and Netascii/Decode compare them with `encode` and `decode`, which are functions of a whole
--     text.
--   Tftp/Transfer.antt: `get_session_data` and `put_session_data`; Feed and Get, Accept and
--     Put are about what is moved, First about a file that is not open yet, Ends and Stored about a
--     datastore that may fail, BlankLine about a case that fails.
--   Tftp/Parse.antt: the four parsers; Format has messages for them, Bounds is about what they read.
--   Tftp/Message.antt: the makers of messages; Shape says what those hold.
--   Tftp/Sessions.antt: the session list with its sockets, and `cleanup_session`; Keys is about
--     lookups, Cleanup about when it reads a freed session.
--   Tftp/Resend.antt: `resend_allsession`; Rounds calls it for a client that is silent.
--   Tftp/Proc.antt: `tftp_proc`, a function for each case and for each label; Local and Keeps are
--     about the other sessions, Opening about clients without one, Replies and Total about single
--     answers, Download and Request, Block and Upload about whole transfers.
--   Tftp/Service.antt: `iwtftp_service` with `update_event` and `iwtftp_exit`; a run is the list of
--     its wakeups, each with the messages that have arrived, and has no result where
--     `cleanup_session` has none. Distinct is about the session list in a run.
--   Tftp/Init.antt: `iwtftp_init` and `get_ifaddress`, over the interface `NetHost`; Sockets is
--     about what is listened at, Interface about the addresses of an interface.
--   Links.antt: the doubly linked lists of src/datastore.c and src/tftp.c in memory; Sessions and
--     Clients are their functions, Refine compares them with the functions on lists of
--     Datastore.antt, Cleanup is about the session list; Shape, Find, Places, Unlink and Front have
--     the lemmas on linked cells.
--   Status.antt: what the four `pmsg` make of a status code; Status/Tftp, Datastore, Log and Main
--     have the codes and the texts, Tables the four modules, Codes and Lines what the texts are like.
--   Logging.antt: src/logging.c with src/logging.h, the buffer first; File has the functions on the
--     log object, Pmsg the functions `pmsg`; Buffer, Print, Message and Written are about what is
--     written.
--   Main/Options.antt: `struct svconf` and `set_svconf`; Result says what comes out.
--   Main/Process.antt: `init_signal`, `daemonize`, `exec_chroot` and `set_credential`, over the
--     interface `Unix`; Descriptors is about the descriptors of the daemon.
--   Main/Start.antt: `main` in stages; Stages, Confined and Codes are about where it gets to.
--
-- Conventions
--   A byte is a number; a buffer is a list of bytes, with an index for a pointer into it; a C
--   string is its bytes before the NUL. A pointer to a session is the session found in the list,
--   and what is changed through it is stored back. Times are natural numbers. The loops of the two
--   transfer functions run on fuel, one more step than the size of the room or of the data; each
--   step but the last moves a byte at least, so that the result is not `stuck`. In Links.antt
--   memory is a function from addresses to cells, an address that was given back has none, and
--   reading or writing there is `bad_pointer`; its loops run on fuel, which is enough if it is
--   above the length of the list. A store outside of the log buffer is `overrun`. In
--   Main/Start.antt a stage goes on with a value, or leaves for the label `ferr` or `showver` with
--   what `main` holds. The options of popt's own help are one constructor of `Opt`, after which the
--   process has ended. What popt, epoll_wait, recvfrom and getnameinfo give is an input, and the
--   arguments of vsnprintf are texts.
--
-- Not modelled
--   What a DEBUG build adds. The calls of `pmsg` in the datastore, the server and the main program,
--   which print: that they may read through NULL or write past the buffer shows in Logging.antt only.
--   That nodes are freed shows in Links.antt, and in `cleanup_session` of Tftp/Sessions.antt, which
--   has no result where the source reads a freed session; in the other functions the lists have no
--   links. That `create_socket` closes a descriptor that was never set does not show.
pub mod Base
pub mod Host
pub mod Sim
pub mod Util
pub mod Datastore
pub mod Tftp
pub mod Links
pub mod Status
pub mod Logging
pub mod Main
