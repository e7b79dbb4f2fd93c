-- ===== src/Tftp/Transfer/Tests.antt =====
-- The theorems on the transfer functions of src/tftp.c at a host with one file.
use iwtftpd.Base.{
  ℕ, ◌≡◌, refl, true, false, List, [], ◌∷◌, ◌++◌, some, arith, codes, str_eq, take, drop, length,
  length-take, ◌⊎◌, inr,
}
use iwtftpd.Host.{Host, FreadBound, regular}
use iwtftpd.Util.{join_path}
use iwtftpd.Datastore.{Iwds, Dsession, is_key, get_dsession, is_dsfile, iwds_isfile, found}
use iwtftpd.Tftp.Types.{netascii, Session}
use iwtftpd.Tftp.Netascii.{local_to_netascii}
use iwtftpd.Tftp.Netascii.Decode.{Fillable}
use iwtftpd.Tftp.Netascii.Emit.{Emits, emit_lem, buffer}
use iwtftpd.Tftp.Sessions.{new_session}
use iwtftpd.Tftp.Transfer.{moved, io_error, get_session_data, put_session_data}
use iwtftpd.Tftp.Transfer.Ends.{Fetched, get_session_data-ends}
use iwtftpd.Tftp.Transfer.Stored.{Stored, put_session_data-ends}
use iwtftpd.Tftp.Transfer.BlankLine.{blank_line_fails}
use iwtftpd.Tftp.Transfer.Feed.{Feeds, Sendable}
use iwtftpd.Tftp.Transfer.Accept.{Sinks}
use iwtftpd.Tftp.Transfer.Get.{get_session_data_lem, to_send}
use iwtftpd.Tftp.Transfer.Put.{put_session_data_lem, received, Settled}

-- The state is the contents of the file: reading takes bytes from its front, and writing adds some
-- at its end.
instance abbrev pub pipe : Host (List ℕ)
pipe = record {
  malloc = λ n w. (true, w);
  realpath = λ p w. some p;
  stat = λ p w. some regular;
  fopen = λ p m w. (some 1, w);
  fread = λ fp n w. (take n w, drop n w);
  ferror = λ fp w. false;
  fwrite = λ fp b w. (length b, w ++ b);
  fclose = λ fp w. (true, w);
  time = λ w. 100;
  getsockname = λ s w. some 0;
  getnameinfo = λ a w. some (codes "10.0.0.1");
  family_of = λ a. 2;
  getaddrinfo = λ f ip s w. some 0;
  socket = λ a w. (some 9, w);
  setsockopt = λ s w. (true, w);
  bind = λ s a w. (true, w);
  close = λ s w. w;
  sendto = λ s m a w. (true, w);
}

abbrev pub contents : ℕ → List ℕ → List ℕ
contents fp w = w

pub pipe-Feeds : Feeds pipe contents
pipe-Feeds = record {
  malloc_rest = λ fp n w. refl;
  fread_bytes = λ fp n w. refl;
  fread_rest = λ fp n w. refl;
  no_error = λ fp n w. refl;
}

pub pipe-Sinks : Sinks pipe contents
pipe-Sinks = record { fwrite_all = λ fp b w. refl; fwrite_wrote = λ fp b w. refl }

abbrev pub open_file : Dsession
open_file = record { clid = 7; fp = 1; filename = codes "a" }

abbrev ds : Iwds
ds = record { dhead = open_file ∷ []; dspath = codes "/d"; fchroot = false; fault = false }

abbrev download : Session
download = record new_session { clsock = 7; filename = codes "a"; tftpmode = netascii }

abbrev upload : Session
upload = record new_session { clsock = 7; filename = codes "a"; fin = true }

pub opened : get_dsession ds.dhead 7 (codes "a") ≡ some open_file
unfolding get_dsession is_key str_eq
opened = refl

pub present : (w : List ℕ) → (iwds_isfile ds (codes "a") w).0 ≡ found
unfolding iwds_isfile is_dsfile join_path
present w = refl

zeroed-Sendable : Sendable netascii download.sesbuf
zeroed-Sendable = record {
  size = refl;
  ready = record { in_range = omega arith; after_cr = tt };
  mode_fits = tt;
}

-- Two lines in pieces of two bytes: the first call ends in the middle of a line end.
get_session_data_lem_example :
    let text =
      to_send contents pipe-Feeds download ds open_file opened present download.sesbuf
        (codes "x\ny") in
    let r = get_session_data download ds 2 (codes "x\ny") in
    (r.result ≡ moved (length (take 2 text)) (take 2 text))
    × (to_send contents pipe-Feeds download ds open_file opened present r.buf r.world ≡ drop 2 text)
    × (r.ds ≡ ds)
    × Sendable netascii r.buf
get_session_data_lem_example =
    get_session_data_lem contents pipe-Feeds download ds open_file opened present 2 (codes "x\ny")
      (omega arith) zeroed-Sendable

pipe-FreadBound : FreadBound pipe
pipe-FreadBound fp n w = omega (arith, length-take n w)

-- Here the file cannot be opened: the datastore knows no such session.
abbrev no_files : Iwds
no_files = record { dhead = []; dspath = codes "/d"; fchroot = false; fault = false }

get_session_data-ends_example :
    let r = get_session_data download ds 2 (codes "x\ny") in
    (r.result ≡ io_error) ⊎ Fetched download 2 [] r
get_session_data-ends_example =
    get_session_data-ends pipe-FreadBound download ds 2 (codes "x\ny") (omega arith) zeroed-Sendable

put_session_data-ends_example : Stored 3 (put_session_data upload no_files (codes "end") (codes ""))
put_session_data-ends_example =
    put_session_data-ends upload no_files (codes "end") (codes "")
      (record { size = refl; at_end = refl; bounded = omega arith }) (omega arith)

put_session_data_lem_example :
    let r = put_session_data upload ds (codes "end") (codes "so far ") in
    (r.result ≡ moved 3 [])
    × (received contents pipe-Sinks upload ds open_file opened r.buf r.world
        ≡ received contents pipe-Sinks upload ds open_file opened upload.sesbuf (codes "so far ")
          ++ codes "end")
    × (r.ds ≡ ds)
    × Fillable r.buf
    × Settled contents pipe-Sinks upload ds open_file opened true r.buf
put_session_data_lem_example =
    put_session_data_lem contents pipe-Sinks upload ds open_file opened (codes "end")
      (codes "so far ") (record { size = refl; at_end = refl; bounded = omega arith }) (omega arith)
      (inr refl)

emit_lem_example : let sb = buffer 1 true 2 (codes "x\ny") in Emits 2 sb (local_to_netascii 2 sb)
emit_lem_example =
    emit_lem 2 (buffer 1 true 2 (codes "x\ny")) (record { in_range = omega arith; after_cr = refl })
      (omega arith) (omega arith)

blank_line_fails_example :
    (put_session_data (record upload { tftpmode = netascii }) ds (codes "\r\nx") (codes "")).result
    ≡ io_error
unfolding get_dsession
blank_line_fails_example =
    blank_line_fails (record upload { tftpmode = netascii }) ds open_file opened (refl, tt) present
      b'\n' (codes "x") (codes "") refl refl refl
