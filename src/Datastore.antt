-- ===== src/Datastore.antt =====
-- src/datastore.c with src/datastore.h and src/iw_ds.h: the sessions of the datastore, each an open
-- file, and the requests that read, write and close them. Pointers that no caller passes as NULL
-- are values. A `struct dsession *` is a session of the list; the list is `dhead`, first to last.
pub mod Sessions
pub mod Moves
pub mod Requests
pub mod Life
pub mod Balance
mod Tests
use iwtftpd.Base.{
  ℕ, ◌+◌, ◌≡◌, Bool, true, false, ◌&&◌, List, [], ◌∷◌, Option, none, some, length, ltb, ◌==◌,
  if◌then◌else◌, str_eq, codes, take,
}
use iwtftpd.Host.{Host, FileKind, regular, directory, special, OpenMode, for_read, for_write}
use iwtftpd.Util.{join_path, joined, too_long, before_buffer}
use Prim.Native.String.{String}

-- `struct dsession`, without the links and the field `derr`, which nothing sets
pub record Dsession : Type 0 where
  pub clid : ℕ
  pub fp : ℕ
  pub filename : List ℕ

-- `struct _iwds`. `fault` is not in the source: it records that a NULL pointer was dereferenced.
pub record Iwds : Type 0 where
  pub dhead : List Dsession
  pub dspath : List ℕ
  pub fchroot : Bool
  pub fault : Bool

-- `enum DSREQ_ERRCODE`, with IW_OK
pub data Derr : Type 0 where
  ok intererror invalidobj noreq notexist notpermit nosession readfail writefail : Derr

-- `struct dsreq` as it is passed in; `dbuf` holds the bytes to write, and `derr` is in the reply.
pub record Dsreq : Type 0 where
  pub dsid : ℕ
  pub dfile : List ℕ
  pub dbuf : List ℕ
  pub dlen : ℕ

-- The result of a request: the value returned, the bytes stored into `dbuf`, `derr`, and the state.
pub record Reply (W : Type 0) : Type 0 where
  pub count : ℕ
  pub bytes : List ℕ
  pub derr : Derr
  pub ds : Iwds
  pub world : W

-- IW_TRUE, IW_FALSE and IW_ERR, as the results of `is_dsfile`
pub data Check : Type 0 where
  found missing failed : Check

-- The test of `get_dsession`.
unfoldable pub is_key : ℕ → List ℕ → Dsession → Bool
is_key id file s = (s.clid == id) && str_eq s.filename file

unfoldable pub get_dsession : List Dsession → ℕ → List ℕ → Option Dsession
get_dsession [] id file = none
get_dsession (s ∷ rest) id file = if is_key id file s then some s else get_dsession rest id file

-- What the unlinking in `del_dsession` leaves: the list without the first session under the key.
unfoldable pub unlink : List Dsession → ℕ → List ℕ → List Dsession
unlink [] id file = []
unlink (s ∷ rest) id file = if is_key id file s then rest else s ∷ unlink rest id file

-- The sizes that are asked of `malloc` for the structures.
abbrev sizeof_dsession : ℕ
sizeof_dsession = 48

abbrev sizeof_iwds : ℕ
sizeof_iwds = 24

abbrev default_datastore : List ℕ
default_datastore = codes "/tftpboot"

-- `S_ISREG(st.st_mode)` after a `stat` that may fail
abbrev kind_of : Option FileKind → Check
kind_of none = missing
kind_of (some regular) = found
kind_of (some directory) = missing
kind_of (some special) = missing

-- `if (! datastore) datastore = DEFAULT_DATASTORE;`
abbrev dir_or_default : Option (List ℕ) → List ℕ
dir_or_default none = default_datastore
dir_or_default (some d) = d

module _ {W : Type 0} ⦃h : Host W⦄ where
  open h use {malloc, stat, fopen, fread, ferror, fwrite, fclose, realpath}

  unfoldable pub is_dspath : List ℕ → W → Bool
  is_dspath path w = elim (stat path w) [ some directory ↦ true | _ ↦ false ]

  -- An empty `rootdir` makes `join_path` read before its buffer; `dspath` is never empty.
  unfoldable pub is_dsfile : List ℕ → List ℕ → W → Check × W
  is_dsfile rootdir file w =
      let bufsize = length rootdir + length file + 2 in
      let (allocated, w1) = malloc bufsize w in
      if allocated
      then elim (join_path rootdir file bufsize) [
        | joined len path ↦ (kind_of (stat path w1), w1)
        | _ ↦ (failed, w1)
      ]
      else (failed, w1)

  unfoldable pub del_dsession : Iwds → Dsession → W → Bool × Iwds × W
  unfolding get_dsession unlink
  del_dsession ds node w = elim (get_dsession ds.dhead node.clid node.filename) [
    | none ↦ (false, ds, w)
    | some pm ↦
        (true, record ds { dhead = unlink ds.dhead node.clid node.filename }, (fclose pm.fp w).1)
  ]

  -- The part of `create_dsession` after `fopen`. If the last allocation fails, the new session, which
  -- is in the list and has no file name, is given to `del_dsession`: `strcmp` gets NULL.
  unfoldable pub add_opened : Iwds → ℕ → List ℕ → ℕ → W → Option Dsession × Iwds × W
  add_opened ds id file pst w =
      let node : Dsession = record { clid = id; fp = pst; filename = file } in
      let (node_allocated, w1) = malloc sizeof_dsession w in
      let (name_allocated, w2) = malloc (length file + 1) w1 in
      if node_allocated
      then if name_allocated
        then (some node, record ds { dhead = node ∷ ds.dhead }, w2)
        else (none, record ds { fault = true }, w2)
      else (none, ds, (fclose pst w1).1)

  unfoldable pub create_dsession : Iwds → ℕ → List ℕ → OpenMode → W → Option Dsession × Iwds × W
  unfolding add_opened
  create_dsession ds id file fmode w =
      let bufsize = length ds.dspath + length file + 2 in
      let (allocated, w1) = malloc bufsize w in
      if allocated
      then elim (join_path ds.dspath file bufsize) [
        | joined len path ↦
            let (pst, w2) = fopen path fmode w1 in
            elim pst [ none ↦ (none, ds, w2) | some fp ↦ add_opened ds id file fp w2 ]
        | _ ↦ (none, ds, w1)
      ]
      else (none, ds, w1)

  abbrev pub refuse : Derr → Iwds → W → Reply W
  refuse e ds w = record { count = 0; bytes = []; derr = e; ds = ds; world = w }

  -- `iwds_read` from the call of `fread` on.
  unfoldable pub read_session : Iwds → Dsession → Dsreq → W → Reply W
  unfolding del_dsession
  read_session ds ses req w =
      let (bytes, w1) = fread ses.fp req.dlen w in
      let (_, ds', w2) = del_dsession ds ses w1 in
      if ltb (length bytes) req.dlen && ferror ses.fp w1
      then record { count = length bytes; bytes = bytes; derr = readfail; ds = ds'; world = w2 }
      else record { count = length bytes; bytes = bytes; derr = ok; ds = ds; world = w1 }

  -- `get_dsession`, or else `create_dsession`
  unfoldable pub read_open : Iwds → Dsreq → W → Reply W
  unfolding get_dsession create_dsession read_session
  read_open ds req w = elim (get_dsession ds.dhead req.dsid req.dfile) [
    | some ses ↦ read_session ds ses req w
    | none ↦
        let (created, ds', w1) = create_dsession ds req.dsid req.dfile for_read w in
        elim created [ none ↦ refuse nosession ds' w1 | some ses ↦ read_session ds' ses req w1 ]
  ]

  unfoldable pub iwds_read : Iwds → Dsreq → W → Reply W
  unfolding is_dsfile read_open
  iwds_read ds req w =
      let (check, w1) = is_dsfile ds.dspath req.dfile w in
      elim check [
        | failed ↦ refuse intererror ds w1
        | missing ↦ refuse notexist ds w1
        | found ↦ read_open ds req w1
      ]

  -- `iwds_write` from the call of `fwrite` on. A write that falls short closes the session, and
  -- reports IW_OK all the same: the code in `errcode` is not used.
  unfoldable pub write_bytes : Iwds → Dsession → Dsreq → W → Reply W
  unfolding del_dsession
  write_bytes ds ses req w =
      let (wlen, w1) = fwrite ses.fp (take req.dlen req.dbuf) w in
      let (_, ds', w2) = del_dsession ds ses w1 in
      if ltb wlen req.dlen
      then record { count = wlen; bytes = []; derr = ok; ds = ds'; world = w2 }
      else record { count = wlen; bytes = []; derr = ok; ds = ds; world = w1 }

  -- `iwds_write` from the test for the end of writing on.
  unfoldable pub write_session : Iwds → Dsession → Dsreq → W → Reply W
  unfolding del_dsession write_bytes
  write_session ds ses req w =
      let (_, ds', w1) = del_dsession ds ses w in
      if req.dlen == 0 then refuse ok ds' w1 else write_bytes ds ses req w

  unfoldable pub write_new : Iwds → Dsreq → W → Reply W
  unfolding create_dsession write_session
  write_new ds req w =
      let (created, ds', w1) = create_dsession ds req.dsid req.dfile for_write w in
      elim created [ none ↦ refuse nosession ds' w1 | some ses ↦ write_session ds' ses req w1 ]

  unfoldable pub iwds_write : Iwds → Dsreq → W → Reply W
  unfolding get_dsession is_dsfile write_new write_session
  iwds_write ds req w = elim (get_dsession ds.dhead req.dsid req.dfile) [
    | some ses ↦ write_session ds ses req w
    | none ↦
        let (check, w1) = is_dsfile ds.dspath req.dfile w in
        elim check [
          | failed ↦ refuse intererror ds w1
          | found ↦ refuse notpermit ds w1
          | missing ↦ write_new ds req w1
        ]
  ]

  -- The Boolean is `true` for IW_OK. For closing a session that is not there, `derr` stays as it was
  -- passed in, which is 0.
  unfoldable pub iwds_close : Iwds → Dsreq → W → Bool × Derr × Iwds × W
  unfolding get_dsession del_dsession
  iwds_close ds req w = elim (get_dsession ds.dhead req.dsid req.dfile) [
    | none ↦ if req.dlen == 0 then (true, ok, ds, w) else (false, nosession, ds, w)
    | some ses ↦ let (_, ds', w1) = del_dsession ds ses w in (true, ok, ds', w1)
  ]

  unfoldable pub iwds_isfile : Iwds → List ℕ → W → Check × W
  unfolding is_dsfile
  iwds_isfile ds file w = is_dsfile ds.dspath file w

  -- The argument is `none` for NULL. The messages of the error paths are left out.
  unfoldable pub iwds_init : Option (List ℕ) → W → Option Iwds × W
  unfolding is_dspath
  iwds_init datastore w = elim (realpath (dir_or_default datastore) w) [
    | none ↦ (none, w)
    | some path ↦
        let (allocated, w1) = malloc sizeof_iwds w in
        let ds : Iwds = record { dhead = []; dspath = path; fchroot = false; fault = false } in
        if is_dspath path w then if allocated then (some ds, w1) else (none, w1) else (none, w)
  ]

  -- `iwds_exit`: every file is closed, in list order.
  unfoldable pub close_all : List Dsession → W → W
  close_all [] w = w
  close_all (s ∷ rest) w = close_all rest (fclose s.fp w).1

-- `iwds_get_dspath` of a datastore that is not NULL.
abbrev pub iwds_get_dspath : Iwds → List ℕ
iwds_get_dspath ds = ds.dspath

-- The path becomes "/", which the process sees after its `chroot`.
unfoldable pub iwds_set_chroot : Iwds → Iwds
iwds_set_chroot ds = record ds { fchroot = true; dspath = codes "/" }

-- The numbers of `enum DSREQ_ERRCODE`, without the minus sign.
unfoldable pub magnitude : Derr → ℕ
magnitude ok = 0
magnitude intererror = 15
magnitude invalidobj = 14
magnitude noreq = 13
magnitude notexist = 12
magnitude notpermit = 11
magnitude nosession = 10
magnitude readfail = 9
magnitude writefail = 8

-- `iwds_dsreq_errmsgs`
abbrev pub dsreq_errmsgs : List (Derr × String)
dsreq_errmsgs =
    (intererror, "internal error of module")
    ∷ (invalidobj, "invalid object")
    ∷ (noreq, "request was not passed")
    ∷ (notexist, "file does not exist")
    ∷ (notpermit, "access is not permitted")
    ∷ (nosession, "no the session of datastore")
    ∷ (readfail, "file reading error")
    ∷ (writefail, "file writing error")
    ∷ []

unfoldable pub find_message : Derr → List (Derr × String) → Option String
unfolding magnitude
find_message e [] = none
find_message e ((code, message) ∷ rest) =
    if magnitude code == magnitude e then some message else find_message e rest

-- `none` is the NULL that ends the table.
unfoldable pub iwds_strerr : Derr → Option String
unfolding find_message
iwds_strerr e = find_message e dsreq_errmsgs
