-- ===== src/Logging.antt =====
-- src/logging.c with src/logging.h and src/iw_log.h: the log file, and the line that is written to it
-- for a message. The calls of the C library are a record of functions over the state `W` outside.
pub mod File
pub mod Pmsg
pub mod Buffer
pub mod Print
pub mod Message
pub mod Written
mod Tests
use iwtftpd.Base.{
  ℕ, zero, suc, ◌+◌, ◌-◌, Bool, true, false, List, [], ◌∷◌, ◌++◌, Option, none, some, length, take,
  get_or, blit, replicate, ltb, leb, ◌==◌, if◌then◌else◌, codes,
}
use iwtftpd.Status.{Messages, status_text, end_line, logmsglen_max}
use iwtftpd.Status.Tables.{log_messages, tftp_messages, datastore_messages, main_messages}
use iwtftpd.Status.Log.{
  e_fail_malloc, l_statcode, l_statcode_verbose, ev_fail_close, ev_fail_localtime, ev_fail_open,
  ev_fail_strftime, ev_fail_write, ev_null_obj,
}

-- TIMESTRLEN_MAX, LOGMSGBUF_SIZE and LOGFILEPATH
abbrev pub timestrlen_max : ℕ
timestrlen_max = 24

abbrev pub logmsgbuf_size : ℕ
logmsgbuf_size = timestrlen_max + logmsglen_max

abbrev pub logfilepath : List ℕ
logfilepath = codes "/var/log/iwftpd.log"

-- `struct iwlog`; `msgbuf` has LOGMSGBUF_SIZE bytes.
pub record Iwlog : Type 0 where
  pub fverbose : Bool
  pub logfd : ℕ
  pub msglen : ℕ
  pub msgbuf : List ℕ

-- The global `alog`: NULL, the object, or, since `iwlog_exit` does not reset it, a freed object.
pub data Alog : Type 0 where
  null : Alog
  object : Iwlog → Alog
  freed : Alog

-- How a call ends: it returns; it reads through NULL or a freed object; or it stores a byte outside
-- of `msgbuf`.
pub data Effect (R : Type 0) : Type 0 where
  ok : R → Effect R
  bad_pointer overrun : Effect R

pub record LogHost (W : Type 0) : Type 0 where
  -- `open` for appending; `none` is -1
  pub open_log : List ℕ → W → Option ℕ × W
  -- `malloc` of a `struct iwlog`: the bytes that `msgbuf` happens to hold; `none` is NULL
  pub malloc_iwlog : W → Option (List ℕ) × W
  pub time : W → ℕ
  -- `localtime_r`: an opaque `struct tm`; `none` is NULL
  pub localtime : ℕ → Option ℕ
  -- `strftime` with "%Y-%m-%d %T" into so many bytes; `none` is 0
  pub strftime : ℕ → ℕ → Option (List ℕ)
  -- `write`: `true` unless the result is -1
  pub write : ℕ → List ℕ → W → Bool × W
  pub close : ℕ → W → Bool × W
  -- `fputs` and `fprintf` to `stderr`
  pub stderr : List ℕ → W → W
  -- `strerror(errno)`, and a number as a text
  pub strerror : W → List ℕ
  pub decimal : ℕ → List ℕ

-- `*(msgbuf + i) = c`
unfoldable pub put : List ℕ → ℕ → ℕ → Option (List ℕ)
put buf i c = if ltb i (length buf) then some (blit buf i (c ∷ [])) else none

-- `strncpy(msgbuf + i, src, n)`, which fills up with NULs
unfoldable pub strncpy : List ℕ → ℕ → List ℕ → ℕ → Option (List ℕ)
strncpy buf i src n =
    let bytes = take n src ++ replicate (n - length src) 0 in
    if leb (i + n) (length buf) then some (blit buf i bytes) else none

unfoldable pub strlen : List ℕ → ℕ
strlen [] = 0
strlen (zero ∷ buf) = 0
strlen (suc c ∷ buf) = suc (strlen buf)

-- The loop that replaces the first NUL by a space, for so many more bytes: `pb` after it.
unfoldable pub space_loop : ℕ → ℕ → List ℕ → ℕ × List ℕ
space_loop zero pb buf = (pb, buf)
space_loop (suc rounds) pb buf =
    let rest = space_loop rounds (pb + 1) buf in
    if get_or buf pb 0 == 0 then (pb + 1, blit buf pb (b' ' ∷ [])) else rest

infixl 5 ◌>>=◌
abbrev ◌>>=◌ : {A B : Type 0} → Option A → (A → Option B) → Option B
none >>= f = none
some a >>= f = f a

-- The length that is copied: what leaves two bytes of the buffer.
abbrev pub copied_length : ℕ → ℕ → ℕ
copied_length timelen msglen =
    if ltb (timelen + msglen) (logmsgbuf_size - 2) then msglen else logmsgbuf_size - timelen - 2

-- The two assignments at the end of the line.
unfoldable pub finish_line : List ℕ → Option (List ℕ)
finish_line buf = do line ← put buf (strlen buf) b'\n'; put line (strlen line + 1) 0

unfoldable pub add_message : ℕ → List ℕ → ℕ → List ℕ → Option (List ℕ)
add_message pb msg msglen buf = do
  ended ← put buf pb 0
  strncpy ended pb msg (copied_length pb msglen)

-- The buffer with the time, the space and as much of the message as is copied.
unfoldable pub copy_message : List ℕ → List ℕ → ℕ → List ℕ → Option (List ℕ)
copy_message timebuf msg msglen buf = do
  timed ← strncpy buf 0 timebuf logmsgbuf_size
  let (pb, spaced) = space_loop (logmsgbuf_size - 1) 0 timed
  add_message pb msg msglen spaced

-- What `iwlog_print_msg` leaves in `msgbuf`; `none` if it stores outside of it.
unfoldable pub make_line : List ℕ → List ℕ → ℕ → List ℕ → Option (List ℕ)
make_line timebuf msg msglen buf = do
  copied ← copy_message timebuf msg msglen buf
  finish_line copied

unfoldable pub iwlog_is_verbose : Alog → Effect Bool
iwlog_is_verbose null = ok false
iwlog_is_verbose (object l) = ok l.fverbose
iwlog_is_verbose freed = bad_pointer
