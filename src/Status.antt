-- ===== src/Status.antt =====
-- `struct iwstatus` of src/iw_common.h and what the four functions `pmsg` of src/logging.c,
-- src/iwtftpd.c, src/datastore.c and src/tftp.c have in common: the search for the message of a code
-- and the text that they make of it. A text is its bytes before the NUL.
pub mod Tftp
pub mod Datastore
pub mod Log
pub mod Main
pub mod Tables
pub mod Codes
pub mod Lines
use Prim.Native.String.{String}
use iwtftpd.Base.{
  ℕ, ◌-◌, ◌+◌, Bool, true, false, List, [], ◌∷◌, ◌++◌, Option, none, some, length, take, ltb, leb,
  ◌==◌, if◌then◌else◌, codes,
}

pub record IwStatus : Type 0 where
  pub statcode : ℕ
  pub statmsg : List ℕ

abbrev pub status : ℕ → String → IwStatus
status n msg = record { statcode = n; statmsg = codes msg }

-- IW_LOGMSGLEN_MAX, the size of the buffers
abbrev pub logmsglen_max : ℕ
logmsglen_max = 256

-- The loop over a table, which ends in { 0, NULL }: the message, or `none` at that entry.
unfoldable pub find_status : List IwStatus → ℕ → Option (List ℕ)
find_status [] n = none
find_status (s ∷ rest) n = if s.statcode == n then some s.statmsg else find_status rest n

abbrev first_text : List (List ℕ) → List ℕ
first_text [] = []
first_text (t ∷ ts) = t

abbrev other_texts : List (List ℕ) → List (List ℕ)
other_texts [] = []
other_texts (t ∷ ts) = ts

-- What `vsnprintf` makes of a format with the conversions %s, %d, %u and %p, given the texts that its
-- arguments are printed as.
unfoldable pub expand : List ℕ → List (List ℕ) → List ℕ
expand [] args = []
expand (c ∷ []) args = c ∷ []
expand (c ∷ k ∷ fmt) args =
    let converted = first_text args ++ expand fmt (other_texts args) in
    let copied = c ∷ expand (k ∷ fmt) args in if c == b'%' then converted else copied

-- What is in `buf` after `vsnprintf`: a verbose message follows the name of its module.
unfoldable pub message_text : List ℕ → ℕ → List ℕ → List (List ℕ) → List ℕ
unfolding expand
message_text prefix n fmt args =
    if ltb n 64
    then take (logmsglen_max - 1) (expand fmt args)
    else prefix ++ take (logmsglen_max - length prefix - 1) (expand fmt args)

-- The newline is put behind the text, or in the place of its last byte.
unfoldable pub end_line : List ℕ → List ℕ
end_line buf =
    if leb 2 (logmsglen_max - length buf)
    then buf ++ (b'\n' ∷ [])
    else take (length buf - 1) buf ++ (b'\n' ∷ [])

-- The tables of a module, and the name that its verbose messages begin with.
pub record Messages : Type 0 where
  pub prefix : List ℕ
  pub statmsgs : List IwStatus
  pub statvmsgs : List IwStatus

abbrev text_of : List ℕ → ℕ → Option (List ℕ) → List (List ℕ) → Option (List ℕ)
text_of prefix n none args = none
text_of prefix n (some fmt) args = some (message_text prefix n fmt args)

-- What a `pmsg` puts into `buf`, if it does not return before.
unfoldable pub status_text : Messages → Bool → ℕ → List (List ℕ) → Option (List ℕ)
unfolding find_status message_text
status_text m verbose n args =
    if ltb n 64
    then text_of m.prefix n (find_status m.statmsgs n) args
    else if verbose
    then text_of m.prefix n (find_status m.statvmsgs n) args
    else none
