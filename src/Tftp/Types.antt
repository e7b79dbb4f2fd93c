-- ===== src/Tftp/Types.antt =====
-- The constants and types of src/tftp.h. Times and socket numbers are numbers, -1 as an `int` is its
-- bit pattern; flags are Booleans, IW_TRUE being `true`.
use iwtftpd.Base.{ℕ, ◌-◌, ◌^◌, Bool, List, [], Option, codes}

-- SESSION_BUFSIZE, TFTP_DATALEN_MAX, TFTP_BLKNUM_MAX, TFTP_FILENAME_MAX and the other limits
abbrev pub session_bufsize : ℕ
session_bufsize = 8192

abbrev pub datalen_max : ℕ
datalen_max = 512

abbrev pub blknum_max : ℕ
blknum_max = 65535

abbrev pub filename_max : ℕ
filename_max = 256

abbrev pub modename_max : ℕ
modename_max = 9

abbrev pub emsglen_max : ℕ
emsglen_max = 256

-- TFTP_MSGLEN_MAX
abbrev pub msglen_max : ℕ
msglen_max = 516

abbrev pub nwbuf_size : ℕ
nwbuf_size = 1024

abbrev pub ipaddrlen_max : ℕ
ipaddrlen_max = 62

abbrev pub resend_interval : ℕ
resend_interval = 10

abbrev pub resend_countmax : ℕ
resend_countmax = 3

abbrev pub session_closewait : ℕ
session_closewait = 15

-- An `int` of -1, as in `clsock` before a socket is made.
abbrev pub minus_one : ℕ
minus_one = 2 ^ 32 - 1

-- `enum TFTP_MODE`
pub data TftpMode : Type 0 where
  netascii octet : TftpMode

-- `struct datastorage`; `pos` is an index into `storage`.
pub record Storage : Type 0 where
  pub pos : ℕ
  pub fopt : Bool
  pub datalen : ℕ
  pub storage : List ℕ

-- `struct session`. `lastmsg` holds the first `lastmsglen` bytes of the array of that name.
pub record Session : Type 0 where
  pub clip : List ℕ
  pub clport : ℕ
  pub clsock : ℕ
  pub regevent : Bool
  pub tftpmode : TftpMode
  pub sesbuf : Storage
  pub filename : List ℕ
  pub blknum : ℕ
  pub fin : Bool
  pub lastmsg : List ℕ
  pub lastsending : ℕ
  pub retrycount : ℕ
  pub disabled : Bool

-- `struct sendinfo`. `msg` holds the first `msglen` bytes of `msgbuf`.
pub record SendInfo : Type 0 where
  pub ses : Option Session
  pub msg : List ℕ

-- `enum TFTP_OPCODE`
abbrev pub op_rrq : ℕ
op_rrq = 1

abbrev pub op_wrq : ℕ
op_wrq = 2

abbrev pub op_data : ℕ
op_data = 3

abbrev pub op_ack : ℕ
op_ack = 4

abbrev pub op_error : ℕ
op_error = 5

-- `enum TFTP_ERRORCODE`
pub data TftpError : Type 0 where
  seemsg notfound accessdeny diskfull illegalope unknownid fileexist nouser : TftpError

abbrev pub error_code : TftpError → ℕ
error_code seemsg = 0
error_code notfound = 1
error_code accessdeny = 2
error_code diskfull = 3
error_code illegalope = 4
error_code unknownid = 5
error_code fileexist = 6
error_code nouser = 7

-- `errmsgs`
abbrev pub errmsg : TftpError → List ℕ
errmsg seemsg = []
errmsg notfound = codes "file not found"
errmsg accessdeny = codes "access violation"
errmsg diskfull = codes "disk full or allocation exceeded"
errmsg illegalope = codes "illegal tftp operation"
errmsg unknownid = codes "unknown transfer id"
errmsg fileexist = codes "file already exists"
errmsg nouser = codes "no such user"
