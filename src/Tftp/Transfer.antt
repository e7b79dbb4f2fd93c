-- ===== src/Tftp/Transfer.antt =====
-- `get_session_data` and `put_session_data` of src/tftp.c, which move data through the buffer of a
-- session. Their loops run on fuel, a round more than the room or the data has bytes.
pub mod Get
pub mod Feed
pub mod Accept
pub mod Put
pub mod First
pub mod BlankLine
pub mod Ends
pub mod Stored
pub mod Tests
use iwtftpd.Base.{
  ℕ, zero, suc, ◌+◌, ◌-◌, Bool, true, false, ◌&&◌, ◌||◌, List, [], ◌∷◌, ◌++◌, ltb, ◌==◌,
  if◌then◌else◌, take, drop, length,
}
use iwtftpd.Host.{Host}
use iwtftpd.Datastore.{Iwds}
use iwtftpd.Tftp.Types.{TftpMode, netascii, octet, Storage, Session, session_bufsize}
use iwtftpd.Tftp.Store.{Io, load_data, save_data}
use iwtftpd.Tftp.Netascii.{local_to_netascii, netascii_to_local, append_bytes}

-- The length of the data moved and, for reading, the bytes stored; IW_ERR; or the fuel ran out.
pub data Moved : Type 0 where
  moved : ℕ → List ℕ → Moved
  io_error stuck : Moved

-- The result of a transfer with the state after it.
pub record Transferred (W : Type 0) : Type 0 where
  pub result : Moved
  pub buf : Storage
  pub ds : Iwds
  pub world : W

abbrev ends : {W : Type 0} → Moved → Storage → Iwds → W → Transferred W
ends m sb ds w = record { result = m; buf = sb; ds = ds; world = w }

-- `memcpy(pm, sesbuf->pos, len)` in octet mode, with `len` the smaller of `datalen` and `dstbufsize`
unfoldable pub copy_octet : ℕ → Storage → List ℕ × Storage
copy_octet dstbufsize sb =
    let len = if ltb sb.datalen dstbufsize then sb.datalen else dstbufsize in
    (
      take len (drop sb.pos sb.storage),
      record sb { pos = sb.pos + len; datalen = sb.datalen - len },
    )

-- One piece of the data in the buffer.
unfoldable pub give : TftpMode → ℕ → Storage → List ℕ × Storage
unfolding copy_octet
give octet room sb = copy_octet room sb
give netascii room sb = local_to_netascii room sb

-- `memcpy(sesbuf->pos, pm, len)` in octet mode, with `len` the smaller of the room and `datalen`
unfoldable pub store_octet : Storage → List ℕ → ℕ × Storage
unfolding append_bytes
store_octet sb src =
    let room = session_bufsize - sb.datalen in
    let len = if ltb (length src) room then length src else room in
    (len, append_bytes sb (take len src))

-- One piece of the data received; the number says how much of it is used up.
unfoldable pub accept : TftpMode → Storage → List ℕ → ℕ × Storage
unfolding store_octet
accept octet sb src = store_octet sb src
accept netascii sb src = netascii_to_local sb src

module _ {W : Type 0} ⦃h : Host W⦄ where
  -- `load_data`, if the buffer is empty
  unfoldable pub refill : Session → Storage → Iwds → W → Io W
  refill s sb ds w =
      let loaded = load_data s sb ds w in
      if sb.datalen == 0 then loaded else record { good = true; buf = sb; ds = ds; world = w }

  -- The loop of `get_session_data`: `room` is `dstbufsize`, and `out` holds the `total` bytes stored.
  unfoldable pub get_loop : ℕ → Session → ℕ → List ℕ → Storage → Iwds → W → Transferred W
  get_loop zero s room out sb ds w = ends stuck sb ds w
  get_loop (suc fuel) s room out sb ds w =
      let r = refill s sb ds w in
      let (bytes, sb') = give s.tftpmode room r.buf in
      let more = get_loop fuel s (room - length bytes) (out ++ bytes) sb' r.ds r.world in
      let text = out ++ bytes in
      let stop = ends io_error r.buf r.ds r.world in
      let eof = ends (moved (length out) out) r.buf r.ds r.world in
      let full = ends (moved (length text) text) sb' r.ds r.world in
      if r.good
      then (if r.buf.datalen == 0 then eof else if ltb (length bytes) room then more else full)
      else stop

  unfoldable pub get_session_data : Session → Iwds → ℕ → W → Transferred W
  unfolding get_loop
  get_session_data s ds dstbufsize w = get_loop (suc dstbufsize) s dstbufsize [] s.sesbuf ds w

  -- `save_data`, if the buffer is full or the transfer is at its end
  unfoldable pub flush : Session → Storage → Iwds → W → Io W
  flush s sb ds w =
      let saved = save_data s sb ds w in
      if sb.datalen == session_bufsize || s.fin
      then saved
      else record { good = true; buf = sb; ds = ds; world = w }

  -- The loop of `put_session_data`: `src` holds the `datalen` bytes at `pm`.
  unfoldable pub put_loop : ℕ → Session → ℕ → List ℕ → Storage → Iwds → W → Transferred W
  put_loop zero s total src sb ds w = ends stuck sb ds w
  put_loop (suc fuel) s total src sb ds w =
      let (len, sb') = accept s.tftpmode sb src in
      let r = flush s sb' ds w in
      let more = put_loop fuel s (total + len) (drop len src) r.buf r.ds r.world in
      let stop = ends io_error r.buf r.ds r.world in
      let full = ends (moved (total + len) []) r.buf r.ds r.world in
      if r.good then (if ltb len (length src) then more else full) else stop

  unfoldable pub put_session_data : Session → Iwds → List ℕ → W → Transferred W
  unfolding put_loop
  put_session_data s ds src w =
      let none_moved = ends (moved 0 []) s.sesbuf ds w in
      if s.sesbuf.datalen == 0 && length src == 0
      then none_moved
      else put_loop (suc (length src)) s 0 src s.sesbuf ds w
