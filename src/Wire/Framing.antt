-- ===== src/Wire/Framing.antt =====
-- internal/wire/framing.go: TDS packets. A packet is a header of eight bytes (type, status, length
-- in big endian, two unused bytes, a packet id, one unused byte) and a body; a message is the
-- bodies of its packets, up to the one whose status has the end-of-message bit.
pub mod Wellformed
pub mod Write
pub mod Read
mod Tests
use Prim.Native.Nat.{bit_and}
use haystak_tds_spi.Base.{
  ℕ, zero, suc, ◌+◌, ◌-◌, ◌%◌, ◌==◌, ltb, leb, if◌then◌else◌, Bool, true, false, Option, none, some,
  [], ◌∷◌, ◌++◌, Bytes, length, take, drop, get_or, map,
}
use haystak_tds_spi.Base.Result.{Result, ok, err, panic, no_fuel, ◌>>=◌}
use haystak_tds_spi.Go.Binary.{put_u16_be, u16_be}
use haystak_tds_spi.Go.Io.{ReadError, read_full, Writer}

abbrev pub header_size : ℕ
header_size = 8

abbrev pub status_eom : ℕ
status_eom = 1

abbrev pub default_packet_size : ℕ
default_packet_size = 4096

-- `PacketType`, a byte: the kinds of message that the server reads and writes
abbrev pub packet_sql_batch : ℕ
packet_sql_batch = 0x01

abbrev pub packet_rpc : ℕ
packet_rpc = 0x03

abbrev pub packet_response : ℕ
packet_response = 0x04

abbrev pub packet_attention : ℕ
packet_attention = 0x06

abbrev pub packet_login7 : ℕ
packet_login7 = 0x10

abbrev pub packet_prelogin : ℕ
packet_prelogin = 0x12

pub record Message : Type 0 where
  pub type : ℕ
  pub payload : Bytes

pub data FrameError : Type 0 where
  read_failed : ReadError → FrameError
  bad_length : ℕ → FrameError

-- `if _, err := io.ReadFull(r, …); err != nil { return Message{}, err }`
pub reads : Result ReadError (Bytes × Bytes) → Result FrameError (Bytes × Bytes)
reads (ok a) = ok a
reads (err e) = err (read_failed e)
reads panic = panic
reads no_fuel = no_fuel

-- make([]byte, int(length)-headerSize), by its length; a negative one panics
unfoldable pub make_body : ℕ → Result FrameError ℕ
make_body len = if ltb len header_size then panic else ok (len - header_size)

-- The loop of `ReadMessage`, with `first`, `typ` and `payload`. The header is an array of eight
-- bytes, so that its indices are in range.
pub read_loop : ℕ → Bool → ℕ → Bytes → Bytes → Result FrameError (Message × Bytes)
read_loop zero first typ payload r = no_fuel
read_loop (suc fuel) first typ payload r = do
  (hdr, r1) ← reads (read_full header_size r)
  let len = u16_be (take 2 (drop 2 hdr))
  if ltb len header_size then err (bad_length len) else do
    let typ' = if first then get_or hdr 0 0 else typ
    size ← make_body len
    (body, r2) ← reads (read_full size r1)
    let rest = read_loop fuel false typ' (payload ++ body) r2
    if bit_and (get_or hdr 1 0) status_eom == 0
        then rest
        else ok (record { type = typ'; payload = payload ++ body }, r2)

-- `ReadMessage`: the message, and what the reader has yet to deliver. Each round takes a header.
pub read_message : Bytes → Result FrameError (Message × Bytes)
unfolding read_loop reads read_full
read_message r = read_loop (suc (length r)) true 0 [] r

-- The header of one packet: `hdr` in `WriteMessage`.
pub header : ℕ → Bool → ℕ → ℕ → Bytes
header typ last chunk_len pid =
    typ
    ∷ (if last then status_eom else 0)
    ∷ (put_u16_be (header_size + chunk_len) ++ (0 ∷ 0 ∷ pid ∷ 0 ∷ []))

-- The room for a body in one packet.
abbrev pub max_body_of : ℕ → ℕ
max_body_of packet_size =
    (if leb packet_size header_size then default_packet_size else packet_size) - header_size

module _ (w : Writer) where
  -- `if _, err := w.Write(p); err != nil { return err }`
  pub after :
      Option w.Error × w.State
      → (w.State → Result w.Error (Unit {0}) × w.State)
      → Result w.Error (Unit {0}) × w.State
  after (some e, s) k = (err e, s)
  after (none, s) k = k s

  -- The loop of `WriteMessage`, with `payload` and `pid`.
  pub write_loop : ℕ → ℕ → ℕ → ℕ → Bytes → w.State → Result w.Error (Unit {0}) × w.State
  write_loop zero typ max_body pid payload s = (no_fuel, s)
  write_loop (suc fuel) typ max_body pid payload s =
      let last = leb (length payload) max_body in
      let chunk = if last then payload else take max_body payload in
      after (w.write (header typ last (length chunk) pid) s) (λ s1. after (w.write chunk s1) (λ s2.
        let rest = write_loop fuel typ max_body ((pid + 1) % 256) (drop max_body payload) s2 in
        if last then (ok tt, s2) else rest))

  -- `WriteMessage`. Each round but the last takes a body of at least one byte.
  pub write_message : Message → ℕ → w.State → Result w.Error (Unit {0}) × w.State
  unfolding write_loop header after
  write_message m packet_size s =
      write_loop (suc (length m.payload)) m.type (max_body_of packet_size) 1 m.payload s
