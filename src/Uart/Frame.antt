-- ===== src/Uart/Frame.antt =====
-- The T5-Link frame (nightshift/hardware/uart/protocol.py, `Frame`).
pub mod RoundTrip
pub mod Wire
use nightshift_opi.Prelude.{
  ℕ, ◌+◌, ◌≡◌, Bool, ◌&&◌, List, [], ◌∷◌, ◌++◌, not, ltb, ◌==◌, if◌then◌else◌, length, take, drop,
  Result, ok, err, protocol_error, ◌>>=◌, ◌>>◌, raise_if,
}
use nightshift_opi.Prelude.Bytes.{Bytes, pack, field, check_size, to_bytes}
use nightshift_opi.Domain.Commands
use nightshift_opi.Uart.Framing.{stuff_frame, unstuff_frame}

abbrev pub version_1 : ℕ
version_1 = 0x01

abbrev pub max_payload : ℕ
max_payload = 1024

-- `MAGIC`, the two bytes of the field `2s`
abbrev pub magic : Bytes
magic = 0x54 ∷ 0x35 ∷ []

pub record Frame : Type 0 where
  pub version : ℕ
  pub flags : ℕ
  pub sequence : ℕ
  pub command : ℕ
  pub payload : Bytes

unfoldable pub raw : Frame → Result Bytes
raw f = do
  let size = length f.payload
  raise_if (ltb max_payload size) protocol_error
  head ← pack ((1, f.version) ∷ (1, f.flags) ∷ (2, f.sequence) ∷ (2, f.command) ∷ (2, size) ∷ [])
  ok (magic ++ head ++ f.payload)

-- `magic == MAGIC`, on the two bytes that `struct.unpack` cuts out
unfoldable pub is_magic : Bytes → Bool
is_magic bytes = field 0 1 bytes == 0x54 && field 1 1 bytes == 0x35

unfoldable pub parse : Bytes → Result Frame
unfolding is_magic
parse bytes = do
  raise_if (ltb (length bytes) 10) protocol_error
  let head = take 10 bytes
  check_size 10 head
  let version = field 2 1 head
  let size = field 8 2 head
  raise_if (not (is_magic head)) protocol_error
  raise_if (not (version == version_1)) protocol_error
  raise_if (ltb (length bytes) (10 + size)) protocol_error
  ok (record {
    version = version;
    flags = field 3 1 head;
    sequence = field 4 2 head;
    command = field 6 2 head;
    payload = take size (drop 10 bytes);
  })

-- `Frame.response`
unfoldable pub response : Frame → ℕ → Bytes → Result Frame
response f status reply = do
  head ← to_bytes 2 status
  ok (record {
    version = f.version;
    flags = Commands.flag_response;
    sequence = f.sequence;
    command = f.command;
    payload = head ++ reply;
  })

-- `Frame.request`
unfoldable pub request : ℕ → ℕ → Bytes → ℕ → Frame
request sequence command payload flags = record {
  version = version_1;
  flags = flags;
  sequence = sequence;
  command = command;
  payload = payload;
}

-- `stuff_frame(frame.raw)`
unfoldable pub wire : Frame → Result Bytes
wire f = do bytes ← raw f; stuff_frame bytes

-- The bytes that `_send_ack` writes.
unfoldable pub ack_wire : Frame → ℕ → Bytes → Result Bytes
ack_wire f status reply = do ack ← response f status reply; wire ack

-- `Frame.parse(unstuff_frame(frame_bytes))`
unfoldable pub unstuffed : Bytes → Result Frame
unstuffed frame_bytes = do bytes ← unstuff_frame frame_bytes; parse bytes
