-- ===== src/Examples/Link.antt =====
-- Framing, the reader, frames and payloads at concrete inputs.
use nightshift_opi.Prelude.{
  ◌<◌, ◌≡◌, ◌≢◌, refl, List, [], ◌∷◌, length, ok, err, arith, stuck, ltb, if◌then◌else◌,
  protocol_error, struct_error,
}
use nightshift_opi.Prelude.Bytes.{Bytes}
use nightshift_opi.Uart.Cobs.{cobs_encode, cobs_decode}
use nightshift_opi.Uart.Cobs.Bounds.{cobs_decode_total}
use nightshift_opi.Uart.Framing.{stuff_frame, unstuff_frame}
use nightshift_opi.Uart.Framing.Laws.{unstuff_frame-stuff_frame}
use nightshift_opi.Uart.Reader.{read_chunks}
use nightshift_opi.Uart.Reader.Chunks.{delimit, handle_all, read_chunks-delimit}
use nightshift_opi.Uart.Frame.{Frame}
use nightshift_opi.Uart.Parse.{HelloInfo, parse_get_info_response}
use nightshift_opi.Uart.Parse.RoundTrip.{parse_get_info_response_fails}

abbrev bytes_with_zero : Bytes
bytes_with_zero = 0x11 ∷ 0 ∷ 0x22 ∷ []

cobs_runs : cobs_encode bytes_with_zero ≡ 2 ∷ 0x11 ∷ 2 ∷ 0x22 ∷ []
unfolding cobs_encode
cobs_runs = refl

abbrev truncated_block : Bytes
truncated_block = 5 ∷ 1 ∷ []

cobs_decode_total_example :
    (cobs_decode truncated_block ≢ err stuck)
    × ((result : Bytes)
        → cobs_decode truncated_block ≡ ok result
        → length result < length truncated_block)
cobs_decode_total_example = cobs_decode_total truncated_block

unstuff_frame-stuff_frame_example :
    (wire : Bytes) × (stuff_frame bytes_with_zero ≡ ok wire)
    × (unstuff_frame wire ≡ ok bytes_with_zero)
unstuff_frame-stuff_frame_example = unstuff_frame-stuff_frame bytes_with_zero

-- A handler that collects the frames.
abbrev collect : Bytes → List Bytes → List Bytes
collect frame_bytes frames = frame_bytes ∷ frames

abbrev two_bodies : List Bytes
two_bodies = (1 ∷ 2 ∷ []) ∷ (3 ∷ []) ∷ []

read_chunks-delimit_example :
    read_chunks collect ((1 ∷ []) ∷ (2 ∷ 0 ∷ 3 ∷ []) ∷ (0 ∷ []) ∷ []) ([], [])
    ≡ ([], handle_all collect (delimit two_bodies) [])
read_chunks-delimit_example =
    read_chunks-delimit collect two_bodies ((1 ∷ []) ∷ (2 ∷ 0 ∷ 3 ∷ []) ∷ (0 ∷ []) ∷ []) []
      (omega arith) refl

abbrev heartbeat_frame : Frame
heartbeat_frame = record {
  version = 1;
  flags = 1;
  sequence = 0x0102;
  command = 2;
  payload = 7 ∷ [];
}

abbrev heartbeat_bytes : Bytes
heartbeat_bytes = 0x54 ∷ 0x35 ∷ 1 ∷ 1 ∷ 2 ∷ 1 ∷ 2 ∷ 0 ∷ 1 ∷ 0 ∷ 7 ∷ []

abbrev panel_hello : HelloInfo
panel_hello = record {
  peer_role = 2;
  protocol_major = 1;
  protocol_minor = 0;
  boot_id = 0xAABBCCDD;
  max_payload = 1024;
  capabilities = 7;
  software_version = 0x74 ∷ 0x35 ∷ [];
}

abbrev panel_hello_wire : Bytes
panel_hello_wire = 2 ∷ 1 ∷ 0 ∷ 0xDD ∷ 0xCC ∷ 0xBB ∷ 0xAA ∷ 0 ∷ 4 ∷ 7 ∷ 0 ∷ 2 ∷ 0 ∷ 0x74 ∷ 0x35 ∷ []

abbrev short_payload : Bytes
short_payload = 1 ∷ []

parse_get_info_response_fails_example :
    parse_get_info_response short_payload
    ≡ (if ltb (length short_payload) 14 then err protocol_error else err struct_error)
parse_get_info_response_fails_example = parse_get_info_response_fails short_payload
