-- ===== src/Uart/Parse.antt =====
-- Payloads from the panel (nightshift/hardware/uart/protocol.py, the parsers).
pub mod RoundTrip
use nightshift_opi.Prelude.{
  ℕ, ◌+◌, ltb, if◌then◌else◌, length, take, drop, Result, ok, protocol_error, ◌>>=◌, ◌>>◌, raise_if,
}
use nightshift_opi.Prelude.Bytes.{Bytes, field, check_size}
use nightshift_opi.Prelude.Int.{ℤ, to_signed}
use nightshift_opi.Uart.Text.{Text, decode_string}

pub record HelloInfo : Type 0 where
  pub peer_role : ℕ
  pub protocol_major : ℕ
  pub protocol_minor : ℕ
  pub boot_id : ℕ
  pub max_payload : ℕ
  pub capabilities : ℕ
  pub software_version : Text

pub record HeartbeatStatus : Type 0 where
  pub status : ℕ
  pub t5_uptime_ms : ℕ
  pub applied_revision : ℕ
  pub error_flags : ℕ

pub record GetInfoResponse : Type 0 where
  pub status : ℕ
  pub protocol_major : ℕ
  pub protocol_minor : ℕ
  pub max_payload : ℕ
  pub capabilities : ℕ
  pub display_width : ℕ
  pub display_height : ℕ
  pub color_bits : ℕ
  pub max_tasks : ℕ
  pub firmware_version : Text
  pub board_name : Text

pub record PageEventPayload : Type 0 where
  pub page_id : ℕ
  pub event : ℕ
  pub object_id : ℕ

-- The tuple that `parse_ui_action` returns.
pub record UiActionPayload : Type 0 where
  pub action : ℕ
  pub object_type : ℕ
  pub object_id : ℕ
  pub value : ℤ
  pub text : Text

unfoldable pub parse_hello : Bytes → Result HelloInfo
parse_hello payload = do
  raise_if (ltb (length payload) 11) protocol_error
  let head = take 11 payload
  check_size 11 head
  ok (record {
    peer_role = field 0 1 head;
    protocol_major = field 1 1 head;
    protocol_minor = field 2 1 head;
    boot_id = field 3 4 head;
    max_payload = field 7 2 head;
    capabilities = field 9 2 head;
    software_version = decode_string (drop 11 payload);
  })

unfoldable pub parse_heartbeat_response : Bytes → Result HeartbeatStatus
parse_heartbeat_response payload = do
  raise_if (ltb (length payload) 14) protocol_error
  let head = take 14 payload
  check_size 14 head
  ok (record {
    status = field 0 2 head;
    t5_uptime_ms = field 2 4 head;
    applied_revision = field 6 4 head;
    error_flags = field 10 4 head;
  })

-- The format `<HBBHIHHBB` has 16 bytes, and the slice `payload[:14]` has 14 at most.
unfoldable pub parse_get_info_response : Bytes → Result GetInfoResponse
parse_get_info_response payload = do
  raise_if (ltb (length payload) 14) protocol_error
  let head = take 14 payload
  check_size 16 head
  let firmware_version = decode_string (drop 14 payload)
  let str_len = if ltb 15 (length payload) then field 14 2 payload else 0
  let board_name = decode_string (drop (16 + str_len) payload)
  ok (record {
    status = field 0 2 head;
    protocol_major = field 2 1 head;
    protocol_minor = field 3 1 head;
    max_payload = field 4 2 head;
    capabilities = field 6 4 head;
    display_width = field 10 2 head;
    display_height = field 12 2 head;
    color_bits = field 14 1 head;
    max_tasks = field 15 1 head;
    firmware_version = firmware_version;
    board_name = board_name;
  })

unfoldable pub parse_ui_action : Bytes → Result UiActionPayload
parse_ui_action payload = do
  raise_if (ltb (length payload) 11) protocol_error
  let head = take 11 payload
  check_size 11 head
  ok (record {
    action = field 0 2 head;
    object_type = field 2 1 head;
    object_id = field 3 4 head;
    value = to_signed 4 (field 7 4 head);
    text = decode_string (drop 11 payload);
  })

unfoldable pub parse_page_event : Bytes → Result PageEventPayload
parse_page_event payload = do
  raise_if (ltb (length payload) 6) protocol_error
  let head = take 6 payload
  check_size 6 head
  ok (record { page_id = field 0 1 head; event = field 1 1 head; object_id = field 2 4 head })
