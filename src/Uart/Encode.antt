-- ===== src/Uart/Encode.antt =====
-- Payloads sent to the panel (nightshift/hardware/uart/protocol.py, the encoders). `x & 0xFF..` is
-- the remainder by the power of two.
use nightshift_opi.Prelude.{ℕ, ◌%◌, ◌^◌, [], ◌∷◌, ◌++◌, Result, ok, ◌>>=◌}
use nightshift_opi.Prelude.Bytes.{Bytes, pack}
use nightshift_opi.Prelude.Int.{ℤ, of_signed}
use nightshift_opi.Domain.Models.{
  SystemMode, WorkState, AttentionFlag, attention_bits, DashboardState, mode_to_byte,
  work_state_to_byte,
}
use nightshift_opi.Uart.Text.{Text, encode_string}

abbrev u8 : ℕ → ℕ
u8 n = n % 2 ^ 8

abbrev u16 : ℕ → ℕ
u16 n = n % 2 ^ 16

abbrev u32 : ℕ → ℕ
u32 n = n % 2 ^ 32

abbrev u64 : ℕ → ℕ
u64 n = n % 2 ^ 64

unfoldable pub encode_hello : ℕ → ℕ → ℕ → ℕ → ℕ → ℕ → Text → Result Bytes
encode_hello peer_role major minor boot_id max_payload capabilities software_version = do
  head ← pack (
      (1, peer_role)
      ∷ (1, major)
      ∷ (1, minor)
      ∷ (4, boot_id)
      ∷ (2, max_payload)
      ∷ (2, capabilities)
      ∷ [])
  text ← encode_string software_version
  ok (head ++ text)

unfoldable pub encode_heartbeat : ℕ → ℕ → Result Bytes
encode_heartbeat uptime_ms state_revision = pack ((4, uptime_ms) ∷ (4, state_revision) ∷ [])

unfoldable pub encode_heartbeat_response : ℕ → ℕ → ℕ → ℕ → Result Bytes
encode_heartbeat_response status t5_uptime_ms applied_revision error_flags = pack (
    (2, u16 status) ∷ (4, u32 t5_uptime_ms) ∷ (4, u32 applied_revision) ∷ (4, u32 error_flags) ∷ [])

unfoldable pub encode_state_sync_begin : ℕ → ℕ → Result Bytes
encode_state_sync_begin revision reason = pack ((4, revision) ∷ (1, reason) ∷ [])

unfoldable pub encode_state_sync_end : ℕ → ℕ → Result Bytes
encode_state_sync_end revision snapshot_crc32 = pack ((4, revision) ∷ (4, snapshot_crc32) ∷ [])

unfoldable pub encode_mode_set : ℕ → SystemMode → ℕ → ℕ → Result Bytes
encode_mode_set revision mode changed_at_ms reason =
    pack ((4, revision) ∷ (1, mode_to_byte mode) ∷ (1, u8 reason) ∷ (8, changed_at_ms) ∷ [])

unfoldable pub encode_attention_set : ℕ → AttentionFlag → ℕ → Text → Result Bytes
encode_attention_set revision attention confirmation_count short_message = do
  head ← pack ((4, revision) ∷ (4, attention_bits attention) ∷ (2, confirmation_count) ∷ [])
  text ← encode_string short_message
  ok (head ++ text)

unfoldable pub encode_work_state_set : ℕ → WorkState → ℕ → ℕ → ℕ → ℕ → ℕ → Text → Result Bytes
encode_work_state_set revision work_state permille token_input token_output elapsed task_id title =
    do
      head ← pack (
          (4, revision)
          ∷ (1, work_state_to_byte work_state)
          ∷ (2, permille)
          ∷ (2, 0)
          ∷ (4, token_input)
          ∷ (4, token_output)
          ∷ (4, elapsed)
          ∷ (4, task_id)
          ∷ [])
      text ← encode_string title
      ok (head ++ text)

unfoldable pub encode_dashboard_set : ℕ → DashboardState → Result Bytes
encode_dashboard_set revision d = pack (
    (4, revision)
    ∷ (2, d.urgent_auto)
    ∷ (2, d.normal_auto)
    ∷ (2, d.urgent_confirm)
    ∷ (2, d.normal_confirm)
    ∷ (2, d.completed_today)
    ∷ (2, d.failed_today)
    ∷ [])

unfoldable pub encode_ui_action : ℕ → ℕ → ℕ → ℤ → Text → Result Bytes
encode_ui_action action object_type object_id value text = do
  field ← of_signed 4 value
  head ← pack ((2, action) ∷ (1, object_type) ∷ (4, object_id) ∷ (4, field) ∷ [])
  tail ← encode_string text
  ok (head ++ tail)

unfoldable pub encode_get_info_request : Bytes
encode_get_info_request = []

unfoldable pub encode_get_info_response :
    ℕ → ℕ → ℕ → ℕ → ℕ → ℕ → ℕ → ℕ → ℕ → Text → Text → Result Bytes
encode_get_info_response status major minor max_payload capabilities width height bits tasks
      firmware_version board_name =
    do
      head ← pack (
          (2, u16 status)
          ∷ (1, u8 major)
          ∷ (1, u8 minor)
          ∷ (2, u16 max_payload)
          ∷ (4, u32 capabilities)
          ∷ (2, u16 width)
          ∷ (2, u16 height)
          ∷ (1, u8 bits)
          ∷ (1, u8 tasks)
          ∷ [])
      firmware ← encode_string firmware_version
      board ← encode_string board_name
      ok (head ++ firmware ++ board)

unfoldable pub encode_time_sync : ℕ → ℤ → Result Bytes
encode_time_sync now_ms tz_offset_minutes = do
  offset ← of_signed 2 tz_offset_minutes
  pack ((8, u64 now_ms) ∷ (2, offset) ∷ [])

unfoldable pub encode_notice_show : ℕ → ℕ → ℕ → ℕ → ℕ → Text → Text → Result Bytes
encode_notice_show revision notice_id severity flags expires_at_ms title body = do
  head ← pack (
      (4, u32 revision)
      ∷ (4, u32 notice_id)
      ∷ (1, u8 severity)
      ∷ (1, u8 flags)
      ∷ (8, u64 expires_at_ms)
      ∷ [])
  first ← encode_string title
  second ← encode_string body
  ok (head ++ first ++ second)

unfoldable pub encode_task_list_begin : ℕ → ℕ → ℕ → Result Bytes
encode_task_list_begin revision list_type item_count =
    pack ((4, u32 revision) ∷ (1, u8 list_type) ∷ (2, u16 item_count) ∷ [])

unfoldable pub encode_task_item : ℕ → ℕ → ℕ → ℕ → ℕ → Text → Text → Result Bytes
encode_task_item revision task_id quadrant task_state flags title source = do
  head ← pack (
      (4, u32 revision)
      ∷ (4, u32 task_id)
      ∷ (1, u8 quadrant)
      ∷ (1, u8 task_state)
      ∷ (1, u8 flags)
      ∷ [])
  first ← encode_string title
  second ← encode_string source
  ok (head ++ first ++ second)

unfoldable pub encode_task_list_end : ℕ → ℕ → Result Bytes
encode_task_list_end revision list_crc32 = pack ((4, u32 revision) ∷ (4, u32 list_crc32) ∷ [])

unfoldable pub encode_led_override : ℕ → ℕ → ℕ → Result Bytes
encode_led_override active mode period_ms =
    pack ((1, u8 active) ∷ (1, u8 mode) ∷ (2, u16 period_ms) ∷ [])

unfoldable pub encode_backlight_set : ℕ → Result Bytes
encode_backlight_set percent = pack ((1, u8 percent) ∷ [])

unfoldable pub encode_page_event : ℕ → ℕ → ℕ → Result Bytes
encode_page_event page_id event object_id =
    pack ((1, u8 page_id) ∷ (1, u8 event) ∷ (4, u32 object_id) ∷ [])
