-- ===== src/Examples/Golden.antt =====
-- The wire images of contracts/uart/golden_vectors.json, in its order.
use nightshift_opi.Prelude.{◌≡◌, refl, List, [], ◌∷◌, map, Result, ok, ◌>>=◌}
use nightshift_opi.Prelude.Bytes.{Bytes, pack}
use nightshift_opi.Tools.Vectors.{Vector, build_vectors}
use nightshift_opi.Tools.Vectors.{build_vector, frame_of, hex}
use nightshift_opi.Tools.Vectors.StateSpecs.{
  dashboard_example, hello_request, heartbeat_request, heartbeat_response, state_sync_begin,
  state_sync_end, mode_set_night_exec, attention_set_need_confirm, work_state_set_running,
  dashboard_set, notice_show,
}
use nightshift_opi.Tools.Vectors.PanelSpecs.{
  task_list_begin, task_item, task_list_end, ui_action_confirm, ui_action_request_resync,
  page_event, get_info_request, get_info_response, time_sync, led_override, backlight_set,
}
use nightshift_opi.Uart.Encode.{
  encode_attention_set, encode_backlight_set, encode_dashboard_set, encode_get_info_request,
  encode_get_info_response, encode_heartbeat, encode_heartbeat_response, encode_hello,
  encode_led_override, encode_mode_set, encode_notice_show, encode_page_event,
  encode_state_sync_begin, encode_state_sync_end, encode_task_item, encode_task_list_begin,
  encode_task_list_end, encode_time_sync, encode_ui_action, encode_work_state_set,
}
use nightshift_opi.Uart.Text.{encode_string, utf8_encode, utf8_char}
use nightshift_opi.Uart.Frame.{raw, wire}
use nightshift_opi.Uart.Framing.{stuff_frame}
use nightshift_opi.Uart.Crc.{crc16_ccitt_false, crc_loop, crc_bits, crc_bit}
use nightshift_opi.Uart.Cobs.{cobs_encode}
use nightshift_opi.Prelude.Int.{of_signed}
use nightshift_opi.Domain.Models.{attention_bits, mode_to_byte, work_state_to_byte}
use nightshift_opi.Tools.Vectors.Specs.{specs}

abbrev golden_images : List Bytes
golden_images =
    (6 ∷ 84 ∷ 53 ∷ 1 ∷ 1 ∷ 1 ∷ 2 ∷ 1 ∷ 2 ∷ 29 ∷ 3 ∷ 1 ∷ 1 ∷ 5 ∷ 120 ∷ 86 ∷ 52 ∷ 18 ∷ 3 ∷ 4 ∷ 1 ∷ 2
      ∷ 16 ∷ 19 ∷ 110 ∷ 105 ∷ 103 ∷ 104 ∷ 116 ∷ 115 ∷ 104 ∷ 105 ∷ 102 ∷ 116 ∷ 47 ∷ 48 ∷ 46 ∷ 49 ∷ 46
      ∷ 48 ∷ 108 ∷ 18 ∷ 0 ∷ [])
    ∷ (6 ∷ 84 ∷ 53 ∷ 1 ∷ 1 ∷ 2 ∷ 2 ∷ 2 ∷ 2 ∷ 8 ∷ 3 ∷ 136 ∷ 19 ∷ 1 ∷ 2 ∷ 1 ∷ 1 ∷ 1 ∷ 3 ∷ 168 ∷ 11 ∷ 0
        ∷ [])
    ∷ (6 ∷ 84 ∷ 53 ∷ 1 ∷ 2 ∷ 2 ∷ 2 ∷ 2 ∷ 2 ∷ 14 ∷ 1 ∷ 1 ∷ 4 ∷ 64 ∷ 226 ∷ 1 ∷ 2 ∷ 1 ∷ 1 ∷ 1 ∷ 1 ∷ 1
        ∷ 1 ∷ 1 ∷ 3 ∷ 74 ∷ 125 ∷ 0 ∷ [])
    ∷ (6 ∷ 84 ∷ 53 ∷ 1 ∷ 1 ∷ 3 ∷ 2 ∷ 16 ∷ 2 ∷ 5 ∷ 2 ∷ 1 ∷ 1 ∷ 1 ∷ 1 ∷ 3 ∷ 234 ∷ 210 ∷ 0 ∷ [])
    ∷ (6 ∷ 84 ∷ 53 ∷ 1 ∷ 1 ∷ 4 ∷ 2 ∷ 17 ∷ 2 ∷ 8 ∷ 2 ∷ 1 ∷ 1 ∷ 1 ∷ 1 ∷ 1 ∷ 1 ∷ 1 ∷ 3 ∷ 197 ∷ 15 ∷ 0
        ∷ [])
    ∷ (6 ∷ 84 ∷ 53 ∷ 1 ∷ 1 ∷ 5 ∷ 4 ∷ 1 ∷ 16 ∷ 14 ∷ 2 ∷ 1 ∷ 1 ∷ 1 ∷ 3 ∷ 2 ∷ 2 ∷ 6 ∷ 104 ∷ 229 ∷ 207
        ∷ 139 ∷ 1 ∷ 1 ∷ 3 ∷ 47 ∷ 158 ∷ 0 ∷ [])
    ∷ (6 ∷ 84 ∷ 53 ∷ 1 ∷ 1 ∷ 6 ∷ 4 ∷ 2 ∷ 16 ∷ 17 ∷ 2 ∷ 1 ∷ 1 ∷ 1 ∷ 2 ∷ 1 ∷ 1 ∷ 1 ∷ 2 ∷ 2 ∷ 2 ∷ 5 ∷ 8
        ∷ 99 ∷ 104 ∷ 101 ∷ 99 ∷ 107 ∷ 231 ∷ 198 ∷ 0 ∷ [])
    ∷ (6 ∷ 84 ∷ 53 ∷ 1 ∷ 1 ∷ 7 ∷ 4 ∷ 3 ∷ 16 ∷ 31 ∷ 2 ∷ 1 ∷ 1 ∷ 1 ∷ 4 ∷ 2 ∷ 244 ∷ 1 ∷ 1 ∷ 2 ∷ 100 ∷ 1
        ∷ 1 ∷ 2 ∷ 50 ∷ 1 ∷ 1 ∷ 2 ∷ 60 ∷ 1 ∷ 1 ∷ 2 ∷ 7 ∷ 1 ∷ 1 ∷ 2 ∷ 4 ∷ 7 ∷ 100 ∷ 101 ∷ 109 ∷ 111
        ∷ 238 ∷ 178 ∷ 0 ∷ [])
    ∷ (6 ∷ 84 ∷ 53 ∷ 1 ∷ 1 ∷ 8 ∷ 4 ∷ 4 ∷ 16 ∷ 16 ∷ 2 ∷ 1 ∷ 1 ∷ 1 ∷ 2 ∷ 1 ∷ 2 ∷ 2 ∷ 2 ∷ 3 ∷ 2 ∷ 4 ∷ 2
        ∷ 5 ∷ 2 ∷ 6 ∷ 3 ∷ 187 ∷ 145 ∷ 0 ∷ [])
    ∷ (6 ∷ 84 ∷ 53 ∷ 1 ∷ 1 ∷ 9 ∷ 4 ∷ 5 ∷ 16 ∷ 28 ∷ 2 ∷ 1 ∷ 1 ∷ 1 ∷ 2 ∷ 42 ∷ 1 ∷ 1 ∷ 2 ∷ 1 ∷ 3 ∷ 136
        ∷ 19 ∷ 1 ∷ 1 ∷ 1 ∷ 1 ∷ 1 ∷ 2 ∷ 2 ∷ 4 ∷ 104 ∷ 105 ∷ 4 ∷ 7 ∷ 98 ∷ 111 ∷ 100 ∷ 121 ∷ 248 ∷ 72
        ∷ 0 ∷ [])
    ∷ (6 ∷ 84 ∷ 53 ∷ 1 ∷ 1 ∷ 10 ∷ 4 ∷ 1 ∷ 17 ∷ 7 ∷ 2 ∷ 1 ∷ 1 ∷ 1 ∷ 1 ∷ 2 ∷ 2 ∷ 3 ∷ 186 ∷ 183 ∷ 0
        ∷ [])
    ∷ (6 ∷ 84 ∷ 53 ∷ 1 ∷ 1 ∷ 11 ∷ 4 ∷ 2 ∷ 17 ∷ 24 ∷ 2 ∷ 1 ∷ 1 ∷ 1 ∷ 2 ∷ 101 ∷ 1 ∷ 1 ∷ 3 ∷ 1 ∷ 2 ∷ 2
        ∷ 5 ∷ 7 ∷ 102 ∷ 105 ∷ 114 ∷ 115 ∷ 116 ∷ 4 ∷ 7 ∷ 117 ∷ 115 ∷ 101 ∷ 114 ∷ 77 ∷ 170 ∷ 0 ∷ [])
    ∷ (6 ∷ 84 ∷ 53 ∷ 1 ∷ 1 ∷ 12 ∷ 4 ∷ 3 ∷ 17 ∷ 8 ∷ 2 ∷ 1 ∷ 1 ∷ 1 ∷ 7 ∷ 239 ∷ 190 ∷ 173 ∷ 222 ∷ 11
        ∷ 172 ∷ 0 ∷ [])
    ∷ (6 ∷ 84 ∷ 53 ∷ 1 ∷ 5 ∷ 13 ∷ 4 ∷ 1 ∷ 32 ∷ 13 ∷ 2 ∷ 1 ∷ 3 ∷ 1 ∷ 50 ∷ 1 ∷ 1 ∷ 1 ∷ 1 ∷ 1 ∷ 1 ∷ 1
        ∷ 1 ∷ 3 ∷ 246 ∷ 52 ∷ 0 ∷ [])
    ∷ (6 ∷ 84 ∷ 53 ∷ 1 ∷ 5 ∷ 14 ∷ 4 ∷ 1 ∷ 32 ∷ 13 ∷ 2 ∷ 13 ∷ 1 ∷ 1 ∷ 1 ∷ 1 ∷ 1 ∷ 1 ∷ 1 ∷ 1 ∷ 1 ∷ 1
        ∷ 1 ∷ 3 ∷ 89 ∷ 227 ∷ 0 ∷ [])
    ∷ (6 ∷ 84 ∷ 53 ∷ 1 ∷ 4 ∷ 15 ∷ 4 ∷ 2 ∷ 32 ∷ 6 ∷ 3 ∷ 3 ∷ 1 ∷ 1 ∷ 1 ∷ 1 ∷ 3 ∷ 9 ∷ 83 ∷ 0 ∷ [])
    ∷ (6 ∷ 84 ∷ 53 ∷ 1 ∷ 1 ∷ 16 ∷ 2 ∷ 3 ∷ 1 ∷ 1 ∷ 3 ∷ 164 ∷ 87 ∷ 0 ∷ [])
    ∷ (6 ∷ 84 ∷ 53 ∷ 1 ∷ 2 ∷ 16 ∷ 2 ∷ 3 ∷ 2 ∷ 38 ∷ 1 ∷ 1 ∷ 2 ∷ 1 ∷ 1 ∷ 3 ∷ 4 ∷ 3 ∷ 1 ∷ 1 ∷ 8 ∷ 192
        ∷ 3 ∷ 28 ∷ 2 ∷ 16 ∷ 20 ∷ 8 ∷ 10 ∷ 116 ∷ 53 ∷ 47 ∷ 48 ∷ 46 ∷ 49 ∷ 46 ∷ 48 ∷ 10 ∷ 13 ∷ 84 ∷ 53
        ∷ 45 ∷ 69 ∷ 45 ∷ 80 ∷ 97 ∷ 112 ∷ 101 ∷ 114 ∷ 126 ∷ 44 ∷ 0 ∷ [])
    ∷ (6 ∷ 84 ∷ 53 ∷ 1 ∷ 1 ∷ 17 ∷ 2 ∷ 4 ∷ 2 ∷ 10 ∷ 1 ∷ 6 ∷ 104 ∷ 229 ∷ 207 ∷ 139 ∷ 1 ∷ 1 ∷ 5 ∷ 224
        ∷ 1 ∷ 86 ∷ 19 ∷ 0 ∷ [])
    ∷ (6 ∷ 84 ∷ 53 ∷ 1 ∷ 1 ∷ 18 ∷ 4 ∷ 1 ∷ 48 ∷ 4 ∷ 7 ∷ 1 ∷ 2 ∷ 232 ∷ 3 ∷ 230 ∷ 250 ∷ 0 ∷ [])
    ∷ (6 ∷ 84 ∷ 53 ∷ 1 ∷ 1 ∷ 19 ∷ 4 ∷ 2 ∷ 48 ∷ 1 ∷ 4 ∷ 75 ∷ 183 ∷ 30 ∷ 0 ∷ [])
    ∷ []

abbrev built_images : Result (List Bytes)
built_images = do vectors ← build_vectors specs; ok (map (λ (v : Vector). v.raw_bytes) vectors)

built_images_eq : built_images ≡ ok golden_images
unfolding specs build_vectors build_vector frame_of hex dashboard_example hello_request
    heartbeat_request heartbeat_response state_sync_begin state_sync_end mode_set_night_exec
    attention_set_need_confirm work_state_set_running dashboard_set notice_show task_list_begin
    task_item task_list_end ui_action_confirm ui_action_request_resync page_event get_info_request
    get_info_response time_sync led_override backlight_set encode_attention_set encode_backlight_set
    encode_dashboard_set encode_get_info_request encode_get_info_response encode_heartbeat
    encode_heartbeat_response encode_hello encode_led_override encode_mode_set encode_notice_show
    encode_page_event encode_state_sync_begin encode_state_sync_end encode_task_item
    encode_task_list_begin encode_task_list_end encode_time_sync encode_ui_action
    encode_work_state_set encode_string utf8_encode utf8_char raw wire stuff_frame crc16_ccitt_false
    crc_loop crc_bits crc_bit cobs_encode of_signed pack attention_bits mode_to_byte
    work_state_to_byte
built_images_eq = refl
