-- ===== src/Domain/Commands.antt =====
-- The constants of T5-Link v1 (nightshift/domain/commands.py).
use nightshift_opi.Prelude.{ℕ, ◌^◌}

abbrev pub hello : ℕ
hello = 0x0001

abbrev pub heartbeat : ℕ
heartbeat = 0x0002

abbrev pub get_info : ℕ
get_info = 0x0003

abbrev pub time_sync : ℕ
time_sync = 0x0004

abbrev pub state_sync_begin : ℕ
state_sync_begin = 0x0010

abbrev pub state_sync_end : ℕ
state_sync_end = 0x0011

abbrev pub mode_set : ℕ
mode_set = 0x1001

abbrev pub attention_set : ℕ
attention_set = 0x1002

abbrev pub work_state_set : ℕ
work_state_set = 0x1003

abbrev pub dashboard_set : ℕ
dashboard_set = 0x1004

abbrev pub notice_show : ℕ
notice_show = 0x1005

abbrev pub task_list_begin : ℕ
task_list_begin = 0x1101

abbrev pub task_item : ℕ
task_item = 0x1102

abbrev pub task_list_end : ℕ
task_list_end = 0x1103

abbrev pub ui_action : ℕ
ui_action = 0x2001

abbrev pub page_event : ℕ
page_event = 0x2002

abbrev pub touch_event_debug : ℕ
touch_event_debug = 0x2003

abbrev pub led_override : ℕ
led_override = 0x3001

abbrev pub backlight_set : ℕ
backlight_set = 0x3002

abbrev pub audio_play : ℕ
audio_play = 0x4001

abbrev pub audio_stop : ℕ
audio_stop = 0x4002

abbrev pub volume_set : ℕ
volume_set = 0x4003

abbrev pub audio_event : ℕ
audio_event = 0x4004

abbrev pub mic_start : ℕ
mic_start = 0x4010

abbrev pub mic_stop : ℕ
mic_stop = 0x4011

abbrev pub mic_event : ℕ
mic_event = 0x4012

abbrev pub ok : ℕ
ok = 0x0000

abbrev pub accepted : ℕ
accepted = 0x0001

abbrev pub unknown_command : ℕ
unknown_command = 0x0002

abbrev pub invalid_length : ℕ
invalid_length = 0x0003

abbrev pub invalid_argument : ℕ
invalid_argument = 0x0004

abbrev pub busy : ℕ
busy = 0x0005

abbrev pub not_ready : ℕ
not_ready = 0x0006

abbrev pub not_found : ℕ
not_found = 0x0007

abbrev pub internal_error : ℕ
internal_error = 0x0008

abbrev pub unsupported_version : ℕ
unsupported_version = 0x0009

abbrev pub no_space : ℕ
no_space = 0x000A

abbrev pub state_conflict : ℕ
state_conflict = 0x000B

abbrev pub obj_none : ℕ
obj_none = 0

abbrev pub obj_task : ℕ
obj_task = 1

abbrev pub obj_notice : ℕ
obj_notice = 2

abbrev pub obj_executor : ℕ
obj_executor = 3

abbrev pub obj_panel : ℕ
obj_panel = 4

abbrev pub mode_idle : ℕ
mode_idle = 0

abbrev pub mode_day_work : ℕ
mode_day_work = 1

abbrev pub mode_night_exec : ℕ
mode_night_exec = 2

abbrev pub work_stopped : ℕ
work_stopped = 0

abbrev pub work_starting : ℕ
work_starting = 1

abbrev pub work_running : ℕ
work_running = 2

abbrev pub work_paused : ℕ
work_paused = 3

abbrev pub work_completed : ℕ
work_completed = 4

abbrev pub work_failed : ℕ
work_failed = 5

abbrev pub action_confirm : ℕ
action_confirm = 1

abbrev pub action_reject : ℕ
action_reject = 2

abbrev pub action_retry : ℕ
action_retry = 3

abbrev pub action_pause_execution : ℕ
action_pause_execution = 4

abbrev pub action_resume_execution : ℕ
action_resume_execution = 5

abbrev pub action_open_task : ℕ
action_open_task = 6

abbrev pub action_close_task : ℕ
action_close_task = 7

abbrev pub action_start_voice : ℕ
action_start_voice = 8

abbrev pub action_stop_voice : ℕ
action_stop_voice = 9

abbrev pub action_next_page : ℕ
action_next_page = 10

abbrev pub action_previous_page : ℕ
action_previous_page = 11

abbrev pub action_dismiss_notice : ℕ
action_dismiss_notice = 12

abbrev pub action_request_resync : ℕ
action_request_resync = 13

abbrev pub flag_ack_req : ℕ
flag_ack_req = 2 ^ 0

abbrev pub flag_response : ℕ
flag_response = 2 ^ 1

abbrev pub flag_event : ℕ
flag_event = 2 ^ 2

abbrev pub flag_more : ℕ
flag_more = 2 ^ 3

abbrev pub flag_high_priority : ℕ
flag_high_priority = 2 ^ 4

abbrev pub cap_lcd : ℕ
cap_lcd = 2 ^ 0

abbrev pub cap_touch : ℕ
cap_touch = 2 ^ 1

abbrev pub cap_led : ℕ
cap_led = 2 ^ 2

abbrev pub cap_speaker : ℕ
cap_speaker = 2 ^ 3

abbrev pub cap_microphone : ℕ
cap_microphone = 2 ^ 4

abbrev pub cap_asset_storage : ℕ
cap_asset_storage = 2 ^ 5

abbrev pub cap_audio_stream : ℕ
cap_audio_stream = 2 ^ 6

abbrev pub cap_local_animation : ℕ
cap_local_animation = 2 ^ 7
