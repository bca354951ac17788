-- ===== src/Tools/Vectors/PanelSpecs.antt =====
-- The vectors of the tasks, the panel and its actions (`SPECS` of tools/regenerate_golden_vectors.py).
use nightshift_opi.Prelude.{◌+◌, [], ◌∷◌, ok}
use nightshift_opi.Prelude.Int.{pos}
use nightshift_opi.Domain.Commands
use nightshift_opi.Uart.Encode.{
  encode_task_list_begin, encode_task_item, encode_task_list_end, encode_ui_action,
  encode_page_event, encode_get_info_request, encode_get_info_response, encode_time_sync,
  encode_led_override, encode_backlight_set,
}
use nightshift_opi.Tools.Vectors.{VectorSpec}

unfoldable pub task_list_begin : VectorSpec
task_list_begin = record {
  name = "task_list_begin";
  sequence = 10;
  command = Commands.task_list_begin;
  command_name = "TASK_LIST_BEGIN";
  flags = Commands.flag_ack_req;
  payload = encode_task_list_begin 1 0 2;
}

-- "first", "user"
unfoldable pub task_item : VectorSpec
task_item = record {
  name = "task_item";
  sequence = 11;
  command = Commands.task_item;
  command_name = "TASK_ITEM";
  flags = Commands.flag_ack_req;
  payload =
      encode_task_item 1 101 1 Commands.work_running 0 (102 ∷ 105 ∷ 114 ∷ 115 ∷ 116 ∷ [])
        (117 ∷ 115 ∷ 101 ∷ 114 ∷ []);
}

unfoldable pub task_list_end : VectorSpec
task_list_end = record {
  name = "task_list_end";
  sequence = 12;
  command = Commands.task_list_end;
  command_name = "TASK_LIST_END";
  flags = Commands.flag_ack_req;
  payload = encode_task_list_end 1 0xDEADBEEF;
}

unfoldable pub ui_action_confirm : VectorSpec
ui_action_confirm = record {
  name = "ui_action_confirm";
  sequence = 13;
  command = Commands.ui_action;
  command_name = "UI_ACTION";
  flags = Commands.flag_event + Commands.flag_ack_req;
  payload = encode_ui_action Commands.action_confirm Commands.obj_task 50 (pos 0) [];
}

unfoldable pub ui_action_request_resync : VectorSpec
ui_action_request_resync = record {
  name = "ui_action_request_resync";
  sequence = 14;
  command = Commands.ui_action;
  command_name = "UI_ACTION";
  flags = Commands.flag_event + Commands.flag_ack_req;
  payload = encode_ui_action Commands.action_request_resync Commands.obj_none 0 (pos 0) [];
}

unfoldable pub page_event : VectorSpec
page_event = record {
  name = "page_event";
  sequence = 15;
  command = Commands.page_event;
  command_name = "PAGE_EVENT";
  flags = Commands.flag_event;
  payload = encode_page_event 3 1 0;
}

unfoldable pub get_info_request : VectorSpec
get_info_request = record {
  name = "get_info_request";
  sequence = 16;
  command = Commands.get_info;
  command_name = "GET_INFO";
  flags = Commands.flag_ack_req;
  payload = ok encode_get_info_request;
}

-- "t5/0.1.0", "T5-E-Paper"
unfoldable pub get_info_response : VectorSpec
get_info_response = record {
  name = "get_info_response";
  sequence = 16;
  command = Commands.get_info;
  command_name = "GET_INFO";
  flags = Commands.flag_response;
  payload =
      encode_get_info_response Commands.ok 1 0 1024 (Commands.cap_lcd + Commands.cap_touch) 960 540
        16 20 (116 ∷ 53 ∷ 47 ∷ 48 ∷ 46 ∷ 49 ∷ 46 ∷ 48 ∷ [])
        (84 ∷ 53 ∷ 45 ∷ 69 ∷ 45 ∷ 80 ∷ 97 ∷ 112 ∷ 101 ∷ 114 ∷ []);
}

unfoldable pub time_sync : VectorSpec
time_sync = record {
  name = "time_sync";
  sequence = 17;
  command = Commands.time_sync;
  command_name = "TIME_SYNC";
  flags = Commands.flag_ack_req;
  payload = encode_time_sync 1700000000000 (pos 480);
}

unfoldable pub led_override : VectorSpec
led_override = record {
  name = "led_override";
  sequence = 18;
  command = Commands.led_override;
  command_name = "LED_OVERRIDE";
  flags = Commands.flag_ack_req;
  payload = encode_led_override 1 2 1000;
}

unfoldable pub backlight_set : VectorSpec
backlight_set = record {
  name = "backlight_set";
  sequence = 19;
  command = Commands.backlight_set;
  command_name = "BACKLIGHT_SET";
  flags = Commands.flag_ack_req;
  payload = encode_backlight_set 75;
}
