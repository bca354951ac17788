-- ===== src/Tools/Vectors/StateSpecs.antt =====
-- The first vectors, of the connection and the state (`SPECS` of tools/regenerate_golden_vectors.py).
use nightshift_opi.Prelude.{[], ◌∷◌, true}
use nightshift_opi.Domain.Commands
use nightshift_opi.Domain.Models.{AttentionFlag, DashboardState, no_attention, night_exec, running}
use nightshift_opi.Uart.Encode.{
  encode_hello, encode_heartbeat, encode_heartbeat_response, encode_state_sync_begin,
  encode_state_sync_end, encode_mode_set, encode_attention_set, encode_work_state_set,
  encode_dashboard_set, encode_notice_show,
}
use nightshift_opi.Tools.Vectors.{VectorSpec}

abbrev need_confirm_only : AttentionFlag
need_confirm_only = record no_attention { need_confirm = true }

unfoldable pub dashboard_example : DashboardState
dashboard_example = record {
  revision = 1;
  urgent_auto = 1;
  normal_auto = 2;
  urgent_confirm = 3;
  normal_confirm = 4;
  completed_today = 5;
  failed_today = 6;
}

-- "nightshift/0.1.0"
unfoldable pub hello_request : VectorSpec
hello_request = record {
  name = "hello_request";
  sequence = 1;
  command = Commands.hello;
  command_name = "HELLO";
  flags = Commands.flag_ack_req;
  payload = encode_hello 1 1 0 0x12345678 1024 1 (
      110 ∷ 105 ∷ 103 ∷ 104 ∷ 116 ∷ 115 ∷ 104 ∷ 105 ∷ 102 ∷ 116 ∷ 47 ∷ 48 ∷ 46 ∷ 49 ∷ 46 ∷ 48 ∷ []);
}

unfoldable pub heartbeat_request : VectorSpec
heartbeat_request = record {
  name = "heartbeat_request";
  sequence = 2;
  command = Commands.heartbeat;
  command_name = "HEARTBEAT";
  flags = Commands.flag_ack_req;
  payload = encode_heartbeat 5000 1;
}

unfoldable pub heartbeat_response : VectorSpec
heartbeat_response = record {
  name = "heartbeat_response";
  sequence = 2;
  command = Commands.heartbeat;
  command_name = "HEARTBEAT";
  flags = Commands.flag_response;
  payload = encode_heartbeat_response Commands.ok 123456 1 0;
}

unfoldable pub state_sync_begin : VectorSpec
state_sync_begin = record {
  name = "state_sync_begin";
  sequence = 3;
  command = Commands.state_sync_begin;
  command_name = "STATE_SYNC_BEGIN";
  flags = Commands.flag_ack_req;
  payload = encode_state_sync_begin 1 0;
}

unfoldable pub state_sync_end : VectorSpec
state_sync_end = record {
  name = "state_sync_end";
  sequence = 4;
  command = Commands.state_sync_end;
  command_name = "STATE_SYNC_END";
  flags = Commands.flag_ack_req;
  payload = encode_state_sync_end 1 0;
}

unfoldable pub mode_set_night_exec : VectorSpec
mode_set_night_exec = record {
  name = "mode_set_night_exec";
  sequence = 5;
  command = Commands.mode_set;
  command_name = "MODE_SET";
  flags = Commands.flag_ack_req;
  payload = encode_mode_set 1 night_exec 1700000000000 2;
}

-- "check"
unfoldable pub attention_set_need_confirm : VectorSpec
attention_set_need_confirm = record {
  name = "attention_set_need_confirm";
  sequence = 6;
  command = Commands.attention_set;
  command_name = "ATTENTION_SET";
  flags = Commands.flag_ack_req;
  payload = encode_attention_set 1 need_confirm_only 2 (99 ∷ 104 ∷ 101 ∷ 99 ∷ 107 ∷ []);
}

-- "demo"
unfoldable pub work_state_set_running : VectorSpec
work_state_set_running = record {
  name = "work_state_set_running";
  sequence = 7;
  command = Commands.work_state_set;
  command_name = "WORK_STATE_SET";
  flags = Commands.flag_ack_req;
  payload = encode_work_state_set 1 running 500 100 50 60 7 (100 ∷ 101 ∷ 109 ∷ 111 ∷ []);
}

unfoldable pub dashboard_set : VectorSpec
dashboard_set = record {
  name = "dashboard_set";
  sequence = 8;
  command = Commands.dashboard_set;
  command_name = "DASHBOARD_SET";
  flags = Commands.flag_ack_req;
  payload = encode_dashboard_set 1 dashboard_example;
}

-- "hi", "body"
unfoldable pub notice_show : VectorSpec
notice_show = record {
  name = "notice_show";
  sequence = 9;
  command = Commands.notice_show;
  command_name = "NOTICE_SHOW";
  flags = Commands.flag_ack_req;
  payload = encode_notice_show 1 42 1 0 5000 (104 ∷ 105 ∷ []) (98 ∷ 111 ∷ 100 ∷ 121 ∷ []);
}
