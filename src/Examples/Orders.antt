-- ===== src/Examples/Orders.antt =====
-- MQTT commands at concrete inputs.
use Prim.Native.String.{String}
use nightshift_opi.Prelude.{
  Bool, ◌≡◌, ◌≤◌, ◌⊎◌, ◌++◌, refl, true, none, some, List, [], ◌∷◌, All, length, Result, ok, arith,
}
use nightshift_opi.Prelude.Bytes.{Bytes}
use nightshift_opi.Prelude.Int.{pos}
use nightshift_opi.Domain.Commands
use nightshift_opi.Domain.Events.{UiAction}
use nightshift_opi.Uart.Session.{Digest}
use nightshift_opi.Services.Tasks
use nightshift_opi.Services.Confirmations
use nightshift_opi.Services.Orchestrator.{init}
use nightshift_opi.Services.Orchestrator.Actions.{handle_ui_action}
use nightshift_opi.Mqtt.Json.{Json, json_int, json_dict, empty_dict, field, get}
use nightshift_opi.Mqtt.Topics.{
  is_client_id, matches_tail, is_end, has_wildcard, reply, validate_reply_to,
}
use nightshift_opi.Mqtt.Topics.Addressed.{IsAddressed}
use nightshift_opi.Mqtt.Schemas.{
  CommandEnvelope, Payload, parse_command, is_uuid, matches_hex, matches_dash, expected_keys,
  is_among, has_only,
}
use nightshift_opi.Mqtt.Schemas.Parsed.{IsWellFormed, fields_of, parse_command-fields_of}
use nightshift_opi.Mqtt.Schemas.Listed.{IsListed, parse_command-IsListed}
use nightshift_opi.Mqtt.CommandHandler.{CommandHandler, lookup, handle}
use nightshift_opi.Mqtt.CommandHandler.Dispatch.{
  Times, dispatch, int_argument, with_argument, with_row, row_id, decide_task, decided,
}
use nightshift_opi.Mqtt.CommandHandler.Redelivery.{executed_once}
use nightshift_opi.Mqtt.CommandHandler.Guards.{IsExecuted, handle-IsExecuted}
use nightshift_opi.Mqtt.CommandHandler.Equivalence.{confirm, dispatch-handle_ui_action}
use text.Mathlib.Text.{◌==◌ as str_eq}
use nightshift_opi.Domain.Models.{SystemMode, sensor_error}
use nightshift_opi.Mqtt.Topics.{command}
use nightshift_opi.Mqtt.CommandHandler.{ReplyMessage}
use nightshift_opi.Mqtt.Publisher.{Message}
use nightshift_opi.Mqtt.Client.{
  Announcement, state_changed, MqttClient, reply_message, handle_message,
}
use nightshift_opi.Mqtt.Client.Replies.{handle_message_replies}
use nightshift_opi.Mqtt.Client.Announcements.{IsAnnouncement}
use nightshift_opi.Mqtt.Documents.{build_state}
use nightshift_opi.Mqtt.Documents.Reading.{read_nat, read_mode, read_attention, read-build_state}
use nightshift_opi.Examples.Desk.{quiet, one_open}

abbrev order : CommandEnvelope
order = record {
  request_id = "0b1c2d3e-0000-4000-8000-00000000000f";
  client_id = "phone-1";
  reply_to = "home/opi/one/reply/phone-1";
  sent_at_ms = pos 1000;
  ttl_ms = 500;
  command = "task.confirm";
  args = field "task_id" (json_int (pos 1)) empty_dict;
}

order-IsWellFormed : IsWellFormed order
unfolding is_uuid matches_hex matches_dash is_end is_client_id matches_tail expected_keys has_only
    is_among
order-IsWellFormed = record {
  request_id = refl;
  client_id = refl;
  reply_to = refl;
  ttl_ms = omega arith;
  allowed = ("task_id" ∷ [], refl, refl);
}

-- Decoders that know one text.
abbrev pub decode : Bytes → Result String
decode b = ok "order"

abbrev pub loads : String → Result Json
loads s = ok (json_dict (fields_of order))

abbrev pub order_bytes : Payload
order_bytes = Payload.of_bytes (123 ∷ [])

parse_command-fields_of_example : parse_command decode loads order_bytes ≡ ok order
parse_command-fields_of_example =
    parse_command-fields_of decode loads (123 ∷ []) "order" order order-IsWellFormed refl refl

parse_order : parse_command decode loads order_bytes ≡ ok order
parse_order =
    parse_command-fields_of decode loads (123 ∷ []) "order" order order-IsWellFormed refl refl

parse_command-IsListed_example : IsListed order
parse_command-IsListed_example = parse_command-IsListed decode loads order_bytes order parse_order

abbrev handler : CommandHandler
handler = record {
  topics = record { root = "home/opi/one" };
  orchestrator = init (some one_open) none none 0;
  cache = [];
}

abbrev pub no_hash : Json → Digest
no_hash value = []

abbrev pub at_1200 : Times
at_1200 = record {
  now_ms = 1200;
  decided_at_ms = 1201;
  executed_at_ms = 7;
  sync_ms = 8;
  replied_at_ms = 1202;
}

abbrev at_1400 : Times
at_1400 = record at_1200 { now_ms = 1400; replied_at_ms = 1402 }

handle-IsExecuted_example :
    let h' = (handle quiet no_hash decode loads order_bytes at_1200 handler).1 in
    (h' ≡ handler)
    ⊎ ((e : CommandEnvelope) × (parse_command decode loads order_bytes ≡ ok e)
        × IsWellFormed e
        × IsAddressed e.reply_to e.client_id handler.topics
        × IsExecuted quiet no_hash e at_1200 handler h')
handle-IsExecuted_example = handle-IsExecuted quiet no_hash decode loads order_bytes at_1200 handler

abbrev confirmation : UiAction
confirmation = record {
  action = Commands.action_confirm;
  object_type = Commands.obj_task;
  object_id = 1;
  value = pos 0;
  text = [];
}

dispatch-handle_ui_action_example :
    (dispatch quiet order at_1200 (init (some one_open) none none 0)).1
    ≡ (handle_ui_action quiet 1201 8 confirmation (init (some one_open) none none 0)).1
unfolding int_argument get
dispatch-handle_ui_action_example =
    dispatch-handle_ui_action quiet confirm order confirmation at_1200
      (init (some one_open) none none 0) refl refl refl refl refl

executed_once_example :
    let (r, h1) = handle quiet no_hash decode loads order_bytes at_1200 handler in
    (h1.orchestrator ≡ (dispatch quiet order at_1200 (init (some one_open) none none 0)).1)
    × (handle quiet no_hash decode loads order_bytes at_1400 h1 ≡ (r, h1))
unfolding validate_reply_to reply is_client_id matches_tail has_wildcard lookup dispatch
    with_argument init int_argument get with_row row_id decide_task decided Confirmations.confirm
    Tasks.transition Tasks.update Tasks.state_eq Tasks.find Tasks.count_in
executed_once_example =
    executed_once quiet no_hash decode loads order_bytes order at_1200 at_1400 handler
      (record {
        ok = true;
        code = "ok";
        content = field "pending_count" (json_int (pos 0)) empty_dict;
      })
      (dispatch quiet order at_1200 (init (some one_open) none none 0)).1 parse_order refl refl tt
      refl

abbrev pub client : MqttClient
client = record { node_id = "one"; handler = handler; has_publisher = true; sent = [] }

abbrev pub takes_all : Message → Bool
takes_all message = true

-- The calls of the listeners while the command is handled.
abbrev told_once : List Announcement
told_once = state_changed handler.orchestrator.state handler.orchestrator ∷ []

handle_message_replies_example :
    let c' =
      handle_message takes_all quiet no_hash decode loads "home/opi/one/command" order_bytes at_1200
        told_once client in
    (ms : List Message) × (length ms ≤ 1)
    × All (IsAnnouncement handler.topics) ms
    × ((c'.sent ≡ [] ++ ms)
        ⊎ ((e : CommandEnvelope) × (reply : ReplyMessage) × (str_eq "home/opi/one/command"
                (command handler.topics)
              ≡ true)
            × (parse_command decode loads order_bytes ≡ ok e)
            × IsWellFormed e
            × IsAddressed e.reply_to e.client_id handler.topics
            × (c'.sent ≡ ([] ++ ms) ++ reply_message e.reply_to reply ∷ [])))
handle_message_replies_example =
    handle_message_replies takes_all quiet no_hash decode loads "home/opi/one/command" order_bytes
      at_1200 told_once client

read-build_state_example :
    let doc = build_state (init none none none 5).state "one" none none in
    (read_nat (get "revision" doc) ≡ some 0)
    × (read_mode (get "mode" doc) ≡ some SystemMode.idle)
    × (read_attention (get "attention" doc) ≡ some sensor_error)
unfolding init
read-build_state_example = read-build_state (init none none none 5).state "one" none none
