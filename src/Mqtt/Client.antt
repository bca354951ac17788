-- ===== src/Mqtt/Client.antt =====
-- What the client does with one state, event or message
-- (nightshift/integrations/mqtt/client.py).
pub mod Announcements
pub mod Replies
pub mod RunLoop
use Prim.Native.String.{String}
use text.Mathlib.Text.{◌==◌ as str_eq}
use nightshift_opi.Prelude.{
  ℕ, Bool, true, false, ◌&&◌, Option, none, some, List, [], ◌∷◌, ◌++◌, if◌then◌else◌, Result, ok,
  err,
}
use nightshift_opi.Prelude.Bytes.{Bytes}
use nightshift_opi.Domain.Events.{
  DomainEvent, pressure_changed, mode_changed, work_state_changed, attention_changed,
  panel_connectivity_changed,
}
use nightshift_opi.Domain.Models.{SystemState, DashboardState}
use nightshift_opi.Domain.Pressure.{cushion, footrest}
use nightshift_opi.Services.Orchestrator.{Environment, Orchestrator}
use nightshift_opi.Uart.Session.{Digest}
use nightshift_opi.Mqtt.Json.{Json, Fields, json_bool, json_str, json_dict, empty_dict, field}
use nightshift_opi.Mqtt.Topics
use nightshift_opi.Mqtt.Schemas.{Payload}
use nightshift_opi.Mqtt.Documents.{json_nat, json_flag, mode_name, work_state_name}
use nightshift_opi.Mqtt.Publisher.{Message, state_message, event_message}
use nightshift_opi.Mqtt.CommandHandler.{CommandHandler, Delivery, ReplyMessage, handle}
use nightshift_opi.Mqtt.CommandHandler.Dispatch.{Times}

-- `has_publisher` is `self._publisher is not None`; `sent` is what the broker has taken.
pub record MqttClient : Type 0 where
  pub node_id : String
  pub handler : CommandHandler
  pub has_publisher : Bool
  pub sent : List Message

-- `json.dumps` is given this object by `to_json`.
unfoldable pub reply_document : ReplyMessage → Fields
reply_document r = field "schema" (json_str "nightshift.reply.v1") (
    field "request_id" (json_str r.request_id) (
      field "ok" (json_flag r.ok) (
        field "code" (json_str r.code) (
          field "revision" (json_nat r.revision) (
            field "replied_at_ms" (json_nat r.replied_at_ms)
              (field "data" (json_dict r.content) empty_dict))))))

unfoldable pub reply_message : String → ReplyMessage → Message
reply_message reply_to r = record { topic = reply_to; document = reply_document r; retain = false }

-- The message of an event, with the new event id; the other events have none.
unfoldable pub event_of : Topics.TopicBuilder → String → DomainEvent → Option Message
event_of topics event_id event = elim event [
  | mode_changed previous current reason revision occurred_at_ms ↦ some (
      event_message topics "mode.changed" event_id revision occurred_at_ms (
        field "from" (json_str (mode_name previous)) (
          field "to" (json_str (mode_name current)) (field "reason" (json_str reason) empty_dict))))
  | pressure_changed p revision occurred_at_ms ↦ some (
      event_message topics "pressure.changed" event_id revision occurred_at_ms (
        field "online" (json_flag p.online) (
          field "cushion" (json_flag (cushion p))
            (field "footrest" (json_flag (footrest p)) empty_dict))))
  | work_state_changed previous current ↦ some (
      event_message topics "work_state.changed" event_id 0 0 (
        field "from" (json_str (work_state_name previous))
          (field "to" (json_str (work_state_name current)) empty_dict)))
  | attention_changed flags confirmation_count ↦ some (
      event_message topics "attention.changed" event_id 0 0 (
        field "flags" (json_nat flags)
          (field "confirmation_count" (json_nat confirmation_count) empty_dict)))
  | panel_connectivity_changed online ↦ some (
      event_message topics "panel.connectivity" event_id 0 0
        (field "online" (json_flag online) empty_dict))
  | _ ↦ none
]

-- A call of the client's own listeners: of `on_state_changed`, with the orchestrator at that time, or
-- of `on_domain_event`, with the new event id.
pub data Announcement : Type 0 where
  state_changed : SystemState → Orchestrator → Announcement
  domain_event : String → DomainEvent → Announcement

-- `accepts` says whether the broker takes a message: a failing `publish` is logged.
module _ (accepts : Message → Bool) where
  unfoldable pub publish : Message → MqttClient → MqttClient
  publish message c = if accepts message then record c { sent = c.sent ++ message ∷ [] } else c

  unfoldable pub on_state_changed : SystemState → MqttClient → MqttClient
  on_state_changed s c =
      if c.has_publisher
      then publish
          (state_message c.handler.topics c.node_id s (some c.handler.orchestrator.dashboard)) c
      else c

  -- What is done with the message of an event.
  unfoldable pub publish_if : Option Message → MqttClient → MqttClient
  publish_if none c = c
  publish_if (some message) c = publish message c

  unfoldable pub on_domain_event : String → DomainEvent → MqttClient → MqttClient
  on_domain_event event_id event c =
      if c.has_publisher then publish_if (event_of c.handler.topics event_id event) c else c

  unfoldable pub announce : Announcement → MqttClient → MqttClient
  announce (state_changed s o) c =
      let asked = record c { handler = record c.handler { orchestrator = o } } in
      record c { sent = (on_state_changed s asked).sent }
  announce (domain_event event_id event) c = on_domain_event event_id event c

  unfoldable pub announce_all : List Announcement → MqttClient → MqttClient
  announce_all [] c = c
  announce_all (a ∷ told) c = announce_all told (announce a c)

  -- What is done with the result of the handler, whose exceptions are logged.
  unfoldable pub publish_reply : Result Delivery → MqttClient → MqttClient
  publish_reply (err error) c = c
  publish_reply (ok none) c = c
  publish_reply (ok (some (reply_to, r))) c = publish (reply_message reply_to r) c

  module _ (env : Environment) (hash_json : Json → Digest) (decode : Bytes → Result String)
      (loads : String → Result Json) where
    -- A message on the command topic, where the handler is there as soon as the client runs. The
    -- orchestrator calls its listeners, this client's among them, while the handler runs: `told` is
    -- these calls, and their messages are sent before the reply.
    unfoldable pub handle_message :
        String → Payload → Times → List Announcement → MqttClient → MqttClient
    handle_message topic payload times told c =
        let (r, h) = handle env hash_json decode loads payload times c.handler in
        if c.has_publisher && str_eq topic (Topics.command c.handler.topics)
        then publish_reply r (record (announce_all told c) { handler = h })
        else c
