-- ===== src/Mqtt/Publisher.antt =====
-- The publisher (nightshift/integrations/mqtt/publisher.py): which document goes to which topic.
use Prim.Native.String.{String}
use nightshift_opi.Prelude.{ℕ, Bool, true, false, Option, none}
use nightshift_opi.Domain.Models.{SystemState, DashboardState}
use nightshift_opi.Mqtt.Json.{Fields}
use nightshift_opi.Mqtt.Topics
use nightshift_opi.Mqtt.Topics.{TopicBuilder}
use nightshift_opi.Mqtt.Documents.{build_availability, build_state, build_event}

-- The arguments of `client.publish`, with the document in place of its text. Every message has the
-- quality of service 1.
pub record Message : Type 0 where
  pub topic : String
  pub document : Fields
  pub retain : Bool

unfoldable pub availability_message :
    TopicBuilder → String → Bool → Option String → Option String → Option ℕ → Message
availability_message topics node_id online boot_id version started_at_ms = record {
  topic = Topics.availability topics;
  document = build_availability online node_id boot_id version started_at_ms;
  retain = true;
}

-- `publish_state`, which passes on neither a time nor a limit of the age
unfoldable pub state_message : TopicBuilder → String → SystemState → Option DashboardState → Message
state_message topics node_id s dashboard = record {
  topic = Topics.state topics;
  document = build_state s node_id dashboard none;
  retain = true;
}

unfoldable pub event_message : TopicBuilder → String → String → ℕ → ℕ → Fields → Message
event_message topics event_type event_id revision occurred_at_ms content = record {
  topic = Topics.event topics;
  document = build_event event_type event_id revision occurred_at_ms content;
  retain = false;
}
