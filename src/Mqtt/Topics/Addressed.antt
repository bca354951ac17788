-- ===== src/Mqtt/Topics/Addressed.antt =====
-- What the test of the reply topic lets through.
use Prim.Native.String.{String, ◌++◌}
use text.Mathlib.TextEquality.{eq_iff}
use nightshift_opi.Prelude.{◌≡◌, true, false, ok, arith}
use nightshift_opi.Mqtt.Topics.{TopicBuilder, is_client_id, has_wildcard, reply, validate_reply_to}

pub record IsAddressed (reply_to client_id : String) (topics : TopicBuilder) : Type 0 where
  pub own : reply_to ≡ topics.root ++ "/reply/" ++ client_id
  pub client : is_client_id client_id ≡ true
  pub plain : has_wildcard reply_to ≡ false

pub validate_reply_to-IsAddressed :
    (reply_to client_id : String) (topics : TopicBuilder)
    → validate_reply_to reply_to client_id topics ≡ ok true
    → IsAddressed reply_to client_id topics
unfolding validate_reply_to reply
validate_reply_to-IsAddressed reply_to client_id topics h = record {
  own = (eq_iff reply_to (topics.root ++ "/reply/" ++ client_id)).0 (ground arith);
  client = ground arith;
  plain = ground arith;
}
