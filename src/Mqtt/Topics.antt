-- ===== src/Mqtt/Topics.antt =====
-- The names of the topics (nightshift/integrations/mqtt/topics.py).
pub mod Addressed
use Prim.Native.Char.{code}
use Prim.Native.String.{String, [], ◌∷◌, ◌++◌}
use text.Mathlib.Text.{◌==◌ as str_eq}
use nightshift_opi.Prelude.{
  ℕ, zero, suc, Bool, true, false, ◌&&◌, ◌||◌, not, leb, ◌==◌, if◌then◌else◌, Result, ok, err,
  value_error,
}

-- `$` of a regular expression: the end, or a line feed at the end
unfoldable pub is_end : String → Bool
is_end [] = true
is_end (c ∷ []) = code c == 10
is_end (c ∷ d ∷ rest) = false

-- `[a-z0-9]`
abbrev pub is_lower_or_digit : ℕ → Bool
is_lower_or_digit c = (leb 97 c && leb c 122) || (leb 48 c && leb c 57)

-- `[a-z0-9-]{0,n}$`. A match that takes as many characters as it can is enough, since no character
-- of the class can stand where `$` matches.
unfoldable pub matches_tail : ℕ → String → Bool
matches_tail n [] = true
matches_tail zero (c ∷ rest) = is_end (c ∷ rest)
matches_tail (suc n) (c ∷ rest) =
    if is_lower_or_digit (code c) || code c == 45 then matches_tail n rest else is_end (c ∷ rest)

-- `_CLIENT_ID_RE.match(client_id)`
unfoldable pub is_client_id : String → Bool
is_client_id [] = false
is_client_id (c ∷ rest) = is_lower_or_digit (code c) && matches_tail 63 rest

-- `base_topic.endswith("/")`
unfoldable pub ends_with_slash : String → Bool
ends_with_slash [] = false
ends_with_slash (c ∷ []) = code c == 47
ends_with_slash (c ∷ d ∷ rest) = ends_with_slash (d ∷ rest)

-- `"+" in reply_to or "#" in reply_to`
unfoldable pub has_wildcard : String → Bool
has_wildcard [] = false
has_wildcard (c ∷ rest) = code c == 43 || code c == 35 || has_wildcard rest

pub record TopicBuilder : Type 0 where
  pub root : String

unfoldable pub init : String → String → Result TopicBuilder
init base_topic node_id =
    if ends_with_slash base_topic
    then err value_error
    else ok (record { root = base_topic ++ "/opi/" ++ node_id })

abbrev pub availability : TopicBuilder → String
availability topics = topics.root ++ "/availability"

abbrev pub state : TopicBuilder → String
state topics = topics.root ++ "/state"

abbrev pub event : TopicBuilder → String
event topics = topics.root ++ "/event"

abbrev pub telemetry : TopicBuilder → String
telemetry topics = topics.root ++ "/telemetry"

abbrev pub command : TopicBuilder → String
command topics = topics.root ++ "/command"

unfoldable pub reply : String → TopicBuilder → Result String
reply client_id topics =
    if is_client_id client_id then ok (topics.root ++ "/reply/" ++ client_id) else err value_error

-- The tests of `validate_reply_to`, on the topic that is expected.
abbrev pub is_reply_topic : String → String → Bool
is_reply_topic reply_to expected = str_eq reply_to expected && not (has_wildcard reply_to)

unfoldable pub validate_reply_to : String → String → TopicBuilder → Result Bool
validate_reply_to reply_to client_id topics = elim (reply client_id topics) [
  | err e ↦ err e
  | ok expected ↦ ok (is_reply_topic reply_to expected)
]
