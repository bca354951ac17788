-- ===== src/Mqtt/Schemas.antt =====
-- The commands of MQTT (nightshift/integrations/mqtt/schemas.py, `parse_command`).
pub mod Parsed
pub mod Shapes
pub mod Listed
use Prim.Native.Char.{code}
use Prim.Native.String.{String, ◌∷◌ as ◌∶◌}
use Prim.Native.String
use text.Mathlib.Text.{◌==◌ as str_eq}
use nightshift_opi.Prelude.{
  ℕ, zero, suc, Bool, true, false, ◌&&◌, ◌||◌, not, Option, none, some, List, [], ◌∷◌, leb, ◌==◌,
  if◌then◌else◌, Result, ok, err, raise_if, ◌>>=◌, ◌>>◌, unicode_error, json_error,
  invalid_schema_error, invalid_argument_error,
}
use nightshift_opi.Prelude.Bytes.{Bytes}
use nightshift_opi.Prelude.Int.{ℤ, pos}
use nightshift_opi.Mqtt.Json.{Json, Fields, json_int, json_str, json_dict, empty_dict, field, get}
use nightshift_opi.Mqtt.PressureCodec.{is_string}
use nightshift_opi.Mqtt.Topics.{is_end, is_client_id}

-- `[0-9a-f]`
abbrev pub is_hex : ℕ → Bool
is_hex c = (leb 48 c && leb c 57) || (leb 97 c && leb c 102)

-- A group of n hexadecimal digits, and what the rest of the expression matches.
unfoldable pub matches_hex : ℕ → (String → Bool) → String → Bool
matches_hex zero rest s = rest s
matches_hex (suc n) rest String.[] = false
matches_hex (suc n) rest (c ∶ s) = is_hex (code c) && matches_hex n rest s

unfoldable pub matches_dash : (String → Bool) → String → Bool
matches_dash rest String.[] = false
matches_dash rest (c ∶ s) = code c == 45 && rest s

-- `_UUID_RE.match(request_id)`
unfoldable pub is_uuid : String → Bool
is_uuid = matches_hex 8 (
    matches_dash (
      matches_hex 4 (
        matches_dash
          (matches_hex 4 (matches_dash (matches_hex 4 (matches_dash (matches_hex 12 is_end))))))))

abbrev pub Command : Type 0
Command = String × List String

-- `COMMAND_WHITELIST`: a command with the keys of its arguments
abbrev pub command_whitelist : List Command
command_whitelist =
    ("task.confirm", "task_id" ∷ [])
    ∷ ("task.reject", "task_id" ∷ [])
    ∷ ("task.retry", "task_id" ∷ [])
    ∷ ("executor.pause", [])
    ∷ ("executor.resume", [])
    ∷ ("notice.dismiss", "notice_id" ∷ [])
    ∷ ("system.resync_panel", [])
    ∷ []

unfoldable pub expected_keys : String → List Command → Option (List String)
expected_keys command [] = none
expected_keys command ((c, keys) ∷ rest) =
    if str_eq command c then some keys else expected_keys command rest

unfoldable pub is_among : String → List String → Bool
is_among key [] = false
is_among key (k ∷ keys) = str_eq key k || is_among key keys

-- `set(args.keys()) - expected_keys` is empty
unfoldable pub has_only : List String → Fields → Bool
has_only keys empty_dict = true
has_only keys (field k value fields) = is_among k keys && has_only keys fields

-- The field `schema` is the one string that the parser lets through.
pub record CommandEnvelope : Type 0 where
  pub request_id : String
  pub client_id : String
  pub reply_to : String
  pub sent_at_ms : ℤ
  pub ttl_ms : ℕ
  pub command : String
  pub args : Fields

-- A string that satisfies a test, with the default "", which none of the tests lets through.
unfoldable pub string_with : (String → Bool) → Option Json → Result String
string_with test (some (json_str s)) = if test s then ok s else err invalid_argument_error
string_with test _ = err invalid_argument_error

abbrev pub is_not_empty : String → Bool
is_not_empty s = not (str_eq s "")

-- `type(value) is not int`
unfoldable pub exact_int : Option Json → Result ℤ
exact_int (some (json_int z)) = ok z
exact_int _ = err invalid_argument_error

unfoldable pub positive_int : Option Json → Result ℕ
positive_int (some (json_int (pos (suc n)))) = ok (suc n)
positive_int _ = err invalid_argument_error

unfoldable pub keys_of : String → Result (List String)
keys_of command = elim (expected_keys command command_whitelist) [
  | none ↦ err invalid_argument_error
  | some keys ↦ ok keys
]

-- `obj.get("args", {})`, which has to be a dict
unfoldable pub args_of : Option Json → Result Fields
args_of none = ok empty_dict
args_of (some (json_dict fields)) = ok fields
args_of _ = err invalid_argument_error

-- The lines behind `isinstance(obj, dict)`.
unfoldable pub read_command : Fields → Result CommandEnvelope
read_command obj = do
  raise_if (not (is_string "nightshift.command.v1" (get "schema" obj))) invalid_schema_error
  request_id ← string_with is_uuid (get "request_id" obj)
  client_id ← string_with is_client_id (get "client_id" obj)
  reply_to ← string_with is_not_empty (get "reply_to" obj)
  sent_at_ms ← exact_int (get "sent_at_ms" obj)
  ttl_ms ← positive_int (get "ttl_ms" obj)
  command ← string_with (λ s. true) (get "command" obj)
  keys ← keys_of command
  args ← args_of (get "args" obj)
  raise_if (not (has_only keys args)) invalid_argument_error
  ok (record {
    request_id = request_id;
    client_id = client_id;
    reply_to = reply_to;
    sent_at_ms = sent_at_ms;
    ttl_ms = ttl_ms;
    command = command;
    args = args;
  })

-- `except UnicodeDecodeError`, and `except json.JSONDecodeError`
unfoldable pub as_schema_error : {A : Type 0} → Result A → Result A
as_schema_error (ok a) = ok a
as_schema_error (err unicode_error) = err invalid_schema_error
as_schema_error (err json_error) = err invalid_schema_error
as_schema_error (err e) = err e

unfoldable pub object_of : Json → Result Fields
object_of (json_dict fields) = ok fields
object_of _ = err invalid_schema_error

-- The payload is `bytes` or `str`. `payload.decode` and `json.loads` are not code of the repository.
pub data Payload : Type 0 where
  of_bytes : Bytes → Payload
  of_str : String → Payload

module _ (decode : Bytes → Result String) (loads : String → Result Json) where
  unfoldable pub text_of : Payload → Result String
  text_of (of_bytes b) = as_schema_error (decode b)
  text_of (of_str s) = ok s

  unfoldable pub parse_command : Payload → Result CommandEnvelope
  parse_command payload = do
    s ← text_of payload
    value ← as_schema_error (loads s)
    obj ← object_of value
    read_command obj
