-- ===== src/Mqtt/Schemas/Parsed.antt =====
-- What the parser of commands lets through.
use Prim.Native.String.{String}
use mathlib.Core.Path.{subst}
use nightshift_opi.Prelude.{
  ℕ, zero, suc, ◌<◌, ◌≡◌, refl, Bool, true, false, not, Option, some, List, Result, ok, err,
  raise_if, ◌>>=◌, ◌>>◌, invalid_argument_error, invalid_schema_error, arith,
}
use nightshift_opi.Prelude.Bytes.{Bytes}
use nightshift_opi.Prelude.Int.{pos}
use nightshift_opi.Mqtt.Json.{Json, Fields, json_int, json_str, json_dict, empty_dict, field, get}
use nightshift_opi.Mqtt.PressureCodec.{is_string}
use nightshift_opi.Mqtt.Topics.{is_client_id}
use nightshift_opi.Mqtt.Schemas.{
  CommandEnvelope, Payload, command_whitelist, expected_keys, has_only, is_uuid, is_not_empty,
  string_with, exact_int, positive_int, keys_of, args_of, read_command, as_schema_error, object_of,
  text_of, parse_command,
}

-- The command is on the whitelist and has no argument but its own.
abbrev pub IsAllowed : String → Fields → Type 0
IsAllowed command args =
    (keys : List String) × (expected_keys command command_whitelist ≡ some keys)
    × (has_only keys args ≡ true)

pub record IsWellFormed (e : CommandEnvelope) : Type 0 where
  pub request_id : is_uuid e.request_id ≡ true
  pub client_id : is_client_id e.client_id ≡ true
  pub reply_to : is_not_empty e.reply_to ≡ true
  pub ttl_ms : 0 < e.ttl_ms
  pub allowed : IsAllowed e.command e.args

-- The object that a client sends for a command.
unfoldable pub fields_of : CommandEnvelope → Fields
fields_of e = field "schema" (json_str "nightshift.command.v1") (
    field "request_id" (json_str e.request_id) (
      field "client_id" (json_str e.client_id) (
        field "reply_to" (json_str e.reply_to) (
          field "sent_at_ms" (json_int e.sent_at_ms) (
            field "ttl_ms" (json_int (pos e.ttl_ms)) (
              field "command" (json_str e.command)
                (field "args" (json_dict e.args) empty_dict)))))))

positive : (n : ℕ) → 0 < n → positive_int (some (json_int (pos n))) ≡ ok n
unfolding positive_int
positive zero h = absurd (omega arith)
positive (suc n) h = refl

read_command-fields_of : (e : CommandEnvelope) → IsWellFormed e → read_command (fields_of e) ≡ ok e
unfolding read_command fields_of get is_string string_with exact_int keys_of args_of
read_command-fields_of e w = ground (
  arith,
  positive e.ttl_ms w.ttl_ms,
  w.request_id,
  w.client_id,
  w.reply_to,
  w.allowed.1,
  w.allowed.2,
)

string_with-test :
    (test : String → Bool) (o : Option Json) (s : String)
    → string_with test o ≡ ok s
    → test s ≡ true
unfolding string_with
string_with-test test o s h = ground arith

positive_int-pos : (o : Option Json) (n : ℕ) → positive_int o ≡ ok n → 0 < n
unfolding positive_int
positive_int-pos o n h = ground arith

keys_of-whitelist :
    (command : String) (keys : List String)
    → keys_of command ≡ ok keys
    → expected_keys command command_whitelist ≡ some keys
unfolding keys_of
keys_of-whitelist command keys h = ground arith

module _ {A B : Type 0} where
  bind_ok :
      (r : Result A) (k : A → Result B) (b : B)
      → (r >>= k) ≡ ok b
      → (a : A) × (r ≡ ok a) × (k a ≡ ok b)
  bind_ok (ok a) k b h = (a, refl, h)
  bind_ok (err e) k b h = absurd (ground arith)

raise_if_ok :
    {B : Type 0} (test : Bool) (k : Result B) (b : B)
    → (raise_if (not test) invalid_argument_error >> k) ≡ ok b
    → (test ≡ true) × (k ≡ ok b)
raise_if_ok true k b h = (refl, h)
raise_if_ok false k b h = absurd (ground arith)

ok_inj : {A : Type 0} {a b : A} → ok a ≡ ok b → a ≡ b
ok_inj h = ground arith

read_command-IsWellFormed :
    (obj : Fields) (e : CommandEnvelope) → read_command obj ≡ ok e → IsWellFormed e
unfolding read_command
read_command-IsWellFormed obj e h =
    let (_, _, h0) =
      bind_ok
        (raise_if (not (is_string "nightshift.command.v1" (get "schema" obj))) invalid_schema_error)
        _ e h in
    let (request_id, p1, h1) = bind_ok (string_with is_uuid (get "request_id" obj)) _ e h0 in
    let (client_id, p2, h2) = bind_ok (string_with is_client_id (get "client_id" obj)) _ e h1 in
    let (reply_to, p3, h3) = bind_ok (string_with is_not_empty (get "reply_to" obj)) _ e h2 in
    let (sent_at_ms, p4, h4) = bind_ok (exact_int (get "sent_at_ms" obj)) _ e h3 in
    let (ttl_ms, p5, h5) = bind_ok (positive_int (get "ttl_ms" obj)) _ e h4 in
    let (command, p6, h6) = bind_ok (string_with (λ s. true) (get "command" obj)) _ e h5 in
    let (keys, p7, h7) = bind_ok (keys_of command) _ e h6 in
    let (args, p8, h8) = bind_ok (args_of (get "args" obj)) _ e h7 in
    let (only, h9) = raise_if_ok (has_only keys args) _ e h8 in
    subst IsWellFormed (ok_inj h9) (record {
      request_id = string_with-test is_uuid (get "request_id" obj) request_id p1;
      client_id = string_with-test is_client_id (get "client_id" obj) client_id p2;
      reply_to = string_with-test is_not_empty (get "reply_to" obj) reply_to p3;
      ttl_ms = positive_int-pos (get "ttl_ms" obj) ttl_ms p5;
      allowed = (keys, keys_of-whitelist command keys p7, only);
    })

as_schema_error_ok : {A : Type 0} (r : Result A) (a : A) → as_schema_error r ≡ ok a → r ≡ ok a
unfolding as_schema_error
as_schema_error_ok r a h = ground arith

module _ (decode : Bytes → Result String) (loads : String → Result Json) where
  -- Every command that the parser lets through is well-formed: the request id is a UUID, the client
  -- id a client id (either may have a line feed behind it), the reply topic is not empty, the time to
  -- live is above 0, and the command is on the whitelist with no argument but its own. Whatever the
  -- decoders of UTF-8 and of JSON return.
  pub parse_command-IsWellFormed :
      (payload : Payload) (e : CommandEnvelope)
      → parse_command decode loads payload ≡ ok e
      → IsWellFormed e
  unfolding parse_command
  parse_command-IsWellFormed payload e h =
      let (s, _, h0) = bind_ok (text_of decode loads payload) _ e h in
      let (value, _, h1) = bind_ok (as_schema_error (loads s)) _ e h0 in
      let (obj, _, h2) = bind_ok (object_of value) _ e h1 in read_command-IsWellFormed obj e h2

  -- A well-formed command is parsed as it was sent, by `bytes` that decode to a text that stands for
  -- its object.
  pub parse_command-fields_of :
      (b : Bytes) (s : String) (e : CommandEnvelope)
      → IsWellFormed e
      → decode b ≡ ok s
      → loads s ≡ ok (json_dict (fields_of e))
      → parse_command decode loads (Payload.of_bytes b) ≡ ok e
  unfolding parse_command text_of as_schema_error object_of
  parse_command-fields_of b s e w d l = ground (arith, read_command-fields_of e w)
