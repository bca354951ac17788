-- ===== src/Mqtt/CommandHandler.antt =====
-- The handler of MQTT commands (nightshift/integrations/mqtt/command_handler.py).
pub mod Dispatch
pub mod Redelivery
pub mod Guards
pub mod Invariant
pub mod Equivalence
use Prim.Native.String.{String}
use text.Mathlib.Text.{◌==◌ as str_eq}
use nightshift_opi.Prelude.{
  ℕ, Bool, true, false, ◌&&◌, not, Option, none, some, List, [], ◌∷◌, if◌then◌else◌, Result, ok,
  err, invalid_schema_error, invalid_argument_error,
}
use nightshift_opi.Prelude.Bytes.{Bytes}
use nightshift_opi.Prelude.Exec.{Exec}
use nightshift_opi.Prelude.Int.{ℤ, pos, ◌+ℤ◌, leb_ℤ}
use nightshift_opi.Mqtt.Json.{Json, Fields, json_int, json_str, json_dict, empty_dict, field}
use nightshift_opi.Mqtt.Schemas.{CommandEnvelope, Payload, parse_command}
use nightshift_opi.Mqtt.Topics.{TopicBuilder, validate_reply_to}
use nightshift_opi.Uart.Session.{Digest, digest_eq}
use nightshift_opi.Services.Orchestrator.{Orchestrator, Environment}
use nightshift_opi.Mqtt.CommandHandler.Dispatch.{Answer, Times, dispatch}

-- The field `data` is `content`. The message for a person is not modelled.
pub record ReplyMessage : Type 0 where
  pub request_id : String
  pub ok : Bool
  pub code : String
  pub revision : ℕ
  pub replied_at_ms : ℕ
  pub content : Fields

pub record CachedReply : Type 0 where
  pub digest : Digest
  pub reply : ReplyMessage
  pub expires_at_ms : ℤ

abbrev pub Cache : Type 0
Cache = List (String × CachedReply)

-- The client hands over one command at a time, so nothing else changes the cache meanwhile.
pub record CommandHandler : Type 0 where
  pub topics : TopicBuilder
  pub orchestrator : Orchestrator
  pub cache : Cache

abbrev pub cache_retry_window_ms : ℕ
cache_retry_window_ms = 60000

-- `now > t`
abbrev pub is_past : ℕ → ℤ → Bool
is_past now t = not (leb_ℤ (pos now) t)

-- `self._cache.get(request_id)`
unfoldable pub lookup : String → Cache → Option CachedReply
lookup request_id [] = none
lookup request_id ((k, entry) ∷ rest) =
    if str_eq k request_id then some entry else lookup request_id rest

-- `self._cache[request_id] = entry`
unfoldable pub put : String → CachedReply → Cache → Cache
put request_id entry [] = (request_id, entry) ∷ []
put request_id entry ((k, old) ∷ rest) =
    if str_eq k request_id then (k, entry) ∷ rest else (k, old) ∷ put request_id entry rest

-- `_evict_cache`
unfoldable pub evict : ℕ → Cache → Cache
evict now_ms [] = []
evict now_ms ((k, entry) ∷ rest) =
    let kept = evict now_ms rest in
    if is_past now_ms entry.expires_at_ms then kept else (k, entry) ∷ kept

-- `_make_reply`, of a refused command
unfoldable pub make_reply : CommandEnvelope → String → ℕ → ℕ → ReplyMessage
make_reply e code revision replied_at_ms = record {
  request_id = e.request_id;
  ok = false;
  code = code;
  revision = revision;
  replied_at_ms = replied_at_ms;
  content = empty_dict;
}

-- The dict that `_command_digest` hashes.
unfoldable pub digest_input : CommandEnvelope → Fields
digest_input e = field "client_id" (json_str e.client_id) (
    field "reply_to" (json_str e.reply_to) (
      field "sent_at_ms" (json_int e.sent_at_ms) (
        field "ttl_ms" (json_int (pos e.ttl_ms))
          (field "command" (json_str e.command) (field "args" (json_dict e.args) empty_dict)))))

-- `sent_at_ms + ttl_ms`
abbrev pub deadline : CommandEnvelope → ℤ
deadline e = e.sent_at_ms +ℤ pos e.ttl_ms

abbrev pub Delivery : Type 0
Delivery = Option (String × ReplyMessage)

-- The reply and the new entry of the cache, behind `_dispatch`.
unfoldable pub remember :
    CommandEnvelope → Digest → Times → Result Answer → Exec CommandHandler Delivery
remember e digest times (err error) h = (err error, h)
remember e digest times (ok answer) h =
    let reply : ReplyMessage = record {
      request_id = e.request_id;
      ok = answer.ok;
      code = answer.code;
      revision = h.orchestrator.state.revision;
      replied_at_ms = times.replied_at_ms;
      content = answer.content;
    } in
    (
      ok (some (e.reply_to, reply)),
      record h {
        cache =
            put e.request_id
              (record {
                digest = digest;
                reply = reply;
                expires_at_ms = deadline e +ℤ pos cache_retry_window_ms;
              })
              h.cache;
      },
    )

-- `hash_json` is `json.dumps` with sorted keys, and SHA-256 of the text: neither is code of the
-- repository.
abbrev pub command_digest : (Json → Digest) → CommandEnvelope → Digest
command_digest hash_json e = hash_json (json_dict (digest_input e))

module _ (env : Environment) where
  -- The lines from `_evict_cache` on.
  unfoldable pub execute : CommandEnvelope → Digest → Times → Exec CommandHandler Delivery
  execute e digest times h =
      let (answer, o) = dispatch env e times h.orchestrator in
      remember e digest times answer
        (record h { orchestrator = o; cache = evict times.now_ms h.cache })

  -- The test on the entry that the cache holds for the request.
  unfoldable pub answer_from :
      Option CachedReply → CommandEnvelope → Digest → Times → Exec CommandHandler Delivery
  answer_from none e digest times h = execute e digest times h
  answer_from (some cached) e digest times h =
      let (r, h') = execute e digest times h in
      if is_past times.now_ms cached.expires_at_ms
      then (r, h')
      else if digest_eq cached.digest digest
      then (ok (some (e.reply_to, cached.reply)), h)
      else (
        ok (
            some (
              e.reply_to,
              make_reply e "state_conflict" h.orchestrator.state.revision times.replied_at_ms,
            )),
        h,
      )

  module _ (hash_json : Json → Digest) where
    -- The lines behind the test on the reply topic.
    unfoldable pub handle_envelope : CommandEnvelope → Times → Exec CommandHandler Delivery
    handle_envelope e times h =
        let (r, h') =
          answer_from (lookup e.request_id h.cache) e (command_digest hash_json e) times h in
        if is_past times.now_ms (deadline e)
        then (
          ok (
              some (
                e.reply_to,
                make_reply e "expired" h.orchestrator.state.revision times.replied_at_ms,
              )),
          h,
        )
        else (r, h')

    -- What is done with the result of `validate_reply_to`.
    unfoldable pub handle_addressed :
        Result Bool → CommandEnvelope → Times → Exec CommandHandler Delivery
    handle_addressed (err error) e times h = (err error, h)
    handle_addressed (ok false) e times h = (ok none, h)
    handle_addressed (ok true) e times h = handle_envelope e times h

    -- What is done with the result of `parse_command`: a SchemaError is logged.
    unfoldable pub handle_parsed : Result CommandEnvelope → Times → Exec CommandHandler Delivery
    handle_parsed (err invalid_schema_error) times h = (ok none, h)
    handle_parsed (err invalid_argument_error) times h = (ok none, h)
    handle_parsed (err error) times h = (err error, h)
    handle_parsed (ok e) times h =
        handle_addressed (validate_reply_to e.reply_to e.client_id h.topics) e times h

    module _ (decode : Bytes → Result String) (loads : String → Result Json) where
      unfoldable pub handle : Payload → Times → Exec CommandHandler Delivery
      handle payload times h = handle_parsed (parse_command decode loads payload) times h
