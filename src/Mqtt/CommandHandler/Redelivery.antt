-- ===== src/Mqtt/CommandHandler/Redelivery.antt =====
-- Commands that are delivered more than once.
use Prim.Native.String.{String}
use mathlib.Core.Path.{subst}
use text.Mathlib.Text.{◌==◌ as str_eq}
use text.Mathlib.TextEquality.{eq_iff}
use nightshift_opi.Prelude.{
  ℕ, ◌≡◌, inl, inr, refl, sym, ◌∙◌, Bool-cases, true, false, Option, none, some, [], ◌∷◌,
  if◌then◌else◌, Result, ok, arith,
}
use nightshift_opi.Prelude.Bytes.{Bytes}
use nightshift_opi.Prelude.Int.{ℤ, pos, negsuc, ◌+ℤ◌}
use nightshift_opi.Mqtt.Json.{Json}
use nightshift_opi.Mqtt.Schemas.{CommandEnvelope, Payload, parse_command}
use nightshift_opi.Mqtt.Topics.{validate_reply_to}
use nightshift_opi.Uart.Session.{Digest, digest_eq}
use nightshift_opi.Uart.Session.Replay.{digest_eq_refl}
use nightshift_opi.Services.Orchestrator.{Orchestrator, Environment}
use nightshift_opi.Mqtt.CommandHandler.{
  ReplyMessage, CachedReply, Cache, CommandHandler, Delivery, cache_retry_window_ms, is_past,
  lookup, put, evict, make_reply, deadline, remember, execute, answer_from, command_digest,
  handle_envelope, handle_addressed, handle_parsed, handle,
}
use nightshift_opi.Mqtt.CommandHandler.Dispatch.{Answer, Times, dispatch}

str_eq_refl : (s : String) → str_eq s s ≡ true
str_eq_refl s = (eq_iff s s).1 refl

pub lookup-put :
    (k : String) (entry : CachedReply) (cache : Cache) → lookup k (put k entry cache) ≡ some entry
unfolding lookup put
lookup-put k entry [] = ground (arith, str_eq_refl k)
lookup-put k entry ((j, old) ∷ rest) = ground (arith, str_eq_refl k, lookup-put k entry rest)

pub is_past-add : (now k : ℕ) (t : ℤ) → is_past now t ≡ false → is_past now (t +ℤ pos k) ≡ false
is_past-add now k (pos a) h = ground arith
is_past-add now k (negsuc a) h = ground arith

-- The cache has no entry for the request, or one that has run out.
abbrev pub IsFresh : Option CachedReply → ℕ → Type 0
IsFresh none now_ms = Unit
IsFresh (some cached) now_ms = is_past now_ms cached.expires_at_ms ≡ true

answer_from-IsFresh :
    (env : Environment) (found : Option CachedReply) (e : CommandEnvelope) (digest : Digest)
    (times : Times) (h : CommandHandler)
    → IsFresh found times.now_ms
    → answer_from env found e digest times h ≡ execute env e digest times h
unfolding answer_from
answer_from-IsFresh env none e digest times h fresh = refl
answer_from-IsFresh env (some cached) e digest times h fresh = ground arith

module _ (env : Environment) (hash_json : Json → Digest) where
  module _ (decode : Bytes → Result String) (loads : String → Result Json) where
    -- A payload that parses and names the client's own topic is handled as its envelope.
    pub handle_parsed_ok :
        (payload : Payload) (e : CommandEnvelope) (times : Times) (h : CommandHandler)
        → parse_command decode loads payload ≡ ok e
        → validate_reply_to e.reply_to e.client_id h.topics ≡ ok true
        → handle env hash_json decode loads payload times h
          ≡ handle_envelope env hash_json e times h
    unfolding handle handle_parsed handle_addressed
    handle_parsed_ok payload e times h p v = ground arith

  -- A command that is carried out, with the entry that the cache then has.
  handle_fresh :
      (e : CommandEnvelope) (times : Times) (h : CommandHandler) (answer : Answer)
      (o : Orchestrator)
      → is_past times.now_ms (deadline e) ≡ false
      → IsFresh (lookup e.request_id h.cache) times.now_ms
      → dispatch env e times h.orchestrator ≡ (ok answer, o)
      → handle_envelope env hash_json e times h
        ≡ remember e
            (command_digest hash_json e)
            times
            (ok answer)
            (record h { orchestrator = o; cache = evict times.now_ms h.cache })
  unfolding handle_envelope execute
  handle_fresh e times h answer o live fresh d = ground (
    arith,
    answer_from-IsFresh env (lookup e.request_id h.cache) e (command_digest hash_json e) times h
        fresh,
  )

  -- A command of a request that the cache has a live entry for.
  handle_cached :
      (e : CommandEnvelope) (times : Times) (h : CommandHandler) (cached : CachedReply)
      → is_past times.now_ms (deadline e) ≡ false
      → lookup e.request_id h.cache ≡ some cached
      → is_past times.now_ms cached.expires_at_ms ≡ false
      → handle_envelope env hash_json e times h ≡ (
        ok (
            some (
              e.reply_to,
              if digest_eq cached.digest (command_digest hash_json e)
                  then cached.reply
                  else make_reply e "state_conflict" h.orchestrator.state.revision
                      times.replied_at_ms,
            )),
        h,
      )
  unfolding handle_envelope answer_from
  handle_cached e times h cached live found kept = ground arith

  -- A command whose own entry the cache has: its deadline comes before the entry runs out.
  handle_again :
      (e : CommandEnvelope) (times : Times) (h : CommandHandler) (reply : ReplyMessage)
      → lookup e.request_id h.cache
        ≡ some (record {
          digest = command_digest hash_json e;
          reply = reply;
          expires_at_ms = deadline e +ℤ pos cache_retry_window_ms;
        })
      → handle_envelope env hash_json e times h ≡ (
        if is_past times.now_ms (deadline e)
            then ok (
                some (
                  e.reply_to,
                  make_reply e "expired" h.orchestrator.state.revision times.replied_at_ms,
                ))
            else ok (some (e.reply_to, reply)),
        h,
      )
  unfolding handle_envelope
  handle_again e times h reply found = elim (Bool-cases (is_past times.now_ms (deadline e))) [
    | inl past ↦ ground arith
    | inr live ↦ ground (
      arith,
      handle_cached e times h _ live found
          (is_past-add times.now_ms cache_retry_window_ms (deadline e) live),
      digest_eq_refl (command_digest hash_json e),
    )
  ]

  module _ (decode : Bytes → Result String) (loads : String → Result Json) where
    -- A command that parses, names the client's own topic, is not past its deadline and whose request
    -- id has no live entry in the cache is carried out, if the dispatch returns an answer. Delivered
    -- again at any time it changes nothing: up to the deadline it gets the first reply again, and
    -- from then on "expired", also within the 60 seconds that the entry is kept for.
    pub executed_once :
        (payload : Payload) (e : CommandEnvelope) (times again : Times) (h : CommandHandler)
        (answer : Answer) (o : Orchestrator)
        → parse_command decode loads payload ≡ ok e
        → validate_reply_to e.reply_to e.client_id h.topics ≡ ok true
        → is_past times.now_ms (deadline e) ≡ false
        → IsFresh (lookup e.request_id h.cache) times.now_ms
        → dispatch env e times h.orchestrator ≡ (ok answer, o)
        → let (r, h1) = handle env hash_json decode loads payload times h in
          (h1.orchestrator ≡ o)
          × (handle env hash_json decode loads payload again h1 ≡ (
            if is_past again.now_ms (deadline e)
                then ok (
                    some (
                      e.reply_to,
                      make_reply e "expired" h1.orchestrator.state.revision again.replied_at_ms,
                    ))
                else r,
            h1,
          ))
    unfolding remember
    executed_once payload e times again h answer o p v live fresh d =
        let start = record h { orchestrator = o; cache = evict times.now_ms h.cache } in
        let (r, h1) = remember e (command_digest hash_json e) times (ok answer) start in
        let first : handle env hash_json decode loads payload times h ≡ (r, h1) =
          handle_parsed_ok decode loads payload e times h p v
          ∙ handle_fresh e times h answer o live fresh d in
        subst
          (λ (x : Result Delivery × CommandHandler).
            (x.1.orchestrator ≡ o)
            × (handle env hash_json decode loads payload again x.1 ≡ (
              if is_past again.now_ms (deadline e)
                  then ok (
                      some (
                        e.reply_to,
                        make_reply e "expired" x.1.orchestrator.state.revision again.replied_at_ms,
                      ))
                  else x.0,
              x.1,
            )))
          (sym first)
          (
            refl,
            handle_parsed_ok decode loads payload e again h1 p v
                ∙ handle_again e again h1 _ (lookup-put e.request_id _ _),
          )

    -- A request id that a live entry of the cache has, with the digest of a different command, is
    -- answered "state_conflict" and changes nothing, if the command parses, names the client's own
    -- topic and is not past its deadline.
    pub reused_conflict :
        (payload : Payload) (e : CommandEnvelope) (times : Times) (h : CommandHandler)
        (cached : CachedReply)
        → parse_command decode loads payload ≡ ok e
        → validate_reply_to e.reply_to e.client_id h.topics ≡ ok true
        → is_past times.now_ms (deadline e) ≡ false
        → lookup e.request_id h.cache ≡ some cached
        → is_past times.now_ms cached.expires_at_ms ≡ false
        → digest_eq cached.digest (command_digest hash_json e) ≡ false
        → handle env hash_json decode loads payload times h ≡ (
          ok (
              some (
                e.reply_to,
                make_reply e "state_conflict" h.orchestrator.state.revision times.replied_at_ms,
              )),
          h,
        )
    reused_conflict payload e times h cached p v live found kept other =
        handle_parsed_ok decode loads payload e times h p v
        ∙ (handle_cached e times h cached live found kept ∙ ground arith)
