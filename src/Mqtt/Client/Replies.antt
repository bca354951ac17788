-- ===== src/Mqtt/Client/Replies.antt =====
-- Where replies go.
use Prim.Native.String.{String}
use mathlib.Core.Path.{subst}
use text.Mathlib.Text.{◌==◌ as str_eq}
use nightshift_opi.Prelude.{
  ◌≡◌, ◌⊎◌, inl, inr, refl, sym, ap, ◌∙◌, Bool, Bool-cases, Result-cases, true, false, ◌&&◌, Option,
  none, some, List, [], ◌∷◌, ◌++◌, if◌then◌else◌, Result, ok, err, arith, ◌≤◌, All, length,
  append-nil,
}
use nightshift_opi.Prelude.Bytes.{Bytes}
use nightshift_opi.Services.Orchestrator.{Environment}
use nightshift_opi.Uart.Session.{Digest, digest_eq}
use nightshift_opi.Mqtt.Json.{Json}
use nightshift_opi.Mqtt.Schemas.{CommandEnvelope, Payload, parse_command}
use nightshift_opi.Mqtt.Schemas.Parsed.{IsWellFormed, parse_command-IsWellFormed}
use nightshift_opi.Mqtt.Topics
use nightshift_opi.Mqtt.Topics.{TopicBuilder, validate_reply_to}
use nightshift_opi.Mqtt.Topics.Addressed.{IsAddressed, validate_reply_to-IsAddressed}
use nightshift_opi.Mqtt.CommandHandler.{
  ReplyMessage, CachedReply, CommandHandler, Delivery, is_past, lookup, make_reply, deadline,
  execute, answer_from, remember, command_digest, handle_envelope, handle_addressed, handle_parsed,
  handle,
}
use nightshift_opi.Mqtt.CommandHandler.Dispatch.{Answer, Times}
use nightshift_opi.Mqtt.CommandHandler.Redelivery.{handle_parsed_ok}
use nightshift_opi.Mqtt.Publisher.{Message}
use nightshift_opi.Mqtt.Client.Announcements.{IsAnnouncement, announce_all_sent}
use nightshift_opi.Mqtt.Client.{
  Announcement, MqttClient, reply_message, publish, announce_all, publish_reply, handle_message,
}

-- A reply, if there is one, goes to the topic that the command names.
abbrev IsOwn : CommandEnvelope → Result Delivery → Type 0
IsOwn e (err error) = Unit
IsOwn e (ok none) = Unit
IsOwn e (ok (some (reply_to, r))) = reply_to ≡ e.reply_to

either :
    (e : CommandEnvelope) (test : Bool) (x y : Result Delivery × CommandHandler)
    → IsOwn e x.0
    → IsOwn e y.0
    → IsOwn e (if test then x else y).0
either e true x y h k = h
either e false x y h k = k

remember-IsOwn :
    (e : CommandEnvelope) (digest : Digest) (times : Times) (r : Result Answer) (h : CommandHandler)
    → IsOwn e (remember e digest times r h).0
unfolding remember
remember-IsOwn e digest times (ok answer) h = refl
remember-IsOwn e digest times (err error) h = tt

module _ (env : Environment) (hash_json : Json → Digest) where
  execute-IsOwn :
      (e : CommandEnvelope) (digest : Digest) (times : Times) (h : CommandHandler)
      → IsOwn e (execute env e digest times h).0
  unfolding execute
  execute-IsOwn e digest times h = remember-IsOwn e digest times _ _

  answer_from-IsOwn :
      (found : Option CachedReply) (e : CommandEnvelope) (digest : Digest) (times : Times)
      (h : CommandHandler)
      → IsOwn e (answer_from env found e digest times h).0
  unfolding answer_from
  answer_from-IsOwn none e digest times h = execute-IsOwn e digest times h
  answer_from-IsOwn (some cached) e digest times h =
      either e (is_past times.now_ms cached.expires_at_ms) (execute env e digest times h) _
        (execute-IsOwn e digest times h)
        (either e (digest_eq cached.digest digest) (ok (some (e.reply_to, cached.reply)), h)
          (
            ok (
                some (
                  e.reply_to,
                  make_reply e "state_conflict" h.orchestrator.state.revision times.replied_at_ms,
                )),
            h,
          )
          refl refl)

  handle_envelope-IsOwn :
      (e : CommandEnvelope) (times : Times) (h : CommandHandler)
      → IsOwn e (handle_envelope env hash_json e times h).0
  unfolding handle_envelope
  handle_envelope-IsOwn e times h =
      either e (is_past times.now_ms (deadline e))
        (
          ok (
              some (
                e.reply_to,
                make_reply e "expired" h.orchestrator.state.revision times.replied_at_ms,
              )),
          h,
        )
        (answer_from env (lookup e.request_id h.cache) e (command_digest hash_json e) times h) refl
        (answer_from-IsOwn (lookup e.request_id h.cache) e (command_digest hash_json e) times h)

  module _ (decode : Bytes → Result String) (loads : String → Result Json) where
    -- A reply comes of a command that parses and names the client's own topic.
    handle-IsOwn :
        (payload : Payload) (times : Times) (h : CommandHandler) (reply_to : String)
        (r : ReplyMessage)
        → (handle env hash_json decode loads payload times h).0 ≡ ok (some (reply_to, r))
        → (e : CommandEnvelope) × (parse_command decode loads payload ≡ ok e)
          × (validate_reply_to e.reply_to e.client_id h.topics ≡ ok true)
          × (reply_to ≡ e.reply_to)
    unfolding handle handle_parsed handle_addressed
    handle-IsOwn payload times h reply_to r is_reply =
        elim (Result-cases (parse_command decode loads payload)) [
          | inr (error, p) ↦ absurd (ground arith)
          | inl (e, p) ↦ elim (Result-cases (validate_reply_to e.reply_to e.client_id h.topics)) [
            | inr (error, v) ↦ absurd (ground arith)
            | inl (own, v) ↦ elim (Bool-cases own) [
              | inr other ↦ absurd (ground arith)
              | inl is_own ↦
                  let addressed : validate_reply_to e.reply_to e.client_id h.topics ≡ ok true =
                    v ∙ ap ok is_own in
                  let at : ok (some (reply_to, r)) ≡ (handle_envelope env hash_json e times h).0 =
                    sym is_reply
                    ∙ ap (λ (x : Result Delivery × CommandHandler). x.0)
                        (handle_parsed_ok env hash_json decode loads payload e times h p
                          addressed) in
                  (e, p, addressed, subst (IsOwn e) (sym at) (handle_envelope-IsOwn e times h))
            ]
          ]
        ]

publish_reply_sent :
    (accepts : Message → Bool) (r : Result Delivery) (c : MqttClient)
    → ((publish_reply accepts r c).sent ≡ c.sent)
      ⊎ ((reply_to : String) × (reply : ReplyMessage) × (r ≡ ok (some (reply_to, reply)))
          × ((publish_reply accepts r c).sent ≡ c.sent ++ reply_message reply_to reply ∷ []))
unfolding publish_reply publish
publish_reply_sent accepts (err error) c = inl refl
publish_reply_sent accepts (ok none) c = inl refl
publish_reply_sent accepts (ok (some (reply_to, reply))) c =
    elim (Bool-cases (accepts (reply_message reply_to reply))) [
      | inl taken ↦ inr (reply_to, reply, refl, ground arith)
      | inr lost ↦ inl (ground arith)
    ]

module _ (accepts : Message → Bool) (env : Environment) (hash_json : Json → Digest)
    (decode : Bytes → Result String) (loads : String → Result Json) where
  -- While a message is handled, the client sends what its own listeners are called for, and then one
  -- message at most. The former are at most as many as the calls, and each is a retained state message
  -- or an event message that is not retained, on the topic for these. The latter is a reply that is
  -- not retained, to a message on the command topic that is a well-formed command, and it goes to the
  -- reply topic of the client that the command names, which has no wildcard.
  pub handle_message_replies :
      (topic : String) (payload : Payload) (times : Times) (told : List Announcement)
      (c : MqttClient)
      → let c' = handle_message accepts env hash_json decode loads topic payload times told c in
        (ms : List Message) × (length ms ≤ length told)
        × All (IsAnnouncement c.handler.topics) ms
        × ((c'.sent ≡ c.sent ++ ms)
            ⊎ ((e : CommandEnvelope) × (reply : ReplyMessage) × (str_eq topic
                    (Topics.command c.handler.topics)
                  ≡ true)
                × (parse_command decode loads payload ≡ ok e)
                × IsWellFormed e
                × IsAddressed e.reply_to e.client_id c.handler.topics
                × (c'.sent ≡ (c.sent ++ ms) ++ reply_message e.reply_to reply ∷ [])))
  unfolding handle_message
  handle_message_replies topic payload times told c =
      let x = handle env hash_json decode loads payload times c.handler in
      let told_all = announce_all accepts told c in
      let asked = record told_all { handler = x.1 } in
      elim (Bool-cases (c.has_publisher && str_eq topic (Topics.command c.handler.topics))) [
        | inr other ↦ ([], omega arith, tt, inl (rw other (sym (append-nil c.sent))))
        | inl ours ↦
            let (ms, few, all, added) = announce_all_sent accepts c.handler.topics told c refl in
            (
              ms,
              few,
              all,
              elim (publish_reply_sent accepts x.0 asked) [
                | inl same ↦ inl (rw ours (same ∙ added))
                | inr (reply_to, reply, is_reply, sent) ↦
                    let (e, p, v, own) =
                      handle-IsOwn env hash_json decode loads payload times c.handler reply_to reply
                        is_reply in
                    inr (
                      e,
                      reply,
                      ground arith,
                      p,
                      parse_command-IsWellFormed decode loads payload e p,
                      validate_reply_to-IsAddressed e.reply_to e.client_id c.handler.topics v,
                      rw ours (ground arith),
                    )
              ],
            )
      ]
