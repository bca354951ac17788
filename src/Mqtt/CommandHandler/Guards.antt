-- ===== src/Mqtt/CommandHandler/Guards.antt =====
-- What a command has to pass before anything is done.
use Prim.Native.String.{String}
use nightshift_opi.Prelude.{
  ◌≡◌, ◌⊎◌, inl, inr, refl, ap, ◌∙◌, Bool-cases, Result-cases, true, false, Option, none, some,
  Result, ok, arith,
}
use nightshift_opi.Prelude.Bytes.{Bytes}
use nightshift_opi.Mqtt.Json.{Json}
use nightshift_opi.Mqtt.Schemas.{CommandEnvelope, Payload, parse_command}
use nightshift_opi.Mqtt.Schemas.Parsed.{IsWellFormed, parse_command-IsWellFormed}
use nightshift_opi.Mqtt.Topics.{validate_reply_to}
use nightshift_opi.Mqtt.Topics.Addressed.{IsAddressed, validate_reply_to-IsAddressed}
use nightshift_opi.Uart.Session.{Digest}
use nightshift_opi.Services.Orchestrator.{Environment}
use nightshift_opi.Mqtt.CommandHandler.{
  CachedReply, CommandHandler, Delivery, is_past, lookup, deadline, execute, answer_from,
  command_digest, handle_envelope, handle_addressed, handle_parsed, handle,
}
use nightshift_opi.Mqtt.CommandHandler.Dispatch.{Times}
use nightshift_opi.Mqtt.CommandHandler.Redelivery.{IsFresh, handle_parsed_ok}

module _ (env : Environment) (hash_json : Json → Digest) where
  -- A command that is carried out has come in time, with a request id that is new or has run out.
  pub record IsExecuted (e : CommandEnvelope) (times : Times) (h h' : CommandHandler) : Type 0 where
    pub live : is_past times.now_ms (deadline e) ≡ false
    pub fresh : IsFresh (lookup e.request_id h.cache) times.now_ms
    pub effect : h' ≡ (execute env e (command_digest hash_json e) times h).1

  abbrev pub Effect : CommandEnvelope → Times → CommandHandler → CommandHandler → Type 0
  Effect e times h h' = (h' ≡ h) ⊎ IsExecuted e times h h'

  answer_from-Effect :
      (found : Option CachedReply) (e : CommandEnvelope) (digest : Digest) (times : Times)
      (h : CommandHandler)
      → ((answer_from env found e digest times h).1 ≡ h)
        ⊎ (IsFresh found times.now_ms
            × ((answer_from env found e digest times h).1 ≡ (execute env e digest times h).1))
  unfolding answer_from
  answer_from-Effect none e digest times h = inr (tt, refl)
  answer_from-Effect (some cached) e digest times h =
      elim (Bool-cases (is_past times.now_ms cached.expires_at_ms)) [
        | inl past ↦ inr (past, ground arith)
        | inr kept ↦ inl (ground arith)
      ]

  handle_envelope-Effect :
      (e : CommandEnvelope) (times : Times) (h : CommandHandler)
      → Effect e times h (handle_envelope env hash_json e times h).1
  unfolding handle_envelope
  handle_envelope-Effect e times h = elim (Bool-cases (is_past times.now_ms (deadline e))) [
    | inl past ↦ inl (ground arith)
    | inr live ↦
        let found = lookup e.request_id h.cache in
        let at : (handle_envelope env hash_json e times h).1
            ≡ (answer_from env found e (command_digest hash_json e) times h).1 =
          ground arith in
        elim (answer_from-Effect found e (command_digest hash_json e) times h) [
          | inl same ↦ inl (at ∙ same)
          | inr (fresh, done) ↦ inr (record { live = live; fresh = fresh; effect = at ∙ done })
        ]
  ]

  module _ (decode : Bytes → Result String) (loads : String → Result Json) where
    -- Either the handler is as it was, or the payload is a well-formed command for the client's own
    -- reply topic, which comes in time with a request id that has no live entry in the cache, and the
    -- handler is what carrying it out leaves.
    pub handle-IsExecuted :
        (payload : Payload) (times : Times) (h : CommandHandler)
        → let h' = (handle env hash_json decode loads payload times h).1 in
          (h' ≡ h)
          ⊎ ((e : CommandEnvelope) × (parse_command decode loads payload ≡ ok e)
              × IsWellFormed e
              × IsAddressed e.reply_to e.client_id h.topics
              × IsExecuted e times h h')
    unfolding handle handle_parsed handle_addressed
    handle-IsExecuted payload times h = elim (Result-cases (parse_command decode loads payload)) [
      | inr (error, p) ↦ inl (ground arith)
      | inl (e, p) ↦ elim (Result-cases (validate_reply_to e.reply_to e.client_id h.topics)) [
        | inr (error, v) ↦ inl (ground arith)
        | inl (own, v) ↦ elim (Bool-cases own) [
          | inr other ↦ inl (ground arith)
          | inl is_own ↦
              let addressed : validate_reply_to e.reply_to e.client_id h.topics ≡ ok true =
                v ∙ ap ok is_own in
              let at =
                ap (λ (x : Result Delivery × CommandHandler). x.1)
                  (handle_parsed_ok env hash_json decode loads payload e times h p addressed) in
              elim (handle_envelope-Effect e times h) [
                | inl same ↦ inl (at ∙ same)
                | inr x ↦ inr (
                  e,
                  p,
                  parse_command-IsWellFormed decode loads payload e p,
                  validate_reply_to-IsAddressed e.reply_to e.client_id h.topics addressed,
                  record { live = x.live; fresh = x.fresh; effect = at ∙ x.effect },
                )
              ]
        ]
      ]
    ]
