-- ===== src/Mqtt/Client/RunLoop.antt =====
-- The loop that connects (nightshift/integrations/mqtt/client.py, `_run_loop` and
-- `_connect_and_run`).
pub mod Waits
use Prim.Native.String.{String}
use nightshift_opi.Prelude.{
  ℕ, Bool, true, false, none, some, List, [], ◌∷◌, ◌++◌, if◌then◌else◌, Result, ok, err, mqtt_error,
}
use nightshift_opi.Prelude.Bytes.{Bytes}
use nightshift_opi.Prelude.Exec.{Exec, ◌>>=◌, ◌>>◌, continue, modify}
use nightshift_opi.Services.Orchestrator.{Environment}
use nightshift_opi.Uart.Session.{Digest}
use nightshift_opi.Mqtt.Json.{Json}
use nightshift_opi.Mqtt.Topics
use nightshift_opi.Mqtt.Schemas.{Payload}
use nightshift_opi.Mqtt.Publisher.{Message, availability_message, state_message}
use nightshift_opi.Mqtt.CommandHandler.Dispatch.{Times}
use nightshift_opi.Mqtt.Backoff.{backoff_base, next_backoff}
use nightshift_opi.Mqtt.Client.{Announcement, MqttClient, publish, handle_message}

-- A message that the iterator returns. `meanwhile` is what other tasks did before, `stopped` whether
-- the stop event is set by then, and `told` what the handler's orchestrator tells this client.
pub record Arrival : Type 0 where
  pub meanwhile : MqttClient → MqttClient
  pub stopped : Bool
  pub topic : String
  pub payload : Payload
  pub times : Times
  pub told : List Announcement

-- What the broker and the other tasks do from one round of the loop to the next. Behind the last
-- arrival the iterator raises, as it does when the connection is lost. `stopped` is the stop event at
-- the head of the loop, and `stopped_in_wait` whether it is set during the wait.
pub record Round : Type 0 where
  pub stopped : Bool
  pub connects : Bool
  pub subscribes : Bool
  pub disconnects : Bool
  pub accepts : Message → Bool
  pub arrivals : List Arrival
  pub stopped_in_wait : Bool

-- A call of the library, which raises if it fails.
abbrev pub call : {S : Type 0} → Bool → Exec S Unit
call true c = (ok tt, c)
call false c = (err mqtt_error, c)

-- `client.publish`, whose exception is not caught.
unfoldable pub publish_or_raise : (Message → Bool) → Message → Exec MqttClient Unit
publish_or_raise accepts message c =
    if accepts message
    then (ok tt, record c { sent = c.sent ++ message ∷ [] })
    else (err mqtt_error, c)

unfoldable pub publish_current : (Message → Bool) → Exec MqttClient Unit
publish_current accepts c =
    let o = c.handler.orchestrator in
    publish_or_raise accepts (state_message c.handler.topics c.node_id o.state (some o.dashboard)) c

-- `publish_availability(online=False)`, whose exception is swallowed.
unfoldable pub publish_offline : (Message → Bool) → MqttClient → MqttClient
publish_offline accepts c =
    publish accepts (availability_message c.handler.topics c.node_id false none none none) c

module _ (env : Environment) (hash_json : Json → Digest) (decode : Bytes → Result String)
    (loads : String → Result Json) where
  -- `async for message in client.messages`
  unfoldable pub iterate : (Message → Bool) → List Arrival → Exec MqttClient Unit
  iterate accepts [] c = (err mqtt_error, c)
  iterate accepts (a ∷ rest) c =
      let c' = a.meanwhile c in
      let more =
        iterate accepts rest
          (handle_message accepts env hash_json decode loads a.topic a.payload a.times a.told c') in
      if a.stopped then (ok tt, c') else more

  module _ (boot_id : String) (started_at_ms : ℕ) where
    unfoldable pub publish_online : (Message → Bool) → Exec MqttClient Unit
    publish_online accepts c =
        publish_or_raise accepts
          (availability_message c.handler.topics c.node_id true (some boot_id) (some "0.1.0")
            (some started_at_ms))
          c

    unfoldable pub connect_and_run : Round → Exec MqttClient Unit
    connect_and_run round = do
      call round.connects
      modify (λ c. record c { has_publisher = true })
      call round.subscribes
      publish_online round.accepts
      publish_current round.accepts
      iterate round.accepts round.arrivals
      modify (publish_offline round.accepts)
      call round.disconnects

    -- The timeouts of the waits, with the client behind the last round.
    unfoldable pub run_loop : ℕ → List Round → MqttClient → List ℕ × MqttClient
    run_loop backoff [] c = ([], c)
    run_loop backoff (round ∷ rest) c = elim round.stopped [
      | true ↦ ([], c)
      | false ↦
          let (r, c') = connect_and_run round c in
          elim r [
            | ok _ ↦ run_loop backoff_base rest c'
            | err _ ↦ elim round.stopped_in_wait [
              | true ↦ (backoff ∷ [], record c' { has_publisher = false })
              | false ↦
                  let (waits, c'') =
                    run_loop (next_backoff backoff) rest (record c' { has_publisher = false }) in
                  (backoff ∷ waits, c'')
            ]
          ]
    ]
