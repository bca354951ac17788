-- ===== src/Mqtt/PressureAdapter/RunLoop.antt =====
-- The loop that connects (`_run_loop` of nightshift/integrations/mqtt/pressure_adapter.py).
pub mod Waits
use Prim.Native.String.{String}
use nightshift_opi.Prelude.{
  ℕ, Bool, true, false, ◌&&◌, List, [], ◌∷◌, if◌then◌else◌, Result, ok, err, mqtt_error,
  runtime_error,
}
use nightshift_opi.Prelude.Bytes.{Bytes}
use nightshift_opi.Prelude.Exec.{Exec, ◌>>=◌, ◌>>◌, continue}
use nightshift_opi.Mqtt.Json.{Json}
use nightshift_opi.Mqtt.Backoff.{backoff_base, next_backoff}
use nightshift_opi.Mqtt.PressureAdapter.{PressureMqttAdapter}
use nightshift_opi.Mqtt.PressureAdapter.Messages.{handle_message}

-- A message that the iterator returns. `stopped` is whether the stop event is set by then, and
-- `callback_raises` whether `on_updated` raises if it is called.
pub record Arrival : Type 0 where
  pub stopped : Bool
  pub topic : String
  pub raw : Bytes
  pub now_ms : ℕ
  pub callback_raises : Bool

-- What the broker does from one round of the loop to the next: `subscribes` are the three
-- subscriptions together, and behind the last arrival the iterator raises, as it does when the
-- connection is lost. `stopped` is the stop event at the head of the loop, and `stopped_in_wait`
-- whether it is set during the wait.
pub record Round : Type 0 where
  pub stopped : Bool
  pub connects : Bool
  pub subscribes : Bool
  pub disconnects : Bool
  pub arrivals : List Arrival
  pub stopped_in_wait : Bool

unfoldable pub has_subscribed : Round → Bool
has_subscribed round = round.connects && round.subscribes

-- `if self.on_updated: await self.on_updated()` at the end of a handler that accepts
unfoldable pub call_back : Bool → Bool → Exec PressureMqttAdapter Unit
call_back true true a = (err runtime_error, a)
call_back true false a = (ok tt, a)
call_back false raises a = (ok tt, a)

module _ (loads : Bytes → Result Json) (base_topic : String) where
  unfoldable pub receive : Arrival → Exec PressureMqttAdapter Unit
  receive m = do
    updated ← handle_message loads base_topic m.topic m.raw m.now_ms
    call_back updated m.callback_raises

  -- `async for message in client.messages`, with the end of the connection behind it
  unfoldable pub iterate : Bool → List Arrival → Exec PressureMqttAdapter Unit
  iterate disconnects [] a = (err mqtt_error, a)
  iterate disconnects (m ∷ rest) a = elim m.stopped [
    | true ↦ (if disconnects then ok tt else err mqtt_error, a)
    | false ↦ (receive m >> iterate disconnects rest) a
  ]

  -- The `try` block; its result does not say whether it has subscribed.
  unfoldable pub listen : Round → Exec PressureMqttAdapter Unit
  unfolding has_subscribed
  listen round a =
      if has_subscribed round
      then iterate round.disconnects round.arrivals a
      else (err mqtt_error, a)

  -- The timeouts of the waits, with the adapter behind the last round. The backoff is reset as soon
  -- as the topics are subscribed to.
  unfoldable pub run_loop : ℕ → List Round → PressureMqttAdapter → List ℕ × PressureMqttAdapter
  unfolding has_subscribed
  run_loop backoff [] a = ([], a)
  run_loop backoff (round ∷ rest) a = elim round.stopped [
    | true ↦ ([], a)
    | false ↦
        let b = if has_subscribed round then backoff_base else backoff in
        let (r, a') = listen round a in
        elim r [
          | ok _ ↦ run_loop b rest a'
          | err _ ↦ elim round.stopped_in_wait [
            | true ↦ (b ∷ [], a')
            | false ↦ let (waits, a'') = run_loop (next_backoff b) rest a' in (b ∷ waits, a'')
          ]
        ]
  ]
