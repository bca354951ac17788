-- ===== src/System/World.antt =====
-- The program as a whole (apps/backend/main.py, `main`): the gateway, the orchestrator behind it,
-- the MQTT commands and the pressure adapter, which share the one orchestrator.
pub mod Reachable
use Prim.Native.String.{String}
use nightshift_opi.Prelude.{
  ℕ, ◌≤◌, ◌≡◌, sym, ap, Bool, true, false, Option, some, List, [], if◌then◌else◌, Result,
  Result-cases, inl, inr, ok, arith,
}
use mathlib.Core.Path.{subst}
use nightshift_opi.Prelude.Bytes.{Bytes}
use nightshift_opi.Uart.Frame.{Frame, unstuffed}
use nightshift_opi.Uart.Session.{Digest}
use nightshift_opi.Uart.Session.Invariant
use nightshift_opi.Uart.Gateway
use nightshift_opi.Uart.Gateway.{Gateway, Callbacks, dispatch, receive}
use nightshift_opi.Uart.Gateway.SessionSafety.{dispatch_session}
use nightshift_opi.Services.Confirmations.{Database}
use nightshift_opi.Services.Orchestrator.{Orchestrator, Environment, init}
use nightshift_opi.Services.Orchestrator.Listeners.{on_pressure_updated}
use nightshift_opi.Services.Orchestrator.Apply.{evaluate_and_apply}
use nightshift_opi.Services.Orchestrator.Invariant.{
  Inv, Later, Later-refl, Later-trans, Relies, IsValidDatabase, init-Inv,
}
use nightshift_opi.Services.Orchestrator.Invariant.Calls.{Call, perform, perform-Later}
use nightshift_opi.Services.Orchestrator.Invariant.Evaluation.{evaluate_and_apply-Later}
use nightshift_opi.Mqtt.Json.{Json}
use nightshift_opi.Mqtt.Topics.{TopicBuilder}
use nightshift_opi.Mqtt.Schemas.{Payload}
use nightshift_opi.Mqtt.PressureAdapter.{PressureMqttAdapter, new_adapter}
use nightshift_opi.Mqtt.PressureAdapter.Messages
use nightshift_opi.Mqtt.CommandHandler.{Cache, CommandHandler, handle}
use nightshift_opi.Mqtt.CommandHandler.Dispatch.{Times}
use nightshift_opi.Mqtt.CommandHandler.Invariant.{handle-Later}
use nightshift_opi.System.{wiring}
use nightshift_opi.System.Serial.{receive-Later}

-- The orchestrator is the application of the gateway; the command handler has no other.
pub record World : Type 0 where
  pub gateway : Gateway Orchestrator
  pub topics : TopicBuilder
  pub cache : Cache
  pub adapter : PressureMqttAdapter

-- What the rest of the program is: SHA-256, the digest of a command, the JSON parser on a text and
-- on bytes, and the decoder of UTF-8.
pub record Outside : Type 0 where
  pub env : Environment
  pub sha256_hex : Bytes → Digest
  pub hash_json : Json → Digest
  pub decode : Bytes → Result String
  pub loads : String → Result Json
  pub loads_bytes : Bytes → Result Json
  pub base_topic : String

unfoldable pub with_app : Orchestrator → World → World
with_app o w = record w { gateway = record w.gateway { app = o } }

unfoldable pub handler_of : World → CommandHandler
handler_of w = record { topics = w.topics; orchestrator = w.gateway.app; cache = w.cache }

-- `adapter.on_updated` is `orchestrator.on_pressure_updated`, which reads the adapter's snapshot.
unfoldable pub if_updated : Environment → Result Bool → ℕ → World → World
if_updated env (ok true) now_ms w =
    with_app (on_pressure_updated env w.adapter.state now_ms w.gateway.app) w
if_updated env other now_ms w = w

module _ (out : Outside) where
  unfoldable pub on_frame : ℕ → ℕ → ℕ → Bytes → World → World
  on_frame now_ms sync_ms stamp_ms frame_bytes w = record w {
    gateway = receive out.sha256_hex (wiring out.env now_ms sync_ms) stamp_ms frame_bytes w.gateway;
  }

  unfoldable pub on_command : Payload → Times → World → World
  on_command payload times w =
      let h = (handle out.env out.hash_json out.decode out.loads payload times (handler_of w)).1 in
      with_app h.orchestrator (record w { cache = h.cache })

  unfoldable pub on_sensor : String → Bytes → ℕ → ℕ → World → World
  on_sensor topic raw received_ms now_ms w =
      let (updated, adapter) =
        Messages.handle_message out.loads_bytes out.base_topic topic raw received_ms w.adapter in
      if_updated out.env updated now_ms (record w { adapter = adapter })

  unfoldable pub on_tick : ℕ → World → World
  on_tick now_ms w = with_app (evaluate_and_apply out.env w.adapter.state now_ms w.gateway.app) w

  -- One thing that happens to the program: a frame of the panel, a message on the command topic, one
  -- of the sensor, a tick, another call of the orchestrator, such as an event of the heartbeat loop or
  -- the synchronisation of a panel that greets, or what requests, heartbeats and the connection do to
  -- the fields of the gateway but the session.
  pub data Step (w : World) : World → Type 0 where
    frame :
        (now_ms sync_ms stamp_ms : ℕ) (frame_bytes : Bytes)
        → Step w (on_frame now_ms sync_ms stamp_ms frame_bytes w)
    command : (payload : Payload) (times : Times) → Step w (on_command payload times w)
    sensor :
        (topic : String) (raw : Bytes) (received_ms now_ms : ℕ)
        → Step w (on_sensor topic raw received_ms now_ms w)
    tick : (now_ms : ℕ) → Step w (on_tick now_ms w)
    call : (c : Call) → Step w (with_app (perform out.env c w.gateway.app) w)
    line :
        (g : Gateway Orchestrator)
        → g.app ≡ w.gateway.app
        → g.session ≡ w.gateway.session
        → Step w (record w { gateway = g })

  pub data Reaches (w : World) : World → Type 0 where
    here : Reaches w w
    after : (v u : World) → Reaches w v → Step v u → Reaches w u

-- The program as `main` puts it together, before anything has happened.
unfoldable pub start : ℕ → Option Database → ℕ → ℕ → ℕ → TopicBuilder → String → World
start boot_id db dwell_ms stale_ms now_ms topics device_id = record {
  gateway = Gateway.init boot_id (init db (some dwell_ms) (some stale_ms) now_ms);
  topics = topics;
  cache = [];
  adapter = new_adapter device_id;
}
