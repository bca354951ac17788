-- ===== src/System/World/Reachable.antt =====
-- What holds whatever happens to the program.
use Prim.Native.String.{String}
use mathlib.Core.Path.{subst, sym}
use nightshift_opi.Prelude.{
  ℕ, ◌≤◌, Bool, true, false, Option, some, Result, Result-cases, inl, inr, ok, err,
}
use nightshift_opi.Prelude.Bytes.{Bytes}
use nightshift_opi.Uart.Frame.{unstuffed}
use nightshift_opi.Uart.Session.{Digest}
use nightshift_opi.Uart.Session.Invariant.{IsValid, new_session-IsValid}
use nightshift_opi.Uart.Gateway
use nightshift_opi.Uart.Gateway.{Gateway, Callbacks, dispatch, receive}
use nightshift_opi.Uart.Gateway.SessionSafety.{dispatch_session}
use nightshift_opi.Services.Confirmations.{Database}
use nightshift_opi.Services.Orchestrator.{Environment}
use nightshift_opi.Services.Orchestrator.Listeners.{on_pressure_updated}
use nightshift_opi.Services.Orchestrator.Invariant.{
  Inv, Later, Later-refl, Later-trans, Relies, IsValidDatabase, init-Inv,
}
use nightshift_opi.Services.Orchestrator.Invariant.Calls.{perform-Later}
use nightshift_opi.Services.Orchestrator.Invariant.Evaluation.{evaluate_and_apply-Later}
use nightshift_opi.Mqtt.Topics.{TopicBuilder}
use nightshift_opi.Mqtt.PressureAdapter.Messages
use nightshift_opi.Mqtt.CommandHandler.Invariant.{handle-Later}
use nightshift_opi.System.{wiring}
use nightshift_opi.System.Serial.{receive-Later}
use nightshift_opi.System.World.{
  World, Outside, Step, Reaches, frame, command, sensor, tick, call, line, here, after, start,
  on_frame, on_command, on_sensor, on_tick, with_app, handler_of, if_updated,
}

receive-IsValid :
    {App : Type 0} (sha256_hex : Bytes → Digest) (cb : Callbacks App) (now_ms : ℕ)
    (frame_bytes : Bytes) (g : Gateway App)
    → IsValid g.session
    → IsValid (receive sha256_hex cb now_ms frame_bytes g).session
unfolding receive
receive-IsValid {App} sha256_hex cb now_ms frame_bytes g v =
    elim (Result-cases (unstuffed frame_bytes)) [
      | inl (f, e) ↦ rw (receive, e) (dispatch_session cb sha256_hex now_ms f g v).0
      | inr (x, e) ↦ rw (receive, e) v
    ]

-- From one state of the program to another: the invariant of the orchestrator is kept, the revision
-- does not fall, and a valid session stays valid.
record Onward (w u : World) : Type 0 where
  later : Later w.gateway.app u.gateway.app
  session : IsValid w.gateway.session → IsValid u.gateway.session

if_updated-Later :
    (env : Environment) (updated : Result Bool) (now_ms : ℕ) (w : World)
    → Relies env
    → Onward w (if_updated env updated now_ms w)
unfolding if_updated with_app on_pressure_updated
if_updated-Later env (ok true) now_ms w rely = record {
  later = evaluate_and_apply-Later env rely w.adapter.state now_ms w.gateway.app;
  session = λ v. v;
}
if_updated-Later env (ok false) now_ms w rely = record {
  later = Later-refl w.gateway.app;
  session = λ v. v;
}
if_updated-Later env (err e) now_ms w rely = record {
  later = Later-refl w.gateway.app;
  session = λ v. v;
}

module _ (out : Outside) (rely : Relies out.env) where
  step-Onward : (w u : World) → Step out w u → Onward w u
  unfolding on_frame on_command on_sensor on_tick with_app handler_of
  step-Onward w u (frame now_ms sync_ms stamp_ms frame_bytes) = record {
    later = receive-Later out.env rely out.sha256_hex now_ms sync_ms stamp_ms frame_bytes w.gateway;
    session =
        receive-IsValid out.sha256_hex (wiring out.env now_ms sync_ms) stamp_ms frame_bytes
          w.gateway;
  }
  step-Onward w u (command payload times) = record {
    later =
        handle-Later out.env rely out.hash_json out.decode out.loads payload times (handler_of w);
    session = λ v. v;
  }
  step-Onward w u (sensor topic raw received_ms now_ms) =
      let (updated, adapter) =
        Messages.handle_message out.loads_bytes out.base_topic topic raw received_ms w.adapter in
      let moved = if_updated-Later out.env updated now_ms (record w { adapter = adapter }) rely in
      record { later = moved.later; session = moved.session }
  step-Onward w u (tick now_ms) = record {
    later = evaluate_and_apply-Later out.env rely w.adapter.state now_ms w.gateway.app;
    session = λ v. v;
  }
  step-Onward w u (call c) = record {
    later = perform-Later out.env c w.gateway.app rely;
    session = λ v. v;
  }
  step-Onward w u (line g app session) = record {
    later = subst (Later w.gateway.app) (sym app) (Later-refl w.gateway.app);
    session = λ v. subst IsValid (sym session) v;
  }

  reaches-Onward : (w u : World) → Reaches out w u → Onward w u
  reaches-Onward w u here = record { later = Later-refl w.gateway.app; session = λ v. v }
  reaches-Onward w u (after v x r s) =
      let a = reaches-Onward w v r in
      let b = step-Onward v x s in
      record {
        later = Later-trans w.gateway.app v.gateway.app u.gateway.app a.later b.later;
        session = λ x. b.session (a.session x);
      }

  -- Whatever frames of the panel, messages on the command topic, messages of the sensor, ticks, other
  -- calls of the orchestrator and changes of the gateway outside its session happen to the program in
  -- whatever order, from its start over a database with a valid task table: the invariant of the
  -- orchestrator holds, the session is valid, and from there on the revision never falls. It is
  -- assumed of what runs during the waits that it keeps the invariant and lets no revision fall.
  pub reachable-Inv :
      (boot_id : ℕ) (db : Option Database) (dwell_ms stale_ms now_ms : ℕ) (topics : TopicBuilder)
      (device_id : String) (w u : World)
      → IsValidDatabase db
      → Reaches out (start boot_id db dwell_ms stale_ms now_ms topics device_id) w
      → Reaches out w u
      → Inv w.gateway.app
        × IsValid w.gateway.session
        × (w.gateway.app.state.revision ≤ u.gateway.app.state.revision)
  unfolding start Gateway.init
  reachable-Inv boot_id db dwell_ms stale_ms now_ms topics device_id w u v earlier later_on =
      let first = reaches-Onward _ w earlier in
      let second = reaches-Onward w u later_on in
      (
        first.later.0 (init-Inv db (some dwell_ms) (some stale_ms) now_ms v),
        first.session new_session-IsValid,
        second.later.1,
      )
