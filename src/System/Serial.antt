-- ===== src/System/Serial.antt =====
-- The orchestrator behind the serial line.
use nightshift_opi.Prelude.{ℕ, arith}
use nightshift_opi.Prelude.Bytes.{Bytes}
use nightshift_opi.Uart.Session.{Digest}
use nightshift_opi.Uart.Gateway.{Gateway, receive}
use nightshift_opi.Uart.Gateway.AppSteps.{receive_app}
use nightshift_opi.Services.Orchestrator.{Orchestrator, Environment}
use nightshift_opi.Services.Orchestrator.Invariant.{Later, Later-refl, Later-trans, Relies}
use nightshift_opi.Services.Orchestrator.Invariant.Steps.{on_event-Later}
use nightshift_opi.Services.Orchestrator.Invariant.Actions.{handle_ui_action-Keeps}
use nightshift_opi.System.{wiring}

module _ (env : Environment) (rely : Relies env) where
  -- Whatever bytes the panel sends as a frame, the invariant of the orchestrator is kept and the
  -- revision does not fall, if what runs during the waits keeps the invariant and lets no revision
  -- fall.
  pub receive-Later :
      (sha256_hex : Bytes → Digest) (now_ms sync_ms stamp_ms : ℕ) (frame_bytes : Bytes)
      (g : Gateway Orchestrator)
      → Later g.app (receive sha256_hex (wiring env now_ms sync_ms) stamp_ms frame_bytes g).app
  unfolding wiring
  receive-Later sha256_hex now_ms sync_ms stamp_ms frame_bytes g =
      receive_app Later Later-refl Later-trans (wiring env now_ms sync_ms)
        (λ event o. on_event-Later event now_ms o) Later-refl (λ previous boot_id. Later-refl)
        (λ handler present event o.
          ground (arith, handle_ui_action-Keeps env rely now_ms sync_ms event o))
        sha256_hex stamp_ms frame_bytes g
