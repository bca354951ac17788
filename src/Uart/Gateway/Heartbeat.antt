-- ===== src/Uart/Gateway/Heartbeat.antt =====
-- One round of the heartbeat loop (`_heartbeat_loop`).
pub mod Outcomes
pub mod Rounds
use nightshift_opi.Prelude.{
  ℕ, ◌-◌, ◌%◌, ◌^◌, Bool, true, false, not, Option, none, some, ◌==◌, if◌then◌else◌, Error, Result,
  ok, err, timeout_error, runtime_error,
}
use nightshift_opi.Prelude.Bytes.{Bytes}
use nightshift_opi.Prelude.Exec.{
  Exec, raise, lift, gets, done, modify, when, catch, warning_with_keyword, ◌>>=◌, ◌>>◌, continue,
}
use nightshift_opi.Domain.Commands
use nightshift_opi.Domain.Events.{panel_connectivity_changed, heartbeat_received, heartbeat_failed}
use nightshift_opi.Uart.Encode.{encode_heartbeat}
use nightshift_opi.Uart.Frame.{Frame}
use nightshift_opi.Uart.Parse.{HeartbeatStatus, parse_heartbeat_response}
use nightshift_opi.Uart.Gateway.{Callbacks, Gateway, on_event}
use nightshift_opi.Uart.Gateway.Send.{send}

module _ {App : Type 0} (wait : Gateway App → Gateway App) (cb : Callbacks App) where
  -- A connectivity event, if the flag differs.
  unfoldable pub set_panel_online : Bool → Exec (Gateway App) Unit
  set_panel_online online g =
      if g.panel_online
      then (if online
          then done g
          else (do
            modify (λ h. record h { panel_online = false })
            on_event cb (panel_connectivity_changed false))
              g)
      else (if online
          then (do
            modify (λ h. record h { panel_online = true })
            on_event cb (panel_connectivity_changed true))
              g
          else done g)

  -- The lines behind the parser, with the time that they read.
  unfoldable pub answered : HeartbeatStatus → ℕ → Exec (Gateway App) Unit
  answered hb now_ms =
      if hb.status == Commands.ok
      then (do
        modify (λ g. record g { last_applied_revision = hb.applied_revision })
        set_panel_online true
        on_event cb (
            heartbeat_received (record {
              status = hb.status;
              t5_uptime_ms = hb.t5_uptime_ms;
              applied_revision = hb.applied_revision;
              error_flags = hb.error_flags;
              received_at_ms = now_ms;
            })))
      else on_event cb (heartbeat_failed hb.status hb.error_flags now_ms)

  unfoldable pub ask : Bytes → ℕ → Exec (Gateway App) Unit
  ask payload now_ms = do
    resp ← send wait Commands.heartbeat payload Commands.flag_ack_req
    hb ← lift (parse_heartbeat_response resp.payload)
    answered hb now_ms

  -- The inner `except` clauses: a timeout or a closed line takes the panel offline, and the
  -- warnings of the other two clauses raise.
  unfoldable pub recover : Error → Exec (Gateway App) Unit
  recover timeout_error = set_panel_online false
  recover runtime_error = set_panel_online false
  recover _ = warning_with_keyword

  -- A round behind its sleep. What comes back is the exception that ends the loop, if there is
  -- one: the outer `except` clause has such a warning too.
  unfoldable pub heartbeat_round : ℕ → ℕ → Exec (Gateway App) Unit
  heartbeat_round uptime_ms now_ms g =
      if g.connected
      then catch
          (do
            payload ← lift (encode_heartbeat (uptime_ms % (2 ^ 32 - 1)) g.last_applied_revision)
            catch (ask payload now_ms) recover)
          (λ e. warning_with_keyword) g
      else done g
