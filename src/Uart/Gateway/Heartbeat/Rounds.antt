-- ===== src/Uart/Gateway/Heartbeat/Rounds.antt =====
-- Rounds of the heartbeat on an open line.
use nightshift_opi.Prelude.{
  ℕ, ◌-◌, ◌%◌, ◌^◌, ◌<◌, ◌≤◌, ◌≡◌, ◌⊎◌, inl, inr, true, false, ◌||◌, ◌==◌, if◌then◌else◌, Result,
  ok, err, type_error, length, arith, refl, ap,
}
use nightshift_opi.Prelude.Bytes.{Bytes}
use nightshift_opi.Domain.Commands
use nightshift_opi.Domain.Events.{panel_connectivity_changed}
use nightshift_opi.Uart.Encode.{encode_heartbeat}
use nightshift_opi.Uart.Frame.{Frame}
use nightshift_opi.Uart.Parse.{HeartbeatStatus, parse_heartbeat_response}
use nightshift_opi.Uart.Gateway.{Callbacks, Gateway}
use nightshift_opi.Uart.Gateway.Send.{send}
use nightshift_opi.Uart.Gateway.Heartbeat.{heartbeat_round}
use nightshift_opi.Uart.Gateway.Heartbeat.Outcomes.{
  IsUnanswered, IsUnreadable, answer_told, sent_cases, encodes, heartbeat_timeout, heartbeat_closed,
  heartbeat_answered, heartbeat_unreadable,
}

module _ {App : Type 0} (wait : Gateway App → Gateway App) (cb : Callbacks App) where
  -- A round of the heartbeat on an open line, with a revision of 32 bits to report. If the request
  -- times out or finds the line closed, the loop goes on, the panel is offline, and the application
  -- is told so if the panel was online. If the request fails otherwise or its answer has fewer
  -- than 14 bytes, a TypeError ends the loop, with the gateway as the request left it. A longer answer
  -- is parsed and the loop goes on: with the status OK the panel is online and its revision noted, with
  -- another status neither changes, and the application is told of the answer.
  pub heartbeat_round_ends :
      (uptime_ms now_ms : ℕ) (g : Gateway App)
      → g.connected ≡ true
      → g.last_applied_revision < 2 ^ 32
      → let (r, g') = heartbeat_round wait cb uptime_ms now_ms g in
        (payload : Bytes) × (encode_heartbeat (uptime_ms % (2 ^ 32 - 1)) g.last_applied_revision
          ≡ ok payload)
        × (let (sent, h) = send wait Commands.heartbeat payload Commands.flag_ack_req g in
            (IsUnanswered sent
              × (r ≡ ok tt)
              × (g'.panel_online ≡ false)
              × (g'.last_applied_revision ≡ h.last_applied_revision)
              × (g'.app ≡ (
                  if h.panel_online
                  then cb.on_event (panel_connectivity_changed false) h.app
                  else h.app)))
            ⊎ ((IsUnreadable sent × (r ≡ err type_error) × (g' ≡ h))
                ⊎ ((resp : Frame) × (hb : HeartbeatStatus) × (sent ≡ ok resp)
                    × (14 ≤ length resp.payload)
                    × (parse_heartbeat_response resp.payload ≡ ok hb)
                    × (r ≡ ok tt)
                    × (g'.panel_online ≡ h.panel_online || hb.status == Commands.ok)
                    × (g'.last_applied_revision ≡ (
                        if hb.status == Commands.ok
                        then hb.applied_revision
                        else h.last_applied_revision))
                    × (g'.app ≡ answer_told cb hb now_ms h))))
  heartbeat_round_ends uptime_ms now_ms g connected small =
      let (payload, encoded) = encodes uptime_ms g.last_applied_revision small in
      let (sent, h) = send wait Commands.heartbeat payload Commands.flag_ack_req g in
      let at : send wait Commands.heartbeat payload Commands.flag_ack_req g ≡ (sent, h) = refl in
      (
        payload,
        encoded,
        elim (sent_cases sent) [
          | inl (inl lost) ↦
              let e =
                heartbeat_timeout wait cb uptime_ms now_ms payload g h connected encoded
                  (ap (λ (x : Result Frame). (x, h)) lost) in
              inl (inl lost, ground arith, ground arith, ground arith, ground arith)
          | inl (inr closed) ↦
              let e =
                heartbeat_closed wait cb uptime_ms now_ms payload g h connected encoded
                  (ap (λ (x : Result Frame). (x, h)) closed) in
              inl (inr closed, ground arith, ground arith, ground arith, ground arith)
          | inr (inl bad) ↦
              let e =
                heartbeat_unreadable wait cb uptime_ms now_ms payload sent g h connected encoded
                  refl bad in
              inr (inl (bad, ground arith, ground arith))
          | inr (inr (resp, hb, answers, long, parsed)) ↦
              let e =
                heartbeat_answered wait cb uptime_ms now_ms payload resp hb g h connected encoded
                  (ap (λ (x : Result Frame). (x, h)) answers) parsed in
              inr (
                inr (
                  resp,
                  hb,
                  answers,
                  long,
                  parsed,
                  ground arith,
                  ground arith,
                  ground arith,
                  ground arith,
                ))
        ],
      )
