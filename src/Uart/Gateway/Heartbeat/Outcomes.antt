-- ===== src/Uart/Gateway/Heartbeat/Outcomes.antt =====
-- What a round of the heartbeat does for each outcome of its request.
use nightshift_opi.Prelude.{
  ℕ, ◌-◌, ◌%◌, ◌^◌, ◌<◌, ◌≤◌, ◌≡◌, ◌≢◌, ◌⊎◌, inl, inr, true, false, ◌||◌, ◌==◌, if◌then◌else◌, [],
  ◌∷◌, Error, Result, ok, err, timeout_error, runtime_error, type_error, protocol_error, length,
  length-take, arith, refl, ltb, Bool-cases, Result-cases,
}
use nightshift_opi.Prelude.Bytes.{Bytes, pack-Fits}
use nightshift_opi.Domain.Commands
use nightshift_opi.Domain.Events.{panel_connectivity_changed, heartbeat_received, heartbeat_failed}
use nightshift_opi.Uart.Encode.{encode_heartbeat}
use nightshift_opi.Uart.Frame.{Frame}
use nightshift_opi.Uart.Parse.{HeartbeatStatus, parse_heartbeat_response}
use nightshift_opi.Uart.Gateway.{Callbacks, Gateway, on_event}
use nightshift_opi.Uart.Gateway.Send.{send}
use nightshift_opi.Uart.Gateway.Heartbeat.{
  ask, answered, recover, set_panel_online, heartbeat_round,
}

parse_short :
    (payload : Bytes) → length payload < 14 → parse_heartbeat_response payload ≡ err protocol_error
unfolding parse_heartbeat_response
parse_short payload h = ground arith

parse_long :
    (payload : Bytes)
    → 14 ≤ length payload
    → (hb : HeartbeatStatus) × (parse_heartbeat_response payload ≡ ok hb)
unfolding parse_heartbeat_response
parse_long payload h = elim (Result-cases (parse_heartbeat_response payload)) [
  | inl found ↦ found
  | inr (e, fails) ↦ absurd (ground (arith, length-take 14 payload))
]

pub encodes :
    (uptime_ms revision : ℕ)
    → revision < 2 ^ 32
    → (payload : Bytes) × (encode_heartbeat (uptime_ms % (2 ^ 32 - 1)) revision ≡ ok payload)
unfolding encode_heartbeat
encodes uptime_ms revision small = (
  _,
  pack-Fits ((4, uptime_ms % (2 ^ 32 - 1)) ∷ (4, revision) ∷ []) (omega arith, (omega arith, tt)),
)

-- What the application is told of an answer: that the panel is online again, if it was not, and
-- the answer.
abbrev pub answer_told : {App : Type 0} → Callbacks App → HeartbeatStatus → ℕ → Gateway App → App
answer_told cb hb now_ms g =
    if hb.status == Commands.ok
    then cb.on_event
        (heartbeat_received (record {
          status = hb.status;
          t5_uptime_ms = hb.t5_uptime_ms;
          applied_revision = hb.applied_revision;
          error_flags = hb.error_flags;
          received_at_ms = now_ms;
        }))
        (if g.panel_online then g.app else cb.on_event (panel_connectivity_changed true) g.app)
    else cb.on_event (heartbeat_failed hb.status hb.error_flags now_ms) g.app

-- The request got no answer: it timed out, or the line was closed.
abbrev pub IsUnanswered : Result Frame → Type 0
IsUnanswered sent = (sent ≡ err timeout_error) ⊎ (sent ≡ err runtime_error)

-- The request failed otherwise, or its answer has fewer than 14 bytes.
abbrev pub IsUnreadable : Result Frame → Type 0
IsUnreadable sent =
    ((e : Error) × (sent ≡ err e) × (e ≢ timeout_error) × (e ≢ runtime_error))
    ⊎ ((resp : Frame) × (sent ≡ ok resp) × (length resp.payload < 14))

pub sent_cases :
    (r : Result Frame)
    → IsUnanswered r
      ⊎ (IsUnreadable r
          ⊎ ((resp : Frame) × (hb : HeartbeatStatus) × (r ≡ ok resp)
              × (14 ≤ length resp.payload)
              × (parse_heartbeat_response resp.payload ≡ ok hb)))
sent_cases (err timeout_error) = inl (inl refl)
sent_cases (err runtime_error) = inl (inr refl)
sent_cases (err e) = inr (inl (inl (e, refl, (λ q. cc), λ q. cc)))
sent_cases (ok resp) = elim (Bool-cases (ltb (length resp.payload) 14)) [
  | inl short ↦ inr (inl (inr (resp, refl, ground arith)))
  | inr long ↦
      let (hb, e) = parse_long resp.payload (ground arith) in
      inr (inr (resp, hb, refl, ground arith, e))
]

module _ {App : Type 0} (wait : Gateway App → Gateway App) (cb : Callbacks App) where
  -- A heartbeat that is not answered takes the panel offline, and tells the application if the panel
  -- was online.
  pub heartbeat_timeout :
      (uptime_ms now_ms : ℕ) (payload : Bytes) (g g' : Gateway App)
      → g.connected ≡ true
      → encode_heartbeat (uptime_ms % (2 ^ 32 - 1)) g.last_applied_revision ≡ ok payload
      → send wait Commands.heartbeat payload Commands.flag_ack_req g ≡ (err timeout_error, g')
      → heartbeat_round wait cb uptime_ms now_ms g ≡ (
        ok tt,
        record g' {
          panel_online = false;
          app =
              if g'.panel_online
              then cb.on_event (panel_connectivity_changed false) g'.app
              else g'.app;
        },
      )
  unfolding heartbeat_round ask recover set_panel_online on_event
  heartbeat_timeout uptime_ms now_ms payload g g' connected encoded sent = ground arith

  pub heartbeat_closed :
      (uptime_ms now_ms : ℕ) (payload : Bytes) (g g' : Gateway App)
      → g.connected ≡ true
      → encode_heartbeat (uptime_ms % (2 ^ 32 - 1)) g.last_applied_revision ≡ ok payload
      → send wait Commands.heartbeat payload Commands.flag_ack_req g ≡ (err runtime_error, g')
      → heartbeat_round wait cb uptime_ms now_ms g ≡ (
        ok tt,
        record g' {
          panel_online = false;
          app =
              if g'.panel_online
              then cb.on_event (panel_connectivity_changed false) g'.app
              else g'.app;
        },
      )
  unfolding heartbeat_round ask recover set_panel_online on_event
  heartbeat_closed uptime_ms now_ms payload g g' connected encoded sent = ground arith

  pub heartbeat_answered :
      (uptime_ms now_ms : ℕ) (payload : Bytes) (resp : Frame) (hb : HeartbeatStatus)
      (g g' : Gateway App)
      → g.connected ≡ true
      → encode_heartbeat (uptime_ms % (2 ^ 32 - 1)) g.last_applied_revision ≡ ok payload
      → send wait Commands.heartbeat payload Commands.flag_ack_req g ≡ (ok resp, g')
      → parse_heartbeat_response resp.payload ≡ ok hb
      → heartbeat_round wait cb uptime_ms now_ms g ≡ (
        ok tt,
        record g' {
          panel_online = g'.panel_online || hb.status == Commands.ok;
          last_applied_revision =
              if hb.status == Commands.ok then hb.applied_revision else g'.last_applied_revision;
          app = answer_told cb hb now_ms g';
        },
      )
  unfolding heartbeat_round ask answered set_panel_online on_event
  heartbeat_answered uptime_ms now_ms payload resp hb g g' connected encoded sent parsed =
      ground arith

  pub heartbeat_unreadable :
      (uptime_ms now_ms : ℕ) (payload : Bytes) (r : Result Frame) (g g' : Gateway App)
      → g.connected ≡ true
      → encode_heartbeat (uptime_ms % (2 ^ 32 - 1)) g.last_applied_revision ≡ ok payload
      → send wait Commands.heartbeat payload Commands.flag_ack_req g ≡ (r, g')
      → IsUnreadable r
      → heartbeat_round wait cb uptime_ms now_ms g ≡ (err type_error, g')
  unfolding heartbeat_round ask recover
  heartbeat_unreadable uptime_ms now_ms payload r g g' connected encoded sent
        (inl (e, fails, a, b)) =
      ground arith
  heartbeat_unreadable uptime_ms now_ms payload r g g' connected encoded sent
        (inr (resp, answers, short)) =
      ground (arith, parse_short resp.payload short)
