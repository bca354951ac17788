-- ===== src/Examples/Requests.antt =====
-- Requests, heartbeats and the serial line at concrete inputs.
use nightshift_opi.Prelude.{
  ℕ, ◌+◌, ◌≤◌, ◌≡◌, ◌⊎◌, refl, true, false, ◌||◌, ◌==◌, if◌then◌else◌, none, [], ◌∷◌, length, ok,
  err, type_error, arith,
}
use nightshift_opi.Prelude.Bytes.{Bytes, pack}
use nightshift_opi.Domain.Commands
use nightshift_opi.Uart.Frame.{Frame, request, raw, wire}
use nightshift_opi.Uart.Framing.{stuff_frame}
use nightshift_opi.Uart.Crc.{crc16_ccitt_false, crc_loop, crc_bits, crc_bit}
use nightshift_opi.Uart.Cobs.{cobs_encode}
use nightshift_opi.Uart.Session.{new_session}
use nightshift_opi.Uart.Encode.{encode_heartbeat}
use nightshift_opi.Uart.Gateway.{Callbacks, Gateway, set_result}
use nightshift_opi.Uart.Gateway.Send.{send}
use nightshift_opi.Uart.Gateway.Send.Outcome.{
  Outcome, copies, set_result-All, send-outcome, send-copies,
}
use nightshift_opi.Uart.Gateway.Heartbeat.{heartbeat_round}
use nightshift_opi.Uart.Gateway.Heartbeat.Rounds.{heartbeat_round_ends}
use nightshift_opi.Uart.Gateway.Heartbeat.Outcomes.{IsUnanswered, IsUnreadable, answer_told}
use nightshift_opi.Uart.Parse.{HeartbeatStatus, parse_heartbeat_response}
use nightshift_opi.Uart.Gateway.Connection.{connection_round}
use nightshift_opi.Uart.Gateway.Connection.Backoff.{backoff_unreached}

abbrev pub line : Gateway ℕ
line = record {
  sequence = 0;
  boot_id = 1;
  session = new_session;
  pending = [];
  last_applied_revision = 0;
  panel_online = true;
  connected = true;
  running = true;
  has_writer = true;
  written = [];
  app = 0;
}

-- A panel that answers the first request with two bytes.
abbrev short_answer : Frame
short_answer = record {
  version = 1;
  flags = 2;
  sequence = 1;
  command = Commands.heartbeat;
  payload = 0 ∷ 0 ∷ [];
}

abbrev answering : Gateway ℕ → Gateway ℕ
answering g = record g { pending = set_result short_answer.sequence short_answer g.pending }

abbrev pub mute : Gateway ℕ → Gateway ℕ
mute g = g

abbrev pub counter : Callbacks ℕ
counter = record {
  on_event = λ event n. n + 1;
  on_panel_hello = λ n. n;
  on_peer_boot_id_change = λ old new n. n;
  ui_action_handler = none;
}

-- The panel is online and answers with two bytes only.
heartbeat_round_ends_example :
    let (r, g') = heartbeat_round answering counter 0 0 line in
    (payload : Bytes) × (encode_heartbeat 0 0 ≡ ok payload)
    × (let (sent, h) = send answering Commands.heartbeat payload Commands.flag_ack_req line in
        (IsUnanswered sent
          × (r ≡ ok tt)
          × (g'.panel_online ≡ false)
          × (g'.last_applied_revision ≡ h.last_applied_revision)
          × (g'.app ≡ (if h.panel_online then h.app + 1 else h.app)))
        ⊎ ((IsUnreadable sent × (r ≡ err type_error) × (g' ≡ h))
            ⊎ ((resp : Frame) × (hb : HeartbeatStatus) × (sent ≡ ok resp)
                × (14 ≤ length resp.payload)
                × (parse_heartbeat_response resp.payload ≡ ok hb)
                × (r ≡ ok tt)
                × (g'.panel_online ≡ h.panel_online || hb.status == Commands.ok)
                × (g'.last_applied_revision ≡ (
                    if hb.status == Commands.ok
                    then hb.applied_revision
                    else h.last_applied_revision))
                × (g'.app ≡ answer_told counter hb 0 h))))
heartbeat_round_ends_example = heartbeat_round_ends answering counter 0 0 line refl (omega arith)

abbrev pub request_wire : Bytes
request_wire = 6 ∷ 84 ∷ 53 ∷ 1 ∷ 1 ∷ 1 ∷ 2 ∷ 2 ∷ 1 ∷ 1 ∷ 3 ∷ 52 ∷ 126 ∷ 0 ∷ []

pub request_wire_eq : wire (request 1 Commands.heartbeat [] 1) ≡ ok request_wire
unfolding wire raw request pack stuff_frame crc16_ccitt_false crc_loop crc_bits crc_bit cobs_encode
request_wire_eq = refl

send-outcome_example : Outcome 1 (send answering Commands.heartbeat [] 1 line).0
send-outcome_example =
    send-outcome answering (λ g a. set_result-All short_answer g.pending a) Commands.heartbeat 1 []
      request_wire line tt refl refl request_wire_eq

send-copies_example :
    (k : ℕ) × (k ≤ 4) × ((send mute Commands.heartbeat [] 1 line).1.written ≡ copies k request_wire)
send-copies_example =
    send-copies mute (λ g. refl) Commands.heartbeat 1 [] request_wire line refl refl request_wire_eq

-- No line, and none that opens.
abbrev unplugged : Gateway ℕ
unplugged = record line { connected = false; has_writer = false }

backoff_unreached_example :
    let (r, g') = connection_round mute false false 1000 30000 1000 unplugged in
    ((false ≡ true) × (r ≡ ok 1000) × (g' ≡ unplugged))
    ⊎ (((false ≡ false) × (false ≡ true) × (false ≡ false) × (r ≡ ok 1000))
        ⊎ ((false ≡ false)
            × (r ≡ err type_error)
            × (((false ≡ false) × (g' ≡ unplugged))
                ⊎ ((false ≡ true)
                    × (false ≡ true)
                    × (g' ≡ record unplugged { has_writer = true; connected = true })))))
backoff_unreached_example = backoff_unreached mute false false 1000 30000 1000 unplugged
