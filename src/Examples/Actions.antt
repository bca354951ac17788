-- ===== src/Examples/Actions.antt =====
-- The session and the gateway at concrete inputs.
use nightshift_opi.Prelude.{
  ℕ, suc, ◌≡◌, ◌⊎◌, refl, true, false, some, [], ◌∷◌, ok, err, type_error, value_error, arith,
}
use nightshift_opi.Prelude.Bytes.{Bytes}
use nightshift_opi.Prelude.Int.{ℤ, to_signed}
use nightshift_opi.Domain.Commands
use nightshift_opi.Uart.Frame.{Frame}
use nightshift_opi.Uart.Text.{decode_string, utf8_from}
use nightshift_opi.Uart.Parse.{HelloInfo, UiActionPayload, parse_hello, parse_ui_action}
use nightshift_opi.Uart.Session.{
  Digest, DedupKey, DedupEntry, UartSession, new_session, lookup, member, record_result, reset,
}
use nightshift_opi.Uart.Session.Invariant.{IsValid, new_session-IsValid, reset-IsValid}
use nightshift_opi.Uart.Session.Replay.{record_all, record_result_kept}
use nightshift_opi.Uart.Gateway.{
  Callbacks, Gateway, has_flag, ack_if_asked, handle_ui_action, dispatch,
}
use nightshift_opi.Uart.Gateway.Dispatch.{handled_once, handler_failure_blocks}
use nightshift_opi.Uart.Gateway.SessionSafety.{dispatch_session}

-- A digest that tells payloads apart by their bytes.
abbrev no_hash : Bytes → Digest
no_hash payload = payload

abbrev pause_payload : Bytes
pause_payload = 4 ∷ 0 ∷ 3 ∷ 1 ∷ 0 ∷ 0 ∷ 0 ∷ 0 ∷ 0 ∷ 0 ∷ 0 ∷ 0 ∷ 0 ∷ []

abbrev pause_frame : Frame
pause_frame = record {
  version = 1;
  flags = 1;
  sequence = 5;
  command = 0x2001;
  payload = pause_payload;
}

abbrev session_7 : UartSession
session_7 = record new_session { boot_id = some 7 }

session_7-IsValid : IsValid session_7
unfolding reset
session_7-IsValid = reset-IsValid 7 new_session new_session-IsValid

abbrev key_5 : DedupKey
key_5 = record { boot_id = 7; sequence = 5; command = 0x2001 }

abbrev entry_5 : DedupEntry
entry_5 = record { digest = []; status = 0; reply_data = [] }

record_result_kept_example :
    lookup key_5
      (record_all
        ((record key_5 { sequence = 6 }, entry_5) ∷ [])
        (record_result key_5 [] 0 [] session_7)).dedup_cache
    ≡ some entry_5
unfolding lookup
record_result_kept_example =
    record_result_kept key_5 entry_5 ((record key_5 { sequence = 6 }, entry_5) ∷ []) session_7
      session_7-IsValid refl refl (refl, refl, tt) (omega arith)

-- An application that counts what its handler was called for.
abbrev counting : Callbacks ℕ
counting = record {
  on_event = λ event n. n;
  on_panel_hello = λ n. n;
  on_peer_boot_id_change = λ old new n. n;
  ui_action_handler = some (λ action n. (ok (0, []), suc n));
}

abbrev failing : Callbacks ℕ
failing = record counting { ui_action_handler = some (λ action n. (err value_error, suc n)) }

abbrev ready : Gateway ℕ
ready = record {
  sequence = 0;
  boot_id = 1;
  session = session_7;
  pending = [];
  last_applied_revision = 0;
  panel_online = true;
  connected = true;
  running = true;
  has_writer = true;
  written = [];
  app = 0;
}

abbrev pause_action : UiActionPayload
pause_action = record { action = 4; object_type = 3; object_id = 1; value = ℤ.pos 0; text = [] }

handled_once_example :
    let g1 = (handle_ui_action no_hash counting pause_frame ready).1 in
    let g2 = (handle_ui_action no_hash counting pause_frame g1).1 in
    (g1.app ≡ 1)
    × (handle_ui_action no_hash counting pause_frame g1 ≡ ack_if_asked pause_frame 0 [] g1)
    × (g2.app ≡ 1)
    × (g2.session ≡ g1.session)
unfolding parse_ui_action decode_string utf8_from to_signed lookup member
handled_once_example =
    handled_once no_hash counting pause_frame pause_action 7 0 [] ready
      (λ action n. (ok (0, []), suc n)) 1 refl refl refl refl refl refl

handler_failure_blocks_example :
    let (r, g1) = handle_ui_action no_hash failing pause_frame ready in
    (r ≡ err type_error)
    × (g1.written ≡ [])
    × (handle_ui_action no_hash failing pause_frame g1
        ≡ ack_if_asked pause_frame Commands.busy [] g1)
unfolding parse_ui_action decode_string utf8_from to_signed lookup member
handler_failure_blocks_example =
    handler_failure_blocks no_hash failing pause_frame pause_action 7 value_error ready
      (λ action n. (err value_error, suc n)) 1 refl refl refl refl refl refl

dispatch_session_example :
    let s = (dispatch no_hash counting 0 pause_frame ready).1.session in
    IsValid s
    × ((s.boot_id ≡ some 7)
        ⊎ ((hello : HelloInfo) × (0x2001 ≡ Commands.hello)
            × (has_flag 1 Commands.flag_response ≡ false)
            × (parse_hello pause_payload ≡ ok hello)
            × (s.boot_id ≡ some hello.boot_id)))
dispatch_session_example = dispatch_session counting no_hash 0 pause_frame ready session_7-IsValid
