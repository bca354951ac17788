-- ===== src/Uart/Gateway.antt =====
-- The gateway to the panel (nightshift/hardware/uart/gateway.py): its state and what it does with
-- one frame. Sending and the loops stand in the modules below.
pub mod Dispatch
pub mod AppSteps
pub mod SessionSteps
pub mod SessionSafety
pub mod Send
pub mod Heartbeat
pub mod Connection
pub mod ReadLoop
use Prim.Native.Nat.{bit_and}
use nightshift_opi.Prelude.{
  ℕ, ◌+◌, ◌%◌, Bool, true, false, not, Option, none, some, List, [], ◌∷◌, ◌++◌, ◌==◌, if◌then◌else◌,
  Error, Result, ok, err, protocol_error, type_error,
}
use nightshift_opi.Prelude.Bytes.{Bytes}
use nightshift_opi.Prelude.Exec.{
  Exec, raise, lift, gets, continue, ◌>>=◌, ◌>>◌, done, modify, when, warning_with_keyword,
}
use nightshift_opi.Domain.Commands
use nightshift_opi.Domain.Events.{
  DomainEvent, UiAction, panel_connectivity_changed, page_event, ui_action,
}
use nightshift_opi.Uart.Frame.{Frame, ack_wire, unstuffed}
use nightshift_opi.Uart.Parse.{
  HelloInfo, UiActionPayload, PageEventPayload, parse_hello, parse_ui_action, parse_page_event,
}
use nightshift_opi.Uart.Session.{
  Digest, DedupKey, DedupResult, UartSession, new_session, execute, replay, conflict, in_flight,
  new_session_seen, same_boot, reset, is_active, check_action, record_result,
}

-- What the gateway was constructed with. `App` is the state of the rest of the program, which the
-- callbacks change. A callback that is `None` is one that changes nothing; only the handler of UI
-- actions makes a difference by being `None`. `on_panel_hello` and `on_peer_boot_id_change` may
-- raise, and the gateway then goes on.
pub record Callbacks (App : Type 0) : Type 0 where
  pub on_event : DomainEvent → App → App
  pub on_panel_hello : App → App
  pub on_peer_boot_id_change : Option ℕ → ℕ → App → App
  pub ui_action_handler : Option (UiAction → App → Result (ℕ × Bytes) × App)

-- `pending` maps a sequence number to its future: `none` until the response is set. `written` is
-- all that was given to the serial writer, and `has_writer` is `self._writer is not None`.
pub record Gateway (App : Type 0) : Type 0 where
  pub sequence : ℕ
  pub boot_id : ℕ
  pub session : UartSession
  pub pending : List (ℕ × Option Frame)
  pub last_applied_revision : ℕ
  pub panel_online : Bool
  pub connected : Bool
  pub running : Bool
  pub has_writer : Bool
  pub written : List Bytes
  pub app : App

-- `flags & flag`
abbrev pub has_flag : ℕ → ℕ → Bool
has_flag flags flag = not (bit_and flags flag == 0)

-- `fut.set_result(frame)` for the future of the sequence number, if there is one and it is not done.
unfoldable pub set_result : ℕ → Frame → List (ℕ × Option Frame) → List (ℕ × Option Frame)
set_result seq frame [] = []
set_result seq frame ((j, none) ∷ rest) =
    if j == seq then (j, some frame) ∷ rest else (j, none) ∷ set_result seq frame rest
set_result seq frame ((j, some f) ∷ rest) =
    if j == seq then (j, some f) ∷ rest else (j, some f) ∷ set_result seq frame rest

module _ {App : Type 0} where
  unfoldable pub init : ℕ → App → Gateway App
  init boot_id app = record {
    sequence = 0;
    boot_id = boot_id;
    session = new_session;
    pending = [];
    last_applied_revision = 0;
    panel_online = false;
    connected = false;
    running = false;
    has_writer = false;
    written = [];
    app = app;
  }

  -- `self._writer.write(bytes)`
  abbrev pub write : Bytes → Exec (Gateway App) Unit
  write bytes = modify (λ g. record g { written = g.written ++ bytes ∷ [] })

  unfoldable pub next_sequence : Exec (Gateway App) ℕ
  next_sequence g = let seq = g.sequence % 65535 + 1 in (ok seq, record g { sequence = seq })

  unfoldable pub send_ack : Frame → ℕ → Bytes → Exec (Gateway App) Unit
  send_ack frame status reply = do
    open_writer ← gets (λ g. g.has_writer)
    if open_writer then (do wire ← lift (ack_wire frame status reply); write wire) else done

  unfoldable pub on_event : Callbacks App → DomainEvent → Exec (Gateway App) Unit
  on_event cb event = modify (λ g. record g { app = cb.on_event event g.app })

  -- The branch of a HELLO that parses.
  unfoldable pub accept_hello : Callbacks App → Frame → HelloInfo → Exec (Gateway App) Unit
  unfolding on_event
  accept_hello cb frame hello = do
    send_ack frame Commands.ok []
    previous ← gets (λ g. g.session.boot_id)
    let is_new_session = not (same_boot previous hello.boot_id)
    when is_new_session (
        modify (λ g. record g {
          session = reset hello.boot_id g.session;
          app = cb.on_peer_boot_id_change previous hello.boot_id g.app;
        }))
    when is_new_session (modify (λ g. record g { app = cb.on_panel_hello g.app }))
    online ← gets (λ g. g.panel_online)
    when (not online) (do
      modify (λ g. record g { panel_online = true })
      on_event cb (panel_connectivity_changed true))

  unfoldable pub dispatch_hello : Callbacks App → Frame → Exec (Gateway App) Unit
  unfolding accept_hello
  dispatch_hello cb frame = elim (parse_hello frame.payload) [
    | ok hello ↦ accept_hello cb frame hello
    | err e ↦ elim e [
      | protocol_error ↦ send_ack frame Commands.invalid_argument []
      | other ↦ raise other
    ]
  ]

  unfoldable pub dispatch_page_event : Callbacks App → ℕ → Frame → Exec (Gateway App) Unit
  unfolding on_event
  dispatch_page_event cb now_ms frame = do
    elim (parse_page_event frame.payload) [
      | ok page ↦ on_event cb (page_event page.page_id page.event page.object_id now_ms)
      | err e ↦ elim e [ protocol_error ↦ done | other ↦ raise other ]
    ]
    when (has_flag frame.flags Commands.flag_ack_req) (send_ack frame Commands.ok [])

  -- `if frame.flags & cmd.FLAG_ACK_REQ: await self._send_ack(...)`
  unfoldable pub ack_if_asked : Frame → ℕ → Bytes → Exec (Gateway App) Unit
  ack_if_asked frame status reply =
      when (has_flag frame.flags Commands.flag_ack_req) (send_ack frame status reply)

  -- The handler's status and reply. Its exception is caught, and the warning in that `except`
  -- clause then raises another: the line `status = cmd.INTERNAL_ERROR` is not reached. The handler
  -- changes the application alone: what it sends over this gateway, as that of the orchestrator does,
  -- is not seen in `written`.
  unfoldable pub run_handler : Callbacks App → UiAction → Exec (Gateway App) (ℕ × Bytes)
  run_handler cb event g = elim cb.ui_action_handler [
    | none ↦ (ok (Commands.not_ready, []), g)
    | some handler ↦
        let (r, app) = handler event g.app in
        let g' = record g { app = app } in
        elim r [ ok reply ↦ (ok reply, g') | err e ↦ warning_with_keyword g' ]
  ]

  -- The lines behind the tests on the disposition.
  unfoldable pub execute_action :
      Callbacks App → Frame → UiAction → DedupKey → Digest → Exec (Gateway App) Unit
  unfolding on_event
  execute_action cb frame event key digest = do
    on_event cb (ui_action event)
    (status, reply) ← run_handler cb event
    modify (λ g. record g { session = record_result key digest status reply g.session })
    ack_if_asked frame status reply

  unfoldable pub act_on : Callbacks App → Frame → UiAction → DedupResult → Exec (Gateway App) Unit
  unfolding execute_action
  act_on cb frame event (replay status reply) = ack_if_asked frame status reply
  act_on cb frame event conflict = ack_if_asked frame Commands.state_conflict []
  act_on cb frame event in_flight = ack_if_asked frame Commands.busy []
  act_on cb frame event (execute key digest) = execute_action cb frame event key digest
  -- Not reached (`check_action_own_boot` of Gateway/Dispatch.antt): `check_action` is given the boot
  -- of the session itself. The code has no test for it and would go on with the key `None`.
  act_on cb frame event new_session_seen = raise type_error

  module _ (sha256_hex : Bytes → Digest) where
    -- The part of `_handle_ui_action` behind `is_active`, whose session has the boot `boot_id`.
    unfoldable pub handle_active : Callbacks App → Frame → UiAction → ℕ → Exec (Gateway App) Unit
    unfolding act_on
    handle_active cb frame event boot_id g =
        let (dedup, session) =
          check_action sha256_hex boot_id frame.sequence frame.command frame.payload g.session in
        act_on cb frame event dedup (record g { session = session })

    unfoldable pub handle_ui_action : Callbacks App → Frame → Exec (Gateway App) Unit
    unfolding handle_active
    handle_ui_action cb frame = elim (parse_ui_action frame.payload) [
      | ok a ↦ do
        boot ← gets (λ g. g.session.boot_id)
        let event : UiAction = record {
          action = a.action;
          object_type = a.object_type;
          object_id = a.object_id;
          value = a.value;
          text = a.text;
        }
        elim boot [
          | none ↦ ack_if_asked frame Commands.not_ready []
          | some boot_id ↦ handle_active cb frame event boot_id
        ]
      | err e ↦ elim e [
        | protocol_error ↦ ack_if_asked frame Commands.invalid_length []
        | other ↦ raise other
      ]
    ]

    -- `now_ms` is the monotonic time that a page event is stamped with.
    unfoldable pub dispatch : Callbacks App → ℕ → Frame → Exec (Gateway App) Unit
    dispatch cb now_ms frame =
        if has_flag frame.flags Commands.flag_response
        then modify (λ g. record g { pending = set_result frame.sequence frame g.pending })
        else if frame.command == Commands.hello
        then dispatch_hello cb frame
        else if frame.command == Commands.ui_action
        then handle_ui_action cb frame
        else if frame.command == Commands.page_event
        then dispatch_page_event cb now_ms frame
        else ack_if_asked frame Commands.ok []

    -- The `try` block of the read loop on one `frame_bytes`: `except Exception: pass`.
    unfoldable pub receive : Callbacks App → ℕ → Bytes → Gateway App → Gateway App
    receive cb now_ms frame_bytes g = elim (unstuffed frame_bytes) [
      | ok frame ↦ (dispatch cb now_ms frame g).1
      | err e ↦ g
    ]
