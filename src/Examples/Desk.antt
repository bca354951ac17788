-- ===== src/Examples/Desk.antt =====
-- The orchestrator, alone and behind the gateway, at concrete inputs.
use nightshift_opi.Prelude.{false, suc, ◌≡◌, refl, true, none, some, List, [], ◌∷◌, ok, arith}
use nightshift_opi.Prelude.Bytes.{Bytes}
use nightshift_opi.Prelude.Int.{pos, to_signed}
use nightshift_opi.Domain.Commands
use nightshift_opi.Domain.Events.{UiAction, panel_connectivity_changed}
use nightshift_opi.Uart.Frame.{Frame}
use nightshift_opi.Uart.Text.{decode_string, utf8_from}
use nightshift_opi.Uart.Parse.{UiActionPayload, parse_ui_action}
use nightshift_opi.Uart.Session.{Digest, new_session, lookup, member}
use nightshift_opi.Uart.Gateway.{Gateway, handle_ui_action, ack_if_asked}
use nightshift_opi.Services.Executor.{Method}
use nightshift_opi.Services.Tasks
use nightshift_opi.Services.Tasks.{Task, TaskTable, pending}
use nightshift_opi.Services.Tasks.Transitions.{IsValid, Distinct}
use nightshift_opi.Services.Notices.{no_notices}
use nightshift_opi.Services.Confirmations
use nightshift_opi.Services.Confirmations.{Database, confirmed}
use nightshift_opi.Services.Orchestrator.{Orchestrator, Environment, init}
use nightshift_opi.Services.Orchestrator.Invariant.{Later-refl, Relies}
use nightshift_opi.Services.Orchestrator.Invariant.Calls.{
  Call, receives, acts, drives, synchronises,
}
use nightshift_opi.Services.Orchestrator.Sync.{send_snapshot}
use nightshift_opi.Services.Orchestrator.Sync.Snapshot.{snapshot, send_all, send_snapshot-snapshot}
use nightshift_opi.Services.Orchestrator.Events.{on_event}
use nightshift_opi.Services.Orchestrator.Events.Ownership.{Owned, Announced, on_event-Owned}
use nightshift_opi.System.{wiring, KeepsDatabase, confirmed_once}

-- A panel that answers everything, and no other task.
abbrev pub quiet : Environment
quiet = record {
  send = λ command payload o. (ok tt, o);
  state_listeners = λ s o. o;
  event_listeners = λ e o. o;
}

pub quiet-Relies : Relies quiet
quiet-Relies = record {
  sends = λ command payload o. Later-refl o;
  states = λ s o. Later-refl o;
  events = λ e o. Later-refl o;
}

quiet_keeps : KeepsDatabase quiet
quiet_keeps = record { sends = λ command payload o. refl; states = λ s o. refl }

abbrev pub pending_task : Task
pending_task = record {
  id = 1;
  quadrant = pos 2;
  state = pending;
  flags = 0;
  title = 0x41 ∷ [];
  source = [];
  created_at_ms = 5;
  updated_at_ms = 5;
}

abbrev pub one_row : TaskTable
one_row = record { rows = pending_task ∷ []; last_id = 1 }

pub one_row-IsValid : IsValid one_row
unfolding Distinct
one_row-IsValid = record { distinct = (tt, tt); below = (omega arith, tt) }

abbrev pub one_open : Database
one_open = record { tasks = one_row; notices = no_notices; confirmations = [] }

abbrev confirmation : UiAction
confirmation = record {
  action = Commands.action_confirm;
  object_type = Commands.obj_task;
  object_id = 1;
  value = pos 0;
  text = [];
}

abbrev day : List Call
day =
    receives (panel_connectivity_changed true) 1
    ∷ acts confirmation 2 3
    ∷ drives Method.pause 4
    ∷ synchronises 5
    ∷ []

send_snapshot-snapshot_example :
    send_snapshot quiet (pending_task ∷ []) none (init (some one_open) none none 0)
    ≡ send_all quiet
        (snapshot (pending_task ∷ []) none (init (some one_open) none none 0))
        (init (some one_open) none none 0)
send_snapshot-snapshot_example =
    send_snapshot-snapshot quiet (λ command payload o. refl) (pending_task ∷ []) none
      (init (some one_open) none none 0)

abbrev pub no_hash : Bytes → Digest
no_hash payload = payload

abbrev confirm_frame : Frame
confirm_frame = record {
  version = 1;
  flags = 1;
  sequence = 5;
  command = Commands.ui_action;
  payload = 1 ∷ 0 ∷ 1 ∷ 1 ∷ 0 ∷ 0 ∷ 0 ∷ 0 ∷ 0 ∷ 0 ∷ 0 ∷ 0 ∷ 0 ∷ [];
}

abbrev confirm_payload : UiActionPayload
confirm_payload = record { action = 1; object_type = 1; object_id = 1; value = pos 0; text = [] }

abbrev pub panel : Gateway Orchestrator
panel = record {
  sequence = 0;
  boot_id = 1;
  session = record new_session { boot_id = some 7 };
  pending = [];
  last_applied_revision = 0;
  panel_online = true;
  connected = true;
  running = true;
  has_writer = true;
  written = [];
  app = init (some one_open) none none 0;
}

confirmed_once_example :
    let handle = handle_ui_action no_hash (wiring quiet 2 3) confirm_frame in
    let db1 = (Confirmations.confirm Commands.obj_task 1 2 one_open).1 in
    let g1 = (handle panel).1 in
    (g1.app.db ≡ some db1)
    × (1 ≡ suc (Tasks.count_pending db1.tasks))
    × (db1.confirmations
        ≡ record {
          object_type = Commands.obj_task;
          object_id = 1;
          decision = confirmed;
          decided_at_ms = 2;
        }
          ∷ [])
    × (handle g1 ≡ ack_if_asked confirm_frame Commands.ok [] g1)
    × ((handle g1).1.app.db ≡ some db1)
unfolding init parse_ui_action decode_string utf8_from to_signed lookup member Tasks.find
    Tasks.count_in Tasks.state_eq
confirmed_once_example =
    confirmed_once quiet quiet_keeps no_hash 2 3 7 confirm_frame confirm_payload panel one_open
      pending_task refl refl refl refl refl refl refl one_row-IsValid refl refl

on_event-Owned_example :
    let (task, p) =
      on_event (panel_connectivity_changed false) 9 (init (some one_open) none none 0) in
    Owned (init (some one_open) none none 0) p × Announced task (init (some one_open) none none 0) p
on_event-Owned_example =
    on_event-Owned (panel_connectivity_changed false) 9 (init (some one_open) none none 0)

-- A heartbeat of the panel, as it arrives between two delimiters.
abbrev pub heartbeat_bytes : Bytes
heartbeat_bytes = 6 ∷ 84 ∷ 53 ∷ 1 ∷ 1 ∷ 1 ∷ 2 ∷ 2 ∷ 1 ∷ 1 ∷ 3 ∷ 52 ∷ 126 ∷ []
