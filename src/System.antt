-- ===== src/System.antt =====
-- The gateway with the orchestrator behind it (nightshift/services/orchestrator.py, `__init__`).
pub mod Serial
pub mod World
pub mod Boot
use nightshift_opi.Prelude.{
  ℕ, suc, ◌≡◌, refl, ap, ◌∙◌, false, none, some, [], ◌∷◌, ◌++◌, Result, ok, arith,
}
use nightshift_opi.Prelude.Bytes.{Bytes}
use nightshift_opi.Domain.Commands
use nightshift_opi.Domain.Events.{UiAction}
use nightshift_opi.Domain.Models.{SystemState}
use nightshift_opi.Uart.Frame.{Frame}
use nightshift_opi.Uart.Parse.{UiActionPayload, parse_ui_action}
use nightshift_opi.Uart.Session.{Digest, lookup, member}
use nightshift_opi.Uart.Gateway.{Callbacks, Gateway, handle_ui_action, ack_if_asked}
use nightshift_opi.Uart.Gateway.Dispatch.{action_key, to_event, handled_once}
use nightshift_opi.Services.Tasks
use nightshift_opi.Services.Tasks.{Task, pending}
use nightshift_opi.Services.Tasks.Transitions
use nightshift_opi.Services.Confirmations
use nightshift_opi.Services.Confirmations.{Database, ConfirmationResult, confirmed}
use nightshift_opi.Services.Confirmations.Decided.{decided_once}
use nightshift_opi.Services.Orchestrator.{Orchestrator, Environment}
use nightshift_opi.Services.Orchestrator.Sync.{full_sync}
use nightshift_opi.Services.Orchestrator.Sync.Waits.{full_sync-Keeps}
use nightshift_opi.Services.Orchestrator.Events.{on_event}
use nightshift_opi.Services.Orchestrator.Actions

-- The orchestrator as the gateway's callbacks, with the times that its methods read. What
-- `_on_event` and `_on_panel_hello` leave to a task does not run here.
unfoldable pub wiring : Environment → ℕ → ℕ → Callbacks Orchestrator
wiring env now_ms sync_ms = record {
  on_event = λ event o. (on_event event now_ms o).1;
  on_panel_hello = λ o. o;
  on_peer_boot_id_change = λ previous boot_id o. o;
  ui_action_handler = some (Actions.handle_ui_action env now_ms sync_ms);
}

-- What runs during the waits leaves the database alone.
pub record KeepsDatabase (env : Environment) : Type 0 where
  pub sends :
      (command : ℕ) (payload : Bytes) (o : Orchestrator) → (env.send command payload o).1.db ≡ o.db
  pub states : (s : SystemState) (o : Orchestrator) → (env.state_listeners s o).db ≡ o.db

module _ (env : Environment) (keeps : KeepsDatabase env) where
  full_sync-db : (now_ms : ℕ) (o : Orchestrator) → (full_sync env now_ms o).db ≡ o.db
  full_sync-db now_ms o =
      full_sync-Keeps (λ o p. p.db ≡ o.db) (λ o. refl) (λ o p q e f. f ∙ e) env keeps.sends
        keeps.states now_ms o refl

  update_confirmation_count-db :
      (count now_ms sync_ms : ℕ) (o : Orchestrator)
      → (Actions.update_confirmation_count env count now_ms sync_ms o).db ≡ o.db
  unfolding Actions.update_confirmation_count
  update_confirmation_count-db count now_ms sync_ms o = full_sync-db sync_ms _

  -- A confirmation that the service accepts is answered OK.
  confirm_action :
      (event : UiAction) (now_ms sync_ms : ℕ) (o : Orchestrator) (db db' : Database)
      (result : ConfirmationResult)
      → event.action ≡ Commands.action_confirm
      → o.db ≡ some db
      → Confirmations.confirm event.object_type event.object_id now_ms db ≡ (ok result, db')
      → Actions.handle_ui_action env now_ms sync_ms event o ≡ (
        ok (Commands.ok, []),
        Actions.update_confirmation_count env result.pending_count now_ms sync_ms
            (record o { db = some db' }),
      )
  unfolding Actions.handle_ui_action Actions.handle_decision Actions.settle
  confirm_action event now_ms sync_ms o db db' result a d c = ground arith

  -- The panel sends the frame of a confirmation twice. The first frame is carried out: the pending
  -- task is confirmed and recorded once. The second finds the result in the session and is answered
  -- with it, and the database is the one that the first left. It is assumed of what runs during the
  -- waits that it leaves the database alone.
  pub confirmed_once :
      (sha256_hex : Bytes → Digest) (now_ms sync_ms boot_id : ℕ) (frame : Frame)
      (a : UiActionPayload) (g : Gateway Orchestrator) (db : Database) (t : Task)
      → parse_ui_action frame.payload ≡ ok a
      → a.action ≡ Commands.action_confirm
      → a.object_type ≡ Commands.obj_task
      → g.session.boot_id ≡ some boot_id
      → lookup (action_key boot_id frame) g.session.dedup_cache ≡ none
      → member (action_key boot_id frame) g.session.in_flight ≡ false
      → g.app.db ≡ some db
      → Transitions.IsValid db.tasks
      → Tasks.get a.object_id db.tasks ≡ some t
      → t.state ≡ pending
      → let handle = handle_ui_action sha256_hex (wiring env now_ms sync_ms) frame in
        let db1 = (Confirmations.confirm Commands.obj_task a.object_id now_ms db).1 in
        let g1 = (handle g).1 in
        (g1.app.db ≡ some db1)
        × (Tasks.count_pending db.tasks ≡ suc (Tasks.count_pending db1.tasks))
        × (db1.confirmations
            ≡ db.confirmations
              ++ record {
                object_type = Commands.obj_task;
                object_id = a.object_id;
                decision = confirmed;
                decided_at_ms = now_ms;
              }
                ∷ [])
        × (handle g1 ≡ ack_if_asked frame Commands.ok [] g1)
        × ((handle g1).1.app.db ≡ some db1)
  unfolding wiring on_event
  confirmed_once sha256_hex now_ms sync_ms boot_id frame a g db t p ac ty b l m d v found s =
      let once = decided_once a.object_id now_ms now_ms db t v found s in
      let db1 = (Confirmations.confirm Commands.obj_task a.object_id now_ms db).1 in
      let result : ConfirmationResult = record {
        object_type = Commands.obj_task;
        object_id = a.object_id;
        decision = confirmed;
        pending_count = Tasks.count_pending db1.tasks;
      } in
      let confirms : Confirmations.confirm a.object_type a.object_id now_ms db ≡ (ok result, db1) =
        ap (λ (k : ℕ). Confirmations.confirm k a.object_id now_ms db) ty
        ∙ ap (λ (r : Result ConfirmationResult). (r, db1)) once.0 in
      let app =
        Actions.update_confirmation_count env result.pending_count now_ms sync_ms
          (record g.app { db = some db1 }) in
      let (first, again, second, session) =
        handled_once sha256_hex (wiring env now_ms sync_ms) frame a boot_id Commands.ok [] g
          (Actions.handle_ui_action env now_ms sync_ms) app p b l m refl
          (confirm_action (to_event a) now_ms sync_ms g.app db db1 result ac d confirms) in
      let kept : app.db ≡ some db1 = update_confirmation_count-db _ now_ms sync_ms _ in
      (
        ap (λ (o : Orchestrator). o.db) first ∙ kept,
        once.1,
        once.4,
        again,
        ap (λ (o : Orchestrator). o.db) second ∙ kept,
      )
