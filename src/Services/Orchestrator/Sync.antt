-- ===== src/Services/Orchestrator/Sync.antt =====
-- What is sent to the panel: the core state and the full synchronisation.
pub mod Waits
pub mod Snapshot
use nightshift_opi.Prelude.{ℕ, Option, none, some, List, [], ◌∷◌, Result}
use nightshift_opi.Prelude.Bytes.{Bytes}
use nightshift_opi.Prelude.Exec.{Exec, lift, gets, modify, done, continue, ◌>>=◌, ◌>>◌}
use nightshift_opi.Domain.Commands
use nightshift_opi.Domain.Models.{DashboardState, SystemState}
use nightshift_opi.Services.Tasks
use nightshift_opi.Services.Tasks.{Task}
use nightshift_opi.Services.Notices
use nightshift_opi.Services.Notices.{Notice}
use nightshift_opi.Services.Orchestrator.{Orchestrator, Environment, new_dashboard}
use nightshift_opi.Services.Orchestrator.Payload

unfoldable pub recent_tasks : Orchestrator → List Task
recent_tasks o = elim o.db [ none ↦ [] | some db ↦ Tasks.list_recent 16 db.tasks ]

unfoldable pub latest_notice : ℕ → Orchestrator → Option Notice
latest_notice now_ms o = elim o.db [
  | none ↦ none
  | some db ↦ Notices.latest_active now_ms db.notices
]

unfoldable pub current_dashboard : Orchestrator → DashboardState
current_dashboard o = elim o.db [
  | none ↦ new_dashboard o.state.revision
  | some db ↦ Tasks.dashboard o.state.revision db.tasks
]

module _ (env : Environment) where
  -- `await self._uart.send(command, payload)`
  unfoldable pub transmit : ℕ → (Orchestrator → Result Bytes) → Exec Orchestrator Unit
  transmit command payload = do bytes ← (λ o. (payload o, o)); env.send command bytes

  unfoldable pub send_core_state : Exec Orchestrator Unit
  send_core_state = do
    transmit Commands.mode_set Payload.mode
    transmit Commands.attention_set Payload.attention
    transmit Commands.work_state_set Payload.work_state

  -- `for task in tasks`
  unfoldable pub send_items : List Task → Exec Orchestrator Unit
  send_items [] = done
  send_items (t ∷ tasks) = do transmit Commands.task_item (Payload.task t); send_items tasks

  -- The `try` block of `_full_sync_locked`, from the first `send` on.
  unfoldable pub send_snapshot : List Task → Option Notice → Exec Orchestrator Unit
  send_snapshot tasks shown = do
    transmit Commands.state_sync_begin Payload.sync_begin
    send_core_state
    transmit Commands.dashboard_set Payload.dashboard
    transmit Commands.notice_show (Payload.notice shown)
    transmit Commands.task_list_begin (Payload.list_begin tasks)
    send_items tasks
    transmit Commands.task_list_end Payload.list_end
    transmit Commands.state_sync_end Payload.sync_end

  -- The exceptions of the `try` block are logged. The lock is held all the while.
  unfoldable pub full_sync : ℕ → Orchestrator → Orchestrator
  full_sync now_ms o =
      let tasks = recent_tasks o in
      let shown = latest_notice now_ms o in
      let o' = (send_snapshot tasks shown (record o { dashboard = current_dashboard o })).1 in
      env.state_listeners o'.state o'

  unfoldable pub publish_state : Orchestrator → Orchestrator
  publish_state o = let o' = (send_core_state o).1 in env.state_listeners o'.state o'
