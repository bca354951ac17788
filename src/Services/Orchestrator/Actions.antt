-- ===== src/Services/Orchestrator/Actions.antt =====
-- The actions of the user (`_handle_ui_action` and what it calls).
use nightshift_opi.Prelude.{
  ℕ, Bool, true, false, Option, none, some, [], ◌==◌, ltb, if◌then◌else◌, Result, ok, err,
  confirmation_error,
}
use nightshift_opi.Prelude.Bytes.{Bytes}
use nightshift_opi.Prelude.Exec.{Exec}
use nightshift_opi.Domain.Commands
use nightshift_opi.Domain.Events.{UiAction}
use nightshift_opi.Domain.Models.{SystemState, WorkState, evolve, no_changes}
use nightshift_opi.Services.Executor
use nightshift_opi.Services.Executor.{ExecutorService, Method}
use nightshift_opi.Services.Tasks
use nightshift_opi.Services.Tasks.{Task}
use nightshift_opi.Services.Notices
use nightshift_opi.Services.Notices.{Notice}
use nightshift_opi.Services.Confirmations
use nightshift_opi.Services.Confirmations.{Database, ConfirmationResult}
use nightshift_opi.Services.Orchestrator.{Orchestrator, Environment}
use nightshift_opi.Services.Orchestrator.Sync.{full_sync, publish_state}

-- The state that `_update_confirmation_count` evolves to.
unfoldable pub counted : ℕ → ℕ → SystemState → SystemState
counted pending_count now_ms s = evolve s (record no_changes {
  confirmation_count = some pending_count;
  attention = some (record s.attention { need_confirm = ltb 0 pending_count });
  updated_at_ms = some now_ms;
})

abbrev pub Reply : Type 0
Reply = ℕ × Bytes

module _ (env : Environment) where
  -- What is done with the result of the call; the executor is not changed by a call that fails.
  unfoldable pub driven : Result WorkState → ℕ → Orchestrator → Orchestrator
  driven (err e) now_ms o = o
  driven (ok new_state) now_ms o = publish_state env (record o {
    state =
        evolve o.state
          (record no_changes { work_state = some new_state; updated_at_ms = some now_ms });
  })

  -- `pause_executor` and `resume_executor`, which differ in the method that they call
  unfoldable pub drive_executor : Method → ℕ → Orchestrator → Orchestrator
  drive_executor method now_ms o =
      let (r, executor) = Executor.call method o.executor in
      driven r now_ms (record o { executor = executor })

  abbrev pub pause_executor : ℕ → Orchestrator → Orchestrator
  pause_executor = drive_executor Method.pause

  abbrev pub resume_executor : ℕ → Orchestrator → Orchestrator
  resume_executor = drive_executor Method.resume

  -- `sync_ms` is the time that the synchronisation at the end reads.
  unfoldable pub update_confirmation_count : ℕ → ℕ → ℕ → Orchestrator → Orchestrator
  update_confirmation_count pending_count now_ms sync_ms o =
      full_sync env sync_ms (record o { state = counted pending_count now_ms o.state })

  -- What is done with the notice that `dismiss` returns.
  unfoldable pub dismissed : Option Notice → ℕ → ℕ → Orchestrator → Bool × Orchestrator
  dismissed none now_ms sync_ms o = (false, o)
  dismissed (some _) now_ms sync_ms o = (
    true,
    full_sync env sync_ms
        (record o { state = evolve o.state (record no_changes { updated_at_ms = some now_ms }) }),
  )

  unfoldable pub dismiss_notice : ℕ → ℕ → ℕ → Orchestrator → Bool × Orchestrator
  dismiss_notice notice_id now_ms sync_ms o = elim o.db [
    | none ↦ (false, o)
    | some db ↦
        let (notice, notices) = Notices.dismiss notice_id now_ms db.notices in
        dismissed notice now_ms sync_ms (record o { db = some (record db { notices = notices }) })
  ]

  -- The lines behind the call of the confirmation service, its `except` clause included.
  unfoldable pub settle : Result ConfirmationResult → ℕ → ℕ → Exec Orchestrator Reply
  settle (ok result) now_ms sync_ms o =
      (ok (Commands.ok, []), update_confirmation_count result.pending_count now_ms sync_ms o)
  settle (err confirmation_error) now_ms sync_ms o = (ok (Commands.not_found, []), o)
  settle (err e) now_ms sync_ms o = (err e, o)

  -- `_handle_confirm` and `_handle_reject`, which differ in the method that they call
  unfoldable pub handle_decision :
      (ℕ → ℕ → ℕ → Exec Database ConfirmationResult) → UiAction → ℕ → ℕ → Exec Orchestrator Reply
  handle_decision decide event now_ms sync_ms o = elim o.db [
    | none ↦ (ok (Commands.not_ready, []), o)
    | some db ↦
        let (r, db') = decide event.object_type event.object_id now_ms db in
        settle r now_ms sync_ms (record o { db = some db' })
  ]

  -- The lines behind the call of `retry`.
  unfoldable pub retried : Option Task → ℕ → ℕ → ℕ → Exec Orchestrator Reply
  retried none pending_count now_ms sync_ms o = (ok (Commands.not_found, []), o)
  retried (some _) pending_count now_ms sync_ms o =
      (ok (Commands.ok, []), update_confirmation_count pending_count now_ms sync_ms o)

  unfoldable pub handle_retry : UiAction → ℕ → ℕ → Exec Orchestrator Reply
  handle_retry event now_ms sync_ms o = elim o.db [
    | none ↦ (ok (Commands.not_ready, []), o)
    | some db ↦
        let (task, tasks) = Tasks.retry event.object_id now_ms db.tasks in
        retried task (Tasks.count_pending tasks) now_ms sync_ms
          (record o { db = some (record db { tasks = tasks }) })
  ]

  unfoldable pub handle_dismiss_notice : UiAction → ℕ → ℕ → Exec Orchestrator Reply
  handle_dismiss_notice event now_ms sync_ms o = elim o.db [
    | none ↦ (ok (Commands.not_ready, []), o)
    | some _ ↦
        let (is_dismissed, o') = dismiss_notice event.object_id now_ms sync_ms o in
        (ok (if is_dismissed then Commands.ok else Commands.not_found, []), o')
  ]

  unfoldable pub handle_ui_action : ℕ → ℕ → UiAction → Exec Orchestrator Reply
  handle_ui_action now_ms sync_ms event o =
      if event.action == Commands.action_pause_execution
      then (ok (Commands.ok, []), pause_executor now_ms o)
      else if event.action == Commands.action_resume_execution
      then (ok (Commands.ok, []), resume_executor now_ms o)
      else if event.action == Commands.action_request_resync
      then (ok (Commands.ok, []), full_sync env sync_ms o)
      else if event.action == Commands.action_confirm
      then handle_decision Confirmations.confirm event now_ms sync_ms o
      else if event.action == Commands.action_reject
      then handle_decision Confirmations.reject event now_ms sync_ms o
      else if event.action == Commands.action_retry
      then handle_retry event now_ms sync_ms o
      else if event.action == Commands.action_dismiss_notice
      then handle_dismiss_notice event now_ms sync_ms o
      else (ok (Commands.ok, []), o)
