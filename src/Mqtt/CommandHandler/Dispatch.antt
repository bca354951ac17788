-- ===== src/Mqtt/CommandHandler/Dispatch.antt =====
-- What a command does to the orchestrator (`_dispatch` and the four handlers that it calls).
use Prim.Native.String.{String}
use text.Mathlib.Text.{◌==◌ as str_eq}
use nightshift_opi.Prelude.{
  ℕ, ◌^◌, Bool, true, false, Option, none, some, ltb, if◌then◌else◌, Result, ok, err,
  confirmation_error, overflow_error,
}
use nightshift_opi.Prelude.Exec.{Exec}
use nightshift_opi.Prelude.Int.{ℤ, pos, negsuc}
use nightshift_opi.Domain.Commands
use nightshift_opi.Domain.Models.{WorkState}
use nightshift_opi.Services.Tasks
use nightshift_opi.Services.Tasks.{Task}
use nightshift_opi.Services.Confirmations
use nightshift_opi.Services.Confirmations.{Database, ConfirmationResult}
use nightshift_opi.Services.Orchestrator.{Orchestrator, Environment}
use nightshift_opi.Services.Orchestrator.Sync.{full_sync}
use nightshift_opi.Services.Orchestrator.Actions.{
  pause_executor, resume_executor, update_confirmation_count, dismiss_notice,
}
use nightshift_opi.Mqtt.Json.{Fields, json_int, empty_dict, field, get}
use nightshift_opi.Mqtt.Schemas.{CommandEnvelope}

-- `(ok, code, message, data)` without the message; `content` is the data
pub record Answer : Type 0 where
  pub ok : Bool
  pub code : String
  pub content : Fields

abbrev pub refused : String → Answer
refused code = record { ok = false; code = code; content = empty_dict }

abbrev pub succeeded : Fields → Answer
succeeded content = record { ok = true; code = "ok"; content = content }

-- The clocks that one call of `handle` reads: `now_ms`, `decided_at_ms` and `replied_at_ms` are its
-- own, `executed_at_ms` and `sync_ms` the orchestrator's.
pub record Times : Type 0 where
  pub now_ms : ℕ
  pub decided_at_ms : ℕ
  pub executed_at_ms : ℕ
  pub sync_ms : ℕ
  pub replied_at_ms : ℕ

-- `type(task_id) is not int`
unfoldable pub int_argument : String → Fields → Option ℤ
int_argument key args = elim (get key args) [ some (json_int z) ↦ some z | _ ↦ none ]

-- An id as a parameter of a statement: SQLite has no row with a negative id, and an integer beyond
-- 64 bits raises an OverflowError.
unfoldable pub row_id : ℤ → Result (Option ℕ)
row_id (pos n) = if ltb n (2 ^ 63) then ok (some n) else err overflow_error
row_id (negsuc n) = if ltb n (2 ^ 63) then ok none else err overflow_error

abbrev pub count_field : ℕ → Fields → Fields
count_field pending_count rest = field "pending_count" (json_int (pos pending_count)) rest

abbrev pub Handled : Type 0
Handled = Result Answer × Orchestrator

unfoldable pub is_running : WorkState → Bool
is_running WorkState.running = true
is_running _ = false

unfoldable pub is_paused : WorkState → Bool
is_paused WorkState.paused = true
is_paused _ = false

module _ (env : Environment) where
  -- The lines behind the call of the confirmation service, its `except` clause included.
  unfoldable pub decided : Result ConfirmationResult → Times → Orchestrator → Handled
  decided (ok result) times o = (
    ok (succeeded (count_field result.pending_count empty_dict)),
    update_confirmation_count env result.pending_count times.decided_at_ms times.sync_ms o,
  )
  decided (err confirmation_error) times o = (ok (refused "not_found"), o)
  decided (err error) times o = (err error, o)

  -- A statement with the id, where the database is open. An id that no row has is not found.
  unfoldable pub with_row :
      Result (Option ℕ) → (ℕ → Orchestrator → Handled) → Orchestrator → Handled
  with_row (err error) act o = (err error, o)
  with_row (ok none) act o = (ok (refused "not_found"), o)
  with_row (ok (some n)) act o = act n o

  -- The two tests at the head of the handlers.
  unfoldable pub with_argument :
      String → (Database → ℕ → Orchestrator → Handled) → CommandEnvelope → Orchestrator → Handled
  with_argument key act e o = elim o.db [
    | none ↦ (ok (refused "not_ready"), o)
    | some db ↦ elim (int_argument key e.args) [
      | none ↦ (ok (refused "invalid_argument"), o)
      | some z ↦ with_row (row_id z) (act db) o
    ]
  ]

  -- `_handle_task_confirm` and `_handle_task_reject`, which differ in the method that they call
  unfoldable pub decide_task :
      (ℕ → ℕ → ℕ → Exec Database ConfirmationResult) → Times → Database → ℕ → Orchestrator → Handled
  decide_task decide times db task_id o =
      let (r, db') = decide Commands.obj_task task_id times.decided_at_ms db in
      decided r times (record o { db = some db' })

  -- The lines behind the call of `retry`.
  unfoldable pub retried : Option Task → ℕ → Times → Orchestrator → Handled
  retried none pending_count times o = (ok (refused "not_found"), o)
  retried (some task) pending_count times o = (
    ok (
        succeeded
          (field "task_id" (json_int (pos task.id)) (count_field pending_count empty_dict))),
    update_confirmation_count env pending_count times.decided_at_ms times.sync_ms o,
  )

  unfoldable pub retry_task : Times → Database → ℕ → Orchestrator → Handled
  retry_task times db task_id o =
      let (task, tasks) = Tasks.retry task_id times.decided_at_ms db.tasks in
      retried task (Tasks.count_pending tasks) times
        (record o { db = some (record db { tasks = tasks }) })

  unfoldable pub dismiss : Times → Database → ℕ → Orchestrator → Handled
  dismiss times db notice_id o =
      let (is_dismissed, o') = dismiss_notice env notice_id times.decided_at_ms times.sync_ms o in
      (
        ok (
            if is_dismissed
            then succeeded (field "notice_id" (json_int (pos notice_id)) empty_dict)
            else refused "not_found"),
        o',
      )

  -- `_dispatch`; the last branch is for a command that the whitelist has and the code has not.
  unfoldable pub dispatch : CommandEnvelope → Times → Orchestrator → Handled
  dispatch e times o =
      if str_eq e.command "executor.pause"
      then (if is_running o.state.work_state
          then (ok (succeeded empty_dict), pause_executor env times.executed_at_ms o)
          else (ok (refused "state_conflict"), o))
      else if str_eq e.command "executor.resume"
      then (if is_paused o.state.work_state
          then (ok (succeeded empty_dict), resume_executor env times.executed_at_ms o)
          else (ok (refused "state_conflict"), o))
      else if str_eq e.command "system.resync_panel"
      then (ok (succeeded empty_dict), full_sync env times.sync_ms o)
      else if str_eq e.command "task.confirm"
      then with_argument "task_id" (decide_task Confirmations.confirm times) e o
      else if str_eq e.command "task.reject"
      then with_argument "task_id" (decide_task Confirmations.reject times) e o
      else if str_eq e.command "task.retry"
      then with_argument "task_id" (retry_task times) e o
      else if str_eq e.command "notice.dismiss"
      then with_argument "notice_id" (dismiss times) e o
      else (ok (refused "invalid_argument"), o)
