-- ===== src/Mqtt/CommandHandler/Equivalence.antt =====
-- The commands and the actions of the panel that stand for the same thing.
use Prim.Native.String.{String}
use nightshift_opi.Prelude.{
  ℕ, ◌^◌, ◌≡◌, inl, inr, refl, sym, ap, ◌∙◌, true, Option, Option-cases, none, some, Result, ltb,
  arith,
}
use nightshift_opi.Prelude.Exec.{Exec}
use nightshift_opi.Prelude.Int.{pos}
use nightshift_opi.Domain.Commands
use nightshift_opi.Domain.Events.{UiAction}
use nightshift_opi.Services.Tasks
use nightshift_opi.Services.Tasks.{Task}
use nightshift_opi.Services.Confirmations
use nightshift_opi.Services.Confirmations.{Database, ConfirmationResult}
use nightshift_opi.Services.Orchestrator.{Orchestrator, Environment}
use nightshift_opi.Services.Orchestrator.Actions
use nightshift_opi.Services.Orchestrator.Actions.{
  handle_decision, handle_retry, handle_dismiss_notice, handle_ui_action, dismiss_notice, settle,
}
use nightshift_opi.Mqtt.Schemas.{CommandEnvelope}
use nightshift_opi.Mqtt.CommandHandler.Dispatch.{
  Handled, Times, decided, with_row, with_argument, decide_task, retried, retry_task, dismiss,
  int_argument, row_id, dispatch,
}

-- What a user can do with a row of the database, from the panel and by MQTT.
pub data Verb : Type 0 where
  confirm reject retry clear : Verb

abbrev pub command_of : Verb → String
command_of confirm = "task.confirm"
command_of reject = "task.reject"
command_of retry = "task.retry"
command_of clear = "notice.dismiss"

abbrev pub key_of : Verb → String
key_of clear = "notice_id"
key_of _ = "task_id"

abbrev pub action_of : Verb → ℕ
action_of confirm = Commands.action_confirm
action_of reject = Commands.action_reject
action_of retry = Commands.action_retry
action_of clear = Commands.action_dismiss_notice

module _ (env : Environment) where
  settle-decided :
      (r : Result ConfirmationResult) (times : Times) (o : Orchestrator)
      → (decided env r times o).1 ≡ (settle env r times.decided_at_ms times.sync_ms o).1
  unfolding decided settle
  settle-decided r times o = ground arith

  retried-retried :
      (task : Option Task) (count : ℕ) (times : Times) (o : Orchestrator)
      → (retried env task count times o).1
        ≡ (Actions.retried env task count times.decided_at_ms times.sync_ms o).1
  unfolding retried Actions.retried
  retried-retried none count times o = refl
  retried-retried (some task) count times o = refl

  -- The act of a verb on a row.
  abbrev act_of : Verb → Times → Database → ℕ → Orchestrator → Handled
  act_of confirm times = decide_task env Confirmations.confirm times
  act_of reject times = decide_task env Confirmations.reject times
  act_of retry times = retry_task env times
  act_of clear times = dismiss env times

  dispatch-act :
      (v : Verb) (e : CommandEnvelope) (times : Times) (o : Orchestrator)
      → e.command ≡ command_of v
      → dispatch env e times o ≡ with_argument env (key_of v) (act_of v times) e o
  unfolding dispatch
  dispatch-act confirm e times o c = rw c refl
  dispatch-act reject e times o c = rw c refl
  dispatch-act retry e times o c = rw c refl
  dispatch-act clear e times o c = rw c refl

  with_argument-act :
      (key : String) (act : Database → ℕ → Orchestrator → Handled) (e : CommandEnvelope)
      (o : Orchestrator) (db : Database) (n : ℕ)
      → o.db ≡ some db
      → int_argument key e.args ≡ some (pos n)
      → ltb n (2 ^ 63) ≡ true
      → with_argument env key act e o ≡ act db n o
  unfolding with_argument with_row row_id
  with_argument-act key act e o db n d given small = ground arith

  -- The handler of a verb on the side of the panel.
  abbrev panel_act : Verb → UiAction → ℕ → ℕ → Exec Orchestrator Actions.Reply
  panel_act confirm event now_ms sync_ms =
      handle_decision env Confirmations.confirm event now_ms sync_ms
  panel_act reject event now_ms sync_ms =
      handle_decision env Confirmations.reject event now_ms sync_ms
  panel_act retry event now_ms sync_ms = handle_retry env event now_ms sync_ms
  panel_act clear event now_ms sync_ms = handle_dismiss_notice env event now_ms sync_ms

  handle_ui_action-act :
      (v : Verb) (event : UiAction) (now_ms sync_ms : ℕ) (o : Orchestrator)
      → event.action ≡ action_of v
      → handle_ui_action env now_ms sync_ms event o ≡ panel_act v event now_ms sync_ms o
  unfolding handle_ui_action
  handle_ui_action-act confirm event now_ms sync_ms o a = ground arith
  handle_ui_action-act reject event now_ms sync_ms o a = ground arith
  handle_ui_action-act retry event now_ms sync_ms o a = ground arith
  handle_ui_action-act clear event now_ms sync_ms o a = ground arith

  closed_act :
      (v : Verb) (e : CommandEnvelope) (event : UiAction) (times : Times) (o : Orchestrator)
      → o.db ≡ none
      → (with_argument env (key_of v) (act_of v times) e o).1
        ≡ (panel_act v event times.decided_at_ms times.sync_ms o).1
  unfolding with_argument handle_decision handle_retry handle_dismiss_notice
  closed_act confirm e event times o d = ground arith
  closed_act reject e event times o d = ground arith
  closed_act retry e event times o d = ground arith
  closed_act clear e event times o d = ground arith

  decide-decide :
      (decide : ℕ → ℕ → ℕ → Exec Database ConfirmationResult) (event : UiAction) (times : Times)
      (o : Orchestrator) (db : Database)
      → o.db ≡ some db
      → event.object_type ≡ Commands.obj_task
      → (decide_task env decide times db event.object_id o).1
        ≡ (handle_decision env decide event times.decided_at_ms times.sync_ms o).1
  unfolding decide_task handle_decision
  decide-decide decide event times o db d t =
      let (r, db') = decide Commands.obj_task event.object_id times.decided_at_ms db in
      ground (arith, settle-decided r times (record o { db = some db' }))

  open_act :
      (v : Verb) (event : UiAction) (times : Times) (o : Orchestrator) (db : Database)
      → o.db ≡ some db
      → event.object_type ≡ Commands.obj_task
      → (act_of v times db event.object_id o).1
        ≡ (panel_act v event times.decided_at_ms times.sync_ms o).1
  unfolding retry_task handle_retry dismiss handle_dismiss_notice
  open_act confirm event times o db d t = decide-decide Confirmations.confirm event times o db d t
  open_act reject event times o db d t = decide-decide Confirmations.reject event times o db d t
  open_act retry event times o db d t =
      let (task, tasks) = Tasks.retry event.object_id times.decided_at_ms db.tasks in
      ground (
        arith,
        retried-retried task (Tasks.count_pending tasks) times
            (record o { db = some (record db { tasks = tasks }) }),
      )
  open_act clear event times o db d t = ground arith

  -- A command to confirm, reject or retry a task or to dismiss a notice does to the orchestrator
  -- what the action of the panel on the same row does, at the same times and whatever comes of it,
  -- with an id below 2^63.
  pub dispatch-handle_ui_action :
      (v : Verb) (e : CommandEnvelope) (event : UiAction) (times : Times) (o : Orchestrator)
      → e.command ≡ command_of v
      → int_argument (key_of v) e.args ≡ some (pos event.object_id)
      → ltb event.object_id (2 ^ 63) ≡ true
      → event.action ≡ action_of v
      → event.object_type ≡ Commands.obj_task
      → (dispatch env e times o).1
        ≡ (handle_ui_action env times.decided_at_ms times.sync_ms event o).1
  dispatch-handle_ui_action v e event times o c given small a t =
      let left = ap (λ (x : Handled). x.1) (dispatch-act v e times o c) in
      let right =
        ap (λ (x : Result Actions.Reply × Orchestrator). x.1)
          (handle_ui_action-act v event times.decided_at_ms times.sync_ms o a) in
      elim (Option-cases o.db) [
        | inl closed ↦ left ∙ (closed_act v e event times o closed ∙ sym right)
        | inr (db, open_db) ↦
            left
            ∙ (ap (λ (x : Handled). x.1)
                  (with_argument-act (key_of v) (act_of v times) e o db event.object_id open_db
                    given small)
                ∙ (open_act v event times o db open_db t ∙ sym right))
      ]
