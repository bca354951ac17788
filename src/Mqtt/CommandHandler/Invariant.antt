-- ===== src/Mqtt/CommandHandler/Invariant.antt =====
-- The commands keep the invariant of the orchestrator.
use Prim.Native.String.{String}
use mathlib.Core.Path.{subst}
use text.Mathlib.Text.{◌==◌ as str_eq}
use nightshift_opi.Prelude.{
  ℕ, ◌≡◌, inl, inr, refl, sym, Option, Option-cases, none, some, if◌then◌else◌, Result, ok, err,
  confirmation_error, arith,
}
use nightshift_opi.Prelude.Bytes.{Bytes}
use nightshift_opi.Prelude.Exec.{Exec}
use nightshift_opi.Domain.Commands
use nightshift_opi.Services.Executor.{Method}
use nightshift_opi.Services.Tasks
use nightshift_opi.Services.Tasks.{Task}
use nightshift_opi.Services.Tasks.Transitions
use nightshift_opi.Services.Confirmations
use nightshift_opi.Services.Confirmations.{Database, ConfirmationResult}
use nightshift_opi.Services.Confirmations.Validity.{confirm-IsValid, reject-IsValid}
use nightshift_opi.Services.Orchestrator.{Orchestrator, Environment}
use nightshift_opi.Services.Orchestrator.Sync.{full_sync}
use nightshift_opi.Services.Orchestrator.Actions.{pause_executor, resume_executor}
use nightshift_opi.Services.Orchestrator.Invariant.{Later, Later-refl, Later-trans, Relies}
use nightshift_opi.Services.Orchestrator.Invariant.Steps.{full_sync-Later}
use nightshift_opi.Services.Orchestrator.Invariant.Outcomes.{with_database, arrive, choose}
use nightshift_opi.Services.Orchestrator.Invariant.Actions.{
  drive_executor-Later, update_confirmation_count-Later, dismiss_notice-Later,
}
use nightshift_opi.Mqtt.Json.{Json, empty_dict}
use nightshift_opi.Mqtt.Schemas.{CommandEnvelope, Payload}
use nightshift_opi.Uart.Session.{Digest}
use nightshift_opi.Mqtt.CommandHandler.{CommandHandler, remember, execute, command_digest, handle}
use nightshift_opi.Mqtt.CommandHandler.Dispatch.{
  Handled, Times, Answer, succeeded, refused, decided, with_row, with_argument, decide_task,
  retried, retry_task, dismiss, is_running, is_paused, int_argument, row_id, dispatch,
}
use nightshift_opi.Mqtt.CommandHandler.Guards.{handle-IsExecuted}

module _ (env : Environment) (rely : Relies env) where
  decided-Later :
      (r : Result ConfirmationResult) (times : Times) (o : Orchestrator)
      → Later o (decided env r times o).1
  unfolding decided
  decided-Later (ok result) times o = update_confirmation_count-Later env rely _ _ _ o
  decided-Later (err confirmation_error) times o = Later-refl o
  decided-Later (err _) times o = Later-refl o

  with_row-Later :
      (id : Result (Option ℕ)) (act : ℕ → Orchestrator → Handled) (o : Orchestrator)
      → ((n : ℕ) → Later o (act n o).1)
      → Later o (with_row env id act o).1
  unfolding with_row
  with_row-Later (err error) act o h = Later-refl o
  with_row-Later (ok none) act o h = Later-refl o
  with_row-Later (ok (some n)) act o h = h n

  with_argument-Later :
      (key : String) (act : Database → ℕ → Orchestrator → Handled) (e : CommandEnvelope)
      (o : Orchestrator)
      → ((db : Database) (n : ℕ) → o.db ≡ some db → Later o (act db n o).1)
      → Later o (with_argument env key act e o).1
  unfolding with_argument
  with_argument-Later key act e o h = elim (Option-cases o.db) [
    | inl closed ↦
        let eq : with_argument env key act e o ≡ (ok (refused "not_ready"), o) = ground arith in
        arrive o _ _ eq (Later-refl o)
    | inr (db, open_db) ↦ elim (Option-cases (int_argument key e.args)) [
      | inl missing ↦
          let eq : with_argument env key act e o ≡ (ok (refused "invalid_argument"), o) =
            ground arith in
          arrive o _ _ eq (Later-refl o)
      | inr (z, given) ↦
          let eq : with_argument env key act e o ≡ with_row env (row_id z) (act db) o =
            ground arith in
          arrive o _ _ eq (with_row-Later (row_id z) (act db) o (λ n. h db n open_db))
    ]
  ]

  decide_task-Later :
      (decide : ℕ → ℕ → ℕ → Exec Database ConfirmationResult) (times : Times)
      → ((object_type object_id now_ms : ℕ) (db : Database)
          → Transitions.IsValid db.tasks
          → Transitions.IsValid (decide object_type object_id now_ms db).1.tasks)
      → (db : Database) (n : ℕ) (o : Orchestrator) → o.db ≡ some db
      → Later o (decide_task env decide times db n o).1
  unfolding decide_task
  decide_task-Later decide times keep db n o open_db =
      let (r, db') = decide Commands.obj_task n times.decided_at_ms db in
      Later-trans o (record o { db = some db' }) _
        (with_database o db db' open_db (keep Commands.obj_task n times.decided_at_ms db))
        (decided-Later r times (record o { db = some db' }))

  retried-Later :
      (task : Option Task) (pending_count : ℕ) (times : Times) (o : Orchestrator)
      → Later o (retried env task pending_count times o).1
  unfolding retried
  retried-Later none pending_count times o = Later-refl o
  retried-Later (some task) pending_count times o = update_confirmation_count-Later env rely _ _ _ o

  retry_task-Later :
      (times : Times) (db : Database) (n : ℕ) (o : Orchestrator)
      → o.db ≡ some db
      → Later o (retry_task env times db n o).1
  unfolding retry_task
  retry_task-Later times db n o open_db =
      let (task, tasks) = Tasks.retry n times.decided_at_ms db.tasks in
      let o' = record o { db = some (record db { tasks = tasks }) } in
      Later-trans o o' _
        (with_database o db _ open_db (
          Transitions.transition-IsValid n Tasks.failed Tasks.pending times.decided_at_ms db.tasks))
        (retried-Later task (Tasks.count_pending tasks) times o')

  dismiss-Later :
      (times : Times) (db : Database) (n : ℕ) (o : Orchestrator)
      → Later o (dismiss env times db n o).1
  unfolding dismiss
  dismiss-Later times db n o = dismiss_notice-Later env rely n times.decided_at_ms times.sync_ms o

  dispatch-Later :
      (e : CommandEnvelope) (times : Times) (o : Orchestrator) → Later o (dispatch env e times o).1
  unfolding dispatch
  dispatch-Later e times o =
      let busy : Handled = (ok (refused "state_conflict"), o) in
      let pauses : Handled =
        (ok (succeeded empty_dict), pause_executor env times.executed_at_ms o) in
      let resumes : Handled =
        (ok (succeeded empty_dict), resume_executor env times.executed_at_ms o) in
      let pause : Handled = if is_running o.state.work_state then pauses else busy in
      let resume : Handled = if is_paused o.state.work_state then resumes else busy in
      let resync : Handled = (ok (succeeded empty_dict), full_sync env times.sync_ms o) in
      let confirm = with_argument env "task_id" (decide_task env Confirmations.confirm times) e o in
      let reject = with_argument env "task_id" (decide_task env Confirmations.reject times) e o in
      let retry = with_argument env "task_id" (retry_task env times) e o in
      let clear = with_argument env "notice_id" (dismiss env times) e o in
      let other : Handled = (ok (refused "invalid_argument"), o) in
      let at_clear : Handled = if str_eq e.command "notice.dismiss" then clear else other in
      let at_retry : Handled = if str_eq e.command "task.retry" then retry else at_clear in
      let at_reject : Handled = if str_eq e.command "task.reject" then reject else at_retry in
      let at_confirm : Handled = if str_eq e.command "task.confirm" then confirm else at_reject in
      let at_resync : Handled =
        if str_eq e.command "system.resync_panel" then resync else at_confirm in
      let at_resume : Handled = if str_eq e.command "executor.resume" then resume else at_resync in
      choose o (str_eq e.command "executor.pause") pause at_resume
        (choose o (is_running o.state.work_state) pauses busy
          (drive_executor-Later env rely Method.pause _ o) (Later-refl o))
        (choose o (str_eq e.command "executor.resume") resume at_resync
          (choose o (is_paused o.state.work_state) resumes busy
            (drive_executor-Later env rely Method.resume _ o) (Later-refl o))
          (choose o (str_eq e.command "system.resync_panel") resync at_confirm
            (full_sync-Later env rely _ o)
            (choose o (str_eq e.command "task.confirm") confirm at_reject
              (with_argument-Later _ _ e o
                (λ db n. decide_task-Later Confirmations.confirm times confirm-IsValid db n o))
              (choose o (str_eq e.command "task.reject") reject at_retry
                (with_argument-Later _ _ e o
                  (λ db n. decide_task-Later Confirmations.reject times reject-IsValid db n o))
                (choose o (str_eq e.command "task.retry") retry at_clear
                  (with_argument-Later _ _ e o (λ db n. retry_task-Later times db n o))
                  (choose o (str_eq e.command "notice.dismiss") clear other
                    (with_argument-Later _ _ e o (λ db n open_db. dismiss-Later times db n o))
                    (Later-refl o)))))))

  remember_orchestrator :
      (e : CommandEnvelope) (digest : Digest) (times : Times) (r : Result Answer)
      (h : CommandHandler)
      → (remember e digest times r h).1.orchestrator ≡ h.orchestrator
  unfolding remember
  remember_orchestrator e digest times (ok answer) h = refl
  remember_orchestrator e digest times (err error) h = refl

  execute-Later :
      (e : CommandEnvelope) (digest : Digest) (times : Times) (h : CommandHandler)
      → Later h.orchestrator (execute env e digest times h).1.orchestrator
  unfolding execute
  execute-Later e digest times h =
      subst (Later h.orchestrator) (sym (remember_orchestrator e digest times _ _))
        (dispatch-Later e times h.orchestrator)

  module _ (hash_json : Json → Digest) (decode : Bytes → Result String)
      (loads : String → Result Json) where
    -- Whatever arrives on the command topic, the invariant of the orchestrator is kept and the
    -- revision does not fall, if what runs during the waits keeps the invariant and lets no revision
    -- fall.
    pub handle-Later :
        (payload : Payload) (times : Times) (h : CommandHandler)
        → Later h.orchestrator (handle env hash_json decode loads payload times h).1.orchestrator
    handle-Later payload times h =
        elim (handle-IsExecuted env hash_json decode loads payload times h) [
          | inl same ↦
              subst (λ (x : CommandHandler). Later h.orchestrator x.orchestrator) (sym same)
                (Later-refl h.orchestrator)
          | inr (e, _, _, _, x) ↦
              subst (λ (y : CommandHandler). Later h.orchestrator y.orchestrator) (sym x.effect)
                (execute-Later e (command_digest hash_json e) times h)
        ]
