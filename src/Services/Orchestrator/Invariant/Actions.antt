-- ===== src/Services/Orchestrator/Invariant/Actions.antt =====
-- The actions of the user keep the invariant.
use nightshift_opi.Prelude.{
  ℕ, ◌≡◌, refl, sym, false, Option, none, some, [], arith, Result, ok, err, Option-cases, inl, inr,
  ◌==◌, if◌then◌else◌, confirmation_error,
}
use mathlib.Core.Path.{subst}
use nightshift_opi.Prelude.Exec.{Exec}
use nightshift_opi.Prelude.Exec.Keeps.{Keeps}
use nightshift_opi.Domain.Commands
use nightshift_opi.Domain.Events.{UiAction}
use nightshift_opi.Domain.Models.{WorkState, evolve}
use nightshift_opi.Services.Executor
use nightshift_opi.Services.Executor.{Method, ExecutorService}
use nightshift_opi.Services.Tasks
use nightshift_opi.Services.Tasks.{Task, TaskTable}
use nightshift_opi.Services.Tasks.Transitions
use nightshift_opi.Services.Notices
use nightshift_opi.Services.Notices.{Notice, NoticeTable}
use nightshift_opi.Services.Confirmations
use nightshift_opi.Services.Confirmations.{Database, ConfirmationResult}
use nightshift_opi.Services.Confirmations.Validity.{confirm-IsValid, reject-IsValid}
use nightshift_opi.Services.Orchestrator.{Orchestrator, Environment}
use nightshift_opi.Services.Orchestrator.Sync.{full_sync}
use nightshift_opi.Services.Orchestrator.Actions.{
  Reply, driven, dismissed, settle, retried, drive_executor, update_confirmation_count,
  dismiss_notice, handle_decision, handle_retry, handle_dismiss_notice, handle_ui_action,
}
use nightshift_opi.Services.Orchestrator.Invariant.{Later, Later-refl, Later-trans, Relies}
use nightshift_opi.Services.Orchestrator.Invariant.Steps.{
  full_sync-Later, publish_state-Later, counted-Later,
}
use nightshift_opi.Services.Orchestrator.Invariant.Outcomes.{with_database, arrive, choose}

abbrev Outcome : Type 0
Outcome = Result Reply × Orchestrator

module _ (env : Environment) (rely : Relies env) where
  -- A call of the executor that succeeds ends in the state that it returns.
  driven-Later :
      (method : Method) (now_ms : ℕ) (o : Orchestrator) (r : Result WorkState)
      (executor : ExecutorService)
      → Executor.call method o.executor ≡ (r, executor)
      → Later o (driven env r now_ms (record o { executor = executor }))
  unfolding driven Executor.call Executor.transition evolve
  driven-Later method now_ms o (err e) executor h = ground arith
  driven-Later method now_ms o (ok new_state) executor h =
      Later-trans o _ _ (ground arith) (publish_state-Later env rely _)

  pub drive_executor-Later :
      (method : Method) (now_ms : ℕ) (o : Orchestrator)
      → Later o (drive_executor env method now_ms o)
  unfolding drive_executor
  drive_executor-Later method now_ms o = driven-Later method now_ms o _ _ refl

  pub update_confirmation_count-Later :
      (pending_count now_ms sync_ms : ℕ) (o : Orchestrator)
      → Later o (update_confirmation_count env pending_count now_ms sync_ms o)
  unfolding update_confirmation_count
  update_confirmation_count-Later pending_count now_ms sync_ms o =
      Later-trans o _ _ (counted-Later pending_count now_ms o) (full_sync-Later env rely sync_ms _)

  dismissed-Later :
      (notice : Option Notice) (now_ms sync_ms : ℕ) (o : Orchestrator)
      → Later o (dismissed env notice now_ms sync_ms o).1
  unfolding dismissed evolve
  dismissed-Later none now_ms sync_ms o = Later-refl o
  dismissed-Later (some n) now_ms sync_ms o =
      Later-trans o _ _ (ground arith) (full_sync-Later env rely sync_ms _)

  pub dismiss_notice-Later :
      (notice_id now_ms sync_ms : ℕ) (o : Orchestrator)
      → Later o (dismiss_notice env notice_id now_ms sync_ms o).1
  unfolding dismiss_notice
  dismiss_notice-Later notice_id now_ms sync_ms o = elim (Option-cases o.db) [
    | inl closed ↦
        let e : dismiss_notice env notice_id now_ms sync_ms o ≡ (false, o) = ground arith in
        arrive o _ _ e (Later-refl o)
    | inr (db, open_db) ↦
        let (notice, notices) = Notices.dismiss notice_id now_ms db.notices in
        let o' = record o { db = some (record db { notices = notices }) } in
        let e : dismiss_notice env notice_id now_ms sync_ms o
            ≡ dismissed env notice now_ms sync_ms o' =
          ground arith in
        arrive o _ _ e (
          Later-trans o o' _ (with_database o db _ open_db (λ v. v))
            (dismissed-Later notice now_ms sync_ms o'))
  ]

  settle-Keeps :
      (r : Result ConfirmationResult) (now_ms sync_ms : ℕ)
      → Keeps Later (settle env r now_ms sync_ms)
  unfolding settle
  settle-Keeps (ok result) now_ms sync_ms o = update_confirmation_count-Later _ now_ms sync_ms o
  settle-Keeps (err confirmation_error) now_ms sync_ms o = Later-refl o
  settle-Keeps (err _) now_ms sync_ms o = Later-refl o

  handle_decision-Later :
      (decide : ℕ → ℕ → ℕ → Exec Database ConfirmationResult) (event : UiAction)
      (now_ms sync_ms : ℕ)
      → ((object_type object_id now_ms : ℕ) (db : Database)
          → Transitions.IsValid db.tasks
          → Transitions.IsValid (decide object_type object_id now_ms db).1.tasks)
      → Keeps Later (handle_decision env decide event now_ms sync_ms)
  unfolding handle_decision
  handle_decision-Later decide event now_ms sync_ms keep o = elim (Option-cases o.db) [
    | inl closed ↦
        let e : handle_decision env decide event now_ms sync_ms o
            ≡ (ok (Commands.not_ready, []), o) =
          ground arith in
        arrive o _ _ e (Later-refl o)
    | inr (db, open_db) ↦
        let (r, db') = decide event.object_type event.object_id now_ms db in
        let o' = record o { db = some db' } in
        let e : handle_decision env decide event now_ms sync_ms o ≡ settle env r now_ms sync_ms o' =
          ground arith in
        arrive o _ _ e (
          Later-trans o o' _
            (with_database o db db' open_db (keep event.object_type event.object_id now_ms db))
            (settle-Keeps r now_ms sync_ms o'))
  ]

  retried-Keeps :
      (task : Option Task) (pending_count now_ms sync_ms : ℕ)
      → Keeps Later (retried env task pending_count now_ms sync_ms)
  unfolding retried
  retried-Keeps none pending_count now_ms sync_ms o = Later-refl o
  retried-Keeps (some t) pending_count now_ms sync_ms o =
      update_confirmation_count-Later pending_count now_ms sync_ms o

  handle_retry-Keeps :
      (event : UiAction) (now_ms sync_ms : ℕ) → Keeps Later (handle_retry env event now_ms sync_ms)
  unfolding handle_retry
  handle_retry-Keeps event now_ms sync_ms o = elim (Option-cases o.db) [
    | inl closed ↦
        let e : handle_retry env event now_ms sync_ms o ≡ (ok (Commands.not_ready, []), o) =
          ground arith in
        arrive o _ _ e (Later-refl o)
    | inr (db, open_db) ↦
        let (task, tasks) = Tasks.retry event.object_id now_ms db.tasks in
        let o' = record o { db = some (record db { tasks = tasks }) } in
        let e : handle_retry env event now_ms sync_ms o
            ≡ retried env task (Tasks.count_pending tasks) now_ms sync_ms o' =
          ground arith in
        arrive o _ _ e (
          Later-trans o o' _
            (with_database o db _ open_db (
              Transitions.transition-IsValid event.object_id Tasks.failed Tasks.pending now_ms
                db.tasks))
            (retried-Keeps task (Tasks.count_pending tasks) now_ms sync_ms o'))
  ]

  handle_dismiss_notice-Keeps :
      (event : UiAction) (now_ms sync_ms : ℕ)
      → Keeps Later (handle_dismiss_notice env event now_ms sync_ms)
  unfolding handle_dismiss_notice
  handle_dismiss_notice-Keeps event now_ms sync_ms o =
      let after = (dismiss_notice env event.object_id now_ms sync_ms o).1 in
      elim (Option-cases o.db) [
        | inl closed ↦
            let e : (handle_dismiss_notice env event now_ms sync_ms o).1 ≡ o = ground arith in
            subst (Later o) (sym e) (Later-refl o)
        | inr (db, open_db) ↦
            let e : (handle_dismiss_notice env event now_ms sync_ms o).1 ≡ after = ground arith in
            subst (Later o) (sym e) (dismiss_notice-Later event.object_id now_ms sync_ms o)
      ]

  pub handle_ui_action-Keeps :
      (now_ms sync_ms : ℕ) (event : UiAction)
      → Keeps Later (handle_ui_action env now_ms sync_ms event)
  unfolding handle_ui_action
  handle_ui_action-Keeps now_ms sync_ms event o =
      let other : Outcome = (ok (Commands.ok, []), o) in
      let at_dismiss_notice : Outcome =
        if event.action == Commands.action_dismiss_notice
        then handle_dismiss_notice env event now_ms sync_ms o
        else other in
      let at_retry : Outcome =
        if event.action == Commands.action_retry
        then handle_retry env event now_ms sync_ms o
        else at_dismiss_notice in
      let at_reject : Outcome =
        if event.action == Commands.action_reject
        then handle_decision env Confirmations.reject event now_ms sync_ms o
        else at_retry in
      let at_confirm : Outcome =
        if event.action == Commands.action_confirm
        then handle_decision env Confirmations.confirm event now_ms sync_ms o
        else at_reject in
      let at_request_resync : Outcome =
        if event.action == Commands.action_request_resync
        then (ok (Commands.ok, []), full_sync env sync_ms o)
        else at_confirm in
      let at_resume_execution : Outcome =
        if event.action == Commands.action_resume_execution
        then (ok (Commands.ok, []), drive_executor env Method.resume now_ms o)
        else at_request_resync in
      choose o (event.action == Commands.action_pause_execution)
        ((ok (Commands.ok, []), drive_executor env Method.pause now_ms o)) at_resume_execution
        (drive_executor-Later Method.pause now_ms o)
        (choose o (event.action == Commands.action_resume_execution)
          ((ok (Commands.ok, []), drive_executor env Method.resume now_ms o)) at_request_resync
          (drive_executor-Later Method.resume now_ms o)
          (choose o (event.action == Commands.action_request_resync)
            ((ok (Commands.ok, []), full_sync env sync_ms o)) at_confirm
            (full_sync-Later env rely sync_ms o)
            (choose o (event.action == Commands.action_confirm)
              (handle_decision env Confirmations.confirm event now_ms sync_ms o) at_reject
              (handle_decision-Later Confirmations.confirm event now_ms sync_ms confirm-IsValid o)
              (choose o (event.action == Commands.action_reject)
                (handle_decision env Confirmations.reject event now_ms sync_ms o) at_retry
                (handle_decision-Later Confirmations.reject event now_ms sync_ms reject-IsValid o)
                (choose o (event.action == Commands.action_retry)
                  (handle_retry env event now_ms sync_ms o) at_dismiss_notice
                  (handle_retry-Keeps event now_ms sync_ms o)
                  (choose o (event.action == Commands.action_dismiss_notice)
                    (handle_dismiss_notice env event now_ms sync_ms o) other
                    (handle_dismiss_notice-Keeps event now_ms sync_ms o) (Later-refl o)))))))
