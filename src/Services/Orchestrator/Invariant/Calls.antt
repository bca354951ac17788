-- ===== src/Services/Orchestrator/Invariant/Calls.antt =====
-- Any history of calls keeps the invariant.
use nightshift_opi.Prelude.{ℕ, Option, List, [], ◌∷◌}
use nightshift_opi.Domain.Events.{DomainEvent, UiAction}
use nightshift_opi.Domain.Pressure.{PressureState}
use nightshift_opi.Services.Executor.{Method}
use nightshift_opi.Services.Confirmations.{Database}
use nightshift_opi.Services.Orchestrator.{Orchestrator, Environment, init}
use nightshift_opi.Services.Orchestrator.Sync.{full_sync, publish_state}
use nightshift_opi.Services.Orchestrator.Apply.{evaluate_and_apply}
use nightshift_opi.Services.Orchestrator.Events.{on_event}
use nightshift_opi.Services.Orchestrator.Actions.{
  drive_executor, update_confirmation_count, dismiss_notice, handle_ui_action,
}
use nightshift_opi.Services.Orchestrator.Invariant.{
  Inv, Later, Later-refl, Later-trans, Relies, IsValidDatabase, init-Inv,
}
use nightshift_opi.Services.Orchestrator.Invariant.Steps.{
  full_sync-Later, publish_state-Later, on_event-Later,
}
use nightshift_opi.Services.Orchestrator.Invariant.Evaluation.{evaluate_and_apply-Later}
use nightshift_opi.Services.Orchestrator.Invariant.Actions.{
  drive_executor-Later, update_confirmation_count-Later, dismiss_notice-Later,
  handle_ui_action-Keeps,
}

-- The methods that other parts of the program call, with the times that they read.
pub data Call : Type 0 where
  evaluates : PressureState → ℕ → Call
  receives : DomainEvent → ℕ → Call
  acts : UiAction → ℕ → ℕ → Call
  synchronises : ℕ → Call
  publishes : Call
  drives : Method → ℕ → Call
  dismisses : ℕ → ℕ → ℕ → Call
  counts : ℕ → ℕ → ℕ → Call

module _ (env : Environment) where
  unfoldable pub perform : Call → Orchestrator → Orchestrator
  perform (evaluates pressure now_ms) o = evaluate_and_apply env pressure now_ms o
  perform (receives event now_ms) o = (on_event event now_ms o).1
  perform (acts event now_ms sync_ms) o = (handle_ui_action env now_ms sync_ms event o).1
  perform (synchronises now_ms) o = full_sync env now_ms o
  perform publishes o = publish_state env o
  perform (drives method now_ms) o = drive_executor env method now_ms o
  perform (dismisses notice_id now_ms sync_ms) o = (dismiss_notice env notice_id now_ms sync_ms o).1
  perform (counts pending_count now_ms sync_ms) o =
      update_confirmation_count env pending_count now_ms sync_ms o

  -- A history of calls, the first call first.
  unfoldable pub perform_all : List Call → Orchestrator → Orchestrator
  perform_all [] o = o
  perform_all (c ∷ calls) o = perform_all calls (perform c o)

-- If what runs during the waits keeps the invariant and lets no revision fall, then so does every
-- call.
pub perform-Later :
    (env : Environment) (c : Call) (o : Orchestrator) → Relies env → Later o (perform env c o)
unfolding perform
perform-Later env (evaluates pressure now_ms) o rely =
    evaluate_and_apply-Later env rely pressure now_ms o
perform-Later env (receives event now_ms) o rely = on_event-Later event now_ms o
perform-Later env (acts event now_ms sync_ms) o rely =
    handle_ui_action-Keeps env rely now_ms sync_ms event o
perform-Later env (synchronises now_ms) o rely = full_sync-Later env rely now_ms o
perform-Later env publishes o rely = publish_state-Later env rely o
perform-Later env (drives method now_ms) o rely = drive_executor-Later env rely method now_ms o
perform-Later env (dismisses notice_id now_ms sync_ms) o rely =
    dismiss_notice-Later env rely notice_id now_ms sync_ms o
perform-Later env (counts pending_count now_ms sync_ms) o rely =
    update_confirmation_count-Later env rely pending_count now_ms sync_ms o

perform_all-Later :
    (env : Environment) (calls : List Call) (o : Orchestrator)
    → Relies env
    → Later o (perform_all env calls o)
unfolding perform_all
perform_all-Later env [] o rely = Later-refl o
perform_all-Later env (c ∷ calls) o rely =
    Later-trans o (perform env c o) _ (perform-Later env c o rely)
      (perform_all-Later env calls (perform env c o) rely)

-- From the start on, over a database with a valid task table, any history of calls keeps the
-- invariant: NEED_CONFIRM is set exactly if the confirmation count is above 0, PANEL_OFFLINE only
-- while the panel is offline, SENSOR_ERROR only in the mode IDLE, the work state is the executor's
-- and the task table is valid. It is assumed of what runs during the waits that it keeps the
-- invariant and lets no revision fall.
pub perform_all-Inv :
    (env : Environment) (db : Option Database) (dwell_ms stale_ms : Option ℕ) (now_ms : ℕ)
    (calls : List Call)
    → Relies env
    → IsValidDatabase db
    → Inv (perform_all env calls (init db dwell_ms stale_ms now_ms))
perform_all-Inv env db dwell_ms stale_ms now_ms calls rely v =
    (perform_all-Later env calls (init db dwell_ms stale_ms now_ms) rely).0
      (init-Inv db dwell_ms stale_ms now_ms v)
