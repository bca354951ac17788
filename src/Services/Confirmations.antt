-- ===== src/Services/Confirmations.antt =====
-- Decisions on tasks and notices (nightshift/services/confirmation_service.py).
pub mod Decided
pub mod Validity
use nightshift_opi.Prelude.{
  ℕ, Option, none, some, List, [], ◌∷◌, ◌++◌, ◌==◌, if◌then◌else◌, confirmation_error, ok,
}
use nightshift_opi.Prelude.Exec.{Exec, pure, raise, gets, modify, done, ◌>>=◌, ◌>>◌, continue}
use nightshift_opi.Domain.Commands
use nightshift_opi.Services.Tasks
use nightshift_opi.Services.Tasks.{Task, TaskTable}
use nightshift_opi.Services.Notices
use nightshift_opi.Services.Notices.{Notice, NoticeTable}

-- The string `decision`.
pub data Decision : Type 0 where
  confirmed rejected : Decision

-- A row of the table `confirmations`, without its id.
pub record Confirmation : Type 0 where
  pub object_type : ℕ
  pub object_id : ℕ
  pub decision : Decision
  pub decided_at_ms : ℕ

pub record ConfirmationResult : Type 0 where
  pub object_type : ℕ
  pub object_id : ℕ
  pub decision : Decision
  pub pending_count : ℕ

pub record Database : Type 0 where
  pub tasks : TaskTable
  pub notices : NoticeTable
  pub confirmations : List Confirmation

-- A method of the task service, on its table of the database.
abbrev pub on_tasks {ℓ} : {A : Type ℓ} → (TaskTable → A × TaskTable) → Database → A × Database
on_tasks method db = let (a, table) = method db.tasks in (a, record db { tasks = table })

abbrev pub on_notices {ℓ} : {A : Type ℓ} → (NoticeTable → A × NoticeTable) → Database → A × Database
on_notices method db = let (a, table) = method db.notices in (a, record db { notices = table })

-- `if result is None: raise ConfirmationError(...)`
unfoldable pub require : {A : Type 0} → (Database → Option A × Database) → Exec Database Unit
require method db =
    let (result, db') = method db in
    elim result [ none ↦ raise confirmation_error db' | some _ ↦ done db' ]

-- `_record`
unfoldable pub record_decision : ℕ → ℕ → Decision → ℕ → Exec Database Unit
record_decision object_type object_id decision now_ms = modify (λ db. record db {
  confirmations =
      db.confirmations
      ++ record {
        object_type = object_type;
        object_id = object_id;
        decision = decision;
        decided_at_ms = now_ms;
      }
        ∷ [];
})

unfoldable pub confirm : ℕ → ℕ → ℕ → Exec Database ConfirmationResult
unfolding require record_decision
confirm object_type object_id now_ms = do
  (if object_type == Commands.obj_task
      then require (on_tasks (Tasks.confirm object_id now_ms))
      else if object_type == Commands.obj_notice
      then require (on_notices (Notices.dismiss object_id now_ms))
      else raise confirmation_error)
  record_decision object_type object_id confirmed now_ms
  pending ← gets (λ db. Tasks.count_pending db.tasks)
  pure (record {
    object_type = object_type;
    object_id = object_id;
    decision = confirmed;
    pending_count = pending;
  })

unfoldable pub reject : ℕ → ℕ → ℕ → Exec Database ConfirmationResult
unfolding require record_decision
reject object_type object_id now_ms = do
  (if object_type == Commands.obj_task
      then require (on_tasks (Tasks.reject object_id now_ms))
      else if object_type == Commands.obj_notice
      then require (on_notices (Notices.dismiss object_id now_ms))
      else raise confirmation_error)
  record_decision object_type object_id rejected now_ms
  pending ← gets (λ db. Tasks.count_pending db.tasks)
  pure (record {
    object_type = object_type;
    object_id = object_id;
    decision = rejected;
    pending_count = pending;
  })
