-- ===== src/Services/Confirmations/Decided.antt =====
-- A task is decided once, and a failed decision changes nothing.
use nightshift_opi.Prelude.{
  ℕ, suc, ◌≡◌, refl, ap, false, Option, none, some, [], ◌∷◌, ◌++◌, ◌==◌, arith, ok, err,
  confirmation_error, Option-cases, Bool-cases, inl, inr, Error,
}
use nightshift_opi.Domain.Commands
use nightshift_opi.Services.Tasks
use nightshift_opi.Services.Tasks.{Task, TaskState, TaskTable, pending, active, completed, state_eq}
use nightshift_opi.Services.Tasks.Transitions
use nightshift_opi.Services.Tasks.Transitions.{
  moved, transition_moves, transition_refused, transition-none,
}
use nightshift_opi.Services.Notices
use nightshift_opi.Services.Notices.Dismissal.{dismiss-none}
use nightshift_opi.Services.Confirmations.{Database, confirmed, confirm, reject}

module _ (task_id now_ms : ℕ) (db : Database) where
  confirm_of_moved :
      (u : Task) (table : TaskTable)
      → Tasks.transition task_id pending active now_ms db.tasks ≡ (some u, table)
      → confirm Commands.obj_task task_id now_ms db ≡ (
        ok (record {
          object_type = Commands.obj_task;
          object_id = task_id;
          decision = confirmed;
          pending_count = Tasks.count_pending table;
        }),
        record db {
          tasks = table;
          confirmations =
              db.confirmations
              ++ record {
                object_type = Commands.obj_task;
                object_id = task_id;
                decision = confirmed;
                decided_at_ms = now_ms;
              }
                ∷ [];
        },
      )
  unfolding confirm
  confirm_of_moved u table e = ground (arith, e)

  confirm_of_refused :
      Tasks.transition task_id pending active now_ms db.tasks ≡ (none, db.tasks)
      → confirm Commands.obj_task task_id now_ms db ≡ (err confirmation_error, db)
  unfolding confirm
  confirm_of_refused e = ground (arith, e)

  reject_of_refused :
      Tasks.transition task_id pending completed now_ms db.tasks ≡ (none, db.tasks)
      → reject Commands.obj_task task_id now_ms db ≡ (err confirmation_error, db)
  unfolding reject
  reject_of_refused e = ground (arith, e)

-- In a valid database, confirming a pending task succeeds: the task becomes ACTIVE, one task less
-- is pending and the result says how many are left, one confirmation is recorded, and notices stay
-- as they are. From then on, confirming or rejecting the task fails and changes nothing.
pub decided_once :
    (task_id now_ms later_ms : ℕ) (db : Database) (t : Task)
    → Transitions.IsValid db.tasks
    → Tasks.get task_id db.tasks ≡ some t
    → t.state ≡ pending
    → let (result, db') = confirm Commands.obj_task task_id now_ms db in
      (result
        ≡ ok (record {
          object_type = Commands.obj_task;
          object_id = task_id;
          decision = confirmed;
          pending_count = Tasks.count_pending db'.tasks;
        }))
      × (Tasks.count_pending db.tasks ≡ suc (Tasks.count_pending db'.tasks))
      × (Tasks.get task_id db'.tasks ≡ some (moved active now_ms t))
      × (db'.notices ≡ db.notices)
      × (db'.confirmations
          ≡ db.confirmations
            ++ record {
              object_type = Commands.obj_task;
              object_id = task_id;
              decision = confirmed;
              decided_at_ms = now_ms;
            }
              ∷ [])
      × (confirm Commands.obj_task task_id later_ms db' ≡ (err confirmation_error, db'))
      × (reject Commands.obj_task task_id later_ms db' ≡ (err confirmation_error, db'))
decided_once task_id now_ms later_ms db t v found p =
    let m =
      transition_moves task_id pending active now_ms db.tasks t v (unfold state_eq in refl) found
        p in
    let table = (Tasks.transition task_id pending active now_ms db.tasks).1 in
    let decided : (u : Task) → Tasks.get task_id table ≡ some u → state_eq u.state pending ≡ false =
      λ u g. unfold state_eq in ground (arith, m) in
    let again = transition_refused task_id pending active later_ms table m.5 decided in
    let rejection = transition_refused task_id pending completed later_ms table m.5 decided in
    rw
      (confirm_of_moved task_id now_ms db (moved active now_ms t) table
        (ap (λ (r : Option Task). (r, table)) m.0))
      (
        refl,
        m.3,
        m.1,
        refl,
        refl,
        confirm_of_refused task_id later_ms _ again,
        reject_of_refused task_id later_ms _ rejection,
      )

-- A decision that fails raises a ConfirmationError and leaves the database as it was.
pub confirm_fails_clean :
    (object_type object_id now_ms : ℕ) (db : Database) (e : Error)
    → (confirm object_type object_id now_ms db).0 ≡ err e
    → confirm object_type object_id now_ms db ≡ (err confirmation_error, db)
unfolding confirm
confirm_fails_clean object_type object_id now_ms db e h =
    elim (Bool-cases (object_type == Commands.obj_task)) [
      | inl task ↦
          elim (Option-cases (Tasks.transition object_id pending active now_ms db.tasks).0) [
            | inl refused ↦
                ground (arith, transition-none object_id pending active now_ms db.tasks refused)
            | inr (t, moved) ↦ absurd (ground arith)
          ]
      | inr other ↦ elim (Bool-cases (object_type == Commands.obj_notice)) [
        | inl notice ↦ elim (Option-cases (Notices.dismiss object_id now_ms db.notices).0) [
          | inl refused ↦ ground (arith, dismiss-none object_id now_ms db.notices refused)
          | inr (n, dismissed) ↦ absurd (ground arith)
        ]
        | inr neither ↦ ground arith
      ]
    ]
