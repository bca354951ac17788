-- ===== src/Examples/Records.antt =====
-- The services at concrete inputs.
use nightshift_opi.Prelude.{
  ℕ, suc, ◌≡◌, ◌≢◌, refl, none, some, List, [], ◌∷◌, ◌++◌, arith, ok, err, confirmation_error,
}
use nightshift_opi.Prelude.Int.{pos}
use nightshift_opi.Domain.Commands
use nightshift_opi.Domain.Models.{WorkState}
use nightshift_opi.Services.Executor.{Method, run, stopped_without_start}
use nightshift_opi.Services.Tasks
use nightshift_opi.Services.Tasks.{Task, TaskTable, TaskState, pending, active, state_eq, no_tasks}
use nightshift_opi.Services.Tasks.Transitions.{IsValid, Distinct, moved, transition_moves}
use nightshift_opi.Services.Tasks.Dashboard.{count_where, is_open_in, is_in, dashboard_counts}
use nightshift_opi.Services.Notices.{Notice, NoticeTable}
use nightshift_opi.Services.Confirmations.{Database, confirmed, confirm, reject}
use nightshift_opi.Services.Confirmations.Decided.{decided_once}

abbrev no_start : List Method
no_start = Method.resume ∷ Method.pause ∷ []

stopped_without_start_example : (run no_start).state ≡ WorkState.stopped
stopped_without_start_example = stopped_without_start no_start ((λ e. cc), ((λ e. cc), tt))

abbrev one_task : Task
one_task = record {
  id = 1;
  quadrant = pos 2;
  state = pending;
  flags = 0;
  title = 0x41 ∷ [];
  source = [];
  created_at_ms = 5;
  updated_at_ms = 5;
}

abbrev other_task : Task
other_task = record one_task { id = 2; state = active }

abbrev two_tasks : TaskTable
two_tasks = record { rows = one_task ∷ other_task ∷ []; last_id = 2 }

two_tasks-IsValid : IsValid two_tasks
unfolding Distinct
two_tasks-IsValid = record {
  distinct = (((λ e. omega arith), tt), (tt, tt));
  below = (omega arith, (omega arith, tt));
}

transition_moves_example :
    let (result, table') = Tasks.transition 1 pending active 9 two_tasks in
    (result ≡ some (moved active 9 one_task))
    × (Tasks.get 1 table' ≡ some (moved active 9 one_task))
    × ((other : ℕ) → other ≢ 1 → Tasks.get other table' ≡ Tasks.get other two_tasks)
    × (Tasks.count_in pending two_tasks.rows ≡ suc (Tasks.count_in pending table'.rows))
    × (Tasks.count_in active table'.rows ≡ suc (Tasks.count_in active two_tasks.rows))
    × IsValid table'
unfolding Tasks.find state_eq
transition_moves_example =
    transition_moves 1 pending active 9 two_tasks one_task two_tasks-IsValid refl refl refl

dashboard_counts_example : Tasks.dashboard 7 two_tasks ≡ record {
  revision = 7;
  urgent_auto = count_where (is_open_in 0) two_tasks.rows;
  normal_auto = count_where (is_open_in 1) two_tasks.rows;
  urgent_confirm = count_where (is_open_in 2) two_tasks.rows;
  normal_confirm = count_where (is_open_in 3) two_tasks.rows;
  completed_today = count_where (is_in TaskState.completed) two_tasks.rows;
  failed_today = count_where (is_in TaskState.failed) two_tasks.rows;
}
dashboard_counts_example = dashboard_counts 7 two_tasks

abbrev one_notice : Notice
one_notice = record {
  id = 1;
  flags = 0;
  title = [];
  body = [];
  expires_at_ms = some 50;
  created_at_ms = 5;
  dismissed_at_ms = none;
}

abbrev two_notices : NoticeTable
two_notices = record {
  rows = one_notice ∷ record one_notice { id = 2; created_at_ms = 8 } ∷ [];
  last_id = 2;
}

abbrev small_database : Database
small_database = record { tasks = two_tasks; notices = two_notices; confirmations = [] }

decided_once_example :
    let (result, db') = confirm Commands.obj_task 1 9 small_database in
    (result
      ≡ ok (record {
        object_type = Commands.obj_task;
        object_id = 1;
        decision = confirmed;
        pending_count = Tasks.count_pending db'.tasks;
      }))
    × (Tasks.count_pending two_tasks ≡ suc (Tasks.count_pending db'.tasks))
    × (Tasks.get 1 db'.tasks ≡ some (moved active 9 one_task))
    × (db'.notices ≡ two_notices)
    × (db'.confirmations
        ≡ []
          ++ record {
            object_type = Commands.obj_task;
            object_id = 1;
            decision = confirmed;
            decided_at_ms = 9;
          }
            ∷ [])
    × (confirm Commands.obj_task 1 12 db' ≡ (err confirmation_error, db'))
    × (reject Commands.obj_task 1 12 db' ≡ (err confirmation_error, db'))
unfolding Tasks.find
decided_once_example = decided_once 1 9 12 small_database one_task two_tasks-IsValid refl refl
