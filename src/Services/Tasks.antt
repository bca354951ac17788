-- ===== src/Services/Tasks.antt =====
-- The tasks and their table (nightshift/services/task_service.py).
pub mod Transitions
pub mod Creation
pub mod Dashboard
use nightshift_opi.Prelude.{
  ℕ, suc, ◌+◌, Bool, true, false, ◌&&◌, Option, none, some, List, [], ◌∷◌, ◌++◌, ◌==◌, ltb,
  if◌then◌else◌, take,
}
use mathlib.Core.List.{reverse}
use nightshift_opi.Prelude.Int.{ℤ, pos, negsuc}
use nightshift_opi.Uart.Text.{Text}
use nightshift_opi.Domain.Models.{DashboardState}

pub data TaskState : Type 0 where
  pending active completed failed : TaskState

-- `==` on the strings of the states
unfoldable pub state_eq : TaskState → TaskState → Bool
state_eq pending pending = true
state_eq active active = true
state_eq completed completed = true
state_eq failed failed = true
state_eq _ _ = false

pub record Task : Type 0 where
  pub id : ℕ
  pub quadrant : ℤ
  pub state : TaskState
  pub flags : ℕ
  pub title : Text
  pub source : Text
  pub created_at_ms : ℕ
  pub updated_at_ms : ℕ

-- The table: its rows, and the largest id that AUTOINCREMENT has given out.
pub record TaskTable : Type 0 where
  pub rows : List Task
  pub last_id : ℕ

abbrev pub no_tasks : TaskTable
no_tasks = record { rows = []; last_id = 0 }

unfoldable pub create : ℤ → Text → Text → ℕ → ℕ → TaskTable → Task × TaskTable
create quadrant title source flags now_ms table =
    let task : Task = record {
      id = suc table.last_id;
      quadrant = quadrant;
      state = pending;
      flags = flags;
      title = title;
      source = source;
      created_at_ms = now_ms;
      updated_at_ms = now_ms;
    } in
    (task, record { rows = table.rows ++ task ∷ []; last_id = suc table.last_id })

-- `SELECT * FROM tasks WHERE id = ?`, and the first row of it
unfoldable pub find : ℕ → List Task → Option Task
find task_id [] = none
find task_id (t ∷ rows) = if t.id == task_id then some t else find task_id rows

abbrev pub get : ℕ → TaskTable → Option Task
get task_id table = find task_id table.rows

-- `WHERE id = ? AND state = ?`
abbrev pub matches : ℕ → TaskState → Task → Bool
matches task_id from_state t = t.id == task_id && state_eq t.state from_state

-- `UPDATE tasks SET state = ?, updated_at_ms = ? WHERE id = ? AND state = ?`: `cursor.rowcount`
-- and the rows.
unfoldable pub update : ℕ → TaskState → TaskState → ℕ → List Task → ℕ × List Task
update task_id from_state to_state now_ms [] = (0, [])
update task_id from_state to_state now_ms (t ∷ rows) =
    let (rowcount, rest) = update task_id from_state to_state now_ms rows in
    if matches task_id from_state t
    then (suc rowcount, record t { state = to_state; updated_at_ms = now_ms } ∷ rest)
    else (rowcount, t ∷ rest)

-- `_transition`
unfoldable pub transition : ℕ → TaskState → TaskState → ℕ → TaskTable → Option Task × TaskTable
transition task_id from_state to_state now_ms table =
    let (rowcount, rows) = update task_id from_state to_state now_ms table.rows in
    let table' = record table { rows = rows } in
    if rowcount == 0 then (none, table') else (get task_id table', table')

abbrev pub confirm : ℕ → ℕ → TaskTable → Option Task × TaskTable
confirm task_id now_ms = transition task_id pending active now_ms

abbrev pub reject : ℕ → ℕ → TaskTable → Option Task × TaskTable
reject task_id now_ms = transition task_id pending completed now_ms

abbrev pub complete : ℕ → ℕ → TaskTable → Option Task × TaskTable
complete task_id now_ms = transition task_id active completed now_ms

abbrev pub fail : ℕ → ℕ → TaskTable → Option Task × TaskTable
fail task_id now_ms = transition task_id active failed now_ms

abbrev pub retry : ℕ → ℕ → TaskTable → Option Task × TaskTable
retry task_id now_ms = transition task_id failed pending now_ms

-- `SELECT COUNT(*) FROM tasks WHERE state = ?`
unfoldable pub count_in : TaskState → List Task → ℕ
count_in s [] = 0
count_in s (t ∷ rows) = let n = count_in s rows in if state_eq t.state s then suc n else n

abbrev pub count_pending : TaskTable → ℕ
count_pending table = count_in pending table.rows

-- A row of `SELECT quadrant, state, COUNT(*) ... GROUP BY quadrant, state`.
pub record Group : Type 0 where
  pub quadrant : ℤ
  pub state : TaskState
  pub count : ℕ

abbrev pub quadrant_eq : ℤ → ℤ → Bool
quadrant_eq (pos a) (pos b) = a == b
quadrant_eq (negsuc a) (negsuc b) = a == b
quadrant_eq _ _ = false

-- One more task in its group.
unfoldable pub add_to_group : Task → List Group → List Group
add_to_group t [] = record { quadrant = t.quadrant; state = t.state; count = 1 } ∷ []
add_to_group t (g ∷ groups) =
    let rest = add_to_group t groups in
    if quadrant_eq g.quadrant t.quadrant && state_eq g.state t.state
    then record g { count = suc g.count } ∷ groups
    else g ∷ rest

unfoldable pub group_by : List Task → List Group
group_by [] = []
group_by (t ∷ rows) = add_to_group t (group_by rows)

-- `active_counts[quadrant] += count` if the index is in range, on the fields that the four
-- counts become.
unfoldable pub count_active : ℤ → ℕ → DashboardState → DashboardState
count_active (negsuc _) count d = d
count_active (pos quadrant) count d =
    if quadrant == 0
    then record d { urgent_auto = d.urgent_auto + count }
    else if quadrant == 1
    then record d { normal_auto = d.normal_auto + count }
    else if quadrant == 2
    then record d { urgent_confirm = d.urgent_confirm + count }
    else if quadrant == 3
    then record d { normal_confirm = d.normal_confirm + count }
    else d

unfoldable pub count_group : Group → DashboardState → DashboardState
unfolding count_active
count_group g d = elim g.state [
  | completed ↦ record d { completed_today = d.completed_today + g.count }
  | failed ↦ record d { failed_today = d.failed_today + g.count }
  | _ ↦ count_active g.quadrant g.count d
]

-- The loop over the rows of the query.
unfoldable pub count_groups : List Group → DashboardState → DashboardState
count_groups [] d = d
count_groups (g ∷ groups) d = count_groups groups (count_group g d)

unfoldable pub dashboard : ℕ → TaskTable → DashboardState
dashboard revision table = count_groups (group_by table.rows) (record {
  revision = revision;
  urgent_auto = 0;
  normal_auto = 0;
  urgent_confirm = 0;
  normal_confirm = 0;
  completed_today = 0;
  failed_today = 0;
})

-- `ORDER BY updated_at_ms DESC, id DESC`: whether `a` comes before `b`
abbrev pub is_newer : Task → Task → Bool
is_newer a b =
    if ltb b.updated_at_ms a.updated_at_ms
    then true
    else a.updated_at_ms == b.updated_at_ms && ltb b.id a.id

unfoldable pub insert_by_age : Task → List Task → List Task
insert_by_age t [] = t ∷ []
insert_by_age t (u ∷ rows) =
    let rest = insert_by_age t rows in if is_newer t u then t ∷ u ∷ rows else u ∷ rest

unfoldable pub newest_first : List Task → List Task
newest_first [] = []
newest_first (t ∷ rows) = insert_by_age t (newest_first rows)

unfoldable pub list_recent : ℕ → TaskTable → List Task
list_recent limit table = reverse (take limit (newest_first table.rows))
