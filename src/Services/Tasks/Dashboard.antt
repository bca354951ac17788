-- ===== src/Services/Tasks/Dashboard.antt =====
-- The dashboard counts every task once.
use nightshift_opi.Prelude.{
  ℕ, suc, ◌+◌, ◌≡◌, refl, Bool, true, false, List, [], ◌∷◌, ◌==◌, if◌then◌else◌, arith,
}
use nightshift_opi.Prelude.Int.{ℤ, pos}
use nightshift_opi.Domain.Models.{DashboardState}
use nightshift_opi.Services.Tasks.{
  Task, TaskState, TaskTable, Group, pending, active, completed, failed, state_eq, quadrant_eq,
  add_to_group, group_by, count_active, count_group, count_groups, dashboard,
}

-- How many rows have a quadrant and a state that a test accepts.
unfoldable pub count_where : (ℤ → TaskState → Bool) → List Task → ℕ
count_where p [] = 0
count_where p (t ∷ rows) = let n = count_where p rows in if p t.quadrant t.state then suc n else n

abbrev pub is_open_in : ℕ → ℤ → TaskState → Bool
is_open_in q (pos k) pending = k == q
is_open_in q (pos k) active = k == q
is_open_in q _ _ = false

abbrev pub is_in : TaskState → ℤ → TaskState → Bool
is_in s q t = state_eq t s

unfoldable weight : (ℤ → TaskState → Bool) → List Group → ℕ
weight p [] = 0
weight p (g ∷ groups) = let n = weight p groups in if p g.quadrant g.state then g.count + n else n

state_eq_iff : (a b : TaskState) → state_eq a b ≡ true → a ≡ b
unfolding state_eq
state_eq_iff a b h = ground arith

quadrant_eq_iff : (a b : ℤ) → quadrant_eq a b ≡ true → a ≡ b
quadrant_eq_iff a b h = ground arith

module _ (p : ℤ → TaskState → Bool) where
  weight-add_to_group :
      (t : Task) (groups : List Group)
      → weight p (add_to_group t groups)
        ≡ (if p t.quadrant t.state then suc (weight p groups) else weight p groups)
  unfolding weight add_to_group
  weight-add_to_group t [] = ground arith
  weight-add_to_group t (g ∷ groups) = ground (
    arith,
    weight-add_to_group t groups,
    quadrant_eq_iff g.quadrant t.quadrant,
    state_eq_iff g.state t.state,
  )

  weight-group_by : (rows : List Task) → weight p (group_by rows) ≡ count_where p rows
  unfolding group_by count_where weight
  weight-group_by [] = refl
  weight-group_by (t ∷ rows) =
      ground (arith, weight-add_to_group t (group_by rows), weight-group_by rows)

open_count :
    (groups : List Group) (d : DashboardState)
    → let c = count_groups groups d in
      (c.revision ≡ d.revision)
      × (c.urgent_auto ≡ d.urgent_auto + weight (is_open_in 0) groups)
      × (c.normal_auto ≡ d.normal_auto + weight (is_open_in 1) groups)
      × (c.urgent_confirm ≡ d.urgent_confirm + weight (is_open_in 2) groups)
      × (c.normal_confirm ≡ d.normal_confirm + weight (is_open_in 3) groups)
      × (c.completed_today ≡ d.completed_today + weight (is_in completed) groups)
      × (c.failed_today ≡ d.failed_today + weight (is_in failed) groups)
unfolding count_groups count_group count_active weight state_eq
open_count [] d = omega arith
open_count (g ∷ groups) d = ground (arith, open_count groups (count_group g d))

-- The six counters are the number of tasks that are pending or active in each of the quadrants 0
-- to 3, and of tasks that are completed and failed.
pub dashboard_counts :
    (revision : ℕ) (table : TaskTable)
    → dashboard revision table ≡ record {
      revision = revision;
      urgent_auto = count_where (is_open_in 0) table.rows;
      normal_auto = count_where (is_open_in 1) table.rows;
      urgent_confirm = count_where (is_open_in 2) table.rows;
      normal_confirm = count_where (is_open_in 3) table.rows;
      completed_today = count_where (is_in completed) table.rows;
      failed_today = count_where (is_in failed) table.rows;
    }
unfolding dashboard
dashboard_counts revision table =
    let groups = group_by table.rows in
    ground (
      arith,
      open_count groups (record {
        revision = revision;
        urgent_auto = 0;
        normal_auto = 0;
        urgent_confirm = 0;
        normal_confirm = 0;
        completed_today = 0;
        failed_today = 0;
      }),
      weight-group_by (is_open_in 0) table.rows,
      weight-group_by (is_open_in 1) table.rows,
      weight-group_by (is_open_in 2) table.rows,
      weight-group_by (is_open_in 3) table.rows,
      weight-group_by (is_in completed) table.rows,
      weight-group_by (is_in failed) table.rows,
    )
