-- ===== src/Services/Tasks/Transitions.antt =====
-- What the transitions of a task do to the table.
use nightshift_opi.Prelude.{
  ℕ, suc, ◌+◌, ◌≤◌, ◌≡◌, ◌≢◌, refl, true, false, none, some, List, [], ◌∷◌, All, ◌==◌, arith,
  Bool-cases, ==_iff, inl, inr,
}
use mathlib.Core.Path.{subst}
use nightshift_opi.Services.Tasks.{
  Task, TaskState, TaskTable, state_eq, find, get, matches, update, transition, count_in,
}

unfoldable pub Distinct : List Task → Type 0
Distinct [] = Unit
Distinct (t ∷ rows) = All (λ (u : Task). u.id ≢ t.id) rows × Distinct rows

-- Ids are given out in order, and no two rows share one.
pub record IsValid (table : TaskTable) : Type 0 where
  pub distinct : Distinct table.rows
  pub below : All (λ (t : Task). t.id ≤ table.last_id) table.rows

abbrev pub moved : TaskState → ℕ → Task → Task
moved to_state now_ms t = record t { state = to_state; updated_at_ms = now_ms }

state_eq_iff : (a b : TaskState) → state_eq a b ≡ true → a ≡ b
unfolding state_eq
state_eq_iff a b h = ground arith

pub state_eq_refl : (a : TaskState) → state_eq a a ≡ true
unfolding state_eq
state_eq_refl a = ground arith

module _ (task_id : ℕ) (from_state to_state : TaskState) (now_ms : ℕ) where
  update_absent :
      (rows : List Task)
      → All (λ (u : Task). u.id ≢ task_id) rows
      → update task_id from_state to_state now_ms rows ≡ (0, rows)
  unfolding update
  update_absent [] a = refl
  update_absent (u ∷ rows) (other, a) = ground (arith, update_absent rows a)

  absent_behind :
      (u : Task) (rows : List Task)
      → (u.id == task_id) ≡ true
      → All (λ (v : Task). v.id ≢ u.id) rows
      → update task_id from_state to_state now_ms rows ≡ (0, rows)
  absent_behind u rows same others =
      update_absent rows
        (subst (λ (n : ℕ). All (λ (v : Task). v.id ≢ n) rows) ((==_iff u.id task_id).0 same) others)

  update_hit :
      (rows : List Task) (t : Task)
      → Distinct rows
      → find task_id rows ≡ some t
      → t.state ≡ from_state
      → ((update task_id from_state to_state now_ms rows).0 ≡ 1)
        × (find task_id (update task_id from_state to_state now_ms rows).1
            ≡ some (moved to_state now_ms t))
  unfolding update find Distinct
  update_hit [] t d h s = absurd (ground arith)
  update_hit (u ∷ rows) t (others, d) h s = elim (Bool-cases (u.id == task_id)) [
    | inl same ↦ ground (arith, absent_behind u rows same others, state_eq_refl from_state)
    | inr other ↦ ground (arith, update_hit rows t d (ground arith) s)
  ]

  update_miss :
      (rows : List Task)
      → Distinct rows
      → ((t : Task) → find task_id rows ≡ some t → state_eq t.state from_state ≡ false)
      → update task_id from_state to_state now_ms rows ≡ (0, rows)
  unfolding update find Distinct
  update_miss [] d m = refl
  update_miss (u ∷ rows) (others, d) m = elim (Bool-cases (u.id == task_id)) [
    | inl same ↦ ground (arith, absent_behind u rows same others, m u (ground arith))
    | inr other ↦ ground (arith, update_miss rows d (λ t h. m t (ground arith)))
  ]

  update_other :
      (rows : List Task) (other : ℕ)
      → other ≢ task_id
      → find other (update task_id from_state to_state now_ms rows).1 ≡ find other rows
  unfolding update find
  update_other [] other n = refl
  update_other (u ∷ rows) other n = ground (arith, update_other rows other n)

  update_count :
      (rows : List Task)
      → state_eq from_state to_state ≡ false
      → let (rowcount, rows') = update task_id from_state to_state now_ms rows in
        (count_in from_state rows ≡ rowcount + count_in from_state rows')
        × (count_in to_state rows' ≡ rowcount + count_in to_state rows)
  unfolding update count_in state_eq
  update_count [] n = (refl, refl)
  update_count (u ∷ rows) n = ground (arith, update_count rows n)

  update-All :
      {P : Task → Type 0} (rows : List Task)
      → ((t : Task) → P t → P (moved to_state now_ms t))
      → All P rows
      → All P (update task_id from_state to_state now_ms rows).1
  unfolding update
  update-All [] keep a = tt
  update-All (u ∷ rows) keep (h, a) = elim (Bool-cases (matches task_id from_state u)) [
    | inl hit ↦ rw hit (keep u h, update-All rows keep a)
    | inr miss ↦ rw miss (h, update-All rows keep a)
  ]

  update-Distinct :
      (rows : List Task)
      → Distinct rows
      → Distinct (update task_id from_state to_state now_ms rows).1
  unfolding update Distinct
  update-Distinct [] d = tt
  update-Distinct (u ∷ rows) (others, d) = elim (Bool-cases (matches task_id from_state u)) [
    | inl hit ↦ rw hit (update-All rows (λ t h. h) others, update-Distinct rows d)
    | inr miss ↦ rw miss (update-All rows (λ t h. h) others, update-Distinct rows d)
  ]

  -- In a valid table, a task that is in the state which a transition starts from is moved: it is
  -- returned and found with the new state and time, no other task changes, and the counts of the
  -- two states, which differ, shift by one.
  pub transition_moves :
      (table : TaskTable) (t : Task)
      → IsValid table
      → state_eq from_state to_state ≡ false
      → get task_id table ≡ some t
      → t.state ≡ from_state
      → let (result, table') = transition task_id from_state to_state now_ms table in
        (result ≡ some (moved to_state now_ms t))
        × (get task_id table' ≡ some (moved to_state now_ms t))
        × ((other : ℕ) → other ≢ task_id → get other table' ≡ get other table)
        × (count_in from_state table.rows ≡ suc (count_in from_state table'.rows))
        × (count_in to_state table'.rows ≡ suc (count_in to_state table.rows))
        × IsValid table'
  unfolding transition
  transition_moves table t v differ h s =
      let hit = update_hit table.rows t v.distinct h s in
      let counts = update_count table.rows differ in
      rw hit.0 (
        hit.1,
        hit.1,
        update_other table.rows,
        omega (arith, hit, counts),
        omega (arith, hit, counts),
        record {
          distinct = update-Distinct table.rows v.distinct;
          below = update-All table.rows (λ t h. h) v.below;
        },
      )

  -- In a valid table, a transition of an id that no task has, or whose task is in another state,
  -- returns `None` and changes nothing.
  pub transition_refused :
      (table : TaskTable)
      → IsValid table
      → ((t : Task) → get task_id table ≡ some t → state_eq t.state from_state ≡ false)
      → transition task_id from_state to_state now_ms table ≡ (none, table)
  unfolding transition
  transition_refused table v m = rw (update_miss table.rows v.distinct m) refl

module _ (task_id : ℕ) (from_state to_state : TaskState) (now_ms : ℕ) where
  update_none :
      (rows : List Task)
      → (update task_id from_state to_state now_ms rows).0 ≡ 0
      → update task_id from_state to_state now_ms rows ≡ (0, rows)
  unfolding update
  update_none [] h = refl
  update_none (u ∷ rows) h = elim (Bool-cases (matches task_id from_state u)) [
    | inl hit ↦ absurd (ground arith)
    | inr miss ↦ ground (arith, update_none rows (ground arith))
  ]

  update_unfound :
      (rows : List Task)
      → find task_id (update task_id from_state to_state now_ms rows).1 ≡ none
      → (update task_id from_state to_state now_ms rows).0 ≡ 0
  unfolding update find
  update_unfound [] h = refl
  update_unfound (u ∷ rows) h = elim (Bool-cases (u.id == task_id)) [
    | inl same ↦ absurd (ground arith)
    | inr other ↦ ground (arith, update_unfound rows (ground arith))
  ]

  -- A transition that returns `None` has changed nothing.
  pub transition-none :
      (table : TaskTable)
      → (transition task_id from_state to_state now_ms table).0 ≡ none
      → transition task_id from_state to_state now_ms table ≡ (none, table)
  unfolding transition
  transition-none table h =
      let zero : (update task_id from_state to_state now_ms table.rows).0 ≡ 0 =
        elim (Bool-cases ((update task_id from_state to_state now_ms table.rows).0 == 0)) [
          | inl z ↦ (==_iff _ _).0 z
          | inr some_row ↦ update_unfound table.rows (ground arith)
        ] in
      rw (update_none table.rows zero) refl

-- Any transition, done or refused, leaves a valid table valid.
pub transition-IsValid :
    (task_id : ℕ) (from_state to_state : TaskState) (now_ms : ℕ) (table : TaskTable)
    → IsValid table
    → IsValid (transition task_id from_state to_state now_ms table).1
unfolding transition
transition-IsValid task_id from_state to_state now_ms table v =
    let rows = (update task_id from_state to_state now_ms table.rows).1 in
    let after : IsValid (record table { rows = rows }) = record {
      distinct = update-Distinct task_id from_state to_state now_ms table.rows v.distinct;
      below = update-All task_id from_state to_state now_ms table.rows (λ t h. h) v.below;
    } in
    elim (Bool-cases ((update task_id from_state to_state now_ms table.rows).0 == 0)) [
      | inl zero ↦ rw zero after
      | inr more ↦ rw more after
    ]
