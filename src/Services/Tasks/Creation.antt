-- ===== src/Services/Tasks/Creation.antt =====
-- New tasks.
use nightshift_opi.Prelude.{
  ℕ, suc, ◌≤◌, ◌<◌, All-append, ◌≡◌, ◌≢◌, refl, none, some, List, [], ◌∷◌, ◌++◌, All, arith,
}
use nightshift_opi.Prelude.Int.{ℤ}
use nightshift_opi.Uart.Text.{Text}
use nightshift_opi.Services.Tasks.{Task, TaskTable, pending, state_eq, find, get, create, count_in}
use nightshift_opi.Services.Tasks.Transitions.{IsValid, Distinct}

find_above :
    (rows : List Task) (n k : ℕ) → All (λ (t : Task). t.id ≤ n) rows → n < k → find k rows ≡ none
unfolding find
find_above [] n k a h = refl
find_above (u ∷ rows) n k (b, a) h = ground (arith, find_above rows n k a h)

find-append :
    (rows : List Task) (t : Task) (k : ℕ)
    → find k rows ≡ none
    → t.id ≡ k
    → find k (rows ++ t ∷ []) ≡ some t
unfolding find
find-append [] t k h e = ground arith
find-append (u ∷ rows) t k h e = ground (arith, find-append rows t k (ground arith) e)

find-append_other :
    (rows : List Task) (t : Task) (k : ℕ) → k ≢ t.id → find k (rows ++ t ∷ []) ≡ find k rows
unfolding find
find-append_other [] t k n = ground arith
find-append_other (u ∷ rows) t k n = ground (arith, find-append_other rows t k n)

count_in-append :
    (rows : List Task) (t : Task)
    → t.state ≡ pending
    → count_in pending (rows ++ t ∷ []) ≡ suc (count_in pending rows)
unfolding count_in state_eq
count_in-append [] t h = ground arith
count_in-append (u ∷ rows) t h = ground (arith, count_in-append rows t h)

All-below :
    (rows : List Task) (n : ℕ)
    → All (λ (t : Task). t.id ≤ n) rows
    → All (λ (t : Task). t.id ≤ suc n) rows
All-below [] n a = tt
All-below (u ∷ rows) n (b, a) = (omega arith, All-below rows n a)

Distinct-append :
    (rows : List Task) (t : Task) (n : ℕ)
    → Distinct rows
    → All (λ (u : Task). u.id ≤ n) rows
    → n < t.id
    → Distinct (rows ++ t ∷ [])
unfolding Distinct
Distinct-append [] t n d a h = (tt, tt)
Distinct-append (u ∷ rows) t n (others, d) (b, a) h = (
  All-append (λ (v : Task). v.id ≢ u.id) rows (t ∷ []) others (((λ e. omega arith), tt)),
  Distinct-append rows t n d a h,
)

-- A new task has an id that no task had, is found under it, and leaves the table valid.
pub create_fresh :
    (quadrant : ℤ) (title source : Text) (flags now_ms : ℕ) (table : TaskTable)
    → IsValid table
    → let (t, table') = create quadrant title source flags now_ms table in
      (get t.id table ≡ none)
      × (get t.id table' ≡ some t)
      × ((other : ℕ) → other ≢ t.id → get other table' ≡ get other table)
      × (count_in pending table'.rows ≡ suc (count_in pending table.rows))
      × IsValid table'
unfolding create
create_fresh quadrant title source flags now_ms table v =
    let t = (create quadrant title source flags now_ms table).0 in
    let absent = find_above table.rows table.last_id (suc table.last_id) v.below (omega arith) in
    (
      absent,
      find-append table.rows _ (suc table.last_id) absent refl,
      find-append_other table.rows _,
      count_in-append table.rows _ refl,
      record {
        distinct = Distinct-append table.rows _ table.last_id v.distinct v.below (omega arith);
        below =
            All-append (λ (u : Task). u.id ≤ suc table.last_id) table.rows (t ∷ [])
              (All-below table.rows table.last_id v.below) (omega arith, tt);
      },
    )
