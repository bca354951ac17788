-- ===== src/Services/Notices.antt =====
-- The notices and their table (nightshift/services/notice_service.py).
pub mod Latest
pub mod Dismissal
use nightshift_opi.Prelude.{
  ℕ, suc, Bool, true, false, ◌&&◌, ◌||◌, Option, none, some, List, [], ◌∷◌, ◌++◌, ◌==◌, ltb,
  if◌then◌else◌,
}
use nightshift_opi.Uart.Text.{Text}

pub record Notice : Type 0 where
  pub id : ℕ
  pub flags : ℕ
  pub title : Text
  pub body : Text
  pub expires_at_ms : Option ℕ
  pub created_at_ms : ℕ
  pub dismissed_at_ms : Option ℕ

pub record NoticeTable : Type 0 where
  pub rows : List Notice
  pub last_id : ℕ

abbrev pub no_notices : NoticeTable
no_notices = record { rows = []; last_id = 0 }

unfoldable pub create : Text → Text → ℕ → Option ℕ → ℕ → NoticeTable → Notice × NoticeTable
create title body flags expires_at_ms now_ms table =
    let notice : Notice = record {
      id = suc table.last_id;
      flags = flags;
      title = title;
      body = body;
      expires_at_ms = expires_at_ms;
      created_at_ms = now_ms;
      dismissed_at_ms = none;
    } in
    (notice, record { rows = table.rows ++ notice ∷ []; last_id = suc table.last_id })

unfoldable pub find : ℕ → List Notice → Option Notice
find notice_id [] = none
find notice_id (n ∷ rows) = if n.id == notice_id then some n else find notice_id rows

abbrev pub get : ℕ → NoticeTable → Option Notice
get notice_id table = find notice_id table.rows

-- `dismissed_at_ms IS NULL`
abbrev pub is_active : Notice → Bool
is_active n = elim n.dismissed_at_ms [ none ↦ true | some _ ↦ false ]

-- `UPDATE notices SET dismissed_at_ms = ? WHERE id = ? AND dismissed_at_ms IS NULL`:
-- `cursor.rowcount` and the rows.
unfoldable pub update : ℕ → ℕ → List Notice → ℕ × List Notice
update notice_id now_ms [] = (0, [])
update notice_id now_ms (n ∷ rows) =
    let (rowcount, rest) = update notice_id now_ms rows in
    if n.id == notice_id && is_active n
    then (suc rowcount, record n { dismissed_at_ms = some now_ms } ∷ rest)
    else (rowcount, n ∷ rest)

unfoldable pub dismiss : ℕ → ℕ → NoticeTable → Option Notice × NoticeTable
dismiss notice_id now_ms table =
    let (rowcount, rows) = update notice_id now_ms table.rows in
    let table' = record table { rows = rows } in
    if rowcount == 0 then (none, table') else (get notice_id table', table')

unfoldable pub count_active : List Notice → ℕ
count_active [] = 0
count_active (n ∷ rows) = let k = count_active rows in if is_active n then suc k else k

-- `WHERE dismissed_at_ms IS NULL AND (expires_at_ms IS NULL OR expires_at_ms > ?)`
unfoldable pub is_shown : ℕ → Notice → Bool
is_shown now_ms n = is_active n && elim n.expires_at_ms [ none ↦ true | some t ↦ ltb now_ms t ]

-- `ORDER BY created_at_ms DESC, id DESC`: whether `a` comes before `b`
unfoldable pub is_newer : Notice → Notice → Bool
is_newer a b =
    if ltb b.created_at_ms a.created_at_ms
    then true
    else a.created_at_ms == b.created_at_ms && ltb b.id a.id

-- `LIMIT 1`: the first row in that order
unfoldable pub newest : ℕ → List Notice → Option Notice
newest now_ms [] = none
newest now_ms (n ∷ rows) =
    let rest = newest now_ms rows in
    if is_shown now_ms n
    then elim rest [ none ↦ some n | some m ↦ if is_newer m n then some m else some n ]
    else rest

unfoldable pub latest_active : ℕ → NoticeTable → Option Notice
latest_active now_ms table = newest now_ms table.rows
