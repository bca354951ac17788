-- ===== src/Services/Notices/Dismissal.antt =====
-- What dismissing a notice does to the table.
use nightshift_opi.Prelude.{
  ℕ, ◌≡◌, refl, none, List, [], ◌∷◌, ◌==◌, arith, Bool-cases, ==_iff, inl, inr,
}
use nightshift_opi.Services.Notices.{Notice, NoticeTable, find, update, dismiss}

module _ (notice_id now_ms : ℕ) where
  update_none :
      (rows : List Notice)
      → (update notice_id now_ms rows).0 ≡ 0
      → update notice_id now_ms rows ≡ (0, rows)
  unfolding update
  update_none [] h = refl
  update_none (n ∷ rows) h = ground (arith, update_none rows)

  update_unfound :
      (rows : List Notice)
      → find notice_id (update notice_id now_ms rows).1 ≡ none
      → (update notice_id now_ms rows).0 ≡ 0
  unfolding update find
  update_unfound [] h = refl
  update_unfound (n ∷ rows) h = elim (Bool-cases (n.id == notice_id)) [
    | inl same ↦ absurd (ground arith)
    | inr other ↦ ground (arith, update_unfound rows (ground arith))
  ]

  -- A dismissal that returns `None` has changed nothing.
  pub dismiss-none :
      (table : NoticeTable)
      → (dismiss notice_id now_ms table).0 ≡ none
      → dismiss notice_id now_ms table ≡ (none, table)
  unfolding dismiss
  dismiss-none table h =
      let zero : (update notice_id now_ms table.rows).0 ≡ 0 =
        elim (Bool-cases ((update notice_id now_ms table.rows).0 == 0)) [
          | inl z ↦ (==_iff _ _).0 z
          | inr some_row ↦ update_unfound table.rows (ground arith)
        ] in
      rw (update_none table.rows zero) refl
