-- ===== src/Services/Notices/Latest.antt =====
-- Which notice is shown.
use nightshift_opi.Prelude.{
  ℕ, ◌≡◌, refl, ap, ◌⊎◌, inl, inr, true, false, Option, none, some, List, [], ◌∷◌, ◌++◌, All, arith,
  Bool-cases,
}
use nightshift_opi.Services.Notices.{Notice, NoticeTable, is_shown, is_newer, newest, latest_active}

-- No notice to be shown, or the newest of them.
abbrev Outcome : ℕ → List Notice → Option Notice → Type 0
Outcome now_ms rows result =
    ((result ≡ none) × All (λ (m : Notice). is_shown now_ms m ≡ false) rows)
    ⊎ ((n : Notice) × (result ≡ some n)
        × (is_shown now_ms n ≡ true)
        × ((before : List Notice) × (after : List Notice) × (rows ≡ before ++ n ∷ after))
        × All (λ (m : Notice). is_shown now_ms m ≡ true → is_newer m n ≡ false) rows)

not_newer_trans :
    (k m n : Notice) → is_newer k m ≡ false → is_newer m n ≡ false → is_newer k n ≡ false
unfolding is_newer
not_newer_trans k m n h i = ground arith

newer_irrefl : (n : Notice) → is_newer n n ≡ false
unfolding is_newer
newer_irrefl n = ground arith

newer_asym : (m n : Notice) → is_newer m n ≡ true → is_newer n m ≡ false
unfolding is_newer
newer_asym m n h = ground arith

older-All :
    (now_ms : ℕ) (m n : Notice) (rows : List Notice)
    → is_newer m n ≡ false
    → All (λ (k : Notice). is_shown now_ms k ≡ true → is_newer k m ≡ false) rows
    → All (λ (k : Notice). is_shown now_ms k ≡ true → is_newer k n ≡ false) rows
older-All now_ms m n [] h a = tt
older-All now_ms m n (k ∷ rows) h (b, a) =
    ((λ s. not_newer_trans k m n (b s) h), older-All now_ms m n rows h a)

hidden-All :
    (now_ms : ℕ) (n : Notice) (rows : List Notice)
    → All (λ (k : Notice). is_shown now_ms k ≡ false) rows
    → All (λ (k : Notice). is_shown now_ms k ≡ true → is_newer k n ≡ false) rows
hidden-All now_ms n [] a = tt
hidden-All now_ms n (k ∷ rows) (b, a) = ((λ s. absurd (cc)), hidden-All now_ms n rows a)

newest_lem : (now_ms : ℕ) (rows : List Notice) → Outcome now_ms rows (newest now_ms rows)
unfolding newest
newest_lem now_ms [] = inl (refl, tt)
newest_lem now_ms (n ∷ rows) = elim (Bool-cases (is_shown now_ms n)) [
  | inl shown ↦ elim (newest_lem now_ms rows) [
    | inl (e, hidden) ↦ inr (
      n,
      ground arith,
      shown,
      ([], rows, refl),
      ((λ s. newer_irrefl n), hidden-All now_ms n rows hidden),
    )
    | inr (m, e, m_shown, (before, after, place), older) ↦ elim (Bool-cases (is_newer m n)) [
      | inl newer ↦ inr (
        m,
        ground arith,
        m_shown,
        (n ∷ before, after, ap (◌∷◌ n) place),
        ((λ s. newer_asym m n newer), older),
      )
      | inr not_newer ↦ inr (
        n,
        ground arith,
        shown,
        ([], rows, refl),
        ((λ s. newer_irrefl n), older-All now_ms m n rows not_newer older),
      )
    ]
  ]
  | inr hidden ↦ elim (newest_lem now_ms rows) [
    | inl (e, others) ↦ inl (ground arith, (hidden, others))
    | inr (m, e, m_shown, (before, after, place), older) ↦
        inr (
          m,
          ground arith,
          m_shown,
          (n ∷ before, after, ap (◌∷◌ n) place),
          ((λ s. absurd cc), older),
        )
  ]
]

-- `latest_active` returns `None` exactly when no notice is to be shown; otherwise it returns a row
-- of the table that is to be shown, and no other row that is to be shown is newer.
pub latest_active_lem :
    (now_ms : ℕ) (table : NoticeTable)
    → ((latest_active now_ms table ≡ none)
        × All (λ (m : Notice). is_shown now_ms m ≡ false) table.rows)
      ⊎ ((n : Notice) × (latest_active now_ms table ≡ some n)
          × (is_shown now_ms n ≡ true)
          × ((before : List Notice) × (after : List Notice) × (table.rows ≡ before ++ n ∷ after))
          × All (λ (m : Notice). is_shown now_ms m ≡ true → is_newer m n ≡ false) table.rows)
unfolding latest_active
latest_active_lem now_ms table = newest_lem now_ms table.rows
