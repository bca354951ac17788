-- ===== src/Persistence/Recovery.antt =====
-- Opening a file after openings that were cut off.
use nightshift_opi.Prelude.{
  ℕ, zero, suc, ◌≡◌, refl, sym, Bool, true, none, some, List, [], ◌∷◌, ok, err, Error, take, ◌⊎◌,
  inl, inr, false, Bool-cases, Result-cases, arith,
}
use mathlib.Core.Path.{subst}
use nightshift_opi.Persistence.{
  Schema, new_file, run, apply, due, has_table, set_all, scripts, next_version, Disk, make_parent,
  connect, execute_pragmas, migrate, open_file,
}

-- The file after the first n statements of the migrations.
unfoldable pub stage : ℕ → Schema
stage zero = new_file
stage (suc zero) = record { tables = "tasks" ∷ []; versions = none }
stage (suc (suc zero)) = record { tables = "tasks" ∷ "notices" ∷ []; versions = none }
stage (suc (suc (suc zero))) = record {
  tables = "tasks" ∷ "notices" ∷ "confirmations" ∷ [];
  versions = none;
}
stage (suc (suc (suc (suc zero)))) = record {
  tables = "tasks" ∷ "notices" ∷ "confirmations" ∷ [];
  versions = some [];
}
stage (suc (suc (suc (suc (suc n))))) = record {
  tables = "tasks" ∷ "notices" ∷ "confirmations" ∷ [];
  versions = some (0 ∷ []);
}

-- The last stage.
abbrev pub complete : Schema
complete = record { tables = "tasks" ∷ "notices" ∷ "confirmations" ∷ []; versions = some (0 ∷ []) }

-- An opening that is cut off after some statements, each of which is durable by itself: the script
-- is run outside a transaction.
unfoldable pub cut_off : ℕ → Schema → Schema
cut_off n s = (run (take n (due s)) s).1

unfoldable pub cut_offs : List ℕ → Schema → Schema
cut_offs [] s = s
cut_offs (n ∷ rest) s = cut_offs rest (cut_off n s)

data IsStage (s : Schema) : Type 0 where
  at_stage : (n : ℕ) → s ≡ stage n → IsStage s

after_new_file : (k : ℕ) → IsStage (cut_off k (stage 0))
unfolding cut_off stage due run apply scripts next_version has_table set_all
after_new_file zero = at_stage 0 refl
after_new_file (suc zero) = at_stage 1 refl
after_new_file (suc (suc zero)) = at_stage 2 refl
after_new_file (suc (suc (suc zero))) = at_stage 3 refl
after_new_file (suc (suc (suc (suc zero)))) = at_stage 4 refl
after_new_file (suc (suc (suc (suc (suc zero))))) = at_stage 5 refl
after_new_file (suc (suc (suc (suc (suc (suc zero)))))) = at_stage 5 refl
after_new_file (suc (suc (suc (suc (suc (suc (suc k))))))) = at_stage 5 refl

after_tasks : (k : ℕ) → IsStage (cut_off k (stage 1))
unfolding cut_off stage due run apply scripts next_version has_table set_all
after_tasks zero = at_stage 1 refl
after_tasks (suc zero) = at_stage 1 refl
after_tasks (suc (suc zero)) = at_stage 2 refl
after_tasks (suc (suc (suc zero))) = at_stage 3 refl
after_tasks (suc (suc (suc (suc zero)))) = at_stage 4 refl
after_tasks (suc (suc (suc (suc (suc zero))))) = at_stage 5 refl
after_tasks (suc (suc (suc (suc (suc (suc zero)))))) = at_stage 5 refl
after_tasks (suc (suc (suc (suc (suc (suc (suc k))))))) = at_stage 5 refl

after_notices : (k : ℕ) → IsStage (cut_off k (stage 2))
unfolding cut_off stage due run apply scripts next_version has_table set_all
after_notices zero = at_stage 2 refl
after_notices (suc zero) = at_stage 2 refl
after_notices (suc (suc zero)) = at_stage 2 refl
after_notices (suc (suc (suc zero))) = at_stage 3 refl
after_notices (suc (suc (suc (suc zero)))) = at_stage 4 refl
after_notices (suc (suc (suc (suc (suc zero))))) = at_stage 5 refl
after_notices (suc (suc (suc (suc (suc (suc zero)))))) = at_stage 5 refl
after_notices (suc (suc (suc (suc (suc (suc (suc k))))))) = at_stage 5 refl

after_confirmations : (k : ℕ) → IsStage (cut_off k (stage 3))
unfolding cut_off stage due run apply scripts next_version has_table set_all
after_confirmations zero = at_stage 3 refl
after_confirmations (suc zero) = at_stage 3 refl
after_confirmations (suc (suc zero)) = at_stage 3 refl
after_confirmations (suc (suc (suc zero))) = at_stage 3 refl
after_confirmations (suc (suc (suc (suc zero)))) = at_stage 4 refl
after_confirmations (suc (suc (suc (suc (suc zero))))) = at_stage 5 refl
after_confirmations (suc (suc (suc (suc (suc (suc zero)))))) = at_stage 5 refl
after_confirmations (suc (suc (suc (suc (suc (suc (suc k))))))) = at_stage 5 refl

after_version_table : (k : ℕ) → IsStage (cut_off k (stage 4))
unfolding cut_off stage due run apply scripts next_version has_table set_all
after_version_table zero = at_stage 4 refl
after_version_table (suc zero) = at_stage 4 refl
after_version_table (suc (suc zero)) = at_stage 4 refl
after_version_table (suc (suc (suc zero))) = at_stage 4 refl
after_version_table (suc (suc (suc (suc zero)))) = at_stage 4 refl
after_version_table (suc (suc (suc (suc (suc zero))))) = at_stage 5 refl
after_version_table (suc (suc (suc (suc (suc (suc zero)))))) = at_stage 5 refl
after_version_table (suc (suc (suc (suc (suc (suc (suc k))))))) = at_stage 5 refl

after_version : (n k : ℕ) → IsStage (cut_off k (stage (suc (suc (suc (suc (suc n)))))))
unfolding cut_off stage due run apply scripts next_version has_table set_all
after_version n zero = at_stage 5 refl
after_version n (suc k) = at_stage 5 refl

cut_off-stage : (n k : ℕ) → IsStage (cut_off k (stage n))
cut_off-stage zero = after_new_file
cut_off-stage (suc zero) = after_tasks
cut_off-stage (suc (suc zero)) = after_notices
cut_off-stage (suc (suc (suc zero))) = after_confirmations
cut_off-stage (suc (suc (suc (suc zero)))) = after_version_table
cut_off-stage (suc (suc (suc (suc (suc n))))) = after_version n

run-stage : (n : ℕ) → run (due (stage n)) (stage n) ≡ (ok tt, complete)
unfolding stage due run apply scripts next_version has_table set_all
run-stage zero = refl
run-stage (suc zero) = refl
run-stage (suc (suc zero)) = refl
run-stage (suc (suc (suc zero))) = refl
run-stage (suc (suc (suc (suc zero)))) = refl
run-stage (suc (suc (suc (suc (suc n))))) = refl

cut_off-IsStage : (k : ℕ) (s : Schema) → IsStage s → IsStage (cut_off k s)
cut_off-IsStage k s (at_stage n e) = subst (λ x. IsStage (cut_off k x)) (sym e) (cut_off-stage n k)

cut_offs-IsStage : (ks : List ℕ) (s : Schema) → IsStage s → IsStage (cut_offs ks s)
unfolding cut_offs
cut_offs-IsStage [] s h = h
cut_offs-IsStage (k ∷ ks) s h = cut_offs-IsStage ks (cut_off k s) (cut_off-IsStage k s h)

new_file-IsStage : IsStage new_file
unfolding stage
new_file-IsStage = at_stage 0 refl

run-IsStage : (s : Schema) → IsStage s → run (due s) s ≡ (ok tt, complete)
run-IsStage s (at_stage n e) = subst (λ x. run (due x) x ≡ (ok tt, complete)) (sym e) (run-stage n)

-- The directory of the file is there, or can be created.
abbrev pub HasParent : Disk → Type 0
HasParent d = (d.has_parent ≡ true) ⊎ ((d.has_parent ≡ false) × (d.creates ≡ ok tt))

-- Every call on the path succeeds.
abbrev pub IsUsable : Disk → Type 0
IsUsable d = HasParent d × (d.connects ≡ ok tt) × (d.pragmas ≡ ok tt)

-- The first call on the path that fails raises this exception.
abbrev pub Refuses : Disk → Error → Type 0
Refuses d e =
    ((d.has_parent ≡ false) × (d.creates ≡ err e))
    ⊎ (HasParent d × ((d.connects ≡ err e) ⊎ ((d.connects ≡ ok tt) × (d.pragmas ≡ err e))))

disk_cases : (d : Disk) → IsUsable d ⊎ ((e : Error) × Refuses d e)
disk_cases d =
    let can : HasParent d → IsUsable d ⊎ ((e : Error) × Refuses d e) = λ has.
      elim (Result-cases d.connects) [
        | inr (e, c) ↦ inr (e, inr (has, inl c))
        | inl (u, c) ↦ elim (Result-cases d.pragmas) [
          | inr (e, p) ↦ inr (e, inr (has, inr (c, p)))
          | inl (v, p) ↦ inl (has, c, p)
        ]
      ] in
    elim (Bool-cases d.has_parent) [
      | inl there ↦ can (inl there)
      | inr missing ↦ elim (Result-cases d.creates) [
        | inl (u, made) ↦ can (inr (missing, made))
        | inr (e, fails) ↦ inr (e, inl (missing, fails))
      ]
    ]

refused :
    (d : Disk) (was_open : Bool) (e : Error)
    → Refuses d e
    → (open_file (record { disk = d; is_open = was_open })).0 ≡ err e
unfolding open_file make_parent connect execute_pragmas
refused d was_open e (inl h) = ground arith
refused d was_open e (inr (inl has, inl h)) = ground arith
refused d was_open e (inr (inl has, inr h)) = ground arith
refused d was_open e (inr (inr has, inl h)) = ground arith
refused d was_open e (inr (inr has, inr h)) = ground arith

-- However many openings of a new file were cut off, each after any number of its statements: if the
-- calls on the path succeed, the next opening raises nothing and leaves the database open with the
-- complete schema. If not, it raises what the first of them that fails raises.
pub reopen :
    (ks : List ℕ) (was_open : Bool) (d : Disk)
    → d.file ≡ cut_offs ks new_file
    → (IsUsable d
        × (open_file (record { disk = d; is_open = was_open }) ≡ (
          ok tt,
          record { disk = record d { has_parent = true; file = complete }; is_open = true },
        )))
      ⊎ ((e : Error) × Refuses d e
          × ((open_file (record { disk = d; is_open = was_open })).0 ≡ err e))
unfolding open_file make_parent connect execute_pragmas migrate
reopen ks was_open d h = elim (disk_cases d) [
  | inr (e, fails) ↦ inr (e, fails, refused d was_open e fails)
  | inl (has, c, p) ↦
      let e : run (due d.file) d.file ≡ (ok tt, complete) =
        subst (λ s. run (due s) s ≡ (ok tt, complete)) (sym h)
          (run-IsStage (cut_offs ks new_file) (cut_offs-IsStage ks new_file new_file-IsStage)) in
      inl ((has, c, p), elim has [ inl there ↦ ground arith | inr (missing, made) ↦ ground arith ])
]
