-- ===== src/Services/Confirmations/Validity.antt =====
-- A decision keeps the task table valid, and raises nothing but a ConfirmationError.
use nightshift_opi.Prelude.{ℕ, ◌≡◌, sym, ◌⊎◌, arith, err, confirmation_error, Error, inl, inr}
use mathlib.Core.Path.{subst}
use nightshift_opi.Services.Tasks
use nightshift_opi.Services.Tasks.{TaskTable, pending, active, completed}
use nightshift_opi.Services.Tasks.Transitions.{IsValid, transition-IsValid}
use nightshift_opi.Services.Confirmations.{Database, confirm, reject}

module _ (object_type object_id now_ms : ℕ) (db : Database) where
  confirm-tasks :
      ((confirm object_type object_id now_ms db).1.tasks ≡ db.tasks)
      ⊎ ((confirm object_type object_id now_ms db).1.tasks
          ≡ (Tasks.transition object_id pending active now_ms db.tasks).1)
  unfolding confirm
  confirm-tasks = ground arith

  reject-tasks :
      ((reject object_type object_id now_ms db).1.tasks ≡ db.tasks)
      ⊎ ((reject object_type object_id now_ms db).1.tasks
          ≡ (Tasks.transition object_id pending completed now_ms db.tasks).1)
  unfolding reject
  reject-tasks = ground arith

  pub confirm-IsValid : IsValid db.tasks → IsValid (confirm object_type object_id now_ms db).1.tasks
  confirm-IsValid v = elim confirm-tasks [
    | inl e ↦ subst IsValid (sym e) v
    | inr e ↦ subst IsValid (sym e) (transition-IsValid object_id pending active now_ms db.tasks v)
  ]

  pub reject-IsValid : IsValid db.tasks → IsValid (reject object_type object_id now_ms db).1.tasks
  reject-IsValid v = elim reject-tasks [
    | inl e ↦ subst IsValid (sym e) v
    | inr e ↦
        subst IsValid (sym e) (transition-IsValid object_id pending completed now_ms db.tasks v)
  ]

  pub confirm-error :
      (e : Error) → (confirm object_type object_id now_ms db).0 ≡ err e → e ≡ confirmation_error
  unfolding confirm
  confirm-error e h = ground arith

  pub reject-error :
      (e : Error) → (reject object_type object_id now_ms db).0 ≡ err e → e ≡ confirmation_error
  unfolding reject
  reject-error e h = ground arith
