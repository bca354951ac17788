-- ===== src/Services/Orchestrator/Invariant/Outcomes.antt =====
-- From one outcome of a method to another.
use nightshift_opi.Prelude.{◌≡◌, sym, Bool, true, false, some, arith, if◌then◌else◌}
use mathlib.Core.Path.{subst}
use nightshift_opi.Services.Tasks.Transitions
use nightshift_opi.Services.Confirmations.{Database}
use nightshift_opi.Services.Orchestrator.{Orchestrator}
use nightshift_opi.Services.Orchestrator.Invariant.{Later, IsValidDatabase}

-- A new database, whose task table is valid if the old one was.
pub with_database :
    (o : Orchestrator) (db db' : Database)
    → o.db ≡ some db
    → (Transitions.IsValid db.tasks → Transitions.IsValid db'.tasks)
    → Later o (record o { db = some db' })
with_database o db db' e keep = (
  λ v. record {
    counted = v.counted;
    offline = v.offline;
    resting = v.resting;
    working = v.working;
    tables = keep (subst IsValidDatabase e v.tables);
  },
  omega arith,
)

-- To pass to an equal outcome.
pub arrive :
    {A : Type 0} (o : Orchestrator) (x y : A × Orchestrator) → y ≡ x → Later o x.1 → Later o y.1
arrive {A} o x y e h = subst (λ (z : A × Orchestrator). Later o z.1) (sym e) h

pub choose :
    {A : Type 0} (o : Orchestrator) (test : Bool) (x y : A × Orchestrator)
    → Later o x.1
    → Later o y.1
    → Later o (if test then x else y).1
choose o true x y h k = h
choose o false x y h k = k
