-- ===== src/Services/Orchestrator/Invariant.antt =====
-- What every task of the program keeps: the invariant of the orchestrator, and revisions that do
-- not fall.
pub mod Steps
pub mod Outcomes
pub mod Evaluation
pub mod Actions
pub mod Calls
use nightshift_opi.Prelude.{
  ℕ, suc, ◌≤◌, ◌≡◌, refl, Bool, true, false, Option, none, some, ltb, arith,
}
use nightshift_opi.Prelude.Bytes.{Bytes}
use nightshift_opi.Prelude.Exec.Keeps.{Keeps, bind-Keeps, then-Keeps}
use nightshift_opi.Domain.Events.{DomainEvent}
use nightshift_opi.Domain.Models.{SystemMode, SystemState}
use nightshift_opi.Services.Tasks.Transitions
use nightshift_opi.Services.Confirmations.{Database}
use nightshift_opi.Services.Executor.{new_executor}
use nightshift_opi.Services.Orchestrator.{Orchestrator, Environment, init}

abbrev pub IsValidDatabase : Option Database → Type 0
IsValidDatabase none = Unit
IsValidDatabase (some db) = Transitions.IsValid db.tasks

-- NEED_CONFIRM stands for a count above 0, PANEL_OFFLINE and SENSOR_ERROR are set only while the
-- panel is offline and the mode is IDLE, the work state is the executor's, and the task table is
-- valid.
pub record Inv (o : Orchestrator) : Type 0 where
  pub counted : o.state.attention.need_confirm ≡ ltb 0 o.state.confirmation_count
  pub offline : o.state.attention.panel_offline ≡ true → o.state.panel_online ≡ false
  pub resting : o.state.attention.sensor_error ≡ true → o.state.mode ≡ SystemMode.idle
  pub working : o.state.work_state ≡ o.executor.state
  pub tables : IsValidDatabase o.db

-- From `o` to `p` the invariant is kept and the revision does not fall.
abbrev pub Later : Orchestrator → Orchestrator → Type 0
Later o p = (Inv o → Inv p) × (o.state.revision ≤ p.state.revision)

pub Later-refl : (o : Orchestrator) → Later o o
Later-refl o = ((λ v. v), omega arith)

pub Later-trans : (o p q : Orchestrator) → Later o p → Later p q → Later o q
Later-trans o p q (f, a) (g, b) = ((λ v. g (f v)), omega arith)

-- What is assumed of the tasks that run while the orchestrator waits.
pub record Relies (env : Environment) : Type 0 where
  pub sends : (command : ℕ) (payload : Bytes) → Keeps Later (env.send command payload)
  pub states : (s : SystemState) (o : Orchestrator) → Later o (env.state_listeners s o)
  pub events : (e : DomainEvent) (o : Orchestrator) → Later o (env.event_listeners e o)

pub init-Inv :
    (db : Option Database) (dwell_ms stale_ms : Option ℕ) (now_ms : ℕ)
    → IsValidDatabase db
    → Inv (init db dwell_ms stale_ms now_ms)
unfolding init
init-Inv db dwell_ms stale_ms now_ms v = record {
  counted = refl;
  offline = λ h. refl;
  resting = λ h. refl;
  working = refl;
  tables = v;
}
