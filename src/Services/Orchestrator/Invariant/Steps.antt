-- ===== src/Services/Orchestrator/Invariant/Steps.antt =====
-- Every operation of the orchestrator keeps the invariant.
use nightshift_opi.Prelude.{ℕ, ◌≡◌, true, arith, Bool-cases, inl, inr}
use nightshift_opi.Domain.Events.{DomainEvent, heartbeat_received, panel_connectivity_changed}
use nightshift_opi.Domain.Models.{SystemMode, evolve}
use nightshift_opi.Domain.Pressure.{PressureState, is_valid}
use nightshift_opi.Domain.StateMachine.Dwell.{decision_table}
use nightshift_opi.Domain.StateMachine.{StateMachine, ModeDecision, evaluate}
use nightshift_opi.Services.Orchestrator.{Orchestrator, Environment}
use nightshift_opi.Services.Orchestrator.Sync.{full_sync, publish_state}
use nightshift_opi.Services.Orchestrator.Sync.Waits.{full_sync-Keeps, publish_state-Keeps}
use nightshift_opi.Services.Orchestrator.Apply.{applied, merge_attention}
use nightshift_opi.Services.Orchestrator.Events.{on_event, on_heartbeat, on_connectivity}
use nightshift_opi.Services.Orchestrator.Actions.{counted}
use nightshift_opi.Services.Orchestrator.Invariant.{Later, Later-refl, Later-trans, Relies}

-- An event changes the flags of the panel and nothing that the other flags depend on.
pub on_event-Later :
    (event : DomainEvent) (now_ms : ℕ) (o : Orchestrator) → Later o (on_event event now_ms o).1
unfolding on_event on_heartbeat on_connectivity evolve
on_event-Later (heartbeat_received e) now_ms o = ground arith
on_event-Later (panel_connectivity_changed online) now_ms o = ground arith
on_event-Later _ now_ms o = Later-refl o

module _ (env : Environment) (rely : Relies env) where
  pub full_sync-Later : (now_ms : ℕ) (o : Orchestrator) → Later o (full_sync env now_ms o)
  full_sync-Later now_ms o =
      full_sync-Keeps Later Later-refl Later-trans env rely.sends rely.states now_ms o
        (ground arith)

  pub publish_state-Later : (o : Orchestrator) → Later o (publish_state env o)
  publish_state-Later = publish_state-Keeps Later Later-refl Later-trans env rely.sends rely.states

pub sensor_error-idle :
    (sm : StateMachine) (p : PressureState) (now_ms : ℕ)
    → (evaluate sm p now_ms).1.attention.sensor_error ≡ true
    → (evaluate sm p now_ms).1.mode ≡ SystemMode.idle
sensor_error-idle sm p now_ms h = elim (Bool-cases (is_valid p now_ms sm.stale_ms)) [
  | inl valid ↦ absurd (ground (arith, (decision_table sm p now_ms).1 valid))
  | inr invalid ↦ ((decision_table sm p now_ms).0 invalid).0
]

-- The state that a decision leads to, at any revision of the machine.
pub applied-Later :
    (pressure : PressureState) (decision : ModeDecision) (now_ms : ℕ) (sm : StateMachine)
    (o : Orchestrator)
    → (decision.attention.sensor_error ≡ true → decision.mode ≡ SystemMode.idle)
    → Later o (record o { state_machine = sm; state = applied pressure decision now_ms o.state })
unfolding applied merge_attention evolve
applied-Later pressure decision now_ms sm o h = ground arith

pub counted-Later :
    (pending_count now_ms : ℕ) (o : Orchestrator)
    → Later o (record o { state = counted pending_count now_ms o.state })
unfolding counted evolve
counted-Later pending_count now_ms o = ground arith
