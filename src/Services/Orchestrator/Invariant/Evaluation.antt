-- ===== src/Services/Orchestrator/Invariant/Evaluation.antt =====
-- The evaluation of the pressure input keeps the invariant.
use nightshift_opi.Prelude.{ℕ, Bool, true, false, not, arith, Bool-cases, inl, inr, if◌then◌else◌}
use nightshift_opi.Domain.Events.{DomainEvent, pressure_changed, mode_changed}
use nightshift_opi.Domain.Models.{SystemState, mode_eq}
use nightshift_opi.Domain.Pressure.{PressureState, state_eq}
use nightshift_opi.Domain.StateMachine.{StateMachine, ModeDecision, evaluate}
use nightshift_opi.Services.Orchestrator.{Orchestrator, Environment}
use nightshift_opi.Services.Orchestrator.Apply.{is_changed, announce, evaluate_and_apply}
use nightshift_opi.Services.Orchestrator.Invariant.{Later, Later-refl, Later-trans, Relies}
use nightshift_opi.Services.Orchestrator.Invariant.Steps.{
  publish_state-Later, sensor_error-idle, applied-Later,
}

-- A new state of the state machine, which the invariant does not speak of.
with_machine : (o : Orchestrator) (sm : StateMachine) → Later o (record o { state_machine = sm })
with_machine o sm = ground arith

module _ (env : Environment) (rely : Relies env) where
  -- An event is announced or not.
  notify-Later :
      (test : Bool) (event : DomainEvent) (o : Orchestrator)
      → Later o (if test then env.event_listeners event o else o)
  notify-Later true event o = rely.events event o
  notify-Later false event o = Later-refl o

  announce-Later :
      (pressure : PressureState) (decision : ModeDecision) (now_ms : ℕ) (previous : SystemState)
      (o : Orchestrator)
      → Later o (announce env pressure decision now_ms previous o)
  unfolding announce
  announce-Later pressure decision now_ms previous o =
      let o1 : Orchestrator =
        if not (state_eq pressure previous.pressure)
        then env.event_listeners (pressure_changed pressure o.state.revision now_ms) o
        else o in
      let o2 : Orchestrator =
        if not (mode_eq decision.mode previous.mode)
        then env.event_listeners
            (mode_changed previous.mode decision.mode decision.reason o1.state.revision now_ms) o1
        else o1 in
      Later-trans o o1 _ (notify-Later _ _ o)
        (Later-trans o1 o2 _ (notify-Later _ _ o1) (publish_state-Later env rely o2))

  pub evaluate_and_apply-Later :
      (pressure : PressureState) (now_ms : ℕ) (o : Orchestrator)
      → Later o (evaluate_and_apply env pressure now_ms o)
  unfolding evaluate_and_apply
  evaluate_and_apply-Later pressure now_ms o =
      let (sm, decision) = evaluate o.state_machine pressure now_ms in
      elim (Bool-cases (is_changed pressure decision o.state)) [
        | inl changed ↦ rw changed (
            Later-trans o _ _
              (applied-Later pressure decision now_ms sm o
                (sensor_error-idle o.state_machine pressure now_ms))
              (announce-Later pressure decision now_ms o.state _))
        | inr same ↦ rw same (with_machine o sm)
      ]
