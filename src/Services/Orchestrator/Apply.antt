-- ===== src/Services/Orchestrator/Apply.antt =====
-- The evaluation of the pressure input (`_evaluate_and_apply`).
use nightshift_opi.Prelude.{ℕ, Bool, ◌||◌, not, some, if◌then◌else◌}
use nightshift_opi.Domain.Events.{pressure_changed, mode_changed}
use nightshift_opi.Domain.Models.{
  AttentionFlag, SystemState, evolve, no_changes, attention_eq, mode_eq,
}
use nightshift_opi.Domain.Pressure.{PressureState, state_eq}
use nightshift_opi.Domain.StateMachine.{ModeDecision, evaluate}
use nightshift_opi.Services.Orchestrator.{Orchestrator, Environment}
use nightshift_opi.Services.Orchestrator.Sync.{publish_state}

-- `(self._state.attention & ~SENSOR_ERROR) | (from_state_machine & SENSOR_ERROR)`
unfoldable pub merge_attention : AttentionFlag → AttentionFlag → AttentionFlag
merge_attention attention from_state_machine = record attention {
  sensor_error = from_state_machine.sensor_error;
}

-- `pressure_changed or mode_changed or attention_changed`
unfoldable pub is_changed : PressureState → ModeDecision → SystemState → Bool
is_changed pressure decision s =
    not (state_eq pressure s.pressure)
    || not (mode_eq decision.mode s.mode)
    || not (attention_eq (merge_attention s.attention decision.attention) s.attention)

unfoldable pub applied : PressureState → ModeDecision → ℕ → SystemState → SystemState
applied pressure decision now_ms s = evolve s (record no_changes {
  mode = some decision.mode;
  attention = some (merge_attention s.attention decision.attention);
  pressure = some pressure;
  updated_at_ms = some now_ms;
})

module _ (env : Environment) where
  -- The lines behind the early return: the events, each stamped with the revision at that time,
  -- and the state.
  unfoldable pub announce :
      PressureState → ModeDecision → ℕ → SystemState → Orchestrator → Orchestrator
  announce pressure decision now_ms previous o =
      let o1 =
        if not (state_eq pressure previous.pressure)
        then env.event_listeners (pressure_changed pressure o.state.revision now_ms) o
        else o in
      let o2 =
        if not (mode_eq decision.mode previous.mode)
        then env.event_listeners
            (mode_changed previous.mode decision.mode decision.reason o1.state.revision now_ms) o1
        else o1 in
      publish_state env o2

  -- `pressure` is `self._pressure_source.snapshot()`.
  unfoldable pub evaluate_and_apply : PressureState → ℕ → Orchestrator → Orchestrator
  unfolding announce
  evaluate_and_apply pressure now_ms o =
      let (sm, decision) = evaluate o.state_machine pressure now_ms in
      let evaluated = record o { state_machine = sm } in
      if is_changed pressure decision o.state
      then announce pressure decision now_ms o.state
          (record evaluated { state = applied pressure decision now_ms o.state })
      else evaluated
