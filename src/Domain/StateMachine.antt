-- ===== src/Domain/StateMachine.antt =====
-- The pressure-driven state machine (nightshift/domain/state_machine.py).
pub mod Dwell
use Prim.Native.String.{String}
use nightshift_opi.Prelude.{
  ℕ, ◌+◌, Bool, true, false, ◌&&◌, not, Option, none, some, leb, if◌then◌else◌,
}
use nightshift_opi.Domain.Pressure.{PressureState, PressureSample, is_valid}
use nightshift_opi.Domain.Models.{SystemMode, AttentionFlag, no_attention, sensor_error}

pub record ModeDecision : Type 0 where
  pub mode : SystemMode
  pub reason : String
  pub attention : AttentionFlag

pub record StateMachine : Type 0 where
  pub dwell_ms : ℕ
  pub stale_ms : ℕ
  pub all_released_since_ms : Option ℕ

-- The lines behind the two tests on `cushion` and `footrest`; `held_ms >= dwell_ms` with nothing
-- subtracted.
unfoldable pub dwell : StateMachine → ℕ → StateMachine × ModeDecision
dwell sm now_ms =
    let since : ℕ = elim sm.all_released_since_ms [ none ↦ now_ms | some t ↦ t ] in
    (
      record sm { all_released_since_ms = some since },
      if leb (since + sm.dwell_ms) now_ms
          then record {
            mode = SystemMode.night_exec;
            reason = "all_released_dwell";
            attention = no_attention;
          }
          else record {
            mode = SystemMode.idle;
            reason = "all_released_pending_dwell";
            attention = no_attention;
          },
    )

-- The part of `evaluate` behind the test on `is_valid`.
unfoldable pub evaluate_sample : StateMachine → PressureSample → ℕ → StateMachine × ModeDecision
unfolding dwell
evaluate_sample sm sample now_ms =
    if sample.cushion
    then (
      record sm { all_released_since_ms = none },
      record { mode = SystemMode.day_work; reason = "cushion_pressed"; attention = no_attention },
    )
    else if sample.footrest
    then (
      record sm { all_released_since_ms = none },
      record { mode = SystemMode.day_work; reason = "footrest_pressed"; attention = no_attention },
    )
    else dwell sm now_ms

-- The branch of an input that is not valid.
unfoldable pub evaluate_invalid : StateMachine → PressureState → StateMachine × ModeDecision
evaluate_invalid sm pressure = (
  record sm { all_released_since_ms = none },
  record {
    mode = SystemMode.idle;
    reason = if not pressure.online then "pressure_offline" else "pressure_stale";
    attention = sensor_error;
  },
)

-- A valid input has a sample, so the clause for `none` is never read behind the test.
unfoldable pub evaluate : StateMachine → PressureState → ℕ → StateMachine × ModeDecision
unfolding evaluate_sample evaluate_invalid
evaluate sm pressure now_ms =
    if is_valid pressure now_ms sm.stale_ms
    then elim pressure.last_sample [
      | none ↦ evaluate_invalid sm pressure
      | some sample ↦ evaluate_sample sm sample now_ms
    ]
    else evaluate_invalid sm pressure

unfoldable pub reset : StateMachine → StateMachine
reset sm = record sm { all_released_since_ms = none }
