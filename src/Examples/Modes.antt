-- ===== src/Examples/Modes.antt =====
-- The state machine at concrete inputs.
use nightshift_opi.Prelude.{
  ℕ, ◌+◌, ◌≤◌, ◌≡◌, refl, true, false, some, List, [], ◌∷◌, ◌++◌, All, arith,
}
use nightshift_opi.Domain.Pressure.{PressureSample, PressureState, is_valid, cushion, footrest}
use nightshift_opi.Domain.Models.{night_exec}
use nightshift_opi.Domain.StateMachine.{evaluate}
use nightshift_opi.Domain.StateMachine.Dwell.{
  Input, WasReleased, released, run, night_needs_dwell, night_after_dwell,
}

abbrev released_sample : PressureSample
released_sample = record {
  device_id = "pressure-01";
  boot_id = "a";
  seq = 1;
  cushion = false;
  footrest = false;
  present = false;
  uptime_ms = 5;
  received_at_ms = 1000;
}

abbrev released_state : PressureState
released_state = record { online = true; last_sample = some released_sample; updated_at_ms = 1000 }

abbrev two_calls : List Input
two_calls = (released_state, 2500) ∷ (released_state, 1000) ∷ []

night_needs_dwell_example :
    (recent : List Input) × (q : PressureState) × (t : ℕ) × (older : List Input) × ((
      released_state, 4000,
    )
        ∷ two_calls
      ≡ recent ++ (q, t) ∷ older)
    × All (WasReleased 10000) (recent ++ (q, t) ∷ [])
    × (t + 3000 ≤ 4000)
unfolding run evaluate is_valid
night_needs_dwell_example = night_needs_dwell 3000 10000 4000 released_state two_calls refl

night_after_dwell_example :
    (evaluate (run 3000 10000 two_calls) released_state 4000).1.mode ≡ night_exec
unfolding released is_valid cushion footrest
night_after_dwell_example =
    night_after_dwell 3000 10000 4000 1000 released_state released_state two_calls
      ((released_state, 4000) ∷ (released_state, 2500) ∷ []) [] refl (refl, (refl, (refl, tt))) tt
      (omega arith)
