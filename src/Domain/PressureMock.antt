-- ===== src/Domain/PressureMock.antt =====
-- The pressure source without hardware (nightshift/domain/pressure_mock.py).
use Prim.Native.String.{String}
use nightshift_opi.Prelude.{
  ℕ, ◌+◌, ◌<◌, ◌≡◌, refl, Bool, true, false, ◌||◌, Option, none, some, leb, arith,
}
use nightshift_opi.Domain.Pressure.{PressureSample, PressureState, is_valid, cushion, footrest}

unfoldable pub go_offline : PressureState → PressureState
go_offline state = record { online = false; last_sample = none; updated_at_ms = 0 }

unfoldable pub go_online : PressureState → PressureState
go_online state = record { online = true; last_sample = none; updated_at_ms = 0 }

-- `prev_seq`
unfoldable pub previous_seq : PressureState → ℕ
previous_seq state = elim state.last_sample [ none ↦ 0 | some sample ↦ sample.seq ]

-- `seq` as it is given, or one above the last
unfoldable pub seq_or_next : Option ℕ → PressureState → ℕ
seq_or_next none state = previous_seq state + 1
seq_or_next (some seq) state = seq

unfoldable pub push :
    ℕ → Bool → Bool → String → Option ℕ → String → PressureState → PressureSample × PressureState
push now_ms is_cushion is_footrest boot_id seq device_id state =
    let sample : PressureSample = record {
      device_id = device_id;
      boot_id = boot_id;
      seq = seq_or_next seq state;
      cushion = is_cushion;
      footrest = is_footrest;
      present = is_cushion || is_footrest;
      uptime_ms = now_ms;
      received_at_ms = now_ms;
    } in
    (sample, record { online = true; last_sample = some sample; updated_at_ms = now_ms })

-- A sample that is pushed without a number is newer than the last one, and the source shows it for
-- exactly as long as a sample of the desk would be.
pub push_shown :
    (now_ms later_ms stale_ms : ℕ) (is_cushion is_footrest : Bool) (boot_id device_id : String)
    (state : PressureState)
    → let (sample, after) = push now_ms is_cushion is_footrest boot_id none device_id state in
      (previous_seq state < sample.seq)
      × (is_valid after later_ms stale_ms ≡ leb later_ms (now_ms + stale_ms))
      × (cushion after ≡ is_cushion)
      × (footrest after ≡ is_footrest)
unfolding push seq_or_next is_valid cushion footrest
push_shown now_ms later_ms stale_ms is_cushion is_footrest boot_id device_id state =
    (omega arith, refl, refl, refl)
