-- ===== src/Domain/Pressure.antt =====
-- Pressure samples and their state (nightshift/domain/pressure.py).
use Prim.Native.String.{String}
use text.Mathlib.Text.{◌==◌ as str_eq}
use nightshift_opi.Prelude.{bool_eq, ℕ, ◌+◌, Bool, true, false, ◌&&◌, Option, none, some, leb, ◌==◌}

abbrev pub stale_ms_default : ℕ
stale_ms_default = 10_000

abbrev pub night_dwell_ms : ℕ
night_dwell_ms = 3_000

abbrev pub pressure_schema_v1 : String
pressure_schema_v1 = "nightshift.pressure-state.v1"

pub record PressureSample : Type 0 where
  pub device_id : String
  pub boot_id : String
  pub seq : ℕ
  pub cushion : Bool
  pub footrest : Bool
  pub present : Bool
  pub uptime_ms : ℕ
  pub received_at_ms : ℕ

pub record PressureState : Type 0 where
  pub online : Bool
  pub last_sample : Option PressureSample
  pub updated_at_ms : ℕ

abbrev pub empty : PressureState
empty = record { online = false; last_sample = none; updated_at_ms = 0 }

-- `now_ms - received_at_ms <= stale_ms` over integers, with nothing subtracted.
unfoldable pub is_valid : PressureState → ℕ → ℕ → Bool
is_valid p now_ms stale_ms = elim p.last_sample [
  | none ↦ false
  | some sample ↦ p.online && leb now_ms (sample.received_at_ms + stale_ms)
]

-- The properties `cushion` and `footrest` of the last known sample.
unfoldable pub cushion : PressureState → Bool
cushion p = elim p.last_sample [ none ↦ false | some sample ↦ sample.cushion ]

unfoldable pub footrest : PressureState → Bool
footrest p = elim p.last_sample [ none ↦ false | some sample ↦ sample.footrest ]

-- The equality of the frozen dataclasses: field by field.
unfoldable pub sample_eq : PressureSample → PressureSample → Bool
sample_eq a b =
    str_eq a.device_id b.device_id
    && str_eq a.boot_id b.boot_id
    && a.seq == b.seq
    && bool_eq a.cushion b.cushion
    && bool_eq a.footrest b.footrest
    && bool_eq a.present b.present
    && a.uptime_ms == b.uptime_ms
    && a.received_at_ms == b.received_at_ms

unfoldable pub last_sample_eq : Option PressureSample → Option PressureSample → Bool
last_sample_eq none none = true
last_sample_eq (some a) (some b) = sample_eq a b
last_sample_eq _ _ = false

unfoldable pub state_eq : PressureState → PressureState → Bool
state_eq a b =
    bool_eq a.online b.online
    && last_sample_eq a.last_sample b.last_sample
    && a.updated_at_ms == b.updated_at_ms
