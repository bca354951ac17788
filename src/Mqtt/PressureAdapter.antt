-- ===== src/Mqtt/PressureAdapter.antt =====
-- The pressure adapter's state and its handlers of messages
-- (nightshift/integrations/mqtt/pressure_adapter.py).
pub mod Order
pub mod Messages
pub mod RunLoop
use Prim.Native.String.{String}
use text.Mathlib.Text.{◌==◌ as str_eq}
use nightshift_opi.Prelude.{
  ℕ, Bool, true, false, not, Option, none, some, if◌then◌else◌, Error, Result, ok, err,
  decode_error, json_error, unicode_error,
}
use nightshift_opi.Prelude.Bytes.{Bytes}
use nightshift_opi.Prelude.Int.{ℤ, pos, negsuc, leb_ℤ}
use nightshift_opi.Prelude.Exec.{Exec}
use nightshift_opi.Domain.Pressure.{PressureSample, PressureState, empty}
use nightshift_opi.Mqtt.Json.{Json, Fields, json_bool, json_str, json_dict, get}
use nightshift_opi.Mqtt.PressureCodec.{is_string, decode_pressure_state}

abbrev pub availability_schema : String
availability_schema = "nightshift.sensor-availability.v1"

-- `device_id` is `self.config.device_id`.
pub record PressureMqttAdapter : Type 0 where
  pub device_id : String
  pub state : PressureState
  pub last_boot_id : Option String
  pub last_seq : ℤ

abbrev pub new_adapter : String → PressureMqttAdapter
new_adapter device_id = record {
  device_id = device_id;
  state = empty;
  last_boot_id = none;
  last_seq = negsuc 0;
}

-- `boot_id == self._last_boot_id`
unfoldable pub is_boot : String → Option String → Bool
is_boot boot_id none = false
is_boot boot_id (some last) = str_eq boot_id last

-- `if boot_id != self._last_boot_id: ...`
unfoldable pub note_boot : String → PressureMqttAdapter → PressureMqttAdapter
note_boot boot_id a =
    if is_boot boot_id a.last_boot_id
    then a
    else record a { last_boot_id = some boot_id; last_seq = negsuc 0 }

-- The result of a handler says whether it calls `on_updated`.
unfoldable pub set_online : ℕ → Bool → Fields → PressureMqttAdapter → PressureMqttAdapter
set_online now_ms false fields a = record a {
  state = record a.state { online = false; updated_at_ms = now_ms };
}
set_online now_ms true fields a =
    let noted : PressureMqttAdapter = elim (get "boot_id" fields) [
      | some (json_str boot_id) ↦ note_boot boot_id a
      | _ ↦ a
    ] in
    record noted { state = record noted.state { online = true; updated_at_ms = now_ms } }

unfoldable pub accept_availability : ℕ → Fields → PressureMqttAdapter → Bool × PressureMqttAdapter
accept_availability now_ms fields a =
    if not (is_string availability_schema (get "schema" fields))
    then (false, a)
    else if not (is_string a.device_id (get "device_id" fields))
    then (false, a)
    else elim (get "online" fields) [
      | some (json_bool online) ↦ (true, set_online now_ms online fields a)
      | _ ↦ (false, a)
    ]

-- The part of `_handle_state` behind the decoder.
unfoldable pub accept_sample : ℕ → PressureSample → PressureMqttAdapter → Bool × PressureMqttAdapter
accept_sample now_ms sample a =
    if not (str_eq sample.device_id a.device_id)
    then (false, a)
    else (let noted = note_boot sample.boot_id a in
        if leb_ℤ (pos sample.seq) noted.last_seq then (false, noted) else (
          true,
          record noted {
            last_seq = pos sample.seq;
            state = record noted.state { last_sample = some sample; updated_at_ms = now_ms };
          },
        ))

module _ (loads : Bytes → Result Json) where
  unfoldable pub handle_availability : Bytes → ℕ → Exec PressureMqttAdapter Bool
  handle_availability raw now_ms a = elim (loads raw) [
    | ok (json_dict fields) ↦
        let (updated, a') = accept_availability now_ms fields a in (ok updated, a')
    | ok _ ↦ (ok false, a)
    | err json_error ↦ (ok false, a)
    | err unicode_error ↦ (ok false, a)
    | err e ↦ (err e, a)
  ]

  unfoldable pub handle_state : Bytes → ℕ → Exec PressureMqttAdapter Bool
  handle_state raw now_ms a = elim (decode_pressure_state loads raw now_ms) [
    | ok sample ↦ let (updated, a') = accept_sample now_ms sample a in (ok updated, a')
    | err decode_error ↦ (ok false, a)
    | err e ↦ (err e, a)
  ]
