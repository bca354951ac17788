-- ===== src/Examples/Sensor.antt =====
-- The pressure decoder and adapter at concrete inputs.
use text.Mathlib.Text.{◌==◌ as str_eq}
use nightshift_opi.Prelude.{◌≡◌, ◌≢◌, ◌⊎◌, true, false, none, some, Result, ok, []}
use nightshift_opi.Prelude.Bytes.{Bytes}
use nightshift_opi.Prelude.Int.{pos, leb_ℤ}
use nightshift_opi.Domain.Pressure.{PressureSample, pressure_schema_v1}
use nightshift_opi.Mqtt.Json.{
  Json, Fields, json_bool, json_int, json_str, json_dict, empty_dict, field,
}
use nightshift_opi.Mqtt.PressureCodec.{decode_pressure_state}
use nightshift_opi.Mqtt.PressureAdapter.{new_adapter, is_boot, handle_state}
use nightshift_opi.Mqtt.PressureAdapter.Order.{handle_state_order}

abbrev pins : Fields
pins = field "4" (json_bool true) (
    field "5" (json_bool false)
      (field "6" (json_bool false) (field "7" (json_bool false) empty_dict)))

abbrev message : Fields
message = field "schema" (json_str pressure_schema_v1) (
    field "device_id" (json_str "pressure-01") (
      field "boot_id" (json_str "a") (
        field "seq" (json_int (pos 3)) (
          field "sampled_at_ms" (json_int (pos 70)) (
            field "cushion" (json_bool true) (
              field "footrest" (json_bool false)
                (field "presence" (json_bool true) (field "gpio" (json_dict pins) empty_dict))))))))

-- A parser that knows one message.
abbrev pub loads : Bytes → Result Json
loads raw = ok (json_dict message)

handle_state_order_example :
    let (r, a') = handle_state loads [] 1000 (new_adapter "pressure-01") in
    ((sample : PressureSample) × (r ≡ ok true)
      × (decode_pressure_state loads [] 1000 ≡ ok sample)
      × (str_eq sample.device_id "pressure-01" ≡ true)
      × (is_boot sample.boot_id none ≡ true
          → leb_ℤ (pos sample.seq) (new_adapter "pressure-01").last_seq ≡ false)
      × (a'.last_seq ≡ pos sample.seq)
      × (a'.state ≡ record { online = false; last_sample = some sample; updated_at_ms = 1000 }))
    ⊎ ((r ≢ ok true) × (a'.state ≡ (new_adapter "pressure-01").state))
handle_state_order_example = handle_state_order loads [] 1000 (new_adapter "pressure-01")
