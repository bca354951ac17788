-- ===== src/Mqtt/PressureAdapter/Messages.antt =====
-- The topics of the sensor, and what is done with a message (`_handle_message`).
use Prim.Native.String.{String, ◌++◌}
use text.Mathlib.Text.{◌==◌ as str_eq}
use nightshift_opi.Prelude.{ℕ, Bool, false, if◌then◌else◌, Result, ok}
use nightshift_opi.Prelude.Bytes.{Bytes}
use nightshift_opi.Prelude.Exec.{Exec}
use nightshift_opi.Mqtt.Json.{Json}
use nightshift_opi.Mqtt.PressureAdapter.{PressureMqttAdapter, handle_availability, handle_state}

abbrev pub availability_topic : String → PressureMqttAdapter → String
availability_topic base_topic a = base_topic ++ "/" ++ a.device_id ++ "/availability"

abbrev pub state_topic : String → PressureMqttAdapter → String
state_topic base_topic a = base_topic ++ "/" ++ a.device_id ++ "/state"

abbrev pub telemetry_topic : String → PressureMqttAdapter → String
telemetry_topic base_topic a = base_topic ++ "/" ++ a.device_id ++ "/telemetry"

-- The result says whether `on_updated` is called.
unfoldable pub handle_message :
    (Bytes → Result Json) → String → String → Bytes → ℕ → Exec PressureMqttAdapter Bool
handle_message loads base_topic topic raw now_ms a =
    if str_eq topic (availability_topic base_topic a)
    then handle_availability loads raw now_ms a
    else if str_eq topic (state_topic base_topic a)
    then handle_state loads raw now_ms a
    else (ok false, a)
