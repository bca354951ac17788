-- ===== src/Mqtt/PressureCodec.antt =====
-- The decoder of pressure samples (nightshift/domain/pressure_codec.py).
use Prim.Native.String.{String}
use text.Mathlib.Text.{◌==◌ as str_eq}
use nightshift_opi.Prelude.{
  ℕ, Bool, false, ◌||◌, not, bool_eq, Option, none, some, Result, ok, err, decode_error, json_error,
  key_error, ◌>>=◌, ◌>>◌, raise_if,
}
use nightshift_opi.Prelude.Bytes.{Bytes}
use nightshift_opi.Prelude.Int.{pos}
use nightshift_opi.Domain.Pressure.{PressureSample, pressure_schema_v1}
use nightshift_opi.Mqtt.Json.{Json, Fields, json_bool, json_int, json_str, json_dict, get}

-- `data[key]`
unfoldable pub subscript : Fields → String → Result Json
subscript fields key = elim (get key fields) [ none ↦ err key_error | some value ↦ ok value ]

unfoldable pub int_of : Json → Result ℕ
int_of (json_int (pos n)) = ok n
int_of _ = err decode_error

unfoldable pub bool_of : Json → Result Bool
bool_of (json_bool b) = ok b
bool_of _ = err decode_error

unfoldable pub str_of : Json → Result String
str_of (json_str s) = ok s
str_of _ = err decode_error

unfoldable pub require_int : Fields → String → Result ℕ
require_int fields key = do value ← subscript fields key; int_of value

unfoldable pub require_bool : Fields → String → Result Bool
require_bool fields key = do value ← subscript fields key; bool_of value

unfoldable pub require_str : Fields → String → Result String
require_str fields key = do value ← subscript fields key; str_of value

-- `except KeyError`, and `except json.JSONDecodeError`: the error becomes a PressureDecodeError.
unfoldable pub as_decode_error : {A : Type 0} → Result A → Result A
as_decode_error (ok a) = ok a
as_decode_error (err key_error) = err decode_error
as_decode_error (err json_error) = err decode_error
as_decode_error (err e) = err e

-- `isinstance(data, dict)`
unfoldable pub dict_of : Json → Result Fields
dict_of (json_dict fields) = ok fields
dict_of _ = err decode_error

-- `schema != PRESSURE_SCHEMA_V1` is the negation.
unfoldable pub is_string : String → Option Json → Bool
is_string text (some (json_str s)) = str_eq s text
is_string text _ = false

-- The tests that hold `gpio[pin]` to a Boolean.
unfoldable pub pin_of : Fields → String → Result Bool
pin_of gpio pin = elim (get pin gpio) [ none ↦ err decode_error | some value ↦ bool_of value ]

-- `"gpio" not in data or not isinstance(data["gpio"], dict)`
unfoldable pub gpio_of : Fields → Result Fields
gpio_of fields = elim (get "gpio" fields) [ none ↦ err decode_error | some value ↦ dict_of value ]

-- The fields of the sample, with `received_at_ms`.
unfoldable pub read_fields : Fields → ℕ → Result PressureSample
read_fields fields received_at_ms = do
  device_id ← require_str fields "device_id"
  boot_id ← require_str fields "boot_id"
  seq ← require_int fields "seq"
  sampled_at_ms ← require_int fields "sampled_at_ms"
  cushion ← require_bool fields "cushion"
  footrest ← require_bool fields "footrest"
  presence ← require_bool fields "presence"
  ok (record {
    device_id = device_id;
    boot_id = boot_id;
    seq = seq;
    cushion = cushion;
    footrest = footrest;
    present = presence;
    uptime_ms = sampled_at_ms;
    received_at_ms = received_at_ms;
  })

-- The lines from the test on `gpio` on.
unfoldable pub check_gpio : Fields → PressureSample → Result PressureSample
check_gpio fields sample = do
  gpio ← gpio_of fields
  pin_4 ← pin_of gpio "4"
  pin_5 ← pin_of gpio "5"
  pin_6 ← pin_of gpio "6"
  pin_7 ← pin_of gpio "7"
  let expected_cushion = pin_4 || pin_5
  let expected_footrest = pin_6 || pin_7
  raise_if (not (bool_eq sample.cushion expected_cushion)) decode_error
  raise_if (not (bool_eq sample.footrest expected_footrest)) decode_error
  raise_if (not (bool_eq sample.present (expected_cushion || expected_footrest))) decode_error
  ok sample

-- `json.loads` is not code of the repository. It may raise a UnicodeDecodeError too, which goes on.
unfoldable pub decode_pressure_state : (Bytes → Result Json) → Bytes → ℕ → Result PressureSample
decode_pressure_state loads raw received_at_ms = do
  value ← as_decode_error (loads raw)
  fields ← dict_of value
  raise_if (not (is_string pressure_schema_v1 (get "schema" fields))) decode_error
  sample ← as_decode_error (read_fields fields received_at_ms)
  check_gpio fields sample
