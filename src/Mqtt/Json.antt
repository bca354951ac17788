-- ===== src/Mqtt/Json.antt =====
-- The values that `json.loads` returns. A float is not read by the code, and has no digits here.
use Prim.Native.String.{String}
use text.Mathlib.Text.{◌==◌ as str_eq}
use nightshift_opi.Prelude.{Bool, Option, none, some, if◌then◌else◌}
use nightshift_opi.Prelude.Int.{ℤ}

mutual
  pub data Json : Type 0 where
    json_null : Json
    json_bool : Bool → Json
    json_int : ℤ → Json
    json_float : Json
    json_str : String → Json
    json_list : Items → Json
    json_dict : Fields → Json

  pub data Items : Type 0 where
    empty_list : Items
    item : Json → Items → Items

  pub data Fields : Type 0 where
    empty_dict : Fields
    field : String → Json → Fields → Fields

-- `data.get(key)`; a dict has each key once
unfoldable pub get : String → Fields → Option Json
get key empty_dict = none
get key (field k value fields) = if str_eq k key then some value else get key fields
