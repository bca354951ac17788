-- ===== src/Tools/Contract.antt =====
-- The comparison of the contract with that of the panel's repository
-- (tools/check_cross_repo_contract.py).
pub mod Find
pub mod Run
pub mod Agreement
pub mod Shared
pub mod Passing
use Prim.Native.String.{String}
use text.Mathlib.Text.{find?}
use nightshift_opi.Prelude.{
  ℕ, Bool, true, false, Option, none, some, List, [], ◌∷◌, ◌++◌, if◌then◌else◌, Result, ok, err,
  key_error, type_error, ◌>>=◌, ◌||◌,
}
use nightshift_opi.Mqtt.Json.{
  Json, Items, Fields, json_null, json_str, json_list, json_dict, empty_list, item, empty_dict,
  field, get,
}

-- `FROZEN_SCHEMA_SECTIONS`
abbrev pub frozen_sections : List String
frozen_sections =
    "magic" ∷ "version" ∷ "max_payload" ∷ "byte_order" ∷ "crc" ∷ "framing" ∷ "string" ∷ "flags"
    ∷ "status" ∷ "object_types" ∷ "capabilities" ∷ "modes" ∷ "work_states" ∷ "ui_actions"
    ∷ "commands" ∷ "payloads" ∷ []

-- `VECTOR_COMPARE_FIELDS`
abbrev pub compare_fields : List String
compare_fields = "name" ∷ "command" ∷ "flags" ∷ "payload_hex" ∷ []

-- What is reported, without the values that are printed.
pub data Difference : Type 0 where
  missing_from_opi : String → Difference
  missing_from_t5 : String → Difference
  section_differs : String → Difference
  field_differs : Json → String → Difference

unfoldable pub non_null : Option Json → Option Json
non_null none = none
non_null (some json_null) = none
non_null (some value) = some value

-- `schema.get(key)`, where `None` is both a missing key and a null
unfoldable pub value_of : String → Fields → Option Json
value_of key schema = non_null (get key schema)

-- The loop of `normalize_schema`
unfoldable pub normalize : List String → Fields → Fields
normalize [] schema = empty_dict
normalize (section ∷ rest) schema = elim (get section schema) [
  | none ↦ normalize rest schema
  | some value ↦ field section value (normalize rest schema)
]

-- `t5_schema.get("t5_link_v1", t5_schema)`
unfoldable pub t5_root : Fields → Json
t5_root schema = elim (get "t5_link_v1" schema) [ none ↦ json_dict schema | some root ↦ root ]

-- `key in text`
unfoldable pub is_within : String → String → Bool
is_within key text = elim (find? text key) [ none ↦ false | some at ↦ true ]

-- Whether a test holds of one of the sections
unfoldable pub any_of : (String → Bool) → List String → Bool
any_of test [] = false
any_of test (section ∷ rest) = test section || any_of test rest

-- `json_eq` is `==` on the values that the parsers of YAML and JSON return.
module _ (json_eq : Json → Json → Bool) where
  -- `key in items`
  unfoldable pub has_item : Json → Items → Bool
  has_item key empty_list = false
  has_item key (item value items) = json_eq key value || has_item key items

  -- A section that is in a text or a list cannot be read there by its name, which raises.
  unfoldable pub no_section : Bool → Result Fields
  no_section true = err type_error
  no_section false = ok empty_dict

  -- `normalize_schema` of any value, with the sections that are asked for. A value that is no
  -- mapping, text or list has no `in`.
  unfoldable pub normalize_schema : List String → Json → Result Fields
  normalize_schema sections (json_dict schema) = ok (normalize sections schema)
  normalize_schema sections (json_str text) =
      no_section (any_of (λ section. is_within section text) sections)
  normalize_schema sections (json_list items) =
      no_section (any_of (λ section. has_item (json_str section) items) sections)
  normalize_schema sections _ = err type_error

  unfoldable pub compare_section : String → Option Json → Option Json → List Difference
  compare_section section none none = []
  compare_section section none (some t5) = missing_from_opi section ∷ []
  compare_section section (some opi) none = missing_from_t5 section ∷ []
  compare_section section (some opi) (some t5) =
      if json_eq opi t5 then [] else section_differs section ∷ []

  -- The loop over the sections
  unfoldable pub compare_sections : List String → Fields → Fields → List Difference
  compare_sections [] opi t5 = []
  compare_sections (section ∷ rest) opi t5 =
      compare_section section (value_of section opi) (value_of section t5)
      ++ compare_sections rest opi t5

  unfoldable pub compare_schemas : Fields → Fields → Result (List Difference)
  compare_schemas opi_schema t5_schema = do
    t5_norm ← normalize_schema frozen_sections (t5_root t5_schema)
    ok (compare_sections frozen_sections (normalize frozen_sections opi_schema) t5_norm)

  -- `opi_val != t5_val`, where a missing field is `None`
  unfoldable pub same_value : Option Json → Option Json → Bool
  same_value none none = true
  same_value none (some t5) = false
  same_value (some opi) none = false
  same_value (some opi) (some t5) = json_eq opi t5

  unfoldable pub compare_vector : Json → List String → Fields → Fields → List Difference
  compare_vector name [] opi t5 = []
  compare_vector name (key ∷ rest) opi t5 =
      let more = compare_vector name rest opi t5 in
      if same_value (value_of key opi) (value_of key t5)
      then more
      else field_differs name key ∷ more

-- `v["name"]` as a key of a dict, which a list and a dict cannot be
unfoldable pub name_of : Fields → Result Json
name_of v = elim (get "name" v) [
  | none ↦ err key_error
  | some (json_list items) ↦ err type_error
  | some (json_dict fields) ↦ err type_error
  | some name ↦ ok name
]

-- `{v["name"]: v for v in t5_vectors}`, the last vector of a name first
unfoldable pub by_name : List (Json × Fields) → List Fields → Result (List (Json × Fields))
by_name table [] = ok table
by_name table (v ∷ rest) = do name ← name_of v; by_name ((name, v) ∷ table) rest

module _ (json_eq : Json → Json → Bool) where
  -- Equal keys are one key of a dict.
  unfoldable pub lookup : Json → List (Json × Fields) → Option Fields
  lookup name [] = none
  lookup name ((n, v) ∷ rest) = if json_eq n name then some v else lookup name rest

  -- The body of the loop: a vector that the other side does not have is passed over.
  unfoldable pub compare_found : Json → Option Fields → Fields → List Difference
  compare_found name none opi = []
  compare_found name (some t5) opi = compare_vector json_eq name compare_fields opi t5

  unfoldable pub compare_shared : List (Json × Fields) → List Fields → Result (List Difference)
  compare_shared table [] = ok []
  compare_shared table (v ∷ rest) = do
    name ← name_of v
    more ← compare_shared table rest
    ok (compare_found name (lookup name table) v ++ more)

  unfoldable pub compare_vectors : List Fields → List Fields → Result (List Difference)
  compare_vectors opi_vectors t5_vectors = do
    table ← by_name [] t5_vectors
    compare_shared table opi_vectors
