-- ===== src/Examples/Tooling.antt =====
-- The development tools at concrete inputs, and the golden vectors of the repository.
use Prim.Native.String.{String}
use text.Mathlib.Text.{◌==◌ as str_eq}
use nightshift_opi.Prelude.{◌≡◌, ◌↔◌, refl, Bool, true, false, some, List, [], ◌∷◌, All, Result, ok}
use nightshift_opi.Tools.Vectors.{Vector, VectorSpec}
use nightshift_opi.Tools.Vectors.StateSpecs.{heartbeat_request}
use nightshift_opi.Tools.Vectors.PanelSpecs.{backlight_set}
use nightshift_opi.Mqtt.Json.{Json, Fields, json_str, json_dict, empty_dict, field, get}
use nightshift_opi.Tools.Contract.{
  frozen_sections, t5_root, normalize_schema, compare_schemas, non_null, value_of, normalize,
  compare_section, compare_sections, same_value, compare_vector, name_of, by_name, lookup,
  compare_found, compare_shared, compare_vectors,
}
use nightshift_opi.Tools.Contract.Find.{find_t5_contract, t5_directory, first_existing}
use nightshift_opi.Tools.Contract.Run.{vector_errors, compare_with, main}
use nightshift_opi.Tools.Contract.Agreement.{AgreeAt, compare_schemas-Agree}
use nightshift_opi.Tools.Contract.Passing.{SchemasAgree, VectorsAgree, main_passes}

abbrev two_specs : List VectorSpec
two_specs = heartbeat_request ∷ backlight_set ∷ []

-- Two objects of contracts/uart/golden_vectors.json.
abbrev two_vectors : List Vector
two_vectors =
    record {
      name = "heartbeat_request";
      sequence = 2;
      command = 2;
      command_name = "HEARTBEAT";
      flags = 1;
      payload_hex =
          56 ∷ 56 ∷ 49 ∷ 51 ∷ 48 ∷ 48 ∷ 48 ∷ 48 ∷ 48 ∷ 49 ∷ 48 ∷ 48 ∷ 48 ∷ 48 ∷ 48 ∷ 48 ∷ [];
      payload_length = 8;
      raw_hex =
          48 ∷ 54 ∷ 53 ∷ 52 ∷ 51 ∷ 53 ∷ 48 ∷ 49 ∷ 48 ∷ 49 ∷ 48 ∷ 50 ∷ 48 ∷ 50 ∷ 48 ∷ 50 ∷ 48 ∷ 50
          ∷ 48 ∷ 56 ∷ 48 ∷ 51 ∷ 56 ∷ 56 ∷ 49 ∷ 51 ∷ 48 ∷ 49 ∷ 48 ∷ 50 ∷ 48 ∷ 49 ∷ 48 ∷ 49 ∷ 48 ∷ 49
          ∷ 48 ∷ 51 ∷ 97 ∷ 56 ∷ 48 ∷ 98 ∷ 48 ∷ 48 ∷ [];
      raw_bytes =
          6 ∷ 84 ∷ 53 ∷ 1 ∷ 1 ∷ 2 ∷ 2 ∷ 2 ∷ 2 ∷ 8 ∷ 3 ∷ 136 ∷ 19 ∷ 1 ∷ 2 ∷ 1 ∷ 1 ∷ 1 ∷ 3 ∷ 168 ∷ 11
          ∷ 0 ∷ [];
    }
    ∷ record {
      name = "backlight_set";
      sequence = 19;
      command = 12290;
      command_name = "BACKLIGHT_SET";
      flags = 1;
      payload_hex = 52 ∷ 98 ∷ [];
      payload_length = 1;
      raw_hex =
          48 ∷ 54 ∷ 53 ∷ 52 ∷ 51 ∷ 53 ∷ 48 ∷ 49 ∷ 48 ∷ 49 ∷ 49 ∷ 51 ∷ 48 ∷ 52 ∷ 48 ∷ 50 ∷ 51 ∷ 48
          ∷ 48 ∷ 49 ∷ 48 ∷ 52 ∷ 52 ∷ 98 ∷ 98 ∷ 55 ∷ 49 ∷ 101 ∷ 48 ∷ 48 ∷ [];
      raw_bytes = 6 ∷ 84 ∷ 53 ∷ 1 ∷ 1 ∷ 19 ∷ 4 ∷ 2 ∷ 48 ∷ 1 ∷ 4 ∷ 75 ∷ 183 ∷ 30 ∷ 0 ∷ [];
    }
    ∷ []

abbrev same_text : Json → Json → Bool
same_text (json_str a) (json_str b) = str_eq a b
same_text a b = false

abbrev contract : Fields
contract = field "magic" (json_str "T5") (field "notes" (json_str "ours") empty_dict)

abbrev other_contract : Fields
other_contract =
    field "t5_link_v1" (json_dict (field "magic" (json_str "T5") empty_dict)) empty_dict

compare_schemas-Agree_example :
    (compare_schemas same_text contract other_contract ≡ ok [])
    ↔ All (AgreeAt same_text contract (field "magic" (json_str "T5") empty_dict)) frozen_sections
unfolding t5_root get
compare_schemas-Agree_example =
    compare_schemas-Agree same_text contract other_contract
      (field "magic" (json_str "T5") empty_dict) refl

abbrev exists_all : String → Bool
exists_all path = true

abbrev read_yaml : String → Result Fields
read_yaml path = ok other_contract

abbrev vector : Fields
vector = field "name" (json_str "hello_request") (field "payload_hex" (json_str "0101") empty_dict)

abbrev read_vectors : String → Result (List Fields)
read_vectors path = ok (vector ∷ [])

passes :
    main same_text read_yaml read_vectors exists_all "/root" "/opt"
      (some "/t5")
      contract
      (vector ∷ [])
    ≡ ok 0
unfolding main find_t5_contract t5_directory first_existing compare_with compare_schemas t5_root
    normalize_schema get normalize compare_sections compare_section value_of non_null vector_errors
    compare_vectors by_name name_of lookup compare_shared compare_found compare_vector same_value
passes = refl

main_passes_example :
    SchemasAgree same_text read_yaml read_vectors contract
      (find_t5_contract exists_all "/root" "/opt" (some "/t5")).0
    × VectorsAgree same_text read_yaml read_vectors
        (vector ∷ [])
        (find_t5_contract exists_all "/root" "/opt" (some "/t5")).1
main_passes_example =
    main_passes same_text read_yaml read_vectors exists_all "/root" "/opt" (some "/t5") contract
      (vector ∷ []) passes
