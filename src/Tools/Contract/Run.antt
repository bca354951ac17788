-- ===== src/Tools/Contract/Run.antt =====
-- The exit code of the comparison (`main` of tools/check_cross_repo_contract.py).
use Prim.Native.String.{String}
use nightshift_opi.Prelude.{
  ℕ, ◌+◌, ◌==◌, Bool, Option, none, some, List, [], length, if◌then◌else◌, Result, ok, ◌>>=◌,
}
use nightshift_opi.Mqtt.Json.{Json, Fields}
use nightshift_opi.Tools.Contract.{Difference, compare_schemas, compare_vectors}
use nightshift_opi.Tools.Contract.Find.{find_t5_contract}

-- `read_yaml` is the mapping in a YAML file, and `read_vectors` the list under "golden_vectors" in a
-- JSON file, empty if there is none; each raises what reading and parsing raise.
module _ (json_eq : Json → Json → Bool) (read_yaml : String → Result Fields)
    (read_vectors : String → Result (List Fields)) where
  unfoldable pub vector_errors : List Fields → Option String → Result (List Difference)
  vector_errors opi_vectors none = ok []
  vector_errors opi_vectors (some path) = do
    t5_vectors ← read_vectors path
    compare_vectors json_eq opi_vectors t5_vectors

  -- The part behind the search for the files.
  unfoldable pub compare_with : Fields → List Fields → Option String → Option String → Result ℕ
  compare_with opi_schema opi_vectors none t5_vectors = ok 1
  compare_with opi_schema opi_vectors (some t5_yaml) t5_vectors = do
    t5_schema ← read_yaml t5_yaml
    schema_errors ← compare_schemas json_eq opi_schema t5_schema
    vector_differences ← vector_errors opi_vectors t5_vectors
    ok (if length schema_errors + length vector_differences == 0 then 0 else 1)

  unfoldable pub main :
      (String → Bool) → String → String → Option String → Fields → List Fields → Result ℕ
  main exists home above t5_path opi_schema opi_vectors =
      let (t5_yaml, t5_vectors) = find_t5_contract exists home above t5_path in
      compare_with opi_schema opi_vectors t5_yaml t5_vectors
