-- ===== src/Tools/Contract/Find.antt =====
-- Where the contract of the other repository is looked for (`find_t5_contract` of
-- tools/check_cross_repo_contract.py).
use Prim.Native.String.{String, ◌++◌}
use nightshift_opi.Prelude.{Bool, Option, none, some, List, [], ◌∷◌, if◌then◌else◌}

-- `next((p for p in candidates if p.exists()), None)`
unfoldable pub first_existing : (String → Bool) → List String → Option String
first_existing exists [] = none
first_existing exists (p ∷ rest) = if exists p then some p else first_existing exists rest

-- The directory of the other repository: the argument, or the first candidate that exists. `home` is
-- the home directory and `above` the directory that holds this repository.
unfoldable pub t5_directory : (String → Bool) → String → String → Option String → Option String
t5_directory exists home above (some path) = some path
t5_directory exists home above none =
    first_existing exists
      ("/tmp/nightshift-t5-ref" ∷ (home ++ "/nightshift-t5") ∷ (above ++ "/nightshift-t5") ∷ [])

-- The files of the contract and of the vectors.
unfoldable pub find_t5_contract :
    (String → Bool) → String → String → Option String → Option String × Option String
find_t5_contract exists home above t5_path = elim (t5_directory exists home above t5_path) [
  | none ↦ (none, none)
  | some path ↦ (
    first_existing exists (
        (path ++ "/contracts/uart/commands.yaml")
        ∷ (path ++ "/contracts/t5_link_v1.yaml")
        ∷ (path ++ "/src/protocol/contract.yaml")
        ∷ []),
    first_existing exists (
        (path ++ "/contracts/uart/golden_vectors.json")
        ∷ (path ++ "/tests/golden_vectors.json")
        ∷ (path ++ "/src/protocol/golden_vectors.json")
        ∷ []),
  )
]
