-- ===== src/Tools/Contract/Passing.antt =====
-- What the exit code 0 of the comparison means.
use Prim.Native.String.{String}
use nightshift_opi.Prelude.{
  ◌≡◌, ◌⊎◌, inl, inr, refl, ap, ◌∙◌, Bool, Option, none, some, List, [], ◌∷◌, All, length, Result,
  Result-cases, Bool-cases, false, ok, arith,
}
use nightshift_opi.Mqtt.Json.{
  Json, Fields, json_null, json_bool, json_int, json_float, json_str, json_list, json_dict,
  empty_dict, get,
}
use nightshift_opi.Tools.Contract.{
  frozen_sections, t5_root, normalize, is_within, any_of, has_item, no_section, normalize_schema,
  compare_sections, compare_schemas,
}
use nightshift_opi.Tools.Contract.Find.{find_t5_contract}
use nightshift_opi.Tools.Contract.Run.{vector_errors, compare_with, main}
use nightshift_opi.Tools.Contract.Shared.{SharedAgree, compare_vectors-SharedAgree}
use nightshift_opi.Tools.Contract.Agreement.{AgreeAt, compare_normalized}
use mathlib.Core.Path.{subst}

length-nil {ℓ} : {A : Type ℓ} (xs : List A) → length xs ≡ 0 → xs ≡ []
length-nil [] e = refl
length-nil (x ∷ xs) e = absurd (omega arith)

module _ (json_eq : Json → Json → Bool) (read_yaml : String → Result Fields)
    (read_vectors : String → Result (List Fields)) where
  -- A root that is a mapping, or a text or a list that holds the name of no frozen section.
  abbrev pub IsComparable : Json → Type 0
  IsComparable (json_dict root) = Unit
  IsComparable (json_str text) = All (λ section. is_within section text ≡ false) frozen_sections
  IsComparable (json_list items) =
      All (λ section. has_item json_eq (json_str section) items ≡ false) frozen_sections
  IsComparable _ = ⊥

  -- The sections of a root; one that is not a mapping has none.
  abbrev pub sections_of : Json → Fields
  sections_of (json_dict root) = root
  sections_of _ = empty_dict

  -- The contract of the other side was found and read, and the frozen sections agree.
  abbrev pub SchemasAgree : Fields → Option String → Type 0
  SchemasAgree opi_schema t5_yaml =
      (path : String) × (t5_schema : Fields) × (t5_yaml ≡ some path)
      × (read_yaml path ≡ ok t5_schema)
      × IsComparable (t5_root t5_schema)
      × All (AgreeAt json_eq opi_schema (sections_of (t5_root t5_schema))) frozen_sections

  -- There is no file of vectors, or its vectors agree with ours of the same names.
  abbrev pub VectorsAgree : List Fields → Option String → Type 0
  VectorsAgree opi_vectors t5_vectors =
      (t5_vectors ≡ none)
      ⊎ ((path : String) × (vectors : List Fields) × (t5_vectors ≡ some path)
          × (read_vectors path ≡ ok vectors)
          × SharedAgree json_eq opi_vectors vectors)

  none_of :
      (test : String → Bool) (sections : List String) (norm : Fields)
      → no_section json_eq (any_of test sections) ≡ ok norm
      → All (λ section. test section ≡ false) sections × (norm ≡ empty_dict)
  unfolding any_of no_section
  none_of test [] norm h = (tt, ground arith)
  none_of test (section ∷ rest) norm h = elim (Bool-cases (test section)) [
    | inl found ↦ absurd (ground arith)
    | inr absent ↦ let (others, e) = none_of test rest norm (ground arith) in ((absent, others), e)
  ]

  normalized :
      (root : Json) (norm : Fields)
      → normalize_schema json_eq frozen_sections root ≡ ok norm
      → IsComparable root × (norm ≡ normalize frozen_sections (sections_of root))
  unfolding normalize_schema normalize get
  normalized (json_dict root) norm h = (tt, ground arith)
  normalized (json_str text) norm h = none_of (λ section. is_within section text) _ norm h
  normalized (json_list items) norm h =
      none_of (λ section. has_item json_eq (json_str section) items) _ norm h
  normalized json_null norm h = absurd (ground arith)
  normalized (json_bool b) norm h = absurd (ground arith)
  normalized (json_int n) norm h = absurd (ground arith)
  normalized json_float norm h = absurd (ground arith)

  schemas_agree :
      (opi_schema t5_schema : Fields) (path : String)
      → read_yaml path ≡ ok t5_schema
      → compare_schemas json_eq opi_schema t5_schema ≡ ok []
      → SchemasAgree opi_schema (some path)
  unfolding compare_schemas
  schemas_agree opi_schema t5_schema path r h =
      let root = t5_root t5_schema in
      elim (Result-cases (normalize_schema json_eq frozen_sections root)) [
        | inr (x, e) ↦ absurd (ground arith)
        | inl (norm, e) ↦
            let (fits, is) = normalized root norm e in
            let found : compare_sections json_eq frozen_sections
                  (normalize frozen_sections opi_schema) norm
                ≡ [] =
              ground arith in
            (
              path,
              t5_schema,
              refl,
              r,
              fits,
              (compare_normalized json_eq opi_schema (sections_of root)).0 (
                  subst
                    (λ n.
                      compare_sections json_eq frozen_sections
                        (normalize frozen_sections opi_schema) n
                      ≡ [])
                    is found),
            )
      ]

  vectors_agree :
      (opi_vectors : List Fields) (t5_vectors : Option String)
      → vector_errors json_eq read_yaml read_vectors opi_vectors t5_vectors ≡ ok []
      → VectorsAgree opi_vectors t5_vectors
  unfolding vector_errors
  vectors_agree opi_vectors none h = inl refl
  vectors_agree opi_vectors (some path) h = elim (Result-cases (read_vectors path)) [
    | inr (x, e) ↦ absurd (ground arith)
    | inl (vectors, e) ↦ inr (
      path,
      vectors,
      refl,
      e,
      compare_vectors-SharedAgree json_eq opi_vectors vectors (ground arith),
    )
  ]

  compare_with_passes :
      (opi_schema : Fields) (opi_vectors : List Fields) (t5_yaml t5_vectors : Option String)
      → compare_with json_eq read_yaml read_vectors opi_schema opi_vectors t5_yaml t5_vectors ≡ ok 0
      → SchemasAgree opi_schema t5_yaml × VectorsAgree opi_vectors t5_vectors
  unfolding compare_with
  compare_with_passes opi_schema opi_vectors none t5_vectors h = absurd (ground arith)
  compare_with_passes opi_schema opi_vectors (some path) t5_vectors h =
      elim (Result-cases (read_yaml path)) [
        | inr (x, e) ↦ absurd (ground arith)
        | inl (t5_schema, e) ↦ elim (Result-cases (compare_schemas json_eq opi_schema t5_schema)) [
          | inr (x, f) ↦ absurd (ground arith)
          | inl (schema, f) ↦
              elim (Result-cases
                (vector_errors json_eq read_yaml read_vectors opi_vectors t5_vectors)) [
                  | inr (x, g) ↦ absurd (ground arith)
                  | inl (vectors, g) ↦
                      let none_left : (length schema ≡ 0) × (length vectors ≡ 0) = ground arith in
                      let no_schema = length-nil schema none_left.0 in
                      let no_vectors = length-nil vectors none_left.1 in
                      (
                        schemas_agree opi_schema t5_schema path e (f ∙ ap ok no_schema),
                        vectors_agree opi_vectors t5_vectors (g ∙ ap ok no_vectors),
                      )
                ]
        ]
      ]

  -- If the tool exits with 0, then a contract of the other side was found and read, both sides lack or
  -- have equal values in each of the frozen sections, where a root that is a text or a list has none
  -- and holds none of their names, and no file of vectors was found or each of our vectors that it
  -- names has the same four fields there.
  pub main_passes :
      (exists : String → Bool) (home above : String) (t5_path : Option String) (opi_schema : Fields)
      (opi_vectors : List Fields)
      → main json_eq read_yaml read_vectors exists home above t5_path opi_schema opi_vectors ≡ ok 0
      → SchemasAgree opi_schema (find_t5_contract exists home above t5_path).0
        × VectorsAgree opi_vectors (find_t5_contract exists home above t5_path).1
  unfolding main
  main_passes exists home above t5_path opi_schema opi_vectors h =
      let (t5_yaml, t5_vectors) = find_t5_contract exists home above t5_path in
      compare_with_passes opi_schema opi_vectors t5_yaml t5_vectors h
