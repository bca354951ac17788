-- ===== src/Tools/Contract/Shared.antt =====
-- When the comparison of the vectors finds nothing.
use Prim.Native.String.{String}
use nightshift_opi.Prelude.{
  ◌≡◌, inl, inr, ap, ◌∙◌, Bool, Bool-cases, true, Option, none, some, List, [], ◌∷◌, ◌++◌, All,
  Result-cases, ok, arith,
}
use nightshift_opi.Mqtt.Json.{Json, Fields}
use nightshift_opi.Tools.Contract.{
  compare_fields, value_of, same_value, compare_vector, compare_found, compare_shared,
  compare_vectors, name_of, by_name, lookup,
}
use nightshift_opi.Tools.Contract.Agreement.{nil_left, nil_right}

module _ (json_eq : Json → Json → Bool) where
  -- The vector of the other side, if there is one, has the same fields.
  abbrev pub SameFields : Fields → Option Fields → Type 0
  SameFields opi none = Unit
  SameFields opi (some t5) =
      All (λ key. same_value json_eq (value_of key opi) (value_of key t5) ≡ true) compare_fields

  -- The vectors of the other side have names, and each of ours that has one of the same name there
  -- has the fields of the last of them.
  pub record SharedAgree (opi_vectors t5_vectors : List Fields) : Type 0 where
    pub table : List (Json × Fields)
    pub named : by_name [] t5_vectors ≡ ok table
    pub agree :
        All
          (λ v. (name : Json) × (name_of v ≡ ok name) × SameFields v (lookup json_eq name table))
          opi_vectors

  compare_vector-nil :
      (name : Json) (keys : List String) (opi t5 : Fields)
      → compare_vector json_eq name keys opi t5 ≡ []
      → All (λ key. same_value json_eq (value_of key opi) (value_of key t5) ≡ true) keys
  unfolding compare_vector
  compare_vector-nil name [] opi t5 h = tt
  compare_vector-nil name (key ∷ rest) opi t5 h =
      elim (Bool-cases (same_value json_eq (value_of key opi) (value_of key t5))) [
        | inl same ↦ (same, compare_vector-nil name rest opi t5 (ground arith))
        | inr other ↦ absurd (ground arith)
      ]

  compare_found-nil :
      (name : Json) (opi : Fields) (t5 : Option Fields)
      → compare_found json_eq name t5 opi ≡ []
      → SameFields opi t5
  unfolding compare_found
  compare_found-nil name opi none h = tt
  compare_found-nil name opi (some t5) h = compare_vector-nil name compare_fields opi t5 h

  compare_shared-nil :
      (table : List (Json × Fields)) (vectors : List Fields)
      → compare_shared json_eq table vectors ≡ ok []
      → All
          (λ v. (name : Json) × (name_of v ≡ ok name) × SameFields v (lookup json_eq name table))
          vectors
  unfolding compare_shared
  compare_shared-nil table [] h = tt
  compare_shared-nil table (v ∷ rest) h = elim (Result-cases (name_of v)) [
    | inr (x, e) ↦ absurd (ground arith)
    | inl (name, e) ↦ elim (Result-cases (compare_shared json_eq table rest)) [
      | inr (x, f) ↦ absurd (ground arith)
      | inl (more, f) ↦
          let found = compare_found json_eq name (lookup json_eq name table) v in
          let both : found ++ more ≡ [] = ground arith in
          let none_more : more ≡ [] = nil_right found more both in
          (
            (
              name,
              e,
              compare_found-nil name v (lookup json_eq name table) (nil_left found more both),
            ),
            compare_shared-nil table rest (f ∙ ap ok none_more),
          )
    ]
  ]

  pub compare_vectors-SharedAgree :
      (opi_vectors t5_vectors : List Fields)
      → compare_vectors json_eq opi_vectors t5_vectors ≡ ok []
      → SharedAgree opi_vectors t5_vectors
  unfolding compare_vectors
  compare_vectors-SharedAgree opi_vectors t5_vectors h =
      elim (Result-cases (by_name [] t5_vectors)) [
        | inr (x, e) ↦ absurd (ground arith)
        | inl (table, e) ↦ record {
          table = table;
          named = e;
          agree = compare_shared-nil table opi_vectors (ground arith);
        }
      ]
