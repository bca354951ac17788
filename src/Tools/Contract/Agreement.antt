-- ===== src/Tools/Contract/Agreement.antt =====
-- When the comparison finds nothing.
use Prim.Native.String.{String}
use text.Mathlib.Text.{◌==◌ as str_eq}
use text.Mathlib.TextEquality.{eq_iff}
use nightshift_opi.Prelude.{
  ◌≡◌, ◌↔◌, inl, inr, refl, sym, ap, ◌∙◌, Bool, Bool-cases, true, false, ◌&&◌, Option, Option-cases,
  none, some, List, [], ◌∷◌, ◌++◌, All, ok, arith,
}
use mathlib.Core.Path.{subst}
use nightshift_opi.Mqtt.Json.{Json, Fields, json_dict, get}
use nightshift_opi.Mqtt.Schemas.{is_among}
use nightshift_opi.Tools.Contract.{
  frozen_sections, value_of, non_null, normalize, t5_root, compare_section, compare_sections,
  compare_schemas, normalize_schema,
}

pub nil_left {ℓ} : {A : Type ℓ} (xs ys : List A) → xs ++ ys ≡ [] → xs ≡ []
nil_left [] ys e = refl
nil_left (x ∷ xs) ys e = absurd (ground arith)

pub nil_right {ℓ} : {A : Type ℓ} (xs ys : List A) → xs ++ ys ≡ [] → ys ≡ []
nil_right [] ys e = e
nil_right (x ∷ xs) ys e = absurd (ground arith)

get-normalize_absent :
    (key : String) (sections : List String) (schema : Fields)
    → get key schema ≡ none
    → get key (normalize sections schema) ≡ none
unfolding get normalize
get-normalize_absent key [] schema h = refl
get-normalize_absent key (section ∷ rest) schema h =
    let rec = get-normalize_absent key rest schema h in
    elim (Option-cases (get section schema)) [
      | inl absent ↦ ground arith
      | inr (value, e) ↦ elim (Bool-cases (str_eq section key)) [
        | inr other ↦ ground arith
        | inl same ↦
            let clash : get key schema ≡ some value =
              subst (λ k. get k schema ≡ some value) ((eq_iff section key).0 same) e in
            absurd (ground arith)
      ]
    ]

-- Normalising keeps the sections that are asked for.
get-normalize :
    (key : String) (sections : List String) (schema : Fields)
    → is_among key sections ≡ true
    → get key (normalize sections schema) ≡ get key schema
unfolding get normalize is_among
get-normalize key [] schema h = absurd (ground arith)
get-normalize key (section ∷ rest) schema h = elim (Option-cases (get key schema)) [
  | inl absent ↦ get-normalize_absent key (section ∷ rest) schema absent ∙ sym absent
  | inr (value, e) ↦ elim (Bool-cases (str_eq key section)) [
    | inl same ↦
        let found : get section schema ≡ some value =
          subst (λ k. get k schema ≡ some value) ((eq_iff key section).0 same) e in
        let again : str_eq section key ≡ true =
          (eq_iff section key).1 (sym ((eq_iff key section).0 same)) in
        ground arith
    | inr other ↦
        let rec = get-normalize key rest schema (ground arith) in
        let back : str_eq section key ≡ false = elim (Bool-cases (str_eq section key)) [
          | inr f ↦ f
          | inl t ↦
              let forth : str_eq key section ≡ true =
                (eq_iff key section).1 (sym ((eq_iff section key).0 t)) in
              absurd (ground arith)
        ] in
        elim (Option-cases (get section schema)) [
          | inl absent ↦ ground arith
          | inr (v, f) ↦ ground arith
        ]
  ]
]

value_of-normalize :
    (key : String) (schema : Fields)
    → is_among key frozen_sections ≡ true
    → value_of key (normalize frozen_sections schema) ≡ value_of key schema
unfolding value_of
value_of-normalize key schema h = ap non_null (get-normalize key frozen_sections schema h)

unfoldable all_among : List String → List String → Bool
all_among [] keys = true
all_among (k ∷ rest) keys = is_among k keys && all_among rest keys

all_among_lem :
    (ks keys : List String) → all_among ks keys ≡ true → All (λ k. is_among k keys ≡ true) ks
unfolding all_among
all_among_lem [] keys h = tt
all_among_lem (k ∷ rest) keys h = (ground arith, all_among_lem rest keys (ground arith))

frozen_among : All (λ k. is_among k frozen_sections ≡ true) frozen_sections
unfolding is_among all_among
frozen_among = all_among_lem frozen_sections frozen_sections refl

module _ (json_eq : Json → Json → Bool) where
  -- Both sides lack the value, or have equal ones.
  abbrev pub Agree : Option Json → Option Json → Type 0
  Agree none none = Unit
  Agree none (some t5) = ⊥
  Agree (some opi) none = ⊥
  Agree (some opi) (some t5) = json_eq opi t5 ≡ true

  -- A key on which two mappings agree.
  abbrev pub AgreeAt : Fields → Fields → String → Type 0
  AgreeAt opi t5 key = Agree (value_of key opi) (value_of key t5)

  compare_section-nil :
      (section : String) (opi t5 : Option Json)
      → (compare_section json_eq section opi t5 ≡ []) ↔ Agree opi t5
  unfolding compare_section
  compare_section-nil section none none = ((λ e. tt), (λ a. refl))
  compare_section-nil section none (some t5) = ((λ e. absurd (ground arith)), (λ a. absurd a))
  compare_section-nil section (some opi) none = ((λ e. absurd (ground arith)), (λ a. absurd a))
  compare_section-nil section (some opi) (some t5) = ((λ e. ground arith), (λ a. ground arith))

  compare_sections-nil :
      (sections : List String) (opi t5 : Fields)
      → (compare_sections json_eq sections opi t5 ≡ []) ↔ All (AgreeAt opi t5) sections
  unfolding compare_sections
  compare_sections-nil [] opi t5 = ((λ e. tt), (λ a. refl))
  compare_sections-nil (section ∷ rest) opi t5 =
      let x = compare_section json_eq section (value_of section opi) (value_of section t5) in
      let y = compare_sections json_eq rest opi t5 in
      let here = compare_section-nil section (value_of section opi) (value_of section t5) in
      let there = compare_sections-nil rest opi t5 in
      (
        (λ e. (here.0 (nil_left x y e), there.0 (nil_right x y e))),
        (λ a. ap (λ v. v ++ y) (here.1 a.0) ∙ there.1 a.1),
      )

  -- The sections of the normalised mappings agree exactly if those of the mappings do.
  agree_normalize :
      (opi t5 : Fields) (sections : List String)
      → All (λ k. is_among k frozen_sections ≡ true) sections
      → All (AgreeAt (normalize frozen_sections opi) (normalize frozen_sections t5)) sections
        ↔ All (AgreeAt opi t5) sections
  agree_normalize opi t5 [] h = ((λ a. tt), (λ a. tt))
  agree_normalize opi t5 (k ∷ rest) (h, hs) =
      let e = value_of-normalize k opi h in
      let f = value_of-normalize k t5 h in
      let tail = agree_normalize opi t5 rest hs in
      (
        (λ a. (
          subst (λ y. Agree (value_of k opi) y) f
              (subst (λ x. Agree x (value_of k (normalize frozen_sections t5))) e a.0),
          tail.0 a.1,
        )),
        (λ a. (
          subst (λ y. Agree (value_of k (normalize frozen_sections opi)) y) (sym f)
              (subst (λ x. Agree x (value_of k t5)) (sym e) a.0),
          tail.1 a.1,
        )),
      )

  pub compare_normalized :
      (opi t5 : Fields)
      → (compare_sections json_eq frozen_sections
            (normalize frozen_sections opi)
            (normalize frozen_sections t5)
          ≡ [])
        ↔ All (AgreeAt opi t5) frozen_sections
  compare_normalized opi t5 =
      let norm = normalize frozen_sections in
      let nothing = compare_sections-nil frozen_sections (norm opi) (norm t5) in
      let kept = agree_normalize opi t5 frozen_sections frozen_among in
      ((λ e. kept.0 (nothing.0 e)), λ a. nothing.1 (kept.1 a))

  -- For a contract of the other side with a root that is a mapping, the comparison of the schemas
  -- finds nothing exactly if in each of the frozen sections both sides lack it or have equal values.
  pub compare_schemas-Agree :
      (opi t5_schema root : Fields)
      → t5_root t5_schema ≡ json_dict root
      → (compare_schemas json_eq opi t5_schema ≡ ok []) ↔ All (AgreeAt opi root) frozen_sections
  unfolding compare_schemas normalize_schema
  compare_schemas-Agree opi t5_schema root h =
      let norm = normalize frozen_sections in
      let found = compare_sections json_eq frozen_sections (norm opi) (norm root) in
      let both = compare_normalized opi root in
      (
        (λ e. let empty : found ≡ [] = ground arith in both.0 empty),
        (λ a. let empty : found ≡ [] = both.1 a in ground arith),
      )
