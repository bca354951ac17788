-- ===== src/Prelude/Results.antt =====
-- Python exceptions as values: the exceptions that the modelled code raises or lets through.
use mathlib.Core.Path.{◌≡◌, refl}
use mathlib.Core.Bool.{Bool, true, false}
use mathlib.Core.Logic.{◌⊎◌, inl, inr}

-- One constructor for each exception class. A message is not modelled, except where two
-- messages of one class tell apart branches that the code distinguishes.
pub data Error : Type 0 where
  value_error : Error
  protocol_error : Error
  struct_error : Error
  overflow_error : Error
  unicode_error : Error
  timeout_error : Error
  runtime_error : Error
  type_error : Error
  executor_error : Error
  confirmation_error : Error
  decode_error : Error
  json_error : Error
  key_error : Error
  operational_error : Error
  mqtt_error : Error
  -- `SchemaError`, by its code
  invalid_schema_error : Error
  invalid_argument_error : Error
  -- Not an exception: the fuel of a loop ran out. The theorems on termination exclude it.
  stuck : Error

pub data Result {ℓ} (A : Type ℓ) : Type ℓ where
  ok : A → Result A
  err : Error → Result A

infixl 5 ◌>>=◌ ◌>>◌
abbrev pub ◌>>=◌ {ℓ κ} : {A : Type ℓ} {B : Type κ} → Result A → (A → Result B) → Result B
err e >>= _ = err e
ok a >>= k = k a

abbrev pub ◌>>◌ {ℓ} : {C : Type ℓ} → Result (Unit {0}) → Result C → Result C
first >> rest = first >>= λ _. rest

-- `if test: raise e`
abbrev pub raise_if : Bool → Error → Result (Unit {0})
raise_if true e = err e
raise_if false e = ok tt

pub Result-cases {ℓ} :
    {A : Type ℓ} (r : Result A) → ((a : A) × (r ≡ ok a)) ⊎ ((e : Error) × (r ≡ err e))
Result-cases (ok a) = inl (a, refl)
Result-cases (err e) = inr (e, refl)
