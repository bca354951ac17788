-- ===== src/Prelude/Exec.antt =====
-- Methods that mutate an object and may raise: what was written before the exception stays
-- written, so the state comes back beside the error too.
pub mod Keeps
use nightshift_opi.Prelude.Results.{Error, Result, ok, err, type_error}
use nightshift_opi.Prelude.Tests.{if◌then◌else◌}
use mathlib.Core.Bool.{Bool}

abbrev pub Exec {ℓ} : Type ℓ → Type ℓ → Type ℓ
Exec S A = S → Result A × S

module _ {ℓ} {S A : Type ℓ} where
  abbrev pub pure : A → Exec S A
  pure a s = (ok a, s)

  abbrev pub raise : Error → Exec S A
  raise e s = (err e, s)

  abbrev pub lift : Result A → Exec S A
  lift r s = (r, s)

  abbrev pub gets : (S → A) → Exec S A
  gets f s = (ok (f s), s)

module _ {ℓ} {S A B : Type ℓ} where
  abbrev pub continue : Result A → (A → Exec S B) → Exec S B
  continue (err e) _ s = (err e, s)
  continue (ok a) f s = f a s

  infixl 5 ◌>>=◌ ◌>>◌
  abbrev pub ◌>>=◌ : Exec S A → (A → Exec S B) → Exec S B
  ◌>>=◌ m f s = let (r, s') = m s in continue r f s'

  abbrev pub ◌>>◌ : Exec S A → Exec S B → Exec S B
  first >> rest = first >>= λ _. rest

abbrev pub done : {S : Type 0} → Exec S Unit
done s = (ok tt, s)

abbrev pub modify : {S : Type 0} → (S → S) → Exec S Unit
modify f s = (ok tt, f s)

abbrev pub when : {S : Type 0} → Bool → Exec S Unit → Exec S Unit
when b m = if b then m else done

-- `try: m` with the handlers of its `except` clauses as one function of the exception.
abbrev pub catch : {S A : Type 0} → Exec S A → (Error → Exec S A) → Exec S A
catch m handler s = let (r, s') = m s in elim r [ ok a ↦ (ok a, s') | err e ↦ handler e s' ]

-- `logger.warning("...", error=...)` on a logger of the standard library, whose methods take no
-- such keyword: the call raises TypeError, since warnings are enabled by default.
abbrev pub warning_with_keyword {ℓ} : {S A : Type ℓ} → Exec S A
warning_with_keyword = raise type_error
