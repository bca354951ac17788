-- ===== src/Prelude/Exec/Keeps.antt =====
-- Methods after which a transitive relation holds between the old state and the new one.
use nightshift_opi.Prelude.Results.{Result, ok, err}
use nightshift_opi.Prelude.Exec.{Exec, continue, ◌>>=◌, ◌>>◌}

abbrev pub Keeps : {S A : Type 0} → (S → S → Type 0) → Exec S A → Type 0
Keeps {S} R m = (s : S) → R s (m s).1

module _ {S : Type 0} (R : S → S → Type 0) (trans : (s t u : S) → R s t → R t u → R s u) where
  continue-Keeps :
      {A B : Type 0} (r : Result A) (f : A → Exec S B)
      → ((a : A) → Keeps R (f a))
      → (s t : S) → R s t
      → R s (continue r f t).1
  continue-Keeps (ok a) f k s t h = trans s t (f a t).1 h (k a t)
  continue-Keeps (err e) f k s t h = h

  pub bind-Keeps :
      {A B : Type 0} (m : Exec S A) (f : A → Exec S B)
      → Keeps R m
      → ((a : A) → Keeps R (f a))
      → Keeps R (m >>= f)
  bind-Keeps m f h k s = continue-Keeps (m s).0 f k s (m s).1 (h s)

  pub then-Keeps :
      {B : Type 0} (m : Exec S Unit) (n : Exec S B) → Keeps R m → Keeps R n → Keeps R (m >> n)
  then-Keeps m n h k = bind-Keeps m (λ _. n) h (λ _. k)
