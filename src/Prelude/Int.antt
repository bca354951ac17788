-- ===== src/Prelude/Int.antt =====
-- Signed integers over the native numbers, under the library's names.
use nightshift_opi.Prelude.Tests.{ltb, leb, if◌then◌else◌}
use nightshift_opi.Prelude.Results.{Result, ok, err, struct_error}
use Prim.Native.Nat.{ℕ, suc, ◌+◌, ◌-◌, ◌^◌, ◌/◌}
use mathlib.Core.Bool.{Bool}
use mathlib.Core.Path.{◌≡◌}
use native.Mathlib.Omega.{arith}

-- `negsuc n` is -(n + 1).
pub data ℤ : Type 0 where
  pos : ℕ → ℤ
  negsuc : ℕ → ℤ

abbrev pub pos_part : ℤ → ℕ
pos_part (pos n) = n
pos_part (negsuc n) = 0

abbrev pub neg_part : ℤ → ℕ
neg_part (pos n) = 0
neg_part (negsuc n) = suc n

abbrev pub leb_ℤ : ℤ → ℤ → Bool
leb_ℤ a b = leb (pos_part a + neg_part b) (pos_part b + neg_part a)

infixl 65 ◌+ℤ◌
abbrev pub ◌+ℤ◌ : ℤ → ℤ → ℤ
pos a +ℤ pos b = pos (a + b)
pos a +ℤ negsuc b = if leb (suc b) a then pos (a - suc b) else negsuc (b - a)
negsuc a +ℤ pos b = if leb (suc a) b then pos (b - suc a) else negsuc (a - b)
negsuc a +ℤ negsuc b = negsuc (suc (a + b))

-- A signed field of `struct.pack`, as the unsigned field with the same bytes.
unfoldable pub of_signed : ℕ → ℤ → Result ℕ
of_signed w (pos n) = if ltb n (256 ^ w / 2) then ok n else err struct_error
of_signed w (negsuc n) = if ltb n (256 ^ w / 2) then ok (256 ^ w - n - 1) else err struct_error

-- The signed field of `struct.unpack` with the bytes of `n`.
unfoldable pub to_signed : ℕ → ℕ → ℤ
to_signed w n = if ltb n (256 ^ w / 2) then pos n else negsuc (256 ^ w - n - 1)

pub to_signed-of_signed :
    (w n : ℕ) (z : ℤ)
    → 256 ^ w ≡ 256 ^ w / 2 + 256 ^ w / 2
    → of_signed w z ≡ ok n
    → to_signed w n ≡ z
unfolding of_signed to_signed
to_signed-of_signed w n (pos k) even h = ground arith
to_signed-of_signed w n (negsuc k) even h = ground arith
