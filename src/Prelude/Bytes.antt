-- ===== src/Prelude/Bytes.antt =====
-- `bytes` as lists of numbers below 256, and little-endian integers of a fixed width.
use nightshift_opi.Prelude.Tests.{ltb, ◌==◌, if◌then◌else◌, Bool-cases}
use nightshift_opi.Prelude.Lists.{All, All-append, length, take, drop}
use nightshift_opi.Prelude.Results.{Result, ok, err, overflow_error, struct_error, ◌>>=◌, raise_if}
use Prim.Native.Nat.{ℕ, zero, suc, ◌+◌, ◌*◌, ◌/◌, ◌%◌, ◌^◌, ◌<◌}
use mathlib.Core.Path.{◌≡◌, refl}
use mathlib.Core.Bool.{not}
use mathlib.Core.Logic.{◌⊎◌, inl, inr}
use mathlib.Core.List.{List, [], ◌∷◌, ◌++◌}
use native.Mathlib.Omega.{arith}

abbrev pub IsByte : ℕ → Type 0
IsByte b = b < 256

abbrev pub Bytes : Type 0
Bytes = List ℕ

-- The low `w` bytes of `n`, lowest first.
abbrev pub le_bytes : ℕ → ℕ → Bytes
le_bytes zero n = []
le_bytes (suc w) n = n % 256 ∷ le_bytes w (n / 256)

-- `int.from_bytes(data, "little")`
abbrev pub from_le : Bytes → ℕ
from_le [] = 0
from_le (b ∷ bs) = b + 256 * from_le bs

-- `n.to_bytes(w, "little")`
abbrev pub to_bytes : ℕ → ℕ → Result Bytes
to_bytes w n = if ltb n (256 ^ w) then ok (le_bytes w n) else err overflow_error

-- `struct.pack("<...", ...)` over unsigned fields, each with its width in bytes.
unfoldable pub pack : List (ℕ × ℕ) → Result Bytes
pack [] = ok []
pack ((w, n) ∷ fields) =
    let rest = pack fields in
    if ltb n (256 ^ w) then (do bs ← rest; ok (le_bytes w n ++ bs)) else err struct_error

-- The field of `w` bytes at `offset` of what `struct.unpack("<...", data)` reads.
abbrev pub field : ℕ → ℕ → Bytes → ℕ
field offset w bytes = from_le (take w (drop offset bytes))

-- The check of `struct.unpack` that the buffer has the size of the format.
abbrev pub check_size : ℕ → Bytes → Result (Unit {0})
check_size size bytes = raise_if (not (length bytes == size)) struct_error

pub le_bytes-IsByte : (w n : ℕ) → All IsByte (le_bytes w n)
le_bytes-IsByte zero n = tt
le_bytes-IsByte (suc w) n = (omega arith, le_bytes-IsByte w (n / 256))

pub length-le_bytes : (w n : ℕ) → length (le_bytes w n) ≡ w
length-le_bytes zero n = omega arith
length-le_bytes (suc w) n = omega (arith, length-le_bytes w (n / 256))

-- The fields of `pack` are in range, and what it writes then.
abbrev pub Fits : List (ℕ × ℕ) → Type 0
Fits [] = Unit
Fits ((w, n) ∷ fields) = (n < 256 ^ w) × Fits fields

abbrev pub packed : List (ℕ × ℕ) → Bytes
packed [] = []
packed ((w, n) ∷ fields) = le_bytes w n ++ packed fields

pub packed-IsByte : (fields : List (ℕ × ℕ)) → All IsByte (packed fields)
packed-IsByte [] = tt
packed-IsByte ((w, n) ∷ fields) =
    All-append IsByte (le_bytes w n) (packed fields) (le_bytes-IsByte w n) (packed-IsByte fields)

pub pack_cases :
    (fields : List (ℕ × ℕ))
    → (Fits fields × (pack fields ≡ ok (packed fields))) ⊎ (pack fields ≡ err struct_error)
unfolding pack
pack_cases [] = inl (tt, refl)
pack_cases ((w, n) ∷ fields) = elim (Bool-cases (ltb n (256 ^ w))) [
  | inl h ↦ elim (pack_cases fields) [
    | inl (fits, e) ↦ inl ((ground arith, fits), rw (h, e))
    | inr e ↦ inr (rw (h, e))
  ]
  | inr h ↦ inr (rw h)
]

-- What `pack` returns, if it returns.
pub pack-eq_ok :
    (fields : List (ℕ × ℕ)) (bytes : Bytes)
    → pack fields ≡ ok bytes
    → Fits fields × (bytes ≡ packed fields)
pack-eq_ok fields bytes h = elim (pack_cases fields) [ inl (fits, e) ↦ (fits, cc) | inr e ↦ cc ]

pub pack-Fits : (fields : List (ℕ × ℕ)) → Fits fields → pack fields ≡ ok (packed fields)
unfolding pack
pack-Fits [] fits = refl
pack-Fits ((w, n) ∷ fields) fits = ground (arith, pack-Fits fields)

pow_suc : (w : ℕ) → 256 ^ suc w ≡ 256 * 256 ^ w
pow_suc w = omega arith

div_lt : (w n : ℕ) → n < 256 ^ suc w → n / 256 < 256 ^ w
div_lt w n h = let e : 256 ^ suc w ≡ 256 * 256 ^ w = pow_suc w in omega arith

pub from_le-le_bytes : (w n : ℕ) → n < 256 ^ w → from_le (le_bytes w n) ≡ n
from_le-le_bytes zero n h = ground arith
from_le-le_bytes (suc w) n h = omega (arith, from_le-le_bytes w (n / 256) (div_lt w n h))
