-- ===== src/Uart/Cobs/Bounds.antt =====
-- How long COBS frames get, that they hold no zero byte, and that the decoder ends.
use nightshift_opi.Prelude.{
  ℕ, zero, suc, ◌+◌, ◌-◌, ◌/◌, ◌≤◌, ◌<◌, ◌≡◌, ◌≢◌, [], ◌∷◌, ◌++◌, ltb, ◌==◌, ◌&&◌, false,
  if◌then◌else◌, length, take, drop, All, All-append, ok, err, stuck, arith, length-append,
  length-take, length-drop, Bool-cases, inl, inr,
}
use nightshift_opi.Prelude.Bytes.{Bytes, IsByte}
use nightshift_opi.Uart.Cobs.{cobs_encode, cobs_decode_loop, cobs_decode}
use nightshift_opi.Uart.Cobs.RoundTrip.{encoding, cobs_encode-encoding}

-- A byte that may stand inside a frame: the delimiter is 0.
abbrev pub IsFrameByte : ℕ → Type 0
IsFrameByte b = (0 < b) × (b < 256)

nonzero : (b : ℕ) → (b == 0) ≡ false → 0 < b
nonzero b h = ground arith

encoding-IsFrameByte :
    (block rest : Bytes)
    → length block < 254
    → All IsFrameByte block
    → All IsByte rest
    → All IsFrameByte (encoding block rest)
unfolding encoding
encoding-IsFrameByte block [] small hb hr = (omega arith, hb)
encoding-IsFrameByte block (byte ∷ rest) small hb hr = elim (Bool-cases (byte == 0)) [
  | inl z ↦
      rw (z, encoding)
        (
          omega arith,
          All-append IsFrameByte block (encoding [] rest) hb
              (encoding-IsFrameByte [] rest (omega arith) tt hr.1),
        )
  | inr nz ↦ elim (Bool-cases (length block + 1 == 254)) [
    | inl full ↦
        rw (nz, full, encoding)
          (
            omega arith,
            All-append IsFrameByte block (byte ∷ encoding [] rest) hb
                ((nonzero byte nz, hr.0), encoding-IsFrameByte [] rest (omega arith) tt hr.1),
          )
    | inr room ↦
        rw (nz, room, encoding)
          (encoding-IsFrameByte (block ++ byte ∷ []) rest
            (ground (arith, length-append block (byte ∷ [])))
            (All-append IsFrameByte block (byte ∷ []) hb ((nonzero byte nz, hr.0), tt)) hr.1)
  ]
]

length-encoding :
    (block rest : Bytes)
    → length block < 254
    → length (encoding block rest)
      ≤ length block + length rest + 1 + (length block + length rest) / 254
unfolding encoding
length-encoding block [] small = omega arith
length-encoding block (byte ∷ rest) small = ground (
  arith,
  length-append block (byte ∷ []),
  length-append block (encoding [] rest),
  length-append block (byte ∷ encoding [] rest),
  length-encoding [] rest,
  length-encoding (block ++ byte ∷ []) rest,
)

-- The output of `cobs_encode` on bytes holds only bytes from 1 to 255.
pub cobs_encode-IsFrameByte :
    (bytes : Bytes) → All IsByte bytes → All IsFrameByte (cobs_encode bytes)
cobs_encode-IsFrameByte bytes h =
    rw cobs_encode-encoding (encoding-IsFrameByte [] bytes (omega arith) tt h)

-- The overhead of COBS is one byte, and one more for each 254 bytes of input.
pub length-cobs_encode :
    (bytes : Bytes) → length (cobs_encode bytes) ≤ length bytes + 1 + length bytes / 254
length-cobs_encode bytes =
    rw cobs_encode-encoding (omega (arith, length-encoding [] bytes (omega arith)))

decode_loop-ne-stuck :
    (fuel : ℕ) (out bytes : Bytes)
    → length bytes ≤ fuel
    → cobs_decode_loop fuel out bytes ≢ err stuck
unfolding cobs_decode_loop
decode_loop-ne-stuck fuel out [] h = λ e. cc
decode_loop-ne-stuck zero out (len ∷ rest) h = absurd (omega arith)
decode_loop-ne-stuck (suc fuel) out (len ∷ rest) h =
    let gap : Bytes = if ltb len 255 && ltb len (length (len ∷ rest)) then 0 ∷ [] else [] in
    ground (
      arith,
      length-drop len (len ∷ rest),
      decode_loop-ne-stuck fuel (out ++ take (len - 1) rest ++ gap) (drop len (len ∷ rest)),
    )

length-decode_loop :
    (fuel : ℕ) (out bytes result : Bytes)
    → cobs_decode_loop fuel out bytes ≡ ok result
    → length result ≤ length out + (length bytes - 1)
unfolding cobs_decode_loop
length-decode_loop fuel out [] result h = ground arith
length-decode_loop zero out (len ∷ rest) result h = cc
length-decode_loop (suc fuel) out (len ∷ rest) result h =
    let gap : Bytes = if ltb len 255 && ltb len (length (len ∷ rest)) then 0 ∷ [] else [] in
    ground (
      arith,
      length-drop len (len ∷ rest),
      length-take (len - 1) rest,
      length-append (out ++ take (len - 1) rest) gap,
      length-append out (take (len - 1) rest),
      length-decode_loop fuel (out ++ take (len - 1) rest ++ gap) (drop len (len ∷ rest)) result,
    )

-- `cobs_decode` ends on every input: its loop never runs out of fuel. What it returns is shorter
-- than what it was given.
pub cobs_decode_total :
    (bytes : Bytes)
    → (cobs_decode bytes ≢ err stuck)
      × ((result : Bytes) → cobs_decode bytes ≡ ok result → length result < length bytes)
unfolding cobs_decode
cobs_decode_total [] = ((λ e. cc), λ result e. cc)
cobs_decode_total (len ∷ rest) = (
  decode_loop-ne-stuck (length (len ∷ rest)) [] (len ∷ rest) (omega arith),
  λ result e. omega (arith, length-decode_loop (length (len ∷ rest)) [] (len ∷ rest) result e),
)
