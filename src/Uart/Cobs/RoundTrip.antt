-- ===== src/Uart/Cobs/RoundTrip.antt =====
-- `cobs_encode` against a plain recursion, and the round trip through `cobs_decode`.
use nightshift_opi.Prelude.{
  ℕ, zero, suc, ◌+◌, ◌-◌, ◌≤◌, ◌<◌, ◌≡◌, refl, ap, [], ◌∷◌, ◌++◌, ltb, ◌==◌, if◌then◌else◌, true,
  false, ◌&&◌, length, ok, arith, drop, append_assoc, append-nil, length-append, take-append_length,
  drop-append_length,
}
use nightshift_opi.Prelude.Bytes.{Bytes}
use nightshift_opi.Uart.Cobs.{
  cobs_encode_step, cobs_encode_loop, cobs_encode, cobs_decode_loop, cobs_decode,
}

-- What the loop still writes for the block held and the bytes left.
unfoldable pub encoding : Bytes → Bytes → Bytes
encoding block [] = (length block + 1) ∷ block
encoding block (byte ∷ rest) = elim (byte == 0) [
  | true ↦ (length block + 1) ∷ (block ++ encoding [] rest)
  | false ↦ elim (length block + 1 == 254) [
    | true ↦ 255 ∷ (block ++ byte ∷ encoding [] rest)
    | false ↦ encoding (block ++ byte ∷ []) rest
  ]
]

length-snoc : (block : Bytes) (b : ℕ) → length (block ++ b ∷ []) ≡ length block + 1
length-snoc block b = omega (arith, length-append block (b ∷ []))

pub loop-encoding :
    (out block data' : Bytes) → cobs_encode_loop (out, block) data' ≡ out ++ encoding block data'
unfolding cobs_encode_loop cobs_encode_step encoding
loop-encoding out block [] = refl
loop-encoding out block (byte ∷ rest) = ground (
  arith,
  length-snoc block byte,
  loop-encoding (out ++ (length block + 1) ∷ block) [] rest,
  append_assoc out ((length block + 1) ∷ block) (encoding [] rest),
  loop-encoding (out ++ 255 ∷ (block ++ byte ∷ [])) [] rest,
  append_assoc out (255 ∷ (block ++ byte ∷ [])) (encoding [] rest),
  append_assoc block (byte ∷ []) (encoding [] rest),
  loop-encoding out (block ++ byte ∷ []) rest,
)

drop_behind : (len : ℕ) (rest : Bytes) → 0 < len → drop len (len ∷ rest) ≡ drop (len - 1) rest
drop_behind zero rest h = absurd (omega arith)
drop_behind (suc n) rest h = ap (λ k. drop k rest) (omega arith)

-- One round of the decoder on a whole block; `decode_block` and `decode_full` are its two ends.
decode_round :
    (fuel len : ℕ) (out block rest : Bytes)
    → length block + 1 ≡ len
    → cobs_decode_loop (suc fuel) out (len ∷ (block ++ rest))
      ≡ cobs_decode_loop fuel
          (out ++ block ++ (if ltb len 255 && ltb 0 (length rest) then 0 ∷ [] else []))
          rest
unfolding cobs_decode_loop
decode_round fuel len out block rest e = ground (
  arith,
  length-append block rest,
  take-append_length (len - 1) block rest (omega arith),
  drop_behind len (block ++ rest) (omega arith),
  drop-append_length (len - 1) block rest (omega arith),
)

decode_block :
    (fuel len : ℕ) (out block rest : Bytes)
    → length block + 1 ≡ len
    → len < 255
    → 0 < length rest
    → cobs_decode_loop (suc fuel) out (len ∷ (block ++ rest))
      ≡ cobs_decode_loop fuel (out ++ block ++ 0 ∷ []) rest
decode_block fuel len out block rest e small more =
    ground (arith, decode_round fuel len out block rest e)

decode_full :
    (fuel : ℕ) (out block rest : Bytes)
    → length block ≡ 254
    → cobs_decode_loop (suc fuel) out (255 ∷ (block ++ rest))
      ≡ cobs_decode_loop fuel (out ++ block) rest
decode_full fuel out block rest e =
    rw (← append-nil (out ++ block)) (decode_round fuel 255 out block rest (omega arith))

decode_last :
    (fuel : ℕ) (out block : Bytes)
    → cobs_decode_loop (suc fuel) out ((length block + 1) ∷ block) ≡ ok (out ++ block ++ [])
unfolding cobs_decode_loop
decode_last fuel out block = ground (
  arith,
  take-append_length (length block + 1 - 1) block [] (omega arith),
  drop_behind (length block + 1) block (omega arith),
  drop-append_length (length block + 1 - 1) block [] (omega arith),
  append-nil block,
)

encoding_nonempty : (block data' : Bytes) → 0 < length (encoding block data')
unfolding encoding
encoding_nonempty block [] = omega arith
encoding_nonempty block (byte ∷ rest) = ground (arith, encoding_nonempty (block ++ byte ∷ []) rest)

regroup :
    (out block : Bytes) (byte : ℕ) (rest : Bytes)
    → out ++ (block ++ byte ∷ []) ++ rest ≡ out ++ block ++ byte ∷ rest
regroup out block byte rest = simp append_assoc

-- The decoder gives back the block held and the bytes left.
decode-encoding :
    (fuel : ℕ) (out block data' : Bytes)
    → length block < 254
    → length (encoding block data') ≤ fuel
    → cobs_decode_loop fuel out (encoding block data') ≡ ok (out ++ block ++ data')
unfolding encoding
decode-encoding zero out block data' small enough =
    absurd (omega (arith, encoding_nonempty block data'))
decode-encoding (suc fuel) out block [] small enough = decode_last fuel out block
decode-encoding (suc fuel) out block (byte ∷ rest) small enough = ground (
  arith,
  encoding_nonempty [] rest,
  length-snoc block byte,
  regroup out block byte rest,
  append_assoc (out ++ block) (0 ∷ []) rest,
  append_assoc out (block ++ byte ∷ []) rest,
  append-nil (out ++ block ++ 0 ∷ []),
  append-nil (out ++ (block ++ byte ∷ [])),
  length-append block (encoding [] rest),
  length-append (block ++ byte ∷ []) (encoding [] rest),
  append_assoc block (byte ∷ []) (encoding [] rest),
  decode_block fuel (length block + 1) out block (encoding [] rest) refl,
  decode-encoding fuel (out ++ block ++ 0 ∷ []) [] rest,
  decode_full fuel out (block ++ byte ∷ []) (encoding [] rest),
  decode-encoding fuel (out ++ (block ++ byte ∷ [])) [] rest,
  decode-encoding (suc fuel) out (block ++ byte ∷ []) rest,
)

pub cobs_encode-encoding : (bytes : Bytes) → cobs_encode bytes ≡ encoding [] bytes
unfolding cobs_encode
cobs_encode-encoding [] = unfold encoding in refl
cobs_encode-encoding (byte ∷ rest) = loop-encoding [] [] (byte ∷ rest)

cobs_decode_nonempty :
    (bytes : Bytes)
    → 0 < length bytes
    → cobs_decode bytes ≡ cobs_decode_loop (length bytes) [] bytes
unfolding cobs_decode
cobs_decode_nonempty [] h = absurd (omega arith)
cobs_decode_nonempty (byte ∷ rest) h = refl

-- What `cobs_encode` writes for any bytes, `cobs_decode` reads back as those bytes.
pub cobs_decode-cobs_encode : (bytes : Bytes) → cobs_decode (cobs_encode bytes) ≡ ok bytes
cobs_decode-cobs_encode bytes = rw cobs_encode-encoding (
    rw (cobs_decode_nonempty _ (encoding_nonempty [] bytes))
      (decode-encoding _ [] [] bytes (omega arith) (omega arith)))
