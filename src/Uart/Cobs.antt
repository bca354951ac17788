-- ===== src/Uart/Cobs.antt =====
-- COBS (nightshift/hardware/uart/codec.py, `cobs_encode` and `cobs_decode`).
pub mod RoundTrip
pub mod Bounds
use nightshift_opi.Prelude.{
  ℕ, zero, suc, ◌+◌, ◌-◌, ◌≡◌, refl, List, [], ◌∷◌, ◌++◌, ◌&&◌, ltb, ◌==◌, if◌then◌else◌, length,
  take, drop, Result, ok, err, value_error, stuck,
}
use nightshift_opi.Prelude.Bytes.{Bytes}

-- One round of the loop of `cobs_encode`: the new `out` and `block`.
unfoldable pub cobs_encode_step : Bytes → Bytes → ℕ → Bytes × Bytes
cobs_encode_step out block byte =
    if byte == 0
    then (out ++ (length block + 1) ∷ block, [])
    else if length (block ++ byte ∷ []) == 254
    then (out ++ 255 ∷ (block ++ byte ∷ []), [])
    else (out, block ++ byte ∷ [])

-- The loop over the bytes left, and behind it the two lines that write the last block.
unfoldable pub cobs_encode_loop : Bytes × Bytes → Bytes → Bytes
cobs_encode_loop (out, block) [] = out ++ (length block + 1) ∷ block
cobs_encode_loop (out, block) (byte ∷ rest) =
    cobs_encode_loop (cobs_encode_step out block byte) rest

unfoldable pub cobs_encode : Bytes → Bytes
unfolding cobs_encode_loop cobs_encode_step
cobs_encode [] = 1 ∷ []
cobs_encode (byte ∷ rest) = cobs_encode_loop ([], []) (byte ∷ rest)

-- The loop of `cobs_decode`. The list is `data[idx:]` at the head of a round, with the length
-- byte in front. `end` lies `len` places behind that `idx`, so `data[end:]` drops `len` places of the
-- whole list: for a length byte of 0 that is the same list again. The fuel counts rounds.
unfoldable pub cobs_decode_loop : ℕ → Bytes → Bytes → Result Bytes
cobs_decode_loop fuel out [] = ok out
cobs_decode_loop zero out (len ∷ rest) = err stuck
cobs_decode_loop (suc fuel) out (len ∷ rest) =
    let gap : Bytes = if ltb len 255 && ltb len (length (len ∷ rest)) then 0 ∷ [] else [] in
    let next = cobs_decode_loop fuel (out ++ take (len - 1) rest ++ gap) (drop len (len ∷ rest)) in
    if len == 0
    then err value_error
    else if ltb (length (len ∷ rest)) len
    then err value_error
    else next

unfoldable pub cobs_decode : Bytes → Result Bytes
unfolding cobs_decode_loop
cobs_decode [] = err value_error
cobs_decode (byte ∷ rest) = cobs_decode_loop (length (byte ∷ rest)) [] (byte ∷ rest)
