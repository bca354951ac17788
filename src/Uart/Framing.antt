-- ===== src/Uart/Framing.antt =====
-- Frames on the wire (nightshift/hardware/uart/codec.py, `stuff_frame` and `unstuff_frame`).
pub mod Laws
use nightshift_opi.Prelude.{
  ℕ, ◌-◌, Bool, true, false, List, [], ◌∷◌, ◌++◌, ltb, ◌==◌, if◌then◌else◌, not, length, take, drop,
  Result, ok, err, value_error, ◌>>=◌, ◌>>◌, raise_if,
}
use nightshift_opi.Prelude.Bytes.{Bytes, to_bytes, from_le}
use nightshift_opi.Uart.Cobs.{cobs_encode, cobs_decode}
use nightshift_opi.Uart.Crc.{crc16_ccitt_false}

unfoldable pub stuff_frame : Bytes → Result Bytes
stuff_frame raw = do
  crc ← to_bytes 2 (crc16_ccitt_false raw)
  ok (cobs_encode (raw ++ crc) ++ 0 ∷ [])

-- `data[-1:] == b"\x00"`, given `data[-1:]`
unfoldable pub is_delimiter : Bytes → Bool
is_delimiter (b ∷ []) = b == 0
is_delimiter _ = false

-- The lines behind `cobs_decode`.
unfoldable pub verify_crc : Bytes → Result Bytes
verify_crc decoded = do
  raise_if (ltb (length decoded) 2) value_error
  let raw = take (length decoded - 2) decoded
  let expected = from_le (drop (length decoded - 2) decoded)
  raise_if (not (expected == crc16_ccitt_false raw)) value_error
  ok raw

unfoldable pub unstuff_frame : Bytes → Result Bytes
unfolding is_delimiter verify_crc
unstuff_frame bytes = do
  raise_if (not (is_delimiter (drop (length bytes - 1) bytes))) value_error
  decoded ← cobs_decode (take (length bytes - 1) bytes)
  verify_crc decoded
