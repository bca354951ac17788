-- ===== src/Uart/Crc.antt =====
-- CRC-16/CCITT-FALSE (nightshift/hardware/uart/codec.py, `crc16_ccitt_false`).
use Prim.Native.Nat.{bit_and, bit_xor}
use nightshift_opi.Prelude.{
  ℕ, zero, suc, ◌*◌, ◌%◌, ◌^◌, ◌<◌, ◌≡◌, refl, [], ◌∷◌, ◌==◌, if◌then◌else◌, arith,
}
use nightshift_opi.Prelude.Bytes.{Bytes}

-- One round of the inner loop; `& 0xFFFF` is the remainder by 2 ^ 16.
unfoldable pub crc_bit : ℕ → ℕ
crc_bit crc = (if bit_and crc 0x8000 == 0 then crc * 2 else bit_xor (crc * 2) 0x1021) % 2 ^ 16

-- `for _ in range(n)`
unfoldable pub crc_bits : ℕ → ℕ → ℕ
crc_bits zero crc = crc
crc_bits (suc n) crc = crc_bits n (crc_bit crc)

unfoldable pub crc_loop : ℕ → Bytes → ℕ
crc_loop crc [] = crc
crc_loop crc (byte ∷ rest) = crc_loop (crc_bits 8 (bit_xor crc (byte * 2 ^ 8))) rest

unfoldable pub crc16_ccitt_false : Bytes → ℕ
crc16_ccitt_false = crc_loop 0xFFFF

crc_bits-lt : (n crc : ℕ) → crc_bits (suc n) crc < 2 ^ 16
unfolding crc_bits crc_bit
crc_bits-lt zero crc = omega arith
crc_bits-lt (suc n) crc = crc_bits-lt n (crc_bit crc)

crc_loop-lt : (crc : ℕ) (bytes : Bytes) → crc < 2 ^ 16 → crc_loop crc bytes < 2 ^ 16
unfolding crc_loop
crc_loop-lt crc [] h = h
crc_loop-lt crc (byte ∷ rest) h =
    crc_loop-lt (crc_bits 8 (bit_xor crc (byte * 2 ^ 8))) rest
      (crc_bits-lt 7 (bit_xor crc (byte * 2 ^ 8)))

-- The checksum fits the two bytes that `stuff_frame` writes it in.
pub crc16-lt : (bytes : Bytes) → crc16_ccitt_false bytes < 2 ^ 16
unfolding crc16_ccitt_false
crc16-lt bytes = crc_loop-lt 0xFFFF bytes (omega arith)

-- The check value of the algorithm, on the text "123456789".
check_value :
    crc16_ccitt_false (b'1' ∷ b'2' ∷ b'3' ∷ b'4' ∷ b'5' ∷ b'6' ∷ b'7' ∷ b'8' ∷ b'9' ∷ []) ≡ 0x29B1
unfolding crc16_ccitt_false crc_loop crc_bits crc_bit
check_value = refl
