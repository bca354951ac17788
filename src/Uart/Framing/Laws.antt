-- ===== src/Uart/Framing/Laws.antt =====
-- The round trip of frames, their delimiter, and what `unstuff_frame` accepts.
use nightshift_opi.Prelude.{
  ℕ, ◌+◌, ◌-◌, ◌/◌, ◌≤◌, ◌<◌, ◌≡◌, ◌∙◌, [], ◌∷◌, ◌++◌, length, All, ok, arith, length-append,
  take-append_length, drop-append_length, ◌^◌, All-append,
}
use nightshift_opi.Prelude.Bytes.{Bytes, IsByte, le_bytes, le_bytes-IsByte, from_le}
use nightshift_opi.Uart.Cobs.{cobs_encode, cobs_decode}
use nightshift_opi.Uart.Cobs.RoundTrip.{cobs_decode-cobs_encode}
use nightshift_opi.Uart.Cobs.Bounds.{IsFrameByte, cobs_encode-IsFrameByte, length-cobs_encode}
use nightshift_opi.Uart.Crc.{crc16_ccitt_false, crc16-lt}
use nightshift_opi.Uart.Framing.{stuff_frame, unstuff_frame, verify_crc}

-- A frame without its delimiter.
abbrev pub frame_body : Bytes → Bytes
frame_body raw = cobs_encode (raw ++ le_bytes 2 (crc16_ccitt_false raw))

pub stuff_frame-frame_body : (raw : Bytes) → stuff_frame raw ≡ ok (frame_body raw ++ 0 ∷ [])
unfolding stuff_frame
stuff_frame-frame_body raw = ground (arith, crc16-lt raw)

from_le-le_bytes : (n : ℕ) → n < 2 ^ 16 → from_le (le_bytes 2 n) ≡ n
from_le-le_bytes n h = omega arith

verify_crc-append : (raw : Bytes) → verify_crc (raw ++ le_bytes 2 (crc16_ccitt_false raw)) ≡ ok raw
unfolding verify_crc
verify_crc-append raw =
    let crc : Bytes = le_bytes 2 (crc16_ccitt_false raw) in
    ground (
      arith,
      length-append raw crc,
      take-append_length (length (raw ++ crc) - 2) raw crc (omega (arith, length-append raw crc)),
      drop-append_length (length (raw ++ crc) - 2) raw crc (omega (arith, length-append raw crc)),
      from_le-le_bytes (crc16_ccitt_false raw) (crc16-lt raw),
    )

unstuff_frame-append :
    (body decoded : Bytes)
    → cobs_decode body ≡ ok decoded
    → unstuff_frame (body ++ 0 ∷ []) ≡ verify_crc decoded
unfolding unstuff_frame
unstuff_frame-append body decoded h =
    let n = length (body ++ 0 ∷ []) - 1 in
    let e : length body ≡ n = omega (arith, length-append body (0 ∷ [])) in
    rw (take-append_length n body (0 ∷ []) e, drop-append_length n body (0 ∷ []) e, h)

-- Any frame that is stuffed is unstuffed to itself, and stuffing never fails.
pub unstuff_frame-stuff_frame :
    (raw : Bytes) → (wire : Bytes) × (stuff_frame raw ≡ ok wire) × (unstuff_frame wire ≡ ok raw)
unstuff_frame-stuff_frame raw = (
  frame_body raw ++ 0 ∷ [],
  stuff_frame-frame_body raw,
  unstuff_frame-append (frame_body raw) _ (cobs_decode-cobs_encode _) ∙ verify_crc-append raw,
)

-- On bytes, a stuffed frame is a body of bytes from 1 to 255 and the one zero byte that ends it;
-- the body is at most three bytes longer than the raw frame, and one more for each whole 254 bytes
-- of raw frame and checksum.
pub stuff_frame_shape :
    (raw : Bytes)
    → All IsByte raw
    → (body : Bytes) × (stuff_frame raw ≡ ok (body ++ 0 ∷ []))
      × All IsFrameByte body
      × (length body ≤ length raw + 3 + (length raw + 2) / 254)
stuff_frame_shape raw h =
    let crc : Bytes = le_bytes 2 (crc16_ccitt_false raw) in
    (
      frame_body raw,
      stuff_frame-frame_body raw,
      cobs_encode-IsFrameByte (raw ++ crc)
          (All-append IsByte raw crc h (le_bytes-IsByte 2 (crc16_ccitt_false raw))),
      omega (arith, length-cobs_encode (raw ++ crc), length-append raw crc),
    )
