-- ===== src/Uart/Frame/RoundTrip.antt =====
-- `parse` reads what `raw` wrote, and `raw` writes what `parse` read.
use nightshift_opi.Prelude.{
  ℕ, ◌+◌, ◌≤◌, ◌<◌, ◌≡◌, refl, List, [], ◌∷◌, ◌++◌, length, take, All, ok, arith,
  take-append_length, length-take, length-append, inl, inr,
}
use nightshift_opi.Prelude.Bytes.{
  Bytes, IsByte, pack-Fits, pack_cases, packed, Fits, from_le-le_bytes, le_bytes, from_le,
}
use nightshift_opi.Uart.Frame.{Frame, raw, parse, max_payload, magic, version_1}

-- The header fields of a frame.
abbrev pub header : Frame → List (ℕ × ℕ)
header f =
    (1, f.version) ∷ (1, f.flags) ∷ (2, f.sequence) ∷ (2, f.command) ∷ (2, length f.payload) ∷ []

pub raw_shape :
    (f : Frame) (bytes : Bytes)
    → raw f ≡ ok bytes
    → Fits (header f)
      × (bytes ≡ magic ++ packed (header f) ++ f.payload)
      × (length f.payload ≤ max_payload)
unfolding raw
raw_shape f bytes h = elim (pack_cases (header f)) [
  | inl (fits, e) ↦ (fits, ground arith, ground arith)
  | inr e ↦ absurd (ground arith)
]

-- A frame of version 1 that `raw` accepts is parsed back, whatever bytes follow it.
pub parse-raw :
    (f : Frame) (bytes rest : Bytes)
    → f.version ≡ version_1
    → raw f ≡ ok bytes
    → parse (bytes ++ rest) ≡ ok f
unfolding parse
parse-raw f bytes rest v h =
    let (fits, shape, small) = raw_shape f bytes h in
    rw shape (
      ground (
        arith,
        from_le-le_bytes 2 (length f.payload) (omega arith),
        length-append f.payload rest,
        take-append_length (length f.payload) f.payload rest refl,
      ))

le_bytes-two : (a b : ℕ) → a < 256 → b < 256 → le_bytes 2 (from_le (a ∷ b ∷ [])) ≡ a ∷ b ∷ []
le_bytes-two a b ha hb = ground arith

-- What `parse` accepted, a frame whose payload is within the limit, is written back as the bytes
-- that it was read from.
pub raw-parse :
    (bytes : Bytes) (f : Frame)
    → All IsByte bytes
    → length f.payload ≤ max_payload
    → parse bytes ≡ ok f
    → raw f ≡ ok (take (10 + length f.payload) bytes)
unfolding parse raw
raw-parse (b0 ∷ b1 ∷ b2 ∷ b3 ∷ b4 ∷ b5 ∷ b6 ∷ b7 ∷ b8 ∷ b9 ∷ tail) f bs small h =
    let e : (b0 ≡ 0x54)
        × (b1 ≡ 0x35)
        × (b2 ≡ f.version)
        × (b3 ≡ f.flags)
        × (from_le (b4 ∷ b5 ∷ []) ≡ f.sequence)
        × (from_le (b6 ∷ b7 ∷ []) ≡ f.command)
        × (from_le (b8 ∷ b9 ∷ []) ≤ length tail)
        × (take (from_le (b8 ∷ b9 ∷ [])) tail ≡ f.payload) =
      ground arith in
    let size : length f.payload ≡ from_le (b8 ∷ b9 ∷ []) =
      ground (arith, length-take (from_le (b8 ∷ b9 ∷ [])) tail) in
    rw (pack-Fits (header f) (omega arith))
      (ground (arith, le_bytes-two b4 b5, le_bytes-two b6 b7, le_bytes-two b8 b9))
raw-parse _ f bs small h = absurd (ground arith)
