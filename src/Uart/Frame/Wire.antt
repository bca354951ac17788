-- ===== src/Uart/Frame/Wire.antt =====
-- The wire image of a frame.
use nightshift_opi.Prelude.{
  ℕ, ◌<◌, ◌≡◌, sym, inl, inr, [], ◌∷◌, ◌++◌, All, All-append, append-nil, Result-cases, ok, arith,
}
use mathlib.Core.Path.{subst}
use nightshift_opi.Prelude.Bytes.{Bytes, IsByte, packed, packed-IsByte}
use nightshift_opi.Uart.Cobs.Bounds.{IsFrameByte}
use nightshift_opi.Uart.Framing.Laws.{unstuff_frame-stuff_frame, stuff_frame_shape}
use nightshift_opi.Uart.Frame.{Frame, version_1, magic, raw, wire, parse, unstuffed}
use nightshift_opi.Uart.Frame.RoundTrip.{header, parse-raw, raw_shape}

-- What the wire image of a frame of version 1 is read as.
pub unstuffed-wire :
    (f : Frame) (bytes : Bytes) → f.version ≡ version_1 → wire f ≡ ok bytes → unstuffed bytes ≡ ok f
unfolding wire unstuffed
unstuffed-wire f bytes v h = elim (Result-cases (raw f)) [
  | inr (x, e) ↦ absurd (ground arith)
  | inl (b, e) ↦
      let (image, stuffs, unstuffs) = unstuff_frame-stuff_frame b in
      let same : parse b ≡ ok f =
        subst (λ x. parse x ≡ ok f) (append-nil b) (parse-raw f b [] v e) in
      ground arith
]

raw-IsByte :
    (f : Frame) (bytes : Bytes) → All IsByte f.payload → raw f ≡ ok bytes → All IsByte bytes
raw-IsByte f bytes h e =
    let shape = (raw_shape f bytes e).1 in
    subst (All IsByte) (sym shape) (
      All-append IsByte magic (packed (header f) ++ f.payload) (omega arith)
        (All-append IsByte (packed (header f)) f.payload (packed-IsByte (header f)) h))

nonzero : (body : Bytes) → All IsFrameByte body → All (λ (b : ℕ). 0 < b) body
nonzero [] h = tt
nonzero (b ∷ rest) (h, hs) = (h.0, nonzero rest hs)

-- A wire image is a body without zero bytes and the delimiter.
pub wire_body :
    (f : Frame) (bytes : Bytes)
    → All IsByte f.payload
    → wire f ≡ ok bytes
    → (body : Bytes) × (bytes ≡ body ++ 0 ∷ []) × All (λ (b : ℕ). 0 < b) body
unfolding wire
wire_body f bytes h w = elim (Result-cases (raw f)) [
  | inr (x, e) ↦ absurd (ground arith)
  | inl (b, e) ↦
      let (body, stuffs, small, short) = stuff_frame_shape b (raw-IsByte f b h e) in
      (body, ground arith, nonzero body small)
]
