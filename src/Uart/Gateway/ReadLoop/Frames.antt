-- ===== src/Uart/Gateway/ReadLoop/Frames.antt =====
-- The read loop on a stream of frames.
use nightshift_opi.Prelude.{
  ℕ, zero, suc, ◌+◌, ◌<◌, ◌≡◌, refl, sym, ap, ◌∙◌, Bool, true, Option-cases, inl, inr, List, [],
  ◌∷◌, ◌++◌, map, All, length, take, drop, if◌then◌else◌, ok, arith,
}
use nightshift_opi.Prelude.Bytes.{Bytes, IsByte}
use nightshift_opi.Uart.Session.{Digest}
use nightshift_opi.Uart.Frame.{Frame, version_1, wire, unstuffed}
use nightshift_opi.Uart.Frame.Wire.{unstuffed-wire, wire_body}
use nightshift_opi.Uart.Reader.{index_zero, drain, read_chunk, read_chunks}
use nightshift_opi.Uart.Reader.Chunks.{IsNonzero, join, delimit, handle_all, read_chunks-delimit}
use nightshift_opi.Uart.Gateway.{Gateway, Callbacks, dispatch, receive}
use nightshift_opi.Uart.Gateway.AppSteps.{is_reading, receive_reading}
use nightshift_opi.Uart.Gateway.ReadLoop.{chunk, take_chunk, read_loop}

module _ {App : Type 0} (receive : Bytes → Gateway App → Gateway App)
    (reading : (bytes : Bytes) (g : Gateway App)
      → is_reading (receive bytes g) ≡ is_reading g) where
  drain_reading :
      (fuel : ℕ) (buffer : Bytes) (g : Gateway App)
      → is_reading (drain receive fuel buffer g).1 ≡ is_reading g
  unfolding drain
  drain_reading zero buffer g = refl
  drain_reading (suc fuel) buffer g = elim (Option-cases (index_zero buffer)) [
    | inl e ↦ rw (e, drain) refl
    | inr (i, e) ↦
        rw (e, drain)
          (drain_reading fuel (drop (i + 1) buffer) (receive (take (i + 1) buffer) g)
            ∙ reading (take (i + 1) buffer) g)
  ]

  -- No other task runs here while a read waits.
  read_loop_chunks :
      (chunks : List Bytes) (buffer : Bytes) (g : Gateway App)
      → All (λ (c : Bytes). 0 < length c) chunks
      → is_reading g ≡ true
      → read_loop (λ g. g) receive (map chunk chunks) buffer g
        ≡ (ok tt, (read_chunks receive chunks (buffer, g)).1)
  unfolding read_loop read_chunks take_chunk read_chunk
  read_loop_chunks [] buffer g h r = refl
  read_loop_chunks ([] ∷ rest) buffer g (h, hs) r = absurd (omega arith)
  read_loop_chunks ((b ∷ c) ∷ rest) buffer g (h, hs) r =
      let (buffer', g') = read_chunk receive (b ∷ c) (buffer, g) in
      let still : is_reading g' ≡ true =
        drain_reading (length (buffer ++ b ∷ c)) (buffer ++ b ∷ c) g ∙ r in
      let rec = read_loop_chunks rest buffer' g' hs still in
      ap
        (λ (test : Bool).
          if test then read_loop (λ g. g) receive (map chunk rest) buffer' g' else (ok tt, g))
        r
      ∙ rec

-- Frames of version 1 with their wire images.
abbrev pub AllSent : List Frame → List Bytes → Type 0
AllSent [] [] = Unit
AllSent [] (w ∷ wires) = ⊥
AllSent (f ∷ frames) [] = ⊥
AllSent (f ∷ frames) (w ∷ wires) =
    ((f.version ≡ version_1) × All IsByte f.payload × (wire f ≡ ok w)) × AllSent frames wires

-- The bodies of the images, without their delimiters.
bodies_of :
    (frames : List Frame) (wires : List Bytes)
    → AllSent frames wires
    → (bodies : List Bytes) × (wires ≡ delimit bodies) × All (All IsNonzero) bodies
bodies_of [] [] h = ([], refl, tt)
bodies_of [] (w ∷ wires) h = absurd h
bodies_of (f ∷ frames) [] h = absurd h
bodies_of (f ∷ frames) (w ∷ wires) ((v, small, e), hs) =
    let (body, shape, nonzero) = wire_body f w small e in
    let (bodies, shapes, all) = bodies_of frames wires hs in
    (body ∷ bodies, ap (λ x. x ∷ wires) shape ∙ ap (◌∷◌ (body ++ 0 ∷ [])) shapes, (nonzero, all))

module _ {App : Type 0} (sha256_hex : Bytes → Digest) (cb : Callbacks App) (now_ms : ℕ) where
  -- The frames dispatched in order, with the exceptions swallowed.
  unfoldable pub dispatch_all : List Frame → Gateway App → Gateway App
  dispatch_all [] g = g
  dispatch_all (f ∷ frames) g = dispatch_all frames (dispatch sha256_hex cb now_ms f g).1

  handle_all_frames :
      (frames : List Frame) (wires : List Bytes) (g : Gateway App)
      → AllSent frames wires
      → handle_all (receive sha256_hex cb now_ms) wires g ≡ dispatch_all frames g
  unfolding dispatch_all receive
  handle_all_frames [] [] g h = refl
  handle_all_frames [] (w ∷ wires) g h = absurd h
  handle_all_frames (f ∷ frames) [] g h = absurd h
  handle_all_frames (f ∷ frames) (w ∷ wires) g ((v, small, e), hs) =
      let read : unstuffed w ≡ ok f = unstuffed-wire f w v e in
      let at : receive sha256_hex cb now_ms w g ≡ (dispatch sha256_hex cb now_ms f g).1 =
        ground arith in
      ap (handle_all (receive sha256_hex cb now_ms) wires) at
      ∙ handle_all_frames frames wires (dispatch sha256_hex cb now_ms f g).1 hs

  same_reading :
      (bytes : Bytes) (g : Gateway App)
      → is_reading (receive sha256_hex cb now_ms bytes g) ≡ is_reading g
  same_reading bytes g =
      receive_reading (λ a b. Unit) (λ a. tt) (λ a b c x y. tt) cb (λ e a. tt) (λ a. tt)
        (λ p b a. tt) (λ handler present event a. tt) sha256_hex now_ms bytes g

  -- The panel sends frames of version 1, one wire image after the other, and the stream comes in
  -- chunks, none of them empty and cut anywhere. While the gateway runs with an open line and no
  -- other task runs, the read loop dispatches exactly these frames, in order, and waits for more.
  pub read_loop_frames :
      (frames : List Frame) (wires chunks : List Bytes) (g : Gateway App)
      → AllSent frames wires
      → All (λ (c : Bytes). 0 < length c) chunks
      → join chunks ≡ join wires
      → is_reading g ≡ true
      → read_loop (λ g. g) (receive sha256_hex cb now_ms) (map chunk chunks) [] g
        ≡ (ok tt, dispatch_all frames g)
  read_loop_frames frames wires chunks g sent full stream r =
      let (bodies, shape, nonzero) = bodies_of frames wires sent in
      let handle = receive sha256_hex cb now_ms in
      let read : read_chunks handle chunks ([], g) ≡ ([], handle_all handle (delimit bodies) g) =
        read_chunks-delimit handle bodies chunks g nonzero (stream ∙ ap join shape) in
      read_loop_chunks handle same_reading chunks [] g full r
      ∙ ap (λ (p : Bytes × Gateway App). (ok tt, p.1)) read
      ∙ ap (λ (x : Gateway App). (ok tt, x))
          (ap (λ ws. handle_all handle ws g) (sym shape) ∙ handle_all_frames frames wires g sent)
