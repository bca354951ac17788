-- ===== src/Uart/Reader/Chunks.antt =====
-- The reader finds the same frames however the stream is cut into chunks.
use nightshift_opi.Prelude.{
  ℕ, zero, suc, ◌+◌, ◌≤◌, ◌<◌, ◌≡◌, refl, sym, ◌∙◌, ap, true, false, none, some, List, [], ◌∷◌,
  ◌++◌, ◌==◌, length, take, drop, All, arith, append_assoc, append-nil, Option-cases, Bool-cases,
  inl, inr, length-drop,
}
use nightshift_opi.Prelude.Bytes.{Bytes}
use nightshift_opi.Uart.Reader.{index_zero, drain, read_chunk, read_chunks}

abbrev pub IsNonzero : ℕ → Type 0
IsNonzero b = 0 < b

abbrev pub join : List Bytes → Bytes
join [] = []
join (x ∷ xs) = x ++ join xs

-- Each body with the delimiter behind it.
abbrev pub delimit : List Bytes → List Bytes
delimit [] = []
delimit (x ∷ xs) = (x ++ 0 ∷ []) ∷ delimit xs

index_zero-none : (xs : Bytes) → All IsNonzero xs → index_zero xs ≡ none
unfolding index_zero
index_zero-none [] h = refl
index_zero-none (b ∷ xs) h = ground (arith, index_zero-none xs)

index_zero-lt : (xs : Bytes) (i : ℕ) → index_zero xs ≡ some i → i < length xs
unfolding index_zero
index_zero-lt [] i h = cc
index_zero-lt (b ∷ xs) zero h = omega arith
index_zero-lt (b ∷ xs) (suc i) h = ground (arith, index_zero-lt xs i)

index_zero-snoc :
    (xs : Bytes) (b : ℕ)
    → index_zero xs ≡ none
    → (b == 0) ≡ false
    → index_zero (xs ++ b ∷ []) ≡ none
unfolding index_zero
index_zero-snoc [] b h nz = rw nz
index_zero-snoc (x ∷ xs) b h nz = ground (arith, index_zero-snoc xs b)

module _ {ℓ} {S : Type ℓ} (handle : Bytes → S → S) where
  abbrev pub handle_all : List Bytes → S → S
  handle_all [] s = s
  handle_all (x ∷ xs) s = handle_all xs (handle x s)

  -- The frames of a stream, by one pass over its bytes; `body` is the frame that has begun.
  unfoldable pub scan : Bytes → Bytes → S → Bytes × S
  scan body [] s = (body, s)
  scan body (b ∷ rest) s = elim (b == 0) [
    | true ↦ scan [] rest (handle (body ++ 0 ∷ []) s)
    | false ↦ scan (body ++ b ∷ []) rest s
  ]

  scan-append :
      (body xs ys : Bytes) (s : S)
      → scan body (xs ++ ys) s ≡ scan (scan body xs s).0 ys (scan body xs s).1
  unfolding scan
  scan-append body [] ys s = refl
  scan-append body (b ∷ xs) ys s = ground (
    arith,
    scan-append [] xs ys (handle (body ++ 0 ∷ []) s),
    scan-append (body ++ b ∷ []) xs ys s,
  )

  scan-none : (body xs : Bytes) (s : S) → index_zero xs ≡ none → scan body xs s ≡ (body ++ xs, s)
  unfolding scan index_zero
  scan-none body [] s h = rw append-nil
  scan-none body (b ∷ xs) s h =
      ground (arith, scan-none (body ++ b ∷ []) xs s, append_assoc body (b ∷ []) xs)

  scan_body :
      (body : Bytes) (s : S)
      → All IsNonzero body
      → scan [] (body ++ 0 ∷ []) s ≡ ([], handle (body ++ 0 ∷ []) s)
  scan_body body s h =
      scan-append [] body (0 ∷ []) s
      ∙ rw (scan-none [] body s (index_zero-none body h)) (unfold scan in refl)

  scan-some :
      (body xs : Bytes) (i : ℕ) (s : S)
      → index_zero xs ≡ some i
      → scan body xs s ≡ scan [] (drop (i + 1) xs) (handle (body ++ take (i + 1) xs) s)
  unfolding scan index_zero
  scan-some body [] i s h = cc
  scan-some body (b ∷ xs) zero s h = ground arith
  scan-some body (b ∷ xs) (suc i) s h =
      ground
        (arith, scan-some (body ++ b ∷ []) xs i s, append_assoc body (b ∷ []) (take (i + 1) xs))

  drain-scan :
      (fuel : ℕ) (buffer : Bytes) (s : S)
      → length buffer ≤ fuel
      → drain handle fuel buffer s ≡ scan [] buffer s
  unfolding drain
  drain-scan zero [] s h = unfold scan in refl
  drain-scan zero (b ∷ rest) s h = absurd (omega arith)
  drain-scan (suc fuel) buffer s h = elim (Option-cases (index_zero buffer)) [
    | inl e ↦ rw (e, drain) (sym (scan-none [] buffer s e))
    | inr (i, e) ↦
        rw (e, drain)
          (drain-scan fuel (drop (i + 1) buffer) (handle (take (i + 1) buffer) s)
              (omega (arith, length-drop (i + 1) buffer, index_zero-lt buffer i e))
            ∙ sym (scan-some [] buffer i s e))
  ]

  -- What is left in the buffer holds no delimiter.
  scan_clean :
      (body xs : Bytes) (s : S) → index_zero body ≡ none → index_zero (scan body xs s).0 ≡ none
  unfolding scan
  scan_clean body [] s h = h
  scan_clean body (b ∷ xs) s h = elim (Bool-cases (b == 0)) [
    | inl z ↦
        rw (z, scan) (scan_clean [] xs (handle (body ++ 0 ∷ []) s) (unfold index_zero in refl))
    | inr nz ↦ rw (nz, scan) (scan_clean (body ++ b ∷ []) xs s (index_zero-snoc body b h nz))
  ]

  read_chunk-scan :
      (chunk buffer : Bytes) (s : S)
      → index_zero buffer ≡ none
      → read_chunk handle chunk (buffer, s) ≡ scan buffer chunk s
  unfolding read_chunk
  read_chunk-scan chunk buffer s h =
      drain-scan _ (buffer ++ chunk) s (omega arith)
      ∙ scan-append [] buffer chunk s
      ∙ rw (scan-none [] buffer s h)

  -- Reading a stream in chunks is one pass over the bytes of all of them.
  read_chunks-scan :
      (chunks : List Bytes) (buffer : Bytes) (s : S)
      → index_zero buffer ≡ none
      → read_chunks handle chunks (buffer, s) ≡ scan buffer (join chunks) s
  unfolding read_chunks
  read_chunks-scan [] buffer s h = unfold scan in refl
  read_chunks-scan (chunk ∷ rest) buffer s h = rw (read_chunk-scan chunk buffer s h) (
      read_chunks-scan rest (scan buffer chunk s).0 (scan buffer chunk s).1
        (scan_clean buffer chunk s h)
      ∙ sym (scan-append buffer chunk (join rest) s))

  -- However a stream is cut into chunks, the reader ends with the same buffer and the same state.
  pub read_chunks_cut :
      (chunks cuts : List Bytes) (buffer : Bytes) (s : S)
      → index_zero buffer ≡ none
      → join chunks ≡ join cuts
      → read_chunks handle chunks (buffer, s) ≡ read_chunks handle cuts (buffer, s)
  read_chunks_cut chunks cuts buffer s h e =
      read_chunks-scan chunks buffer s h
      ∙ ap (λ (bs : Bytes). scan buffer bs s) e
      ∙ sym (read_chunks-scan cuts buffer s h)

  scan-delimit :
      (bodies : List Bytes) (s : S)
      → All (All IsNonzero) bodies
      → scan [] (join (delimit bodies)) s ≡ ([], handle_all (delimit bodies) s)
  scan-delimit [] s h = unfold scan in refl
  scan-delimit (body ∷ rest) s h =
      scan-append [] (body ++ 0 ∷ []) (join (delimit rest)) s
      ∙ rw (scan_body body s h.0) (scan-delimit rest (handle (body ++ 0 ∷ []) s) h.1)

  -- From an empty buffer, a stream of bodies without zero bytes, each with its delimiter, is
  -- handled frame by frame in order, whatever the chunks, and leaves the buffer empty.
  pub read_chunks-delimit :
      (bodies chunks : List Bytes) (s : S)
      → All (All IsNonzero) bodies
      → join chunks ≡ join (delimit bodies)
      → read_chunks handle chunks ([], s) ≡ ([], handle_all (delimit bodies) s)
  read_chunks-delimit bodies chunks s h e =
      read_chunks-scan chunks [] s (unfold index_zero in refl)
      ∙ ap (λ (bs : Bytes). scan [] bs s) e
      ∙ scan-delimit bodies s h
