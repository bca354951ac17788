-- ===== src/Uart/Text/RoundTrip.antt =====
-- A string that can be encoded is read back.
use nightshift_opi.Prelude.{
  ℕ, zero, suc, ◌+◌, ◌-◌, ◌*◌, ◌/◌, ◌%◌, ◌≤◌, ◌<◌, ◌≡◌, refl, ◌∙◌, ap, [], ◌∷◌, ◌++◌, ◌⊎◌, length,
  All, ok, arith, inl, inr, Result-cases, take-append_length,
}
use nightshift_opi.Prelude.Bytes.{Bytes, le_bytes}
use nightshift_opi.Uart.Text.{
  Text, idle, want, utf8_char, utf8_encode, utf8_start, utf8_step, utf8_from, encode_string,
  decode_string,
}

abbrev pub IsCodePoint : ℕ → Type 0
IsCodePoint c = c < 0x110000

go_on :
    (left acc lo hi b : ℕ) (rest : Bytes)
    → lo ≤ b
    → b ≤ hi
    → utf8_from (want (suc left) acc lo hi) (b ∷ rest)
      ≡ utf8_from (want left (acc * 64 + (b - 0x80)) 0x80 0xBF) rest
unfolding utf8_from utf8_step
go_on left acc lo hi b rest h k = ground arith

finish :
    (acc lo hi b : ℕ) (rest : Bytes)
    → lo ≤ b
    → b ≤ hi
    → utf8_from (want zero acc lo hi) (b ∷ rest) ≡ (acc * 64 + (b - 0x80)) ∷ utf8_from idle rest
unfolding utf8_from utf8_step
finish acc lo hi b rest h k = ground arith

one_byte : (c : ℕ) (rest : Bytes) → c < 0x80 → utf8_from idle (c ∷ rest) ≡ c ∷ utf8_from idle rest
unfolding utf8_from utf8_step utf8_start
one_byte c rest h = ground arith

start_two :
    (b : ℕ) (rest : Bytes)
    → 0xC2 ≤ b
    → b < 0xE0
    → utf8_from idle (b ∷ rest) ≡ utf8_from (want 0 (b - 0xC0) 0x80 0xBF) rest
unfolding utf8_from utf8_step utf8_start
start_two b rest h k = ground arith

two_bytes :
    (c : ℕ) (rest : Bytes)
    → 0x80 ≤ c
    → c < 0x800
    → utf8_from idle ((0xC0 + c / 64) ∷ (0x80 + c % 64) ∷ rest) ≡ c ∷ utf8_from idle rest
two_bytes c rest h k =
    start_two (0xC0 + c / 64) _ (omega arith) (omega arith)
    ∙ finish (0xC0 + c / 64 - 0xC0) 0x80 0xBF (0x80 + c % 64) rest (omega arith) (omega arith)
    ∙ ap (λ (x : ℕ). x ∷ utf8_from idle rest) (omega arith)

start_three :
    (b c : ℕ) (rest : Bytes)
    → 0xE0 ≤ b
    → b < 0xF0
    → (b ≡ 0xE0 → 0xA0 ≤ c)
    → 0x80 ≤ c
    → (b ≡ 0xED → c ≤ 0x9F)
    → c ≤ 0xBF
    → utf8_from idle (b ∷ c ∷ rest)
      ≡ utf8_from (want 0 ((b - 0xE0) * 64 + (c - 0x80)) 0x80 0xBF) rest
unfolding utf8_from utf8_step utf8_start
start_three b c rest h k low l high u = ground arith

three_bytes :
    (c : ℕ) (rest : Bytes)
    → 0x800 ≤ c
    → (c < 0xD800) ⊎ (0xDFFF < c)
    → c < 0x10000
    → utf8_from idle ((0xE0 + c / 4096) ∷ (0x80 + c / 64 % 64) ∷ (0x80 + c % 64) ∷ rest)
      ≡ c ∷ utf8_from idle rest
three_bytes c rest h gap k =
    start_three (0xE0 + c / 4096) (0x80 + c / 64 % 64) _ (omega arith) (omega arith)
      (λ e. omega arith) (omega arith) (λ e. omega arith) (omega arith)
    ∙ finish _ 0x80 0xBF (0x80 + c % 64) rest (omega arith) (omega arith)
    ∙ ap (λ (x : ℕ). x ∷ utf8_from idle rest) (omega arith)

start_four :
    (b c : ℕ) (rest : Bytes)
    → 0xF0 ≤ b
    → b < 0xF5
    → (b ≡ 0xF0 → 0x90 ≤ c)
    → 0x80 ≤ c
    → (b ≡ 0xF4 → c ≤ 0x8F)
    → c ≤ 0xBF
    → utf8_from idle (b ∷ c ∷ rest)
      ≡ utf8_from (want 1 ((b - 0xF0) * 64 + (c - 0x80)) 0x80 0xBF) rest
unfolding utf8_from utf8_step utf8_start
start_four b c rest h k low l high u = ground arith

four_bytes :
    (c : ℕ) (rest : Bytes)
    → 0x10000 ≤ c
    → c < 0x110000
    → utf8_from idle (
        (0xF0 + c / 262144)
        ∷ (0x80 + c / 4096 % 64)
        ∷ (0x80 + c / 64 % 64)
        ∷ (0x80 + c % 64)
        ∷ rest)
      ≡ c ∷ utf8_from idle rest
four_bytes c rest h k =
    start_four (0xF0 + c / 262144) (0x80 + c / 4096 % 64) _ (omega arith) (omega arith)
      (λ e. omega arith) (omega arith) (λ e. omega arith) (omega arith)
    ∙ go_on 0 _ 0x80 0xBF (0x80 + c / 64 % 64) _ (omega arith) (omega arith)
    ∙ finish _ 0x80 0xBF (0x80 + c % 64) rest (omega arith) (omega arith)
    ∙ ap (λ (x : ℕ). x ∷ utf8_from idle rest) (omega arith)

char_back :
    (c : ℕ) (bytes rest : Bytes)
    → IsCodePoint c
    → utf8_char c ≡ ok bytes
    → utf8_from idle (bytes ++ rest) ≡ c ∷ utf8_from idle rest
unfolding utf8_char
char_back c bytes rest valid h =
    ground (arith, one_byte c rest, two_bytes c rest, three_bytes c rest, four_bytes c rest)

-- Decoding what was encoded gives the text, whatever replacement would do with bad bytes.
utf8_back :
    (text : Text) (bytes : Bytes)
    → All IsCodePoint text
    → utf8_encode text ≡ ok bytes
    → utf8_from idle bytes ≡ text
unfolding utf8_encode
utf8_back [] bytes valid h = unfold utf8_from in ground arith
utf8_back (c ∷ text) bytes valid h = elim (Result-cases (utf8_char c)) [
  | inl (head, e) ↦ elim (Result-cases (utf8_encode text)) [
    | inl (tail, f) ↦ ground (arith, char_back c head tail valid.0 e, utf8_back text tail valid.1 f)
    | inr (x, f) ↦ cc
  ]
  | inr (x, e) ↦ cc
]

-- A string on the wire: its length in two bytes, then its UTF-8.
pub encode_string_shape :
    (text : Text) (bytes : Bytes)
    → encode_string text ≡ ok bytes
    → (encoded : Bytes) × (utf8_encode text ≡ ok encoded)
      × (length encoded < 65536)
      × (bytes ≡ le_bytes 2 (length encoded) ++ encoded)
unfolding encode_string
encode_string_shape text bytes h = elim (Result-cases (utf8_encode text)) [
  | inl (encoded, e) ↦ (encoded, e, ground arith, ground arith)
  | inr (x, e) ↦ cc
]

-- A string of code points that can be encoded is read back from the front of any bytes.
pub decode_string-encode_string :
    (text : Text) (bytes rest : Bytes)
    → All IsCodePoint text
    → encode_string text ≡ ok bytes
    → decode_string (bytes ++ rest) ≡ text
unfolding decode_string
decode_string-encode_string text bytes rest valid h =
    let (encoded, e, fits, shape) = encode_string_shape text bytes h in
    rw shape (
      ground (
        arith,
        utf8_back text encoded valid e,
        take-append_length (length encoded) encoded rest refl,
      ))
