-- ===== src/Uart/Text.antt =====
-- Strings on the wire (nightshift/hardware/uart/protocol.py, `_encode_string`, `_decode_string`).
-- A `str` is the list of its code points. `str.encode("utf-8")` and
-- `bytes.decode("utf-8", errors="replace")` are written out as Python documents them.
pub mod RoundTrip
use nightshift_opi.Prelude.{
  ℕ, zero, suc, ◌+◌, ◌-◌, ◌*◌, ◌/◌, ◌%◌, Bool, ◌&&◌, List, [], ◌∷◌, ◌++◌, ltb, leb, ◌==◌,
  if◌then◌else◌, length, take, drop, Result, ok, err, unicode_error, ◌>>=◌,
}
use nightshift_opi.Prelude.Bytes.{Bytes, to_bytes, field}

abbrev pub Text : Type 0
Text = List ℕ

-- One code point; a lone surrogate cannot be encoded.
unfoldable pub utf8_char : ℕ → Result Bytes
utf8_char c =
    if ltb c 0x80
    then ok (c ∷ [])
    else if ltb c 0x800
    then ok ((0xC0 + c / 64) ∷ (0x80 + c % 64) ∷ [])
    else if leb 0xD800 c && leb c 0xDFFF
    then err unicode_error
    else if ltb c 0x10000
    then ok ((0xE0 + c / 4096) ∷ (0x80 + c / 64 % 64) ∷ (0x80 + c % 64) ∷ [])
    else ok
        ((0xF0 + c / 262144) ∷ (0x80 + c / 4096 % 64) ∷ (0x80 + c / 64 % 64) ∷ (0x80 + c % 64) ∷ [])

unfoldable pub utf8_encode : Text → Result Bytes
utf8_encode [] = ok []
utf8_encode (c ∷ text) = do bytes ← utf8_char c; rest ← utf8_encode text; ok (bytes ++ rest)

-- The decoder between two bytes: `want left acc lo hi` waits for `left + 1` continuation bytes,
-- the next of which lies between `lo` and `hi`.
pub data Mode : Type 0 where
  idle : Mode
  want : ℕ → ℕ → ℕ → ℕ → Mode

abbrev pub replacement : ℕ
replacement = 0xFFFD

-- A byte at the start of a character.
unfoldable pub utf8_start : ℕ → Text × Mode
utf8_start b =
    if ltb b 0x80
    then (b ∷ [], idle)
    else if ltb b 0xC2
    then (replacement ∷ [], idle)
    else if ltb b 0xE0
    then ([], want 0 (b - 0xC0) 0x80 0xBF)
    else if ltb b 0xF0
    then (
      [],
      want 1 (b - 0xE0) (if b == 0xE0 then 0xA0 else 0x80) (if b == 0xED then 0x9F else 0xBF),
    )
    else if ltb b 0xF5
    then (
      [],
      want 2 (b - 0xF0) (if b == 0xF0 then 0x90 else 0x80) (if b == 0xF4 then 0x8F else 0xBF),
    )
    else (replacement ∷ [], idle)

-- A byte that cannot go on ends the broken character with one U+FFFD, and starts the next.
unfoldable pub utf8_step : Mode → ℕ → Text × Mode
utf8_step idle b = utf8_start b
utf8_step (want zero acc lo hi) b =
    if leb lo b && leb b hi
    then ((acc * 64 + (b - 0x80)) ∷ [], idle)
    else (let (out, mode) = utf8_start b in (replacement ∷ out, mode))
utf8_step (want (suc left) acc lo hi) b =
    if leb lo b && leb b hi
    then ([], want left (acc * 64 + (b - 0x80)) 0x80 0xBF)
    else (let (out, mode) = utf8_start b in (replacement ∷ out, mode))

unfoldable pub utf8_from : Mode → Bytes → Text
utf8_from idle [] = []
utf8_from (want _ _ _ _) [] = replacement ∷ []
utf8_from mode (b ∷ rest) = let (out, next) = utf8_step mode b in out ++ utf8_from next rest

unfoldable pub encode_string : Text → Result Bytes
encode_string text = do
  encoded ← utf8_encode text
  size ← to_bytes 2 (length encoded)
  ok (size ++ encoded)

unfoldable pub decode_string : Bytes → Text
decode_string bytes =
    if ltb (length bytes) 2 then [] else utf8_from idle (take (field 0 2 bytes) (drop 2 bytes))
