-- ===== src/Uart/Reader.antt =====
-- The buffer of the read loop (nightshift/hardware/uart/gateway.py, `_read_loop`).
pub mod Chunks
use nightshift_opi.Prelude.{
  ℕ, zero, suc, ◌+◌, Bool, true, false, Option, none, some, List, [], ◌∷◌, ◌++◌, ◌==◌,
  if◌then◌else◌, length, take, drop,
}
use nightshift_opi.Prelude.Bytes.{Bytes}

-- `buffer.index(b"\x00")`; `none` is `b"\x00" not in buffer`
unfoldable pub index_zero : Bytes → Option ℕ
index_zero [] = none
index_zero (b ∷ rest) =
    if b == 0 then some 0 else elim (index_zero rest) [ none ↦ none | some i ↦ some (suc i) ]

module _ {ℓ} {S : Type ℓ} (handle : Bytes → S → S) where
  -- The loop `while b"\x00" in buffer`. `handle` is the `try` block on one `frame_bytes`, over the
  -- state of the gateway; the buffer that is left comes back beside that state. Each round takes
  -- a byte at least, so `len(buffer)` rounds are enough.
  unfoldable pub drain : ℕ → Bytes → S → Bytes × S
  drain zero buffer s = (buffer, s)
  drain (suc fuel) buffer s = elim (index_zero buffer) [
    | none ↦ (buffer, s)
    | some delim ↦ drain fuel (drop (delim + 1) buffer) (handle (take (delim + 1) buffer) s)
  ]

  -- One chunk of `self._reader.read(256)`.
  unfoldable pub read_chunk : Bytes → Bytes × S → Bytes × S
  read_chunk chunk (buffer, s) = drain (length (buffer ++ chunk)) (buffer ++ chunk) s

  unfoldable pub read_chunks : List Bytes → Bytes × S → Bytes × S
  read_chunks [] p = p
  read_chunks (chunk ∷ rest) p = read_chunks rest (read_chunk chunk p)
