-- ===== src/Tools/Vectors.antt =====
-- The golden vectors of T5-Link v1 (tools/regenerate_golden_vectors.py).
pub mod StateSpecs
pub mod PanelSpecs
pub mod Specs
pub mod Read
use Prim.Native.String.{String}
use nightshift_opi.Prelude.{
  ℕ, ◌+◌, ◌/◌, ◌%◌, List, [], ◌∷◌, length, ltb, if◌then◌else◌, Result, ok, err, ◌>>=◌,
}
use nightshift_opi.Prelude.Bytes.{Bytes}
use nightshift_opi.Uart.Frame.{Frame, version_1, wire}
use nightshift_opi.Uart.Text.{Text}

-- `payload` is the result of `payload_factory`.
pub record VectorSpec : Type 0 where
  pub name : String
  pub sequence : ℕ
  pub command : ℕ
  pub command_name : String
  pub flags : ℕ
  pub payload : Result Bytes

-- The fields of one object of the file.
pub record Vector : Type 0 where
  pub name : String
  pub sequence : ℕ
  pub command : ℕ
  pub command_name : String
  pub flags : ℕ
  pub payload_hex : Text
  pub payload_length : ℕ
  pub raw_hex : Text
  pub raw_bytes : Bytes

-- The code of a hexadecimal digit.
abbrev digit : ℕ → ℕ
digit d = if ltb d 10 then 48 + d else 87 + d

-- `data.hex()`
unfoldable pub hex : Bytes → Text
hex [] = []
hex (b ∷ rest) = digit (b / 16) ∷ digit (b % 16) ∷ hex rest

unfoldable pub frame_of : VectorSpec → Bytes → Frame
frame_of spec payload = record {
  version = version_1;
  flags = spec.flags;
  sequence = spec.sequence;
  command = spec.command;
  payload = payload;
}

-- The body of the loop; `wire` is what `_wire` computes.
unfoldable pub build_vector : VectorSpec → Result Vector
build_vector spec = do
  payload ← spec.payload
  bytes ← wire (frame_of spec payload)
  ok (record {
    name = spec.name;
    sequence = spec.sequence;
    command = spec.command;
    command_name = spec.command_name;
    flags = spec.flags;
    payload_hex = hex payload;
    payload_length = length payload;
    raw_hex = hex bytes;
    raw_bytes = bytes;
  })

unfoldable pub build_vectors : List VectorSpec → Result (List Vector)
build_vectors [] = ok []
build_vectors (spec ∷ rest) = do
  vector ← build_vector spec
  vectors ← build_vectors rest
  ok (vector ∷ vectors)
