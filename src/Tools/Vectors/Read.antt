-- ===== src/Tools/Vectors/Read.antt =====
-- What a reader of the vectors finds in them.
use nightshift_opi.Prelude.{◌≡◌, List, [], ◌∷◌, length, ok}
use nightshift_opi.Prelude.Bytes.{Bytes}
use nightshift_opi.Uart.Frame.{version_1, unstuffed}
use nightshift_opi.Tools.Vectors.{VectorSpec, Vector, hex}

-- What a vector says of its specification: the fields, and a wire image that is read as the frame
-- with these fields and the payload that the encoder wrote.
pub record Describes (spec : VectorSpec) (v : Vector) : Type 0 where
  pub name : v.name ≡ spec.name
  pub command_name : v.command_name ≡ spec.command_name
  pub payload : Bytes
  pub encoded : spec.payload ≡ ok payload
  pub payload_hex : v.payload_hex ≡ hex payload
  pub payload_length : v.payload_length ≡ length payload
  pub raw_hex : v.raw_hex ≡ hex v.raw_bytes
  pub image :
      unstuffed v.raw_bytes
      ≡ ok (record {
        version = version_1;
        flags = v.flags;
        sequence = v.sequence;
        command = v.command;
        payload = payload;
      })

-- Vectors for the specifications in order, one for each.
abbrev pub DescribesAll : List VectorSpec → List Vector → Type 0
DescribesAll [] [] = Unit
DescribesAll [] (v ∷ vs) = ⊥
DescribesAll (spec ∷ rest) [] = ⊥
DescribesAll (spec ∷ rest) (v ∷ vs) = Describes spec v × DescribesAll rest vs
