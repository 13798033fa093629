-- ===== src/Client/Environment.antt =====
-- What the client takes from outside src/, in one record.
use Prim.Native.String.{String}
use he_transformer_research.Base.{ℕ}
use he_transformer_research.Backend.{Backend}
use he_transformer_research.EncryptionParameters.{SealParms}
use he_transformer_research.EncryptionParameters.Wire.{ByteForms}
use he_transformer_research.Json.{Json}
use he_transformer_research.Machine.Wire.{PbHeType}
use he_transformer_research.Moves.{Coordinates}
use he_transformer_research.Tensor.{Ngraph}
use he_transformer_research.Client.{KeyGenerator}

-- SEAL's objects, parameters, bytes and keys; JSON; nGraph's sizes and coordinates; protobuf's
-- `ByteSize`, and the quotient that `write_to_pb_tensors` computes with floats; nGraph's `to_lower`.
pub record Environment : Type 1 where
  pub backend : Backend
  pub Int : Type 0
  pub parms : SealParms backend.D Int
  pub byte_forms : ByteForms parms
  pub keygen : KeyGenerator parms
  pub json : Json backend.D Int
  pub ngraph : Ngraph
  pub coordinates : Coordinates
  pub byte_size : PbHeType backend.D backend.Bytes → ℕ
  pub float_quotient : ℕ → ℕ
  pub to_lower : String → String
