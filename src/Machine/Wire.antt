-- ===== src/Machine/Wire.antt =====
-- `HEType::save` and `HEType::load` of src/he_type.cpp, and the message `pb::HEType` of
-- protos/message.proto.
pub mod RoundTrip
use he_transformer_research.Base.{
  ℕ, Bool, true, false, Option, none, some, List, [], map, if◌then◌else◌, Result, ok, err,
  seal_error,
}
use he_transformer_research.Backend.{Backend}
use he_transformer_research.Machine.{
  HeType, M, lift, cell_at, put_cell, new_cell, pointer, of_plaintext, of_ciphertext,
  plaintext_packing, ◌>>=◌, ◌>>◌,
}

-- An unset `ciphertext` is `none`.
pub record PbHeType (D Bytes : Type 0) : Type 0 where
  pub is_plaintext : Bool
  pub plaintext_packing : Bool
  pub complex_packing : Bool
  pub batch_size : ℕ
  pub plain : List D
  pub ciphertext : Option Bytes

module _ (B : Backend) where
  open B use {D, Bytes, to_float, empty, save_ct, load_ct}

  -- The fields that are set whatever the element is.
  message : HeType D → List D → Option Bytes → PbHeType D Bytes
  message h plain ciphertext = record {
    is_plaintext = h.is_plain;
    plaintext_packing = plaintext_packing h;
    complex_packing = h.complex_packing;
    batch_size = h.batch_size;
    plain = plain;
    ciphertext = ciphertext;
  }

  -- The values are sent as floats.
  unfoldable pub save : HeType D → M B (PbHeType D Bytes)
  unfolding message
  save h =
      let cipher = (do
        p ← pointer B h
        c ← cell_at B p
        bytes ← lift B (save_ct c)
        lift B (ok (message h [] (some bytes)))) in
      if h.is_plain then lift B (ok (message h (map to_float h.plain) none)) else cipher

  -- A ciphertext is loaded into a new cell; SEAL throws where there is none in the message.
  unfoldable pub load : PbHeType D Bytes → M B (HeType D)
  load pb =
      let cipher = (do
        p ← new_cell B empty
        c ← lift B (elim pb.ciphertext [ none ↦ err seal_error | some bytes ↦ load_ct bytes ])
        put_cell B p c
        lift B (ok (of_ciphertext p pb.complex_packing pb.batch_size))) in
      if pb.is_plaintext then lift B (ok (of_plaintext pb.plain pb.complex_packing)) else cipher
