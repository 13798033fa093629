-- ===== src/Aby/Client.antt =====
-- The client's side of a garbled circuit: src/aby/aby_client_executor.cpp. The execution of a party's circuit
-- is the function that gives the clear values of its share.
use Prim.Native.String.{String}
use text.Mathlib.Text.{◌==◌ as str_eq}
use he_transformer_research.Base.{
  ℕ, ◌+◌, ◌*◌, ◌%◌, List, [], ◌∷◌, length, get_elem?, map, replicate, if◌then◌else◌, Result, ok,
  err, check_failed, ngraph_error, require, deref,
}
use he_transformer_research.AbyUtil.{split_vector}
use he_transformer_research.Json.{Json}
use he_transformer_research.Protocol.{function_name}
use he_transformer_research.HeUtil.{ElementType}
use he_transformer_research.Backend.{Backend}
use he_transformer_research.Machine.{HeType, M, lift, cell_at, pointer, is_ciphertext, ◌>>=◌, ◌>>◌}
use he_transformer_research.Tensor.{Ngraph, Tensor}
use he_transformer_research.Tensor.Io.{write, read}
use he_transformer_research.Aby.{BooleanCircuit}
use he_transformer_research.Aby.Numbers.{Numbers, client_word, uint64_to_double}
use he_transformer_research.Aby.Parties.{client_parties}

-- What the client is configured with: `scale` is that of its parameters. `rounds` bounds the loops of
-- `mod_reduce_zero_centered`.
pub record ClientSetup (D : Type 0) : Type 0 where
  pub lowest_coeff_modulus : ℕ
  pub aby_bitlen : ℕ
  pub num_parties : ℕ
  pub scale : D
  pub rounds : ℕ

module _ (B : Backend) (ng : Ngraph) (numbers : Numbers B) (c : ClientSetup B.D) where
  open B use {D, zero_d, to_float}

  -- The words of the values, with the scales of the ciphertexts.
  unfoldable pub client_words : List (HeType D) → ℕ → List D → M B (List ℕ)
  unfolding client_word
  client_words tensor_data i [] = lift B (ok [])
  client_words tensor_data i (v ∷ vs) = do
    he_type ← lift B (deref (get_elem? tensor_data (i % length tensor_data)))
    lift B (require (is_ciphertext he_type) check_failed)
    p ← pointer B he_type
    ciphertext ← cell_at B p
    word ← lift B (client_word B numbers c.rounds v c.lowest_coeff_modulus (B.scale ciphertext))
    rest ← client_words tensor_data (i + 1) vs
    lift B (ok (word ∷ rest))

  -- The values are `float` or `double`, and no other type is valid.
  unfoldable pub stored_as : ElementType → Result (D → D)
  stored_as ElementType.f32 = ok to_float
  stored_as ElementType.f64 = ok (λ v. v)
  stored_as _ = err ngraph_error

  -- The ranges of the parties cover the result, so that every value of it is converted.
  unfoldable pub run_client_relu :
      (circ : BooleanCircuit) → (ℕ → circ.Share → List ℕ) → Tensor D → M B (Tensor D)
  unfolding stored_as client_words client_parties
  run_client_relu circ clear_values t = do
    first ← lift B (deref (get_elem? t.m_data 0))
    let tensor_size = length t.m_data * first.batch_size
    let num_bytes = tensor_size * ng.type_size t.element_type
    store ← lift B (stored_as t.element_type)
    relu_vals ← read B ng t (replicate tensor_size zero_d) num_bytes
    client_gc_vals ← client_words t.m_data 0 relu_vals
    ranges ← lift B (split_vector tensor_size c.num_parties)
    relu_result ← lift B (
        client_parties circ c.aby_bitlen c.lowest_coeff_modulus clear_values client_gc_vals 0 ranges
          (replicate tensor_size 0))
    let doubles = map (λ w. uint64_to_double B numbers w c.lowest_coeff_modulus c.scale) relu_result
    write B ng t (map store doubles) num_bytes

  unfoldable pub run_client_circuit :
      (circ : BooleanCircuit)
      → (ℕ → circ.Share → List ℕ)
      → {Int : Type 0} → Json D Int
      → String
      → Tensor D
      → M B (Tensor D)
  unfolding run_client_relu
  run_client_circuit circ clear_values J function t = do
    name ← lift B (function_name J function)
    if str_eq name "Relu" then run_client_relu circ clear_values t else lift B (err ngraph_error)
