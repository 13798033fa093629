-- ===== src/Aby/Server.antt =====
-- The server's side of a garbled circuit: src/aby/aby_server_executor.cpp. A batch is the objects of its
-- elements; the random numbers are what the generator of the standard library draws.
use Prim.Native.String.{String}
use text.Mathlib.Text.{◌==◌ as str_eq}
use he_transformer_research.Base.{
  ℕ, ◌*◌, ◌/◌, ◌%◌, ◌^◌, Bool, false, Option, List, [], ◌∷◌, length, map, replicate, if◌then◌else◌,
  Result, ok, err, check_failed, ngraph_error, undefined, require,
}
use he_transformer_research.AbyUtil.{split_vector}
use he_transformer_research.Json.{Json}
use he_transformer_research.Protocol.{function_name}
use he_transformer_research.HeUtil.{ElementType}
use he_transformer_research.Backend.{Backend}
use he_transformer_research.Machine.{
  HeType, M, lift, cell_at, put_cell, pointer, is_ciphertext, plaintext_packing, ◌>>=◌, ◌>>◌,
}
use he_transformer_research.Scalar.Negate.{subtract_ciphertext_plaintext}
use he_transformer_research.Tensor.{Ngraph, Tensor}
use he_transformer_research.Tensor.Io.{new_tensor, write, read}
use he_transformer_research.Aby.{BooleanCircuit}
use he_transformer_research.Aby.Numbers.{Numbers}
use he_transformer_research.Aby.Parties.{server_parties}

-- `m_gc_input_mask` and `m_gc_output_mask`
pub record Masks (D : Type 0) : Type 0 where
  pub gc_input_mask : Tensor D
  pub gc_output_mask : Tensor D

-- What a backend and an executor are configured with.
pub record Setup : Type 0 where
  pub lowest_coeff_modulus : ℕ
  pub aby_bitlen : ℕ
  pub num_parties : ℕ
  pub mask_gc_inputs : Bool
  pub mask_gc_outputs : Bool

module _ (B : Backend) (ng : Ngraph) (numbers : Numbers B) (c : Setup) where
  open B use {D, Ct, zero_d, sub, divide, scale, mod_switch_to, backend_scale}
  open numbers use {of_word, to_u64, is_close, half_of}

  -- `random` is as many numbers as are drawn.
  unfoldable pub generate_gc_mask :
      List ℕ → Bool → Bool → String → Bool → List ℕ → ℕ → M B (Tensor D)
  generate_gc_mask shape plaintext_packing complex_packing name is_random random default_value = do
    t ← new_tensor B ng ElementType.i64 shape plaintext_packing complex_packing false name
    let count = ng.shape_size shape
    let rand_vals = if is_random then random else replicate count default_value
    write B ng t (map of_word rand_vals) (count * 8)

  -- The values of a mask are subtracted at the scale of the ciphertext, at the lowest level.
  unfoldable pub mask_element : HeType D → HeType D → M B D
  mask_element he_type mask = do
    lift B (require (is_ciphertext he_type) check_failed)
    p ← pointer B he_type
    ciphertext ← cell_at B p
    switched ← lift B (mod_switch_to ciphertext 0)
    put_cell B p switched
    let cipher_scale = scale switched
    let scaled_gc_input_mask = map (λ v. divide v cipher_scale) mask.plain
    subtract_ciphertext_plaintext B p scaled_gc_input_mask p he_type.complex_packing
    lift B (ok cipher_scale)

  unfoldable pub mask_loop : List (HeType D) → List (HeType D) → M B (List D)
  unfolding mask_element
  mask_loop [] masks = lift B (ok [])
  mask_loop (he_type ∷ batch) [] = lift B (err undefined)
  mask_loop (he_type ∷ batch) (mask ∷ masks) = do
    s ← mask_element he_type mask
    scales ← mask_loop batch masks
    lift B (ok (s ∷ scales))

  unfoldable pub check_scales : D → List D → Result (Unit {0})
  check_scales first [] = ok tt
  check_scales first (s ∷ scales) =
      if is_close (sub s first) then check_scales first scales else err check_failed

  -- Every scale is compared with the first.
  unfoldable pub same_scales : List D → Result (Unit {0})
  unfolding check_scales
  same_scales [] = ok tt
  same_scales (s ∷ scales) = check_scales s (s ∷ scales)

  unfoldable pub prepare_aby_relu_circuit : List ℕ → List ℕ → List (HeType D) → M B (Masks D)
  unfolding generate_gc_mask mask_loop same_scales
  prepare_aby_relu_circuit random_inputs random_outputs [] = lift B (err undefined)
  prepare_aby_relu_circuit random_inputs random_outputs (first ∷ rest) = do
    let cipher_batch = first ∷ rest
    let packing = plaintext_packing first
    let shape = first.batch_size ∷ length cipher_batch ∷ []
    input_mask ←
        generate_gc_mask shape packing first.complex_packing "gc_input_mask" c.mask_gc_inputs
          random_inputs 0
    output_mask ←
        generate_gc_mask shape packing first.complex_packing "gc_output_mask" c.mask_gc_outputs
          random_outputs (c.lowest_coeff_modulus / 2)
    scales ← mask_loop cipher_batch input_mask.m_data
    lift B (same_scales scales)
    lift B (ok (record { gc_input_mask = input_mask; gc_output_mask = output_mask }))

  -- The circuits of the parties, which are executed; the count of values is a word of 32 bits.
  unfoldable pub run_aby_relu_circuit :
      (circ : BooleanCircuit) → Masks D → List (HeType D) → M B (List (Option circ.Share))
  unfolding server_parties
  run_aby_relu_circuit circ masks [] = lift B (err undefined)
  run_aby_relu_circuit circ masks (first ∷ rest) = do
    let num_aby_vals = length (first ∷ rest) * first.batch_size % 2 ^ 32
    ranges ← lift B (split_vector num_aby_vals c.num_parties)
    inputs ← read B ng masks.gc_input_mask (replicate num_aby_vals zero_d) (num_aby_vals * 8)
    outputs ← read B ng masks.gc_output_mask (replicate num_aby_vals zero_d) (num_aby_vals * 8)
    lift B (
        server_parties circ c.aby_bitlen c.lowest_coeff_modulus (map to_u64 inputs)
          (map to_u64 outputs) ranges)

  unfoldable pub unmask_loop : List (HeType D) → List (HeType D) → M B (Unit {0})
  unmask_loop [] masks = lift B (ok tt)
  unmask_loop (data_of ∷ elements) [] = do
    lift B (require (is_ciphertext data_of) check_failed)
    lift B (err undefined)
  unmask_loop (data_of ∷ elements) (mask ∷ masks) = do
    lift B (require (is_ciphertext data_of) check_failed)
    p ← pointer B data_of
    let half = half_of c.lowest_coeff_modulus
    let values = map (λ v. divide (sub v half) backend_scale) mask.plain
    subtract_ciphertext_plaintext B p values p data_of.complex_packing
    unmask_loop elements masks

  unfoldable pub post_process_aby_relu_circuit : Masks D → List (HeType D) → M B (Unit {0})
  unfolding unmask_loop
  post_process_aby_relu_circuit masks elements =
      if c.mask_gc_outputs then unmask_loop elements masks.gc_output_mask.m_data else lift B (ok tt)

  -- The three calls by the name of a function: `prepare_aby_circuit`, `run_aby_circuit` and
  -- `post_process_aby_circuit` know one function.
  abbrev pub for_relu : {Int A : Type 0} → Json D Int → String → M B A → M B A
  for_relu J function step = do
    name ← lift B (function_name J function)
    if str_eq name "Relu" then step else lift B (err ngraph_error)

  unfoldable pub prepare_aby_circuit :
      {Int : Type 0} → Json D Int → List ℕ → List ℕ → String → Tensor D → M B (Masks D)
  unfolding prepare_aby_relu_circuit
  prepare_aby_circuit J random_inputs random_outputs function t =
      for_relu J function (prepare_aby_relu_circuit random_inputs random_outputs t.m_data)

  unfoldable pub run_aby_circuit :
      (circ : BooleanCircuit)
      → {Int : Type 0} → Json D Int
      → Masks D
      → String
      → Tensor D
      → M B (List (Option circ.Share))
  unfolding run_aby_relu_circuit
  run_aby_circuit circ J masks function t =
      for_relu J function (run_aby_relu_circuit circ masks t.m_data)

  unfoldable pub post_process_aby_circuit :
      {Int : Type 0} → Json D Int → Masks D → String → Tensor D → M B (Unit {0})
  unfolding post_process_aby_relu_circuit
  post_process_aby_circuit J masks function t =
      for_relu J function (post_process_aby_relu_circuit masks t.m_data)
