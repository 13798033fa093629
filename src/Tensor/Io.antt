-- ===== src/Tensor/Io.antt =====
-- The constructor, `write` and `read` of `HETensor` in src/he_tensor.cpp, and `HEPlaintext::write`
-- of src/he_plaintext.cpp. The OpenMP loops are modelled in the order of the indices.
pub mod Plain
use Prim.Native.String.{String}
use he_transformer_research.Base.{
  ℕ, zero, suc, ◌+◌, ◌*◌, ◌/◌, Bool, true, false, not, none, some, List, [], ◌∷◌, length, get_elem?,
  set, resize, replicate, ltb, ◌==◌, if◌then◌else◌, Result, ok, err, check_failed, undefined,
  require, deref,
}
use he_transformer_research.HeUtil.{ElementType}
use he_transformer_research.Backend.{Backend}
use he_transformer_research.Machine.{
  HeType, M, lift, cell_at, put_cell, new_cell, pointer, of_plaintext, of_ciphertext, ◌>>=◌, ◌>>◌,
}
use he_transformer_research.Cipher.Encode.{encrypt, decrypt}
use he_transformer_research.Tensor.{
  Ngraph, Tensor, get_batch_size, batch_size, pack_shape, check_io_bounds,
}

module _ (B : Backend) (ng : Ngraph) where
  open B use {D, zero_d, empty, to_float, round_i32, round_i64, first_chain_index, backend_scale}

  -- The elements of an encrypted tensor, each with a ciphertext of its own.
  unfoldable pub empty_ciphertexts : ℕ → Bool → ℕ → M B (List (HeType D))
  empty_ciphertexts zero complex_packing batch = lift B (ok [])
  empty_ciphertexts (suc n) complex_packing batch = do
    p ← new_cell B empty
    rest ← empty_ciphertexts n complex_packing batch
    lift B (ok (of_ciphertext p complex_packing batch ∷ rest))

  unfoldable pub tensor_of :
      ElementType → List ℕ → Bool → String → List ℕ → List (HeType D) → Tensor D
  tensor_of element_type shape packed name packed_shape elements = record {
    name = name;
    element_type = element_type;
    shape = shape;
    packed = packed;
    packed_shape = packed_shape;
    m_data = elements;
    write_count = 0;
  }

  unfoldable pub new_tensor : ElementType → List ℕ → Bool → Bool → Bool → String → M B (Tensor D)
  unfolding empty_ciphertexts tensor_of
  new_tensor element_type shape plaintext_packing complex_packing encrypted name = do
    packed_shape ← lift B (if plaintext_packing then pack_shape shape 0 else ok shape)
    let batch = batch_size shape plaintext_packing
    let num_elements = if batch == 0 then 0 else ng.shape_size shape / batch
    let plain = replicate num_elements (of_plaintext (replicate batch zero_d) complex_packing)
    elements ←
        (if encrypted
          then empty_ciphertexts num_elements complex_packing batch
          else lift B (ok plain))
    lift B (ok (tensor_of element_type shape plaintext_packing name packed_shape elements))

  -- The values of element `i`: those at `i + j * count` for each index `j` of the batch.
  pub gather : List D → ℕ → ℕ → ℕ → ℕ → M B (List D)
  gather p count i j zero = lift B (ok [])
  gather p count i j (suc n) = do
    v ← lift B (deref (get_elem? p (i + j * count)))
    rest ← gather p count i (j + 1) n
    lift B (ok (v ∷ rest))

  -- `set_plaintext` on an element of the vector, or an encryption into a fresh ciphertext.
  pub write_element : ElementType → List D → HeType D → M B (HeType D)
  write_element element_type plain h =
      let clear : M B (Unit {0}) = elim h.cipher [
        | none ↦ lift B (ok tt)
        | some p ↦ put_cell B p empty
      ] in
      let plaintext = (do
        clear
        lift B (ok (record h { is_plain = true; plain = plain; batch_size = length plain }))) in
      let ciphertext = (do
        c ← lift B (encrypt B plain element_type first_chain_index backend_scale h.complex_packing)
        q ← new_cell B c
        lift B (ok (record h { cipher = some q; is_plain = false; plain = [] }))) in
      if h.is_plain then plaintext else ciphertext

  write_loop : ElementType → List D → ℕ → ℕ → ℕ → ℕ → List (HeType D) → M B (List (HeType D))
  write_loop element_type p count batch i zero hs = lift B (ok hs)
  write_loop element_type p count batch i (suc n) hs = do
    plain ← gather p count i 0 batch
    h ← lift B (deref (get_elem? hs i))
    h' ← write_element element_type plain h
    write_loop element_type p count batch (i + 1) n (set hs i h')

  pub write : Tensor D → List D → ℕ → M B (Tensor D)
  unfolding write_loop
  write t p n = do
    lift B (check_io_bounds ng t n)
    let batch = get_batch_size t
    let values = n / ng.type_size t.element_type
    let count = if batch == 0 then values else values / batch
    hs ← write_loop t.element_type p count batch 0 count t.m_data
    lift B (ok (record t { m_data = hs; write_count = t.write_count + count }))

  -- `HEPlaintext::write`: the values as the element type stores them.
  unfoldable pub write_value : ElementType → D → Result D
  write_value ElementType.f32 v = ok (to_float v)
  write_value ElementType.f64 v = ok v
  write_value ElementType.i32 v = ok (round_i32 v)
  write_value ElementType.i64 v = ok (round_i64 v)
  write_value _ v = err check_failed

  -- `copy_batch_values_to_src`, with the conversion of each value.
  scatter : ElementType → List D → ℕ → ℕ → ℕ → List D → M B (List D)
  scatter element_type [] count i j p = lift B (ok p)
  scatter element_type (v ∷ vs) count i j p = do
    w ← lift B (write_value element_type v)
    lift B (require (ltb (i + j * count) (length p)) undefined)
    scatter element_type vs count i (j + 1) (set p (i + j * count) w)

  -- The plaintext of an element, which for a ciphertext is decrypted.
  pub read_element : HeType D → M B (List D)
  read_element h =
      let ciphertext = (do
        q ← pointer B h
        c ← cell_at B q
        lift B (decrypt B c h.complex_packing h.batch_size)) in
      if h.is_plain then lift B (ok h.plain) else ciphertext

  read_loop : Tensor D → ℕ → ℕ → ℕ → List D → M B (List D)
  read_loop t count i zero p = lift B (ok p)
  read_loop t count i (suc n) p = do
    h ← lift B (deref (get_elem? t.m_data i))
    plain ← read_element h
    p' ← scatter t.element_type (resize (get_batch_size t) zero_d plain) count i 0 p
    read_loop t count (i + 1) n p'

  -- The memory `p` after the read; a batch size of 0 divides by zero.
  unfoldable pub read : Tensor D → List D → ℕ → M B (List D)
  unfolding scatter read_loop
  read t p n = do
    lift B (check_io_bounds ng t n)
    let divisor = ng.type_size t.element_type * get_batch_size t
    lift B (require (not (divisor == 0)) undefined)
    read_loop t (n / divisor) 0 (n / divisor) p
