-- ===== src/Scalar/Loops.antt =====
-- The kernels over vectors of elements: `add_seal`, `subtract_seal`, `multiply_seal`, `negate_seal`
-- and `result_seal` of src/seal/kernel. A vector of `HEType` is the list of its elements'
-- addresses; the OpenMP loops are modelled in the order of the indices.
use he_transformer_research.Base.{
  ℕ, zero, suc, ◌+◌, List, length, get_elem?, leb, if◌then◌else◌, ok, check_failed, require, deref,
}
use he_transformer_research.HeUtil.{ElementType}
use he_transformer_research.Backend.{Backend}
use he_transformer_research.Machine.{
  M, lift, object_at, put_object, set_ciphertext, set_plaintext, pointer, ◌>>=◌, ◌>>◌,
}
use he_transformer_research.Scalar.Arith.{scalar_add_seal, set_complex_packing}
use he_transformer_research.Scalar.Negate.{scalar_negate_seal, scalar_subtract_seal}
use he_transformer_research.Scalar.Multiply.{scalar_multiply_seal}

module _ (B : Backend) where
  open B use {is_supported_type}

  -- The loop from an index on, for so many elements; an index out of bounds is undefined.
  pub binary_loop : (ℕ → ℕ → ℕ → M B (Unit {0})) → List ℕ → List ℕ → List ℕ → ℕ → ℕ → M B (Unit {0})
  binary_loop f arg0 arg1 out i zero = lift B (ok tt)
  binary_loop f arg0 arg1 out i (suc n) = do
    a0 ← lift B (deref (get_elem? arg0 i))
    a1 ← lift B (deref (get_elem? arg1 i))
    o ← lift B (deref (get_elem? out i))
    f a0 a1 o
    binary_loop f arg0 arg1 out (i + 1) n

  pub binary_seal :
      (ℕ → ℕ → ℕ → M B (Unit {0})) → List ℕ → List ℕ → List ℕ → ℕ → ElementType → M B (Unit {0})
  binary_seal f arg0 arg1 out count element_type = do
    lift B (require (is_supported_type element_type) check_failed)
    lift B (require (leb count (length arg0)) check_failed)
    lift B (require (leb count (length arg1)) check_failed)
    binary_loop f arg0 arg1 out 0 count

  pub add_seal : List ℕ → List ℕ → List ℕ → ℕ → ElementType → M B (Unit {0})
  add_seal = binary_seal (scalar_add_seal B)

  pub subtract_seal : List ℕ → List ℕ → List ℕ → ℕ → ElementType → M B (Unit {0})
  subtract_seal = binary_seal (scalar_subtract_seal B)

  pub multiply_seal : List ℕ → List ℕ → List ℕ → ℕ → ElementType → M B (Unit {0})
  multiply_seal = binary_seal (scalar_multiply_seal B)

  pub unary_loop : (ℕ → ℕ → M B (Unit {0})) → List ℕ → List ℕ → ℕ → ℕ → M B (Unit {0})
  unary_loop f arg out i zero = lift B (ok tt)
  unary_loop f arg out i (suc n) = do
    a ← lift B (deref (get_elem? arg i))
    o ← lift B (deref (get_elem? out i))
    f a o
    unary_loop f arg out (i + 1) n

  pub negate_seal : List ℕ → List ℕ → ℕ → ElementType → M B (Unit {0})
  negate_seal arg out count element_type = do
    lift B (require (is_supported_type element_type) check_failed)
    lift B (require (leb count (length arg)) check_failed)
    lift B (require (leb count (length out)) check_failed)
    unary_loop (λ a o. scalar_negate_seal B a o element_type) arg out 0 count

  -- A ciphertext is shared with `out`, not copied.
  pub scalar_result_seal : ℕ → ℕ → M B (Unit {0})
  scalar_result_seal arg out = do
    h ← object_at B arg
    set_complex_packing B out h.complex_packing
    g ← object_at B arg
    o ← object_at B out
    let share = do p ← pointer B g; set_ciphertext B out p
    if g.is_plain
        then (if o.is_plain then put_object B out g else set_plaintext B out g.plain)
        else (if o.is_plain then share else put_object B out g)

  pub result_seal : List ℕ → List ℕ → ℕ → M B (Unit {0})
  result_seal arg out count = do
    lift B (require (leb count (length arg)) check_failed)
    lift B (require (leb count (length out)) check_failed)
    unary_loop scalar_result_seal arg out 0 count
