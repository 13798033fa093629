-- ===== src/Scalar/Arith/Alias.antt =====
-- The sum of a ciphertext and a plaintext that is also the output: the plaintext is cleared when the
-- output is made a ciphertext, so its values are not added.
use he_transformer_research.Base.{
  ℕ, ◌+◌, ◌≡◌, ◌≢◌, Bool, false, some, List, [], length, eqb_refl, ok, ==_refl, ne→==,
}
use he_transformer_research.Backend.{Backend}
use he_transformer_research.Machine.{HeType, Mem, of_plaintext, update, set_ciphertext, ◌>>=◌}
use he_transformer_research.Scalar.Arith.{
  scalar_add_seal, add_mixed, ensure_ciphertext, add_ciphertext_plaintext, set_complex_packing,
  cipher_of, is_add_zero,
}

module _ (B : Backend) where
  open B use {D, Ct, empty}

  -- For a ciphertext `arg` and another object `sum` that is a plaintext of the same packing, the call
  -- `scalar_add_seal(arg, sum, sum)`, which src/seal/kernel/sum_seal.hpp makes, returns and leaves
  -- `sum` a ciphertext in a new cell that holds a copy of the ciphertext of `arg`, whatever the values
  -- of `sum` were.
  pub scalar_add_seal-alias :
      (arg sum p : ℕ) (flag : Bool) (values : List D) (batch : ℕ) (m : Mem D Ct)
      → arg ≢ sum
      → p ≢ m.next
      → m.object arg ≡ record {
        is_plain = false;
        complex_packing = flag;
        batch_size = batch;
        plain = [];
        cipher = some p;
      }
      → m.object sum ≡ of_plaintext values flag
      → (m' : Mem D Ct) × (scalar_add_seal B arg sum sum m ≡ ok (tt, m'))
        × ((m'.object sum).is_plain ≡ false)
        × ((m'.object sum).cipher ≡ some (m.next + 1))
        × (m'.cell (m.next + 1) ≡ m.cell p)
  unfolding scalar_add_seal add_mixed ensure_ciphertext add_ciphertext_plaintext set_complex_packing
      cipher_of is_add_zero set_ciphertext of_plaintext
  scalar_add_seal-alias arg sum p flag values batch m ne old ha hs =
      let q = ne→== arg sum ne in
      let old_ne = ne→== p m.next old in
      let fresh : ℕ → HeType D = λ k. record {
        is_plain = false;
        complex_packing = flag;
        batch_size = length values;
        plain = [];
        cipher = some k;
      } in
      let m' : Mem D Ct = record {
        object =
            update (update (update m.object sum (of_plaintext values flag)) sum (fresh m.next)) sum
              (fresh (m.next + 1));
        cell = update (update m.cell m.next empty) (m.next + 1) (m.cell p);
        next = m.next + 1 + 1;
      } in
      (
        m',
        simp (ha, hs, eqb_refl flag, ◌>>=◌, q, ==_refl sum, old_ne),
        rw (==_refl sum),
        rw (==_refl sum),
        rw (==_refl (m.next + 1)),
      )
