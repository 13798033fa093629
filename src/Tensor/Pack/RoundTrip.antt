-- ===== src/Tensor/Pack/RoundTrip.antt =====
-- `unpack` undoes `pack` on a tensor of single values.
use native.Mathlib.Nat.{suc-mul, mul-div_cancel_left}
use he_transformer_research.Base.{
  ℕ, suc, ◌*◌, ◌/◌, ◌<◌, ◌≡◌, refl, sym, ap, ◌∙◌, Bool, true, false, List, [], ◌∷◌, length,
  replicate, All, ok, ne→==, length-append, length-replicate, arith, ◌==◌,
}
use Prim.Native.String.{String}
use he_transformer_research.HeUtil.{ElementType}
use he_transformer_research.Machine.{of_plaintext, is_ciphertext}
use he_transformer_research.Tensor.{
  Tensor, get_batch_size, any_encrypted_data, pack_shape, batch_size,
}
use he_transformer_research.Tensor.Pack.{pack_loop, of_columns, pack, unpack_loop, unpack}
use he_transformer_research.Tensor.Pack.Columns.{
  Height-blank, singles, concat, push_rows, length-push_rows, length-of_columns, pack_loop-rows,
  unpack_loop-rows,
}

module _ {D : Type 0} where
  length-singles :
      (rows : List (List D)) (n : ℕ)
      → All (λ row. length row ≡ n) rows
      → length (singles (concat rows)) ≡ length rows * n
  length-singles rows n same = length-each (concat rows) ∙ length-concat rows same
    where
      length-each : (vs : List D) → length (singles vs) ≡ length vs
      length-each [] = refl
      length-each (v ∷ vs) = ap suc (length-each vs)

      length-concat :
          (rs : List (List D)) → All (λ row. length row ≡ n) rs → length (concat rs) ≡ length rs * n
      length-concat [] h = omega arith
      length-concat (r ∷ rs) h =
          omega
            (arith, length-append r (concat rs), h.0, length-concat rs (h.1), suc-mul (length rs) n)

  singles-plain : (vs : List D) → any_encrypted_data (singles vs) ≡ false
  unfolding any_encrypted_data of_plaintext is_ciphertext
  singles-plain [] = refl
  singles-plain (v ∷ vs) = singles-plain vs

  columns-plain : (cols : List (List D × Bool)) → any_encrypted_data (of_columns cols) ≡ false
  unfolding any_encrypted_data of_plaintext is_ciphertext
  columns-plain [] = refl
  columns-plain (c ∷ cols) = columns-plain cols

  -- An unpacked tensor of plaintexts of the shape `d ∷ ds`, its values row by row.
  abbrev pub plain_tensor : String → ElementType → ℕ → List ℕ → List (List D) → ℕ → Tensor D
  plain_tensor name element_type d ds rows count = record {
    name = name;
    element_type = element_type;
    shape = d ∷ ds;
    packed = false;
    packed_shape = d ∷ ds;
    m_data = singles (concat rows);
    write_count = count;
  }

  -- An unpacked tensor of plaintext single values without complex packing, of `d` rows, `d` not 0, of
  -- `n` values each, is packed into `n` elements with the batch size `d`, and `unpack` gives the
  -- tensor back.
  pub pack-unpack_roundtrip :
      (name : String) (element_type : ElementType) (d n : ℕ) (ds : List ℕ) (rows : List (List D))
      (count : ℕ)
      → 0 < d
      → length rows ≡ d
      → All (λ row. length row ≡ n) rows
      → (t : Tensor D) × (pack (plain_tensor name element_type d ds rows count) 0 ≡ ok t)
        × (length t.m_data ≡ n)
        × (get_batch_size t ≡ d)
        × (unpack t ≡ ok (plain_tensor name element_type d ds rows count))
  unfolding pack unpack pack_shape batch_size
  pack-unpack_roundtrip name element_type d n ds rows count pos high same =
      let cols = push_rows (replicate n ([], false)) rows in
      let t : Tensor D = record {
        name = name;
        element_type = element_type;
        shape = d ∷ ds;
        packed = true;
        packed_shape = 1 ∷ ds;
        m_data = of_columns cols;
        write_count = count;
      } in
      let at_zero : 0 ≡ 0 * n = omega arith in
      let nonzero : (d == 0) ≡ false = ne→== d 0 (λ z. omega arith) in
      let size : length (singles (concat rows)) / d ≡ n =
        ap (λ k. k / d) (length-singles rows n same ∙ ap (λ k. k * n) high)
        ∙ mul-div_cancel_left n pos in
      let loop : pack_loop 0 (singles (concat rows)) (replicate n ([], false)) ≡ ok cols =
        ap (λ k. pack_loop k (singles (concat rows)) (replicate n ([], false))) at_zero
        ∙ pack_loop-rows 0 n rows (replicate n ([], false)) (length-replicate n _) same in
      let unloop : unpack_loop 0 d (of_columns cols) ≡ ok (singles (concat rows)) =
        ap (λ k. unpack_loop 0 k (of_columns cols)) (sym high)
        ∙ unpack_loop-rows 0 n rows (replicate n ([], false)) (length-replicate n _) same
            (Height-blank D n) in
      (
        t,
        simp (singles-plain (concat rows), nonzero, size, loop),
        length-of_columns cols
            ∙ length-push_rows (replicate n ([], false)) rows
            ∙ length-replicate n _,
        refl,
        simp (columns-plain cols, unloop),
      )
