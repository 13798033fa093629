-- ===== src/Tensor/Io/Plain.antt =====
-- A tensor of plaintexts of one value each is read as its values.
use he_transformer_research.Base.{
  ℕ, ◌+◌, ◌*◌, ◌/◌, ◌<◌, ◌≤◌, ◌≡◌, refl, sym, ap, ◌∙◌, Bool, false, some, List, [], ◌∷◌, ◌++◌, map,
  length, resize, get_elem?, ◌==◌, lt→ltb, ne→==, length-append, append_one, get_elem?-middle,
  set-middle, ok, arith,
}
use native.Mathlib.Nat.{mul-div_cancel}
use he_transformer_research.Backend.{Backend}
use he_transformer_research.Machine.{HeType, Mem, of_plaintext}
use he_transformer_research.Machine.{◌>>=◌ as ◌>>=M◌}
use he_transformer_research.Tensor.{Ngraph, Tensor, get_batch_size}
use he_transformer_research.Tensor.Bounds.{check_io_bounds-single}
use he_transformer_research.Tensor.Io.{write_value, scatter, read_element, read_loop, read}

module _ (B : Backend) (ng : Ngraph) where
  open B use {D, Ct, zero_d}

  abbrev value_of : Bool → D → HeType D
  value_of complex_packing v = of_plaintext (v ∷ []) complex_packing

  -- The values are written after those that were read before, `hd`, in the place of as many others.
  read_loop-values :
      (stored : D → D) (cp : Bool) (t : Tensor D) (count : ℕ) (vs : List D) (hd : List (HeType D))
      (before after : List D) (i : ℕ) (m : Mem D Ct)
      → ((v : D) → write_value B ng t.element_type v ≡ ok (stored v))
      → get_batch_size t ≡ 1
      → t.m_data ≡ hd ++ map (value_of cp) vs
      → i ≡ length hd
      → i ≡ length before
      → length after ≡ length vs
      → read_loop B ng t count i (length vs) (before ++ after) m ≡ ok (before ++ map stored vs, m)
  unfolding read_loop read_element scatter of_plaintext
  read_loop-values stored cp t count [] hd before [] i m w b e e1 e2 l = refl
  read_loop-values stored cp t count [] hd before (x ∷ p) i m w b e e1 e2 l =
      absurd (omega (arith, l))
  read_loop-values stored cp t count (v ∷ vs) hd before [] i m w b e e1 e2 l =
      absurd (omega (arith, l))
  read_loop-values stored cp t count (v ∷ vs) hd before (x ∷ p) i m w b e e1 e2 l =
      let h = value_of cp v in
      let there : get_elem? t.m_data i ≡ some h =
        ap (λ l. get_elem? l i) e ∙ get_elem?-middle hd h (map (value_of cp) vs) e1 in
      let ih =
        read_loop-values stored cp t count vs (hd ++ (h ∷ [])) (before ++ (stored v ∷ [])) p (i + 1)
          m w b (e ∙ sym (append_one hd h (map (value_of cp) vs)))
          (omega (arith, e1, length-append hd (h ∷ [])))
          (omega (arith, e2, length-append before (stored v ∷ []))) (omega (arith, l)) in
      let moved : read_loop B ng t count (i + 1) (length vs) (before ++ (stored v ∷ p)) m
          ≡ ok (before ++ (stored v ∷ map stored vs), m) =
        rw
          (sym (append_one before (stored v) p), sym (append_one before (stored v) (map stored vs)))
          ih in
      let inside : i < length (before ++ (x ∷ p)) =
        omega (arith, e2, length-append before (x ∷ p)) in
      let at : i + 0 * count ≡ i = omega arith in
      let written : scatter B ng t.element_type (resize 1 zero_d (value_of cp v).plain) count i 0
            (before ++ (x ∷ p)) m
          ≡ ok (before ++ (stored v ∷ p), m) =
        simp (
          w v,
          at,
          lt→ltb i (length (before ++ (x ∷ p))) inside,
          set-middle before x (stored v) p e2,
        ) in
      simp (there, ◌>>=M◌, read_element, of_plaintext, b, written, moved)

  -- A tensor of `n` plaintexts of one value, that is not packed, is read as what its element type
  -- stores of the values, into memory for `n` of them.
  pub read-values :
      (stored : D → D) (cp : Bool) (t : Tensor D) (vs memory : List D) (m : Mem D Ct)
      → ((v : D) → write_value B ng t.element_type v ≡ ok (stored v))
      → get_batch_size t ≡ 1
      → 0 < ng.type_size t.element_type
      → length vs ≤ ng.shape_size t.shape
      → t.m_data ≡ map (value_of cp) vs
      → length memory ≡ length vs
      → read B ng t memory (length vs * ng.type_size t.element_type) m ≡ ok (map stored vs, m)
  unfolding read
  read-values stored cp t vs memory m w b sized fits e l =
      let size = ng.type_size t.element_type in
      let bounds = check_io_bounds-single ng t (length vs) b sized fits in
      let nonzero : (size == 0) ≡ false = ne→== size 0 (λ z. omega arith) in
      let by_one : size * 1 ≡ size = omega arith in
      let count : length vs * size / size ≡ length vs = mul-div_cancel (length vs) sized in
      let loop = read_loop-values stored cp t (length vs) vs [] [] memory 0 m w b e refl refl l in
      simp (◌>>=M◌, bounds, b, by_one, nonzero, count, loop)
