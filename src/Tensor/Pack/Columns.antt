-- ===== src/Tensor/Pack/Columns.antt =====
-- The columns of a packed tensor: what the loops of `pack` and `unpack` do row by row.
use native.Mathlib.Nat.{suc-mul, mod-eq_of_lt, add-mul-mod_self_right}
use he_transformer_research.Base.{
  ℕ, zero, suc, ◌+◌, ◌*◌, ◌%◌, ◌<◌, ◌≡◌, refl, sym, ap, ◌∙◌, Bool, false, some, List, [], ◌∷◌, ◌++◌,
  length, get_elem?, replicate, All, ok, ne→==, length-append, append_one, get_elem?-middle,
  set-middle, arith, ◌==◌,
}
use he_transformer_research.Machine.{HeType, of_plaintext}
use he_transformer_research.Tensor.Pack.{pack_loop, of_columns, unpack_row, unpack_loop}

pub Height-blank :
    (D : Type 0) (n : ℕ) → All (λ (c : List D × Bool). length (c.0) ≡ 0) (replicate n ([], false))
Height-blank D zero = tt
Height-blank D (suc n) = (refl, Height-blank D n)

module _ {D : Type 0} where
  -- The elements of an unpacked tensor, one value each.
  abbrev pub singles : List D → List (HeType D)
  singles [] = []
  singles (v ∷ vs) = of_plaintext (v ∷ []) false ∷ singles vs

  -- A row of values is put at the ends of the columns.
  abbrev push_row : List (List D × Bool) → List D → List (List D × Bool)
  push_row [] vs = []
  push_row (c ∷ cs) [] = c ∷ cs
  push_row (c ∷ cs) (v ∷ vs) = (c.0 ++ (v ∷ []), false) ∷ push_row cs vs

  abbrev idx_of : List (List D × Bool) → ℕ → ℕ → ℕ
  idx_of done r n = length done + r * n

  -- What `pack` does with the rest of a row, at the column after `done`.
  pack_loop-row :
      (r n : ℕ) (row : List D) (more : List (HeType D)) (done cols : List (List D × Bool)) {idx : ℕ}
      → length done + length cols ≡ n
      → length row ≡ length cols
      → idx ≡ length done + r * n
      → pack_loop idx (singles row ++ more) (done ++ cols)
        ≡ pack_loop (r * n + n) more (done ++ push_row cols row)
  unfolding pack_loop of_plaintext
  pack_loop-row r n [] more done [] size same e =
      let i : idx_of done r n ≡ r * n + n = omega arith in
      ap (λ k. pack_loop k more (done ++ [])) (e ∙ i)
  pack_loop-row r n [] more done (c ∷ cols) size same e = absurd (omega arith)
  pack_loop-row r n (v ∷ row) more done [] size same e = absurd (omega arith)
  pack_loop-row r n (v ∷ row) more done (c ∷ cols) {idx} size same e =
      let l : length (done ++ (c ∷ cols)) ≡ n = omega (arith, length-append done (c ∷ cols)) in
      let below : length done < n = omega arith in
      let at : idx % n ≡ length done =
        ap (λ k. k % n) e ∙ add-mul-mod_self_right (length done) r n ∙ mod-eq_of_lt below in
      let nonzero : (n == 0) ≡ false = ne→== n 0 (λ z. omega arith) in
      let now : List D × Bool = (c.0 ++ (v ∷ []), false) in
      let longer = length-append done (now ∷ []) in
      simp
        (
          l,
          nonzero,
          get_elem?-middle done c cols at,
          set-middle done c now cols at,
          sym (append_one done now cols),
        )
        (pack_loop-row r n row more (done ++ (now ∷ [])) cols (omega arith) (omega arith)
            (omega arith)
          ∙ ap (pack_loop (r * n + n) more) (append_one done now (push_row cols row)))

  abbrev pub concat : List (List D) → List D
  concat [] = []
  concat (row ∷ rows) = row ++ concat rows

  abbrev pub push_rows : List (List D × Bool) → List (List D) → List (List D × Bool)
  push_rows cols [] = cols
  push_rows cols (row ∷ rows) = push_rows (push_row cols row) rows

  singles-append : (vs ws : List D) → singles (vs ++ ws) ≡ singles vs ++ singles ws
  singles-append [] ws = refl
  singles-append (v ∷ vs) ws = ap (λ l. of_plaintext (v ∷ []) false ∷ l) (singles-append vs ws)

  length-push_row :
      (cols : List (List D × Bool)) (row : List D) → length (push_row cols row) ≡ length cols
  length-push_row [] row = refl
  length-push_row (c ∷ cols) [] = refl
  length-push_row (c ∷ cols) (v ∷ row) = ap suc (length-push_row cols row)

  pub length-push_rows :
      (cols : List (List D × Bool)) (rows : List (List D))
      → length (push_rows cols rows) ≡ length cols
  length-push_rows cols [] = refl
  length-push_rows cols (row ∷ rows) =
      length-push_rows (push_row cols row) rows ∙ length-push_row cols row

  pub length-of_columns : (cols : List (List D × Bool)) → length (of_columns cols) ≡ length cols
  length-of_columns [] = refl
  length-of_columns (c ∷ cols) = ap suc (length-of_columns cols)

  pub pack_loop-rows :
      (r n : ℕ) (rows : List (List D)) (cols : List (List D × Bool))
      → length cols ≡ n
      → All (λ row. length row ≡ n) rows
      → pack_loop (r * n) (singles (concat rows)) cols ≡ ok (push_rows cols rows)
  unfolding pack_loop
  pack_loop-rows r n [] cols size same = refl
  pack_loop-rows r n (row ∷ rows) cols size same =
      let next : r * n + n ≡ suc r * n = sym (suc-mul r n) in
      ap (λ l. pack_loop (r * n) l cols) (singles-append row (concat rows))
      ∙ pack_loop-row r n row (singles (concat rows)) [] cols (omega arith) (omega (arith, same.0))
          (omega arith)
      ∙ ap (λ k. pack_loop k (singles (concat rows)) (push_row cols row)) next
      ∙ pack_loop-rows (suc r) n rows (push_row cols row) (length-push_row cols row ∙ size) (same.1)

  -- At the index `i` the columns hold the row.
  abbrev Reads : ℕ → List (List D × Bool) → List D → Type 0
  Reads i [] [] = Unit
  Reads i [] (v ∷ row) = ⊥
  Reads i (c ∷ cols) [] = ⊥
  Reads i (c ∷ cols) (v ∷ row) = (get_elem? (c.0) i ≡ some v) × Reads i cols row

  get_elem?-left :
      (xs ys : List D) (i : ℕ) {v : D} → get_elem? xs i ≡ some v → get_elem? (xs ++ ys) i ≡ some v
  get_elem?-left [] ys i h = cc
  get_elem?-left (x ∷ xs) ys zero h = h
  get_elem?-left (x ∷ xs) ys (suc i) h = get_elem?-left xs ys i h

  Reads-push_row :
      (i : ℕ) (cols : List (List D × Bool)) (row new : List D)
      → Reads i cols row
      → Reads i (push_row cols new) row
  Reads-push_row i [] [] new h = tt
  Reads-push_row i [] (v ∷ row) new h = absurd h
  Reads-push_row i (c ∷ cols) [] new h = absurd h
  Reads-push_row i (c ∷ cols) (v ∷ row) [] h = h
  Reads-push_row i (c ∷ cols) (v ∷ row) (w ∷ new) h =
      (get_elem?-left (c.0) (w ∷ []) i (h.0), Reads-push_row i cols row new (h.1))

  Reads-push_rows :
      (i : ℕ) (cols : List (List D × Bool)) (row : List D) (rows : List (List D))
      → Reads i cols row
      → Reads i (push_rows cols rows) row
  Reads-push_rows i cols row [] h = h
  Reads-push_rows i cols row (new ∷ rows) h =
      Reads-push_rows i (push_row cols new) row rows (Reads-push_row i cols row new h)

  abbrev Height : ℕ → List (List D × Bool) → Type 0
  Height i cols = All (λ c. length (c.0) ≡ i) cols

  Reads-new :
      (i : ℕ) (cols : List (List D × Bool)) (row : List D)
      → length row ≡ length cols
      → Height i cols
      → Reads i (push_row cols row) row
  Reads-new i [] [] same h = tt
  Reads-new i [] (v ∷ row) same h = absurd (omega arith)
  Reads-new i (c ∷ cols) [] same h = absurd (omega arith)
  Reads-new i (c ∷ cols) (v ∷ row) same h =
      (get_elem?-middle (c.0) v [] (sym (h.0)), Reads-new i cols row (omega arith) (h.1))

  Height-push_row :
      (i : ℕ) (cols : List (List D × Bool)) (row : List D)
      → length row ≡ length cols
      → Height i cols
      → Height (i + 1) (push_row cols row)
  Height-push_row i [] row same h = tt
  Height-push_row i (c ∷ cols) [] same h = absurd (omega arith)
  Height-push_row i (c ∷ cols) (v ∷ row) same h = (
    omega (arith, length-append (c.0) (v ∷ []), h.0),
    Height-push_row i cols row (omega arith) (h.1),
  )

  unpack_row-Reads :
      (i : ℕ) (cols : List (List D × Bool)) (row : List D)
      → Reads i cols row
      → unpack_row i (of_columns cols) ≡ ok (singles row)
  unfolding unpack_row of_plaintext
  unpack_row-Reads i [] [] h = refl
  unpack_row-Reads i [] (v ∷ row) h = absurd h
  unpack_row-Reads i (c ∷ cols) [] h = absurd h
  unpack_row-Reads i (c ∷ cols) (v ∷ row) h = rw (h.0, unpack_row-Reads i cols row (h.1))

  pub unpack_loop-rows :
      (i n : ℕ) (rows : List (List D)) (cols : List (List D × Bool))
      → length cols ≡ n
      → All (λ row. length row ≡ n) rows
      → Height i cols
      → unpack_loop i (length rows) (of_columns (push_rows cols rows)) ≡ ok (singles (concat rows))
  unfolding unpack_loop
  unpack_loop-rows i n [] cols size same h = refl
  unpack_loop-rows i n (row ∷ rows) cols size same h =
      let wide : length row ≡ length cols = same.0 ∙ sym size in
      let now =
        unpack_row-Reads i _ row
          (Reads-push_rows i (push_row cols row) row rows (Reads-new i cols row wide h)) in
      let later =
        unpack_loop-rows (i + 1) n rows (push_row cols row) (length-push_row cols row ∙ size)
          (same.1) (Height-push_row i cols row wide h) in
      rw (now, later) (ap ok (sym (singles-append row (concat rows))))
