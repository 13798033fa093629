-- ===== src/Server/Relu/Pointwise.antt =====
-- A rectifier that the server and the client compute together is the rectifier of each element, whatever
-- earlier ones have left.
use he_transformer_research.Base.{
  ℕ, Bool, ◌||◌, ◌+◌, ◌<◌, ◌≡◌, refl, sym, ap, ◌∙◌, true, false, Option, none, some, List, [], ◌∷◌,
  ◌++◌, map, length, get_elem?, set, resize, length-resize, zip_with, elem, ltb, ◌==◌, lt→ltb,
  ==_refl, if◌then◌else◌, Bool-cases, Option-cases, Result-cases, inl, inr, length-append,
  append_nil, append_one, get_elem?-middle, set-middle, Result, ok, ◌>>=◌, arith,
}
use he_transformer_research.Backend.{Backend}
use he_transformer_research.Machine.{HeType, Mem, of_plaintext, update}
use he_transformer_research.Machine.{◌>>=◌ as ◌>>=M◌}
use he_transformer_research.Server.{ReluState}
use he_transformer_research.Server.Relu.{
  store_loop, store_results, finish_relu, set_known, known_loop, start_relu,
}

length-snoc :
    {A : Type 0} (xs : List A) (x : A) {i : ℕ} → i ≡ length xs → i + 1 ≡ length (xs ++ (x ∷ []))
length-snoc xs x e = omega (arith, e, length-append xs (x ∷ []))

module _ {D : Type 0} where
  -- What the server makes of a plaintext, in the place of an element of an earlier operation: the
  -- values alone are those of this one, and the batch size is 0.
  abbrev pub known : (List D → List D) → HeType D → HeType D → HeType D
  known f old h = record old { is_plain = true; plain = f h.plain; batch_size = 0 }

  -- The elements that the client is asked for.
  unfoldable pub ciphertexts : List (HeType D) → List (HeType D)
  ciphertexts [] = []
  ciphertexts (h ∷ hs) = if h.is_plain then ciphertexts hs else h ∷ ciphertexts hs

  unfoldable pub ciphertext_indices : ℕ → List (HeType D) → List ℕ
  ciphertext_indices i [] = []
  ciphertext_indices i (h ∷ hs) =
      if h.is_plain then ciphertext_indices (i + 1) hs else i ∷ ciphertext_indices (i + 1) hs

  abbrev before : (List D → List D) → HeType D → HeType D → HeType D
  before f old h = if h.is_plain then known f old h else old

  -- The element of the output for an element: a plaintext is rectified by the server, a ciphertext is
  -- what the client makes of it.
  abbrev pub rectified : (List D → List D) → (HeType D → HeType D) → HeType D → HeType D → HeType D
  rectified f g old h = if h.is_plain then known f old h else g h

  abbrev cell_of : HeType D → List ℕ
  cell_of o = elim o.cipher [ none ↦ [] | some p ↦ p ∷ [] ]

  -- The cells of earlier ciphertexts in the places of plaintexts.
  abbrev pub released : List (HeType D) → List (HeType D) → List ℕ
  released [] hs = []
  released (o ∷ os) [] = []
  released (o ∷ os) (h ∷ hs) =
      let rest = released os hs in if h.is_plain then cell_of o ++ rest else rest

  store_loop-results :
      (f : List D → List D) (g : HeType D → HeType D) (olds hs pre : List (HeType D)) (u : List ℕ)
      (i at : ℕ)
      → length olds ≡ length hs
      → i ≡ length pre
      → at ≡ length u
      → store_loop
          (u ++ ciphertext_indices i hs)
          at
          (map g (ciphertexts hs))
          (pre ++ zip_with (before f) olds hs)
        ≡ ok (pre ++ zip_with (rectified f g) olds hs)
  unfolding store_loop ciphertext_indices ciphertexts
  store_loop-results f g [] [] pre u i at l e e' = refl
  store_loop-results f g [] (h ∷ hs) pre u i at l e e' = absurd (omega arith)
  store_loop-results f g (o ∷ os) [] pre u i at l e e' = absurd (omega arith)
  store_loop-results f g (o ∷ os) (h ∷ hs) pre u i at l e e' =
      let bs = zip_with (before f) os hs in
      let rs = zip_with (rectified f g) os hs in
      let same : length os ≡ length hs = omega arith in
      elim (Bool-cases h.is_plain) [
        | inl p ↦
            let k = known f o h in
            let ih =
              store_loop-results f g os hs (pre ++ (k ∷ [])) u (i + 1) at same (length-snoc pre k e)
                e' in
            let moved : store_loop (u ++ ciphertext_indices (i + 1) hs) at (map g (ciphertexts hs))
                  (pre ++ (k ∷ bs))
                ≡ ok (pre ++ (k ∷ rs)) =
              rw (sym (append_one pre k bs), sym (append_one pre k rs)) ih in
            simp (p, if◌then◌else◌, moved)
        | inr p ↦
            let next = ciphertext_indices (i + 1) hs in
            let inside : i < length (pre ++ (o ∷ bs)) =
              omega (arith, e, length-append pre (o ∷ bs)) in
            let ih =
              store_loop-results f g os hs (pre ++ (g h ∷ [])) (u ++ (i ∷ [])) (i + 1) (at + 1) same
                (length-snoc pre (g h) e) (length-snoc u i e') in
            let moved : store_loop (u ++ (i ∷ next)) (at + 1) (map g (ciphertexts hs))
                  (pre ++ (g h ∷ bs))
                ≡ ok (pre ++ (g h ∷ rs)) =
              rw
                (
                  sym (append_one pre (g h) bs),
                  sym (append_one pre (g h) rs),
                  sym (append_one u i next),
                )
                ih in
            simp (
              p,
              if◌then◌else◌,
              get_elem?-middle u i next e',
              lt→ltb i _ inside,
              set-middle pre o (g h) bs e,
              moved,
            )
      ]

  -- The results of one message after those of another are the results of both.
  store_loop-append :
      (unknown : List ℕ) (at k : ℕ) (xs ys out : List (HeType D))
      → k ≡ at + length xs
      → store_loop unknown at (xs ++ ys) out
        ≡ (store_loop unknown at xs out >>= λ mid. store_loop unknown k ys mid)
  unfolding store_loop
  store_loop-append unknown at k [] ys out e =
      let same : k ≡ at = omega (arith, e) in rw (same) refl
  store_loop-append unknown at k (x ∷ xs) ys out e = elim (Option-cases (get_elem? unknown at)) [
    | inl none_there ↦ simp (none_there)
    | inr (idx, there) ↦ elim (Bool-cases (ltb idx (length out))) [
      | inl inside ↦
          let ih = store_loop-append unknown (at + 1) k xs ys (set out idx x) (omega (arith, e)) in
          simp (there, inside, ih)
      | inr outside ↦ simp (there, outside)
    ]
  ]

  unfoldable pub concat : List (List (HeType D)) → List (HeType D)
  concat [] = []
  concat (xs ∷ xss) = xs ++ concat xss

  -- The results of several messages, one after the other.
  pub store_all : ReluState D → List (List (HeType D)) → Result (ReluState D)
  store_all r [] = ok r
  store_all r (results ∷ rest) = store_results r results >>= λ r'. store_all r' rest

  stored : ReluState D → ℕ → List (HeType D) → ReluState D
  stored r k out = record r { relu_data = out; relu_done_count = k }

  store_all-concat :
      (rss : List (List (HeType D))) (r : ReluState D) (k : ℕ)
      → k ≡ r.relu_done_count + length (concat rss)
      → store_all r rss ≡ (
          store_loop r.unknown_relu_idx r.relu_done_count (concat rss) r.relu_data >>= λ out.
          ok (stored r k out))
  unfolding store_all store_results concat store_loop stored
  store_all-concat [] r k e = let same : k ≡ r.relu_done_count = omega (arith, e) in rw (same) refl
  store_all-concat (rs ∷ rss) r k e =
      let at = r.relu_done_count in
      let both =
        store_loop-append r.unknown_relu_idx at (at + length rs) rs (concat rss) r.relu_data refl in
      elim (Result-cases (store_loop r.unknown_relu_idx at rs r.relu_data)) [
        | inl (thrown, q) ↦ simp (both, q)
        | inr (mid, q) ↦
            let ih =
              store_all-concat rss (stored r (at + length rs) mid) k
                (omega (arith, e, length-append rs (concat rss))) in
            simp (both, q, ih)
      ]

module _ (B : Backend) where
  open B use {D, Ct, empty}

  -- `release()` of the ciphertexts in the cells.
  abbrev release : List ℕ → Mem D Ct → Mem D Ct
  release [] m = m
  release (p ∷ ps) m = release ps (record m { cell = update m.cell p empty })

  release-objects : (ps : List ℕ) (m : Mem D Ct) → (release ps m).object ≡ m.object
  release-objects [] m = refl
  release-objects (p ∷ ps) m = release-objects ps (record m { cell = update m.cell p empty })

  either_empty :
      (a b : Bool) (c : Ct)
      → (if b then empty else (if a then empty else c)) ≡ (if a || b then empty else c)
  either_empty true true c = refl
  either_empty true false c = refl
  either_empty false true c = refl
  either_empty false false c = refl

  release-cell :
      (ps : List ℕ) (m : Mem D Ct) (q : ℕ)
      → (release ps m).cell q ≡ (if elem q ps then empty else m.cell q)
  release-cell [] m q = refl
  release-cell (p ∷ ps) m q =
      release-cell ps (record m { cell = update m.cell p empty }) q
      ∙ either_empty (q == p) (elem q ps) (m.cell q)

  release-append :
      (ps qs : List ℕ) (m : Mem D Ct) → release (ps ++ qs) m ≡ release qs (release ps m)
  release-append [] qs m = refl
  release-append (p ∷ ps) qs m = release-append ps qs (record m { cell = update m.cell p empty })

  set_known-release :
      (f : List D → List D) (h o : HeType D) (m : Mem D Ct)
      → set_known B f h o m ≡ ok (known f o h, release (cell_of o) m)
  unfolding set_known
  set_known-release f h o m =
      elim o.cipher
        as (λ c.
          (elim c [
            | none ↦ ok (known f o h, m)
            | some p ↦ ok (known f o h, record m { cell = update m.cell p empty })
          ])
          ≡ ok (known f o h, release (elim c [ none ↦ [] | some p ↦ p ∷ [] ]) m)) [
            | none ↦ refl
            | some p ↦ refl
          ]

  known_loop-before :
      (f : List D → List D) (olds hs pre : List (HeType D)) (u : List ℕ) (i : ℕ) (m : Mem D Ct)
      → length olds ≡ length hs
      → i ≡ length pre
      → known_loop B f i hs (pre ++ olds) u m
        ≡ ok (
          (pre ++ zip_with (before f) olds hs, u ++ ciphertext_indices i hs),
          release (released olds hs) m,
        )
  unfolding known_loop ciphertext_indices
  known_loop-before f [] [] pre u i m l e = rw (append_nil u) refl
  known_loop-before f [] (h ∷ hs) pre u i m l e = absurd (omega arith)
  known_loop-before f (o ∷ os) [] pre u i m l e = absurd (omega arith)
  known_loop-before f (o ∷ os) (h ∷ hs) pre u i m l e =
      let rs = zip_with (before f) os hs in
      let same : length os ≡ length hs = omega arith in
      elim (Bool-cases h.is_plain) [
        | inl p ↦
            let k = known f o h in
            let moved : (m' : Mem D Ct)
                → known_loop B f (i + 1) hs (pre ++ (k ∷ os)) u m'
                  ≡ ok (
                    (pre ++ (k ∷ rs), u ++ ciphertext_indices (i + 1) hs),
                    release (released os hs) m',
                  ) =
              λ m'.
                rw (sym (append_one pre k os), sym (append_one pre k rs))
                  (known_loop-before f os hs (pre ++ (k ∷ [])) u (i + 1) m' same
                    (length-snoc pre k e)) in
            simp (
              p,
              if◌then◌else◌,
              ◌>>=M◌,
              get_elem?-middle pre o os e,
              set_known-release f h o m,
              set-middle pre o k os e,
              moved (release (cell_of o) m),
              release-append (cell_of o) (released os hs) m,
            )
        | inr p ↦
            let next = ciphertext_indices (i + 1) hs in
            let ih =
              known_loop-before f os hs (pre ++ (o ∷ [])) (u ++ (i ∷ [])) (i + 1) m same
                (length-snoc pre o e) in
            let moved : known_loop B f (i + 1) hs (pre ++ (o ∷ os)) (u ++ (i ∷ [])) m
                ≡ ok ((pre ++ (o ∷ rs), u ++ (i ∷ next)), release (released os hs) m) =
              rw (sym (append_one pre o os), sym (append_one pre o rs), sym (append_one u i next))
                ih in
            simp (p, if◌then◌else◌, moved)
      ]

  -- `handle_server_relu_op` with the messages that come while it waits, from what the operations before
  -- it have left: the output, or none if it still waits.
  pub run_relu :
      (List D → List D)
      → ReluState D
      → List (HeType D)
      → List (List (HeType D))
      → Mem D Ct
      → Result (Option (List (HeType D) × ReluState D) × Mem D Ct)
  run_relu f r args responses m = start_relu B f args r m >>= λ started.
      store_all (started.0) responses >>= λ r'. ok (finish_relu r', started.1)

  length-ciphertext_indices :
      (g : HeType D → HeType D) (hs : List (HeType D)) (i : ℕ)
      → length (ciphertext_indices i hs) ≡ length (map g (ciphertexts hs))
  unfolding ciphertext_indices ciphertexts
  length-ciphertext_indices g [] i = refl
  length-ciphertext_indices g (h ∷ hs) i =
      let ih = length-ciphertext_indices g hs (i + 1) in
      elim (Bool-cases h.is_plain) [
        | inl p ↦ simp (p, if◌then◌else◌, ih)
        | inr p ↦ simp (p, if◌then◌else◌, ih)
      ]

  -- When the client has answered for all the ciphertexts, in however many messages, with `g` of each,
  -- the server stops waiting, and its output is for each plaintext what the server makes of it, and
  -- for each ciphertext `g` of it, in their places. The elements of the operations before it, of which
  -- none is awaited any more, are there at first, as many as the output has: a plaintext takes over the
  -- packing flag and the pointer of the one in its place, and the ciphertexts that such pointers
  -- point to, and no others, are released.
  pub run_relu-rectified :
      (f : List D → List D) (g : HeType D → HeType D) (r : ReluState D) (args : List (HeType D))
      (responses : List (List (HeType D))) (m : Mem D Ct)
      → r.relu_done_count ≡ 0
      → concat responses ≡ map g (ciphertexts args)
      → let olds = resize (length args) (of_plaintext [] false) r.relu_data in
        let out = zip_with (rectified f g) olds args in
        (m' : Mem D Ct) × (run_relu f r args responses m
          ≡ ok (
            some (
              out,
              record {
                relu_data = out;
                unknown_relu_idx = ciphertext_indices 0 args;
                relu_done_count = 0;
              },
            ),
            m',
          ))
        × (m'.object ≡ m.object)
        × ((q : ℕ) → m'.cell q ≡ (if elem q (released olds args) then empty else m.cell q))
  unfolding run_relu start_relu finish_relu stored
  run_relu-rectified f g r args responses m idle answered =
      let olds = resize (length args) (of_plaintext [] false) r.relu_data in
      let size = length-resize (length args) (of_plaintext [] false) r.relu_data in
      let started = known_loop-before f olds args [] [] 0 m size refl in
      let n = length (concat responses) in
      let r' : ReluState D = record {
        relu_data = zip_with (before f) olds args;
        unknown_relu_idx = ciphertext_indices 0 args;
        relu_done_count = r.relu_done_count;
      } in
      let all = store_all-concat responses r' n (omega (arith, idle)) in
      let places = store_loop-results f g olds args [] [] 0 r.relu_done_count size refl idle in
      let count : (length (map g (ciphertexts args)) == length (ciphertext_indices 0 args)) ≡ true =
        ap (λ k. k == length (ciphertext_indices 0 args)) (sym (length-ciphertext_indices g args 0))
        ∙ ==_refl (length (ciphertext_indices 0 args)) in
      (
        release (released olds args) m,
        simp (◌>>=M◌, started, all, answered, places, finish_relu, count, if◌then◌else◌),
        release-objects (released olds args) m,
        release-cell (released olds args) m,
      )
