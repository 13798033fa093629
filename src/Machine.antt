-- ===== src/Machine.antt =====
-- `HEType` of src/he_type.hpp and src/he_type.cpp on an explicit store: an `HEType` object has an
-- address, and a `std::shared_ptr<SealCiphertextWrapper>` is the address of a cell for a
-- ciphertext, so that two objects can share one, and two arguments of a kernel can be one object.
pub mod Wire
pub mod Objects
use he_transformer_research.Base.{
  ℕ, ◌+◌, ◌≡◌, refl, Bool, true, false, not, Option, none, some, List, [], length, ◌==◌,
  if◌then◌else◌, Result, ok, err, Error, undefined, replicate, ltb,
}
use he_transformer_research.Backend.{Backend}

-- `m_cipher` is `none` for a null pointer.
pub record HeType (D : Type 0) : Type 0 where
  pub is_plain : Bool
  pub complex_packing : Bool
  pub batch_size : ℕ
  pub plain : List D
  pub cipher : Option ℕ

-- `next` is the address of the next cell that `create_empty_ciphertext` makes.
pub record Mem (D Ct : Type 0) : Type 0 where
  pub object : ℕ → HeType D
  pub cell : ℕ → Ct
  pub next : ℕ

abbrev pub update {ℓ} : {A : Type ℓ} → (ℕ → A) → ℕ → A → ℕ → A
update f k v j = if j == k then v else f j

module _ {D : Type 0} where
  -- `HEType(const HEPlaintext& plain, bool complex_packing)`
  unfoldable pub of_plaintext : List D → Bool → HeType D
  of_plaintext plain complex_packing = record {
    is_plain = true;
    complex_packing = complex_packing;
    batch_size = length plain;
    plain = plain;
    cipher = none;
  }

  -- `HEType(cipher, complex_packing, batch_size)`
  unfoldable pub of_ciphertext : ℕ → Bool → ℕ → HeType D
  of_ciphertext cipher complex_packing batch_size = record {
    is_plain = false;
    complex_packing = complex_packing;
    batch_size = batch_size;
    plain = [];
    cipher = some cipher;
  }

  unfoldable pub is_ciphertext : HeType D → Bool
  is_ciphertext h = not h.is_plain

  unfoldable pub plaintext_packing : HeType D → Bool
  plaintext_packing h = ltb 1 h.batch_size

module _ (B : Backend) where
  open B use {D, Ct}

  -- A call that reads and changes the store, and may throw. Nothing here catches an exception.
  abbrev pub M : Type 0 → Type 0
  M A = Mem D Ct → Result (A × Mem D Ct)

  abbrev pub lift : {A : Type 0} → Result A → M A
  lift (ok a) m = ok (a, m)
  lift (err e) m = err e

  abbrev pub object_at : ℕ → M (HeType D)
  object_at a m = ok (m.object a, m)

  abbrev pub put_object : ℕ → HeType D → M (Unit {0})
  put_object a h m = ok (tt, record m { object = update m.object a h })

  abbrev pub cell_at : ℕ → M Ct
  cell_at p m = ok (m.cell p, m)

  abbrev pub put_cell : ℕ → Ct → M (Unit {0})
  put_cell p c m = ok (tt, record m { cell = update m.cell p c })

  -- `HESealBackend::create_empty_ciphertext()`, or `std::make_shared` of a copy of `c`
  abbrev pub new_cell : Ct → M ℕ
  new_cell c m = ok (m.next, record m { cell = update m.cell m.next c; next = m.next + 1 })

  -- `*h.get_ciphertext()`: a null pointer is undefined.
  abbrev pub pointer : HeType D → M ℕ
  pointer h m = elim h.cipher [ none ↦ err undefined | some p ↦ ok (p, m) ]

infixl 5 ◌>>=◌ ◌>>◌
abbrev pub ◌>>=◌ :
    {S A B : Type 0} → (S → Result (A × S)) → (A → S → Result (B × S)) → S → Result (B × S)
◌>>=◌ m f s = elim (m s) [ ok (a, s') ↦ f a s' | err e ↦ err e ]

-- A step that returns hands its value and its store to what follows.
pub run-bind :
    {S A B : Type 0} (m : S → Result (A × S)) (f : A → S → Result (B × S)) (s : S) {a : A} {s' : S}
    → m s ≡ ok (a, s')
    → (m >>= f) s ≡ f a s'
run-bind m f s e = rw (e, ◌>>=◌)

abbrev pub ◌>>◌ :
    {S A B : Type 0} → (S → Result (A × S)) → (S → Result (B × S)) → S → Result (B × S)
m >> k = m >>= λ _. k

module _ (B : Backend) where
  open B use {D, Ct, empty}

  -- `HEType::set_ciphertext`: the batch size stays.
  unfoldable pub set_ciphertext : ℕ → ℕ → M B (Unit {0})
  set_ciphertext a p = do
    h ← object_at B a
    put_object B a (record h { cipher = some p; is_plain = false; plain = [] })

  -- `HEType::set_plaintext`: the ciphertext, if there is one, is released, for all who share it.
  pub set_plaintext : ℕ → List D → M B (Unit {0})
  set_plaintext a plain = do
    h ← object_at B a
    elim h.cipher [ none ↦ lift B (ok tt) | some p ↦ put_cell B p empty ]
    put_object B a (record h { plain = plain; is_plain = true; batch_size = length plain })

  -- `out.get_plaintext() = vals`: the values alone change.
  unfoldable pub assign_plaintext : ℕ → List D → M B (Unit {0})
  assign_plaintext a vals = do h ← object_at B a; put_object B a (record h { plain = vals })
