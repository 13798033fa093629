-- ===== src/Server/Relu.antt =====
-- The rectifiers that the client computes for the server: `handle_server_relu_op` and
-- `handle_relu_result` of src/seal/he_seal_executable.cpp, but for the messages, which
-- Server/Operations.antt has.
pub mod Batches
pub mod Pointwise
use he_transformer_research.Base.{
  ℕ, zero, suc, ◌+◌, Bool, true, false, Option, none, some, List, [], ◌∷◌, ◌++◌, length, get_elem?,
  set, resize, ltb, ◌==◌, if◌then◌else◌, Result, ok, err, check_failed, undefined, ◌>>=◌, ◌>>◌,
  require, deref,
}
use he_transformer_research.Backend.{Backend}
use he_transformer_research.Machine.{HeType, M, lift, put_cell, of_plaintext, is_ciphertext}
use he_transformer_research.Machine.{◌>>=◌ as ◌>>=M◌}
use he_transformer_research.Server.{ReluState}

module _ {D : Type 0} where
  -- `m_relu_data[m_unknown_relu_idx[result_idx + m_relu_done_count]] = he_tensor->data(result_idx)`
  -- for the results from `result_idx` on.
  pub store_loop : List ℕ → ℕ → List (HeType D) → List (HeType D) → Result (List (HeType D))
  store_loop unknown at [] out = ok out
  store_loop unknown at (h ∷ hs) out = do
    idx ← deref (get_elem? unknown at)
    require (ltb idx (length out)) undefined
    store_loop unknown (at + 1) hs (set out idx h)

  pub store_results : ReluState D → List (HeType D) → Result (ReluState D)
  unfolding store_loop
  store_results r results = do
    out ← store_loop r.unknown_relu_idx r.relu_done_count results r.relu_data
    ok (record r { relu_data = out; relu_done_count = r.relu_done_count + length results })

  -- The wait: the output, once all the results are there, with the count reset.
  pub finish_relu : ReluState D → Option (List (HeType D) × ReluState D)
  finish_relu r =
      if r.relu_done_count == length r.unknown_relu_idx
      then some (r.relu_data, record r { relu_done_count = 0 })
      else none

  -- The batches of at most `max_count` elements, with those gathered so far.
  pub batch_loop : ℕ → List (HeType D) → List (HeType D) → List (List (HeType D))
  batch_loop max_count batch [] = elim batch [ [] ↦ [] | h ∷ hs ↦ (h ∷ hs) ∷ [] ]
  batch_loop max_count batch (h ∷ hs) =
      let full = batch ++ (h ∷ []) in
      let rest = batch_loop max_count [] hs in
      let more = batch_loop max_count full hs in
      if length full == max_count then full ∷ rest else more

  -- `arg->data(unknown_relu_idx)`, which is a ciphertext.
  pub unknown_elements : List (HeType D) → List ℕ → Result (List (HeType D))
  unknown_elements args [] = ok []
  unknown_elements args (idx ∷ indices) = do
    h ← deref (get_elem? args idx)
    require (is_ciphertext h) check_failed
    rest ← unknown_elements args indices
    ok (h ∷ rest)

module _ (B : Backend) where
  open B use {D, empty}

  -- `m_relu_data[relu_idx].set_plaintext(HEPlaintext())`, and the values, which leave the batch size
  -- at 0.
  pub set_known : (List D → List D) → HeType D → HeType D → M B (HeType D)
  set_known f h old m =
      let known = record old { is_plain = true; plain = f h.plain; batch_size = 0 } in
      elim old.cipher [
        | none ↦ ok (known, m)
        | some p ↦ elim (put_cell B p empty m) [ err e ↦ err e | ok (done, m') ↦ ok (known, m') ]
      ]

  -- The elements from `relu_idx` on: those that are plaintexts are done, the others noted.
  pub known_loop :
      (List D → List D)
      → ℕ
      → List (HeType D)
      → List (HeType D)
      → List ℕ
      → M B (List (HeType D) × List ℕ)
  unfolding set_known
  known_loop f relu_idx [] out unknown = lift B (ok (out, unknown))
  known_loop f relu_idx (h ∷ hs) out unknown =
      let plaintext = lift B (deref (get_elem? out relu_idx)) >>=M λ old.
      set_known f h old >>=M λ known.
      known_loop f (relu_idx + 1) hs (set out relu_idx known) unknown in
      let ciphertext = known_loop f (relu_idx + 1) hs out (unknown ++ (relu_idx ∷ [])) in
      if h.is_plain then plaintext else ciphertext

  -- The state when the requests are about to be sent; the count is what it was.
  pub start_relu : (List D → List D) → List (HeType D) → ReluState D → M B (ReluState D)
  unfolding known_loop
  start_relu f args r =
      let out = resize (length args) (of_plaintext [] false) r.relu_data in
      known_loop f 0 args out [] >>=M λ known.
      lift B (ok (record r { relu_data = known.0; unknown_relu_idx = known.1 }))
