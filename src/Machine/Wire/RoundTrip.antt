-- ===== src/Machine/Wire/RoundTrip.antt =====
-- What `save` sends is what `load` receives.
use he_transformer_research.Base.{ℕ, ◌+◌, ◌≡◌, refl, Bool, List, [], ◌∷◌, map, All, ok}
use he_transformer_research.Backend.{Backend}
use he_transformer_research.Machine.{Mem, of_plaintext, of_ciphertext, update, ◌>>=◌}
use he_transformer_research.Machine.Wire.{save, load}

module _ (B : Backend) where
  open B use {D, Ct, Bytes, to_float, load_ct, save_ct, empty}

  floats : (xs : List D) → All (λ x. to_float x ≡ x) xs → map to_float xs ≡ xs
  floats [] h = refl
  floats (x ∷ xs) h = rw (h.0, floats xs h.1)

  -- A plaintext element whose values are floats comes back as it was, and the store is not changed;
  -- a ciphertext element, where SEAL loads what it saved, comes back as a new cell that holds the
  -- same ciphertext, with the packing and the batch size of the element.
  pub save-load_roundtrip :
      (m : Mem D Ct) (values : List D) (flag : Bool) (p batch : ℕ) (b : Bytes)
      → All (λ x. to_float x ≡ x) values
      → save_ct (m.cell p) ≡ ok b
      → load_ct b ≡ ok (m.cell p)
      → ((save B (of_plaintext values flag) >>= load B) m ≡ ok (of_plaintext values flag, m))
        × ((save B (of_ciphertext p flag batch) >>= load B) m
            ≡ ok (
              of_ciphertext m.next flag batch,
              record m {
                cell = update (update m.cell m.next empty) m.next (m.cell p);
                next = m.next + 1;
              },
            ))
  unfolding save load of_plaintext of_ciphertext
  save-load_roundtrip m values flag p batch b h saved loaded =
      (simp (floats values h, ◌>>=◌), simp (saved, loaded, ◌>>=◌))
