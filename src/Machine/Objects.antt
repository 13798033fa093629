-- ===== src/Machine/Objects.antt =====
-- The elements of a `std::vector<HEType>` as objects at addresses of their own, for a kernel that works
-- on addresses.
use he_transformer_research.Base.{ℕ, ◌+◌, List, [], ◌∷◌, ok}
use he_transformer_research.Backend.{Backend}
use he_transformer_research.Machine.{HeType, M, lift, object_at, put_object, ◌>>=◌, ◌>>◌}

module _ (B : Backend) where
  open B use {D}

  -- The elements at the addresses from `a` on, and back.
  unfoldable pub place : ℕ → List (HeType D) → M B (List ℕ)
  place a [] = lift B (ok [])
  place a (h ∷ hs) = do put_object B a h; rest ← place (a + 1) hs; lift B (ok (a ∷ rest))

  unfoldable pub collect : List ℕ → M B (List (HeType D))
  collect [] = lift B (ok [])
  collect (a ∷ rest_of) = do h ← object_at B a; rest ← collect rest_of; lift B (ok (h ∷ rest))
