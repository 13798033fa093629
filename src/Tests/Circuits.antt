-- ===== src/Tests/Circuits.antt =====
-- The theorems on the circuits at concrete inputs: gates that are kept as they are put, of 8 bits.
use he_transformer_research.Base.{
  ℕ, ◌≡◌, refl, Option, List, [], ◌∷◌, get_elem?, replicate, zip_with, ok, arith,
}
use he_transformer_research.AbyUtil.{split_vector}
use he_transformer_research.Aby.{BooleanCircuit, Role, server, client, relu_aby}
use he_transformer_research.Aby.Evaluation.{Evaluation, add_word, sub_word, gt_bit, select}
use he_transformer_research.Aby.Relu.{IsShared, masked_relu, relu_aby-masked}
use he_transformer_research.Aby.Parties.{server_parties, client_parties}
use he_transformer_research.Aby.Parties.Whole.{clear_of, parties-masked}

data Gate : Type 0 where
  in_gate : List ℕ → Role → Gate
  constant_gate : ℕ → ℕ → Gate
  add_gate sub_gate gt_gate : Gate → Gate → Gate
  mux_gate : Gate → Gate → Gate → Gate
  out_gate : Gate → Gate

abbrev gates : BooleanCircuit
gates = record {
  Share = Gate;
  put_simd_in_gate = λ n vs bitlen role. in_gate vs role;
  put_simd_cons_gate = λ n v bitlen. constant_gate n v;
  put_add_gate = add_gate;
  put_sub_gate = sub_gate;
  put_gt_gate = gt_gate;
  put_mux_gate = mux_gate;
  put_out_gate = λ g role. out_gate g;
}

-- The values of the gates that the two parties put.
abbrev gate_values : Gate → Gate → List ℕ
gate_values (in_gate own server) (in_gate other role) = own
gate_values (in_gate other client) (in_gate own role) = own
gate_values (constant_gate n v) (constant_gate m u) = replicate n v
gate_values (add_gate a b) (add_gate a' b') =
    zip_with (add_word 8) (gate_values a a') (gate_values b b')
gate_values (sub_gate a b) (sub_gate a' b') =
    zip_with (sub_word 8) (gate_values a a') (gate_values b b')
gate_values (gt_gate a b) (gt_gate a' b') = zip_with gt_bit (gate_values a a') (gate_values b b')
gate_values (mux_gate a b s) (mux_gate a' b' s') =
    zip_with select (gate_values s s')
      (zip_with (λ x y. (x, y)) (gate_values a a') (gate_values b b'))
gate_values (out_gate a) (out_gate a') = gate_values a a'
gate_values g h = []

abbrev gates_run : Evaluation gates 8
gates_run = record {
  values = gate_values;
  in_of_server = λ n own other e fits. refl;
  in_of_client = λ n other own e fits. refl;
  constants = λ n v fits. refl;
  add = λ a b a' b'. refl;
  sub = λ a b a' b'. refl;
  gt = λ a b a' b'. refl;
  mux = λ a b s a' b' s'. refl;
  out = λ a a'. refl;
}

abbrev server_shares : List ℕ
server_shares = 5 ∷ 16 ∷ 10 ∷ []

abbrev client_shares : List ℕ
client_shares = 15 ∷ 3 ∷ 17 ∷ []

abbrev masks : List ℕ
masks = 2 ∷ 16 ∷ 4 ∷ []

in_shares : IsShared 17 server_shares client_shares masks
in_shares = (
  omega arith,
  omega arith,
  omega arith,
  (omega arith, omega arith, omega arith, (omega arith, omega arith, omega arith, tt)),
)

relu_aby-masked_example :
    (s c : Gate) × (relu_aby gates 3 server_shares (replicate 3 0) masks 8 17 ≡ ok s)
    × (relu_aby gates 3 (replicate 3 0) client_shares (replicate 3 0) 8 17 ≡ ok c)
    × (gate_values s c ≡ 5 ∷ 1 ∷ 4 ∷ [])
unfolding masked_relu
relu_aby-masked_example =
    relu_aby-masked gates 8 gates_run 17 server_shares client_shares masks in_shares (omega arith)
      (omega arith)

parties-masked_example :
    (ranges : List (ℕ × ℕ)) × (shares : List (Option Gate)) × (split_vector 3 2 ≡ ok ranges)
    × (server_parties gates 8 17 server_shares masks ranges ≡ ok shares)
    × (client_parties gates 8 17
          (λ party c. clear_of gates 8 gates_run (get_elem? shares party) c)
          client_shares
          0
          ranges
          (replicate 3 0)
        ≡ ok (5 ∷ 1 ∷ 4 ∷ []))
unfolding masked_relu
parties-masked_example =
    parties-masked gates 8 gates_run 17 2 server_shares client_shares masks in_shares (omega arith)
      (omega arith) (omega arith)
