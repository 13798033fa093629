-- ===== src/Aby.antt =====
-- The circuit of a rectifier on values that two parties share: src/aby/kernel/relu_aby.hpp and the
-- checks of src/aby/aby_util.hpp. The gates of ABY are a parameter.
pub mod Evaluation
pub mod Relu
pub mod Parties
pub mod Executor
pub mod Numbers
pub mod Server
pub mod Client
use he_transformer_research.Base.{
  ℕ, ◌/◌, List, [], ◌∷◌, length, leb, ◌==◌, Result, ok, check_failed, require, ◌>>=◌, ◌>>◌,
}

-- `SERVER` and `CLIENT`
pub data Role : Type 0 where
  server client : Role

-- What the code calls of ABY's `BooleanCircuit` and `share`: PutSIMDINGate, PutSIMDCONSGate, PutADDGate,
-- PutSUBGate, PutGTGate, PutMUXGate and PutOUTGate.
pub record BooleanCircuit : Type 1 where
  pub Share : Type 0
  pub put_simd_in_gate : ℕ → List ℕ → ℕ → Role → Share
  pub put_simd_cons_gate : ℕ → ℕ → ℕ → Share
  pub put_add_gate : Share → Share → Share
  pub put_sub_gate : Share → Share → Share
  pub put_gt_gate : Share → Share → Share
  pub put_mux_gate : Share → Share → Share → Share
  pub put_out_gate : Share → Role → Share

unfoldable pub check_argument_range : List ℕ → ℕ → ℕ → Result (Unit {0})
check_argument_range [] min_val max_val = ok tt
check_argument_range (v ∷ values) min_val max_val = do
  require (leb min_val v) check_failed
  require (leb v max_val) check_failed
  check_argument_range values min_val max_val

module _ (circ : BooleanCircuit) where
  open circ use {
    Share, put_simd_in_gate, put_simd_cons_gate, put_add_gate, put_sub_gate, put_gt_gate,
    put_mux_gate, put_out_gate,
  }

  unfoldable pub reduce_mod : Share → Share → Share
  reduce_mod x modulus =
      let sel_share = put_gt_gate modulus x in put_mux_gate x (put_sub_gate x modulus) sel_share

  -- The gates of the circuit, from the shares of the input and of the mask.
  unfoldable pub relu_gates : ℕ → List ℕ → List ℕ → List ℕ → ℕ → ℕ → Share
  unfolding reduce_mod
  relu_gates num_vals xs xc r bitlen q =
      let xs_in = put_simd_in_gate num_vals xs bitlen server in
      let xc_in = put_simd_in_gate num_vals xc bitlen client in
      let r_in = put_simd_in_gate num_vals r bitlen server in
      let modulus = put_simd_cons_gate num_vals q bitlen in
      let zeros = put_simd_cons_gate num_vals 0 bitlen in
      let half = put_simd_cons_gate num_vals (q / 2) bitlen in
      let x = reduce_mod (put_add_gate xs_in xc_in) modulus in
      let x_negative = put_gt_gate x half in
      let positive = put_mux_gate zeros x x_negative in
      put_out_gate (reduce_mod (put_add_gate positive r_in) modulus) client

  unfoldable pub relu_aby : ℕ → List ℕ → List ℕ → List ℕ → ℕ → ℕ → Result Share
  unfolding check_argument_range relu_gates
  relu_aby num_vals xs xc r bitlen coeff_modulus = do
    require (length xs == num_vals) check_failed
    require (length xc == num_vals) check_failed
    require (length r == num_vals) check_failed
    check_argument_range xs 0 coeff_modulus
    check_argument_range xc 0 coeff_modulus
    check_argument_range r 0 coeff_modulus
    ok (relu_gates num_vals xs xc r bitlen coeff_modulus)
