-- ===== src/Aby/Evaluation.antt =====
-- What ABY documents of the circuits that the server and the client build, each from its own inputs, and
-- execute together: the clear values of a share of the server and the one of the client.
use he_transformer_research.Base.{
  ℕ, ◌+◌, ◌-◌, ◌%◌, ◌^◌, ◌<◌, ◌≡◌, List, All, length, replicate, zip_with, ltb, ◌==◌, if◌then◌else◌,
}
use he_transformer_research.Aby.{BooleanCircuit, server, client}

-- Words of `bitlen` bits, and the bit of a comparison.
abbrev pub add_word : ℕ → ℕ → ℕ → ℕ
add_word bitlen a b = (a + b) % 2 ^ bitlen

abbrev pub sub_word : ℕ → ℕ → ℕ → ℕ
sub_word bitlen a b = (a + (2 ^ bitlen - b)) % 2 ^ bitlen

abbrev pub gt_bit : ℕ → ℕ → ℕ
gt_bit a b = if ltb b a then 1 else 0

abbrev pub select : ℕ → ℕ × ℕ → ℕ
select bit pair = if bit == 1 then pair.0 else pair.1

pub record Evaluation (circ : BooleanCircuit) (bitlen : ℕ) : Type 0 where
  pub values : circ.Share → circ.Share → List ℕ
  pub in_of_server :
      (n : ℕ) (own other : List ℕ)
      → length own ≡ n
      → All (λ v. v < 2 ^ bitlen) own
      → values
          (circ.put_simd_in_gate n own bitlen server)
          (circ.put_simd_in_gate n other bitlen server)
        ≡ own
  pub in_of_client :
      (n : ℕ) (other own : List ℕ)
      → length own ≡ n
      → All (λ v. v < 2 ^ bitlen) own
      → values
          (circ.put_simd_in_gate n other bitlen client)
          (circ.put_simd_in_gate n own bitlen client)
        ≡ own
  pub constants :
      (n v : ℕ)
      → v < 2 ^ bitlen
      → values (circ.put_simd_cons_gate n v bitlen) (circ.put_simd_cons_gate n v bitlen)
        ≡ replicate n v
  pub add :
      (a b a' b' : circ.Share)
      → values (circ.put_add_gate a b) (circ.put_add_gate a' b')
        ≡ zip_with (add_word bitlen) (values a a') (values b b')
  pub sub :
      (a b a' b' : circ.Share)
      → values (circ.put_sub_gate a b) (circ.put_sub_gate a' b')
        ≡ zip_with (sub_word bitlen) (values a a') (values b b')
  pub gt :
      (a b a' b' : circ.Share)
      → values (circ.put_gt_gate a b) (circ.put_gt_gate a' b')
        ≡ zip_with gt_bit (values a a') (values b b')
  pub mux :
      (a b s a' b' s' : circ.Share)
      → values (circ.put_mux_gate a b s) (circ.put_mux_gate a' b' s')
        ≡ zip_with select (values s s') (zip_with (λ x y. (x, y)) (values a a') (values b b'))
  pub out :
      (a a' : circ.Share)
      → values (circ.put_out_gate a client) (circ.put_out_gate a' client) ≡ values a a'
