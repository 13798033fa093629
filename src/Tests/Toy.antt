-- ===== src/Tests/Toy.antt =====
-- A backend that can be evaluated: natural numbers for doubles, and for a ciphertext its level, its
-- scale and its words. It hides nothing, which no theorem asks of it.
use he_transformer_research.Base.{
  ℕ, ◌+◌, ◌-◌, ◌*◌, ◌/◌, ◌^◌, ◌%◌, true, false, List, [], ◌∷◌, map, ltb, leb, ◌==◌, if◌then◌else◌,
  ok, err, seal_error,
}
use he_transformer_research.SealUtil.Words.{u64_mod, Modulus}
use he_transformer_research.Backend.{Backend}

pub record ToyCt : Type 0 where
  pub level : ℕ
  pub ct_scale : ℕ
  pub words : List (List (List ℕ))

pub record ToyPt : Type 0 where
  pub pt_level : ℕ
  pub pt_values : List ℕ

abbrev pub seventeen : Modulus
seventeen = record { value = 17; const_ratio_1 = u64_mod / 17 }

abbrev pub toy : Backend
toy = record {
  D = ℕ;
  zero_d = 0;
  one_d = 1;
  two_d = 2;
  minus_infinity = 0;
  add = λ a b. a + b;
  sub = λ a b. a - b;
  mul = λ a b. a * b;
  divide = λ a b. a / b;
  pow = λ a b. a ^ b;
  exp = λ a. 2 ^ a;
  neg = λ a. a;
  less = ltb;
  less_equal = leb;
  equal = λ a b. a == b;
  negligible = λ a. a == 0;
  to_float = λ a. a;
  round_i32 = λ a. a;
  round_i64 = λ a. a;
  tolerance = 1;
  Ct = ToyCt;
  empty = record { level = 0; ct_scale = 0; words = [] };
  chain_index = λ c. c.level;
  scale = λ c. c.ct_scale;
  with_scale = λ s c. record c { ct_scale = s };
  is_transparent = λ c. false;
  polys = λ c. c.words;
  with_polys = λ ps c. record c { words = ps };
  resize_ct = λ n c. c;
  moduli = λ c. seventeen ∷ [];
  coeff_count = 2;
  is_valid_ct = λ c. true;
  is_ntt_form = λ c. true;
  is_scale_ok = λ s c. true;
  hw64 = λ a b. a * b / u64_mod;
  multiply_poly_scalar = λ p v m. map (λ x. x * v % m.value) p;
  add_poly_scalar = λ p v m. map (λ x. (x + v) % m.value) p;
  encode_residues = λ v s c. ok (v % 17 ∷ []);
  is_supported_type = λ t. true;
  lazy_mod = false;
  mod_switch_to = λ c i. if leb i c.level then ok (record c { level = i }) else err seal_error;
  rescale_to_next =
      λ c. if c.level == 0 then err seal_error else ok (record c { level = c.level - 1 });
  add_ct = λ a b. ok a;
  sub_ct = λ a b. ok a;
  negate_ct = λ a. ok a;
  multiply_ct = λ a b. ok a;
  square_ct = λ a. ok a;
  relinearize_ct = λ a. ok a;
  complex_conjugate = λ a. ok a;
  Pt = ToyPt;
  slot_count = 4;
  encode_value = λ v l s. ok (record { pt_level = l; pt_values = v ∷ [] });
  encode_real = λ vs l s. ok (record { pt_level = l; pt_values = vs });
  encode_complex = λ zs l s. ok (record { pt_level = l; pt_values = map (λ z. z.0) zs });
  decode_real = λ p. ok p.pt_values;
  decode_complex = λ p. ok (map (λ v. (v, 0)) p.pt_values);
  pt_chain_index = λ p. p.pt_level;
  add_plain_ct = λ c p. ok c;
  multiply_plain_ct = λ c p. ok c;
  encrypt_pt =
      λ p. ok (record { level = p.pt_level; ct_scale = 1; words = (p.pt_values ∷ []) ∷ [] });
  decrypt_ct = λ c. ok (record { pt_level = c.level; pt_values = [] });
  first_chain_index = 3;
  backend_scale = 1;
  Bytes = ToyCt;
  save_ct = ok;
  load_ct = ok;
}
