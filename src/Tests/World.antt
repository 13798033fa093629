-- ===== src/Tests/World.antt =====
-- An environment that can be evaluated: SEAL's parameters are a degree, JSON is its text, and a shape
-- has the size that its one dimension is.
use Prim.Native.String.{String}
use he_transformer_research.Base.{ℕ, true, false, none, some, [], ◌∷◌, ◌==◌, ok, err, json_error}
use he_transformer_research.Machine.{Mem, of_plaintext}
use he_transformer_research.Json.{Json}
use he_transformer_research.EncryptionParameters.{SealParms}
use he_transformer_research.EncryptionParameters.Wire.{ByteForms}
use he_transformer_research.Tcp.Message.{le_bytes, of_le_bytes}
use he_transformer_research.Client.{KeyGenerator, Client, Keys}
use he_transformer_research.Client.Environment.{Environment}
use he_transformer_research.Tests.Toy.{toy, ToyCt, seventeen}
use he_transformer_research.Tests.Tensors.{line, head_of}

abbrev pub degrees : SealParms ℕ ℕ
degrees = record {
  Parms = ℕ;
  ckks = 0;
  set_poly_modulus_degree = λ degree p. ok degree;
  set_coeff_modulus = λ moduli p. ok p;
  poly_modulus_degree = λ p. p;
  create = λ degree bits. ok (seventeen ∷ []);
  parms_equal = λ a b. a == b;
  parameters_set = λ p level. true;
  int = λ n. n;
  of_u64 = λ n. n;
  divide = λ a b. a;
  sqrt = λ a. a;
  equal = λ a b. a == b;
}

abbrev pub eight_bytes : ByteForms degrees
eight_bytes = record {
  double_bytes = λ d. le_bytes 8 d;
  of_double_bytes = of_le_bytes;
  save_parms = λ p. p ∷ [];
  load_parms = λ bytes. ok (head_of bytes);
}

abbrev pub keygen : KeyGenerator degrees
keygen = record {
  public_key = λ p level. p ∷ [];
  using_keyswitching = λ p level. true;
  relin_keys = λ p level. p ∷ p ∷ [];
}

abbrev pub no_json : Json ℕ ℕ
no_json = record {
  Value = String;
  parse = ok;
  at_key = λ js key. err json_error;
  subscript = λ js key. err json_error;
  contains = λ js key. false;
  to_text = ok;
  to_u64 = λ js. err json_error;
  to_ints = λ js. err json_error;
  to_double = λ js. err json_error;
  to_bool = λ js. err json_error;
}

abbrev pub world : Environment
world = record {
  backend = toy;
  Int = ℕ;
  parms = degrees;
  byte_forms = eight_bytes;
  keygen = keygen;
  json = no_json;
  ngraph = record { type_size = λ t. 8; shape_size = head_of };
  coordinates = line;
  byte_size = λ pb. 1;
  float_quotient = λ n. 100;
  to_lower = λ s. s;
}

abbrev pub empty_store : Mem ℕ ToyCt
empty_store = record { object = λ a. of_plaintext [] false; cell = λ p. toy.empty; next = 0 }

abbrev pub two_keys : Keys
two_keys = record { public_key = 7 ∷ []; relin_keys = some (7 ∷ 7 ∷ []) }

abbrev pub ready : Client degrees ToyCt
ready = record {
  batch_size = 1;
  input_config = [];
  encryption_params = record {
    scheme_name = "HE_SEAL";
    seal_parms = 2048;
    security_level = 128;
    scale = 5;
    complex_packing = false;
  };
  context = some two_keys;
  result_tensor = none;
  results = [];
  is_done = false;
  is_closed = false;
  sent = [];
}
