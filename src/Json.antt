-- ===== src/Json.antt =====
-- What the code calls of nlohmann's `json`, each call with the exception that it throws where a
-- value has another type or a key is missing.
use Prim.Native.String.{String}
use he_transformer_research.Base.{ℕ, Bool, List, Result}

-- `D` is `double`, and `Int` is `int`.
pub record Json (D Int : Type 0) : Type 1 where
  pub Value : Type 0
  -- `json::parse`
  pub parse : String → Result Value
  -- `js.at(key)`; `js[key]`, which for a missing key of an object is null
  pub at_key : Value → String → Result Value
  pub subscript : Value → String → Result Value
  -- `js.find(key) != js.end()`
  pub contains : Value → String → Bool
  -- The conversions to `std::string`, `uint64_t`, `std::vector<int>`, `double` and `bool`.
  pub to_text : Value → Result String
  pub to_u64 : Value → Result ℕ
  pub to_ints : Value → Result (List Int)
  pub to_double : Value → Result D
  pub to_bool : Value → Result Bool
