-- ===== src/HeUtil.antt =====
-- The conversions of src/he_util.hpp and src/he_util.cpp: element types to the wire and back, flags,
-- and pairs of real values packed as complex ones.
pub mod Packing
use Prim.Native.String.{String}
use text.Mathlib.Text.{◌==◌ as str_eq}
use he_transformer_research.Base.{
  ℕ, ◌+◌, ◌-◌, ◌%◌, Bool, true, false, ◌||◌, Option, none, some, List, [], ◌∷◌, length, ◌==◌,
  if◌then◌else◌, Result, ok, err, ngraph_error, check_failed,
}

-- `element::Type_t` of nGraph, as the switches of the source list it.
pub data ElementType : Type 0 where
  undefined dynamic boolean bf16 f16 f32 f64 i8 i16 i32 i64 u1 u8 u16 u32 u64 : ElementType

-- `pb::HETensor_ElementType` of src/protos/message.proto, with protobuf's two sentinels.
pub data PbElementType : Type 0 where
  undefined dynamic boolean bf16 f16 f32 f64 i8 i16 i32 i64 u1 u8 u16 u32 u64 : PbElementType
  min_sentinel max_sentinel : PbElementType

unfoldable pub type_to_pb_type : ElementType → PbElementType
type_to_pb_type ElementType.undefined = PbElementType.undefined
type_to_pb_type ElementType.dynamic = PbElementType.dynamic
type_to_pb_type ElementType.boolean = PbElementType.boolean
type_to_pb_type ElementType.bf16 = PbElementType.bf16
type_to_pb_type ElementType.f16 = PbElementType.f16
type_to_pb_type ElementType.f32 = PbElementType.f32
type_to_pb_type ElementType.f64 = PbElementType.f64
type_to_pb_type ElementType.i8 = PbElementType.i8
type_to_pb_type ElementType.i16 = PbElementType.i16
type_to_pb_type ElementType.i32 = PbElementType.i32
type_to_pb_type ElementType.i64 = PbElementType.i64
type_to_pb_type ElementType.u1 = PbElementType.u1
type_to_pb_type ElementType.u8 = PbElementType.u8
type_to_pb_type ElementType.u16 = PbElementType.u16
type_to_pb_type ElementType.u32 = PbElementType.u32
type_to_pb_type ElementType.u64 = PbElementType.u64

unfoldable pub pb_type_to_type : PbElementType → ElementType
pb_type_to_type PbElementType.undefined = ElementType.undefined
pb_type_to_type PbElementType.min_sentinel = ElementType.undefined
pb_type_to_type PbElementType.max_sentinel = ElementType.undefined
pb_type_to_type PbElementType.dynamic = ElementType.dynamic
pb_type_to_type PbElementType.boolean = ElementType.boolean
pb_type_to_type PbElementType.bf16 = ElementType.bf16
pb_type_to_type PbElementType.f16 = ElementType.f16
pb_type_to_type PbElementType.f32 = ElementType.f32
pb_type_to_type PbElementType.f64 = ElementType.f64
pb_type_to_type PbElementType.i8 = ElementType.i8
pb_type_to_type PbElementType.i16 = ElementType.i16
pb_type_to_type PbElementType.i32 = ElementType.i32
pb_type_to_type PbElementType.i64 = ElementType.i64
pb_type_to_type PbElementType.u1 = ElementType.u1
pb_type_to_type PbElementType.u8 = ElementType.u8
pb_type_to_type PbElementType.u16 = ElementType.u16
pb_type_to_type PbElementType.u32 = ElementType.u32
pb_type_to_type PbElementType.u64 = ElementType.u64

abbrev pub any_of : String → List String → Bool
any_of s [] = false
any_of s (x ∷ xs) = str_eq s x || any_of s xs

-- Of a parameter with a name and provenance tags.
unfoldable pub param_originates_from_name : String → List String → String → Bool
param_originates_from_name param_name tags name = str_eq param_name name || any_of name tags

-- `string_to_bool`; nGraph's `to_lower` is a parameter, and a null flag is `none`.
unfoldable pub string_to_bool : (String → String) → Option String → Bool → Result Bool
string_to_bool to_lower none default_value = ok default_value
string_to_bool to_lower (some flag) default_value =
    let flag_str = to_lower flag in
    if any_of flag_str ("1" ∷ "on" ∷ "y" ∷ "yes" ∷ "true" ∷ [])
    then ok true
    else (if any_of flag_str ("0" ∷ "off" ∷ "n" ∷ "no" ∷ "false" ∷ [])
        then ok false
        else err ngraph_error)

module _ {D : Type 0} where
  -- `type_to_double` of the value that the memory holds.
  unfoldable pub type_to_double : ElementType → D → Result D
  type_to_double ElementType.f32 v = ok v
  type_to_double ElementType.f64 v = ok v
  type_to_double ElementType.i32 v = ok v
  type_to_double ElementType.i64 v = ok v
  type_to_double _ v = err check_failed

  -- `(a+bi, c+di) => (a,b,c,d)`
  pub complex_vec_to_real_vec : List (D × D) → List D
  complex_vec_to_real_vec [] = []
  complex_vec_to_real_vec ((re, im) ∷ zs) = re ∷ im ∷ complex_vec_to_real_vec zs

  -- The loop from index `i` over the values left, with the two entries of `complex_parts`; `size`
  -- is `input.size()`. A part is emitted at each odd index and at the last.
  pub complex_loop : D → ℕ → List D → ℕ → D → D → List (D × D)
  complex_loop zero_d size [] i part_0 part_1 = []
  complex_loop zero_d size (x ∷ xs) i part_0 part_1 =
      let part_0' = if i % 2 == 0 then x else part_0 in
      let part_1' = if i % 2 == 0 then part_1 else x in
      let emit = (part_0', part_1') ∷ complex_loop zero_d size xs (i + 1) zero_d zero_d in
      let keep = complex_loop zero_d size xs (i + 1) part_0' part_1' in
      if (i % 2 == 1) || (i == size - 1) then emit else keep

  pub real_vec_to_complex_vec : D → List D → List (D × D)
  real_vec_to_complex_vec zero_d input = complex_loop zero_d (length input) input 0 zero_d zero_d
