-- ===== src/Base/Results.antt =====
-- What a C++ call comes to: a value, or one of the ways in which it does not return normally.
use mathlib.Core.Bool.{Bool, true, false}
use mathlib.Core.Option.{Option, none, some}
use mathlib.Core.Path.{◌≡◌, refl}
use mathlib.Core.Logic.{◌⊎◌, inl, inr}

-- `check_failed` is a failed `NGRAPH_CHECK`, `ngraph_error` and `out_of_range` the exceptions of
-- those names, `seal_error` and `json_error` exceptions of those libraries, and `undefined`
-- undefined behaviour: an index out of bounds, a null pointer, or a division by zero.
pub data Error : Type 0 where
  check_failed ngraph_error out_of_range seal_error json_error undefined : Error

pub data Result {ℓ} (Value : Type ℓ) : Type ℓ where
  err : Error → Result Value
  ok : Value → Result Value

-- An access that is undefined where the value is missing.
abbrev pub deref {ℓ} : {Value : Type ℓ} → Option Value → Result Value
deref (some v) = ok v
deref none = err undefined

-- `if (!holds) throw e;`
abbrev pub require : Bool → Error → Result (Unit {0})
require holds e = elim holds [ true ↦ ok tt | false ↦ err e ]

-- `catch (const std::exception& e) { throw ngraph_error(…); }`: what throws does so as an
-- `ngraph_error`, and undefined behaviour stays what it is.
abbrev pub rethrow {ℓ} : {A : Type ℓ} → Result A → Result A
rethrow (ok a) = ok a
rethrow (err undefined) = err undefined
rethrow (err _) = err ngraph_error

-- The rest of a call, unless what came before has thrown.
infixl 5 ◌>>=◌ ◌>>◌
abbrev pub ◌>>=◌ {ℓ ℓ'} : {V : Type ℓ} {W : Type ℓ'} → Result V → (V → Result W) → Result W
call >>= rest = elim call [ err e ↦ err e | ok v ↦ rest v ]

abbrev pub ◌>>◌ {ℓ'} : {W : Type ℓ'} → Result (Unit {0}) → Result W → Result W
call >> rest = call >>= λ done. rest

pub Result-cases {ℓ} :
    {Value : Type ℓ} (call : Result Value)
    → ((e : Error) × (call ≡ err e)) ⊎ ((v : Value) × (call ≡ ok v))
Result-cases (err e) = inl (e, refl)
Result-cases (ok v) = inr (v, refl)

pub require-true :
    {A : Type 0} (b : Bool) (e : Error) (r : Result A) {a : A}
    → (require b e >> r) ≡ ok a
    → (b ≡ true) × (r ≡ ok a)
require-true true e r h = (refl, h)
require-true false e r h = cc

-- What a result that is a value came from.
pub bind-value {ℓ} :
    {A : Type ℓ} {B : Type ℓ} (r : Result A) (f : A → Result B) {b : B}
    → (r >>= f) ≡ ok b
    → (a : A) × (r ≡ ok a) × (f a ≡ ok b)
bind-value (ok a) f h = (a, refl, h)
bind-value (err e) f h = cc
