-- ===== src/Prelude/Errors.antt =====
-- Go's `int` where it may be negative, its `error`, and a call's `(value, error)` result.
use Prim.Native.Nat.{ℕ, zero, suc}
use Prim.Native.String.{String}
use mathlib.Core.Bool.{Bool, true, false}
use mathlib.Core.List.{List}
use mathlib.Core.Option.{Option, none, some}
use mathlib.Core.Path.{◌≡◌, refl}
use mathlib.Core.Logic.{◌⊎◌, inl, inr}

-- `negsuc n` is -(n + 1).
pub data ℤ : Type 0 where
  pos : ℕ → ℤ
  negsuc : ℕ → ℤ

abbrev pub is_zero : ℤ → Bool
is_zero (pos zero) = true
is_zero (pos (suc n)) = false
is_zero (negsuc n) = false

-- What a message is formatted with.
pub data Arg : Type 0 where
  str : String → Arg
  int : ℤ → Arg

-- An error: made from a format and its arguments, or wrapped by `%w`.
pub data Error : Type 0 where
  not_exist : Error
  canceled : Error
  errorf : String → List Arg → Error
  wrap : String → List Arg → Error → Error

pub data Result {ℓ} (A : Type ℓ) : Type ℓ where
  ok : A → Result A
  err : Error → Result A

-- A call that returns only an error.
abbrev pub fallible : Option Error → Result (Unit {0})
fallible none = ok tt
fallible (some e) = err e

infixl 5 ◌>>=◌
abbrev pub ◌>>=◌ {ℓ κ} : {A : Type ℓ} {B : Type κ} → Result A → (A → Result B) → Result B
ok a >>= f = f a
err e >>= f = err e

-- `if err != nil { return fmt.Errorf(…) }` after a call.
abbrev pub or_wrap {ℓ} : {A : Type ℓ} → Result A → String → List Arg → Result A
or_wrap (ok a) s args = ok a
or_wrap (err e) s args = err (wrap s args e)

pub Result-cases {ℓ} :
    {A : Type ℓ} (r : Result A) → ((a : A) × (r ≡ ok a)) ⊎ ((e : Error) × (r ≡ err e))
Result-cases (ok a) = inl (a, refl)
Result-cases (err e) = inr (e, refl)
