-- ===== src/Python/Convert.antt =====
-- Python's conversions and truth tests on the values of a payload, and its `min` and `max` on
-- floats.
use proofalpha.Prelude.{
  ◌≡◌, refl, sym, String, Bool, true, false, not, Option, none, some, ◌==◌, if◌then◌else◌,
}
use proofalpha.Prelude.Int.{pos, magnitude}
use proofalpha.Prelude.{eqb}
use proofalpha.Python.Runtime.{
  Runtime, Value, null, bool, int, float, text, object, list, end, field, nothing, item,
}

-- What a conversion or a lookup raises.
pub data PyError : Type 0 where
  key_error value_error : String → PyError
  type_error : PyError

-- A call that may raise.
pub data Result {ℓ} (A : Type ℓ) : Type ℓ where
  err : PyError → Result A
  ok : A → Result A

-- What holds of the value of a call, if it returns one.
abbrev pub Ensures {ℓ κ} : {A : Type ℓ} → (A → Type κ) → Result A → Type κ
Ensures P (ok a) = P a
Ensures P (err e) = Unit

-- the exception goes on to the caller
infixl 5 ◌>>=◌
abbrev pub ◌>>=◌ {ℓ κ} : {A : Type ℓ} {B : Type κ} → Result A → (A → Result B) → Result B
err raised >>= rest = err raised
ok value >>= rest = rest value

pub Ensures->>= {ℓ κ μ} :
    {A : Type ℓ} {B : Type κ} (P : B → Type μ) (m : Result A) (f : A → Result B)
    → ((a : A) → Ensures P (f a))
    → Ensures P (m >>= f)
Ensures->>= P (ok a) f h = h a
Ensures->>= P (err e) f h = tt

pub Ensures-then {ℓ κ μ ν} :
    {A : Type ℓ} {B : Type κ} (P : A → Type μ) (Q : B → Type ν) (m : Result A) (f : A → Result B)
    → Ensures P m
    → ((a : A) → P a → Ensures Q (f a))
    → Ensures Q (m >>= f)
Ensures-then P Q (ok a) f h k = k a h
Ensures-then P Q (err e) f h k = tt

-- The value that a chain went through, if it returned.
pub >>=-eq-ok {ℓ κ} :
    {B : Type κ} {b : B} {A : Type ℓ} (call : Result A) (rest : A → Result B)
    → ok b ≡ (call >>= rest)
    → (value : A) × (call ≡ ok value) × (rest value ≡ ok b)
>>=-eq-ok (err raised) rest e = cc
>>=-eq-ok (ok value) rest e = (value, refl, sym e)

abbrev pub or_raise {ℓ} : {A : Type ℓ} → Option A → PyError → Result A
or_raise none e = err e
or_raise (some a) e = ok a

module _ (R : Runtime) where
  -- `bool(v)`
  unfoldable pub truth : Value R.Float → Bool
  truth null = false
  truth (bool b) = b
  truth (int n) = not (eqb (magnitude n) 0)
  truth (float x) = not (R.eq x (R.lit 0 0))
  truth (text s) = not (s == "")
  truth (object end) = false
  truth (object (field k v f)) = true
  truth (list nothing) = false
  truth (list (item v l)) = true

  -- `str(v)`
  unfoldable pub str : Value R.Float → String
  str null = "None"
  str (bool true) = "True"
  str (bool false) = "False"
  str (int n) = R.text_of_int n
  str (float x) = R.text_of_float x
  str (text s) = s
  str (object f) = R.text_of_object f
  str (list l) = R.text_of_list l

  -- `float(v)`
  unfoldable pub to_float : Value R.Float → Result R.Float
  to_float null = err type_error
  to_float (bool true) = ok (R.of_int (pos 1))
  to_float (bool false) = ok (R.of_int (pos 0))
  to_float (int n) = ok (R.of_int n)
  to_float (float x) = ok x
  to_float (text s) = or_raise (R.of_text s) (value_error s)
  to_float (object f) = err type_error
  to_float (list l) = err type_error

  -- `min(a, b)` and `max(a, b)`: the first argument unless the second is strictly better.
  abbrev pub min : R.Float → R.Float → R.Float
  min a b = if R.lt b a then b else a

  abbrev pub max : R.Float → R.Float → R.Float
  max a b = if R.lt a b then b else a
