-- ===== src/Python/Runtime.antt =====
-- The runtime as a record of operations: IEEE floats with Python's comparisons and arithmetic, the
-- texts of numbers, and the digest of a JSON value. `Value` is the data that `json.dumps`, `str`
-- and `float` are applied to.
use proofalpha.Prelude.{ℕ, String, Bool, true, false, Option, List, ◌∷◌, [], ◌≡◌}
use proofalpha.Prelude.Int.{ℤ}
use proofalpha.Prelude.Dict.{Dict}

mutual
  -- A Python object of the kinds that payloads hold.
  pub data Value (Float : Type 0) : Type 0 where
    null : Value Float
    bool : Bool → Value Float
    int : ℤ → Value Float
    float : Float → Value Float
    text : String → Value Float
    object : Fields Float → Value Float
    list : Items Float → Value Float

  pub data Items (Float : Type 0) : Type 0 where
    nothing : Items Float
    item : Value Float → Items Float → Items Float

  pub data Fields (Float : Type 0) : Type 0 where
    end : Fields Float
    field : String → Value Float → Fields Float → Fields Float

abbrev pub fields : {Float : Type 0} → Dict (Value Float) → Fields Float
fields [] = end
fields ((k, v) ∷ d) = field k v (fields d)

-- A `datetime`: microseconds of its own clock since the epoch, and its offset from UTC in
-- microseconds, if it has one.
pub record Datetime : Type 0 where
  pub clock : ℤ
  pub offset : Option ℤ

pub record Runtime : Type 1 where
  pub Float : Type 0
  -- `a < b`, `a <= b`, `a == b`
  pub lt : Float → Float → Bool
  pub le : Float → Float → Bool
  pub eq : Float → Float → Bool
  pub add : Float → Float → Float
  pub sub : Float → Float → Float
  pub mul : Float → Float → Float
  pub div : Float → Float → Float
  pub neg : Float → Float
  pub abs : Float → Float
  -- `sum(xs)` of floats, and SQLite's `COALESCE(SUM(x), 0)`
  pub sum : List Float → Float
  pub sql_sum : List Float → Float
  -- `math.isfinite`
  pub is_finite : Float → Bool
  -- the literal m · 10⁻ᵏ
  pub lit : ℕ → ℕ → Float
  -- `round(x, digits)`
  pub round : Float → ℕ → Float
  -- `x.is_integer()`, and `int(x)` of such a float
  pub is_integer : Float → Bool
  pub to_int : Float → ℤ
  -- `float(n)` of an int, `float(s)` of a text (`none`: ValueError), `str(x)` of a float and an int
  pub of_int : ℤ → Float
  pub of_text : String → Option Float
  pub text_of_float : Float → String
  pub text_of_int : ℤ → String
  -- `str` of a dict and of a list, which have one text for each value
  pub text_of_object : Fields Float → String
  pub text_of_list : Items Float → String
  -- `str.upper`
  pub upper : String → String
  -- `datetime.fromisoformat(value.replace("Z", "+00:00"))` (`none`: ValueError), and the offset
  -- of the local time zone at a naive local time
  pub from_iso : String → Option Datetime
  pub local_offset : ℤ → ℤ
  -- `json.dumps(d, sort_keys=True)` of a dict, and `hashlib.sha256(s.encode("utf-8")).hexdigest()`
  pub json_text : Fields Float → String
  pub sha256 : String → String
  -- `hashlib.sha256(json.dumps(v, …).encode("utf-8")).hexdigest()`
  pub stable_hash : Value Float → String

-- What IEEE 754 comparisons satisfy; `not_lt` holds between finite floats only.
pub record IsOrdered (R : Runtime) : Type 0 where
  pub lt_irrefl : (a : R.Float) → R.lt a a ≡ false
  pub lt_trans : (a b c : R.Float) → R.lt a b ≡ true → R.lt b c ≡ true → R.lt a c ≡ true
  pub le_lt_trans : (a b c : R.Float) → R.le a b ≡ true → R.lt b c ≡ true → R.lt a c ≡ true
  pub not_lt :
      (a b : R.Float)
      → R.is_finite a ≡ true
      → R.is_finite b ≡ true
      → R.lt a b ≡ false
      → R.le b a ≡ true
