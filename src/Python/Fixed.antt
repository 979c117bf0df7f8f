-- ===== src/Python/Fixed.antt =====
-- A concrete runtime on which the definitions run: floats are integers counted in units of 10⁻⁹,
-- every one finite, and the digest is a polynomial hash of the same length as SHA-256's.
use Prim.Native.Char.{code}
use proofalpha.Prelude.{
  ◌&&◌, some, none, List, [], ◌∷◌, ℕ, zero, suc, ◌+◌, ◌-◌, ◌*◌, ◌/◌, ◌%◌, ◌^◌, String, Bool, true,
  false, none, arith, if◌then◌else◌, leb, eqb, concat, slice,
}
use proofalpha.Prelude.Int.{ℤ, pos, ◌+ℤ◌, ◌-ℤ◌, magnitude, is_negative, ltb_ℤ, leb_ℤ, eqb_ℤ}
use proofalpha.Python.Runtime.{
  Runtime, Value, Fields, Items, list, nothing, item, IsOrdered, null, bool, int, float, text,
  object, end, field,
}

abbrev unit : ℕ
unit = 1000000000

abbrev signed : Bool → ℕ → ℤ
signed minus n = if minus then pos 0 -ℤ pos n else pos n

abbrev differ : Bool → Bool → Bool
differ true b = if b then false else true
differ false b = b

abbrev mul_fixed : ℤ → ℤ → ℤ
mul_fixed a b = signed (differ (is_negative a) (is_negative b)) (magnitude a * magnitude b / unit)

abbrev div_fixed : ℤ → ℤ → ℤ
div_fixed a b = signed (differ (is_negative a) (is_negative b)) (magnitude a * unit / magnitude b)

abbrev hex_digits : String
hex_digits = "0123456789abcdef"

-- The last `k` digits of a number in base `b`.
abbrev digits : ℕ → ℕ → ℕ → String
digits b zero n = ""
digits b (suc k) n = concat (digits b k (n / b)) (slice hex_digits (n % b) (n % b + 1))

abbrev int_text : ℤ → String
int_text n = concat (if is_negative n then "-" else "+") (digits 10 20 (magnitude n))

abbrev hash_text : ℕ → String → ℕ
hash_text h String.[] = h
hash_text h (String.◌∷◌ c s) = hash_text ((h * 16777619 + code c + 1) % 2 ^ 256) s

abbrev mutual
  hash_value : Value ℤ → ℕ → ℕ
  hash_value null h = hash_text h "null"
  hash_value (bool true) h = hash_text h "true"
  hash_value (bool false) h = hash_text h "false"
  hash_value (int n) h = hash_text h (int_text n)
  hash_value (float x) h = hash_text h (int_text x)
  hash_value (text s) h = hash_text h s
  hash_value (object f) h = hash_fields f h
  hash_value (list l) h = hash_items l h

  hash_items : Items ℤ → ℕ → ℕ
  hash_items nothing h = h
  hash_items (item v l) h = hash_items l (hash_value v h)

  hash_fields : Fields ℤ → ℕ → ℕ
  hash_fields end h = h
  hash_fields (field k v f) h = hash_fields f (hash_value v (hash_text h k))

-- ASCII letters only.
abbrev upper_text : String → String
upper_text String.[] = ""
upper_text (String.◌∷◌ c s) =
    concat
      (if leb b'a' (code c)
        then (if leb (code c) b'z'
            then slice letters (code c - 97) (code c - 96)
            else String.◌∷◌ c "")
        else String.◌∷◌ c "")
      (upper_text s)
  where
    letters : String
    letters = "ABCDEFGHIJKLMNOPQRSTUVWXYZ"

-- The digits of a text as a number of seconds; a time zone is not read.
abbrev digit_seconds : ℕ → String → ℕ
digit_seconds n String.[] = n
digit_seconds n (String.◌∷◌ c s) =
    digit_seconds (if leb b'0' (code c) && leb (code c) b'9' then n * 10 + (code c - b'0') else n) s

abbrev total : List ℤ → ℤ
total [] = pos 0
total (a ∷ rest) = a +ℤ total rest

abbrev pub fixed : Runtime
fixed = record {
  Float = ℤ;
  lt = ltb_ℤ;
  le = leb_ℤ;
  eq = eqb_ℤ;
  add = ◌+ℤ◌;
  sub = ◌-ℤ◌;
  mul = mul_fixed;
  div = div_fixed;
  neg = λ a. pos 0 -ℤ a;
  abs = λ a. pos (magnitude a);
  sum = total;
  sql_sum = total;
  is_finite = λ a. true;
  lit = λ m k. pos (m * unit / 10 ^ k);
  round = λ a k. a;
  is_integer = λ a. eqb (magnitude a % unit) 0;
  to_int = λ a. signed (is_negative a) (magnitude a / unit);
  of_int = λ n. mul_fixed n (pos (unit * unit));
  of_text = λ s. none;
  text_of_float = int_text;
  text_of_int = int_text;
  text_of_object = λ f. digits 16 64 (hash_fields f 7);
  text_of_list = λ l. digits 16 64 (hash_items l 5);
  upper = upper_text;
  from_iso =
      λ s. some (record { clock = pos (digit_seconds 0 s * 1000000); offset = some (pos 0) });
  local_offset = λ t. pos 0;
  json_text = λ f. digits 16 64 (hash_fields f 11);
  sha256 = λ s. digits 16 64 (hash_text 13 s);
  stable_hash = λ v. digits 16 64 (hash_value v 7);
}

pub fixed-IsOrdered : IsOrdered fixed
fixed-IsOrdered = record {
  lt_irrefl = λ a. ground arith;
  lt_trans = λ a b c h k. ground arith;
  le_lt_trans = λ a b c h k. ground arith;
  not_lt = λ a b h k l. ground arith;
}
