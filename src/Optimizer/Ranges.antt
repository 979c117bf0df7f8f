-- ===== src/Optimizer/Ranges.antt =====
-- src/engine/config/models.py: `ParameterRange` and the values it stands for.
use proofalpha.Prelude.{
  ℕ, zero, suc, Bool, true, false, Option, none, some, List, ◌∷◌, [], ◌++◌, ◌||◌, if◌then◌else◌,
  ltb,
}
use proofalpha.Prelude.Int.{pos}
use proofalpha.Python.Runtime.{Runtime, Value, bool, int, float}
use proofalpha.Python.Convert.{Result, err, ok, value_error}

pub record ParameterRange (Float : Type 0) : Type 0 where
  pub minimum : Float
  pub maximum : Float
  pub step : Float
  pub excluded_values : List (Value Float)

module _ (R : Runtime) where
  -- `{float(value) for value in self.excluded_values if isinstance(value, (int, float))}`, where a
  -- bool is an int
  unfoldable pub excluded_floats : List (Value R.Float) → List R.Float
  excluded_floats [] = []
  excluded_floats (bool true ∷ vs) = R.of_int (pos 1) ∷ excluded_floats vs
  excluded_floats (bool false ∷ vs) = R.of_int (pos 0) ∷ excluded_floats vs
  excluded_floats (int n ∷ vs) = R.of_int n ∷ excluded_floats vs
  excluded_floats (float x ∷ vs) = x ∷ excluded_floats vs
  excluded_floats (_ ∷ vs) = excluded_floats vs

  -- `x in excluded`
  unfoldable pub is_excluded : R.Float → List R.Float → Bool
  is_excluded x [] = false
  is_excluded x (y ∷ ys) = R.eq x y || is_excluded x ys

  -- what a round appends to `values`
  unfoldable pub shown : List R.Float → R.Float → List (Value R.Float)
  shown excluded current =
      let rounded = R.round current 10 in
      if is_excluded rounded excluded
      then []
      else ((if R.is_integer rounded then int (R.to_int rounded) else float rounded) ∷ [])

  -- `self.maximum + (self.step / 1_000_000)`
  abbrev pub limit : ParameterRange R.Float → R.Float
  limit p = R.add p.maximum (R.div p.step (R.lit 1000000 0))

  -- The while loop of `values`, on fuel (`none`: it ran out); both ways through its body count the
  -- round and test the guard.
  unfoldable pub values_loop :
      ℕ
      → ParameterRange R.Float
      → List R.Float
      → R.Float
      → ℕ
      → List (Value R.Float)
      → Option (Result (List (Value R.Float)))
  values_loop zero p excluded current guard values = none
  values_loop (suc fuel) p excluded current guard values =
      let rest =
        values_loop fuel p excluded (R.add current p.step) (suc guard)
          (values ++ shown excluded current) in
      if R.le current (limit p)
      then (if ltb 100000 (suc guard)
          then some (err (value_error "parameter range produced too many values"))
          else rest)
      else some (ok values)

  -- `ParameterRange.values`
  unfoldable pub range_values : ParameterRange R.Float → Option (Result (List (Value R.Float)))
  range_values p =
      if R.le p.step (R.lit 0 0)
      then some (err (value_error "step must be positive"))
      else values_loop 100001 p (excluded_floats p.excluded_values) p.minimum 0 []
