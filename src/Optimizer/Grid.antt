-- ===== src/Optimizer/Grid.antt =====
-- src/engine/optimizer/grid.py: `expand_parameter_grid`.
use proofalpha.Prelude.{
  ℕ, ◌*◌, String, Option, none, some, List, ◌∷◌, [], ◌++◌, map, if◌then◌else◌, concat, length,
}
use proofalpha.Prelude.Int.{ℤ, pos, ltb_ℤ}
use proofalpha.Prelude.Dict.{Dict}
use proofalpha.Python.Runtime.{Runtime, Value}
use proofalpha.Python.Convert.{Result, err, ok, ◌>>=◌, value_error}
use proofalpha.Optimizer.Ranges.{ParameterRange, range_values}

abbrev pub keys : {A : Type 0} → Dict A → List String
keys [] = []
keys ((k, a) ∷ d) = k ∷ keys d

-- `zip(keys, combination)`, of two lists of one length
abbrev pub zip : {A : Type 0} → List String → List A → Dict A
zip (k ∷ ks) (v ∷ vs) = (k, v) ∷ zip ks vs
zip _ _ = []

abbrev pub each : {A : Type 0} → List A → List (List A) → List (List A)
each [] tails = []
each (v ∷ vs) tails = map (λ t. v ∷ t) tails ++ each vs tails

-- `itertools.product(*lists)`
abbrev pub product : {A : Type 0} → List (List A) → List (List A)
product [] = [] ∷ []
product (vs ∷ rest) = each vs (product rest)

-- the results of one range and of the ranges after it
abbrev pub joined :
    {A : Type 0} → Option (Result A) → Option (Result (List A)) → Option (Result (List A))
joined none rest = none
joined (some first) none = none
joined (some first) (some rest) = some (first >>= λ a. rest >>= λ l. ok (a ∷ l))

module _ (R : Runtime) where
  -- `ordered_values`
  unfoldable pub ordered_values :
      Dict (ParameterRange R.Float) → Option (Result (List (List (Value R.Float))))
  ordered_values [] = some (ok [])
  ordered_values ((k, p) ∷ rest) = joined (range_values R p) (ordered_values rest)

  -- the loop that counts; `GridSearchLimitError` is a `ValueError`
  unfoldable pub count_loop : {A : Type 0} → ℤ → ℕ → List (List A) → Result ℕ
  count_loop max_permutations count [] = ok count
  count_loop max_permutations count (values ∷ rest) =
      let next = count * length values in
      let later = count_loop max_permutations next rest in
      if ltb_ℤ max_permutations (pos next)
      then err (
          value_error (
            concat "grid expansion would create " (
              concat (R.text_of_int (pos next))
                (concat " permutations, exceeding " (R.text_of_int max_permutations)))))
      else later

  unfoldable pub grid_of :
      {A : Type 0} → List String → ℤ → List (List A) → Result (List (Dict A) × ℕ)
  grid_of ordered_keys max_permutations values = count_loop max_permutations 1 values >>= λ count.
      ok (map (zip ordered_keys) (product values), count)

  -- `expand_parameter_grid`; `none` only if the loop of a range ran out of fuel
  unfoldable pub expand_parameter_grid :
      Dict (ParameterRange R.Float) → ℤ → Option (Result (List (Dict (Value R.Float)) × ℕ))
  expand_parameter_grid [] max_permutations = some (ok ([] ∷ [], 1))
  expand_parameter_grid (r ∷ ranges) max_permutations = elim (ordered_values (r ∷ ranges)) [
    | none ↦ none
    | some values ↦ some (values >>= grid_of (keys (r ∷ ranges)) max_permutations)
  ]
