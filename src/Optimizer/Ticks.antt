-- ===== src/Optimizer/Ticks.antt =====
-- What `ParameterRange.values` returns (src/engine/config/models.py): its loop ends, and the values
-- are those of the steps from the minimum to the maximum.
use proofalpha.Prelude.{
  ℕ, zero, suc, ◌+◌, ◌≤◌, ◌<◌, true, false, Option, some, List, [], ◌++◌, ◌≡◌, inl, inr, refl,
  arith, ltb, length, length-append, Bool-cases,
}
use proofalpha.Python.Runtime.{Runtime, Value}
use proofalpha.Python.Convert.{Result, Ensures, err, ok, value_error}
use proofalpha.Optimizer.Ranges.{
  ParameterRange, excluded_floats, is_excluded, shown, limit, values_loop, range_values,
}

module _ (R : Runtime) where
  -- The float that the loop has reached after some rounds.
  pub tick : ParameterRange R.Float → ℕ → R.Float
  tick p zero = p.minimum
  tick p (suc n) = R.add (tick p n) p.step

  -- The values that the first rounds append.
  pub kept : ParameterRange R.Float → ℕ → List (Value R.Float)
  kept p zero = []
  kept p (suc n) = kept p n ++ shown R (excluded_floats R p.excluded_values) (tick p n)

  -- The first `n` steps stand within the range.
  abbrev pub AllWithin : ParameterRange R.Float → ℕ → Type 0
  AllWithin p n = (k : ℕ) → k < n → R.le (tick p k) (limit R p) ≡ true

  -- How the call ends: at a step that is not positive; or, with a positive one, at the first step
  -- above the range, or at the guard of the loop.
  pub data Ends (p : ParameterRange R.Float) : Option (Result (List (Value R.Float))) → Type 0 where
    refused :
        R.le p.step (R.lit 0 0) ≡ true → Ends p (some (err (value_error "step must be positive")))
    above :
        (n : ℕ)
        → R.le p.step (R.lit 0 0) ≡ false
        → n ≤ 100000
        → AllWithin p n
        → R.le (tick p n) (limit R p) ≡ false
        → Ends p (some (ok (kept p n)))
    guarded :
        R.le p.step (R.lit 0 0) ≡ false
        → AllWithin p 100001
        → Ends p (some (err (value_error "parameter range produced too many values")))

  within_more :
      (p : ParameterRange R.Float) (i : ℕ)
      → AllWithin p i
      → R.le (tick p i) (limit R p) ≡ true
      → AllWithin p (suc i)
  within_more p i h last k l = elim (Bool-cases (ltb k i)) [
    | inl before ↦ h k (ground arith)
    | inr here ↦ let same : k ≡ i = ground arith in rw same last
  ]

  loop_ends :
      (p : ParameterRange R.Float) (fuel i : ℕ)
      → R.le p.step (R.lit 0 0) ≡ false
      → fuel + i ≡ 100001
      → AllWithin p i
      → i ≤ 100000
      → Ends p (values_loop R fuel p (excluded_floats R p.excluded_values) (tick p i) i (kept p i))
  unfolding values_loop kept tick
  loop_ends p zero i s e h b = absurd (omega arith)
  loop_ends p (suc fuel) i s e h b = elim (Bool-cases (R.le (tick p i) (limit R p))) [
    | inr out ↦ rw out (above i s b h out)
    | inl inside ↦
        let more : AllWithin p (suc i) = within_more p i h inside in
        elim (Bool-cases (ltb 100000 (suc i))) [
          | inl over ↦
              let end : suc i ≡ 100001 = ground arith in
              rw (inside, over) (guarded s (rw (← end) more))
          | inr under ↦
              rw (inside, under) (loop_ends p fuel (suc i) s (omega arith) more (ground arith))
        ]
  ]

  length-shown : (excluded : List R.Float) (x : R.Float) → length (shown R excluded x) ≤ 1
  unfolding shown
  length-shown excluded x = elim (Bool-cases (is_excluded R (R.round x 10) excluded)) [
    | inl e ↦ rw e (omega arith)
    | inr e ↦ rw e (omega arith)
  ]

  length-kept : (p : ParameterRange R.Float) (n : ℕ) → length (kept p n) ≤ n
  unfolding kept
  length-kept p zero = omega arith
  length-kept p (suc n) =
      let excluded = excluded_floats R p.excluded_values in
      omega (
        arith,
        length-kept p n,
        length-shown excluded (tick p n),
        length-append (kept p n) (shown R excluded (tick p n)),
      )

  -- The values of every range are found within the fuel of 100,001 rounds: ValueError when the step
  -- is not positive; otherwise the loop ends at the first step above the maximum, with the values of
  -- the steps before it, which are at most 100,000, or with ValueError when the first 100,001 steps
  -- are all within the range.
  pub range_values-Ends : (p : ParameterRange R.Float) → Ends p (range_values R p)
  unfolding range_values kept tick
  range_values-Ends p = elim (Bool-cases (R.le p.step (R.lit 0 0))) [
    | inl bad ↦ rw bad (refused bad)
    | inr good ↦
        rw good
          (loop_ends p 100001 0 good (omega arith) (λ k l. absurd (omega arith)) (omega arith))
  ]

  Ends-bounded :
      {p : ParameterRange R.Float} (o : Option (Result (List (Value R.Float))))
      → Ends p o
      → (r : Result (List (Value R.Float))) × (o ≡ some r) × Ensures (λ vs. length vs ≤ 100000) r
  Ends-bounded _ (refused bad) = (err (value_error "step must be positive"), refl, tt)
  Ends-bounded _ (guarded s all) =
      (err (value_error "parameter range produced too many values"), refl, tt)
  Ends-bounded {p} _ (above n s b all out) =
      (ok (kept p n), refl, omega (arith, b, length-kept p n))

  -- `values` returns for every range, with ValueError or at most 100,000 values.
  pub range_values_total :
      (p : ParameterRange R.Float)
      → (r : Result (List (Value R.Float))) × (range_values R p ≡ some r)
        × Ensures (λ vs. length vs ≤ 100000) r
  range_values_total p = Ends-bounded _ (range_values-Ends p)
