-- ===== src/Optimizer/Combinations.antt =====
-- What `expand_parameter_grid` returns (src/engine/optimizer/grid.py): every combination of the
-- values, and as many as it counted.
use mathlib.Core.List.{Memᴰ}
use mathlib.Core.List.Memᴰ
use native.Mathlib.Nat.{mul_assoc}
use proofalpha.Prelude.{
  ℕ, suc, ◌*◌, String, true, some, List, ◌∷◌, [], map, ◌≡◌, ◌⊎◌, ◌↔◌, inl, inr, refl, sym, ap,
  subst, ◌∙◌, arith, length, length-append, is_empty, Bool-cases,
}
use proofalpha.Prelude.Int.{ℤ, pos, ltb_ℤ, ◌≤ℤ◌}
use proofalpha.Prelude.Dict.{Dict}
use proofalpha.Python.Runtime.{Runtime, Value}
use proofalpha.Python.Convert.{Result, Ensures, Ensures-then, err, ok, ◌>>=◌}
use proofalpha.Optimizer.Ranges.{ParameterRange, range_values}
use proofalpha.Optimizer.Ticks.{range_values_total}
use proofalpha.Optimizer.Grid.{
  keys, zip, each, product, ordered_values, count_loop, grid_of, expand_parameter_grid,
}

module _ {A : Type 0} where
  -- The product of the lengths.
  abbrev size : List (List A) → ℕ
  size [] = 1
  size (vs ∷ rest) = length vs * size rest

  length-map : {B : Type 0} (f : A → B) (l : List A) → length (map f l) ≡ length l
  length-map f [] = refl
  length-map f (a ∷ l) = ap suc (length-map f l)

length-each :
    {A : Type 0} (vs : List A) (t : List (List A)) → length (each vs t) ≡ length vs * length t
length-each [] t = omega arith
length-each (v ∷ vs) t = omega (
  arith,
  length-append (map (λ s. v ∷ s) t) (each vs t),
  length-map (λ s. v ∷ s) t,
  length-each vs t,
)

length-product : {A : Type 0} (l : List (List A)) → length (product l) ≡ size l
length-product [] = refl
length-product (vs ∷ rest) = rw (length-each vs (product rest), length-product rest) refl

count_loop_bound :
    {A : Type 0} (R : Runtime) (most : ℤ) (count : ℕ) (l : List (List A))
    → (is_empty l ≡ true → pos count ≤ℤ most)
    → Ensures (λ n. (n ≡ count * size l) × (pos n ≤ℤ most)) (count_loop R most count l)
unfolding count_loop
count_loop_bound R most count [] h = (omega arith, h refl)
count_loop_bound R most count (vs ∷ rest) h =
    elim (Bool-cases (ltb_ℤ most (pos (count * length vs)))) [
      | inl over ↦ rw over tt
      | inr under ↦
          rw (under, ← mul_assoc count (length vs) (size rest))
            (count_loop_bound R most (count * length vs) rest (λ e. ground arith))
    ]

module _ {A : Type 0} where
  of_each :
      {c : List A} (vs : List A) (t : List (List A))
      → Memᴰ c (each vs t)
      → (v : A) × (rest : List A) × Memᴰ v vs × Memᴰ rest t × (c ≡ v ∷ rest)
  of_each [] t m = elim m [ ]
  of_each (v ∷ vs) t m = elim (Memᴰ.append_cases (map (λ s. v ∷ s) t) m) [
    | inl here ↦
        let (rest, r, e) = Memᴰ.of_map (λ s. v ∷ s) t here in (v, rest, Memᴰ.head refl, r, sym e)
    | inr there ↦ let (w, rest, i, r, e) = of_each vs t there in (w, rest, Memᴰ.tail i, r, e)
  ]

  in_each :
      {v : A} {rest : List A} (vs : List A) (t : List (List A))
      → Memᴰ v vs
      → Memᴰ rest t
      → Memᴰ (v ∷ rest) (each vs t)
  in_each [] t m r = elim m [ ]
  in_each (w ∷ vs) t (Memᴰ.head e) r = rw e (Memᴰ.append_left (each vs t) (Memᴰ.map (λ s. w ∷ s) r))
  in_each (w ∷ vs) t (Memᴰ.tail i) r = Memᴰ.append_right (map (λ s. w ∷ s) t) (in_each vs t i r)

module _ (R : Runtime) where
  -- A combination: for each key, one of the values of its range.
  abbrev pub Picks : Dict (ParameterRange R.Float) → Dict (Value R.Float) → Type 0
  Picks [] c = c ≡ []
  Picks ((k, p) ∷ ranges) c =
      (vs : List (Value R.Float)) × (v : Value R.Float) × (rest : Dict (Value R.Float))
      × (range_values R p ≡ some (ok vs))
      × Memᴰ v vs
      × Picks ranges rest
      × (c ≡ (k, v) ∷ rest)

  data IsValued : Dict (ParameterRange R.Float) → List (List (Value R.Float)) → Type 0 where
    none_left : IsValued [] []
    valued :
        {k : String} {p : ParameterRange R.Float} {vs : List (Value R.Float)}
        {ranges : Dict (ParameterRange R.Float)} {values : List (List (Value R.Float))}
        → range_values R p ≡ some (ok vs)
        → IsValued ranges values
        → IsValued ((k, p) ∷ ranges) (vs ∷ values)

  IsValued-joined :
      (k : String) (p : ParameterRange R.Float) (ranges : Dict (ParameterRange R.Float))
      (a : Result (List (Value R.Float))) (l : Result (List (List (Value R.Float))))
      → range_values R p ≡ some a
      → Ensures (IsValued ranges) l
      → Ensures (IsValued ((k, p) ∷ ranges)) (a >>= λ vs. l >>= λ rest. ok (vs ∷ rest))
  IsValued-joined k p ranges (err e) l h i = tt
  IsValued-joined k p ranges (ok vs) (err e) h i = tt
  IsValued-joined k p ranges (ok vs) (ok rest) h i = valued h i

  ordered_values_total :
      (ranges : Dict (ParameterRange R.Float))
      → (r : Result (List (List (Value R.Float)))) × (ordered_values R ranges ≡ some r)
        × Ensures (IsValued ranges) r
  unfolding ordered_values
  ordered_values_total [] = (ok [], refl, none_left)
  ordered_values_total ((k, p) ∷ ranges) =
      let (a, e, b) = range_values_total R p in
      let (l, f, i) = ordered_values_total ranges in
      (_, rw (e, f) refl, IsValued-joined k p ranges a l e i)

  combination_iff :
      {ranges : Dict (ParameterRange R.Float)} {values : List (List (Value R.Float))}
      (c : Dict (Value R.Float))
      → IsValued ranges values
      → Memᴰ c (map (zip (keys ranges)) (product values)) ↔ Picks ranges c
  combination_iff c none_left = (λ m. Memᴰ.eq_of_singleton m, λ e. Memᴰ.head e)
  combination_iff c (valued {k} {p} {vs} {ranges} {values} e i) = (
    λ m.
        let (comb, j, z) = Memᴰ.of_map (zip (k ∷ keys ranges)) (product (vs ∷ values)) m in
        let (v, rest, inside, r, q) = of_each vs (product values) j in
        let later =
          (combination_iff (zip (keys ranges) rest) i).0 (Memᴰ.map (zip (keys ranges)) r) in
        (vs, v, zip (keys ranges) rest, e, inside, later, sym z ∙ ap (zip (k ∷ keys ranges)) q),
    λ (vs', v, rest, e', inside, later, q).
        let same : vs' ≡ vs = cc in
        let r = (combination_iff rest i).1 later in
        let (comb, j, z) = Memᴰ.of_map (zip (keys ranges)) (product values) r in
        let here = in_each vs (product values) (subst (λ l. Memᴰ v l) same inside) j in
        Memᴰ.cast (q ∙ ap (λ d. (k, v) ∷ d) (sym z)) (Memᴰ.map (zip (k ∷ keys ranges)) here),
  )

  -- What the grid of some ranges is: its count is its length, which the cap bounds unless there is
  -- no range, and it holds the combinations of the values.
  abbrev pub IsGrid : Dict (ParameterRange R.Float) → ℤ → List (Dict (Value R.Float)) × ℕ → Type 0
  IsGrid ranges max_permutations (grid, count) =
      (length grid ≡ count)
      × ((ranges ≡ []) ⊎ (pos count ≤ℤ max_permutations))
      × ((c : Dict (Value R.Float)) → Memᴰ c grid ↔ Picks ranges c)

  IsGrid-grid_of :
      (r : String × ParameterRange R.Float) (ranges : Dict (ParameterRange R.Float)) (most : ℤ)
      (values : List (List (Value R.Float)))
      → IsValued (r ∷ ranges) values
      → Ensures (IsGrid (r ∷ ranges) most) (grid_of R (keys (r ∷ ranges)) most values)
  unfolding grid_of
  IsGrid-grid_of (k, p) ranges most [] i = elim i [ ]
  IsGrid-grid_of (k, p) ranges most (vs ∷ values) i =
      let grid = map (zip (keys ((k, p) ∷ ranges))) (product (vs ∷ values)) in
      Ensures-then _ (IsGrid ((k, p) ∷ ranges) most) (count_loop R most 1 (vs ∷ values)) _
        (count_loop_bound R most 1 (vs ∷ values) (λ e. cc))
        λ n (e, b). (
          omega (
            arith,
            e,
            length-map (zip (keys ((k, p) ∷ ranges))) (product (vs ∷ values)),
            length-product (vs ∷ values),
          ),
          inr b,
          λ c. combination_iff c i,
        )

  -- `expand_parameter_grid` returns for all ranges: it raises, or it returns the grid of exactly the
  -- combinations of one value of each range, and their number as it counted it, which is at most
  -- the cap unless there is no range.
  pub expand_parameter_grid_total :
      (ranges : Dict (ParameterRange R.Float)) (max_permutations : ℤ)
      → (r : Result (List (Dict (Value R.Float)) × ℕ)) × (expand_parameter_grid R ranges
            max_permutations
          ≡ some r)
        × Ensures (IsGrid ranges max_permutations) r
  unfolding expand_parameter_grid
  expand_parameter_grid_total [] most =
      (ok ([] ∷ [], 1), refl, (refl, inl refl, λ c. combination_iff c none_left))
  expand_parameter_grid_total (r ∷ ranges) most =
      let (values, e, i) = ordered_values_total (r ∷ ranges) in
      (
        values >>= grid_of R (keys (r ∷ ranges)) most,
        rw (expand_parameter_grid, e) refl,
        Ensures-then (IsValued (r ∷ ranges)) _ values _ i
            (λ vs v. IsGrid-grid_of r ranges most vs v),
      )
