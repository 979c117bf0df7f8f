-- ===== src/Portfolio/PlanLimits.antt =====
-- What an accepted portfolio plan guarantees (src/engine/portfolio/allocator.py).
use mathlib.Core.List.{append_assoc, append-nil}
use proofalpha.Prelude.{
  String, Bool, true, false, Option, none, some, List, ◌∷◌, [], ◌++◌, ◌==◌, ◌≡◌, refl, sym, ap, ◌∙◌,
  arith, if◌then◌else◌, contains, is_empty, is_empty-append, map, All, Bool-cases, Option-cases,
  inl, inr,
}
use proofalpha.Prelude.Dict.{Dict, lookup, insert, lookup-insert}
use proofalpha.Python.Runtime.{Runtime, Value}
use proofalpha.Reconcile.Matched.{NoRepeats}
use proofalpha.Portfolio.PlanTables.{
  PaperAuthority, PortfolioConstraints, PortfolioAllocation, Draft,
}
use proofalpha.Portfolio.Allocate.{
  Candidate, candidate_rejection, limit_rejection, any_over, exposure_of, with_exposure, per_symbol,
  allocation_of, drawdown_after, allocate_candidate, allocate_all,
}

All-insert :
    {V : Type 0} (P : String × V → Type 0) (k : String) (v : V) (d : Dict V)
    → ((j : String) → P (j, v))
    → All P d
    → All P (insert k v d)
unfolding insert
All-insert P k v [] p h = (p k, tt)
All-insert P k v ((j, w) ∷ d) p (q, h) = elim (Bool-cases (j == k)) [
  | inl e ↦ rw e (p j, h)
  | inr e ↦ rw e (q, All-insert P k v d p h)
]

if_some-none :
    {A : Type 0} (b : Bool) (a : A) (later : Option A)
    → (if b then some a else later) ≡ none
    → (b ≡ false) × (later ≡ none)
if_some-none true a later h = cc
if_some-none false a later h = (refl, h)

module _ (R : Runtime) where
  -- The rounding of a value that is not above the bound.
  abbrev pub IsBounded : R.Float → R.Float → Type 0
  IsBounded bound x = (y : R.Float) × (x ≡ R.round y 8) × (R.lt bound y ≡ false)

  abbrev pub AllBounded : R.Float → Dict R.Float → Type 0
  AllBounded bound d = All (λ (e : String × R.Float). IsBounded bound e.1) d

  any_over-insert :
      (symbol : String) (v x bound : R.Float) (symbols : List String) (d : Dict R.Float)
      → contains symbol symbols ≡ false
      → any_over R d x bound symbols ≡ false
      → any_over R (insert symbol v d) x bound symbols ≡ false
  unfolding any_over contains
  any_over-insert symbol v x bound [] d n h = refl
  any_over-insert symbol v x bound (s ∷ rest) d n h =
      let apart : (symbol == s) ≡ false = ground (arith, n) in
      let later : contains symbol rest ≡ false = ground (arith, n) in
      let here : R.lt bound (R.add (exposure_of R d s) x) ≡ false = ground (arith, h) in
      let there : any_over R d x bound rest ≡ false = ground (arith, h) in
      let kept : lookup s (insert symbol v d) ≡ lookup s d =
        lookup-insert symbol s v d ∙ rw apart refl in
      rw (kept, here) (any_over-insert symbol v x bound rest d later there)

  -- Exposures that the check lets through stay bounded, if no symbol is listed twice.
  with_exposure-AllBounded :
      (x bound : R.Float) (symbols : List String) (d : Dict R.Float)
      → NoRepeats symbols
      → any_over R d x bound symbols ≡ false
      → AllBounded bound d
      → AllBounded bound (with_exposure R x symbols d)
  unfolding any_over with_exposure
  with_exposure-AllBounded x bound [] d n h a = a
  with_exposure-AllBounded x bound (symbol ∷ rest) d (n, ns) h a =
      let here : R.lt bound (R.add (exposure_of R d symbol) x) ≡ false = ground (arith, h) in
      let there : any_over R d x bound rest ≡ false = ground (arith, h) in
      with_exposure-AllBounded x bound rest _ ns (any_over-insert symbol _ x bound rest d n there) (
        All-insert (λ (e : String × R.Float). IsBounded bound e.1) symbol _ d
          (λ j. (R.add (exposure_of R d symbol) x, refl, here)) a)

  -- What the loop keeps: the exposures and the drawdown are within their limits.
  abbrev pub IsWithin : PortfolioConstraints R.Float → Draft R.Float → Type 0
  IsWithin k d =
      AllBounded k.max_per_symbol_exposure d.exposure_by_symbol
      × (R.lt k.drawdown_budget d.drawdown_usage ≡ false)

  limit_rejection-none :
      (c : Candidate R) (l : List (Candidate R)) (k : PortfolioConstraints R.Float)
      (d : Draft R.Float)
      → limit_rejection R c l k d ≡ none
      → (any_over R d.exposure_by_symbol (per_symbol R c) k.max_per_symbol_exposure c.symbol_scope
          ≡ false)
        × (R.lt k.drawdown_budget (drawdown_after R c k d.drawdown_usage) ≡ false)
  unfolding limit_rejection
  limit_rejection-none c l k d h =
      let (crowded, h2) = if_some-none _ _ _ h in
      let (over, h3) = if_some-none _ _ _ h2 in
      let (leverage, h4) = if_some-none _ _ _ h3 in
      let (drawn, h5) = if_some-none _ _ _ h4 in (over, drawn)

  module _ (authority : Dict (Value R.Float) → PaperAuthority) where
    allocate_candidate-IsWithin :
        (l : List (Candidate R)) (k : PortfolioConstraints R.Float) (regimes : Dict String)
        (c : Candidate R) (d : Draft R.Float)
        → NoRepeats c.symbol_scope
        → IsWithin k d
        → IsWithin k (allocate_candidate R authority l k regimes c d)
    unfolding allocate_candidate
    allocate_candidate-IsWithin l k regimes c d n (a, b) =
        elim (Option-cases (candidate_rejection R authority c regimes)) [
          | inr (r, e) ↦ rw e (a, b)
          | inl e ↦ rw e (elim (Option-cases (limit_rejection R c l k d)) [
            | inr (r, e2) ↦ rw e2 (a, b)
            | inl e2 ↦
                let (over, drawn) = limit_rejection-none c l k d e2 in
                rw e2 (with_exposure-AllBounded _ _ c.symbol_scope _ n over a, drawn)
          ])
        ]

    pub allocate_all-IsWithin :
        (l : List (Candidate R)) (k : PortfolioConstraints R.Float) (regimes : Dict String)
        (rest : List (Candidate R)) (d : Draft R.Float)
        → All (λ (c : Candidate R). NoRepeats c.symbol_scope) rest
        → IsWithin k d
        → IsWithin k (allocate_all R authority l k regimes rest d)
    unfolding allocate_all
    allocate_all-IsWithin l k regimes [] d n w = w
    allocate_all-IsWithin l k regimes (c ∷ rest) d (n, ns) w =
        allocate_all-IsWithin l k regimes rest _ ns
          (allocate_candidate-IsWithin l k regimes c d n w)

    -- A round that leaves no rejection allocates its candidate.
    allocate_candidate-accepted :
        (l : List (Candidate R)) (k : PortfolioConstraints R.Float) (regimes : Dict String)
        (c : Candidate R) (d : Draft R.Float)
        → is_empty (allocate_candidate R authority l k regimes c d).rejections ≡ true
        → (candidate_rejection R authority c regimes ≡ none)
          × (is_empty d.rejections ≡ true)
          × ((allocate_candidate R authority l k regimes c d).allocations
              ≡ d.allocations ++ (allocation_of R c ∷ []))
    unfolding allocate_candidate
    allocate_candidate-accepted l k regimes c d =
        elim (Option-cases (candidate_rejection R authority c regimes)) [
          | inr (r, e) ↦ rw (e, is_empty-append d.rejections (r ∷ [])) ground arith
          | inl e ↦ rw e (elim (Option-cases (limit_rejection R c l k d)) [
            | inr (r, e2) ↦ rw (e2, is_empty-append d.rejections (r ∷ [])) ground arith
            | inl e2 ↦ rw e2 (λ h. (refl, h, refl))
          ])
        ]

    pub allocate_all-accepted :
        (l : List (Candidate R)) (k : PortfolioConstraints R.Float) (regimes : Dict String)
        (rest : List (Candidate R)) (d : Draft R.Float)
        → is_empty (allocate_all R authority l k regimes rest d).rejections ≡ true
        → All (λ (c : Candidate R). candidate_rejection R authority c regimes ≡ none) rest
          × (is_empty d.rejections ≡ true)
          × ((allocate_all R authority l k regimes rest d).allocations
              ≡ d.allocations ++ map (allocation_of R) rest)
    unfolding allocate_all
    allocate_all-accepted l k regimes [] d h = (tt, h, sym (append-nil d.allocations))
    allocate_all-accepted l k regimes (c ∷ rest) d h =
        let (all, h2, e) = allocate_all-accepted l k regimes rest _ h in
        let (here, h3, e2) = allocate_candidate-accepted l k regimes c d h2 in
        (
          (here, all),
          h3,
          e
              ∙ ap (λ (m : List (PortfolioAllocation R.Float)). m ++ map (allocation_of R) rest) e2
              ∙ append_assoc d.allocations (allocation_of R c ∷ []) (map (allocation_of R) rest),
        )
