-- ===== src/Portfolio/RiskLimits.antt =====
-- What passing the risk budget of a portfolio means (src/engine/portfolio/risk_budget.py).
use proofalpha.Prelude.{
  String, true, false, Option, none, some, List, ◌∷◌, [], ◌==◌, ◌≡◌, ◌↔◌, refl, sym, ap, ◌∙◌, arith,
  if◌then◌else◌, is_empty, is_empty-append, empty_iff_and, empty_when, concat, map, All, Bool-cases,
  inl, inr, eq_iff, eq_refl,
}
use proofalpha.Prelude.Dict.{Dict, lookup, insert, get_or, lookup-insert}
use proofalpha.Python.Runtime.{Runtime}
use proofalpha.Portfolio.Target.{number_fields}
use proofalpha.Portfolio.RiskBudget.{
  Weighing, Target, Budget, non_finite_names, budget_fields, budget_rejections,
  target_non_finite_fields, cluster_of, beta_of, weighed, weigh_all, cluster_rejections,
}

is_empty-map : {A B : Type 0} (f : A → B) (l : List A) → is_empty (map f l) ≡ is_empty l
is_empty-map f [] = refl
is_empty-map f (a ∷ l) = refl

empty_is_nil : {A : Type 0} (l : List A) → is_empty l ≡ true → l ≡ []
empty_is_nil [] h = refl
empty_is_nil (a ∷ l) h = cc

pub lookup-All :
    {V : Type 0} (P : String × V → Type 0) (k : String) (v : V) (d : Dict V)
    → All P d
    → lookup k d ≡ some v
    → P (k, v)
unfolding lookup
lookup-All P k v [] a h = cc
lookup-All P k v ((j, w) ∷ d) (p, a) h = elim (Bool-cases (j == k)) [
  | inl e ↦
      let same_key : j ≡ k = ground (arith, e, eq_iff j k) in
      let found : some w ≡ some v = sym (rw e refl) ∙ h in
      let same : w ≡ v = cc in rw (sym same_key, sym same) p
  | inr e ↦ lookup-All P k v d a (sym (rw e refl) ∙ h)
]

-- Every key of the dict stands there once.
abbrev pub Unique : {V : Type 0} → Dict V → Type 0
Unique [] = Unit
Unique ((k, v) ∷ d) = (lookup k d ≡ none) × Unique d

insert-Unique : {V : Type 0} (k : String) (v : V) (d : Dict V) → Unique d → Unique (insert k v d)
unfolding insert
insert-Unique k v [] u = (unfold lookup in refl, tt)
insert-Unique k v ((j, w) ∷ d) (n, u) = elim (Bool-cases (j == k)) [
  | inl e ↦ rw e (n, u)
  | inr e ↦
      let apart : (k == j) ≡ false = ground (arith, e, eq_iff j k, eq_iff k j) in
      rw e ((lookup-insert k j v d ∙ rw apart refl) ∙ n, insert-Unique k v d u)
]

pub All-lookup :
    {V : Type 0} (P : String × V → Type 0) (d : Dict V)
    → Unique d
    → ((k : String) (v : V) → lookup k d ≡ some v → P (k, v))
    → All P d
unfolding lookup
All-lookup P [] u h = tt
All-lookup P ((j, w) ∷ d) (n, u) h = (
  h j w (rw (eq_refl j) refl),
  All-lookup P d u (λ k v found. elim (Bool-cases (j == k)) [
    | inl e ↦
        let same_key : j ≡ k = ground (arith, e, eq_iff j k) in
        let missing : lookup k d ≡ none = ap (λ i. lookup i d) (sym same_key) ∙ n in cc
    | inr e ↦ h k v (rw e found)
  ]),
)

module _ (R : Runtime) where
  abbrev pub AreFinite : List (String × R.Float) → Type 0
  AreFinite d = All (λ (e : String × R.Float). R.is_finite e.1 ≡ true) d

  -- what the loop asks of a target by itself
  abbrev pub IsTargetWithin : Budget R → Target R → Type 0
  IsTargetWithin b t =
      AreFinite (number_fields R t)
      × (R.lt b.max_symbol_weight (R.abs t.target_weight) ≡ false)
      × (R.lt b.max_funding_cost_bps t.max_funding_cost_bps ≡ false)

  -- The gross weight of the targets of a cluster after some others of weight `w`.
  pub cluster_total :
      (b : Budget R) (cluster : String) (w : Option R.Float) (targets : List (Target R))
      → Option R.Float
  cluster_total b cluster w [] = w
  cluster_total b cluster w (t ∷ rest) =
      cluster_total b cluster
        (if cluster_of R b t == cluster
          then some (R.add (get_or w (R.lit 0 0)) (R.abs t.target_weight))
          else w)
        rest

  -- The sum of the exposures of the targets to an asset, on top of `x`.
  pub beta_total : Budget R → String → R.Float → List (Target R) → R.Float
  beta_total b asset x [] = x
  beta_total b asset x (t ∷ rest) = beta_total b asset (R.add x (beta_of R b asset t)) rest

  non_finite_names_iff :
      (d : List (String × R.Float)) → (is_empty (non_finite_names R d) ≡ true) ↔ AreFinite d
  unfolding non_finite_names
  non_finite_names_iff [] = (λ h. tt, λ h. refl)
  non_finite_names_iff ((name, x) ∷ d) =
      empty_iff_and _ _ (empty_when _ _ (ground arith)) (non_finite_names_iff d)

  weighed-Within :
      (b : Budget R) (t : Target R) (w : Weighing R.Float) (names : List String)
      → (is_empty (weighed R b t w names).rejections ≡ true) ↔ (
          (is_empty w.rejections ≡ true)
          × ((is_empty names ≡ true)
              × ((R.lt b.max_symbol_weight (R.abs t.target_weight) ≡ false)
                  × (R.lt b.max_funding_cost_bps t.max_funding_cost_bps ≡ false))))
  weighed-Within b t w [] =
      let caps =
        empty_iff_and _ _ (λ h. h, λ h. h)
          (empty_iff_and _ _ (empty_when _ (concat "symbol_cap:" t.symbol) (λ h. h, λ h. h))
            (empty_when _ (concat "funding_budget:" t.symbol) (λ h. h, λ h. h))) in
      (λ h. let (a, c) = caps.0 h in (a, (refl, c)), λ (a, (e, c)). caps.1 (a, c))
  weighed-Within b t w (name ∷ names) = (
    λ h. let apart = sym (is_empty-append w.rejections _) ∙ h in ground (arith, apart),
    λ (a, (e, c)). cc,
  )

  pub weigh_all_iff :
      (b : Budget R) (targets : List (Target R)) (w : Weighing R.Float)
      → (is_empty (weigh_all R b targets w).rejections ≡ true)
        ↔ ((is_empty w.rejections ≡ true) × All (IsTargetWithin b) targets)
  unfolding weigh_all
  weigh_all_iff b [] w = (λ h. (h, tt), λ (h, t). h)
  weigh_all_iff b (t ∷ rest) w =
      let later = weigh_all_iff b rest (weighed R b t w (target_non_finite_fields R t)) in
      let here = weighed-Within b t w (target_non_finite_fields R t) in
      let finite = non_finite_names_iff (number_fields R t) in
      (
        λ h.
            let (a, ts) = later.0 h in
            let (a2, (n, caps)) = here.0 a in (a2, ((finite.0 n, caps.0, caps.1), ts)),
        λ (a2, ((n, c, d), ts)). later.1 (here.1 (a2, (finite.1 n, (c, d))), ts),
      )

  same_total :
      (cluster c : String) (d : Dict R.Float) (x : R.Float)
      → (if c == cluster
          then some (R.add (get_or (lookup c d) (R.lit 0 0)) x)
          else lookup cluster d)
        ≡ (if c == cluster
            then some (R.add (get_or (lookup cluster d) (R.lit 0 0)) x)
            else lookup cluster d)
  same_total cluster c d x = elim (Bool-cases (c == cluster)) [
    | inl e ↦ let same : c ≡ cluster = ground (arith, e, eq_iff c cluster) in rw same refl
    | inr e ↦ rw e refl
  ]

  pub weigh_all-totals :
      (b : Budget R) (targets : List (Target R)) (w : Weighing R.Float)
      → All (IsTargetWithin b) targets
      → ((cluster : String)
          → lookup cluster (weigh_all R b targets w).cluster_weight
            ≡ cluster_total b cluster (lookup cluster w.cluster_weight) targets)
        × ((weigh_all R b targets w).btc_beta ≡ beta_total b "BTC" w.btc_beta targets)
        × ((weigh_all R b targets w).eth_beta ≡ beta_total b "ETH" w.eth_beta targets)
  unfolding weigh_all cluster_total beta_total
  weigh_all-totals b [] w h = (λ cluster. refl, refl, refl)
  weigh_all-totals b (t ∷ rest) w ((n, c, d), ts) =
      let no_names : target_non_finite_fields R t ≡ [] =
        empty_is_nil _ ((non_finite_names_iff (number_fields R t)).1 n) in
      let step : weigh_all R b (t ∷ rest) w ≡ weigh_all R b rest (weighed R b t w []) =
        ap (λ names. weigh_all R b rest (weighed R b t w names)) no_names in
      let (clusters, btc, eth) = weigh_all-totals b rest (weighed R b t w []) ts in
      (
        λ cluster.
            ap (λ (x : Weighing R.Float). lookup cluster x.cluster_weight) step
            ∙ clusters cluster
            ∙ ap (λ o. cluster_total b cluster o rest)
                (lookup-insert (cluster_of R b t) cluster _ w.cluster_weight
                  ∙ same_total cluster (cluster_of R b t) w.cluster_weight (R.abs t.target_weight)),
        ap (λ (x : Weighing R.Float). x.btc_beta) step ∙ btc,
        ap (λ (x : Weighing R.Float). x.eth_beta) step ∙ eth,
      )

  weighed-Unique :
      (b : Budget R) (t : Target R) (w : Weighing R.Float) (names : List String)
      → Unique w.cluster_weight
      → Unique (weighed R b t w names).cluster_weight
  weighed-Unique b t w [] u = insert-Unique (cluster_of R b t) _ w.cluster_weight u
  weighed-Unique b t w (n ∷ names) u = u

  pub weigh_all-Unique :
      (b : Budget R) (targets : List (Target R)) (w : Weighing R.Float)
      → Unique w.cluster_weight
      → Unique (weigh_all R b targets w).cluster_weight
  unfolding weigh_all
  weigh_all-Unique b [] w u = u
  weigh_all-Unique b (t ∷ rest) w u =
      weigh_all-Unique b rest _ (weighed-Unique b t w (target_non_finite_fields R t) u)

  pub cluster_rejections_iff :
      (bound : R.Float) (d : Dict R.Float)
      → (is_empty (cluster_rejections R bound d) ≡ true)
        ↔ All (λ (e : String × R.Float). R.lt bound e.1 ≡ false) d
  unfolding cluster_rejections
  cluster_rejections_iff bound [] = (λ h. tt, λ h. refl)
  cluster_rejections_iff bound ((cluster, x) ∷ d) =
      empty_iff_and _ _ (empty_when _ _ (λ h. h, λ h. h)) (cluster_rejections_iff bound d)

  pub budget_rejections_iff :
      (b : Budget R) → (is_empty (budget_rejections R b) ≡ true) ↔ AreFinite (budget_fields R b)
  budget_rejections_iff b =
      let names = non_finite_names R (budget_fields R b) in
      let same = is_empty-map (concat "budget_non_finite:") names in
      let finite = non_finite_names_iff (budget_fields R b) in
      (λ h. finite.0 (sym same ∙ h), λ h. same ∙ finite.1 h)
