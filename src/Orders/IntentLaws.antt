-- ===== src/Orders/IntentLaws.antt =====
-- When an order intent passes validation (src/engine/execution/order_intent.py).
use proofalpha.Prelude.{
  String, Bool, true, false, not, ◌∷◌, [], ◌==◌, ◌&&◌, ◌≡◌, ◌≢◌, ◌↔◌, ◌⊎◌, arith, eq_iff, is_empty,
  is_empty-append, is_empty-when, contains, and_iff, not_iff, ap,
}
use proofalpha.Python.Runtime.{Runtime, IsOrdered}
use proofalpha.Python.Convert.{min}
use proofalpha.Orders.Intent.{
  InternalOrderIntent, risk_bound_issues, issues_of, validate_internal_order_intent,
}

-- What the validation is meant to ensure, said without its code.
pub record IsWellFormed (R : Runtime) (i : InternalOrderIntent R.Float) : Type 0 where
  pub has_intent_id : i.intent_id ≢ ""
  pub has_artifact_id : i.artifact_id ≢ ""
  pub has_plan_id : i.portfolio_plan_id ≢ ""
  pub has_symbol : i.symbol ≢ ""
  pub has_created_at : i.created_at ≢ ""
  pub has_expires_at : i.expires_at ≢ ""
  pub side_known : (i.side ≡ "BUY") ⊎ (i.side ≡ "SELL")
  pub type_known :
      (i.intent_type ≡ "open")
      ⊎ ((i.intent_type ≡ "increase") ⊎ ((i.intent_type ≡ "reduction") ⊎ (i.intent_type ≡ "close")))
  pub urgency_known : (i.urgency ≡ "low") ⊎ ((i.urgency ≡ "normal") ⊎ (i.urgency ≡ "urgent"))
  pub reduce_only_sells : i.reduce_only_required ≡ true → i.side ≡ "SELL"
  pub delta_finite : R.is_finite i.desired_position_delta ≡ true
  pub delta_nonzero : R.eq i.desired_position_delta (R.lit 0 0) ≡ false
  pub slippage_finite : R.is_finite i.max_slippage_bps ≡ true
  pub spread_finite : R.is_finite i.max_spread_bps ≡ true
  pub participation_finite : R.is_finite i.max_participation_rate ≡ true
  pub slippage_nonneg : R.lt i.max_slippage_bps (R.lit 0 0) ≡ false
  pub spread_nonneg : R.lt i.max_spread_bps (R.lit 0 0) ≡ false
  pub participation_nonneg : R.lt i.max_participation_rate (R.lit 0 0) ≡ false
  pub participation_capped : R.lt (R.lit 1 0) i.max_participation_rate ≡ false
  pub has_funding_policy : i.funding_guard_policy ≢ ""
  pub has_liquidation_policy : i.liquidation_guard_policy ≢ ""

nonempty : (s : String) → (s == "") ≡ false → s ≢ ""
nonempty s h = ground (arith, eq_iff s "")

empty_test : (s : String) → s ≢ "" → (s == "") ≡ false
empty_test s h = ground (arith, eq_iff s "")

one_of_two : (s a b : String) → not (contains s (a ∷ b ∷ [])) ≡ false ↔ ((s ≡ a) ⊎ (s ≡ b))
unfolding contains
one_of_two s a b = ground (arith, eq_iff s a, eq_iff s b)

one_of_three :
    (s a b c : String) → not (contains s (a ∷ b ∷ c ∷ [])) ≡ false ↔ ((s ≡ a) ⊎ ((s ≡ b) ⊎ (s ≡ c)))
unfolding contains
one_of_three s a b c = ground (arith, eq_iff s a, eq_iff s b, eq_iff s c)

one_of_four :
    (s a b c d : String)
    → not (contains s (a ∷ b ∷ c ∷ d ∷ [])) ≡ false ↔ ((s ≡ a) ⊎ ((s ≡ b) ⊎ ((s ≡ c) ⊎ (s ≡ d))))
unfolding contains
one_of_four s a b c d = ground (arith, eq_iff s a, eq_iff s b, eq_iff s c, eq_iff s d)

finite_test : (b : Bool) → not b ≡ false → b ≡ true
finite_test b h = ground arith

reduce_only_test :
    (b : Bool) (s : String) → (b && not (s == "SELL")) ≡ false ↔ (b ≡ true → s ≡ "SELL")
reduce_only_test b s = ground (arith, eq_iff s "SELL")

module _ (R : Runtime) (ordered : IsOrdered R) where
  -- Where the smaller of two finite floats is not below `z`, neither is.
  min-nonneg :
      (a b z : R.Float)
      → R.is_finite a ≡ true
      → R.is_finite b ≡ true
      → R.lt (min R a b) z ≡ false
      → (R.lt a z ≡ false) × (R.lt b z ≡ false)
  min-nonneg a b z fa fb h = (
    ground (arith, ordered.lt_trans b a z),
    ground (arith, ordered.not_lt b a fb fa, ordered.le_lt_trans a b z),
  )

  risk_bounds :
      (i : InternalOrderIntent R.Float)
      → is_empty (risk_bound_issues R i) ≡ true
      → (R.is_finite i.max_slippage_bps ≡ true)
        × (R.is_finite i.max_spread_bps ≡ true)
        × (R.is_finite i.max_participation_rate ≡ true)
        × (R.lt i.max_slippage_bps (R.lit 0 0) ≡ false)
        × (R.lt i.max_spread_bps (R.lit 0 0) ≡ false)
        × (R.lt i.max_participation_rate (R.lit 0 0) ≡ false)
  unfolding risk_bound_issues
  risk_bounds i h = ground (
    arith,
    min-nonneg (min R i.max_slippage_bps i.max_spread_bps) i.max_participation_rate (R.lit 0 0),
    min-nonneg i.max_slippage_bps i.max_spread_bps (R.lit 0 0),
  )

  no_risk_issue :
      (i : InternalOrderIntent R.Float) → IsWellFormed R i → is_empty (risk_bound_issues R i) ≡ true
  unfolding risk_bound_issues
  no_risk_issue i w = ground arith

  empty_issues :
      (i : InternalOrderIntent R.Float) → is_empty (issues_of R i) ≡ true → IsWellFormed R i
  unfolding issues_of
  empty_issues i h =
      let e = (simp (is_empty-append, is_empty-when, and_iff, not_iff) at h) in
      let b = risk_bounds i e.1.1.1.1.1.1.1.1.1.1.1.1.0 in
      record {
        has_intent_id = nonempty _ e.0;
        has_artifact_id = nonempty _ e.1.0;
        has_plan_id = nonempty _ e.1.1.0;
        has_symbol = nonempty _ e.1.1.1.0;
        has_created_at = nonempty _ e.1.1.1.1.0;
        has_expires_at = nonempty _ e.1.1.1.1.1.0;
        side_known = (one_of_two i.side _ _).0 e.1.1.1.1.1.1.0;
        type_known = (one_of_four i.intent_type _ _ _ _).0 e.1.1.1.1.1.1.1.0;
        urgency_known = (one_of_three i.urgency _ _ _).0 e.1.1.1.1.1.1.1.1.0;
        reduce_only_sells =
            (reduce_only_test i.reduce_only_required i.side).0 e.1.1.1.1.1.1.1.1.1.0;
        delta_finite = finite_test _ e.1.1.1.1.1.1.1.1.1.1.0;
        delta_nonzero = e.1.1.1.1.1.1.1.1.1.1.1.0;
        slippage_finite = b.0;
        spread_finite = b.1;
        participation_finite = b.2;
        slippage_nonneg = b.3;
        spread_nonneg = b.4;
        participation_nonneg = b.5;
        participation_capped = e.1.1.1.1.1.1.1.1.1.1.1.1.1.0;
        has_funding_policy = nonempty _ e.1.1.1.1.1.1.1.1.1.1.1.1.1.1.0;
        has_liquidation_policy = nonempty _ e.1.1.1.1.1.1.1.1.1.1.1.1.1.1.1;
      }

  well_formed_passes :
      (i : InternalOrderIntent R.Float) → IsWellFormed R i → is_empty (issues_of R i) ≡ true
  unfolding issues_of
  well_formed_passes i w =
      simp (is_empty-append, is_empty-when, and_iff, not_iff)
        (
          empty_test _ w.has_intent_id,
          (
            empty_test _ w.has_artifact_id,
            (
              empty_test _ w.has_plan_id,
              (
                empty_test _ w.has_symbol,
                (
                  empty_test _ w.has_created_at,
                  (
                    empty_test _ w.has_expires_at,
                    (
                      (one_of_two i.side _ _).1 w.side_known,
                      (
                        (one_of_four i.intent_type _ _ _ _).1 w.type_known,
                        (
                          (one_of_three i.urgency _ _ _).1 w.urgency_known,
                          (
                            (reduce_only_test i.reduce_only_required i.side).1 w.reduce_only_sells,
                            (
                              ap not w.delta_finite,
                              (
                                w.delta_nonzero,
                                (
                                  no_risk_issue i w,
                                  (
                                    w.participation_capped,
                                    (
                                      empty_test _ w.has_funding_policy,
                                      empty_test _ w.has_liquidation_policy,
                                    ),
                                  ),
                                ),
                              ),
                            ),
                          ),
                        ),
                      ),
                    ),
                  ),
                ),
              ),
            ),
          ),
        )

  -- Over floats that compare as IEEE 754 demands, an intent passes validation exactly when it is
  -- well formed: ids, dates and policies are there, the side, type and urgency are known ones,
  -- reduce-only goes with SELL, the delta is finite and not zero, the three risk bounds are finite
  -- and not negative, and the participation rate is not above one.
  pub validate_iff :
      (i : InternalOrderIntent R.Float)
      → ((validate_internal_order_intent R i).passed ≡ true) ↔ IsWellFormed R i
  unfolding validate_internal_order_intent
  validate_iff i = (empty_issues i, well_formed_passes i)
