-- ===== src/Orders/Intent.antt =====
-- src/engine/execution/order_intent.py: the order intent, its content hash and its validation, and
-- src/engine/execution/idempotency.py: the client order id.
use proofalpha.Prelude.{
  String, Bool, not, List, ◌∷◌, [], ◌++◌, ◌==◌, ◌&&◌, if◌then◌else◌, is_empty, when, contains,
  concat, slice,
}
use proofalpha.Python.Runtime.{Runtime, Value, bool, float, text, object, fields}
use proofalpha.Python.Convert.{min}

pub record InternalOrderIntent (Float : Type 0) : Type 0 where
  pub intent_id : String
  pub artifact_id : String
  pub portfolio_plan_id : String
  pub symbol : String
  pub desired_position_delta : Float
  pub side : String
  pub intent_type : String
  pub urgency : String
  pub reduce_only_required : Bool
  pub max_slippage_bps : Float
  pub max_spread_bps : Float
  pub max_participation_rate : Float
  pub funding_guard_policy : String
  pub liquidation_guard_policy : String
  pub created_at : String
  pub expires_at : String

abbrev pub valid_sides : List String
valid_sides = "BUY" ∷ "SELL" ∷ []

abbrev pub valid_intent_types : List String
valid_intent_types = "open" ∷ "increase" ∷ "reduction" ∷ "close" ∷ []

abbrev pub valid_urgency : List String
valid_urgency = "low" ∷ "normal" ∷ "urgent" ∷ []

pub record InternalOrderIntentValidation : Type 0 where
  pub passed : Bool
  pub issues : List String

module _ (R : Runtime) where
  -- The keyword arguments of `InternalOrderIntent.create`: an intent with no id yet.
  abbrev intent_payload : InternalOrderIntent R.Float → Value R.Float
  intent_payload i = object (
      fields (
        ("artifact_id", text i.artifact_id)
        ∷ ("portfolio_plan_id", text i.portfolio_plan_id)
        ∷ ("symbol", text i.symbol)
        ∷ ("desired_position_delta", float i.desired_position_delta)
        ∷ ("side", text i.side)
        ∷ ("intent_type", text i.intent_type)
        ∷ ("urgency", text i.urgency)
        ∷ ("reduce_only_required", bool i.reduce_only_required)
        ∷ ("max_slippage_bps", float i.max_slippage_bps)
        ∷ ("max_spread_bps", float i.max_spread_bps)
        ∷ ("max_participation_rate", float i.max_participation_rate)
        ∷ ("funding_guard_policy", text i.funding_guard_policy)
        ∷ ("liquidation_guard_policy", text i.liquidation_guard_policy)
        ∷ ("created_at", text i.created_at)
        ∷ ("expires_at", text i.expires_at)
        ∷ []))

  -- `InternalOrderIntent.create`, its keyword arguments given as a draft whose `intent_id` is not
  -- read: the side is upper-cased and the id is the first 48 digits of the content hash.
  unfoldable pub create : InternalOrderIntent R.Float → InternalOrderIntent R.Float
  create draft =
      let payload = record draft { side = R.upper draft.side } in
      record payload { intent_id = slice (R.stable_hash (intent_payload payload)) 0 48 }

  -- `not all(math.isfinite(…))`, `elif min(risk_bounds) < 0`
  unfoldable pub risk_bound_issues : InternalOrderIntent R.Float → List String
  risk_bound_issues i =
      if not (
        R.is_finite i.max_slippage_bps
        && R.is_finite i.max_spread_bps
        && R.is_finite i.max_participation_rate)
      then "non_finite_risk_bound" ∷ []
      else when
          (R.lt (min R (min R i.max_slippage_bps i.max_spread_bps) i.max_participation_rate)
            (R.lit 0 0))
          "negative_risk_bound"

  unfoldable pub issues_of : InternalOrderIntent R.Float → List String
  unfolding risk_bound_issues
  issues_of i =
      when (i.intent_id == "") "missing_intent_id"
      ++ (when (i.artifact_id == "") "missing_artifact_id"
          ++ (when (i.portfolio_plan_id == "") "missing_portfolio_plan_id"
              ++ (when (i.symbol == "") "missing_symbol"
                  ++ (when (i.created_at == "") "missing_created_at"
                      ++ (when (i.expires_at == "") "missing_expires_at"
                          ++ (when (not (contains i.side valid_sides)) "invalid_side"
                              ++ (when (not (contains i.intent_type valid_intent_types))
                                    "invalid_intent_type"
                                  ++ (when (not (contains i.urgency valid_urgency))
                                        "invalid_urgency"
                                      ++ (when (i.reduce_only_required && not (i.side == "SELL"))
                                            "reduce_only_side_mismatch"
                                          ++ (when (not (R.is_finite i.desired_position_delta))
                                                "non_finite_desired_position_delta"
                                              ++ (when (R.eq i.desired_position_delta (R.lit 0 0))
                                                    "zero_desired_position_delta"
                                                  ++ (risk_bound_issues i
                                                      ++ (when
                                                            (R.lt (R.lit 1 0)
                                                            i.max_participation_rate)
                                                            "participation_rate_gt_one"
                                                          ++ (when (i.funding_guard_policy == "")
                                                            "missing_funding_guard_policy"
                                                            ++ when
                                                            (i.liquidation_guard_policy == "")
                                                            "missing_liquidation_guard_policy"))))))))))))))

  unfoldable pub validate_internal_order_intent :
      InternalOrderIntent R.Float → InternalOrderIntentValidation
  validate_internal_order_intent i =
      let issues = issues_of i in record { passed = is_empty issues; issues = issues }

  -- src/engine/execution/idempotency.py
  unfoldable pub deterministic_client_order_id : InternalOrderIntent R.Float → String → String
  deterministic_client_order_id i venue = concat "cid-" (
      slice
        (R.stable_hash (
          object (
            fields (
              ("venue", text venue)
              ∷ ("intent_id", text i.intent_id)
              ∷ ("artifact_id", text i.artifact_id)
              ∷ ("portfolio_plan_id", text i.portfolio_plan_id)
              ∷ ("symbol", text i.symbol)
              ∷ ("side", text i.side)
              ∷ ("delta", float i.desired_position_delta)
              ∷ []))))
        0 28)
