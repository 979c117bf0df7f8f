-- ===== src/Venue/Translator.antt =====
-- src/engine/execution/venue_translator/binance_usdm.py and reports.py: an intent becomes an order
-- request within the exchange's rules, or a report of why not.
use proofalpha.Prelude.{
  String, Bool, true, false, not, Option, none, some, List, ◌∷◌, [], ◌++◌, ◌==◌, ◌&&◌, ◌||◌,
  if◌then◌else◌, is_empty, when, contains,
}
use mathlib.Core.Option
use proofalpha.Prelude.Int.{ℤ, pos, ltb_ℤ}
use proofalpha.Python.Runtime.{Runtime}
use proofalpha.Python.Convert.{max}
use proofalpha.Python.Sets.{sorted_set}
use proofalpha.Orders.Intent.{InternalOrderIntent, issues_of}
use proofalpha.Venue.Rules.{Decimals, ExchangeSymbolRules, ExchangeRulesCache, get, max_leverage}
use proofalpha.Venue.Request.{VenueOrderRequest, build_venue_order_request}

pub record BinanceUsdMTranslator (Float : Type 0) : Type 0 where
  pub rules_cache : ExchangeRulesCache Float
  pub position_mode : String
  pub margin_mode : String
  pub leverage : ℤ

-- The keyword arguments of `translate`.
pub record TranslationInput (Float : Type 0) : Type 0 where
  pub quantity : Float
  pub price : Float
  pub timestamp : ℤ
  pub passive : Bool
  pub close_position : Bool
  pub current_position_notional : Option Float

pub record TranslationReport (Float : Type 0) : Type 0 where
  pub passed : Bool
  pub raw_intent : InternalOrderIntent Float
  pub rounded_order : VenueOrderRequest Float
  pub rule_snapshot_hash : String
  pub rejection_reasons : List String
  pub warnings : List String

-- `x not in (None, expected)`
abbrev pub differs : Option String → String → Bool
differs none expected = false
differs (some s) expected = not (s == expected)

abbrev pub time_in_force_of : Bool → String → String
time_in_force_of true urgency = "GTX"
time_in_force_of false urgency = if urgency == "urgent" then "IOC" else "GTC"

abbrev pub position_side_of : String → String → String
position_side_of side position_mode =
    if position_mode == "one_way" then "BOTH" else (if side == "BUY" then "LONG" else "SHORT")

module _ (R : Runtime) where
  abbrev pub zero : R.Float
  zero = R.lit 0 0

  -- `x is None or x <= 0`
  unfoldable pub is_unset : Option R.Float → Bool
  is_unset none = true
  is_unset (some x) = R.le x zero

  -- `x or 0.0`
  unfoldable pub or_zero : Option R.Float → R.Float
  or_zero none = zero
  or_zero (some x) = if R.eq x zero then zero else x

  -- `_is_positive_finite`
  abbrev pub is_positive_finite : R.Float → Bool
  is_positive_finite x = R.is_finite x && R.lt zero x

  -- the two tests of a quantity or a price
  unfoldable pub number_reasons : String → String → R.Float → List String
  number_reasons non_finite not_positive x =
      if not (R.is_finite x) then non_finite ∷ [] else when (R.le x zero) not_positive

  -- `_rule_rejections`
  unfoldable pub rule_rejections : ExchangeSymbolRules R.Float → List String
  rule_rejections rules =
      when (differs rules.status "TRADING") "symbol_not_trading"
      ++ (when (differs rules.contract_type "PERPETUAL") "contract_type_not_perpetual"
          ++ (when (differs rules.quote_asset "USDT") "quote_asset_not_usdt"
              ++ (when (not (contains "LIMIT" rules.order_types)) "limit_order_type_not_allowed"
                  ++ (when (is_unset rules.tick_size) "missing_tick_size"
                      ++ (when (is_unset rules.step_size) "missing_step_size"
                          ++ when (is_unset rules.min_notional) "missing_min_notional")))))

  module _ (D : Decimals R) where
    -- `_round_down_to_increment`
    unfoldable pub round_down_to_increment : R.Float → R.Float → R.Float
    round_down_to_increment value increment =
        if R.le increment zero then value else D.round_down value increment

    -- `rounded_price` and `rounded_quantity`: the increment is `none` if there are no rules
    unfoldable pub rounded : R.Float → Option (Option R.Float) → R.Float
    rounded value none = if is_positive_finite value then value else zero
    rounded value (some increment) =
        if is_positive_finite value then round_down_to_increment value (or_zero increment) else zero

    -- `max_leverage is not None and self.leverage > max_leverage`
    unfoldable pub exceeds : ℤ → Option ℤ → Bool
    exceeds leverage none = false
    exceeds leverage (some bound) = ltb_ℤ bound leverage

    -- the block under `if rules is not None`
    unfoldable pub limit_reasons :
        BinanceUsdMTranslator R.Float
        → TranslationInput R.Float
        → ExchangeSymbolRules R.Float
        → List String
    limit_reasons t x rules =
        rule_rejections rules
        ++ (when
              (R.lt
                (R.mul (rounded x.quantity (some rules.step_size))
                  (rounded x.price (some rules.tick_size)))
                (or_zero rules.min_notional))
              "min_notional_violation"
            ++ when (exceeds t.leverage (max_leverage R D rules.leverage_brackets))
                "leverage_exceeds_symbol_bracket")

    -- the tests of a reduce-only intent, on the rounded notional
    unfoldable pub reduce_only_reasons : R.Float → Option R.Float → List String
    reduce_only_reasons notional none = "reduce_only_without_position" ∷ []
    reduce_only_reasons notional (some held) =
        if R.le held zero
        then "reduce_only_without_position" ∷ []
        else when (R.lt (R.add held (R.lit 1 9)) notional) "reduce_only_exceeds_position"

    unfoldable pub mode_reasons : BinanceUsdMTranslator R.Float → List String
    mode_reasons t =
        when (not (contains t.margin_mode ("cross" ∷ "isolated" ∷ []))) "invalid_margin_mode"
        ++ when (not (contains t.position_mode ("one_way" ∷ "hedge" ∷ []))) "invalid_position_mode"

    -- `reasons`, for the rules found
    unfoldable pub reasons_with :
        BinanceUsdMTranslator R.Float
        → InternalOrderIntent R.Float
        → TranslationInput R.Float
        → Option (ExchangeSymbolRules R.Float)
        → List String
    reasons_with t i x found =
        issues_of R i
        ++ (number_reasons "non_finite_quantity" "quantity_not_positive" x.quantity
            ++ (number_reasons "non_finite_price" "price_not_positive" x.price
                ++ (elim found [
                  | none ↦ "missing_exchange_rules" ∷ []
                  | some rules ↦ limit_reasons t x rules
                ]
                    ++ (mode_reasons t
                        ++ ((if i.reduce_only_required
                              then reduce_only_reasons
                                  (R.mul (rounded x.quantity (Option.map (λ r. r.step_size) found))
                                    (rounded x.price (Option.map (λ r. r.tick_size) found)))
                                  x.current_position_notional
                              else [])
                            ++ (when
                                  (x.close_position
                                    && (not i.reduce_only_required
                                        || not (i.intent_type == "close")))
                                  "close_position_requires_close_reduce_only_intent"
                                ++ elim found [
                                  | none ↦ []
                                  | some rules ↦
                                      when
                                        (time_in_force_of x.passive i.urgency == "GTX"
                                          && not (contains "LIMIT" rules.order_types))
                                        "limit_order_type_not_allowed"
                                ]))))))

    unfoldable pub order_with :
        BinanceUsdMTranslator R.Float
        → InternalOrderIntent R.Float
        → TranslationInput R.Float
        → Option (ExchangeSymbolRules R.Float)
        → VenueOrderRequest R.Float
    order_with t i x found =
        let request = build_venue_order_request R i (record {
          venue = "binance_usdm";
          quantity = max R (rounded x.quantity (Option.map (λ r. r.step_size) found)) zero;
          order_type = "LIMIT";
          time_in_force = some (time_in_force_of x.passive i.urgency);
          price = some (rounded x.price (Option.map (λ r. r.tick_size) found));
          stop_price = none;
          timestamp = x.timestamp;
          position_side = position_side_of i.side t.position_mode;
          working_type = "CONTRACT_PRICE";
          price_protect = true;
          self_trade_prevention_mode = "EXPIRE_TAKER";
          recv_window = pos 5000;
        }) in
        if x.close_position
        then record request { close_position = true; reduce_only = true }
        else request

    unfoldable pub translate :
        BinanceUsdMTranslator R.Float
        → InternalOrderIntent R.Float
        → TranslationInput R.Float
        → TranslationReport R.Float
    translate t i x =
        let found = get t.rules_cache i.symbol in
        let reasons = reasons_with t i x found in
        record {
          passed = is_empty reasons;
          raw_intent = i;
          rounded_order = order_with t i x found;
          rule_snapshot_hash = t.rules_cache.snapshot_hash;
          rejection_reasons = sorted_set reasons;
          warnings = when x.passive "post_only_mapped_to_gtx";
        }
