-- ===== src/Venue/Tests.antt =====
-- Runs of src/engine/execution/venue_translator/binance_usdm.py, and the theorems about it at a
-- concrete input.
use proofalpha.Prelude.{
  ◌*◌, ◌/◌, true, false, none, some, ◌∷◌, [], ◌≡◌, ◌↔◌, refl, is_empty, contains,
}
use proofalpha.Prelude.Dict.{lookup}
use proofalpha.Prelude.Int.{ℤ, pos, magnitude}
use proofalpha.Python.Runtime.{int}
use proofalpha.Python.Fixed.{fixed}
use proofalpha.Orders.Intent.{InternalOrderIntent, issues_of, risk_bound_issues}
use proofalpha.Venue.Rules.{
  Decimals, ExchangeSymbolRules, get, max_leverage, larger, bracket_leverage,
}
use proofalpha.Venue.Translator.{
  zero, BinanceUsdMTranslator, TranslationInput, translate, reasons_with, number_reasons,
  limit_reasons, rule_rejections, is_unset, rounded, round_down_to_increment, or_zero, exceeds,
  mode_reasons, reduce_only_reasons,
}
use proofalpha.Venue.Request.{metadata, validate_venue_order_request}
use proofalpha.Venue.Validity.{validate_translated}
use proofalpha.Venue.Translation.{IsSendable, translate_passed_iff}

-- Numbers of the concrete runtime count units of 10⁻⁹, and these are not negative.
abbrev whole : Decimals fixed
whole = record {
  round_down = λ v i. pos (magnitude v / magnitude i * magnitude i);
  int_of_digits = λ s. none;
}

abbrev btc_rules : ExchangeSymbolRules ℤ
btc_rules = record {
  symbol = "BTCUSDT";
  tick_size = some (pos 100000000);
  step_size = some (pos 1000000);
  min_notional = some (pos 5000000000);
  order_types = "LIMIT" ∷ "MARKET" ∷ [];
  leverage_brackets =
      (("initialLeverage", int (pos 20)) ∷ []) ∷ (("initialLeverage", int (pos 125)) ∷ []) ∷ [];
  margin_asset = some "USDT";
  status = some "TRADING";
  contract_type = some "PERPETUAL";
  quote_asset = none;
}

abbrev translator : BinanceUsdMTranslator ℤ
translator = record {
  rules_cache = record {
    source = "fixture";
    created_at_utc = "2026-01-01";
    symbols = ("BTCUSDT", btc_rules) ∷ [];
    snapshot_hash = "h";
  };
  position_mode = "one_way";
  margin_mode = "cross";
  leverage = pos 10;
}

abbrev opening : InternalOrderIntent ℤ
opening = record {
  intent_id = "i1";
  artifact_id = "a1";
  portfolio_plan_id = "p1";
  symbol = "BTCUSDT";
  desired_position_delta = pos 12345678;
  side = "BUY";
  intent_type = "open";
  urgency = "normal";
  reduce_only_required = false;
  max_slippage_bps = pos 5000000000;
  max_spread_bps = pos 5000000000;
  max_participation_rate = pos 100000000;
  funding_guard_policy = "block";
  liquidation_guard_policy = "block";
  created_at = "2026-01-01";
  expires_at = "2026-01-02";
}

abbrev asked : TranslationInput ℤ
asked = record {
  quantity = pos 12345678;
  price = pos 50000123456789;
  timestamp = pos 1;
  passive = true;
  close_position = false;
  current_position_notional = none;
}

translation_passed : (translate fixed whole translator opening asked).passed ≡ true
unfolding translate reasons_with issues_of risk_bound_issues contains number_reasons get lookup
    limit_reasons rule_rejections is_unset rounded round_down_to_increment or_zero exceeds
    max_leverage larger bracket_leverage mode_reasons reduce_only_reasons
translation_passed = refl

translate_passed_iff_example :
    (((translate fixed whole translator opening asked).passed ≡ true) ↔ (
      (rules : ExchangeSymbolRules ℤ) × (get translator.rules_cache "BTCUSDT" ≡ some rules)
      × IsSendable fixed whole translator opening asked rules))
    × (is_empty (translate fixed whole translator opening asked).rejection_reasons
        ≡ (translate fixed whole translator opening asked).passed)
translate_passed_iff_example = translate_passed_iff fixed whole translator opening asked

validate_translated_example :
    ((validate_venue_order_request fixed
        (translate fixed whole translator opening asked).rounded_order).passed
      ≡ true)
    ↔ (fixed.le (translate fixed whole translator opening asked).rounded_order.quantity (zero fixed)
        ≡ false)
unfolding metadata
validate_translated_example =
    validate_translated fixed whole translator opening asked refl translation_passed
