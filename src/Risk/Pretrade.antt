-- ===== src/Risk/Pretrade.antt =====
-- src/engine/execution/pretrade_checks.py: fifteen checks, and the reasons of those that fail.
use proofalpha.Prelude.{String, Bool, not, List, ◌∷◌, [], if◌then◌else◌, is_empty}
use proofalpha.Prelude.Dict.{Dict}

pub record PreTradeCheckContext : Type 0 where
  pub artifact_approved : Bool
  pub artifact_expired : Bool
  pub symbol_allowed : Bool
  pub paper_mode_allowed : Bool
  pub market_fresh : Bool
  pub book_gap_clean : Bool
  pub reconciliation_clean : Bool
  pub duplicate_client_order_id : Bool
  pub rate_limit_ok : Bool
  pub margin_ok : Bool
  pub venue_rules_ok : Bool
  pub spread_depth_ok : Bool
  pub funding_ok : Bool
  pub liquidation_ok : Bool
  pub portfolio_risk_ok : Bool

pub record PreTradeCheckResult : Type 0 where
  pub passed : Bool
  pub rejections : List String

-- the dict `checks`
unfoldable pub checks : PreTradeCheckContext → Dict Bool
checks c =
    ("artifact_not_approved", c.artifact_approved)
    ∷ ("artifact_expired", not c.artifact_expired)
    ∷ ("symbol_not_allowed", c.symbol_allowed)
    ∷ ("paper_mode_not_allowed", c.paper_mode_allowed)
    ∷ ("market_data_stale", c.market_fresh)
    ∷ ("book_gap_detected", c.book_gap_clean)
    ∷ ("reconciliation_dirty", c.reconciliation_clean)
    ∷ ("duplicate_client_order_id", not c.duplicate_client_order_id)
    ∷ ("rate_limit_block", c.rate_limit_ok)
    ∷ ("margin_leverage_block", c.margin_ok)
    ∷ ("venue_rule_block", c.venue_rules_ok)
    ∷ ("spread_depth_block", c.spread_depth_ok)
    ∷ ("funding_block", c.funding_ok)
    ∷ ("liquidation_block", c.liquidation_ok)
    ∷ ("portfolio_risk_block", c.portfolio_risk_ok)
    ∷ []

-- `[reason for reason, passed in checks.items() if not passed]`
unfoldable pub failing : Dict Bool → List String
failing [] = []
failing ((reason, passed) ∷ d) = if passed then failing d else reason ∷ failing d

unfoldable pub run_pretrade_checks : PreTradeCheckContext → PreTradeCheckResult
run_pretrade_checks c =
    let rejections = failing (checks c) in
    record { passed = is_empty rejections; rejections = rejections }
