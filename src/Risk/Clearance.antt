-- ===== src/Risk/Clearance.antt =====
-- When the checks before a trade pass, and what they report (src/engine/execution/pretrade_checks.py).
use proofalpha.Prelude.{
  String, Bool, true, false, ◌∷◌, [], ◌≡◌, ◌↔◌, some, none, arith, eq_iff, is_empty, contains, All,
}
use proofalpha.Prelude.Dict.{Dict, lookup}
use proofalpha.Risk.Pretrade.{PreTradeCheckContext, checks, failing, run_pretrade_checks}

-- No key stands twice.
abbrev IsKeyed : Dict Bool → Type 0
IsKeyed [] = Unit
IsKeyed ((k, v) ∷ d) = (lookup k d ≡ none) × IsKeyed d

contains-failing :
    (reason : String) (d : Dict Bool)
    → IsKeyed d
    → (contains reason (failing d) ≡ true) ↔ (lookup reason d ≡ some false)
unfolding failing contains lookup
contains-failing reason [] h = ground arith
contains-failing reason ((k, true) ∷ d) h =
    let ih = contains-failing reason d h.1 in ground (arith, eq_iff k reason)
contains-failing reason ((k, false) ∷ d) h =
    let ih = contains-failing reason d h.1 in ground (arith, eq_iff k reason, eq_iff reason k)

-- What a context must satisfy for a trade, check by check.
pub record IsClear (c : PreTradeCheckContext) : Type 0 where
  pub approved : c.artifact_approved ≡ true
  pub unexpired : c.artifact_expired ≡ false
  pub symbol : c.symbol_allowed ≡ true
  pub paper_mode : c.paper_mode_allowed ≡ true
  pub market : c.market_fresh ≡ true
  pub book : c.book_gap_clean ≡ true
  pub reconciled : c.reconciliation_clean ≡ true
  pub fresh_id : c.duplicate_client_order_id ≡ false
  pub rate_limit : c.rate_limit_ok ≡ true
  pub margin : c.margin_ok ≡ true
  pub venue_rules : c.venue_rules_ok ≡ true
  pub spread_depth : c.spread_depth_ok ≡ true
  pub funding : c.funding_ok ≡ true
  pub liquidation : c.liquidation_ok ≡ true
  pub portfolio_risk : c.portfolio_risk_ok ≡ true

checks-IsKeyed : (c : PreTradeCheckContext) → IsKeyed (checks c)
unfolding checks lookup
checks-IsKeyed c = ground arith

no_failing : (d : Dict Bool) → (is_empty (failing d) ≡ true) ↔ All (λ e. e.1 ≡ true) d
unfolding failing
no_failing [] = ground arith
no_failing ((k, b) ∷ d) = let ih = no_failing d in ground arith

clear_checks : (c : PreTradeCheckContext) → IsClear c → All (λ e. e.1 ≡ true) (checks c)
unfolding checks
clear_checks c h = ground arith

checks-IsClear : (c : PreTradeCheckContext) → All (λ e. e.1 ≡ true) (checks c) → IsClear c
unfolding checks
checks-IsClear c h = ground arith

-- The checks before a trade pass exactly when all fifteen conditions hold, and a text is among the
-- rejections exactly when it is the reason of a check that failed: no failed check goes
-- unreported, and none is reported that passed.
pub run_pretrade_checks_iff :
    (c : PreTradeCheckContext)
    → let result = run_pretrade_checks c in
      ((result.passed ≡ true) ↔ IsClear c)
      × ((reason : String)
          → (contains reason result.rejections ≡ true) ↔ (lookup reason (checks c) ≡ some false))
unfolding run_pretrade_checks
run_pretrade_checks_iff c = (
  (
    λ h. checks-IsClear c ((no_failing (checks c)).0 h),
    λ h. (no_failing (checks c)).1 (clear_checks c h),
  ),
  λ reason. contains-failing reason (checks c) (checks-IsKeyed c),
)
