-- ===== src/Risk/CancelReplace.antt =====
-- src/engine/execution/cancel_replace_manager.py
use proofalpha.Prelude.{ℕ, suc, String, Bool, List, [], ◌++◌, if◌then◌else◌, is_empty, when}
use proofalpha.Prelude.Int.{ℤ, pos, ◌-ℤ◌, ltb_ℤ, leb_ℤ}
use proofalpha.Prelude.Dict.{Dict, lookup, insert, get_or}
use proofalpha.Python.Runtime.{Runtime}
use proofalpha.Python.Convert.{Result, ok, ◌>>=◌}
use proofalpha.Python.Clock.{parse_utc}
use proofalpha.Risk.Guards.{seconds}

pub record CancelReplaceBudget : Type 0 where
  pub max_amends : ℤ
  pub max_cancel_replace : ℤ
  pub maker_timeout_seconds : ℤ

pub record CancelReplaceDecision : Type 0 where
  pub allowed : Bool
  pub action : String
  pub reasons : List String

pub record CancelReplaceManager : Type 0 where
  pub budget : CancelReplaceBudget
  pub amends_by_order : Dict ℕ
  pub cancel_replace_count : ℕ

-- `CancelReplaceManager(budget)`
abbrev pub new_manager : CancelReplaceBudget → CancelReplaceManager
new_manager budget = record { budget = budget; amends_by_order = []; cancel_replace_count = 0 }

-- `self._amends_by_order.get(order_id, 0)`
abbrev pub amends_of : String → CancelReplaceManager → ℕ
amends_of order_id m = get_or (lookup order_id m.amends_by_order) 0

-- `max(a, b)`
abbrev max_ℤ : ℤ → ℤ → ℤ
max_ℤ a b = if ltb_ℤ a b then b else a

-- the reasons of `evaluate`, from the age of the order in microseconds
unfoldable pub hold_reasons : String → ℤ → ℤ → CancelReplaceManager → List String
hold_reasons order_id age amend_count m =
    when (ltb_ℤ age (seconds m.budget.maker_timeout_seconds)) "maker_timeout_not_reached"
    ++ (when (leb_ℤ m.budget.max_amends (max_ℤ amend_count (pos (amends_of order_id m))))
          "max_amends_reached"
        ++ when (leb_ℤ m.budget.max_cancel_replace (pos m.cancel_replace_count))
            "cancel_replace_budget_exhausted")

abbrev pub decision_of : List String → CancelReplaceDecision
decision_of reasons = record {
  allowed = is_empty reasons;
  action = if is_empty reasons then "cancel_replace" else "hold";
  reasons = reasons;
}

-- `evaluate`: order id, creation time, present time, amend count as the caller knows it
unfoldable pub evaluate :
    (R : Runtime)
    → String
    → String
    → String
    → ℤ
    → CancelReplaceManager
    → Result CancelReplaceDecision
unfolding hold_reasons
evaluate R order_id created_at_utc now_utc amend_count m = parse_utc R now_utc >>= λ now.
    parse_utc R created_at_utc >>= λ created.
    ok (decision_of (hold_reasons order_id (now -ℤ created) amend_count m))

unfoldable pub record_amend : String → CancelReplaceManager → CancelReplaceManager
record_amend order_id m = record m {
  amends_by_order = insert order_id (suc (amends_of order_id m)) m.amends_by_order;
  cancel_replace_count = suc m.cancel_replace_count;
}
