-- ===== src/Reconcile/Accounting.antt =====
-- src/engine/execution/reconciliation.py: the accounting tables that are rebuilt from the execution
-- journal after the projections.
use proofalpha.Prelude.{
  String, Bool, false, Option, none, some, List, ◌∷◌, [], ◌==◌, ◌||◌, if◌then◌else◌,
}
use proofalpha.Prelude.Int.{pos}
use proofalpha.Prelude.Dict.{Dict, lookup, get_or}
use proofalpha.Prelude.Rows.{replace_row}
use proofalpha.Python.Runtime.{Runtime, Value, Fields, field, end, int}
use proofalpha.Python.Convert.{err, ok, truth, str, to_float}
use proofalpha.Store.Events.{ExecutionEvent}
use proofalpha.Store.Tables.{RiskScope}
use proofalpha.Store.Rebuild.{event_fill_id, str_or_none}
use proofalpha.Reconcile.Ledgers.{FeeRow, FundingRow, PnlRow, CashRow, EquityRow}

abbrev pub fields_get : {Float : Type 0} → String → Fields Float → Option (Value Float)
fields_get k end = none
fields_get k (field j v f) = if j == k then some v else fields_get k f

abbrev optional : {A : Type 0} → Option A → (A → List A) → List A
optional none f = []
optional (some a) f = f a

abbrev pub has_field : {A : Type 0} → String → Dict A → Bool
has_field k [] = false
has_field k ((j, v) ∷ d) = j == k || has_field k d

module _ (R : Runtime) where
  -- `_float_or_none(d.get(key))`: None for what `float` does not take
  unfoldable pub float_of_value : Option (Value R.Float) → Option R.Float
  float_of_value none = none
  float_of_value (some v) = elim (to_float R v) [ ok x ↦ some x | err e ↦ none ]

  -- `_float_or_zero`
  unfoldable pub field_or_zero : Option (Value R.Float) → R.Float
  field_or_zero v = get_or (float_of_value v) (R.lit 0 0)

  -- `str(d.get(key) or default)`
  unfoldable pub text_or_default : Option (Value R.Float) → String → String
  text_or_default none default = default
  text_or_default (some v) default = if truth R v then str R v else default

  abbrev metadata_of : ExecutionEvent R.Float → Dict (Value R.Float)
  metadata_of e = e.arguments.metadata

  -- `_insert_fee_row`: the row, if there is one
  unfoldable pub fee_rows : ExecutionEvent R.Float → List (FeeRow R.Float)
  fee_rows e = elim (float_of_value (lookup "fee" (metadata_of e))) [
    | none ↦ []
    | some fee ↦
        record {
          ts_utc = e.arguments.ts_exchange;
          symbol = e.arguments.symbol;
          order_id_client = e.arguments.order_id_client;
          fee_quote = fee;
          fee_rate = float_of_value (lookup "fee_rate" (metadata_of e));
          maker_taker = str_or_none R (lookup "maker_taker" (metadata_of e));
          source_event_id = e.event_id;
        }
        ∷ []
  ]

  -- `_insert_funding_row`
  unfoldable pub funding_rows : ExecutionEvent R.Float → List (FundingRow R.Float)
  funding_rows e = elim (float_of_value (lookup "funding_fee" (metadata_of e))) [
    | none ↦ []
    | some funding_fee ↦
        record {
          ts_utc = e.arguments.ts_exchange;
          symbol = e.arguments.symbol;
          position_notional = float_of_value (lookup "position_notional" (metadata_of e));
          funding_rate = float_of_value (lookup "funding_rate" (metadata_of e));
          funding_fee = funding_fee;
          source_event_id = e.event_id;
        }
        ∷ []
  ]

  -- `abs(value) > EPSILON`
  abbrev is_large : R.Float → Bool
  is_large x = R.lt (R.lit 1 9) (R.abs x)

  -- `_insert_pnl_row`
  unfoldable pub pnl_rows : ExecutionEvent R.Float → List (PnlRow R.Float)
  pnl_rows e =
      let value = λ (key : String). field_or_zero (lookup key (metadata_of e)) in
      if is_large (value "realized_pnl")
        || (is_large (value "unrealized_pnl")
            || (is_large (value "fee")
                || (is_large (value "funding_fee")
                    || (is_large (value "slippage")
                        || (is_large (value "transfer")
                            || is_large (value "cash_balance_delta"))))))
      then record {
        ts_utc = e.arguments.ts_exchange;
        symbol = e.arguments.symbol;
        realized_strategy_pnl = value "realized_pnl";
        unrealized_pnl = value "unrealized_pnl";
        fees = value "fee";
        funding = value "funding_fee";
        slippage = value "slippage";
        transfers = value "transfer";
        cash_balance_delta = value "cash_balance_delta";
        source_event_id = e.event_id;
      }
        ∷ []
      else []

  -- `_insert_cash_row`
  unfoldable pub cash_rows : ExecutionEvent R.Float → List (CashRow R.Float)
  cash_rows e = elim (float_of_value (lookup "cash_balance_delta" (metadata_of e))) [
    | none ↦ []
    | some cash_delta ↦
        record {
          ts_utc = e.arguments.ts_exchange;
          account_id = text_or_default (lookup "account_id" (metadata_of e)) "account";
          currency = text_or_default (lookup "currency" (metadata_of e)) "USDT";
          amount = cash_delta;
          reason = text_or_default (lookup "cash_reason" (metadata_of e)) "execution_fill";
          reference_id = event_fill_id R e;
          source_event_id = e.event_id;
        }
        ∷ []
  ]

  -- `_insert_equity_row`
  unfoldable pub equity_rows : ExecutionEvent R.Float → List (EquityRow R.Float)
  equity_rows e = elim (float_of_value (lookup "equity" (metadata_of e))) [
    | none ↦ []
    | some equity ↦
        record {
          ts_utc = e.arguments.ts_exchange;
          account_id = text_or_default (lookup "account_id" (metadata_of e)) "account";
          equity = equity;
          cash_balance = float_of_value (lookup "cash_balance" (metadata_of e));
          unrealized_pnl = float_of_value (lookup "unrealized_pnl" (metadata_of e));
          realized_pnl = float_of_value (lookup "realized_pnl" (metadata_of e));
          source_event_id = e.event_id;
        }
        ∷ []
  ]

  -- `_upsert_account_risk_state`
  unfoldable pub with_account_risk :
      ExecutionEvent R.Float → List (RiskScope R.Float) → List (RiskScope R.Float)
  with_account_risk e rows =
      let d = metadata_of e in
      if has_field "exposure" d
        || (has_field "margin_usage" d
            || (has_field "realized_pnl" d
                || (has_field "unrealized_pnl" d || has_field "drawdown" d)))
      then replace_row (λ (s : RiskScope R.Float). s.scope_id)
          (record {
            scope_id = "account";
            exposure = field_or_zero (lookup "exposure" d);
            margin_usage = field_or_zero (lookup "margin_usage" d);
            realized_pnl = field_or_zero (lookup "realized_pnl" d);
            unrealized_pnl = field_or_zero (lookup "unrealized_pnl" d);
            drawdown = field_or_zero (lookup "drawdown" d);
            last_event_id = e.event_id;
            metadata_json = ("source_event_id", int (pos e.event_id)) ∷ [];
          })
          rows
      else rows
