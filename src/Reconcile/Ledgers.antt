-- ===== src/Reconcile/Ledgers.antt =====
-- src/engine/execution/reconciliation.py: the rows of the accounting tables, whose columns are those of
-- src/engine/memory/store.py. Each row keeps the identifier of the event that it comes from.
use proofalpha.Prelude.{ℕ, String, Option, List, []}
use proofalpha.Store.Tables.{Projection}

module _ (Float : Type 0) where
  pub record FeeRow : Type 0 where
    pub ts_utc : String
    pub symbol : Option String
    pub order_id_client : Option String
    pub fee_quote : Float
    pub fee_rate : Option Float
    pub maker_taker : Option String
    pub source_event_id : ℕ

  pub record FundingRow : Type 0 where
    pub ts_utc : String
    pub symbol : Option String
    pub position_notional : Option Float
    pub funding_rate : Option Float
    pub funding_fee : Float
    pub source_event_id : ℕ

  pub record PnlRow : Type 0 where
    pub ts_utc : String
    pub symbol : Option String
    pub realized_strategy_pnl : Float
    pub unrealized_pnl : Float
    pub fees : Float
    pub funding : Float
    pub slippage : Float
    pub transfers : Float
    pub cash_balance_delta : Float
    pub source_event_id : ℕ

  pub record CashRow : Type 0 where
    pub ts_utc : String
    pub account_id : String
    pub currency : String
    pub amount : Float
    pub reason : String
    pub reference_id : String
    pub source_event_id : ℕ

  pub record EquityRow : Type 0 where
    pub ts_utc : String
    pub account_id : String
    pub equity : Float
    pub cash_balance : Option Float
    pub unrealized_pnl : Option Float
    pub realized_pnl : Option Float
    pub source_event_id : ℕ

  pub record PositionSnapshot : Type 0 where
    pub position_snapshot_id : String
    pub ts_utc : String
    pub account_id : String
    pub symbol : String
    pub net_qty : Float
    pub entry_price : Option Float
    pub mark_price : Option Float
    pub unrealized_pnl : Float
    pub source_event_id : ℕ

  -- What the loop over the events works on: the tables, and the set of fills.
  pub record Books : Type 0 where
    pub projection : Projection Float
    pub fee_ledger : List FeeRow
    pub funding_ledger : List FundingRow
    pub pnl_attribution : List PnlRow
    pub cash_ledger : List CashRow
    pub equity_snapshots : List EquityRow
    pub position_snapshots : List PositionSnapshot
    pub seen_fill_ids : List String

-- `_clear_accounting_tables`, after the projections are rebuilt
unfoldable pub cleared_books : {Float : Type 0} → Projection Float → Books Float
cleared_books projection = record {
  projection = projection;
  fee_ledger = [];
  funding_ledger = [];
  pnl_attribution = [];
  cash_ledger = [];
  equity_snapshots = [];
  position_snapshots = [];
  seen_fill_ids = [];
}
