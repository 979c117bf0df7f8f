-- ===== src/Reconcile/Local.antt =====
-- src/engine/execution/reconciliation.py: `_load_local_projection`, which reads the rebuilt tables.
use proofalpha.Prelude.{String, Option, none, some, List, ◌∷◌, [], map, if◌then◌else◌}
use proofalpha.Prelude.Dict.{Dict}
use proofalpha.Prelude.Rows.{row_of}
use proofalpha.Python.Runtime.{Runtime, Value}
use proofalpha.Store.Tables.{OrderLive, FillRow, PositionRow, RiskScope}
use proofalpha.Reconcile.Ledgers.{FundingRow, PnlRow, EquityRow, Books}

module _ (Float : Type 0) where
  pub record LocalOrder : Type 0 where
    pub symbol : Option String
    pub side : Option String
    pub qty : Float
    pub filled_qty : Float
    pub status : String
    pub metadata : Dict (Value Float)

  pub record LocalFill : Type 0 where
    pub order_id_client : String
    pub symbol : Option String
    pub qty : Float

  pub record LocalPosition : Type 0 where
    pub net_qty : Float
    pub entry_price : Option Float
    pub unrealized_pnl : Float

  -- the account's row of `risk_state`; its drawdown is not compared
  pub record LocalRisk : Type 0 where
    pub exposure : Float
    pub margin_usage : Float
    pub realized_pnl : Float
    pub unrealized_pnl : Float
    pub drawdown : Float

  pub record LocalProjection : Type 0 where
    pub orders : Dict LocalOrder
    pub fills : Dict LocalFill
    pub positions : Dict LocalPosition
    pub risk : Option LocalRisk
    pub funding_fee : Float
    pub realized_pnl : Float
    pub unrealized_pnl : Float
    pub equity : Option Float
    pub cash_balance : Option Float

module _ (R : Runtime) where
  unfoldable pub local_orders : List (OrderLive R.Float) → Dict (LocalOrder R.Float)
  local_orders [] = []
  local_orders (o ∷ rows) =
      (
        o.order_id_client,
        record {
          symbol = o.symbol;
          side = o.side;
          qty = o.qty;
          filled_qty = o.filled_qty;
          status = o.status;
          metadata = o.metadata_json;
        },
      )
      ∷ local_orders rows

  unfoldable pub local_fills : List (FillRow R.Float) → Dict (LocalFill R.Float)
  local_fills [] = []
  local_fills (f ∷ rows) =
      (f.fill_id, record { order_id_client = f.order_id_client; symbol = f.symbol; qty = f.qty })
      ∷ local_fills rows

  unfoldable pub local_positions : List (PositionRow R.Float) → Dict (LocalPosition R.Float)
  local_positions [] = []
  local_positions (p ∷ rows) =
      (
        p.symbol,
        record {
          net_qty = p.net_qty;
          entry_price = p.entry_price;
          unrealized_pnl = p.unrealized_pnl;
        },
      )
      ∷ local_positions rows

  -- `value or 0.0`
  abbrev pub value_or_zero : R.Float → R.Float
  value_or_zero x = if R.eq x (R.lit 0 0) then R.lit 0 0 else x

  unfoldable pub local_risk : Option (RiskScope R.Float) → Option (LocalRisk R.Float)
  local_risk none = none
  local_risk (some s) = some (record {
    exposure = value_or_zero s.exposure;
    margin_usage = value_or_zero s.margin_usage;
    realized_pnl = value_or_zero s.realized_pnl;
    unrealized_pnl = value_or_zero s.unrealized_pnl;
    drawdown = value_or_zero s.drawdown;
  })

  -- `ORDER BY equity_snapshot_id DESC LIMIT 1`
  abbrev pub last_row : {A : Type 0} → List A → Option A
  last_row [] = none
  last_row (a ∷ []) = some a
  last_row (a ∷ next ∷ rest) = last_row (next ∷ rest)

  abbrev pub equity_of : Option (EquityRow R.Float) → Option R.Float
  equity_of none = none
  equity_of (some e) = some e.equity

  abbrev pub cash_of : Option (EquityRow R.Float) → Option R.Float
  cash_of none = none
  cash_of (some e) = e.cash_balance

  -- `_load_local_projection`; the keys of the three tables are distinct
  unfoldable pub load_local_projection : Books R.Float → LocalProjection R.Float
  load_local_projection b =
      let equity = last_row b.equity_snapshots in
      record {
        orders = local_orders b.projection.orders_live;
        fills = local_fills b.projection.fills;
        positions = local_positions b.projection.positions;
        risk =
            local_risk
              (row_of (λ (s : RiskScope R.Float). s.scope_id) "account" b.projection.risk_state);
        funding_fee = R.sql_sum (map (λ (f : FundingRow R.Float). f.funding_fee) b.funding_ledger);
        realized_pnl =
            R.sql_sum (map (λ (p : PnlRow R.Float). p.realized_strategy_pnl) b.pnl_attribution);
        unrealized_pnl =
            R.sql_sum (map (λ (p : PnlRow R.Float). p.unrealized_pnl) b.pnl_attribution);
        equity = equity_of equity;
        cash_balance = cash_of equity;
      }
