-- ===== src/Store/Tables.antt =====
-- src/engine/memory/store.py: the tables that are rebuilt from the execution journal.
use proofalpha.Prelude.{ℕ, String, Option, List, ◌∷◌, []}
use proofalpha.Prelude.Dict.{Dict}
use proofalpha.Python.Runtime.{Value}

pub record OrderLive (Float : Type 0) : Type 0 where
  pub order_id_client : String
  pub symbol : Option String
  pub side : Option String
  pub price : Option Float
  pub qty : Float
  pub filled_qty : Float
  pub status : String
  pub order_id_exchange : Option String
  pub parent_intent_id : Option String
  pub last_event_id : ℕ
  pub metadata_json : Dict (Value Float)

pub record FillRow (Float : Type 0) : Type 0 where
  pub fill_id : String
  pub order_id_client : String
  pub ts_exchange : String
  pub symbol : Option String
  pub side : Option String
  pub price : Option Float
  pub qty : Float
  pub fee : Option Float
  pub maker_taker : Option String
  pub liquidity_flag : Option String
  pub source_event_id : ℕ
  pub metadata_json : Dict (Value Float)

-- the columns of `positions` that a rebuild sets
pub record PositionRow (Float : Type 0) : Type 0 where
  pub symbol : String
  pub net_qty : Float
  pub entry_price : Option Float
  pub unrealized_pnl : Float
  pub last_event_id : Option ℕ
  pub metadata_json : Dict (Value Float)

-- a row of `risk_state`
pub record RiskScope (Float : Type 0) : Type 0 where
  pub scope_id : String
  pub exposure : Float
  pub margin_usage : Float
  pub realized_pnl : Float
  pub unrealized_pnl : Float
  pub drawdown : Float
  pub last_event_id : ℕ
  pub metadata_json : Dict (Value Float)

-- What the loop over the events works on: three of the tables, the two dicts and the set.
pub record Replay (Float : Type 0) : Type 0 where
  pub orders_live : List (OrderLive Float)
  pub fills : List (FillRow Float)
  pub risk_state : List (RiskScope Float)
  pub position_qty : Dict Float
  pub position_cost : Dict Float
  pub seen_fill_ids : List String

-- a row of `replay_checkpoints`, whose `metadata_json` is the count of the events
pub record ReplayCheckpoint : Type 0 where
  pub checkpoint_id : String
  pub created_at_utc : String
  pub last_event_id : ℕ
  pub projection_digest : String
  pub event_count : ℕ

pub record Projection (Float : Type 0) : Type 0 where
  pub orders_live : List (OrderLive Float)
  pub fills : List (FillRow Float)
  pub positions : List (PositionRow Float)
  pub risk_state : List (RiskScope Float)

-- what `rebuild_execution_projections` returns
pub record RebuildReport : Type 0 where
  pub event_count : ℕ
  pub last_event_id : ℕ
  pub projection_digest : String
  pub fill_count : ℕ

abbrev pub fill_event_types : List String
fill_event_types = "ORDER_PARTIAL_FILL" ∷ "ORDER_FILL" ∷ "FILL" ∷ []

-- the types that change an order
abbrev pub order_event_types : List String
order_event_types =
    "INTENT_CREATE" ∷ "ORDER_SUBMIT" ∷ "ORDER_ACK" ∷ "FILL" ∷ "ORDER_CANCEL_REQUEST"
    ∷ "ORDER_NEW_SUBMIT" ∷ "ORDER_NEW_ACK" ∷ "ORDER_PARTIAL_FILL" ∷ "ORDER_FILL"
    ∷ "ORDER_CANCEL_SUBMIT" ∷ "ORDER_CANCEL_ACK" ∷ "ORDER_CANCEL_REJECT" ∷ "ORDER_REJECT" ∷ []
