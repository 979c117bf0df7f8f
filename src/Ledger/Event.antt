-- ===== src/Ledger/Event.antt =====
-- src/engine/execution/ledger.py: an event is a type and a payload; a ledger is a list of events.
use proofalpha.Prelude.{String, List, ◌∷◌, [], ◌++◌}
use proofalpha.Prelude.Dict.{Dict}
use proofalpha.Python.Runtime.{Runtime, Value, float, text}

pub record LedgerEvent (Float : Type 0) : Type 0 where
  pub event_id : String
  pub event_type : String
  pub payload : Dict (Value Float)

-- `ExecutionLedger`, with `append`
pub record ExecutionLedger (Float : Type 0) : Type 0 where
  pub events : List (LedgerEvent Float)

unfoldable pub append :
    {Float : Type 0} → LedgerEvent Float → ExecutionLedger Float → ExecutionLedger Float
append e ledger = record { events = ledger.events ++ e ∷ [] }

module _ (R : Runtime) where
  -- `LedgerEvent.order`: event id, symbol, side, quantity, price
  unfoldable pub order_event : String → String → String → R.Float → R.Float → LedgerEvent R.Float
  order_event event_id symbol side qty price = record {
    event_id = event_id;
    event_type = "ORDER";
    payload =
        ("symbol", text symbol)
        ∷ ("side", text (R.upper side))
        ∷ ("qty", float qty)
        ∷ ("price", float price)
        ∷ [];
  }

  -- `LedgerEvent.fill`: event id, order id, symbol, side, quantity, price, fee
  unfoldable pub fill_event :
      String → String → String → String → R.Float → R.Float → R.Float → LedgerEvent R.Float
  fill_event event_id order_id symbol side qty price fee = record {
    event_id = event_id;
    event_type = "FILL";
    payload =
        ("fill_id", text event_id)
        ∷ ("order_id", text order_id)
        ∷ ("symbol", text symbol)
        ∷ ("side", text (R.upper side))
        ∷ ("qty", float qty)
        ∷ ("price", float price)
        ∷ ("fee", float fee)
        ∷ [];
  }

  -- `LedgerEvent.funding`: event id, symbol, amount
  unfoldable pub funding_event : String → String → R.Float → LedgerEvent R.Float
  funding_event event_id symbol amount = record {
    event_id = event_id;
    event_type = "FUNDING";
    payload = ("symbol", text symbol) ∷ ("amount", float amount) ∷ [];
  }

  -- `LedgerEvent.risk`: event id, reason
  unfoldable pub risk_event : String → String → LedgerEvent R.Float
  risk_event event_id reason_code = record {
    event_id = event_id;
    event_type = "RISK";
    payload = ("reason_code", text reason_code) ∷ [];
  }
