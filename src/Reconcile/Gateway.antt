-- ===== src/Reconcile/Gateway.antt =====
-- src/engine/execution/reconciliation.py: the snapshot of the gateway, and its payload.
use proofalpha.Prelude.{String, Bool, false, Option, none, some, List, ◌∷◌, [], if◌then◌else◌}
use proofalpha.Prelude.Dict.{get_or}
use proofalpha.Python.Runtime.{
  Runtime, Value, Fields, Items, bool, text, object, list, item, nothing, end,
}
use proofalpha.Python.Convert.{Result, err, ok, ◌>>=◌, type_error, truth, str, to_float}
use proofalpha.Reconcile.Accounting.{fields_get, float_of_value}

module _ (Float : Type 0) where
  pub record GatewayAccountSnapshot : Type 0 where
    pub account_id : String
    pub stale : Bool
    pub equity : Option Float
    pub cash_balance : Option Float
    pub realized_pnl : Option Float
    pub unrealized_pnl : Option Float
    pub margin_usage : Option Float
    pub exposure : Option Float

  pub record GatewayOrderSnapshot : Type 0 where
    pub order_id_client : String
    pub symbol : String
    pub side : String
    pub qty : Float
    pub filled_qty : Float
    pub status : String
    pub reduce_only : Bool

  pub record GatewayPositionSnapshot : Type 0 where
    pub symbol : String
    pub net_qty : Float
    pub entry_price : Option Float
    pub unrealized_pnl : Option Float

  pub record GatewayStateSnapshot : Type 0 where
    pub account : GatewayAccountSnapshot
    pub open_orders : List GatewayOrderSnapshot
    pub fills : List (Fields Float)
    pub positions : List GatewayPositionSnapshot
    pub funding : List (Fields Float)

module _ (R : Runtime) where
  -- `str(item.get(key, default))`
  unfoldable pub str_field : String → String → Fields R.Float → String
  str_field key default f = str R (get_or (fields_get key f) (text default))

  -- `bool(item.get(key, False))`
  unfoldable pub bool_field : String → Fields R.Float → Bool
  bool_field key f = truth R (get_or (fields_get key f) (bool false))

  -- `float(item.get(key, 0.0) or 0.0)`
  unfoldable pub number_field : String → Fields R.Float → Result R.Float
  number_field key f = elim (fields_get key f) [
    | none ↦ ok (R.lit 0 0)
    | some v ↦ if truth R v then to_float R v else ok (R.lit 0 0)
  ]

  unfoldable pub order_snapshot : Fields R.Float → Result (GatewayOrderSnapshot R.Float)
  order_snapshot f = do
    qty ← number_field "qty" f
    filled_qty ← number_field "filled_qty" f
    ok (record {
      order_id_client = str_field "order_id_client" "" f;
      symbol = str_field "symbol" "" f;
      side = str_field "side" "" f;
      qty = qty;
      filled_qty = filled_qty;
      status = str_field "status" "NEW" f;
      reduce_only = bool_field "reduce_only" f;
    })

  unfoldable pub position_of : Fields R.Float → Result (GatewayPositionSnapshot R.Float)
  position_of f = do
    net_qty ← number_field "net_qty" f
    ok (record {
      symbol = str_field "symbol" "" f;
      net_qty = net_qty;
      entry_price = float_of_value R (fields_get "entry_price" f);
      unrealized_pnl = float_of_value R (fields_get "unrealized_pnl" f);
    })

  -- the dicts of a list; the other items are passed over
  unfoldable pub dicts_of : Items R.Float → List (Fields R.Float)
  dicts_of nothing = []
  dicts_of (item (object f) rest) = f ∷ dicts_of rest
  dicts_of (item _ rest) = dicts_of rest

  -- what iterating over `payload.get(key, [])` yields; a text and a dict yield texts, which are passed
  -- over, and the other kinds are not iterable
  unfoldable pub items_of : Option (Value R.Float) → Result (Items R.Float)
  items_of none = ok nothing
  items_of (some (list l)) = ok l
  items_of (some (object f)) = ok nothing
  items_of (some (text s)) = ok nothing
  items_of (some _) = err type_error

  unfoldable pub parse_all :
      {A : Type 0} → (Fields R.Float → Result A) → List (Fields R.Float) → Result (List A)
  parse_all parse [] = ok []
  parse_all parse (f ∷ rest) = do a ← parse f; l ← parse_all parse rest; ok (a ∷ l)

  abbrev pub account_fields : Option (Value R.Float) → Fields R.Float
  account_fields (some (object f)) = f
  account_fields _ = end

  -- `gateway_snapshot_from_payload`
  unfoldable pub gateway_snapshot_from_payload :
      Fields R.Float → Result (GatewayStateSnapshot R.Float)
  gateway_snapshot_from_payload payload = do
    orders ← items_of (fields_get "open_orders" payload)
    open_orders ← parse_all order_snapshot (dicts_of orders)
    listed ← items_of (fields_get "positions" payload)
    positions ← parse_all position_of (dicts_of listed)
    fills ← items_of (fields_get "fills" payload)
    funding ← items_of (fields_get "funding" payload)
    let account = account_fields (fields_get "account" payload) in
        ok (record {
          account = record {
            account_id = str_field "account_id" "account" account;
            stale = bool_field "stale" account;
            equity = float_of_value R (fields_get "equity" account);
            cash_balance = float_of_value R (fields_get "cash_balance" account);
            realized_pnl = float_of_value R (fields_get "realized_pnl" account);
            unrealized_pnl = float_of_value R (fields_get "unrealized_pnl" account);
            margin_usage = float_of_value R (fields_get "margin_usage" account);
            exposure = float_of_value R (fields_get "exposure" account);
          };
          open_orders = open_orders;
          fills = dicts_of fills;
          positions = positions;
          funding = dicts_of funding;
        })
