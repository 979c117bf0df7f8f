-- ===== src/Store/Rebuild.antt =====
-- src/engine/memory/store.py: `rebuild_execution_projections`. The JSON of a row's metadata is the data
-- itself; a NaN, which SQLite stores as NULL, is not told apart.
use proofalpha.Prelude.{
  ℕ, String, Bool, false, not, Option, none, some, List, ◌∷◌, [], ◌++◌, ◌==◌, ◌&&◌, if◌then◌else◌,
  concat, contains, length,
}
use proofalpha.Prelude.Int.{pos}
use proofalpha.Prelude.Dict.{Dict, lookup, insert, get_or}
use proofalpha.Prelude.Rows.{row_of, replace_row, has_key}
use proofalpha.Python.Runtime.{Runtime, Value, null, int, float, text}
use proofalpha.Python.Convert.{truth, str}
use proofalpha.Store.Events.{ExecutionEvent}
use proofalpha.Store.Tables.{
  OrderLive, FillRow, PositionRow, RiskScope, Replay, ReplayCheckpoint, Projection, RebuildReport,
  fill_event_types, order_event_types,
}

-- `value or default` of a nullable text
abbrev pub text_or : Option String → String → String
text_or none default = default
text_or (some s) default = if s == "" then default else s

-- `bool(value)` of a nullable text
abbrev pub has_text : Option String → Bool
has_text none = false
has_text (some s) = not (s == "")

module _ (R : Runtime) where
  -- `_float_or_none(metadata.get(key))`
  unfoldable pub float_or_none : Option (Value R.Float) → Option R.Float
  float_or_none (some (int n)) = some (R.of_int n)
  float_or_none (some (float x)) = some x
  float_or_none _ = none

  -- `str(value) if value is not None else None`
  unfoldable pub str_or_none : Option (Value R.Float) → Option String
  str_or_none none = none
  str_or_none (some null) = none
  str_or_none (some v) = some (str R v)

  -- `float(x or 0.0)`, and `float(x) if x else 0.0`
  unfoldable pub number_or_zero : Option R.Float → R.Float
  number_or_zero none = R.lit 0 0
  number_or_zero (some x) = if R.eq x (R.lit 0 0) then R.lit 0 0 else x

  -- `abs(float(qty) if qty is not None else 0.0)`
  unfoldable pub abs_qty : Option R.Float → R.Float
  abs_qty none = R.abs (R.lit 0 0)
  abs_qty (some x) = R.abs x

  -- `_signed_quantity`
  unfoldable pub signed_quantity : Option String → Option R.Float → R.Float
  signed_quantity side none = R.lit 0 0
  signed_quantity side (some qty) =
      R.mul (if R.upper (get_or side "") == "SELL" then R.neg (R.lit 1 0) else R.lit 1 0)
        (R.abs qty)

  -- `str(metadata.get("fill_id") or f"event:{event_id}")`
  unfoldable pub event_fill_id : ExecutionEvent R.Float → String
  event_fill_id e =
      let default = concat "event:" (R.text_of_int (pos e.event_id)) in
      elim (lookup "fill_id" e.arguments.metadata) [
        | none ↦ default
        | some v ↦ if truth R v then str R v else default
      ]

  unfoldable pub fill_row : ExecutionEvent R.Float → FillRow R.Float
  fill_row e = record {
    fill_id = event_fill_id e;
    order_id_client = get_or e.arguments.order_id_client "";
    ts_exchange = e.arguments.ts_exchange;
    symbol = e.arguments.symbol;
    side = e.arguments.side;
    price = e.arguments.price;
    qty = abs_qty e.arguments.qty;
    fee = float_or_none (lookup "fee" e.arguments.metadata);
    maker_taker = str_or_none (lookup "maker_taker" e.arguments.metadata);
    liquidity_flag = str_or_none (lookup "liquidity_flag" e.arguments.metadata);
    source_event_id = e.event_id;
    metadata_json = e.arguments.metadata;
  }

  -- `d[symbol] = d.get(symbol, 0.0) + x`
  abbrev pub added_to : String → R.Float → Dict R.Float → Dict R.Float
  added_to symbol x d = insert symbol (R.add (get_or (lookup symbol d) (R.lit 0 0)) x) d

  -- `if symbol: position_qty[symbol] = …`
  unfoldable pub with_qty : ExecutionEvent R.Float → Dict R.Float → Dict R.Float
  with_qty e d =
      let a = e.arguments in
      if has_text a.symbol
      then added_to (get_or a.symbol "") (signed_quantity a.side a.qty) d
      else d

  unfoldable pub with_cost : ExecutionEvent R.Float → Dict R.Float → Dict R.Float
  with_cost e d =
      let a = e.arguments in
      if has_text a.symbol
      then added_to (get_or a.symbol "")
          (R.mul (signed_quantity a.side a.qty) (number_or_zero a.price)) d
      else d

  -- what a fill that was not seen before does to the fills, the positions and the set;
  -- `INSERT OR IGNORE` leaves a fill that is there
  unfoldable pub record_fill : ExecutionEvent R.Float → Replay R.Float → Replay R.Float
  record_fill e r = record r {
    fills =
        if has_key (λ (f : FillRow R.Float). f.fill_id) (event_fill_id e) r.fills
        then r.fills
        else r.fills ++ (fill_row e ∷ []);
    position_qty = with_qty e r.position_qty;
    position_cost = with_cost e r.position_cost;
    seen_fill_ids = event_fill_id e ∷ r.seen_fill_ids;
  }

  unfoldable pub order_live :
      ExecutionEvent R.Float → String → R.Float → R.Float → OrderLive R.Float
  order_live e id order_qty filled_qty = record {
    order_id_client = id;
    symbol = e.arguments.symbol;
    side = e.arguments.side;
    price = e.arguments.price;
    qty = order_qty;
    filled_qty = filled_qty;
    status = text_or e.arguments.status e.arguments.event_type;
    order_id_exchange = e.arguments.order_id_exchange;
    parent_intent_id = e.arguments.parent_intent_id;
    last_event_id = e.event_id;
    metadata_json = e.arguments.metadata;
  }

  abbrev pub order_of : String → Replay R.Float → Option (OrderLive R.Float)
  order_of id r = row_of (λ (o : OrderLive R.Float). o.order_id_client) id r.orders_live

  -- `existing[0]`, or the quantity of the event
  abbrev pub order_qty_of : Option (OrderLive R.Float) → ExecutionEvent R.Float → R.Float
  order_qty_of none e = number_or_zero e.arguments.qty
  order_qty_of (some o) e = o.qty

  -- `existing[1]`, or 0
  abbrev pub filled_qty_of : Option (OrderLive R.Float) → R.Float
  filled_qty_of none = R.lit 0 0
  filled_qty_of (some o) = o.filled_qty

  -- the event is a fill that was not seen before
  unfoldable pub is_new_fill : ExecutionEvent R.Float → List String → Bool
  is_new_fill e seen =
      contains e.arguments.event_type fill_event_types && not (contains (event_fill_id e) seen)

  -- the branch of an event that changes an order
  unfoldable pub order_step : ExecutionEvent R.Float → String → Replay R.Float → Replay R.Float
  order_step e id r =
      let existing = order_of id r in
      let new = is_new_fill e r.seen_fill_ids in
      let before = filled_qty_of existing in
      let filled_qty = if new then R.add before (abs_qty e.arguments.qty) else before in
      let r' = if new then record_fill e r else r in
      record r' {
        orders_live =
            replace_row (λ (o : OrderLive R.Float). o.order_id_client)
              (order_live e id (order_qty_of existing e) filled_qty) r'.orders_live;
      }

  -- `if event_type == "RISK_BLOCK"`; the columns that are not set have the default 0
  unfoldable pub risk_step : ExecutionEvent R.Float → Replay R.Float → Replay R.Float
  risk_step e r =
      if e.arguments.event_type == "RISK_BLOCK"
      then record r {
        risk_state =
            replace_row (λ (s : RiskScope R.Float). s.scope_id)
              (record {
                scope_id = text_or e.arguments.reason_code "risk_block";
                exposure = R.lit 0 0;
                margin_usage = R.lit 0 0;
                realized_pnl = R.lit 0 0;
                unrealized_pnl = R.lit 0 0;
                drawdown = R.lit 0 0;
                last_event_id = e.event_id;
                metadata_json = e.arguments.metadata;
              })
              r.risk_state;
      }
      else r

  abbrev pub changes_order : ExecutionEvent R.Float → Bool
  changes_order e =
      contains e.arguments.event_type order_event_types && has_text e.arguments.order_id_client

  -- one round of the loop
  unfoldable pub replay_step : ExecutionEvent R.Float → Replay R.Float → Replay R.Float
  replay_step e r =
      risk_step e
        (if changes_order e then order_step e (get_or e.arguments.order_id_client "") r else r)

  unfoldable pub replay_events : List (ExecutionEvent R.Float) → Replay R.Float → Replay R.Float
  replay_events [] r = r
  replay_events (e ∷ rest) r = replay_events rest (replay_step e r)

  -- after the DELETE of the four tables
  abbrev pub cleared : Replay R.Float
  cleared = record {
    orders_live = [];
    fills = [];
    risk_state = [];
    position_qty = [];
    position_cost = [];
    seen_fill_ids = [];
  }

  -- `rows[-1][0] if rows else None`
  abbrev pub last_id : List (ExecutionEvent R.Float) → Option ℕ
  last_id [] = none
  last_id (e ∷ []) = some e.event_id
  last_id (e ∷ next ∷ rest) = last_id (next ∷ rest)

  -- the loop over `position_qty.items()`, whose keys are distinct
  unfoldable pub position_rows : Dict R.Float → Option ℕ → Dict R.Float → List (PositionRow R.Float)
  position_rows position_cost last [] = []
  position_rows position_cost last ((symbol, net_qty) ∷ rest) =
      record {
        symbol = symbol;
        net_qty = net_qty;
        entry_price =
            if R.eq net_qty (R.lit 0 0)
            then none
            else some (R.abs (R.div (get_or (lookup symbol position_cost) (R.lit 0 0)) net_qty));
        unrealized_pnl = R.lit 0 0;
        last_event_id = last;
        metadata_json = ("source", text "execution_event_replay") ∷ [];
      }
      ∷ position_rows position_cost last rest

  -- The four tables after a rebuild.
  unfoldable pub rebuilt : List (ExecutionEvent R.Float) → Projection R.Float
  rebuilt events =
      let r = replay_events events cleared in
      record {
        orders_live = r.orders_live;
        fills = r.fills;
        positions = position_rows r.position_cost (last_id events) r.position_qty;
        risk_state = r.risk_state;
      }

  -- `rebuild_execution_projections`: the tables, the checkpoint that replaces the one of its
  -- identifier, and the report. `digest` is `_projection_digest`, the digest of the four tables with
  -- their rows in the order of the keys, and `now` is `datetime('now')`.
  unfoldable pub rebuild_execution_projections :
      (Projection R.Float → String)
      → String
      → List (ExecutionEvent R.Float)
      → List ReplayCheckpoint
      → Projection R.Float × List ReplayCheckpoint × RebuildReport
  rebuild_execution_projections digest now events checkpoints =
      let tables = rebuilt events in
      let last_event_id = get_or (last_id events) 0 in
      (
        tables,
        replace_row (λ (c : ReplayCheckpoint). c.checkpoint_id)
            (record {
              checkpoint_id = concat "replay:" (R.text_of_int (pos last_event_id));
              created_at_utc = now;
              last_event_id = last_event_id;
              projection_digest = digest tables;
              event_count = length events;
            })
            checkpoints,
        record {
          event_count = length events;
          last_event_id = last_event_id;
          projection_digest = digest tables;
          fill_count = length (replay_events events cleared).seen_fill_ids;
        },
      )
