-- ===== src/Reconcile/Snapshots.antt =====
-- src/engine/execution/reconciliation.py: `_upsert_position_snapshots`, and the rebuilding of the
-- accounting tables. `none` is the IntegrityError of a snapshot whose identifier is in its table
-- already; it leaves the transaction uncommitted.
use proofalpha.Prelude.{
  String, Bool, Option, none, some, List, ◌∷◌, [], ◌++◌, ◌==◌, ◌||◌, if◌then◌else◌, concat,
  contains,
}
use proofalpha.Prelude.Int.{pos}
use proofalpha.Prelude.Dict.{lookup}
use proofalpha.Prelude.Rows.{has_key, replace_row}
use proofalpha.Python.Runtime.{
  Runtime, Value, Fields, Items, text, object, list, item, nothing, int,
}
use proofalpha.Python.Convert.{truth, str}
use proofalpha.Store.Events.{ExecutionEvent}
use proofalpha.Store.Tables.{PositionRow, fill_event_types}
use proofalpha.Store.Rebuild.{event_fill_id, rebuilt}
use proofalpha.Reconcile.Ledgers.{PositionSnapshot, Books, cleared_books}
use proofalpha.Reconcile.Accounting.{
  fields_get, float_of_value, field_or_zero, text_or_default, fee_rows, funding_rows, pnl_rows,
  cash_rows, equity_rows, with_account_risk,
}

module _ (R : Runtime) where
  -- `str(position["symbol"])` of a dict with a symbol; the others are passed over
  unfoldable pub listed_symbol : Value R.Float → Option String
  listed_symbol (object f) = elim (fields_get "symbol" f) [
    | none ↦ none
    | some v ↦ if truth R v then some (str R v) else none
  ]
  listed_symbol _ = none

  abbrev pub fields_of : Value R.Float → Fields R.Float
  fields_of (object f) = f
  fields_of _ = Fields.end

  unfoldable pub snapshot_id : ExecutionEvent R.Float → String → String
  snapshot_id e symbol =
      concat "phase3:" (concat (R.text_of_int (pos e.event_id)) (concat ":" symbol))

  unfoldable pub position_snapshot :
      ExecutionEvent R.Float → String → Fields R.Float → PositionSnapshot R.Float
  position_snapshot e symbol f = record {
    position_snapshot_id = snapshot_id e symbol;
    ts_utc = e.arguments.ts_exchange;
    account_id = text_or_default R (lookup "account_id" e.arguments.metadata) "account";
    symbol = symbol;
    net_qty = field_or_zero R (fields_get "net_qty" f);
    entry_price = float_of_value R (fields_get "entry_price" f);
    mark_price = float_of_value R (fields_get "mark_price" f);
    unrealized_pnl = field_or_zero R (fields_get "unrealized_pnl" f);
    source_event_id = e.event_id;
  }

  unfoldable pub snapshot_position :
      ExecutionEvent R.Float → String → Fields R.Float → PositionRow R.Float
  snapshot_position e symbol f = record {
    symbol = symbol;
    net_qty = field_or_zero R (fields_get "net_qty" f);
    entry_price = float_of_value R (fields_get "entry_price" f);
    unrealized_pnl = field_or_zero R (fields_get "unrealized_pnl" f);
    last_event_id = some e.event_id;
    metadata_json =
        ("source", text "phase3_position_reconcile")
        ∷ ("source_event_id", int (pos e.event_id))
        ∷ [];
  }

  abbrev pub Tables : Type 0
  Tables = List (PositionSnapshot R.Float) × List (PositionRow R.Float)

  -- the two statements for one position
  unfoldable pub upsert_position :
      ExecutionEvent R.Float → String → Fields R.Float → Tables → Option Tables
  upsert_position e symbol f (snapshots, positions) =
      if has_key (λ (s : PositionSnapshot R.Float). s.position_snapshot_id) (snapshot_id e symbol)
        snapshots
      then none
      else some (
        snapshots ++ (position_snapshot e symbol f ∷ []),
        replace_row (λ (p : PositionRow R.Float). p.symbol) (snapshot_position e symbol f)
            positions,
      )

  -- the loop of `_upsert_position_snapshots`
  unfoldable pub upsert_positions : ExecutionEvent R.Float → Items R.Float → Tables → Option Tables
  upsert_positions e nothing t = some t
  upsert_positions e (item v rest) t = elim (listed_symbol v) [
    | none ↦ upsert_positions e rest t
    | some symbol ↦ elim (upsert_position e symbol (fields_of v) t) [
      | none ↦ none
      | some t' ↦ upsert_positions e rest t'
    ]
  ]

  -- `metadata.get("positions", [])`, if it is a list
  unfoldable pub listed_positions : ExecutionEvent R.Float → Items R.Float
  listed_positions e = elim (lookup "positions" e.arguments.metadata) [
    | some (list l) ↦ l
    | _ ↦ nothing
  ]

  -- a fill that was not seen before
  unfoldable pub book_new_fill : ExecutionEvent R.Float → Books R.Float → Books R.Float
  book_new_fill e b = record b {
    fee_ledger = b.fee_ledger ++ fee_rows R e;
    funding_ledger = b.funding_ledger ++ funding_rows R e;
    pnl_attribution = b.pnl_attribution ++ pnl_rows R e;
    cash_ledger = b.cash_ledger ++ cash_rows R e;
    equity_snapshots = b.equity_snapshots ++ equity_rows R e;
    seen_fill_ids = event_fill_id R e ∷ b.seen_fill_ids;
  }

  -- a snapshot of the account, or a reconciled position
  unfoldable pub book_account : ExecutionEvent R.Float → Books R.Float → Option (Books R.Float)
  book_account e b =
      elim (upsert_positions e (listed_positions e)
        (b.position_snapshots, b.projection.positions)) [
          | none ↦ none
          | some (snapshots, positions) ↦ some (record b {
            projection = record b.projection {
              positions = positions;
              risk_state = with_account_risk R e b.projection.risk_state;
            };
            equity_snapshots = b.equity_snapshots ++ equity_rows R e;
            position_snapshots = snapshots;
          })
        ]

  abbrev pub is_account_event : ExecutionEvent R.Float → Bool
  is_account_event e =
      (e.arguments.event_type == "POSITION_RECONCILE")
      || (e.arguments.event_type == "ACCOUNT_SNAPSHOT")

  -- one round of the loop; no type is in both sets
  unfoldable pub book_event : ExecutionEvent R.Float → Books R.Float → Option (Books R.Float)
  book_event e b =
      if contains e.arguments.event_type fill_event_types
      then (if contains (event_fill_id R e) b.seen_fill_ids
          then some b
          else some (book_new_fill e b))
      else (if is_account_event e then book_account e b else some b)

  unfoldable pub book_events :
      List (ExecutionEvent R.Float) → Books R.Float → Option (Books R.Float)
  book_events [] b = some b
  book_events (e ∷ rest) b = elim (book_event e b) [ none ↦ none | some b' ↦ book_events rest b' ]

  -- the books that `_rebuild_phase3_once` makes; `none` is an IntegrityError
  unfoldable pub rebuild_books : List (ExecutionEvent R.Float) → Option (Books R.Float)
  rebuild_books events = book_events events (cleared_books (rebuilt R events))
