-- ===== src/Store/Tests.antt =====
-- Runs of the execution journal (src/engine/memory/store.py), and the theorems about it at them.
use proofalpha.Python.Convert.{truth, str}
use proofalpha.Prelude.Rows.{row_of, replace_row}
use mathlib.Core.List.Memᴰ
use proofalpha.Prelude.{
  true, ℕ, contains, String, ◌++◌, Option, none, some, List, ◌∷◌, [], map, length, ◌≡◌, refl, sym,
  ap, ◌∙◌, contains,
}
use proofalpha.Prelude.Int.{ℤ, pos, ◌+ℤ◌}
use proofalpha.Prelude.Dict.{Dict, lookup}
use proofalpha.Python.Runtime.{Value}
use proofalpha.Python.Fixed.{fixed}
use proofalpha.Store.Events.{
  EventArguments, ExecutionEvent, append_all, append_execution_event, event_row, digest_payload,
  last_digest,
}
use proofalpha.Store.Chain.{IsChain, accepted, arguments_of, append_all-IsChain}
use proofalpha.Store.Commitment.{NoCollision, columns, digested, journal_commits}
use proofalpha.Store.Rebuild.{
  fill_row, replay_events, cleared, rebuilt, replay_step, risk_step, order_step, is_new_fill,
  record_fill, event_fill_id, order_live, abs_qty,
}
use proofalpha.Store.Fills.{first_fills, qty_over, cost_over, filled_over, filled_of}
use proofalpha.Store.Positions.{net_in, net_over}
use proofalpha.Store.Replayed.{rebuilt_fills}

abbrev event_of : String → String → Option ℤ → Dict (Value ℤ) → EventArguments ℤ
event_of event_type order qty metadata = record {
  ts_exchange = "2025-01-01T00:00:00Z";
  ts_gateway = "2025-01-01T00:00:00Z";
  ts_engine = "2025-01-01T00:00:00Z";
  source = "engine";
  event_type = event_type;
  symbol = some "BTCUSDT";
  side = some "BUY";
  order_id_client = some order;
  order_id_exchange = none;
  parent_intent_id = none;
  qty = qty;
  price = some (pos 100000000000);
  status = none;
  reason_code = none;
  metadata = metadata;
  schema_version = pos 1;
}

abbrev fill : EventArguments ℤ
fill = event_of "FILL" "order-1" (some (pos 2000000000)) (("fill_id", Value.text "fill-1") ∷ [])

-- an order, its fill, the fill once more, and a type that the table refuses
abbrev calls : List (EventArguments ℤ)
calls =
    event_of "ORDER_SUBMIT" "order-1" (some (pos 2000000000)) []
    ∷ fill
    ∷ fill
    ∷ event_of "ORDER_GUESS" "order-1" none []
    ∷ []

append_all-IsChain_example :
    IsChain fixed (append_all fixed calls [])
    × ((rows : List (ExecutionEvent ℤ)) × (append_all fixed calls [] ≡ [] ++ rows)
        × (arguments_of fixed rows ≡ accepted fixed calls))
append_all-IsChain_example = append_all-IsChain fixed calls [] IsChain.empty

length_run : length (append_all fixed calls []) ≡ 3
unfolding append_all append_execution_event contains
length_run = refl

-- Two journals of one row whose metadata differ but have one JSON text in this runtime.
abbrev maker : Value ℤ → EventArguments ℤ
maker v = event_of "ORDER_ACK" "order-1" none (("maker", v) ∷ [])

abbrev flagged : List (ExecutionEvent ℤ)
flagged = event_row fixed [] (maker (Value.bool true)) ∷ []

abbrev worded : List (ExecutionEvent ℤ)
worded = event_row fixed [] (maker (Value.text "true")) ∷ []

flagged-IsChain : IsChain fixed flagged
unfolding append_all append_execution_event contains
flagged-IsChain = (append_all-IsChain fixed (maker (Value.bool true) ∷ []) [] IsChain.empty).0

worded-IsChain : IsChain fixed worded
unfolding append_all append_execution_event contains
worded-IsChain = (append_all-IsChain fixed (maker (Value.text "true") ∷ []) [] IsChain.empty).0

alike :
    digested fixed (event_row fixed [] (maker (Value.bool true)))
    ≡ digested fixed (event_row fixed [] (maker (Value.text "true")))
unfolding event_row digest_payload
alike = refl

flagged-NoCollision : NoCollision fixed flagged worded
flagged-NoCollision d e i j h =
    ap (digested fixed) (Memᴰ.eq_of_singleton i)
    ∙ alike
    ∙ sym (ap (digested fixed) (Memᴰ.eq_of_singleton j))

journal_commits_example : map (columns fixed) flagged ≡ map (columns fixed) worded
unfolding last_digest event_row digest_payload
journal_commits_example =
    journal_commits fixed flagged worded flagged-IsChain worded-IsChain flagged-NoCollision refl
      (ap fixed.stable_hash alike)

abbrev row_of_fill : ℕ → ExecutionEvent ℤ
row_of_fill id = record {
  event_id = id;
  arguments = fill;
  previous_digest = none;
  event_digest = "digest";
  segment_digest = "segment";
}

-- A fill that stands in the journal twice counts once.
filled_run :
    filled_of fixed "order-1"
      (replay_events fixed (row_of_fill 1 ∷ row_of_fill 2 ∷ []) (cleared fixed))
    ≡ pos 2000000000
unfolding row_of replay_events replay_step risk_step contains order_step replace_row is_new_fill
    record_fill event_fill_id lookup truth str order_live ◌+ℤ◌ abs_qty
filled_run = refl

rebuilt_fills_example :
    let events = append_all fixed calls [] in
    let r = replay_events fixed events (cleared fixed) in
    let fills = first_fills fixed [] events in
    ((rebuilt fixed events).fills ≡ map (fill_row fixed) fills)
    × (r.position_qty ≡ qty_over fixed fills [])
    × (r.position_cost ≡ cost_over fixed fills [])
    × ((id : String) → filled_of fixed id r ≡ filled_over fixed id fills (pos 0))
    × ((s : String) → net_in fixed s (rebuilt fixed events).positions ≡ net_over fixed s none fills)
rebuilt_fills_example = rebuilt_fills fixed (append_all fixed calls [])
