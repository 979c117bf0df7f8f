-- ===== src/Reconcile/Tests.antt =====
-- Runs of src/engine/execution/reconciliation.py, and the theorems about it at them.
use proofalpha.Python.Sets.{sorted_set}
use proofalpha.Prelude.Rows.{has_key}
use mathlib.Core.List.Memᴰ
use proofalpha.Prelude.{
  Option, String, true, false, Option, none, some, ◌∷◌, [], ◌≡◌, ◌↔◌, refl, is_empty, contains,
}
use proofalpha.Prelude.Int.{ℤ, pos, ◌-ℤ◌}
use proofalpha.Prelude.Dict.{Dict, lookup}
use proofalpha.Python.Runtime.{Value, Items, fields}
use proofalpha.Python.Convert.{ok, truth, str}
use proofalpha.Python.Fixed.{fixed}
use proofalpha.Store.Events.{ExecutionEvent}
use proofalpha.Store.Rebuild.{rebuilt}
use proofalpha.Portfolio.OverrideTables.{OverrideDb}
use proofalpha.Reconcile.Ledgers.{Books, cleared_books}
use proofalpha.Reconcile.Snapshots.{
  rebuild_books, book_events, book_event, listed_positions, listed_symbol,
}
use proofalpha.Reconcile.Local.{LocalProjection, load_local_projection}
use proofalpha.Reconcile.Gateway.{
  GatewayAccountSnapshot, GatewayStateSnapshot, gateway_snapshot_from_payload,
}
use proofalpha.Reconcile.Blockers.{
  local_duplicate_fill_count, reconciliation_blockers, blocker_codes, order_codes, gateway_fill_ids,
  risk_codes, is_close,
}
use proofalpha.Reconcile.Matched.{Agrees, reconciliation_blockers_iff}
use proofalpha.Reconcile.Phase3.{ReconcileDb, Stamps, KeepsOthers}
use proofalpha.Reconcile.Run.{ReconciliationReport, reconcile_projection_with_gateway, blockers_of}
use proofalpha.Reconcile.Response.{Responds, reconcile_response}
use proofalpha.Reconcile.Poison.{poisoned_journal}
use proofalpha.Reconcile.Payload.{snapshot_to_payload, gateway_snapshot-to_payload}

abbrev row_of_event : String → Dict (Value ℤ) → ExecutionEvent ℤ
row_of_event event_type metadata = record {
  event_id = 1;
  arguments = record {
    ts_exchange = "2025-01-01T00:00:00Z";
    ts_gateway = "2025-01-01T00:00:00Z";
    ts_engine = "2025-01-01T00:00:00Z";
    source = "engine";
    event_type = event_type;
    symbol = some "BTCUSDT";
    side = some "BUY";
    order_id_client = some "order-1";
    order_id_exchange = none;
    parent_intent_id = none;
    qty = some (pos 2000000000);
    price = some (pos 100000000000);
    status = none;
    reason_code = none;
    metadata = metadata;
    schema_version = pos 1;
  };
  previous_digest = none;
  event_digest = "digest";
  segment_digest = "segment";
}

abbrev listed : Value ℤ
listed = Value.object (fields (("symbol", Value.text "BTCUSDT") ∷ []))

-- a snapshot of the account that lists one symbol twice
abbrev twice : ExecutionEvent ℤ
twice =
    row_of_event "ACCOUNT_SNAPSHOT"
      (("positions", Value.list (Items.item listed (Items.item listed Items.nothing))) ∷ [])

poisoned_journal_example : rebuild_books fixed (twice ∷ []) ≡ none
unfolding listed_positions lookup listed_symbol truth str
poisoned_journal_example = poisoned_journal fixed (twice ∷ []) twice (Memᴰ.head refl) refl refl

abbrev account : GatewayAccountSnapshot ℤ
account = record {
  account_id = "account";
  stale = false;
  equity = none;
  cash_balance = none;
  realized_pnl = none;
  unrealized_pnl = none;
  margin_usage = none;
  exposure = none;
}

-- an order of the gateway that the journal does not know
abbrev snapshot : GatewayStateSnapshot ℤ
snapshot = record {
  account = account;
  open_orders =
      record {
        order_id_client = "order-2";
        symbol = "BTCUSDT";
        side = "BUY";
        qty = pos 1000000000;
        filled_qty = pos 0;
        status = "NEW";
        reduce_only = false;
      }
      ∷ [];
  fills = [];
  positions = [];
  funding = [];
}

abbrev db : OverrideDb ℤ
db = record {
  artifacts =
      record { artifact_id = "artifact-1"; rollout_stage = some "paper"; approved = true } ∷ [];
  human_override_journal = [];
  risk_events = [];
  execution_events = row_of_event "ORDER_SUBMIT" [] ∷ [];
}

abbrev books : Books ℤ
books = cleared_books (rebuilt fixed db.execution_events)

abbrev key : Option (Value ℤ) → Option String
key v = none

abbrev draws : String → String × String
draws action = ("2025-01-01T00:00:01Z", action)

abbrev local : LocalProjection ℤ
local = record {
  orders = [];
  fills = [];
  positions = [];
  risk = none;
  funding_fee = pos 0;
  realized_pnl = pos 0;
  unrealized_pnl = pos 0;
  equity = none;
  cash_balance = none;
}

blockers_run : reconciliation_blockers fixed 0 local snapshot ≡ "orphan_order_detected" ∷ []
unfolding reconciliation_blockers sorted_set blocker_codes order_codes lookup gateway_fill_ids
    risk_codes is_close ◌-ℤ◌
blockers_run = refl

reconciliation_blockers_iff_example :
    (is_empty (reconciliation_blockers fixed 0 local snapshot) ≡ true)
    ↔ Agrees fixed 0 local snapshot
reconciliation_blockers_iff_example = reconciliation_blockers_iff fixed 0 local snapshot

abbrev stamps : Stamps ℤ
stamps = record {
  projection_digest = λ tables. "digest";
  phase3_projection_digest = λ tables. "digest";
  now = "2025-01-01T00:00:02Z";
}

abbrev stored : ReconcileDb ℤ
stored = record { overrides = db; books = books; replay_checkpoints = [] }

abbrev reconciled : ReconcileDb ℤ × Option ReconciliationReport
reconciled =
    reconcile_projection_with_gateway fixed key stamps draws snapshot "operator-1" "artifact-1"
      stored

reconcile_response_example :
    (reconciled.0.books ≡ books)
    × KeepsOthers fixed stamps db.execution_events [] reconciled.0.replay_checkpoints
    × Responds fixed draws "operator-1" "artifact-1"
        (Agrees fixed
          (local_duplicate_fill_count fixed key db.execution_events)
          (load_local_projection fixed books)
          snapshot)
        (blockers_of fixed key books db snapshot)
        db
        (reconciled.0.overrides, reconciled.1)
unfolding rebuild_books book_events book_event contains has_key
reconcile_response_example =
    reconcile_response fixed draws "operator-1" "artifact-1" key stamps snapshot stored books refl
      refl refl (refl, (refl, (refl, (refl, tt)))) (refl, (refl, (refl, (refl, tt))))

gateway_snapshot-to_payload_example :
    gateway_snapshot_from_payload fixed (snapshot_to_payload snapshot) ≡ ok snapshot
gateway_snapshot-to_payload_example =
    gateway_snapshot-to_payload fixed snapshot (((λ h. cc, λ h. refl)), tt) tt
