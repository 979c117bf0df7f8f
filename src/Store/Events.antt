-- ===== src/Store/Events.antt =====
-- src/engine/memory/store.py: the table `execution_events` and `append_execution_event`. A JSON column
-- holds the data that `json.dumps` is applied to.
use proofalpha.Prelude.{
  ℕ, suc, String, Option, none, some, List, ◌∷◌, [], ◌++◌, ◌==◌, if◌then◌else◌, concat, contains,
}
use proofalpha.Prelude.Int.{ℤ}
use proofalpha.Prelude.Dict.{Dict}
use proofalpha.Python.Runtime.{Runtime, Value, null, int, float, text, object, fields}

-- `V3_EXECUTION_EVENT_TYPES`, which the CHECK of the column `event_type` lists
abbrev pub v3_execution_event_types : List String
v3_execution_event_types =
    "INTENT_CREATE" ∷ "ORDER_SUBMIT" ∷ "ORDER_ACK" ∷ "FILL" ∷ "ORDER_CANCEL_REQUEST"
    ∷ "ORDER_NEW_SUBMIT" ∷ "ORDER_NEW_ACK" ∷ "ORDER_PARTIAL_FILL" ∷ "ORDER_FILL"
    ∷ "ORDER_CANCEL_SUBMIT" ∷ "ORDER_CANCEL_ACK" ∷ "ORDER_CANCEL_REJECT" ∷ "ORDER_REJECT"
    ∷ "ACCOUNT_SNAPSHOT" ∷ "RISK_BLOCK" ∷ "POSITION_RECONCILE" ∷ "KILL_SWITCH_TRIGGER"
    ∷ "ENGINE_START" ∷ "ENGINE_STOP" ∷ "ENGINE_RECOVER_REPLAY" ∷ []

-- the arguments of `append_execution_event`
pub record EventArguments (Float : Type 0) : Type 0 where
  pub ts_exchange : String
  pub ts_gateway : String
  pub ts_engine : String
  pub source : String
  pub event_type : String
  pub symbol : Option String
  pub side : Option String
  pub order_id_client : Option String
  pub order_id_exchange : Option String
  pub parent_intent_id : Option String
  pub qty : Option Float
  pub price : Option Float
  pub status : Option String
  pub reason_code : Option String
  pub metadata : Dict (Value Float)
  pub schema_version : ℤ

-- a row of `execution_events`
pub record ExecutionEvent (Float : Type 0) : Type 0 where
  pub event_id : ℕ
  pub arguments : EventArguments Float
  pub previous_digest : Option String
  pub event_digest : String
  pub segment_digest : String

-- the row id, or the IntegrityError of the CHECK
pub data Appended : Type 0 where
  appended : ℕ → Appended
  check_failed : Appended

module _ {Float : Type 0} where
  -- `SELECT event_digest FROM execution_events ORDER BY event_id DESC LIMIT 1`, or ""
  unfoldable pub last_digest : List (ExecutionEvent Float) → String
  last_digest [] = ""
  last_digest (e ∷ []) = e.event_digest
  last_digest (e ∷ next ∷ rest) = last_digest (next ∷ rest)

  -- AUTOINCREMENT, on a table from which nothing is deleted
  unfoldable pub next_event_id : List (ExecutionEvent Float) → ℕ
  next_event_id [] = 1
  next_event_id (e ∷ []) = suc e.event_id
  next_event_id (e ∷ next ∷ rest) = next_event_id (next ∷ rest)

abbrev pub text_or_null : {Float : Type 0} → Option String → Value Float
text_or_null none = null
text_or_null (some s) = text s

abbrev pub float_or_null : {Float : Type 0} → Option Float → Value Float
float_or_null none = null
float_or_null (some x) = float x

-- `previous_digest or None`
abbrev pub or_none : String → Option String
or_none s = if s == "" then none else some s

module _ (R : Runtime) where
  unfoldable pub digest_payload : String → EventArguments R.Float → Value R.Float
  digest_payload previous_digest a = object (
      fields (
        ("previous_digest", text previous_digest)
        ∷ ("ts_exchange", text a.ts_exchange)
        ∷ ("ts_gateway", text a.ts_gateway)
        ∷ ("ts_engine", text a.ts_engine)
        ∷ ("source", text a.source)
        ∷ ("symbol", text_or_null a.symbol)
        ∷ ("side", text_or_null a.side)
        ∷ ("order_id_client", text_or_null a.order_id_client)
        ∷ ("order_id_exchange", text_or_null a.order_id_exchange)
        ∷ ("parent_intent_id", text_or_null a.parent_intent_id)
        ∷ ("event_type", text a.event_type)
        ∷ ("qty", float_or_null a.qty)
        ∷ ("price", float_or_null a.price)
        ∷ ("status", text_or_null a.status)
        ∷ ("reason_code", text_or_null a.reason_code)
        ∷ ("metadata_json", text (R.json_text (fields a.metadata)))
        ∷ ("schema_version", int a.schema_version)
        ∷ []))

  -- the row that is inserted after the given ones
  unfoldable pub event_row :
      List (ExecutionEvent R.Float) → EventArguments R.Float → ExecutionEvent R.Float
  event_row events a =
      let previous_digest = last_digest events in
      let event_digest = R.stable_hash (digest_payload previous_digest a) in
      record {
        event_id = next_event_id events;
        arguments = a;
        previous_digest = or_none previous_digest;
        event_digest = event_digest;
        segment_digest = R.sha256 (concat previous_digest (concat ":" event_digest));
      }

  -- `append_execution_event`
  unfoldable pub append_execution_event :
      EventArguments R.Float
      → List (ExecutionEvent R.Float)
      → List (ExecutionEvent R.Float) × Appended
  append_execution_event a events =
      if contains a.event_type v3_execution_event_types
      then (events ++ (event_row events a ∷ []), appended (next_event_id events))
      else (events, check_failed)

  -- Calls one after the other.
  unfoldable pub append_all :
      List (EventArguments R.Float) → List (ExecutionEvent R.Float) → List (ExecutionEvent R.Float)
  append_all [] events = events
  append_all (a ∷ rest) events = append_all rest (append_execution_event a events).0
