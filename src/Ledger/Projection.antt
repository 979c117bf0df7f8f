-- ===== src/Ledger/Projection.antt =====
-- src/engine/execution/state_projection.py: positions, cash, fees and funding rebuilt from the
-- events.
use proofalpha.Prelude.{String, none, some, List, ◌∷◌, [], ◌==◌, if◌then◌else◌, contains, map}
use proofalpha.Prelude.Dict.{Dict, lookup, insert, get_or}
use proofalpha.Python.Runtime.{Runtime, Value, float, object, Fields, fields}
use proofalpha.Python.Convert.{key_error, Result, ok, ◌>>=◌, or_raise, truth, str, to_float}
use proofalpha.Python.Sets.{sorted_items}
use proofalpha.Ledger.Event.{LedgerEvent}

pub record StateProjection (Float : Type 0) : Type 0 where
  pub positions : Dict Float
  pub cash : Float
  pub fees : Float
  pub funding : Float
  pub realized_pnl : Float
  pub projection_digest : String

-- The local variables of the loop; `realized_pnl` stays at 0.
pub record Running (Float : Type 0) : Type 0 where
  pub positions : Dict Float
  pub cash : Float
  pub fees : Float
  pub funding : Float
  pub seen_fills : List String

module _ (R : Runtime) where
  -- `payload[key]`
  abbrev pub require : String → Dict (Value R.Float) → Result (Value R.Float)
  require key d = or_raise (lookup key d) (key_error key)

  -- `float(payload.get(key, 0.0))`
  abbrev pub float_or_zero : String → Dict (Value R.Float) → Result R.Float
  float_or_zero key d = to_float R (get_or (lookup key d) (float (R.lit 0 0)))

  -- `str(payload.get("fill_id") or event.event_id)`
  unfoldable pub fill_id_of : LedgerEvent R.Float → String
  fill_id_of e = elim (lookup "fill_id" e.payload) [
    | none ↦ e.event_id
    | some v ↦ (if truth R v then str R v else e.event_id)
  ]

  -- A fill that was read: symbol, signed quantity, price, fee.
  abbrev book_fill : String → R.Float → R.Float → R.Float → Running R.Float → Running R.Float
  book_fill symbol signed_qty price fee s = record s {
    positions =
        insert symbol
          (R.round (R.add (get_or (lookup symbol s.positions) (R.lit 0 0)) signed_qty) 12)
          s.positions;
    cash = R.sub (R.sub s.cash (R.mul signed_qty price)) fee;
    fees = R.add s.fees fee;
  }

  -- the FILL branch, once the fill id is known to be new
  unfoldable pub new_fill : LedgerEvent R.Float → Running R.Float → Result (Running R.Float)
  new_fill e s = require "symbol" e.payload >>= λ symbol. require "side" e.payload >>= λ side.
      float_or_zero "qty" e.payload >>= λ qty. float_or_zero "price" e.payload >>= λ price.
      float_or_zero "fee" e.payload >>= λ fee. ok (
        book_fill (str R symbol) (if R.upper (str R side) == "BUY" then qty else R.neg qty) price
          fee s)

  unfoldable pub apply_fill : LedgerEvent R.Float → Running R.Float → Result (Running R.Float)
  apply_fill e s =
      let booked = new_fill e (record s { seen_fills = fill_id_of e ∷ s.seen_fills }) in
      if contains (fill_id_of e) s.seen_fills then ok s else booked

  unfoldable pub apply_funding : LedgerEvent R.Float → Running R.Float → Result (Running R.Float)
  apply_funding e s = float_or_zero "amount" e.payload >>= λ amount.
      ok (record s { funding = R.add s.funding amount; cash = R.add s.cash amount })

  -- the body of the loop
  unfoldable pub apply_event : LedgerEvent R.Float → Running R.Float → Result (Running R.Float)
  apply_event e s =
      if e.event_type == "FILL"
      then apply_fill e s
      else if e.event_type == "FUNDING"
      then apply_funding e s
      else ok s

  unfoldable pub apply_events :
      List (LedgerEvent R.Float) → Running R.Float → Result (Running R.Float)
  apply_events [] s = ok s
  apply_events (e ∷ es) s = apply_event e s >>= apply_events es

  abbrev pub start : Running R.Float
  start = record {
    positions = [];
    cash = R.lit 0 0;
    fees = R.lit 0 0;
    funding = R.lit 0 0;
    seen_fills = [];
  }

  abbrev float_fields : Dict R.Float → Fields R.Float
  float_fields d = fields (map (λ e. (e.0, float e.1)) d)

  -- what follows the loop: sort, round, hash
  unfoldable pub finish : Running R.Float → StateProjection R.Float
  finish s =
      let positions = sorted_items s.positions in
      let cash = R.round s.cash 12 in
      let fees = R.round s.fees 12 in
      let funding = R.round s.funding 12 in
      let realized_pnl = R.round (R.lit 0 0) 12 in
      record {
        positions = positions;
        cash = cash;
        fees = fees;
        funding = funding;
        realized_pnl = realized_pnl;
        projection_digest = R.stable_hash (
            object (
              fields (
                ("positions", object (float_fields positions))
                ∷ ("cash", float cash)
                ∷ ("fees", float fees)
                ∷ ("funding", float funding)
                ∷ ("realized_pnl", float realized_pnl)
                ∷ [])));
      }

  unfoldable pub rebuild_state_projection :
      List (LedgerEvent R.Float) → Result (StateProjection R.Float)
  rebuild_state_projection events = apply_events events start >>= λ s. ok (finish s)
