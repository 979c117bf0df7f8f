-- ===== src/Venue/Request.antt =====
-- src/engine/execution/venue_order_request.py: the order as the venue receives it, and its checks.
use Prim.Native.String
use proofalpha.Prelude.{
  String, Bool, not, Option, none, some, List, ◌∷◌, [], ◌++◌, ◌==◌, ◌&&◌, true, false, is_empty,
  when, contains, eqb,
}
use proofalpha.Prelude.Int.{ℤ}
use proofalpha.Python.Runtime.{Runtime, Value, float, text, object, fields}
use proofalpha.Orders.Intent.{InternalOrderIntent, deterministic_client_order_id}

pub record VenueOrderRequest (Float : Type 0) : Type 0 where
  pub venue : String
  pub symbol : String
  pub side : String
  pub position_side : String
  pub type : String
  pub time_in_force : Option String
  pub quantity : Float
  pub price : Option Float
  pub stop_price : Option Float
  pub reduce_only : Bool
  pub close_position : Bool
  pub working_type : String
  pub price_protect : Bool
  pub new_client_order_id : String
  pub self_trade_prevention_mode : String
  pub recv_window : ℤ
  pub timestamp : ℤ
  pub metadata_hash : String

pub record VenueOrderRequestValidation : Type 0 where
  pub passed : Bool
  pub issues : List String

-- The keyword arguments of `build_venue_order_request`.
pub record OrderArguments (Float : Type 0) : Type 0 where
  pub venue : String
  pub quantity : Float
  pub order_type : String
  pub time_in_force : Option String
  pub price : Option Float
  pub stop_price : Option Float
  pub timestamp : ℤ
  pub position_side : String
  pub working_type : String
  pub price_protect : Bool
  pub self_trade_prevention_mode : String
  pub recv_window : ℤ

module _ (R : Runtime) where
  unfoldable pub metadata : InternalOrderIntent R.Float → Value R.Float
  metadata i = object (
      fields (
        ("intent_id", text i.intent_id)
        ∷ ("artifact_id", text i.artifact_id)
        ∷ ("portfolio_plan_id", text i.portfolio_plan_id)
        ∷ (
          "guards",
          object (
              fields (
                ("max_slippage_bps", float i.max_slippage_bps)
                ∷ ("max_spread_bps", float i.max_spread_bps)
                ∷ ("max_participation_rate", float i.max_participation_rate)
                ∷ ("funding", text i.funding_guard_policy)
                ∷ ("liquidation", text i.liquidation_guard_policy)
                ∷ [])),
        )
        ∷ []))

  unfoldable pub build_venue_order_request :
      InternalOrderIntent R.Float → OrderArguments R.Float → VenueOrderRequest R.Float
  build_venue_order_request intent a = record {
    venue = a.venue;
    symbol = intent.symbol;
    side = intent.side;
    position_side = a.position_side;
    type = a.order_type;
    time_in_force = a.time_in_force;
    quantity = a.quantity;
    price = a.price;
    stop_price = a.stop_price;
    reduce_only = intent.reduce_only_required;
    close_position = intent.intent_type == "close";
    working_type = a.working_type;
    price_protect = a.price_protect;
    new_client_order_id = deterministic_client_order_id R intent a.venue;
    self_trade_prevention_mode = a.self_trade_prevention_mode;
    recv_window = a.recv_window;
    timestamp = a.timestamp;
    metadata_hash = R.stable_hash (metadata intent);
  }

  abbrev pub is_none : {A : Type 0} → Option A → Bool
  is_none none = true
  is_none (some a) = false

  unfoldable pub request_issues : VenueOrderRequest R.Float → List String
  request_issues r =
      when (r.venue == "") "missing_venue"
      ++ (when (r.symbol == "") "missing_symbol"
          ++ (when (not (contains r.side ("BUY" ∷ "SELL" ∷ []))) "invalid_side"
              ++ (when (R.le r.quantity (R.lit 0 0)) "invalid_quantity"
                  ++ (when (R.upper r.type == "LIMIT" && is_none r.price) "limit_price_required"
                      ++ (when (r.new_client_order_id == "") "missing_client_order_id"
                          ++ when (not (eqb (String.count r.metadata_hash) 64))
                              "invalid_metadata_hash")))))

  unfoldable pub validate_venue_order_request :
      VenueOrderRequest R.Float → VenueOrderRequestValidation
  validate_venue_order_request r = record {
    passed = is_empty (request_issues r);
    issues = request_issues r;
  }
