-- ===== src/Reconcile/Blockers.antt =====
-- src/engine/execution/reconciliation.py: `_reconciliation_blockers`. A set of codes is the list of the
-- codes that are added to it.
use proofalpha.Prelude.{
  ℕ, String, Bool, true, false, not, Option, none, some, List, ◌∷◌, [], ◌++◌, ◌&&◌, if◌then◌else◌,
  contains, length, eqb, ltb, map, when,
}
use proofalpha.Prelude.Dict.{Dict, lookup, get_or}
use proofalpha.Python.Runtime.{Runtime, Value, Fields, bool}
use proofalpha.Python.Convert.{truth, str}
use proofalpha.Python.Sets.{sorted_set}
use proofalpha.Store.Events.{ExecutionEvent}
use proofalpha.Store.Tables.{fill_event_types}
use proofalpha.Reconcile.Accounting.{fields_get, field_or_zero}
use proofalpha.Reconcile.Local.{LocalOrder, LocalPosition, LocalRisk, LocalProjection}
use proofalpha.Reconcile.Gateway.{
  GatewayAccountSnapshot, GatewayOrderSnapshot, GatewayPositionSnapshot, GatewayStateSnapshot,
}

-- what a loop adds
abbrev pub flat : {A : Type 0} → (A → List String) → List A → List String
flat f [] = []
flat f (a ∷ rest) = f a ++ flat f rest

-- `set(xs)`, of which only the length matters
abbrev pub set_of : List String → List String
set_of [] = []
set_of (s ∷ rest) = if contains s rest then set_of rest else s ∷ set_of rest

abbrev pub same : Bool → Bool → Bool
same true b = b
same false b = not b

abbrev pub is_none : {A : Type 0} → Option A → Bool
is_none none = true
is_none (some a) = false

-- the groups of more than one row
unfoldable pub repeated_groups : List String → List String
repeated_groups [] = []
repeated_groups (s ∷ rest) =
    let later = repeated_groups rest in
    if contains s rest && not (contains s later) then s ∷ later else later

module _ (R : Runtime) where
  -- `_close`
  unfoldable pub is_close : Option R.Float → Option R.Float → Bool
  is_close none none = true
  is_close none (some y) = false
  is_close (some x) none = false
  is_close (some x) (some y) = R.le (R.abs (R.sub x y)) (R.lit 1 9)

  -- the gateway gives no value, or one that is close
  abbrev pub is_close_if_given : Option R.Float → Option R.Float → Bool
  is_close_if_given here none = true
  is_close_if_given here (some y) = is_close here (some y)

  -- `position.entry_price is not None and local_position["entry_price"] is not None and …`
  abbrev pub is_close_if_both : Option R.Float → Option R.Float → Bool
  is_close_if_both none y = true
  is_close_if_both (some x) none = true
  is_close_if_both (some x) (some y) = is_close (some x) (some y)

  -- `bool(local_order.get("metadata", {}).get("reduce_only", False))`
  abbrev pub is_reduce_only : LocalOrder R.Float → Bool
  is_reduce_only o = truth R (get_or (lookup "reduce_only" o.metadata) (bool false))

  -- what an order adds, of the local order with its identifier
  abbrev pub found_order_codes :
      Option (LocalOrder R.Float) → GatewayOrderSnapshot R.Float → List String
  found_order_codes none order = "orphan_order_detected" ∷ []
  found_order_codes (some o) order =
      when (not (is_close (some o.filled_qty) (some order.filled_qty))) "filled_qty_mismatch"
      ++ when (not (same (is_reduce_only o) order.reduce_only)) "reduce_only_mismatch"

  unfoldable pub order_codes :
      Dict (LocalOrder R.Float) → GatewayOrderSnapshot R.Float → List String
  order_codes orders order = found_order_codes (lookup order.order_id_client orders) order

  -- `[str(fill.get("fill_id")) for fill in snapshot.fills if fill.get("fill_id")]`
  unfoldable pub gateway_fill_ids : List (Fields R.Float) → List String
  gateway_fill_ids [] = []
  gateway_fill_ids (f ∷ rest) = elim (fields_get "fill_id" f) [
    | none ↦ gateway_fill_ids rest
    | some v ↦ if truth R v then str R v ∷ gateway_fill_ids rest else gateway_fill_ids rest
  ]

  abbrev pub is_known : {A : Type 0} → Dict A → String → Bool
  is_known d k = not (is_none (lookup k d))

  abbrev pub found_position_codes :
      Option (LocalPosition R.Float) → GatewayPositionSnapshot R.Float → List String
  found_position_codes none position = "symbol_exposure_drift" ∷ []
  found_position_codes (some p) position =
      if not (is_close (some p.net_qty) (some position.net_qty))
      then "symbol_exposure_drift" ∷ []
      else when (not (is_close_if_both p.entry_price position.entry_price)) "symbol_exposure_drift"

  unfoldable pub position_codes :
      Dict (LocalPosition R.Float) → GatewayPositionSnapshot R.Float → List String
  position_codes positions position =
      found_position_codes (lookup position.symbol positions) position

  unfoldable pub risk_codes :
      Option (LocalRisk R.Float) → GatewayAccountSnapshot R.Float → List String
  risk_codes none a =
      when
        (not (
          is_none a.exposure
          && (is_none a.margin_usage && (is_none a.realized_pnl && is_none a.unrealized_pnl))))
        "risk_state_mismatch"
  risk_codes (some r) a =
      when (not (is_close_if_given (some r.exposure) a.exposure)) "risk_state_mismatch"
      ++ (when (not (is_close_if_given (some r.margin_usage) a.margin_usage)) "risk_state_mismatch"
          ++ (when (not (is_close_if_given (some r.realized_pnl) a.realized_pnl))
                "risk_state_mismatch"
              ++ when (not (is_close_if_given (some r.unrealized_pnl) a.unrealized_pnl))
                  "risk_state_mismatch"))

  -- `_local_duplicate_fill_count`: `key` is the value of `json_extract(metadata_json, '$.fill_id')`, as
  -- SQLite groups by it (`none`: NULL)
  unfoldable pub local_duplicate_fill_count :
      (Option (Value R.Float) → Option String) → List (ExecutionEvent R.Float) → ℕ
  local_duplicate_fill_count key events = length (repeated_groups (grouped events))
    where
      grouped : List (ExecutionEvent R.Float) → List String
      grouped [] = []
      grouped (e ∷ rest) =
          let later = grouped rest in
          if contains e.arguments.event_type fill_event_types
          then elim (key (lookup "fill_id" e.arguments.metadata)) [
            | none ↦ later
            | some id ↦ id ∷ later
          ]
          else later

  -- the codes in the order in which they are added
  unfoldable pub blocker_codes :
      ℕ → LocalProjection R.Float → GatewayStateSnapshot R.Float → List String
  blocker_codes duplicates l s =
      let ids = gateway_fill_ids s.fills in
      when s.account.stale "stale_account_snapshot_detected"
      ++ (flat (order_codes l.orders) s.open_orders
          ++ (when (not (eqb (length ids) (length (set_of ids)))) "duplicate_fill_detected"
              ++ (flat (λ id. when (not (is_known l.fills id)) "missing_fill_detected") ids
                  ++ (when (ltb 0 duplicates) "duplicate_fill_detected"
                      ++ (flat (position_codes l.positions) s.positions
                          ++ (risk_codes l.risk s.account
                              ++ (when
                                    (not (
                                      is_close (some l.funding_fee) (
                                        some (
                                          R.sum (
                                            map (λ f. field_or_zero R (fields_get "funding_fee" f))
                                              s.funding)))))
                                    "funding_mismatch"
                                  ++ (when (not (is_close_if_given l.equity s.account.equity))
                                        "cash_equity_mismatch"
                                      ++ (when
                                            (not (
                                              is_close_if_given l.cash_balance
                                                s.account.cash_balance))
                                            "cash_equity_mismatch"
                                          ++ (when
                                                (not (
                                                  is_close_if_given (some l.realized_pnl)
                                                    s.account.realized_pnl))
                                                "pnl_mismatch"
                                              ++ when
                                                  (not (
                                                    is_close_if_given (some l.unrealized_pnl)
                                                      s.account.unrealized_pnl))
                                                  "pnl_mismatch"))))))))))

  -- `_reconciliation_blockers`
  unfoldable pub reconciliation_blockers :
      ℕ → LocalProjection R.Float → GatewayStateSnapshot R.Float → List String
  reconciliation_blockers duplicates l s = sorted_set (blocker_codes duplicates l s)
