-- ===== src/Portfolio/Delta.antt =====
-- src/engine/portfolio/delta_order_plan.py: from the positions held to those wanted.
use proofalpha.Prelude.{
  String, Bool, Option, none, some, List, ◌∷◌, [], ◌++◌, ◌==◌, ◌&&◌, if◌then◌else◌, concat, map,
  slice,
}
use proofalpha.Prelude.Dict.{Dict, lookup, insert, get_or}
use proofalpha.Python.Runtime.{Runtime, Value, null, bool, float, text, object, fields}
use proofalpha.Python.Sets.{sorted_set, sorted_items}
use proofalpha.Portfolio.Target.{SymbolTarget}
use proofalpha.Portfolio.Plan.{item_list, value_dict}

module _ (Float : Type 0) where
  pub record DeltaAction : Type 0 where
    pub symbol : String
    pub artifact_id : Option String
    pub side : String
    pub current_notional : Float
    pub target_notional : Float
    pub delta_notional : Float
    pub action : String
    pub reduce_only : Bool
    pub rebalance_reason : String

  pub record DeltaOrderPlan : Type 0 where
    pub delta_order_plan_id : String
    pub target_portfolio_id : String
    pub current_positions : Dict Float
    pub target_positions : Dict Float
    pub opens : List DeltaAction
    pub increases : List DeltaAction
    pub reductions : List DeltaAction
    pub closes : List DeltaAction
    pub estimated_turnover : Float
    pub estimated_fees : Float
    pub estimated_slippage : Float
    pub estimated_funding : Float

  -- A dict of `to_internal_order_intents`.
  pub record DeltaIntent : Type 0 where
    pub symbol : String
    pub artifact_id : Option String
    pub side : String
    pub qty_notional : Float
    pub reduce_only : Bool
    pub source_delta_plan_id : String
    pub source_delta_action : String

abbrev pub dict_keys : {V : Type 0} → Dict V → List String
dict_keys d = map (λ e. e.0) d

module _ (R : Runtime) where
  abbrev pub Action : Type 0
  Action = DeltaAction R.Float

  -- `_target_notional_by_symbol`
  unfoldable pub target_notional_by_symbol :
      Dict R.Float → List (SymbolTarget R.Float) → Dict R.Float
  target_notional_by_symbol d [] = d
  target_notional_by_symbol d (t ∷ rest) =
      target_notional_by_symbol
        (insert t.symbol
          (R.round (R.add (get_or (lookup t.symbol d) (R.lit 0 0)) t.target_notional) 8) d)
        rest

  -- `{target.symbol: … for target in target_positions}`
  unfoldable pub by_symbol :
      (SymbolTarget R.Float → String) → Dict String → List (SymbolTarget R.Float) → Dict String
  by_symbol f d [] = d
  by_symbol f d (t ∷ rest) = by_symbol f (insert t.symbol (f t) d) rest

  abbrev pub action_name : R.Float → R.Float → R.Float → String
  action_name current target delta =
      if R.eq current (R.lit 0 0) && R.lt (R.lit 0 0) target
      then "open"
      else (if R.eq target (R.lit 0 0) && R.lt (R.lit 0 0) current
          then "close"
          else (if R.lt (R.lit 0 0) delta then "increase" else "reduction"))

  abbrev pub notional_at : Dict R.Float → String → R.Float
  notional_at d symbol = get_or (lookup symbol d) (R.lit 0 0)

  -- `round(target_notional - current_notional, 8)`
  abbrev pub delta_at : Dict R.Float → Dict R.Float → String → R.Float
  delta_at current target symbol =
      R.round (R.sub (notional_at target symbol) (notional_at current symbol)) 8

  -- `abs(delta) < 1e-9`
  abbrev pub is_negligible : R.Float → Bool
  is_negligible delta = R.lt (R.abs delta) (R.lit 1 9)

  -- the action of one round of the loop
  unfoldable pub delta_action :
      Dict R.Float → Dict R.Float → List (SymbolTarget R.Float) → String → Action
  delta_action current target targets symbol = record {
    symbol = symbol;
    artifact_id =
        lookup symbol (by_symbol (λ (t : SymbolTarget R.Float). t.artifact_id) [] targets);
    side = if R.lt (R.lit 0 0) (delta_at current target symbol) then "BUY" else "SELL";
    current_notional = R.round (notional_at current symbol) 8;
    target_notional = R.round (notional_at target symbol) 8;
    delta_notional = delta_at current target symbol;
    action =
        action_name (notional_at current symbol) (notional_at target symbol)
          (delta_at current target symbol);
    reduce_only = R.lt (delta_at current target symbol) (R.lit 0 0);
    rebalance_reason =
        get_or
          (lookup symbol (by_symbol (λ (t : SymbolTarget R.Float). t.rebalance_reason) [] targets))
          "target_delta";
  }

  -- the loop over the symbols
  unfoldable pub delta_actions :
      Dict R.Float → Dict R.Float → List (SymbolTarget R.Float) → List String → List Action
  delta_actions current target targets [] = []
  delta_actions current target targets (symbol ∷ rest) =
      if is_negligible (delta_at current target symbol)
      then delta_actions current target targets rest
      else delta_action current target targets symbol ∷ delta_actions current target targets rest

  -- `tuple(action for action in actions if action.action == name)`
  unfoldable pub named : String → List Action → List Action
  named name [] = []
  named name (a ∷ rest) = if a.action == name then a ∷ named name rest else named name rest

  abbrev pub text_or_null : Option String → Value R.Float
  text_or_null none = null
  text_or_null (some s) = text s

  -- `DeltaAction.to_dict`
  unfoldable pub action_value : Action → Value R.Float
  action_value a = object (
      fields (
        ("symbol", text a.symbol)
        ∷ ("artifact_id", text_or_null a.artifact_id)
        ∷ ("side", text a.side)
        ∷ ("current_notional", float a.current_notional)
        ∷ ("target_notional", float a.target_notional)
        ∷ ("delta_notional", float a.delta_notional)
        ∷ ("action", text a.action)
        ∷ ("reduce_only", bool a.reduce_only)
        ∷ ("rebalance_reason", text a.rebalance_reason)
        ∷ []))

  -- `"delta-order-plan-" + _stable_hash(payload)[:16]`
  unfoldable pub delta_plan_id : String → Dict R.Float → Dict R.Float → List Action → String
  delta_plan_id plan_id current target actions = concat "delta-order-plan-" (
      slice
        (R.stable_hash (
          object (
            fields (
              ("target_portfolio_id", text plan_id)
              ∷ ("current_positions", object (fields (value_dict float (sorted_items current))))
              ∷ ("target_positions", object (fields (value_dict float (sorted_items target))))
              ∷ ("actions", item_list action_value actions)
              ∷ []))))
        0 16)

  -- `round(turnover * bps / 10_000.0, 8)`
  abbrev pub cost_of : R.Float → R.Float → R.Float
  cost_of turnover bps = R.round (R.div (R.mul turnover bps) (R.lit 10000 0)) 8

  -- `sorted(set(current) | set(target_by_symbol))`
  abbrev pub symbols_of : Dict R.Float → Dict R.Float → List String
  symbols_of current target = sorted_set (dict_keys current ++ dict_keys target)

  unfoldable pub build_delta_order_plan :
      String
      → Dict R.Float
      → List (SymbolTarget R.Float)
      → R.Float
      → R.Float
      → R.Float
      → DeltaOrderPlan R.Float
  build_delta_order_plan plan_id current targets fee_bps slippage_bps funding_cost_bps =
      let target = target_notional_by_symbol [] targets in
      let actions = delta_actions current target targets (symbols_of current target) in
      let turnover = R.round (R.sum (map (λ (a : Action). R.abs a.delta_notional) actions)) 8 in
      record {
        delta_order_plan_id = delta_plan_id plan_id current target actions;
        target_portfolio_id = plan_id;
        current_positions = sorted_items current;
        target_positions = sorted_items target;
        opens = named "open" actions;
        increases = named "increase" actions;
        reductions = named "reduction" actions;
        closes = named "close" actions;
        estimated_turnover = turnover;
        estimated_fees = cost_of turnover fee_bps;
        estimated_slippage = cost_of turnover slippage_bps;
        estimated_funding = cost_of turnover funding_cost_bps;
      }

  -- `(*self.opens, *self.increases, *self.reductions, *self.closes)`
  abbrev pub actions_of : DeltaOrderPlan R.Float → List Action
  actions_of p = p.opens ++ (p.increases ++ (p.reductions ++ p.closes))

  unfoldable pub to_internal_order_intents : DeltaOrderPlan R.Float → List (DeltaIntent R.Float)
  to_internal_order_intents p =
      map
        (λ (a : Action). record {
          symbol = a.symbol;
          artifact_id = a.artifact_id;
          side = a.side;
          qty_notional = R.abs a.delta_notional;
          reduce_only = a.reduce_only;
          source_delta_plan_id = p.delta_order_plan_id;
          source_delta_action = a.action;
        })
        (actions_of p)
