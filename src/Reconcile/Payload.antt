-- ===== src/Reconcile/Payload.antt =====
-- src/engine/execution/reconciliation.py: `snapshot_to_payload`, which `gateway_snapshot_from_payload`
-- reads back.
use proofalpha.Prelude.{
  String, true, Option, none, some, List, ◌∷◌, [], ◌≡◌, refl, sym, ap, map, All, if◌then◌else◌,
  Bool-cases, inl, inr,
}
use proofalpha.Python.Runtime.{
  Runtime, Value, Fields, Items, null, bool, float, text, object, list, item, nothing, fields,
}
use proofalpha.Python.Convert.{Result, ok, truth, str, to_float}
use proofalpha.Reconcile.Accounting.{fields_get, float_of_value}
use proofalpha.Reconcile.Gateway.{
  GatewayOrderSnapshot, GatewayPositionSnapshot, GatewayStateSnapshot, number_field, str_field,
  bool_field, order_snapshot, position_of, dicts_of, items_of, parse_all,
  gateway_snapshot_from_payload,
}

abbrev pub optional_float : {Float : Type 0} → Option Float → Value Float
optional_float none = null
optional_float (some x) = float x

abbrev pub dict_items : {Float : Type 0} → List (Fields Float) → Items Float
dict_items [] = nothing
dict_items (f ∷ rest) = item (object f) (dict_items rest)

module _ {Float : Type 0} where
  -- `order.__dict__`
  unfoldable pub order_fields : GatewayOrderSnapshot Float → Fields Float
  order_fields o = fields (
      ("order_id_client", text o.order_id_client)
      ∷ ("symbol", text o.symbol)
      ∷ ("side", text o.side)
      ∷ ("qty", float o.qty)
      ∷ ("filled_qty", float o.filled_qty)
      ∷ ("status", text o.status)
      ∷ ("reduce_only", bool o.reduce_only)
      ∷ [])

  -- `position.__dict__`
  unfoldable pub position_fields : GatewayPositionSnapshot Float → Fields Float
  position_fields p = fields (
      ("symbol", text p.symbol)
      ∷ ("net_qty", float p.net_qty)
      ∷ ("entry_price", optional_float p.entry_price)
      ∷ ("unrealized_pnl", optional_float p.unrealized_pnl)
      ∷ [])

  -- `snapshot_to_payload`
  unfoldable pub snapshot_to_payload : GatewayStateSnapshot Float → Fields Float
  snapshot_to_payload s =
      let a = s.account in
      fields (
        (
          "account",
          object (
              fields (
                ("account_id", text a.account_id)
                ∷ ("stale", bool a.stale)
                ∷ ("equity", optional_float a.equity)
                ∷ ("cash_balance", optional_float a.cash_balance)
                ∷ ("realized_pnl", optional_float a.realized_pnl)
                ∷ ("unrealized_pnl", optional_float a.unrealized_pnl)
                ∷ ("margin_usage", optional_float a.margin_usage)
                ∷ ("exposure", optional_float a.exposure)
                ∷ [])),
        )
        ∷ ("open_orders", list (dict_items (map order_fields s.open_orders)))
        ∷ ("fills", list (dict_items s.fills))
        ∷ ("positions", list (dict_items (map position_fields s.positions)))
        ∷ ("funding", list (dict_items s.funding))
        ∷ [])

module _ (R : Runtime) where
  dicts_of-dict_items : (l : List (Fields R.Float)) → dicts_of R (dict_items l) ≡ l
  unfolding dicts_of
  dicts_of-dict_items [] = refl
  dicts_of-dict_items (f ∷ l) = ap (λ m. f ∷ m) (dicts_of-dict_items l)

  float_of_optional : (x : Option R.Float) → float_of_value R (some (optional_float x)) ≡ x
  unfolding float_of_value to_float
  float_of_optional none = refl
  float_of_optional (some x) = refl

  -- The float is the literal 0.0 if it equals it, so that it is no -0.0.
  abbrev pub IsPlain : R.Float → Type 0
  IsPlain x = R.eq x (R.lit 0 0) ≡ true → x ≡ R.lit 0 0

  number_or_default :
      (x : R.Float)
      → IsPlain x
      → (if truth R (float x) then to_float R (float x) else ok (R.lit 0 0)) ≡ ok x
  unfolding truth to_float
  number_or_default x p = elim (Bool-cases (R.eq x (R.lit 0 0))) [
    | inl zero ↦ rw zero (ap ok (sym (p zero)))
    | inr other ↦ rw other refl
  ]

  number_field-float :
      (key : String) (f : Fields R.Float) (x : R.Float)
      → fields_get key f ≡ some (float x)
      → IsPlain x
      → number_field R key f ≡ ok x
  unfolding number_field
  number_field-float key f x e p = rw (number_field, e) (number_or_default x p)

  abbrev pub IsPlainOrder : GatewayOrderSnapshot R.Float → Type 0
  IsPlainOrder o = IsPlain o.qty × IsPlain o.filled_qty

  order_snapshot-order_fields :
      (o : GatewayOrderSnapshot R.Float) → IsPlainOrder o → order_snapshot R (order_fields o) ≡ ok o
  unfolding order_snapshot order_fields str_field bool_field str truth
  order_snapshot-order_fields o (p, q) =
      rw
        (
          number_field-float "qty" (order_fields o) o.qty refl p,
          number_field-float "filled_qty" (order_fields o) o.filled_qty refl q,
        )
        refl

  position_of-position_fields :
      (p : GatewayPositionSnapshot R.Float)
      → IsPlain p.net_qty
      → position_of R (position_fields p) ≡ ok p
  unfolding position_of position_fields str_field str
  position_of-position_fields p n =
      rw
        (
          number_field-float "net_qty" (position_fields p) p.net_qty refl n,
          float_of_optional p.entry_price,
          float_of_optional p.unrealized_pnl,
        )
        refl

  parse_all-map :
      {A : Type 0} (parse : Fields R.Float → Result A) (print : A → Fields R.Float) (P : A → Type 0)
      → ((a : A) → P a → parse (print a) ≡ ok a)
      → (l : List A) → All P l
      → parse_all R parse (map print l) ≡ ok l
  unfolding parse_all
  parse_all-map parse print P h [] p = refl
  parse_all-map parse print P h (a ∷ l) (p, ps) =
      rw (h a p, parse_all-map parse print P h l ps) refl

  -- A snapshot is read back from its payload as it was, if no quantity of its orders and positions is
  -- a zero other than the literal 0.0.
  pub gateway_snapshot-to_payload :
      (s : GatewayStateSnapshot R.Float)
      → All IsPlainOrder s.open_orders
      → All (λ (p : GatewayPositionSnapshot R.Float). IsPlain p.net_qty) s.positions
      → gateway_snapshot_from_payload R (snapshot_to_payload s) ≡ ok s
  unfolding gateway_snapshot_from_payload snapshot_to_payload items_of str_field bool_field str
      truth
  gateway_snapshot-to_payload s o p =
      rw
        (
          dicts_of-dict_items (map order_fields s.open_orders),
          parse_all-map (order_snapshot R) order_fields IsPlainOrder order_snapshot-order_fields
              s.open_orders o,
          dicts_of-dict_items (map position_fields s.positions),
          parse_all-map (position_of R) position_fields (λ q. IsPlain q.net_qty)
              position_of-position_fields s.positions p,
          dicts_of-dict_items s.fills,
          dicts_of-dict_items s.funding,
          float_of_optional s.account.equity,
          float_of_optional s.account.cash_balance,
          float_of_optional s.account.realized_pnl,
          float_of_optional s.account.unrealized_pnl,
          float_of_optional s.account.margin_usage,
          float_of_optional s.account.exposure,
        )
        refl
