-- ===== src/Store/Fills.antt =====
-- What one event of the execution journal does to the rebuilt tables (src/engine/memory/store.py).
use proofalpha.Prelude.{
  String, Bool, List, ◌∷◌, [], ◌==◌, ◌&&◌, eq_iff, ◌≡◌, refl, ap, ◌∙◌, if◌then◌else◌, Bool-cases,
  inl, inr,
}
use proofalpha.Prelude.Dict.{Dict, get_or}
use proofalpha.Prelude.Rows.{row_of, replace_row, row_of-replace_row}
use proofalpha.Python.Runtime.{Runtime}
use proofalpha.Store.Events.{ExecutionEvent}
use proofalpha.Store.Tables.{OrderLive, FillRow, Replay}
use proofalpha.Store.Rebuild.{
  event_fill_id, abs_qty, with_qty, with_cost, record_fill, order_live, order_of, filled_qty_of,
  is_new_fill, order_step, risk_step, changes_order, replay_step,
}

module _ (R : Runtime) where
  -- The first fill event of each identifier, for an order, leaving out those in the set.
  unfoldable pub first_fills :
      List String → List (ExecutionEvent R.Float) → List (ExecutionEvent R.Float)
  first_fills seen [] = []
  first_fills seen (e ∷ rest) =
      if changes_order R e && is_new_fill R e seen
      then e ∷ first_fills (event_fill_id R e ∷ seen) rest
      else first_fills seen rest

  -- Sums over fills, in their order.
  abbrev pub qty_over : List (ExecutionEvent R.Float) → Dict R.Float → Dict R.Float
  qty_over [] d = d
  qty_over (e ∷ fills) d = qty_over fills (with_qty R e d)

  abbrev pub cost_over : List (ExecutionEvent R.Float) → Dict R.Float → Dict R.Float
  cost_over [] d = d
  cost_over (e ∷ fills) d = cost_over fills (with_cost R e d)

  abbrev pub filled_over : String → List (ExecutionEvent R.Float) → R.Float → R.Float
  filled_over id [] x = x
  filled_over id (e ∷ fills) x = filled_over id fills (
      if get_or e.arguments.order_id_client "" == id
      then R.add x (abs_qty R e.arguments.qty)
      else x)

  -- The filled quantity of an order, 0 if there is none.
  abbrev pub filled_of : String → Replay R.Float → R.Float
  filled_of id r = filled_qty_of R (order_of R id r)

  -- The part of the state that fills change, without the orders.
  abbrev pub Accounts : Type 0
  Accounts = List (FillRow R.Float) × List String × Dict R.Float × Dict R.Float

  abbrev pub accounts : Replay R.Float → Accounts
  accounts r = (r.fills, r.seen_fill_ids, r.position_qty, r.position_cost)

  abbrev pub counts_fill : ExecutionEvent R.Float → Replay R.Float → Bool
  counts_fill e r = changes_order R e && is_new_fill R e r.seen_fill_ids

  accounts-risk_step :
      (e : ExecutionEvent R.Float) (r : Replay R.Float) → accounts (risk_step R e r) ≡ accounts r
  unfolding risk_step
  accounts-risk_step e r = elim (Bool-cases (e.arguments.event_type == "RISK_BLOCK")) [
    | inl blocked ↦ rw blocked refl
    | inr other ↦ rw other refl
  ]

  orders-risk_step :
      (id : String) (e : ExecutionEvent R.Float) (r : Replay R.Float)
      → filled_of id (risk_step R e r) ≡ filled_of id r
  unfolding risk_step
  orders-risk_step id e r = elim (Bool-cases (e.arguments.event_type == "RISK_BLOCK")) [
    | inl blocked ↦ rw blocked refl
    | inr other ↦ rw other refl
  ]

  accounts-order_step :
      (e : ExecutionEvent R.Float) (id : String) (r : Replay R.Float)
      → accounts (order_step R e id r)
        ≡ accounts (if is_new_fill R e r.seen_fill_ids then record_fill R e r else r)
  unfolding order_step
  accounts-order_step e id r = elim (Bool-cases (is_new_fill R e r.seen_fill_ids)) [
    | inl new ↦ rw new refl
    | inr old ↦ rw old refl
  ]

  -- A round either counts_fill a new fill or leaves the accounts as they are.
  pub accounts-replay_step :
      (e : ExecutionEvent R.Float) (r : Replay R.Float)
      → accounts (replay_step R e r) ≡ accounts (if counts_fill e r then record_fill R e r else r)
  unfolding replay_step
  accounts-replay_step e r = elim (Bool-cases (changes_order R e)) [
    | inr out ↦ rw out (accounts-risk_step e r)
    | inl changes ↦
        rw changes
          (accounts-risk_step e _ ∙ accounts-order_step e (get_or e.arguments.order_id_client "") r)
  ]

  filled_qty_of-replace_row :
      (id : String) (o : OrderLive R.Float) (rows : List (OrderLive R.Float))
      → filled_qty_of R (
          row_of
            (λ (p : OrderLive R.Float). p.order_id_client)
            id
            (replace_row (λ (p : OrderLive R.Float). p.order_id_client) o rows))
        ≡ (if o.order_id_client == id
            then o.filled_qty
            else filled_qty_of R (row_of (λ (p : OrderLive R.Float). p.order_id_client) id rows))
  filled_qty_of-replace_row id o rows =
      ap (filled_qty_of R)
        (row_of-replace_row (λ (p : OrderLive R.Float). p.order_id_client) id o rows)
      ∙ elim (Bool-cases (o.order_id_client == id)) [ inl e ↦ rw e refl | inr e ↦ rw e refl ]

  -- An event of an order adds the quantity of a new fill to that order, and nothing to the others.
  filled_of-order_step :
      (id k : String) (e : ExecutionEvent R.Float) (r : Replay R.Float)
      → filled_of id (order_step R e k r) ≡ (
          if is_new_fill R e r.seen_fill_ids
          then (if k == id
              then R.add (filled_of id r) (abs_qty R e.arguments.qty)
              else filled_of id r)
          else filled_of id r)
  unfolding order_step record_fill order_live
  filled_of-order_step id k e r = elim (Bool-cases (is_new_fill R e r.seen_fill_ids)) [
    | inl new ↦ rw new (
        filled_qty_of-replace_row id _ r.orders_live ∙ elim (Bool-cases (k == id)) [
          | inl here ↦ let same : k ≡ id = (eq_iff k id).0 here in rw (here, same) refl
          | inr other ↦ rw other refl
        ])
    | inr old ↦ rw old (
        filled_qty_of-replace_row id _ r.orders_live ∙ elim (Bool-cases (k == id)) [
          | inl here ↦ let same : k ≡ id = (eq_iff k id).0 here in rw (here, same) refl
          | inr other ↦ rw other refl
        ])
  ]

  pub filled_of-replay_step :
      (id : String) (e : ExecutionEvent R.Float) (r : Replay R.Float)
      → filled_of id (replay_step R e r) ≡ (
          if counts_fill e r
          then (if get_or e.arguments.order_id_client "" == id
              then R.add (filled_of id r) (abs_qty R e.arguments.qty)
              else filled_of id r)
          else filled_of id r)
  unfolding replay_step
  filled_of-replay_step id e r = elim (Bool-cases (changes_order R e)) [
    | inr out ↦ rw out (orders-risk_step id e r)
    | inl changes ↦ rw changes (
        orders-risk_step id e _
        ∙ filled_of-order_step id (get_or e.arguments.order_id_client "") e r)
  ]
