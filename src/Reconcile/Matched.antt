-- ===== src/Reconcile/Matched.antt =====
-- When the local projection matches the gateway (src/engine/execution/reconciliation.py).
use proofalpha.Prelude.{
  ℕ, suc, ◌≤◌, String, Bool, true, false, not, Option, none, some, List, ◌∷◌, [], ◌&&◌, ◌≡◌, ◌↔◌,
  refl, arith, if◌then◌else◌, contains, length, eqb, ltb, map, when, is_empty, All, empty_iff_and,
  empty_when, Bool-cases, inl, inr,
}
use proofalpha.Prelude.Dict.{lookup}
use proofalpha.Python.Runtime.{Runtime}
use proofalpha.Python.Sets.{is_empty-sorted_set}
use proofalpha.Reconcile.Accounting.{fields_get, field_or_zero}
use proofalpha.Reconcile.Local.{LocalOrder, LocalPosition, LocalRisk, LocalProjection}
use proofalpha.Reconcile.Gateway.{
  GatewayAccountSnapshot, GatewayOrderSnapshot, GatewayPositionSnapshot, GatewayStateSnapshot,
}
use proofalpha.Reconcile.Blockers.{
  flat, set_of, same, is_none, is_close, is_close_if_given, is_close_if_both, is_reduce_only,
  order_codes, found_order_codes, found_position_codes, gateway_fill_ids, is_known, position_codes,
  risk_codes, blocker_codes, reconciliation_blockers,
}

holds : (b : Bool) → (not b ≡ false) ↔ (b ≡ true)
holds b = ground arith

same_iff : (a b : Bool) → (not (same a b) ≡ false) ↔ (a ≡ b)
same_iff a b = ground arith

empty_flat :
    {A : Type 0} (f : A → List String) (P : A → Type 0) (l : List A)
    → ((a : A) → (is_empty (f a) ≡ true) ↔ P a)
    → (is_empty (flat f l) ≡ true) ↔ All P l
empty_flat f P [] h = (λ e. tt, λ e. refl)
empty_flat f P (a ∷ l) h = empty_iff_and (f a) (flat f l) (h a) (empty_flat f P l h)

-- No text stands twice in the list.
abbrev pub NoRepeats : List String → Type 0
NoRepeats [] = Unit
NoRepeats (s ∷ rest) = (contains s rest ≡ false) × NoRepeats rest

length-set_of : (l : List String) → length (set_of l) ≤ length l
length-set_of [] = omega arith
length-set_of (s ∷ rest) = elim (Bool-cases (contains s rest)) [
  | inl e ↦ rw e (omega (arith, length-set_of rest))
  | inr e ↦ rw e (omega (arith, length-set_of rest))
]

eqb-suc : (m n : ℕ) → (not (eqb (suc m) (suc n)) ≡ false) ↔ (not (eqb m n) ≡ false)
eqb-suc m n = (λ h. ground arith, λ h. ground arith)

eqb_longer : (m n : ℕ) → n ≤ m → ¬ (not (eqb (suc m) n) ≡ false)
eqb_longer m n b h = ground arith

NoRepeats-iff : (l : List String) → (not (eqb (length l) (length (set_of l))) ≡ false) ↔ NoRepeats l
NoRepeats-iff [] = (λ h. tt, λ h. refl)
NoRepeats-iff (s ∷ rest) = elim (Bool-cases (contains s rest)) [
  | inl e ↦ rw e (
    λ h. absurd (eqb_longer (length rest) (length (set_of rest)) (length-set_of rest) h),
    λ (c, h). cc,
  )
  | inr e ↦
      let step = eqb-suc (length rest) (length (set_of rest)) in
      rw e (
        λ h. (refl, (NoRepeats-iff rest).0 (step.0 h)),
        λ (c, h). step.1 ((NoRepeats-iff rest).1 h),
      )
]

not_positive : (n : ℕ) → (ltb 0 n ≡ false) ↔ (n ≡ 0)
not_positive n = (λ h. ground arith, λ h. ground arith)

first_or_second_iff :
    (a b : Bool) (s : String)
    → (is_empty (if not a then s ∷ [] else when (not b) s) ≡ true) ↔ ((a ≡ true) × (b ≡ true))
first_or_second_iff true true s = (λ h. (refl, refl), λ h. refl)
first_or_second_iff true false s = (λ h. cc, λ h. h.1)
first_or_second_iff false b s = (λ h. cc, λ h. h.0)

module _ (R : Runtime) where
  -- The gateway's order is known, with its filled quantity and its flag.
  abbrev pub OrderAgrees : Option (LocalOrder R.Float) → GatewayOrderSnapshot R.Float → Type 0
  OrderAgrees none order = ⊥
  OrderAgrees (some o) order =
      (is_close R (some o.filled_qty) (some order.filled_qty) ≡ true)
      × (is_reduce_only R o ≡ order.reduce_only)

  -- The gateway's position is known, with its quantity, and with its entry price where both have one.
  abbrev pub PositionAgrees :
      Option (LocalPosition R.Float) → GatewayPositionSnapshot R.Float → Type 0
  PositionAgrees none position = ⊥
  PositionAgrees (some p) position =
      (is_close R (some p.net_qty) (some position.net_qty) ≡ true)
      × (is_close_if_both R p.entry_price position.entry_price ≡ true)

  abbrev pub RiskAgrees : Option (LocalRisk R.Float) → GatewayAccountSnapshot R.Float → Type 0
  RiskAgrees none a =
      (is_none a.exposure
        && (is_none a.margin_usage && (is_none a.realized_pnl && is_none a.unrealized_pnl)))
      ≡ true
  RiskAgrees (some r) a =
      (is_close_if_given R (some r.exposure) a.exposure ≡ true)
      × ((is_close_if_given R (some r.margin_usage) a.margin_usage ≡ true)
          × ((is_close_if_given R (some r.realized_pnl) a.realized_pnl ≡ true)
              × (is_close_if_given R (some r.unrealized_pnl) a.unrealized_pnl ≡ true)))

  -- The local projection and the gateway agree.
  abbrev pub Agrees : ℕ → LocalProjection R.Float → GatewayStateSnapshot R.Float → Type 0
  Agrees duplicates l s =
      (s.account.stale ≡ false)
      × (All (λ o. OrderAgrees (lookup o.order_id_client l.orders) o) s.open_orders
          × (NoRepeats (gateway_fill_ids R s.fills)
              × (All (λ id. is_known R l.fills id ≡ true) (gateway_fill_ids R s.fills)
                  × ((duplicates ≡ 0)
                      × (All (λ p. PositionAgrees (lookup p.symbol l.positions) p) s.positions
                          × (RiskAgrees l.risk s.account
                              × ((is_close R (some l.funding_fee) (
                                      some (
                                        R.sum (
                                          map (λ f. field_or_zero R (fields_get "funding_fee" f))
                                            s.funding)))
                                    ≡ true)
                                  × ((is_close_if_given R l.equity s.account.equity ≡ true)
                                      × ((is_close_if_given R l.cash_balance s.account.cash_balance
                                            ≡ true)
                                          × ((is_close_if_given R (some l.realized_pnl)
                                                  s.account.realized_pnl
                                                ≡ true)
                                              × (is_close_if_given R (some l.unrealized_pnl)
                                                    s.account.unrealized_pnl
                                                  ≡ true)))))))))))

  order_codes_iff :
      (found : Option (LocalOrder R.Float)) (order : GatewayOrderSnapshot R.Float)
      → (is_empty (found_order_codes R found order) ≡ true) ↔ OrderAgrees found order
  order_codes_iff none order = (λ h. let c : false ≡ true = h in cc, λ h. absurd h)
  order_codes_iff (some o) order =
      empty_iff_and _ _
        (empty_when _ _ (holds (is_close R (some o.filled_qty) (some order.filled_qty))))
        (empty_when _ _ (same_iff (is_reduce_only R o) order.reduce_only))

  position_codes_iff :
      (found : Option (LocalPosition R.Float)) (position : GatewayPositionSnapshot R.Float)
      → (is_empty (found_position_codes R found position) ≡ true) ↔ PositionAgrees found position
  position_codes_iff none position = (λ h. let c : false ≡ true = h in cc, λ h. absurd h)
  position_codes_iff (some p) position =
      first_or_second_iff (is_close R (some p.net_qty) (some position.net_qty))
        (is_close_if_both R p.entry_price position.entry_price) "symbol_exposure_drift"

  risk_codes_iff :
      (risk : Option (LocalRisk R.Float)) (a : GatewayAccountSnapshot R.Float)
      → (is_empty (risk_codes R risk a) ≡ true) ↔ RiskAgrees risk a
  unfolding risk_codes
  risk_codes_iff none a = empty_when _ _ (holds _)
  risk_codes_iff (some r) a =
      empty_iff_and _ _ (empty_when _ _ (holds (is_close_if_given R (some r.exposure) a.exposure)))
        (empty_iff_and _ _
          (empty_when _ _ (holds (is_close_if_given R (some r.margin_usage) a.margin_usage)))
          (empty_iff_and _ _
            (empty_when _ _ (holds (is_close_if_given R (some r.realized_pnl) a.realized_pnl)))
            (empty_when _ _
              (holds (is_close_if_given R (some r.unrealized_pnl) a.unrealized_pnl)))))

  -- A reconciliation has no blocker exactly when the local projection and the gateway agree: the
  -- account snapshot is fresh; every order of the gateway is known, with its filled quantity and
  -- flag; its fills are known and neither side has one twice; every position of the gateway is
  -- known, with its quantity and entry price; and the risk, the funding, the equity, the cash and the
  -- profits that the gateway gives are close to the local ones.
  pub reconciliation_blockers_iff :
      (duplicates : ℕ) (l : LocalProjection R.Float) (s : GatewayStateSnapshot R.Float)
      → (is_empty (reconciliation_blockers R duplicates l s) ≡ true) ↔ Agrees duplicates l s
  unfolding reconciliation_blockers blocker_codes order_codes position_codes
  reconciliation_blockers_iff duplicates l s =
      let ids = gateway_fill_ids R s.fills in
      let funding = R.sum (map (λ f. field_or_zero R (fields_get "funding_fee" f)) s.funding) in
      let a = s.account in
      rw is_empty-sorted_set (
        empty_iff_and _ _ (empty_when {P = a.stale ≡ false} _ _ (λ h. h, λ h. h)) (
          empty_iff_and _ _
            (empty_flat _ _ s.open_orders
              (λ o. order_codes_iff (lookup o.order_id_client l.orders) o))
            (empty_iff_and _ _ (empty_when _ _ (NoRepeats-iff ids)) (
              empty_iff_and _ _
                (empty_flat _ _ ids (λ id. empty_when _ _ (holds (is_known R l.fills id))))
                (empty_iff_and _ _ (empty_when _ _ (not_positive duplicates)) (
                  empty_iff_and _ _
                    (empty_flat _ _ s.positions
                      (λ p. position_codes_iff (lookup p.symbol l.positions) p))
                    (empty_iff_and _ _ (risk_codes_iff l.risk a) (
                      empty_iff_and _ _
                        (empty_when _ _ (holds (is_close R (some l.funding_fee) (some funding))))
                        (empty_iff_and _ _
                          (empty_when _ _ (holds (is_close_if_given R l.equity a.equity)))
                          (empty_iff_and _ _
                            (empty_when _ _
                              (holds (is_close_if_given R l.cash_balance a.cash_balance)))
                            (empty_iff_and _ _
                              (empty_when _ _
                                (holds (is_close_if_given R (some l.realized_pnl) a.realized_pnl)))
                              (empty_when _ _ (
                                holds (
                                  is_close_if_given R (some l.unrealized_pnl)
                                    a.unrealized_pnl))))))))))))))
