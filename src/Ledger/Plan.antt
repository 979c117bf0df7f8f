-- ===== src/Ledger/Plan.antt =====
-- What a reconciliation plan says when it passes, and what it cannot see
-- (src/engine/execution/reconciliation_repair.py).
use proofalpha.Prelude.{
  ℕ, ◌≤◌, String, true, false, not, List, ◌∷◌, [], ◌==◌, ◌&&◌, ◌≡◌, ◌≢◌, ◌⊎◌, ◌↔◌, refl, sym, ap,
  ◌∙◌, arith, contains, map, ltb, eq_iff, All, is_empty, is_empty-append, is_empty-when, and_iff,
  not_iff,
}
use proofalpha.Prelude.Int.{magnitude}
use proofalpha.Prelude.Dict.{Dict, lookup, get_or}
use proofalpha.Python.Runtime.{Runtime, Value}
use proofalpha.Python.Convert.{ok, >>=-eq-ok}
use proofalpha.Python.Sets.{sorted_items, sorted_items-All}
use proofalpha.Ledger.Event.{LedgerEvent}
use proofalpha.Ledger.Projection.{StateProjection, rebuild_state_projection}
use proofalpha.Ledger.Repair.{
  ReconciliationRepairPlan, GatewayView, gateway_fill_id, fills_of, local_fill_ids, missing_fills,
  apart, position_mismatches, detect_duplicate_fills, issues_between, plan_of,
  build_reconciliation_repair_plan,
}
use proofalpha.Ledger.Duplicates.{count, contains-detect_duplicate_fills}

module _ (R : Runtime) where
  -- The fill ids in the payloads of a ledger's fills.
  abbrev pub payload_fill_ids : List (LedgerEvent R.Float) → List String
  payload_fill_ids events = map (gateway_fill_id R) (map (λ e. e.payload) (fills_of R events))

  -- The ledger and the gateway agree, said without the code of the comparison.
  pub record IsReconciled (events : List (LedgerEvent R.Float)) (positions : Dict R.Float)
      (view : GatewayView R) : Type 0 where
    pub fills_known :
        All
          (λ fill.
            (gateway_fill_id R fill ≡ "")
            ⊎ (contains (gateway_fill_id R fill) (local_fill_ids R events) ≡ true))
          view.gateway_fills
    pub fills_once :
        (t : String) → (not (t == "") && ltb 1 (count t (payload_fill_ids events))) ≡ false
    pub positions_close :
        All
          (λ e. apart R e.1 (get_or (lookup e.0 positions) (R.lit 0 0)) ≡ false)
          view.gateway_positions
    pub cash_close : apart R view.gateway_cash_balance view.local_cash_balance ≡ false
    pub stream_fresh : view.stale_websocket ≡ false
    pub clock_close : magnitude view.clock_drift_seconds ≤ 5

  missing_fills_iff :
      (local : List String) (fills : List (Dict (Value R.Float)))
      → (is_empty (missing_fills R local fills) ≡ true)
        ↔ All
            (λ fill.
              (gateway_fill_id R fill ≡ "") ⊎ (contains (gateway_fill_id R fill) local ≡ true))
            fills
  unfolding missing_fills
  missing_fills_iff local [] = ground arith
  missing_fills_iff local (fill ∷ fills) =
      let ih = missing_fills_iff local fills in
      rw (is_empty-append, is_empty-when) (ground (arith, eq_iff (gateway_fill_id R fill) ""))

  position_mismatches_iff :
      (local d : Dict R.Float)
      → (is_empty (position_mismatches R local d) ≡ true)
        ↔ All (λ e. apart R e.1 (get_or (lookup e.0 local) (R.lit 0 0)) ≡ false) d
  unfolding position_mismatches
  position_mismatches_iff local [] = ground arith
  position_mismatches_iff local ((symbol, qty) ∷ d) =
      let ih = position_mismatches_iff local d in rw (is_empty-append, is_empty-when) (ground arith)

  empty_contains : (t : String) (xs : List String) → is_empty xs ≡ true → contains t xs ≡ false
  unfolding contains
  empty_contains t [] h = refl
  empty_contains t (x ∷ xs) h = cc

  contains_head : (x : String) (xs : List String) → contains x (x ∷ xs) ≡ true
  unfolding contains
  contains_head x xs = ground (arith, eq_iff x x)

  no_members : (xs : List String) → ((t : String) → contains t xs ≡ false) → is_empty xs ≡ true
  no_members [] h = refl
  no_members (x ∷ xs) h = cc (contains_head x xs, h x)

  is_empty-map : (f : String → String) (xs : List String) → is_empty (map f xs) ≡ is_empty xs
  is_empty-map f [] = refl
  is_empty-map f (x ∷ xs) = refl

  duplicates_iff :
      (events : List (LedgerEvent R.Float))
      → (is_empty (detect_duplicate_fills R (map (λ e. e.payload) (fills_of R events))) ≡ true)
        ↔ ((t : String) → (not (t == "") && ltb 1 (count t (payload_fill_ids events))) ≡ false)
  duplicates_iff events =
      let fills = map (λ (e : LedgerEvent R.Float). e.payload) (fills_of R events) in
      (
        λ h t.
            sym (contains-detect_duplicate_fills R fills t)
            ∙ empty_contains t (detect_duplicate_fills R fills) h,
        λ w.
            no_members (detect_duplicate_fills R fills)
              (λ t. contains-detect_duplicate_fills R fills t ∙ w t),
      )

  drift_iff : (n : ℕ) → (ltb 5 n ≡ false) ↔ (n ≤ 5)
  drift_iff n = ground arith

  no_issues :
      (events : List (LedgerEvent R.Float)) (positions : Dict R.Float) (view : GatewayView R)
      → (is_empty (issues_between R events positions view) ≡ true)
        ↔ IsReconciled events positions view
  unfolding issues_between
  no_issues events positions view =
      let missing = missing_fills_iff (local_fill_ids R events) view.gateway_fills in
      let duplicates = duplicates_iff events in
      let mismatches = position_mismatches_iff positions (sorted_items view.gateway_positions) in
      let sorted =
        sorted_items-All (λ e. apart R e.1 (get_or (lookup e.0 positions) (R.lit 0 0)) ≡ false)
          view.gateway_positions in
      let drift = drift_iff (magnitude view.clock_drift_seconds) in
      (
        λ h.
            let e = (simp (is_empty-append, is_empty-when, is_empty-map, and_iff, not_iff) at h) in
            record {
              fills_known = missing.0 e.0;
              fills_once = duplicates.0 e.1.0;
              positions_close = sorted.0 (mismatches.0 e.1.1.0);
              cash_close = e.1.1.1.0;
              stream_fresh = e.1.1.1.1.0;
              clock_close = drift.0 e.1.1.1.1.1;
            },
        λ w.
            simp (is_empty-append, is_empty-when, is_empty-map, and_iff, not_iff)
              (
                missing.1 w.fills_known,
                (
                  duplicates.1 w.fills_once,
                  (
                    mismatches.1 (sorted.1 w.positions_close),
                    (w.cash_close, (w.stream_fresh, drift.1 w.clock_close)),
                  ),
                ),
              ),
      )

  status_iff :
      (issues : List String) → ((plan_of R issues).status ≡ "PASS") ↔ (is_empty issues ≡ true)
  status_iff [] = (λ h. refl, λ h. refl)
  status_iff (i ∷ is) = (λ h. absurd (not_pass h), λ h. cc)
    where
      not_pass : ◌≢◌ {A = String} "REPAIR_REQUIRED" "PASS"
      not_pass = ground (arith, eq_iff "REPAIR_REQUIRED" "PASS")

  -- Where a plan is made, the projection of the ledger was rebuilt, and the plan's status is PASS
  -- exactly when ledger and gateway agree: every gateway fill with an id is known to the ledger,
  -- no fill id stands twice in the ledger, every position that the gateway lists is within 1e-9
  -- of the projection's, the cash balances are within 1e-9, the stream is not stale, and the
  -- clocks are at most five seconds apart.
  pub plan_passes_iff :
      (events : List (LedgerEvent R.Float)) (view : GatewayView R) (plan : ReconciliationRepairPlan)
      → build_reconciliation_repair_plan R events view ≡ ok plan
      → (projection : StateProjection R.Float) × (rebuild_state_projection R events ≡ ok projection)
        × ((plan.status ≡ "PASS") ↔ IsReconciled events projection.positions view)
  unfolding build_reconciliation_repair_plan
  plan_passes_iff events view plan h =
      let (projection, p, q) = >>=-eq-ok (rebuild_state_projection R events) _ (sym h) in
      let issues = issues_between R events projection.positions view in
      let status = λ (q : ReconciliationRepairPlan). q.status in
      let made : plan ≡ plan_of R issues = ground arith in
      let s = status_iff issues in
      let n = no_issues events projection.positions view in
      (
        projection,
        p,
        (λ pass. n.0 (s.0 (ap status (sym made) ∙ pass)), λ w. ap status made ∙ s.1 (n.1 w)),
      )
