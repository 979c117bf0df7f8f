-- ===== src/Risk/Budget.antt =====
-- The budget of amendments is kept by a client that records an amendment only after an evaluation
-- that allowed it (src/engine/execution/cancel_replace_manager.py).
use proofalpha.Prelude.{
  ℕ, suc, ◌+◌, String, true, ◌∷◌, [], ◌≡◌, ◌⊎◌, ◌==◌, refl, ◌∙◌, inl, inr, arith, if◌then◌else◌,
  is_empty, Bool-cases, sym,
}
use proofalpha.Prelude.Int.{ℤ, pos, ◌≤ℤ◌, ◌-ℤ◌}
use proofalpha.Prelude.Dict.{Dict, lookup, insert, get_or, lookup-insert}
use proofalpha.Python.Runtime.{Runtime}
use proofalpha.Python.Clock.{parse_utc}
use proofalpha.Python.Convert.{ok, >>=-eq-ok}
use proofalpha.Risk.CancelReplace.{
  CancelReplaceBudget, CancelReplaceDecision, CancelReplaceManager, new_manager, amends_of,
  hold_reasons, evaluate, record_amend,
}

-- One amendment by the book: an evaluation allowed it, and then it is recorded.
pub data Amend (R : Runtime) (m : CancelReplaceManager) : CancelReplaceManager → Type 0 where
  amend :
      (order_id created_at_utc now_utc : String) (amend_count : ℤ) (d : CancelReplaceDecision)
      → evaluate R order_id created_at_utc now_utc amend_count m ≡ ok d
      → d.allowed ≡ true
      → Amend R m (record_amend order_id m)

pub data Amends (R : Runtime) (m : CancelReplaceManager) : CancelReplaceManager → Type 0 where
  here : Amends R m m
  next : {s t : CancelReplaceManager} → Amends R m s → Amend R s t → Amends R m t

-- The sum of the amendments of all orders.
abbrev pub total : Dict ℕ → ℕ
total [] = 0
total ((k, n) ∷ d) = n + total d

total-insert :
    (k : String) (n : ℕ) (d : Dict ℕ) → total (insert k n d) + get_or (lookup k d) 0 ≡ total d + n
unfolding insert lookup
total-insert k n [] = omega arith
total-insert k n ((j, w) ∷ d) = ground (arith, total-insert k n d)

-- No count is above its limit, and the overall count is the sum of the counts of the orders.
pub record IsWithinBudget (m : CancelReplaceManager) : Type 0 where
  pub overall :
      (m.cancel_replace_count ≡ 0) ⊎ (pos m.cancel_replace_count ≤ℤ m.budget.max_cancel_replace)
  pub each : (k : String) → (amends_of k m ≡ 0) ⊎ (pos (amends_of k m) ≤ℤ m.budget.max_amends)
  pub sums : m.cancel_replace_count ≡ total m.amends_by_order

room :
    (k : String) (age n : ℤ) (m : CancelReplaceManager)
    → is_empty (hold_reasons k age n m) ≡ true
    → (pos (suc m.cancel_replace_count) ≤ℤ m.budget.max_cancel_replace)
      × (pos (suc (amends_of k m)) ≤ℤ m.budget.max_amends)
unfolding hold_reasons
room k age n m h = ground arith

allowed_room :
    (R : Runtime) (k created now : String) (n : ℤ) (m : CancelReplaceManager)
    (d : CancelReplaceDecision)
    → evaluate R k created now n m ≡ ok d
    → d.allowed ≡ true
    → (pos (suc m.cancel_replace_count) ≤ℤ m.budget.max_cancel_replace)
      × (pos (suc (amends_of k m)) ≤ℤ m.budget.max_amends)
unfolding evaluate
allowed_room R k created now n m d e a =
    let (t, _, rest) = >>=-eq-ok (parse_utc R now) _ (sym e) in
    let (c, _, last) = >>=-eq-ok (parse_utc R created) _ (sym rest) in
    room k (t -ℤ c) n m (ground arith)

budget-record_amend : (k : String) (m : CancelReplaceManager) → (record_amend k m).budget ≡ m.budget
unfolding record_amend
budget-record_amend k m = refl

amends_of-record_amend :
    (j k : String) (m : CancelReplaceManager)
    → amends_of k (record_amend j m) ≡ (if j == k then suc (amends_of j m) else amends_of k m)
unfolding record_amend
amends_of-record_amend j k m =
    ground (arith, lookup-insert j k (suc (amends_of j m)) m.amends_by_order)

record_amend-IsWithinBudget :
    (k : String) (m : CancelReplaceManager)
    → pos (suc m.cancel_replace_count) ≤ℤ m.budget.max_cancel_replace
    → pos (suc (amends_of k m)) ≤ℤ m.budget.max_amends
    → IsWithinBudget m
    → IsWithinBudget (record_amend k m)
unfolding record_amend
record_amend-IsWithinBudget k m room_overall room_each w = record {
  overall = inr room_overall;
  each = λ j. elim (Bool-cases (k == j)) [
    | inl e ↦ inr (unfold record_amend in rw (amends_of-record_amend k j m, e) room_each)
    | inr ne ↦ rw (amends_of-record_amend k j m, ne) (w.each j)
  ];
  sums = omega (arith, w.sums, total-insert k (suc (amends_of k m)) m.amends_by_order);
}

-- When a client records an amendment only after an evaluation allowed it, a new manager's budget
-- is never overrun: the overall count stays within `max_cancel_replace` and the count of each
-- order within `max_amends` (or at zero, where a limit is not positive), the overall count is the
-- sum of the counts of the orders, and the budget itself stays as it was.
pub Amends-IsWithinBudget :
    (R : Runtime) (budget : CancelReplaceBudget) (m : CancelReplaceManager)
    → Amends R (new_manager budget) m
    → IsWithinBudget m × (m.budget ≡ budget)
Amends-IsWithinBudget R budget m here =
    (record { overall = inl refl; each = λ k. inl (unfold lookup in refl); sums = refl }, refl)
Amends-IsWithinBudget R budget m (next {s = s} p (amend k created now n d e a)) =
    let (w, b) = Amends-IsWithinBudget R budget s p in
    let (overall, each) = allowed_room R k created now n s d e a in
    (record_amend-IsWithinBudget k s overall each w, budget-record_amend k s ∙ b)
