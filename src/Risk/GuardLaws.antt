-- ===== src/Risk/GuardLaws.antt =====
-- When the funding guard lets an action through (src/engine/execution/funding_guard.py).
use proofalpha.Prelude.{String, true, false, ◌≡◌, ◌≢◌, ◌⊎◌, arith, eq_iff, contains, sym}
use proofalpha.Prelude.Int.{ℤ, pos, ◌-ℤ◌, ◌≤ℤ◌}
use proofalpha.Python.Runtime.{Runtime}
use proofalpha.Python.Convert.{ok, >>=-eq-ok}
use proofalpha.Python.Clock.{parse_utc}
use proofalpha.Risk.Guards.{
  GuardResult, FundingGuardConfig, seconds, funding_rejections, evaluate_funding,
}

no_funding_rejection :
    (R : Runtime) (config : FundingGuardConfig R.Float) (action : String) (left : ℤ)
    (cost : R.Float)
    → (funding_rejections R config action left cost).passed ≡ true
    → (R.lt config.max_cost_bps cost ≡ false)
      × (((action ≢ "open") × (action ≢ "increase"))
          ⊎ ((¬ (pos 0 ≤ℤ left)) ⊎ (¬ (left ≤ℤ seconds config.block_open_seconds_before_funding))))
unfolding funding_rejections contains
no_funding_rejection R config action left cost h =
    ground (arith, eq_iff action "open", eq_iff action "increase")

-- Where the funding guard passes an action, both times could be read, the expected cost is not
-- above the configured maximum, and the action neither opens nor increases a position, or the next
-- funding is past, or it is further away than the configured number of seconds.
pub evaluate_funding_passed :
    (R : Runtime) (config : FundingGuardConfig R.Float) (action now_utc next_utc : String)
    (cost : R.Float) (result : GuardResult)
    → evaluate_funding R config action now_utc next_utc cost ≡ ok result
    → result.passed ≡ true
    → (next : ℤ) × (now : ℤ) × (parse_utc R next_utc ≡ ok next)
      × (parse_utc R now_utc ≡ ok now)
      × (R.lt config.max_cost_bps cost ≡ false)
      × (((action ≢ "open") × (action ≢ "increase"))
          ⊎ ((¬ (pos 0 ≤ℤ next -ℤ now))
              ⊎ (¬ (next -ℤ now ≤ℤ seconds config.block_open_seconds_before_funding))))
unfolding evaluate_funding
evaluate_funding_passed R config action now_utc next_utc cost result e h =
    let (next, p, rest) = >>=-eq-ok (parse_utc R next_utc) _ (sym e) in
    let (now, q, last) = >>=-eq-ok (parse_utc R now_utc) _ (sym rest) in
    let passed : (funding_rejections R config action (next -ℤ now) cost).passed ≡ true = cc in
    let (cheap, clear) = no_funding_rejection R config action (next -ℤ now) cost passed in
    (next, now, p, q, cheap, clear)
