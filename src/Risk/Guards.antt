-- ===== src/Risk/Guards.antt =====
-- The guards of src/engine/execution: circuit_breakers.py, funding_guard.py, liquidation_guard.py
-- and margin_leverage_manager.py.
use proofalpha.Prelude.{
  ℕ, ◌*◌, String, Bool, not, List, ◌∷◌, [], ◌++◌, ◌==◌, ◌&&◌, is_empty, when, contains,
}
use proofalpha.Prelude.Int.{ℤ, pos, negsuc, ◌-ℤ◌, leb_ℤ, eqb_ℤ}
use proofalpha.Python.Runtime.{Runtime}
use proofalpha.Python.Convert.{Result, ok, ◌>>=◌, max}
use proofalpha.Python.Clock.{parse_utc}

-- `CircuitBreakerResult`, `FundingGuardResult` and `MarginLeverageCheck` have the same two fields.
pub record GuardResult : Type 0 where
  pub passed : Bool
  pub rejections : List String

abbrev pub guarded : List String → GuardResult
guarded rejections = record { passed = is_empty rejections; rejections = rejections }

pub record LossReading (Float : Type 0) : Type 0 where
  pub daily_loss : Float
  pub daily_loss_limit : Float
  pub weekly_loss : Float
  pub weekly_loss_limit : Float
  pub drawdown : Float
  pub drawdown_limit : Float

pub record FundingGuardConfig (Float : Type 0) : Type 0 where
  pub max_cost_bps : Float
  pub block_open_seconds_before_funding : ℤ

pub record LiquidationGuardConfig (Float : Type 0) : Type 0 where
  pub min_distance_bps : Float
  pub stress_move_bps : Float

pub record LiquidationGuardResult (Float : Type 0) : Type 0 where
  pub passed : Bool
  pub rejections : List String
  pub distance_bps : Float
  pub stress_distance_bps : Float

-- a whole number of seconds, in microseconds
abbrev pub seconds : ℤ → ℤ
seconds (pos n) = pos (n * 1000000)
seconds (negsuc n) = pos 0 -ℤ pos ((ℕ.suc n) * 1000000)

module _ (R : Runtime) where
  unfoldable pub evaluate_circuit_breakers : LossReading R.Float → GuardResult
  evaluate_circuit_breakers x = guarded (
      when (R.lt x.daily_loss_limit x.daily_loss) "daily_loss_breaker"
      ++ (when (R.lt x.weekly_loss_limit x.weekly_loss) "weekly_loss_breaker"
          ++ when (R.lt x.drawdown_limit x.drawdown) "drawdown_breaker"))

  -- the body of `FundingGuard.evaluate`, from the microseconds left to the next funding
  unfoldable pub funding_rejections :
      FundingGuardConfig R.Float → String → ℤ → R.Float → GuardResult
  funding_rejections config action to_funding cost = guarded (
      when
        (contains action ("open" ∷ "increase" ∷ [])
          && (leb_ℤ (pos 0) to_funding
              && leb_ℤ to_funding (seconds config.block_open_seconds_before_funding)))
        "near_funding_open_block"
      ++ when (R.lt config.max_cost_bps cost) "funding_cost_budget_exceeded")

  -- `FundingGuard.evaluate`: action, now, next funding time, expected cost
  unfoldable pub evaluate_funding :
      FundingGuardConfig R.Float → String → String → String → R.Float → Result GuardResult
  unfolding funding_rejections
  evaluate_funding config action now_utc next_funding_time_utc cost =
      parse_utc R next_funding_time_utc >>= λ next.
      parse_utc R now_utc >>= λ now. ok (funding_rejections config action (next -ℤ now) cost)

  -- `distance` of `LiquidationGuard.evaluate`: mark price, liquidation price
  unfoldable pub liquidation_distance : R.Float → R.Float → R.Float
  liquidation_distance mark liquidation =
      R.mul (R.div (R.abs (R.sub mark liquidation)) (max R (R.abs mark) (R.lit 1 9)))
        (R.lit 10000 0)

  -- `LiquidationGuard.evaluate`: side, entry price, mark price, liquidation price
  unfoldable pub evaluate_liquidation :
      LiquidationGuardConfig R.Float
      → String
      → R.Float
      → R.Float
      → R.Float
      → LiquidationGuardResult R.Float
  unfolding liquidation_distance
  evaluate_liquidation config side entry mark liquidation =
      let distance = liquidation_distance mark liquidation in
      let stress_distance = R.sub distance config.stress_move_bps in
      let rejections =
        when (R.lt distance config.min_distance_bps) "liquidation_distance_breach"
        ++ when (R.lt stress_distance config.min_distance_bps)
            "stress_liquidation_distance_breach" in
      record {
        passed = is_empty rejections;
        rejections = rejections;
        distance_bps = R.round distance 12;
        stress_distance_bps = R.round stress_distance 12;
      }

-- `MarginLeverageManager.check`: expected mode and leverage, observed mode and leverage
unfoldable pub check_margin : String → ℤ → String → ℤ → GuardResult
check_margin expected_mode expected_leverage observed_mode observed_leverage = guarded (
    when (not (observed_mode == expected_mode)) "margin_mode_mismatch"
    ++ when (not (eqb_ℤ observed_leverage expected_leverage)) "leverage_mismatch")
