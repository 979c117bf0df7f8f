-- ===== src/Venue/Rules.antt =====
-- src/engine/data/exchange_rules_cache.py: the rules of a symbol and their cache, as they are after
-- parsing, and the leverage bracket that
-- src/engine/execution/venue_translator/binance_usdm.py reads off them.
use proofalpha.Prelude.{String, true, false, Option, none, some, List, ◌∷◌, [], if◌then◌else◌}
use proofalpha.Prelude.Dict.{Dict, lookup}
use proofalpha.Prelude.Int.{ℤ, pos, ltb_ℤ}
use proofalpha.Python.Runtime.{Runtime, Value, bool, int, text}

-- `Decimal` and `int` on texts: `round_down v i` is the greatest multiple of `i` towards zero, by
-- `Decimal(str(v))` and `Decimal(str(i))`, and `int_of_digits s` is `int(s)` if `s.isdigit()`.
pub record Decimals (R : Runtime) : Type 0 where
  pub round_down : R.Float → R.Float → R.Float
  pub int_of_digits : String → Option ℤ

pub record ExchangeSymbolRules (Float : Type 0) : Type 0 where
  pub symbol : String
  pub tick_size : Option Float
  pub step_size : Option Float
  pub min_notional : Option Float
  pub order_types : List String
  pub leverage_brackets : List (Dict (Value Float))
  pub margin_asset : Option String
  pub status : Option String
  pub contract_type : Option String
  pub quote_asset : Option String

pub record ExchangeRulesCache (Float : Type 0) : Type 0 where
  pub source : String
  pub created_at_utc : String
  pub symbols : Dict (ExchangeSymbolRules Float)
  pub snapshot_hash : String

-- `ExchangeRulesCache.get`; `none` is the KeyError.
unfoldable pub get :
    {Float : Type 0} → ExchangeRulesCache Float → String → Option (ExchangeSymbolRules Float)
get cache symbol = lookup symbol cache.symbols

module _ (R : Runtime) (D : Decimals R) where
  -- one bracket of `_max_leverage`; a Boolean is an int. The ValueError of `int` on a digit that
  -- `isdigit` accepts and `int` does not, such as a superscript, is left out.
  unfoldable pub bracket_leverage : Option (Value R.Float) → Option ℤ
  bracket_leverage (some (int n)) = some n
  bracket_leverage (some (bool true)) = some (pos 1)
  bracket_leverage (some (bool false)) = some (pos 0)
  bracket_leverage (some (text s)) = D.int_of_digits s
  bracket_leverage _ = none

  unfoldable pub larger : Option ℤ → Option ℤ → Option ℤ
  larger none n = n
  larger m none = m
  larger (some a) (some b) = some (if ltb_ℤ a b then b else a)

  -- `_max_leverage`
  unfoldable pub max_leverage : List (Dict (Value R.Float)) → Option ℤ
  max_leverage [] = none
  max_leverage (bracket ∷ rest) =
      larger (bracket_leverage (lookup "initialLeverage" bracket)) (max_leverage rest)
