-- ===== src/Venue/Sendable.antt =====
-- The tests of `BinanceUsdMTranslator.translate`, one by one
-- (src/engine/execution/venue_translator/binance_usdm.py).
use mathlib.Core.Option
use proofalpha.Prelude.{
  empty_iff_and, empty_when, String, Bool, true, false, not, Option, none, some, ◌∷◌, [], ◌≡◌, ◌↔◌,
  ◌⊎◌, inl, inr, refl, arith, is_empty, when, contains, eq_iff, Bool-cases,
}
use proofalpha.Prelude.Int.{ℤ, ◌≤ℤ◌}
use proofalpha.Python.Runtime.{Runtime}
use proofalpha.Venue.Rules.{Decimals, ExchangeSymbolRules, max_leverage}
use proofalpha.Venue.Translator.{
  BinanceUsdMTranslator, TranslationInput, differs, zero, is_unset, or_zero, number_reasons,
  rule_rejections, rounded, exceeds, limit_reasons, reduce_only_reasons, mode_reasons,
}

-- not given, or as expected
abbrev pub IsUnlessGiven : Option String → String → Type 0
IsUnlessGiven o expected = (o ≡ none) ⊎ (o ≡ some expected)

differs_iff : (o : Option String) (s : String) → (differs o s ≡ false) ↔ IsUnlessGiven o s
differs_iff none s = (λ h. inl refl, λ h. refl)
differs_iff (some a) s = let e = eq_iff a s in ground arith

empty_false : {A : Type 0} (b : Bool) (x : A) → (is_empty (when b x) ≡ true) ↔ (b ≡ false)
empty_false b x = empty_when b x (λ h. h, λ h. h)

pub unless_true : (b : Bool) → (not b ≡ false) ↔ (b ≡ true)
unless_true b = ground arith

pub one_of : (s a b : String) → (not (contains s (a ∷ b ∷ [])) ≡ false) ↔ ((s ≡ a) ⊎ (s ≡ b))
unfolding contains
one_of s a b = let p = eq_iff s a in let q = eq_iff s b in ground arith

module _ (R : Runtime) where
  -- a finite number above zero
  abbrev pub IsUsable : R.Float → Type 0
  IsUsable x = (R.is_finite x ≡ true) × (R.le x (zero R) ≡ false)

  -- given, and above zero
  abbrev pub IsPresent : Option R.Float → Type 0
  IsPresent o = (v : R.Float) × (o ≡ some v) × (R.le v (zero R) ≡ false)

  -- The symbol is a USDT perpetual that trades, with its increments and limits.
  abbrev pub IsTradable : ExchangeSymbolRules R.Float → Type 0
  IsTradable rules =
      IsUnlessGiven rules.status "TRADING"
      × (IsUnlessGiven rules.contract_type "PERPETUAL"
          × (IsUnlessGiven rules.quote_asset "USDT"
              × ((contains "LIMIT" rules.order_types ≡ true)
                  × (IsPresent rules.tick_size
                      × (IsPresent rules.step_size × IsPresent rules.min_notional)))))

  is_unset_iff : (o : Option R.Float) → (is_unset R o ≡ false) ↔ IsPresent o
  unfolding is_unset
  is_unset_iff none = (λ h. cc, λ (v, e, l). cc)
  is_unset_iff (some w) = (λ h. (w, refl, h), λ (v, e, l). ground arith)

  pub number_iff :
      (s t : String) (x : R.Float) → (is_empty (number_reasons R s t x) ≡ true) ↔ IsUsable x
  unfolding number_reasons
  number_iff s t x = elim (Bool-cases (R.is_finite x)) [
    | inl e ↦
        rw e (let k = empty_false (R.le x (zero R)) t in (λ h. (refl, k.0 h), λ (a, b). k.1 b))
    | inr e ↦ rw e (λ h. cc, λ (a, b). cc)
  ]

  rules_iff :
      (rules : ExchangeSymbolRules R.Float)
      → (is_empty (rule_rejections R rules) ≡ true) ↔ IsTradable rules
  unfolding rule_rejections
  rules_iff rules = empty_iff_and _ _ (empty_when _ _ (differs_iff rules.status "TRADING")) (
      empty_iff_and _ _ (empty_when _ _ (differs_iff rules.contract_type "PERPETUAL")) (
        empty_iff_and _ _ (empty_when _ _ (differs_iff rules.quote_asset "USDT")) (
          empty_iff_and _ _ (empty_when _ _ (unless_true (contains "LIMIT" rules.order_types))) (
            empty_iff_and _ _ (empty_when _ _ (is_unset_iff rules.tick_size)) (
              empty_iff_and _ _ (empty_when _ _ (is_unset_iff rules.step_size))
                (empty_when _ _ (is_unset_iff rules.min_notional)))))))

  module _ (D : Decimals R) where
    abbrev pub notional : TranslationInput R.Float → Option (ExchangeSymbolRules R.Float) → R.Float
    notional x found =
        R.mul (rounded R D x.quantity (Option.map (λ r. r.step_size) found))
          (rounded R D x.price (Option.map (λ r. r.tick_size) found))

    -- The rounded order is worth enough, and the leverage is within the symbol's largest bracket.
    abbrev pub IsWithinLimits :
        BinanceUsdMTranslator R.Float
        → TranslationInput R.Float
        → ExchangeSymbolRules R.Float
        → Type 0
    IsWithinLimits t x rules =
        (R.lt (notional x (some rules)) (or_zero R rules.min_notional) ≡ false)
        × ((max_leverage R D rules.leverage_brackets ≡ none)
            ⊎ ((bound : ℤ) × (max_leverage R D rules.leverage_brackets ≡ some bound)
                × (t.leverage ≤ℤ bound)))

    -- a position above zero that the order does not exceed (by more than 10⁻⁹)
    abbrev pub IsCovered : R.Float → Option R.Float → Type 0
    IsCovered n position =
        (held : R.Float) × (position ≡ some held)
        × (R.le held (zero R) ≡ false)
        × (R.lt (R.add held (R.lit 1 9)) n ≡ false)

    exceeds_iff :
        (leverage : ℤ) (o : Option ℤ)
        → (exceeds R D leverage o ≡ false)
          ↔ ((o ≡ none) ⊎ ((bound : ℤ) × (o ≡ some bound) × (leverage ≤ℤ bound)))
    unfolding exceeds
    exceeds_iff leverage none = (λ h. inl refl, λ h. refl)
    exceeds_iff leverage (some b) = (λ h. inr (b, refl, ground arith), λ h. ground arith)

    pub limits_iff :
        (t : BinanceUsdMTranslator R.Float) (x : TranslationInput R.Float)
        (rules : ExchangeSymbolRules R.Float)
        → (is_empty (limit_reasons R D t x rules) ≡ true)
          ↔ (IsTradable rules × IsWithinLimits t x rules)
    unfolding limit_reasons
    limits_iff t x rules = empty_iff_and _ _ (rules_iff rules) (
        empty_iff_and _ _ (empty_false _ _)
          (empty_when _ _ (exceeds_iff t.leverage (max_leverage R D rules.leverage_brackets))))

    pub IsCovered-iff :
        (n : R.Float) (o : Option R.Float)
        → (is_empty (reduce_only_reasons R D n o) ≡ true) ↔ IsCovered n o
    unfolding reduce_only_reasons
    IsCovered-iff n none = (λ h. cc, λ (v, e, l, m). cc)
    IsCovered-iff n (some w) =
        (λ h. (w, refl, ground arith, ground arith), λ (v, e, l, m). ground arith)

    pub modes_iff :
        (t : BinanceUsdMTranslator R.Float)
        → (is_empty (mode_reasons R D t) ≡ true) ↔ (
            ((t.margin_mode ≡ "cross") ⊎ (t.margin_mode ≡ "isolated"))
            × ((t.position_mode ≡ "one_way") ⊎ (t.position_mode ≡ "hedge")))
    unfolding mode_reasons
    modes_iff t =
        empty_iff_and _ _ (empty_when _ _ (one_of t.margin_mode "cross" "isolated"))
          (empty_when _ _ (one_of t.position_mode "one_way" "hedge"))
