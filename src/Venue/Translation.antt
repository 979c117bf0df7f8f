-- ===== src/Venue/Translation.antt =====
-- Which intents `BinanceUsdMTranslator.translate` passes
-- (src/engine/execution/venue_translator/binance_usdm.py).
use proofalpha.Prelude.{
  String, Bool, true, false, not, Option, none, some, List, [], ◌==◌, ◌&&◌, ◌||◌, ◌≡◌, ◌↔◌, ◌⊎◌,
  inl, refl, arith, subst, if◌then◌else◌, is_empty, when, contains, eq_iff, is_empty-append,
  empty_iff_and, empty_when, and_iff,
}
use proofalpha.Python.Runtime.{Runtime}
use proofalpha.Python.Sets.{is_empty-sorted_set}
use proofalpha.Orders.Intent.{InternalOrderIntent, issues_of, validate_internal_order_intent}
use proofalpha.Venue.Rules.{Decimals, ExchangeSymbolRules, get}
use proofalpha.Venue.Translator.{
  BinanceUsdMTranslator, TranslationInput, time_in_force_of, reasons_with, translate,
}
use proofalpha.Venue.Sendable.{
  IsUsable, IsTradable, IsWithinLimits, IsCovered, notional, number_iff, limits_iff, IsCovered-iff,
  modes_iff,
}

module _ (R : Runtime) (D : Decimals R) where
  -- What is asked of an intent, the translator's settings and the input, given the symbol's rules.
  abbrev pub IsSendable :
      BinanceUsdMTranslator R.Float
      → InternalOrderIntent R.Float
      → TranslationInput R.Float
      → ExchangeSymbolRules R.Float
      → Type 0
  IsSendable t i x rules =
      ((validate_internal_order_intent R i).passed ≡ true)
      × (IsUsable R x.quantity
          × (IsUsable R x.price
              × ((IsTradable R rules × IsWithinLimits R D t x rules)
                  × ((((t.margin_mode ≡ "cross") ⊎ (t.margin_mode ≡ "isolated"))
                        × ((t.position_mode ≡ "one_way") ⊎ (t.position_mode ≡ "hedge")))
                      × (((i.reduce_only_required ≡ false)
                            ⊎ IsCovered R D (notional R D x (some rules))
                                x.current_position_notional)
                          × ((x.close_position ≡ false)
                              ⊎ ((i.reduce_only_required ≡ true) × (i.intent_type ≡ "close"))))))))

  reduce_only_iff :
      (b : Bool) (xs : List String) (P : Type 0)
      → ((is_empty xs ≡ true) ↔ P)
      → (is_empty (if b then xs else []) ≡ true) ↔ ((b ≡ false) ⊎ P)
  reduce_only_iff true xs P p = ground arith
  reduce_only_iff false xs P p = (λ h. inl refl, λ h. refl)

  close_iff :
      (close required : Bool) (type : String)
      → ((close && (not required || not (type == "close"))) ≡ false)
        ↔ ((close ≡ false) ⊎ ((required ≡ true) × (type ≡ "close")))
  close_iff close required type = let e = eq_iff type "close" in ground arith

  -- the last test adds nothing to `IsTradable`
  gtx_redundant :
      (tif : String) (b : Bool) (x : String)
      → b ≡ true
      → is_empty (when (tif == "GTX" && not b) x) ≡ true
  gtx_redundant tif b x h = ground arith

  issues_iff :
      (i : InternalOrderIntent R.Float)
      → (is_empty (issues_of R i) ≡ true) ↔ ((validate_internal_order_intent R i).passed ≡ true)
  unfolding validate_internal_order_intent
  issues_iff i = (λ h. h, λ h. h)

  reasons_iff :
      (t : BinanceUsdMTranslator R.Float) (i : InternalOrderIntent R.Float)
      (x : TranslationInput R.Float) (rules : ExchangeSymbolRules R.Float)
      → (is_empty (reasons_with R D t i x (some rules)) ≡ true) ↔ IsSendable t i x rules
  unfolding reasons_with
  reasons_iff t i x rules =
      let closing =
        when (x.close_position && (not i.reduce_only_required || not (i.intent_type == "close")))
          "close_position_requires_close_reduce_only_intent" in
      let gtx =
        when
          (time_in_force_of x.passive i.urgency == "GTX"
            && not (contains "LIMIT" rules.order_types))
          "limit_order_type_not_allowed" in
      let full = empty_iff_and _ _ (issues_iff i) (
        empty_iff_and _ _ (number_iff R _ _ x.quantity) (
          empty_iff_and _ _ (number_iff R _ _ x.price) (
            empty_iff_and _ _ (limits_iff R D t x rules) (
              empty_iff_and _ _ (modes_iff R D t) (
                empty_iff_and _ _
                  (reduce_only_iff i.reduce_only_required _ _
                    (IsCovered-iff R D (notional R D x (some rules)) x.current_position_notional))
                  (empty_iff_and {P = _} {Q = is_empty gtx ≡ true} closing gtx
                    (empty_when _ _
                      (close_iff x.close_position i.reduce_only_required i.intent_type))
                    (λ h. h, λ h. h))))))) in
      (
        λ h. let (a, (b, (c, (d, (e, (f, (g, k))))))) = full.0 h in (a, (b, (c, (d, (e, (f, g)))))),
        λ (a, (b, (c, (d, (e, (f, g)))))).
            full.1 (a, (b, (c, (d, (e, (f, (g, gtx_redundant _ _ _ d.0.1.1.1.0))))))),
      )

  no_rules :
      (t : BinanceUsdMTranslator R.Float) (i : InternalOrderIntent R.Float)
      (x : TranslationInput R.Float)
      → is_empty (reasons_with R D t i x none) ≡ true
      → false ≡ true
  unfolding reasons_with
  no_rules t i x h = let parts = (simp (is_empty-append, and_iff) at h) in ground (arith, parts)

  translate_found :
      (t : BinanceUsdMTranslator R.Float) (i : InternalOrderIntent R.Float)
      (x : TranslationInput R.Float) (found : Option (ExchangeSymbolRules R.Float))
      → (is_empty (reasons_with R D t i x found) ≡ true)
        ↔ ((rules : ExchangeSymbolRules R.Float) × (found ≡ some rules) × IsSendable t i x rules)
  translate_found t i x none = (λ h. let c = no_rules t i x h in cc, λ (rules, e, s). cc)
  translate_found t i x (some rules) = (
    λ h. (rules, refl, (reasons_iff t i x rules).0 h),
    λ (r, e, s).
        let same : r ≡ rules = cc in
        (reasons_iff t i x rules).1 (subst (λ q. IsSendable t i x q) same s),
  )

  -- An intent is translated without rejection exactly when it is valid, quantity and price are finite
  -- and positive, the symbol has rules under which it is a USDT perpetual that trades limit orders with
  -- its increments set, the rounded notional reaches the minimum and the leverage is within the largest
  -- bracket, the margin and position modes are known, a reduce-only order is covered by a position, and
  -- only a reduce-only close closes a position. And it is passed exactly when no reason is reported.
  pub translate_passed_iff :
      (t : BinanceUsdMTranslator R.Float) (i : InternalOrderIntent R.Float)
      (x : TranslationInput R.Float)
      → (((translate R D t i x).passed ≡ true) ↔ (
          (rules : ExchangeSymbolRules R.Float) × (get t.rules_cache i.symbol ≡ some rules)
          × IsSendable t i x rules))
        × (is_empty (translate R D t i x).rejection_reasons ≡ (translate R D t i x).passed)
  unfolding translate
  translate_passed_iff t i x =
      (translate_found t i x (get t.rules_cache i.symbol), is_empty-sorted_set _)
