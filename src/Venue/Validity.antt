-- ===== src/Venue/Validity.antt =====
-- The order requests of `BinanceUsdMTranslator.translate` against `validate_venue_order_request`
-- (src/engine/execution/venue_translator/binance_usdm.py, venue_order_request.py).
use Prim.Native.String
use proofalpha.Prelude.{
  String, Bool, true, false, not, Option, ◌==◌, ◌&&◌, ◌≡◌, ◌↔◌, refl, arith, concat, is_empty,
  is_empty-append, is_empty-when, and_iff, not_iff, contains, Bool-cases, inl, inr, starts_with,
  eq_iff, subst,
}
use text.Mathlib.TextPositions.{starts_with-append}
use proofalpha.Python.Runtime.{Runtime}
use proofalpha.Orders.Intent.{
  InternalOrderIntent, issues_of, valid_sides, validate_internal_order_intent,
  deterministic_client_order_id,
}
use proofalpha.Venue.Rules.{Decimals, ExchangeSymbolRules, get}
use proofalpha.Venue.Request.{
  build_venue_order_request, metadata, request_issues, validate_venue_order_request,
}
use proofalpha.Venue.Translator.{
  BinanceUsdMTranslator, TranslationInput, zero, order_with, translate,
}
use proofalpha.Venue.Sendable.{unless_true}
use proofalpha.Venue.Translation.{translate_passed_iff}

-- the text after "cid-" does not matter
client_id_nonempty : (s : String) → (concat "cid-" s == "") ≡ false
client_id_nonempty s = elim (Bool-cases (concat "cid-" s == "")) [
  | inl e ↦
      let empty : concat "cid-" s ≡ "" = (eq_iff (concat "cid-" s) "").0 e in
      let found : starts_with "" "cid-" ≡ true =
        subst (λ z. starts_with z "cid-" ≡ true) empty (starts_with-append "cid-" s) in
      let refuted : starts_with "" "cid-" ≡ false = refl in cc
  | inr e ↦ e
]

and_true : (b : Bool) → (b && true) ≡ b
and_true b = ground arith

and_false : (b : Bool) → (b && false) ≡ false
and_false b = ground arith

module _ (R : Runtime) where
  -- what a valid intent gives its request
  intent_parts :
      (i : InternalOrderIntent R.Float)
      → (validate_internal_order_intent R i).passed ≡ true
      → ((i.symbol == "") ≡ false) × (contains i.side valid_sides ≡ true)
  unfolding validate_internal_order_intent issues_of
  intent_parts i h =
      let parts = (simp (is_empty-append, is_empty-when, and_iff, not_iff) at h) in
      (parts.1.1.1.0, (unless_true (contains i.side valid_sides)).0 parts.1.1.1.1.1.1.0)

  id_nonempty :
      (i : InternalOrderIntent R.Float) (venue : String)
      → (deterministic_client_order_id R i venue == "") ≡ false
  unfolding deterministic_client_order_id
  id_nonempty i venue = client_id_nonempty _

  -- the request of a translation, whether or not it closes the position
  order_issues :
      (D : Decimals R) (t : BinanceUsdMTranslator R.Float) (i : InternalOrderIntent R.Float)
      (x : TranslationInput R.Float) (found : Option (ExchangeSymbolRules R.Float))
      → String.count (R.stable_hash (metadata R i)) ≡ 64
      → (validate_internal_order_intent R i).passed ≡ true
      → is_empty (request_issues R (order_with R D t i x found))
        ≡ not (R.le (order_with R D t i x found).quantity (zero R))
  unfolding request_issues order_with build_venue_order_request
  order_issues D t i x found h p =
      let (symbol, side) = intent_parts i p in
      let id = id_nonempty i "binance_usdm" in
      elim (Bool-cases x.close_position) [
        | inl e ↦
            rw e (simp (is_empty-append, is_empty-when, symbol, side, id, h, and_false, and_true))
        | inr e ↦
            rw e (simp (is_empty-append, is_empty-when, symbol, side, id, h, and_false, and_true))
      ]

  -- The request of a translation that passed is valid for the venue exactly when the rounded quantity
  -- is above zero, if the digest of its metadata has 64 digits, as one of SHA-256 has.
  pub validate_translated :
      (D : Decimals R) (t : BinanceUsdMTranslator R.Float) (i : InternalOrderIntent R.Float)
      (x : TranslationInput R.Float)
      → String.count (R.stable_hash (metadata R i)) ≡ 64
      → (translate R D t i x).passed ≡ true
      → ((validate_venue_order_request R (translate R D t i x).rounded_order).passed ≡ true)
        ↔ (R.le (translate R D t i x).rounded_order.quantity (zero R) ≡ false)
  unfolding translate validate_venue_order_request
  validate_translated D t i x h p =
      let (rules, found, sendable) = (translate_passed_iff R D t i x).0.0 p in
      let issues = order_issues D t i x (get t.rules_cache i.symbol) h sendable.0 in
      (λ q. ground (arith, issues, q), λ q. ground (arith, issues, q))
