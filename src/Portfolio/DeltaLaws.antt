-- ===== src/Portfolio/DeltaLaws.antt =====
-- Which orders a delta order plan asks for (src/engine/portfolio/delta_order_plan.py).
use mathlib.Core.List.{Memᴰ}
use mathlib.Core.List.Memᴰ
use proofalpha.Prelude.{
  String, Bool, true, false, List, ◌∷◌, [], ◌++◌, ◌==◌, ◌&&◌, ◌||◌, ◌≡◌, ◌↔◌, refl, sym, ap, ◌∙◌,
  arith, if◌then◌else◌, contains, Bool-cases, inl, inr, eq_iff,
}
use proofalpha.Prelude.Dict.{Dict}
use proofalpha.Python.Runtime.{Runtime}
use proofalpha.Portfolio.Target.{SymbolTarget}
use proofalpha.Portfolio.Delta.{
  Action, delta_at, is_negligible, delta_action, delta_actions, named, notional_at,
}

module _ (R : Runtime) where
  pub named-Mem :
      (name : String) (a : Action R) (l : List (Action R))
      → Memᴰ a (named R name l) ↔ (Memᴰ a l × ((a.action == name) ≡ true))
  unfolding named
  named-Mem name a [] = (λ m. absurd (Memᴰ.not-nil m), λ (m, e). m)
  named-Mem name a (b ∷ l) =
      let later = named-Mem name a l in
      elim (Bool-cases (b.action == name)) [
        | inl e ↦ rw e (
          λ m. elim (Memᴰ.cases_cons m) [
            | inl same ↦ (Memᴰ.head same, ap (λ (x : Action R). x.action == name) same ∙ e)
            | inr t ↦ let (t2, e2) = later.0 t in (Memᴰ.tail t2, e2)
          ],
          λ (m, e2). elim (Memᴰ.cases_cons m) [
            | inl same ↦ Memᴰ.head same
            | inr t ↦ Memᴰ.tail (later.1 (t, e2))
          ],
        )
        | inr e ↦ rw e (
          λ m. let (t2, e2) = later.0 m in (Memᴰ.tail t2, e2),
          λ (m, e2). elim (Memᴰ.cases_cons m) [
            | inl same ↦
                let other = sym (ap (λ (x : Action R). x.action == name) same ∙ e) ∙ e2 in cc
            | inr t ↦ later.1 (t, e2)
          ],
        )
      ]

  module _ (current target : Dict R.Float) (targets : List (SymbolTarget R.Float)) where
    -- The action that takes a symbol of the list, whose change is not negligible, to its target.
    abbrev pub IsWanted : List String → Action R → Type 0
    IsWanted symbols a =
        (contains a.symbol symbols ≡ true)
        × (is_negligible R (delta_at R current target a.symbol) ≡ false)
        × (a ≡ delta_action R current target targets a.symbol)

    pub delta_actions-Mem :
        (a : Action R) (symbols : List String)
        → Memᴰ a (delta_actions R current target targets symbols) ↔ IsWanted symbols a
    unfolding delta_actions contains delta_action
    delta_actions-Mem a [] = (λ m. absurd (Memᴰ.not-nil m), λ (e, n, q). cc)
    delta_actions-Mem a (s ∷ rest) =
        let later = delta_actions-Mem a rest in
        let same_symbol : a ≡ delta_action R current target targets s → a.symbol ≡ s =
          λ q. ap (λ (x : Action R). x.symbol) q in
        elim (Bool-cases (is_negligible R (delta_at R current target s))) [
          | inl e ↦ rw e (
            λ m. let (c, n, q) = later.0 m in (ground (arith, c), n, q),
            λ (c, n, q). later.1 (
              elim (Bool-cases (a.symbol == s)) [
                | inl e2 ↦
                    let here : a.symbol ≡ s = ground (arith, e2, eq_iff a.symbol s) in
                    let apart =
                      sym n ∙ ap (λ x. is_negligible R (delta_at R current target x)) here ∙ e in
                    cc
                | inr e2 ↦ ground (arith, c, e2)
              ],
              n,
              q,
            ),
          )
          | inr e ↦ rw e (
            λ m. elim (Memᴰ.cases_cons m) [
              | inl q ↦
                  let here = same_symbol q in
                  let listed : (a.symbol == s) ≡ true = ground (arith, here, eq_iff a.symbol s) in
                  (
                    ground (arith, listed),
                    ap (λ x. is_negligible R (delta_at R current target x)) here ∙ e,
                    q ∙ ap (delta_action R current target targets) (sym here),
                  )
              | inr t ↦ let (c, n, q) = later.0 t in (ground (arith, c), n, q)
            ],
            λ (c, n, q). elim (Bool-cases (a.symbol == s)) [
              | inl e2 ↦
                  let here : a.symbol ≡ s = ground (arith, e2, eq_iff a.symbol s) in
                  Memᴰ.head (q ∙ ap (delta_action R current target targets) here)
              | inr e2 ↦ Memᴰ.tail (later.1 (ground (arith, c, e2), n, q))
            ],
          )
        ]

  abbrev pub has_name : String → Bool
  has_name s = (s == "open") || ((s == "increase") || ((s == "reduction") || (s == "close")))

  has_name-if :
      (b c d : Bool)
      → has_name
          (if b then "open" else (if c then "close" else (if d then "increase" else "reduction")))
        ≡ true
  has_name-if true c d = refl
  has_name-if false true d = refl
  has_name-if false false true = refl
  has_name-if false false false = refl

  pub delta_action-has_name :
      (current target : Dict R.Float) (targets : List (SymbolTarget R.Float)) (s : String)
      → has_name (delta_action R current target targets s).action ≡ true
  unfolding delta_action
  delta_action-has_name current target targets s =
      has_name-if
        (R.eq (notional_at R current s) (R.lit 0 0) && R.lt (R.lit 0 0) (notional_at R target s))
        (R.eq (notional_at R target s) (R.lit 0 0) && R.lt (R.lit 0 0) (notional_at R current s))
        (R.lt (R.lit 0 0) (delta_at R current target s))

  pub named_append-Mem :
      (a : Action R) (l m : List (Action R)) (name : String) (t : Bool)
      → Memᴰ a m ↔ (Memᴰ a l × (t ≡ true))
      → Memᴰ a (named R name l ++ m) ↔ (Memᴰ a l × (((a.action == name) || t) ≡ true))
  named_append-Mem a l m name t rest =
      let first = named-Mem name a l in
      (
        λ h. elim (Memᴰ.append_cases (named R name l) h) [
          | inl here ↦ let (i, e) = first.0 here in (i, ground (arith, e))
          | inr there ↦ let (i, e) = rest.0 there in (i, ground (arith, e))
        ],
        λ (i, e). elim (Bool-cases (a.action == name)) [
          | inl here ↦ Memᴰ.append_left m (first.1 (i, here))
          | inr apart ↦ Memᴰ.append_right (named R name l) (rest.1 (i, ground (arith, e, apart)))
        ],
      )
