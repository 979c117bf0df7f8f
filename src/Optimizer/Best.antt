-- ===== src/Optimizer/Best.antt =====
-- What the directional phase of the search chooses (src/engine/optimizer/phases.py).
use mathlib.Core.List.{Memᴰ}
use proofalpha.Prelude.{
  true, false, none, some, List, ◌∷◌, [], ◌≡◌, ◌⊎◌, inl, inr, refl, sym, subst, Bool-cases,
}
use proofalpha.Python.Runtime.{Runtime, IsOrdered}
use proofalpha.Optimizer.Models.{LayerSpec, StrategyGraph, PhaseRecord, with_layer}
use proofalpha.Optimizer.Phases.{
  Evaluator, Best, is_accepted, is_better, best_loop, with_best, run_directional_phase,
  directional_with_records,
}
use proofalpha.Optimizer.Growth.{IsChoice, best_loop-IsChoice}

module _ (R : Runtime) (evaluator : Evaluator R) (ordered : IsOrdered R) where
  module _ (incumbent : StrategyGraph R.Float) where
    abbrev sharpe_of : LayerSpec R.Float → R.Float
    sharpe_of layer = (evaluator incumbent layer).oos_result.sharpe

    abbrev Accepts : LayerSpec R.Float → Type 0
    Accepts layer = is_accepted R (evaluator incumbent layer) ≡ true

    -- There is a best layer, and this one is not better.
    abbrev Covers : Best R → LayerSpec R.Float → Type 0
    Covers none layer = ⊥
    Covers (some (l, sharpe)) layer = R.lt sharpe (sharpe_of layer) ≡ false

    Covers-better :
        (best : Best R) (next layer : LayerSpec R.Float)
        → is_better R best (sharpe_of next) ≡ true
        → Covers best layer
        → Covers (some (next, sharpe_of next)) layer
    unfolding is_better
    Covers-better none next layer h c = absurd c
    Covers-better (some (l, x)) next layer h c =
        elim (Bool-cases (R.lt (sharpe_of next) (sharpe_of layer))) [
          | inr out ↦ out
          | inl above ↦ let t = ordered.lt_trans x _ _ h above in cc
        ]

    Covers-worse :
        (best : Best R) (layer : LayerSpec R.Float)
        → is_better R best (sharpe_of layer) ≡ false
        → Covers best layer
    unfolding is_better
    Covers-worse none layer h = absurd cc
    Covers-worse (some (l, x)) layer h = h

    best_loop-keeps :
        (layers : List (LayerSpec R.Float)) (best : Best R) (m : LayerSpec R.Float)
        → Covers best m
        → Covers (best_loop R evaluator incumbent best layers) m
    unfolding best_loop
    best_loop-keeps [] best m c = c
    best_loop-keeps (layer ∷ rest) best m c =
        elim (Bool-cases (is_accepted R (evaluator incumbent layer))) [
          | inr bad ↦ rw bad (best_loop-keeps rest best m c)
          | inl good ↦ elim (Bool-cases (is_better R best (sharpe_of layer))) [
            | inr worse ↦ rw (good, worse) (best_loop-keeps rest best m c)
            | inl better ↦
                rw (good, better) (best_loop-keeps rest _ m (Covers-better best layer m better c))
          ]
        ]

    best_loop-Covers :
        (layers : List (LayerSpec R.Float)) (best : Best R) (m : LayerSpec R.Float)
        → Memᴰ m layers
        → Accepts m
        → Covers (best_loop R evaluator incumbent best layers) m
    unfolding best_loop
    best_loop-Covers [] best m i a = elim i [ ]
    best_loop-Covers (layer ∷ rest) best m (Memᴰ.tail i) a = best_loop-Covers rest _ m i a
    best_loop-Covers (layer ∷ rest) best m (Memᴰ.head e) a =
        let good : Accepts layer = subst Accepts e a in
        subst (Covers (best_loop R evaluator incumbent best (layer ∷ rest))) (sym e)
          (elim (Bool-cases (is_better R best (sharpe_of layer))) [
            | inr worse ↦
                rw (best_loop, good, worse)
                  (best_loop-keeps rest best layer (Covers-worse best layer worse))
            | inl better ↦
                rw (best_loop, good, better)
                  (best_loop-keeps rest _ layer (ordered.lt_irrefl (sharpe_of layer)))
          ])

    -- The outcome of a directional phase: no layer was accepted and nothing is added, or an accepted
    -- layer is added, and no accepted one has a greater Sharpe ratio.
    abbrev pub IsBestOf : List (LayerSpec R.Float) → StrategyGraph R.Float → Type 0
    IsBestOf layers result =
        (((m : LayerSpec R.Float) → Memᴰ m layers → ¬ Accepts m) × (result ≡ incumbent))
        ⊎ ((best : LayerSpec R.Float) × Memᴰ best layers
            × Accepts best
            × ((m : LayerSpec R.Float)
                → Memᴰ m layers
                → Accepts m
                → R.lt (sharpe_of best) (sharpe_of m) ≡ false)
            × (result ≡ with_layer R.Float incumbent best))

    with_best-IsBestOf :
        (layers : List (LayerSpec R.Float)) (best : Best R)
        → IsChoice R evaluator layers incumbent best
        → ((m : LayerSpec R.Float) → Memᴰ m layers → Accepts m → Covers best m)
        → IsBestOf layers (with_best R incumbent best)
    with_best-IsBestOf layers none i c = inl (c, refl)
    with_best-IsBestOf layers (some (best, sharpe)) (m, a, e) c =
        inr (best, m, a, (λ l j k. rw (← e) (c l j k)), refl)

  -- The directional phase adds the accepted layer of the greatest out-of-sample Sharpe ratio, or
  -- nothing when it accepts none; both versions of the phase, with and without records, agree.
  pub directional_with_records-IsBestOf :
      (incumbent : StrategyGraph R.Float) (layers : List (LayerSpec R.Float))
      (phase_records : List (PhaseRecord R.Float))
      → let s = (directional_with_records R evaluator incumbent layers phase_records).0 in
        IsBestOf incumbent layers s × (run_directional_phase R evaluator incumbent layers ≡ s)
  unfolding directional_with_records run_directional_phase
  directional_with_records-IsBestOf incumbent layers phase_records = (
    with_best-IsBestOf incumbent layers _
        (best_loop-IsChoice R evaluator layers incumbent layers none (λ l m. m) tt)
        (λ m i a. best_loop-Covers incumbent layers none m i a),
    refl,
  )
