-- ===== src/Universe/Safety.antt =====
-- The decisions on a symbol against what the executor may trade
-- (src/engine/universe/quarantine.py, demotion.py, admission.py, filters.py).
use proofalpha.Prelude.{
  String, Bool, true, false, none, some, ◌∷◌, [], ◌==◌, ◌≡◌, ◌≢◌, ◌↔◌, refl, arith, sym, ap, ◌∙◌,
  eq_refl, Option-cases, Bool-cases, inl, inr, eq_iff, is_empty, is_empty-append, is_empty-when,
  All, contains,
}
use proofalpha.Prelude.Dict.{Dict, lookup}
use proofalpha.Universe.Manifest.{
  SymbolState, is_paper_state, UniverseManifest, updated, key_error, Digest, is_allowed_entry,
  moved, with_state, executor_symbol_allowed,
}
use proofalpha.Universe.Decisions.{
  QuarantineFlags, quarantine_reasons, evaluate_symbol_quarantine, DemotionFlags, demotion_reasons,
  evaluate_symbol_demotion, AdmissionGateInputs, gates, unmet, evaluate_symbol_admission,
}
use proofalpha.Universe.History.{kept_or, lookup-with_state, allowed_by_entry}

no_quarantine_iff :
    (f : QuarantineFlags)
    → (is_empty (quarantine_reasons f) ≡ true)
      ↔ ((f.data_gap ≡ false) × ((f.reconciliation_issue ≡ false) × (f.venue_rule_change ≡ false)))
unfolding quarantine_reasons
no_quarantine_iff f = simp (is_empty-append, is_empty-when) (ground arith)

quarantine_state :
    (f : QuarantineFlags)
    → is_paper_state (evaluate_symbol_quarantine f).target_state ≡ is_empty (quarantine_reasons f)
unfolding evaluate_symbol_quarantine
quarantine_state f = elim (Bool-cases (is_empty (quarantine_reasons f))) [
  | inl e ↦ rw e refl
  | inr e ↦ rw e refl
]

demotion_state :
    (f : DemotionFlags) → is_paper_state (evaluate_symbol_demotion f).target_state ≡ true
unfolding evaluate_symbol_demotion
demotion_state f = elim (Bool-cases (is_empty (demotion_reasons f))) [
  | inl e ↦ rw e refl
  | inr e ↦ rw e refl
]

module _ (D : Digest) where
  -- the entry that a successful move leaves
  moved_entry :
      (m after : UniverseManifest) (symbol : String) (state : SymbolState) (reason : String)
      → with_state D m symbol state reason ≡ updated after
      → (executor_symbol_allowed after symbol).allowed ≡ is_paper_state state
  unfolding with_state is_allowed_entry moved
  moved_entry m after symbol state reason h = elim (Option-cases (lookup symbol m.symbols)) [
    | inl e ↦
        let raised : with_state D m symbol state reason ≡ key_error symbol =
          rw (with_state, e) refl in
        cc
    | inr (current, e) ↦
        let entry : lookup symbol after.symbols ≡ some (moved D state reason current) =
          ap (λ r. lookup symbol (kept_or m r).symbols) (sym h)
          ∙ (lookup-with_state D m symbol symbol state reason ∙ (rw (eq_refl symbol, e) refl)) in
        rw (allowed_by_entry D after symbol, entry) refl
  ]

  other_entry :
      (m after : UniverseManifest) (symbol other : String) (state : SymbolState) (reason : String)
      → with_state D m symbol state reason ≡ updated after
      → symbol ≢ other
      → (executor_symbol_allowed after other).allowed ≡ (executor_symbol_allowed m other).allowed
  other_entry m after symbol other state reason h ne =
      let same : (symbol == other) ≡ false = ground (arith, eq_iff symbol other) in
      let entry : lookup other after.symbols ≡ lookup other m.symbols =
        ap (λ r. lookup other (kept_or m r).symbols) (sym h)
        ∙ (lookup-with_state D m symbol other state reason ∙ (rw same refl)) in
      rw (allowed_by_entry D after other, allowed_by_entry D m other, entry) refl

  -- After a symbol of the manifest is moved to the state that its quarantine decision asks for, the
  -- executor may trade it exactly when none of the three flags is raised, and what it may do with any
  -- other symbol is as before.
  pub quarantine_blocks :
      (m after : UniverseManifest) (symbol other : String) (f : QuarantineFlags) (reason : String)
      → with_state D m symbol (evaluate_symbol_quarantine f).target_state reason ≡ updated after
      → symbol ≢ other
      → (((executor_symbol_allowed after symbol).allowed ≡ true) ↔ (
          (f.data_gap ≡ false)
          × ((f.reconciliation_issue ≡ false) × (f.venue_rule_change ≡ false))))
        × ((executor_symbol_allowed after other).allowed
            ≡ (executor_symbol_allowed m other).allowed)
  quarantine_blocks m after symbol other f reason h ne = (
    rw (moved_entry m after symbol _ reason h, quarantine_state f) (no_quarantine_iff f),
    other_entry m after symbol other _ reason h ne,
  )

  -- After a symbol of the manifest is moved to the state that its demotion decision asks for, the
  -- executor may still trade it, whatever the flags, since REDUCE_ONLY is a paper state; and what it
  -- may do with any other symbol is as before.
  pub demotion_keeps :
      (m after : UniverseManifest) (symbol other : String) (f : DemotionFlags) (reason : String)
      → with_state D m symbol (evaluate_symbol_demotion f).target_state reason ≡ updated after
      → symbol ≢ other
      → ((executor_symbol_allowed after symbol).allowed ≡ true)
        × ((executor_symbol_allowed after other).allowed
            ≡ (executor_symbol_allowed m other).allowed)
  demotion_keeps m after symbol other f reason h ne = (
    moved_entry m after symbol _ reason h ∙ demotion_state f,
    other_entry m after symbol other _ reason h ne,
  )

-- No name stands twice.
abbrev IsNamed : Dict Bool → Type 0
IsNamed [] = Unit
IsNamed ((k, v) ∷ d) = (lookup k d ≡ none) × IsNamed d

contains-unmet :
    (name : String) (d : Dict Bool)
    → IsNamed d
    → (contains name (unmet d) ≡ true) ↔ (lookup name d ≡ some false)
unfolding unmet contains lookup
contains-unmet name [] h = ground arith
contains-unmet name ((k, true) ∷ d) h =
    let ih = contains-unmet name d h.1 in ground (arith, eq_iff k name)
contains-unmet name ((k, false) ∷ d) h =
    let ih = contains-unmet name d h.1 in ground (arith, eq_iff k name, eq_iff name k)

gates-IsNamed : (i : AdmissionGateInputs) → IsNamed (gates i)
unfolding gates lookup
gates-IsNamed i = ground arith

none_unmet : (d : Dict Bool) → (is_empty (unmet d) ≡ true) ↔ All (λ e. e.1 ≡ true) d
unfolding unmet
none_unmet [] = ground arith
none_unmet ((k, b) ∷ d) = let ih = none_unmet d in ground arith

-- A symbol is eligible for paper trading exactly when all sixteen gates are passed, and a text is
-- among the rejections exactly when it names a gate that is not.
pub evaluate_symbol_admission_iff :
    (i : AdmissionGateInputs) (name : String)
    → (((evaluate_symbol_admission i).paper_eligible ≡ true) ↔ All (λ e. e.1 ≡ true) (gates i))
      × ((contains name (evaluate_symbol_admission i).rejections ≡ true)
          ↔ (lookup name (gates i) ≡ some false))
unfolding evaluate_symbol_admission
evaluate_symbol_admission_iff i name =
    (none_unmet (gates i), contains-unmet name (gates i) (gates-IsNamed i))
