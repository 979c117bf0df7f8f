-- ===== src/Governance/Revalidation.antt =====
-- src/engine/governance/lifecycle.py: `evaluate_revalidation_requirement`, with this file's own
-- `_parse_utc`, which takes a time with no offset as local.
use proofalpha.Prelude.{
  ℕ, suc, ◌/◌, ◌*◌, String, Bool, true, false, not, none, some, List, ◌++◌, ◌==◌, ◌≡◌, ◌↔◌, ◌⊎◌,
  ◌≢◌, refl, arith, is_empty, when, eq_iff,
}
use proofalpha.Prelude.Int.{ℤ, pos, negsuc, ◌-ℤ◌, ◌≤ℤ◌, leb_ℤ}
use proofalpha.Python.Runtime.{Runtime, Datetime}
use proofalpha.Python.Convert.{Result, ok, err, value_error, ◌>>=◌}

pub record RevalidationDecision : Type 0 where
  pub required : Bool
  pub reasons : List String
  pub days_since_validation : ℤ

abbrev pub day_micros : ℕ
day_micros = 86400000000

-- `timedelta.days`, which rounds down
unfoldable pub days : ℤ → ℤ
days (pos n) = pos (n / day_micros)
days (negsuc n) = negsuc (n / day_micros)

-- `max(0, n)`
unfoldable pub at_least_zero : ℤ → ℤ
at_least_zero (pos n) = pos n
at_least_zero (negsuc n) = pos 0

pub record RuleVersions : Type 0 where
  pub artifact_scenario_pack_version : String
  pub active_scenario_pack_version : String
  pub artifact_exchange_rules_version : String
  pub active_exchange_rules_version : String

-- the part of `evaluate_revalidation_requirement` after the two times are read
unfoldable pub revalidation_decision : ℤ → RuleVersions → ℤ → RevalidationDecision
revalidation_decision elapsed v cadence_days =
    let days_since = at_least_zero (days elapsed) in
    let reasons =
      when (leb_ℤ cadence_days days_since) "monthly_revalidation_due"
      ++ (when (not (v.artifact_scenario_pack_version == v.active_scenario_pack_version))
            "scenario_pack_changed"
          ++ when (not (v.artifact_exchange_rules_version == v.active_exchange_rules_version))
              "venue_api_rules_changed") in
    record {
      required = not (is_empty reasons);
      reasons = reasons;
      days_since_validation = days_since;
    }

module _ (R : Runtime) where
  -- `astimezone(timezone.utc)`
  unfoldable pub local_micros : Datetime → ℤ
  local_micros d = elim d.offset [
    | none ↦ d.clock -ℤ R.local_offset d.clock
    | some o ↦ d.clock -ℤ o
  ]

  unfoldable pub parse_utc : String → Result ℤ
  parse_utc value = elim (R.from_iso value) [
    | none ↦ err (value_error value)
    | some d ↦ ok (local_micros d)
  ]

  unfoldable pub evaluate_revalidation_requirement :
      String → String → RuleVersions → ℤ → Result RevalidationDecision
  evaluate_revalidation_requirement last_validation_at now v cadence_days = do
    last ← parse_utc last_validation_at
    current ← parse_utc now
    ok (revalidation_decision (current -ℤ last) v cadence_days)

-- A cadence of at least one day has passed exactly when that many whole days have.
cadence_iff :
    (c : ℕ) (elapsed : ℤ)
    → (leb_ℤ (pos (suc c)) (at_least_zero (days elapsed)) ≡ true)
      ↔ (pos (suc c * day_micros) ≤ℤ elapsed)
unfolding at_least_zero days
cadence_iff c (pos n) = ground arith
cadence_iff c (negsuc n) = ground arith

some_reason_iff :
    (a b c : Bool) (x y z : String)
    → (not (is_empty (when a x ++ (when (not b) y ++ when (not c) z))) ≡ true)
      ↔ ((a ≡ true) ⊎ ((b ≢ true) ⊎ (c ≢ true)))
some_reason_iff true b c x y z = ground arith
some_reason_iff false true c x y z = ground arith
some_reason_iff false false c x y z = ground arith

required_iff :
    (elapsed : ℤ) (v : RuleVersions) (c : ℕ)
    → ((revalidation_decision elapsed v (pos (suc c))).required ≡ true) ↔ (
        (pos (suc c * day_micros) ≤ℤ elapsed)
        ⊎ ((v.artifact_scenario_pack_version ≢ v.active_scenario_pack_version)
            ⊎ (v.artifact_exchange_rules_version ≢ v.active_exchange_rules_version)))
unfolding revalidation_decision
required_iff elapsed v c =
    let due = cadence_iff c elapsed in
    let packs = eq_iff v.artifact_scenario_pack_version v.active_scenario_pack_version in
    let rules = eq_iff v.artifact_exchange_rules_version v.active_exchange_rules_version in
    let some_reason =
      some_reason_iff (leb_ℤ (pos (suc c)) (at_least_zero (days elapsed)))
        (v.artifact_scenario_pack_version == v.active_scenario_pack_version)
        (v.artifact_exchange_rules_version == v.active_exchange_rules_version) _ _ _ in
    (
      λ h. ground (arith, due, packs, rules, some_reason.0 h),
      λ h. some_reason.1 (ground (arith, due, packs, rules, h)),
    )

-- If the two times are read, the call returns a decision, and it requires revalidation exactly when
-- the cadence (of a day or more) has passed between the two instants, or the artifact's scenario
-- pack or its exchange rules are not the active ones.
pub evaluate_revalidation_requirement_iff :
    (R : Runtime) (last_at now_at : String) (v : RuleVersions) (c : ℕ) (last now : ℤ)
    → parse_utc R last_at ≡ ok last
    → parse_utc R now_at ≡ ok now
    → (d : RevalidationDecision) × (evaluate_revalidation_requirement R last_at now_at v
          (pos (suc c))
        ≡ ok d)
      × ((d.required ≡ true) ↔ (
          (pos (suc c * day_micros) ≤ℤ now -ℤ last)
          ⊎ ((v.artifact_scenario_pack_version ≢ v.active_scenario_pack_version)
              ⊎ (v.artifact_exchange_rules_version ≢ v.active_exchange_rules_version))))
unfolding evaluate_revalidation_requirement
evaluate_revalidation_requirement_iff R last_at now_at v c last now p q =
    (revalidation_decision (now -ℤ last) v (pos (suc c)), rw (p, q) refl, required_iff _ v c)
