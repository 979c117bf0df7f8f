-- ===== src/Portfolio/OverrideTests.antt =====
-- A run of src/engine/portfolio/allocator.py, and the theorem about overrides at it.
use proofalpha.Prelude.Rows.{has_key}
use proofalpha.Prelude.{
  true, false, none, some, ◌∷◌, [], ◌++◌, ◌==◌, ◌≡◌, ◌↔◌, refl, if◌then◌else◌, contains,
}
use proofalpha.Prelude.Int.{ℤ}
use proofalpha.Python.Fixed.{fixed}
use proofalpha.Store.Chain.{IsChain}
use proofalpha.Portfolio.OverrideTables.{HumanOverrideRequest, OverrideDb}
use proofalpha.Portfolio.Override.{apply_human_override, override_rejections, override_event}
use proofalpha.Portfolio.OverrideLaws.{
  IsAllowed, Unchanged, is_applied, is_fresh, apply_human_override_audit,
}

-- a kill switch whose confirmation is misspelt
abbrev unconfirmed : HumanOverrideRequest ℤ
unconfirmed = record {
  action = "kill_switch";
  operator_id = "operator-1";
  artifact_id = none;
  confirmation = some "CONFIRM:kill";
  reason = some "drill";
  payload = none;
}

abbrev db : OverrideDb ℤ
db = record {
  artifacts =
      record { artifact_id = "artifact-1"; rollout_stage = some "paper"; approved = true } ∷ [];
  human_override_journal = [];
  risk_events = [];
  execution_events = [];
}

rejected_run : is_applied fixed (apply_human_override fixed unconfirmed "now" "1" db).1 ≡ false
unfolding apply_human_override has_key override_rejections contains
rejected_run = refl

apply_human_override_audit_example :
    let call = apply_human_override fixed unconfirmed "now" "1" db in
    let reasons = override_rejections fixed unconfirmed in
    let row = override_event fixed unconfirmed "now" "override-1" reasons in
    ((is_applied fixed call.1 ≡ true)
      ↔ ((is_fresh fixed "1" db ≡ true) × IsAllowed fixed unconfirmed))
    × (call.0.human_override_journal ≡ (
        if is_fresh fixed "1" db
        then db.human_override_journal ++ (row ∷ [])
        else db.human_override_journal))
    × (is_applied fixed call.1 ≡ false → Unchanged fixed db call.0)
    × IsChain fixed call.0.execution_events
    × ((unconfirmed.action == "kill_switch") ≡ false
        → call.0.execution_events ≡ db.execution_events)
    × (is_fresh fixed "1" db ≡ true
        → (row.action ≡ unconfirmed.action)
          × (row.operator_id ≡ unconfirmed.operator_id)
          × (row.status ≡ (if is_applied fixed call.1 then "applied" else "rejected")))
apply_human_override_audit_example =
    apply_human_override_audit fixed unconfirmed "now" "1" db IsChain.empty
