-- ===== src/Python/Clock.antt =====
-- Times as the guards read them: `_parse_utc` of src/engine/execution/cancel_replace_manager.py
-- and src/engine/execution/funding_guard.py, in microseconds since the epoch.
use proofalpha.Prelude.{String, none, some}
use proofalpha.Prelude.Int.{ℤ, ◌-ℤ◌}
use proofalpha.Python.Runtime.{Runtime, Datetime}
use proofalpha.Python.Convert.{Result, ok, err, value_error}

-- `astimezone(timezone.utc)` of a time that carries its offset, or counts as UTC
unfoldable pub utc_micros : Datetime → ℤ
utc_micros d = elim d.offset [ none ↦ d.clock | some o ↦ d.clock -ℤ o ]

-- `_parse_utc`: a time with no offset is taken as UTC.
unfoldable pub parse_utc : (R : Runtime) → String → Result ℤ
parse_utc R value = elim (R.from_iso value) [
  | none ↦ err (value_error value)
  | some d ↦ ok (utc_micros d)
]
