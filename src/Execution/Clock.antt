-- ===== src/Execution/Clock.antt =====
-- Timestamps as workflow/execution_service.py and datetime_utils.py take them.
use snoc_automation_agent.Prelude.{ℕ}
use snoc_automation_agent.Domain.Errors.{Result, ok, raise, value_error}

-- A naive value is read as UTC where it comes from the database; an aware one is its instant.
pub data Timestamp : Type 0 where
  naive : ℕ → Timestamp
  aware : ℕ → Timestamp

unfoldable pub ensure_utc : Timestamp → ℕ
ensure_utc (Timestamp.naive t) = t
ensure_utc (Timestamp.aware t) = t

unfoldable pub aware_utc : Timestamp → Result ℕ
unfolding ensure_utc
aware_utc (Timestamp.naive t) = raise value_error
aware_utc (Timestamp.aware t) = ok (ensure_utc (Timestamp.aware t))
