-- ===== src/Work/Recover.antt =====
-- Recovering expired leases: `RecoverExpiredBackgroundTaskLeases` of
-- internal/database/durable_work_lifecycle.go; and `CancelBackgroundTask` of
-- durable_work_cancellation.go.
use gooru.Prelude.{
  ℕ, String, ◌==◌, Bool, true, false, ◌&&◌, Option, none, some, List, [], ◌∷◌, ltb, leb,
  if◌then◌else◌, count_where, update_where, Updated, update_one,
}
use gooru.Work.Schema.{
  canceled, is_running, is_active, Outcome, Task, Db, normalize_work_time, work_time_value,
}
use gooru.Work.Result.{Result, ok, ◌>>=◌, ◌>>◌, fail_if, task_id_required}
use gooru.Work.Operations.{record_background_operation_task_terminal}
use gooru.Work.Finish.{
  Closing, close_attempt, open_attempt, close_one_attempt, fail_task, after_attempt,
}

-- status = 'running' AND lease_expires_at IS NOT NULL AND lease_expires_at <= now
abbrev pub has_lapsed : ℕ → Option ℕ → Bool
has_lapsed now none = false
has_lapsed now (some e) = leb e (work_time_value now)

unfoldable pub is_expired : ℕ → Task → Bool
is_expired now t = is_running t.status && has_lapsed now t.lease_expires_at

unfoldable pub expire_task : ℕ → Task → Task
expire_task now =
    fail_task (work_time_value now) (work_time_value now) "lease_expired"
      "worker lease expired before task completion"

-- the rows of RETURNING, after the update
unfoldable pub expired_rows : ℕ → List Task → List Task
expired_rows now [] = []
expired_rows now (t ∷ ts) =
    let rest = expired_rows now ts in if is_expired now t then expire_task now t ∷ rest else rest

abbrev pub abandonment : ℕ → Closing
abandonment now = record {
  at = work_time_value now;
  outcome = Outcome.abandoned;
  error_code = "lease_expired";
  error_message = "worker lease expired before task completion";
}

-- `abandonExpiredBackgroundTaskAttempts`, one task at a time: its batches update the same rows,
-- and their row counts add up to the counts that are checked here.
unfoldable pub abandon_attempts : ℕ → List Task → Db → Result Db
abandon_attempts now [] db = ok db
abandon_attempts now (t ∷ ts) db = do
  db1 ← close_one_attempt (open_attempt t.id t.attempt_count) (abandonment now) db
  abandon_attempts now ts db1

-- the loop over the tasks that failed for good
unfoldable pub settle_expired : ℕ → ℕ → List Task → Db → Result Db
settle_expired clock now [] db = ok db
settle_expired clock now (t ∷ ts) db = do
  db1 ← after_attempt clock now t db
  settle_expired clock now ts db1

-- `RecoverExpiredBackgroundTaskLeases`, which returns how many leases it recovered
unfoldable pub recover_expired_background_task_leases : ℕ → Option ℕ → Db → Result (ℕ × Db)
recover_expired_background_task_leases clock at db = do
  let now = normalize_work_time clock at
  let expired = expired_rows now db.tasks
  db1 ←
      abandon_attempts now expired
        (record db { tasks = update_where (is_expired now) (expire_task now) db.tasks })
  db2 ← settle_expired clock now expired db1
  ok (count_where (is_expired now) db.tasks, db2)

abbrev pub cancel_task : ℕ → String → String → Task → Task
cancel_task at code message t = record t {
  status = canceled;
  finished_at = some at;
  lease_owner = "";
  lease_expires_at = none;
  last_error_code = code;
  last_error_message = message;
}

abbrev pub cancellation : ℕ → String → String → Closing
cancellation at code message = record {
  at = at;
  outcome = Outcome.canceled;
  error_code = code;
  error_message = message;
}

unfoldable pub finish_cancellation : ℕ → Db → Option (Updated Task) → Result (Bool × Db)
finish_cancellation now db none = ok (false, db)
finish_cancellation now db (some u) = do
  let close =
      update_where (open_attempt u.row.id u.row.attempt_count)
        (close_attempt (cancellation (work_time_value now) "" ""))
  let attempts = if ltb 0 u.row.attempt_count then close db.attempts else db.attempts
  db1 ←
      record_background_operation_task_terminal u.row.operation_id now 0 0
        (record db { tasks = u.rows; attempts = attempts })
  ok (true, db1)

-- `CancelBackgroundTask`
unfoldable pub cancel_background_task : ℕ → String → Option ℕ → Db → Result (Bool × Db)
cancel_background_task clock id at db = do
  fail_if (id == "") task_id_required
  let now = normalize_work_time clock at
  finish_cancellation now db (
      update_one (λ t. t.id == id && is_active t.status) (cancel_task (work_time_value now) "" "")
        db.tasks)
