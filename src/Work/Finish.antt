-- ===== src/Work/Finish.antt =====
-- Finishing a claimed task: `CompleteBackgroundTaskTx`, `CompleteBackgroundTaskAttemptTx`,
-- `FailBackgroundTask` and the terminal cleanup of internal/database/durable_work_lifecycle.go.
use Prim.Native.String.{◌++◌ as concat}
use gooru.Prelude.{
  ℕ, String, ◌==◌, Bool, ◌&&◌, ◌||◌, Option, none, some, ltb, eqb, if◌then◌else◌, count_where,
  find_where, update_where, Updated, update_one,
}
use gooru.Work.Schema.{
  pending, completed, failed, is_running, is_pending, is_failed, Outcome, outcome_running, Cleanup,
  Task, Attempt, Db, normalize_work_time, work_time_value,
}
use gooru.Work.Result.{
  Result, ok, err, ◌>>=◌, ◌>>◌, fail_if, required, task_and_worker_required,
  task_and_attempt_required, lease_lost, attempt_rows_mismatch, no_rows, dedupe_key_already_active,
}
use gooru.Work.Operations.{record_background_operation_task_terminal}
use gooru.Work.Tasks.{NewTask, enqueue_background_task, alone}
use gooru.Work.Claim.{is_attempt, is_live, holds_lease}

-- What closes an attempt.
pub record Closing : Type 0 where
  pub at : ℕ
  pub outcome : Outcome
  pub error_code : String
  pub error_message : String

abbrev pub close_attempt : Closing → Attempt → Attempt
close_attempt c a = record a {
  finished_at = some c.at;
  outcome = c.outcome;
  error_code = c.error_code;
  error_message = c.error_message;
}

abbrev pub open_attempt : String → ℕ → Attempt → Bool
open_attempt id n a = is_attempt id n a && outcome_running a.outcome

-- An UPDATE of the attempts, and `requireOneBackgroundAttempt` on its row count.
unfoldable pub close_one_attempt : (Attempt → Bool) → Closing → Db → Result Db
close_one_attempt p c db =
    if eqb (count_where p db.attempts) 1
    then ok (record db { attempts = update_where p (close_attempt c) db.attempts })
    else err attempt_rows_mismatch

abbrev pub complete_task : ℕ → Task → Task
complete_task at t = record t {
  status = completed;
  finished_at = some at;
  lease_owner = "";
  lease_expires_at = none;
  last_error_code = "";
  last_error_message = "";
}

abbrev pub completion : ℕ → Closing
completion at = record { at = at; outcome = Outcome.completed; error_code = ""; error_message = "" }

-- the two completions behind their UPDATE, with the WHERE clause of the attempt
abbrev pub finish_completion : (Task → Attempt → Bool) → ℕ → Db → Option (Updated Task) → Result Db
finish_completion attempt now db none = err lease_lost
finish_completion attempt now db (some u) = do
  db1 ←
      close_one_attempt (attempt u.row) (completion (work_time_value now))
        (record db { tasks = u.rows })
  record_background_operation_task_terminal u.row.operation_id now 1 0 db1

abbrev pub worker_attempt : String → String → Task → Attempt → Bool
worker_attempt id worker t a = open_attempt id t.attempt_count a && a.worker_id == worker

-- `CompleteBackgroundTask` and `CompleteBackgroundTaskTx`
unfoldable pub complete_background_task : ℕ → String → String → Option ℕ → Db → Result Db
complete_background_task clock id worker finished_at db = do
  fail_if (id == "" || worker == "") task_and_worker_required
  let now = normalize_work_time clock finished_at
  finish_completion (worker_attempt id worker) now db
      (update_one (holds_lease id worker now) (complete_task (work_time_value now)) db.tasks)

-- id = ? AND status = 'running' AND attempt_count = ? AND the lease is live
unfoldable pub holds_attempt : String → ℕ → ℕ → Task → Bool
holds_attempt id n now t =
    t.id == id && (is_running t.status && (eqb t.attempt_count n && is_live now t.lease_expires_at))

-- `CompleteBackgroundTaskAttemptTx`
unfoldable pub complete_background_task_attempt : ℕ → String → ℕ → Option ℕ → Db → Result Db
complete_background_task_attempt clock id n finished_at db = do
  fail_if (id == "" || eqb n 0) task_and_attempt_required
  let now = normalize_work_time clock finished_at
  finish_completion (λ t. open_attempt id n) now db
      (update_one (holds_attempt id n now) (complete_task (work_time_value now)) db.tasks)

-- the SET clause shared by a failure and a lost lease: back to pending while attempts are left
abbrev pub fail_task : ℕ → ℕ → String → String → Task → Task
fail_task retry_at finished_at code message t =
    let again = ltb t.attempt_count t.max_attempts in
    record t {
      status = if again then pending else failed;
      available_at = if again then retry_at else t.available_at;
      finished_at = if again then none else some finished_at;
      lease_owner = "";
      lease_expires_at = none;
      last_error_code = code;
      last_error_message = message;
    }

-- the task that `enqueueBackgroundTaskTerminalCleanup` enqueues
abbrev pub cleanup_task : String → ℕ → Cleanup → NewTask
cleanup_task id available_at c = record {
  id = concat id ":terminal-cleanup";
  operation_id = "";
  dedupe_key = c.dedupe_key;
  kind = c.kind;
  subject_kind = c.subject_kind;
  subject_id = c.subject_id;
  input_key = c.input_key;
  resource_class = c.resource_class;
  priority = c.priority;
  available_at = some available_at;
  created_at = some available_at;
  max_attempts = c.max_attempts;
  terminal_failure_cleanup = none;
}

-- An enqueue inside a transaction that must create its task.
unfoldable pub enqueue_new : ℕ → NewTask → Db → Result Db
enqueue_new clock task db = do
  e ← enqueue_background_task clock alone task db
  if e.created then ok e.db else err dedupe_key_already_active

abbrev pub enqueue_cleanup : ℕ → String → ℕ → Db → Option Cleanup → Result Db
enqueue_cleanup clock id available_at db none = ok db
enqueue_cleanup clock id available_at db (some c) =
    enqueue_new clock (cleanup_task id available_at c) db

-- `enqueueBackgroundTaskTerminalCleanup`
unfoldable pub enqueue_background_task_terminal_cleanup : ℕ → String → ℕ → Db → Result Db
enqueue_background_task_terminal_cleanup clock id available_at db =
    required no_rows (find_where (λ t. t.id == id) db.tasks) >>= λ t.
    enqueue_cleanup clock id available_at db t.terminal_cleanup

-- What follows when a task has failed for good.
unfoldable pub after_failure : ℕ → ℕ → Task → Db → Result Db
after_failure clock now t db = do
  db1 ← record_background_operation_task_terminal t.operation_id now 0 1 db
  enqueue_background_task_terminal_cleanup clock t.id now db1

-- The branch of a failed attempt: a task that is pending again needs nothing more.
unfoldable pub after_attempt : ℕ → ℕ → Task → Db → Result Db
after_attempt clock now t db = if is_failed t.status then after_failure clock now t db else ok db

unfoldable pub finish_failure :
    ℕ → String → ℕ → String → String → Db → Option (Updated Task) → Result (Bool × Db)
finish_failure clock worker now code message db none = err lease_lost
finish_failure clock worker now code message db (some u) = do
  db1 ←
      close_one_attempt (worker_attempt u.row.id worker u.row)
        (record {
          at = work_time_value now;
          outcome = Outcome.failed;
          error_code = code;
          error_message = message;
        })
        (record db { tasks = u.rows })
  db2 ← after_attempt clock now u.row db1
  ok (is_pending u.row.status && ltb u.row.attempt_count u.row.max_attempts, db2)

-- `FailBackgroundTask`; the Boolean says that the task will be tried again
unfoldable pub fail_background_task :
    ℕ → String → String → Option ℕ → Option ℕ → String → String → Db → Result (Bool × Db)
fail_background_task clock id worker finished_at retry_at code message db = do
  fail_if (id == "" || worker == "") task_and_worker_required
  let now = normalize_work_time clock finished_at
  let retry = work_time_value (normalize_work_time now retry_at)
  finish_failure clock worker now code message db (
      update_one (holds_lease id worker now) (fail_task retry (work_time_value now) code message)
        db.tasks)
