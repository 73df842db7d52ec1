-- ===== src/Work/Stops.antt =====
-- Stopping a whole operation, and attaching its first task:
-- internal/database/durable_work_cancellation.go, durable_work_operation_failure.go,
-- durable_work_attachment.go, durable_work_checkpoint.go, durable_work_clear.go and
-- durable_work_association.go.
use Prim.Native.Nat.{max}
use gooru.Prelude.{
  ℕ, String, ◌==◌, Bool, true, false, not, ◌&&◌, Option, none, some, List, [], ◌∷◌, ltb,
  if◌then◌else◌, exists_where, update_where,
}
use gooru.Work.Schema.{
  Status, failed, canceled, is_running, is_failed, is_completed, is_active, outcome_running,
  Message, text, Operation, Task, Attempt, Db, belongs, normalize_work_time, work_time_value,
  work_time, coalesce,
}
use gooru.Work.Result.{
  Result, ok, ◌>>=◌, ◌>>◌, fail_if, operation_id_required, missing_lease_expiry,
  cleanup_must_be_detached,
}
use gooru.Work.Operations.{selects, any_operation, child, children, update_operation}
use gooru.Work.Tasks.{NewTask}
use gooru.Work.Finish.{close_attempt, enqueue_new}
use gooru.Work.Recover.{cancel_task, cancellation}

-- MAX(lease_expires_at) over the running children; `none` where all are NULL
abbrev pub later_lease : Option ℕ → Option ℕ → Option ℕ
later_lease none b = b
later_lease (some a) none = some a
later_lease (some a) (some b) = some (max a b)

unfoldable pub latest_running_lease : String → List Task → Option ℕ
latest_running_lease id [] = none
latest_running_lease id (t ∷ ts) =
    let rest = latest_running_lease id ts in
    if child id is_running t then later_lease t.lease_expires_at rest else rest

-- status IN ('pending', 'running') AND COALESCE(result_json, '') = ''
abbrev pub can_stop : Operation → Bool
can_stop o = is_active o.status && o.result_json == ""

unfoldable pub stop_operation : Status → ℕ → String → Message → Operation → Operation
stop_operation status at code message o = record o {
  status = status;
  started_at = coalesce o.started_at at;
  finished_at = some at;
  error_code = code;
  error_message = message;
}

-- outcome = 'running' AND task_id IN (the running children)
abbrev pub open_child_attempt : String → List Task → Attempt → Bool
open_child_attempt id tasks a =
    outcome_running a.outcome
    && exists_where (λ t. t.id == a.task_id && child id is_running t) tasks

-- The three statements that revoke the children of a stopped operation and refresh its counters.
unfoldable pub revoke_children : String → ℕ → String → String → Db → Db
revoke_children id at code message db = record db {
  operations =
      update_where (selects id any_operation)
        (λ o. record o {
          progress_completed = children id is_completed db.tasks;
          progress_failed = children id is_failed db.tasks;
        })
        db.operations;
  tasks = update_where (child id is_active) (cancel_task at code message) db.tasks;
  attempts =
      update_where (open_child_attempt id db.tasks) (close_attempt (cancellation at code message))
        db.attempts;
}

-- the first instant at which no revoked lease is live
abbrev pub safe_at : ℕ → Option ℕ → ℕ
safe_at at none = at
safe_at at (some e) = if ltb at (work_time e) then work_time e else at

-- the cleanup task, not available before the safe instant
unfoldable pub delay_cleanup : ℕ → ℕ → NewTask → NewTask
delay_cleanup at safe t = record t {
  created_at = some (normalize_work_time at t.created_at);
  available_at = elim t.available_at [
    | none ↦ some safe
    | some a ↦ if ltb a safe then some safe else some a
  ];
}

-- `BackgroundOperationCancellation` and `BackgroundOperationFailure`
pub record Stopped : Type 0 where
  pub stopped : Bool
  pub running_tasks : ℕ
  pub db : Db

abbrev pub enqueue_delayed : ℕ → ℕ → ℕ → Db → Option NewTask → Result Db
enqueue_delayed clock now safe db none = ok db
enqueue_delayed clock now safe db (some t) = enqueue_new clock (delay_cleanup now safe t) db

abbrev pub lease_missing : ℕ → Option ℕ → Bool
lease_missing n none = ltb 0 n
lease_missing n (some e) = false

-- the part of both stops behind the UPDATE that stopped the operation: `db` holds its result
unfoldable pub revoke_and_clean :
    ℕ → String → ℕ → String → String → Option NewTask → Db → Result Stopped
revoke_and_clean clock id now code message cleanup db = do
  let latest = latest_running_lease id db.tasks
  let n = children id is_running db.tasks
  fail_if (lease_missing n latest) missing_lease_expiry
  db1 ←
      enqueue_delayed clock now (safe_at now latest)
        (revoke_children id (work_time_value now) code message db) cleanup
  ok (record { stopped = true; running_tasks = n; db = db1 })

abbrev pub stop_with :
    ℕ → String → ℕ → String → String → Option NewTask → Db → Option Db → Result Stopped
stop_with clock id now code message cleanup db none =
    ok (record { stopped = false; running_tasks = 0; db = db })
stop_with clock id now code message cleanup db (some db1) =
    revoke_and_clean clock id now code message cleanup db1

-- `cancelBackgroundOperation`
unfoldable pub cancel_background_operation :
    ℕ → String → Option ℕ → Option NewTask → Db → Result Stopped
cancel_background_operation clock id at cleanup db = do
  fail_if (id == "") operation_id_required
  let now = normalize_work_time clock at
  stop_with clock id now "" "" cleanup db
      (update_operation id can_stop (stop_operation canceled (work_time_value now) "" (text "")) db)

-- `failBackgroundOperation`: the cleanup is enqueued only for an operation that has children
unfoldable pub fail_background_operation :
    ℕ → String → Option ℕ → String → String → Option NewTask → Db → Result Stopped
fail_background_operation clock id at code message cleanup db = do
  fail_if (id == "") operation_id_required
  let now = normalize_work_time clock at
  let attached = exists_where (λ t. belongs id t.operation_id) db.tasks
  stop_with clock id now code message (if attached then cleanup else none) db (
      update_operation id can_stop (stop_operation failed (work_time_value now) code (text message))
        db)

-- `CancelBackgroundOperationWithCleanupTask`
unfoldable pub cancel_background_operation_with_cleanup_task :
    ℕ → String → Option ℕ → NewTask → Db → Result Stopped
cancel_background_operation_with_cleanup_task clock id at cleanup db = do
  fail_if (not (cleanup.operation_id == "")) cleanup_must_be_detached
  cancel_background_operation clock id at (some cleanup) db

-- `FailBackgroundOperationWithCleanupTask`
unfoldable pub fail_background_operation_with_cleanup_task :
    ℕ → String → Option ℕ → String → String → NewTask → Db → Result Stopped
fail_background_operation_with_cleanup_task clock id at code message cleanup db = do
  fail_if (not (cleanup.operation_id == "")) cleanup_must_be_detached
  fail_background_operation clock id at code message (some cleanup) db
