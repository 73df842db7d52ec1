-- ===== src/Work/Tasks.antt =====
-- Inserting durable tasks: `EnqueueBackgroundTask` and its helpers in
-- internal/database/durable_work.go, durable_work_pending.go, and the triggers of migrations 024
-- and 034.
use gooru.Prelude.{
  ℕ, zero, suc, ◌+◌, ◌*◌, String, ◌==◌, Bool, true, false, not, ◌&&◌, ◌||◌, Option, none, some,
  List, [], ◌∷◌, ◌++◌, ltb, if◌then◌else◌, exists_where, find_where, update_where, Updated,
  update_one,
}
use gooru.Prelude.Int.{ℤ, pos, negsuc}
use gooru.Work.Schema.{
  Status, pending, is_pending, is_completed, is_failed, is_canceled, is_active, Cleanup, Operation,
  Task, Db, normalize_work_time, work_time_value, text,
}
use gooru.Work.Result.{
  Result, ok, err, ◌>>=◌, ◌>>◌, fail_if, task_id_required, dedupe_key_required, task_kind_required,
  max_attempts_not_positive, cleanup_dedupe_key_required, cleanup_kind_required,
  cleanup_max_attempts_not_positive, operation_is_canceled, constraint_violation,
  dedupe_state_kept_changing,
}
use gooru.Work.Operations.{selects, any_operation}
use gooru.Work.Admission.{magnitude, is_negative}

-- `NewBackgroundTask`; a zero time is `none`
pub record NewTask : Type 0 where
  pub id : String
  pub operation_id : String
  pub dedupe_key : String
  pub kind : String
  pub subject_kind : String
  pub subject_id : String
  pub input_key : String
  pub resource_class : String
  pub priority : ℤ
  pub available_at : Option ℕ
  pub created_at : Option ℕ
  pub max_attempts : ℤ
  pub terminal_failure_cleanup : Option Cleanup

abbrev pub or_default : String → String
or_default c = if c == "" then "default" else c

-- 3 in place of 0
abbrev pub attempts_or_default : ℤ → ℤ
attempts_or_default (pos zero) = pos 3
attempts_or_default (pos (suc n)) = pos (suc n)
attempts_or_default (negsuc n) = negsuc n

-- `encodeBackgroundTaskCleanup`, without the JSON text
unfoldable pub encode_background_task_cleanup : Option Cleanup → Result (Option Cleanup)
encode_background_task_cleanup none = ok none
encode_background_task_cleanup (some c) = do
  fail_if (c.dedupe_key == "") cleanup_dedupe_key_required
  fail_if (c.kind == "") cleanup_kind_required
  fail_if (is_negative (attempts_or_default c.max_attempts)) cleanup_max_attempts_not_positive
  ok (
      some (record c {
        resource_class = or_default c.resource_class;
        max_attempts = attempts_or_default c.max_attempts;
      }))

-- the row that INSERT INTO background_tasks writes
abbrev pub pending_task : ℕ → NewTask → Option Cleanup → Task
pending_task clock task cleanup =
    let created = normalize_work_time clock task.created_at in
    record {
      id = task.id;
      operation_id = if task.operation_id == "" then none else some task.operation_id;
      dedupe_key = task.dedupe_key;
      kind = task.kind;
      subject_kind = task.subject_kind;
      subject_id = task.subject_id;
      input_key = task.input_key;
      resource_class = or_default task.resource_class;
      priority = task.priority;
      status = pending;
      available_at = work_time_value (normalize_work_time created task.available_at);
      lease_owner = "";
      lease_expires_at = none;
      created_at = work_time_value created;
      started_at = none;
      finished_at = none;
      attempt_count = 0;
      max_attempts = magnitude (attempts_or_default task.max_attempts);
      last_error_code = "";
      last_error_message = "";
      terminal_cleanup = cleanup;
      checkpoint_json = "";
      result_json = "";
    }

-- the trigger of migration 024
unfoldable pub parent_canceled : Option String → List Operation → Bool
parent_canceled none ops = false
parent_canceled (some id) ops = exists_where (λ o. o.id == id && is_canceled o.status) ops

-- the foreign key of operation_id
unfoldable pub parent_exists : Option String → List Operation → Bool
parent_exists none ops = true
parent_exists (some id) ops = exists_where (λ o. o.id == id) ops

abbrev pub reopens : Status → Bool
reopens s = is_completed s || is_failed s

-- the SET clause of the trigger of migration 034
unfoldable pub attach_child : Operation → Operation
attach_child o =
    let reopened = reopens o.status in
    record o {
      attached_task_count = o.attached_task_count + 1;
      progress_total =
          if ltb 0 o.progress_total && ltb o.progress_total (o.attached_task_count + 1)
          then o.attached_task_count + 1
          else o.progress_total;
      status = if reopened then pending else o.status;
      finished_at = if reopened then none else o.finished_at;
      error_code = if reopened then "" else o.error_code;
      error_message = if reopened then text "" else o.error_message;
      result_json = if reopened then "" else o.result_json;
    }

-- the trigger of migration 034
unfoldable pub after_task_insert : Option String → List Operation → List Operation
after_task_insert none ops = ops
after_task_insert (some id) ops = update_where (selects id any_operation) attach_child ops

abbrev pub has_key : String → Task → Bool
has_key key t = t.dedupe_key == key && is_active t.status

-- INSERT INTO background_tasks ... ON CONFLICT(dedupe_key) WHERE status IN ('pending', 'running')
-- DO NOTHING: the BEFORE trigger, the conflict target, the other keys, the AFTER trigger. The
-- Boolean says whether the row was inserted.
unfoldable pub insert_task : Task → Db → Result (Bool × Db)
insert_task t db =
    if parent_canceled t.operation_id db.operations
    then err operation_is_canceled
    else if exists_where (has_key t.dedupe_key) db.tasks
    then ok (false, db)
    else if exists_where (λ r. r.id == t.id) db.tasks
        || not (parent_exists t.operation_id db.operations)
    then err constraint_violation
    else ok (
      true,
      record db {
        operations = after_task_insert t.operation_id db.operations;
        tasks = db.tasks ++ t ∷ [];
      },
    )

-- The task that an enqueue returns, and whether it was created.
pub record Enqueued : Type 0 where
  pub task : Task
  pub created : Bool
  pub db : Db

-- the active task that the conflict was with, or another round if it has ended in between
abbrev pub existing_or : Option Task → Db → Result Enqueued → Result Enqueued
existing_or none db again = again
existing_or (some existing) db again = ok (record { task = existing; created = false; db = db })

-- The loop of `EnqueueBackgroundTask`, with `rounds` left. `others` is what other connections do
-- between two statements, the identity inside a transaction.
unfoldable pub enqueue_rounds : ℕ → (ℕ → Db → Db) → Task → Db → Result Enqueued
enqueue_rounds zero others t db = err dedupe_state_kept_changing
enqueue_rounds (suc n) others t db = do
  (inserted, db1) ← insert_task t db
  let db2 = others (2 * n + 1) db1
  let again = enqueue_rounds n others t (others (2 * n) db2)
  if inserted
      then ok (record { task = t; created = true; db = db1 })
      else existing_or (find_where (has_key t.dedupe_key) db2.tasks) db2 again

abbrev pub enqueue_race_retries : ℕ
enqueue_race_retries = 8

-- `EnqueueBackgroundTask`
unfoldable pub enqueue_background_task : ℕ → (ℕ → Db → Db) → NewTask → Db → Result Enqueued
enqueue_background_task clock others task db = do
  fail_if (task.id == "") task_id_required
  fail_if (task.dedupe_key == "") dedupe_key_required
  fail_if (task.kind == "") task_kind_required
  fail_if (is_negative (attempts_or_default task.max_attempts)) max_attempts_not_positive
  cleanup ← encode_background_task_cleanup task.terminal_failure_cleanup
  enqueue_rounds enqueue_race_retries others (pending_task clock task cleanup) db

-- inside a transaction no other connection writes
abbrev pub alone : ℕ → Db → Db
alone n db = db

abbrev pub postponed : Db → Option (Updated Task) → Result (Bool × Db)
postponed db none = ok (false, db)
postponed db (some u) = ok (true, record db { tasks = u.rows })

-- `PostponePendingBackgroundTask`; the caller gives a time that is not zero
unfoldable pub postpone_pending_background_task : String → ℕ → Db → Result (Bool × Db)
postpone_pending_background_task id available_at db = do
  fail_if (id == "") task_id_required
  let at = work_time_value available_at
  postponed db (
      update_one (λ t. t.id == id && (is_pending t.status && ltb t.available_at at))
        (λ t. record t { available_at = at }) db.tasks)
