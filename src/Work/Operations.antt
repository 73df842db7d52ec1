-- ===== src/Work/Operations.antt =====
-- The life of a logical operation: internal/database/durable_work_operation_lifecycle.go and the
-- trigger of migration 040.
use gooru.Prelude.{
  ℕ, ◌+◌, String, ◌==◌, Bool, true, not, ◌&&◌, ◌||◌, Option, none, some, List, ltb, leb, eqb,
  if◌then◌else◌, count_where, exists_where, find_where, update_where,
}
use gooru.Work.Schema.{
  Status, running, completed, failed, canceled, is_completed, is_failed, is_canceled, is_active,
  is_terminal, Message, text, tasks_failed, Operation, Task, Association, Db, belongs,
  work_time_value, coalesce,
}
use gooru.Work.Result.{Result, ok, ◌>>=◌, required, no_rows}

-- the children of an operation that a status test selects
abbrev pub child : String → (Status → Bool) → Task → Bool
child id test t = belongs id t.operation_id && test t.status

unfoldable pub children : String → (Status → Bool) → List Task → ℕ
children id test tasks = count_where (child id test) tasks

unfoldable pub has_child : String → (Status → Bool) → List Task → Bool
has_child id test tasks = exists_where (child id test) tasks

-- association.producer_operation_id = producer AND association.auxiliary_operation_id = auxiliary
abbrev pub associates : String → String → Association → Bool
associates producer auxiliary a =
    a.producer_operation_id == producer && a.auxiliary_operation_id == auxiliary

-- the WHERE clause of the trigger of migration 040
unfoldable pub is_drained_auxiliary : Db → String → Operation → Bool
is_drained_auxiliary db producer o =
    exists_where (associates producer o.id) db.associations
    && (is_active o.status
        && (not (has_child o.id is_active db.tasks)
            && (eqb o.progress_total 0
                || leb o.progress_total (children o.id is_terminal db.tasks))))

abbrev pub child_task_failed : ℕ → String
child_task_failed n = if ltb 0 n then "child_task_failed" else ""

abbrev pub child_failure_message : ℕ → Message
child_failure_message n = if ltb 0 n then tasks_failed n else text ""

-- the SET clause of the trigger of migration 040
unfoldable pub release_auxiliary : Db → Option ℕ → Operation → Operation
release_auxiliary db at o = record o {
  status =
      if ltb 0 o.progress_failed
      then failed
      else if has_child o.id is_canceled db.tasks
      then canceled
      else completed;
  started_at = elim o.started_at [ none ↦ at | some t ↦ some t ];
  finished_at = at;
  error_code = child_task_failed o.progress_failed;
  error_message = child_failure_message o.progress_failed;
}

-- The trigger of migration 040, after an UPDATE that took a row from `old` to `new`.
unfoldable pub after_status_update : Operation → Operation → Db → Db
after_status_update old new db =
    if is_active old.status && is_terminal new.status
    then record db {
      operations =
          update_where (is_drained_auxiliary db new.id) (release_auxiliary db new.finished_at)
            db.operations;
    }
    else db

-- WHERE id = ? AND guard
abbrev pub selects : String → (Operation → Bool) → Operation → Bool
selects id guard o = o.id == id && guard o

-- UPDATE background_operations SET status = ..., ... WHERE id = ? AND guard; `none` when the
-- statement affects no row.
unfoldable pub update_operation :
    String → (Operation → Bool) → (Operation → Operation) → Db → Option Db
update_operation id guard f db = elim (find_where (selects id guard) db.operations) [
  | none ↦ none
  | some old ↦ some (
      after_status_update old (f old)
        (record db { operations = update_where (selects id guard) f db.operations }))
]

abbrev pub any_operation : Operation → Bool
any_operation o = true

-- `markBackgroundOperationStarted`: the SET clause
unfoldable pub start_operation : ℕ → Operation → Operation
start_operation now o = record o {
  status = running;
  started_at = coalesce o.started_at (work_time_value now);
  finished_at = none;
  error_code = "";
  error_message = text "";
  result_json = if is_completed o.status || is_failed o.status then "" else o.result_json;
}

-- `markBackgroundOperationStarted`; a detached task has no operation to start
unfoldable pub mark_background_operation_started : Option String → ℕ → Db → Result Db
mark_background_operation_started none now db = ok db
mark_background_operation_started (some id) now db =
    if id == ""
    then ok db
    else required no_rows (update_operation id any_operation (start_operation now) db)

-- the counter delta of `recordBackgroundOperationTaskTerminal`
unfoldable pub advance_progress : ℕ → ℕ → Operation → Operation
advance_progress c f o = record o {
  progress_completed = o.progress_completed + c;
  progress_failed = o.progress_failed + f;
}

-- a JOIN of one association with an active producer of `auxiliary`
unfoldable pub active_producer : Db → String → Association → Bool
active_producer db auxiliary a =
    a.auxiliary_operation_id == auxiliary
    && exists_where (λ o. o.id == a.producer_operation_id && is_active o.status) db.operations

-- the terminal status that the counters give
abbrev pub final_status : ℕ → ℕ → Status
final_status failures cancellations =
    if ltb 0 failures then failed else if ltb 0 cancellations then canceled else completed

unfoldable pub finish_operation : ℕ → Status → ℕ → Operation → Operation
finish_operation now status failures o = record o {
  status = status;
  started_at = coalesce o.started_at (work_time_value now);
  finished_at = some (work_time_value now);
  error_code = child_task_failed failures;
  error_message = child_failure_message failures;
}

-- The three early returns of `recordBackgroundOperationTaskTerminal`: a child is active, declared
-- work is not attached yet, or a producer can still commit more.
unfoldable pub stays_active : Operation → Db → Bool
stays_active o db =
    has_child o.id is_active db.tasks
    || ((ltb 0 o.progress_total
          && ltb (o.progress_completed + o.progress_failed + children o.id is_canceled db.tasks)
              o.progress_total)
        || exists_where (active_producer db o.id) db.associations)

-- The part of `recordBackgroundOperationTaskTerminal` behind the counter update: `o` is the row
-- that it returned.
unfoldable pub settle_operation : Operation → ℕ → Db → Result Db
settle_operation o now db =
    let status = final_status o.progress_failed (children o.id is_canceled db.tasks) in
    if stays_active o db
    then ok db
    else required no_rows
        (update_operation o.id any_operation (finish_operation now status o.progress_failed) db)

-- `recordBackgroundOperationTaskTerminal`
unfoldable pub record_background_operation_task_terminal :
    Option String → ℕ → ℕ → ℕ → Db → Result Db
record_background_operation_task_terminal none now c f db = ok db
record_background_operation_task_terminal (some id) now c f db =
    if id == ""
    then ok db
    else (required no_rows (find_where (selects id any_operation) db.operations) >>= λ o.
        settle_operation (advance_progress c f o) now (record db {
          operations = update_where (selects id any_operation) (advance_progress c f) db.operations;
        }))
