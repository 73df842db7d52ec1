-- ===== src/Work/Reconcile.antt =====
-- Startup reconciliation: internal/database/durable_work_recovery.go. `trim` is strings.TrimSpace.
use gooru.Prelude.{
  ℕ, String, ◌==◌, Bool, not, ◌&&◌, Option, none, some, List, [], ◌∷◌, if◌then◌else◌, count_where,
  exists_where,
}
use gooru.Work.Schema.{canceled, is_pending, text, Operation, Task, Db, belongs, work_time_value}
use gooru.Work.Result.{Result, ok, ◌>>◌, fail_if, kind_required}
use gooru.Work.Operations.{any_operation, update_operation}

-- NOT EXISTS (SELECT 1 FROM background_tasks WHERE operation_id = background_operations.id)
unfoldable pub is_childless : List Task → Operation → Bool
is_childless tasks o = not (exists_where (λ t. belongs o.id t.operation_id) tasks)

abbrev pub is_unattached : String → Db → Operation → Bool
is_unattached kind db o = o.kind == kind && (is_pending o.status && is_childless db.tasks o)

-- the further condition visible = 0
abbrev pub is_unattached_hidden : String → Db → Operation → Bool
is_unattached_hidden kind db o = not o.visible && is_unattached kind db o

-- the SET clause
unfoldable pub interrupt : ℕ → Operation → Operation
interrupt at o = record o {
  status = canceled;
  finished_at = some at;
  error_code = "producer_interrupted";
  error_message = text "producer interrupted before durable work was attached";
}

-- the rows that the WHERE clause selects, before any of them is written
unfoldable pub selected_ids : (Operation → Bool) → List Operation → List String
selected_ids p [] = []
selected_ids p (o ∷ os) = let rest = selected_ids p os in if p o then o.id ∷ rest else rest

abbrev pub or_same : Db → Option Db → Db
or_same db none = db
or_same db (some next) = next

-- One row after another, each with the trigger of migration 040 behind it. The trigger may end a
-- selected row that is an auxiliary of an earlier one; it is written all the same.
unfoldable pub interrupt_ids : ℕ → List String → Db → Db
interrupt_ids at [] db = db
interrupt_ids at (id ∷ ids) db =
    interrupt_ids at ids (or_same db (update_operation id any_operation (interrupt at) db))

-- `CancelUnattachedHiddenBackgroundOperations`, which returns how many it canceled
unfoldable pub cancel_unattached_hidden_background_operations :
    (String → String) → ℕ → String → Db → Result (ℕ × Db)
cancel_unattached_hidden_background_operations trim clock kind db = do
  fail_if (trim kind == "") kind_required
  let test = is_unattached_hidden (trim kind) db
  ok (
    count_where test db.operations,
    interrupt_ids (work_time_value clock) (selected_ids test db.operations) db,
  )

-- `CancelUnattachedBackgroundOperationIDs`
unfoldable pub cancel_unattached_background_operation_ids :
    (String → String) → ℕ → String → Db → Result (List String × Db)
cancel_unattached_background_operation_ids trim clock kind db = do
  fail_if (trim kind == "") kind_required
  let ids = selected_ids (is_unattached (trim kind) db) db.operations
  ok (ids, interrupt_ids (work_time_value clock) ids db)
