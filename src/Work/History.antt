-- ===== src/Work/History.antt =====
-- Clearing terminal history: internal/database/durable_work_clear.go, with the ON DELETE clauses
-- of migrations 023 and 040.
use gooru.Prelude.{
  ℕ, String, ◌==◌, Bool, true, false, not, ◌&&◌, ◌||◌, Option, none, some, if◌then◌else◌,
  count_where, exists_where, update_where, delete_where,
}
use gooru.Work.Schema.{is_active, is_terminal, Operation, Task, Db, belongs}
use gooru.Work.Operations.{has_child}

abbrev pub is_detached : Option String → Bool
is_detached none = true
is_detached (some id) = false

-- operation_id IS NULL AND subject_kind = 'operation' AND subject_id = ?
abbrev pub follows_up : String → Task → Bool
follows_up id t =
    is_detached t.operation_id && (t.subject_kind == "operation" && t.subject_id == id)

-- the condition that the three DELETE statements share
unfoldable pub is_clearable : Db → Operation → Bool
is_clearable db o =
    o.visible
    && (is_terminal o.status
        && (not (has_child o.id is_active db.tasks)
            && not (exists_where (λ t. follows_up o.id t && is_active t.status) db.tasks)))

-- operation_id IN (the clearable operations)
abbrev pub attached_to_clearable : Db → Task → Bool
attached_to_clearable db t =
    exists_where (λ o. is_clearable db o && belongs o.id t.operation_id) db.operations

abbrev pub follows_up_clearable : Db → Task → Bool
follows_up_clearable db t =
    is_terminal t.status && exists_where (λ o. is_clearable db o && follows_up o.id t) db.operations

-- DELETE FROM background_tasks, which takes the attempts of the deleted tasks with it
unfoldable pub delete_tasks : (Task → Bool) → Db → Db
delete_tasks p db = record db {
  tasks = delete_where p db.tasks;
  attempts = delete_where (λ a. exists_where (λ t. t.id == a.task_id && p t) db.tasks) db.attempts;
}

abbrev pub detach : (String → Bool) → Task → Task
detach gone t = record t {
  operation_id = elim t.operation_id [ none ↦ none | some id ↦ if gone id then none else some id ];
}

abbrev pub is_cleared : Db → String → Bool
is_cleared db id = exists_where (λ o. o.id == id && is_clearable db o) db.operations

-- DELETE FROM background_operations: tasks lose the reference, associations go too.
unfoldable pub delete_operations : Db → Db
delete_operations db = record db {
  operations = delete_where (is_clearable db) db.operations;
  tasks = update_where (λ t. true) (detach (is_cleared db)) db.tasks;
  associations =
      delete_where
        (λ a. is_cleared db a.producer_operation_id || is_cleared db a.auxiliary_operation_id)
        db.associations;
}

-- `ClearTerminalBackgroundOperations`, which returns how many operations it deleted
unfoldable pub clear_terminal_background_operations : Db → ℕ × Db
clear_terminal_background_operations db =
    let db1 = delete_tasks (attached_to_clearable db) db in
    let db2 = delete_tasks (follows_up_clearable db1) db1 in
    (count_where (is_clearable db2) db2.operations, delete_operations db2)
