-- ===== src/Work/Attach.antt =====
-- Recovery state, and the first child of an admitted operation:
-- internal/database/durable_work_checkpoint.go and durable_work_attachment.go. `valid` stands for
-- encoding/json's Valid on the bytes of a payload.
use Prim.Native.String.{len}
use gooru.Prelude.{
  ℕ, String, ◌==◌, Bool, true, not, ◌&&◌, ◌||◌, Option, none, some, ltb, eqb, if◌then◌else◌,
  exists_where, find_where, update_where,
}
use gooru.Work.Schema.{is_pending, is_active, Operation, Task, Db, belongs}
use gooru.Work.Result.{
  Result, ok, err, ◌>>=◌, ◌>>◌, fail_if, operation_id_required, task_id_required, invalid_json,
  too_large, not_active, operation_missing, not_unattached_reservation, no_rows,
  dedupe_key_already_active,
}
use gooru.Work.Operations.{selects, any_operation}
use gooru.Work.Tasks.{NewTask, Enqueued, enqueue_background_task, alone}

-- 1 << 20 bytes, for checkpoints and results alike
abbrev pub max_payload_bytes : ℕ
max_payload_bytes = 1048576

abbrev pub checked_payload : (String → Bool) → String → Result (Unit {0})
checked_payload valid json = do
  fail_if (eqb (len json) 0 || not (valid json)) invalid_json
  fail_if (ltb max_payload_bytes (len json)) too_large

abbrev pub active_operation : Operation → Bool
active_operation o = is_active o.status

-- `setBackgroundOperationCheckpoint`
unfoldable pub set_background_operation_checkpoint :
    (String → Bool) → String → String → Db → Result Db
set_background_operation_checkpoint valid id json db = do
  fail_if (id == "") operation_id_required
  checked_payload valid json
  fail_if (not (exists_where (selects id active_operation) db.operations)) not_active
  ok (record db {
    operations =
        update_where (selects id active_operation) (λ o. record o { checkpoint_json = json })
          db.operations;
  })

abbrev pub active_task : String → Task → Bool
active_task id t = t.id == id && is_active t.status

-- `setBackgroundTaskCheckpoint`
unfoldable pub set_background_task_checkpoint : (String → Bool) → String → String → Db → Result Db
set_background_task_checkpoint valid id json db = do
  fail_if (id == "") task_id_required
  checked_payload valid json
  fail_if (not (exists_where (active_task id) db.tasks)) not_active
  ok (record db {
    tasks = update_where (active_task id) (λ t. record t { checkpoint_json = json }) db.tasks;
  })

-- `setBackgroundTaskResult`
unfoldable pub set_background_task_result : (String → Bool) → String → String → Db → Result Db
set_background_task_result valid id json db = do
  fail_if (id == "") task_id_required
  checked_payload valid json
  fail_if (not (exists_where (active_task id) db.tasks)) not_active
  ok (record db {
    tasks = update_where (active_task id) (λ t. record t { result_json = json }) db.tasks;
  })

-- `setBackgroundOperationVisible`
unfoldable pub set_background_operation_visible : String → Bool → Db → Result Db
set_background_operation_visible id visible db = do
  fail_if (not (exists_where (selects id any_operation) db.operations)) no_rows
  ok (record db {
    operations =
        update_where (selects id any_operation) (λ o. record o { visible = visible }) db.operations;
  })

-- status = 'pending' and no task attached; the schema keeps `visible` a Boolean
abbrev pub is_reservation : Db → Operation → Bool
is_reservation db o =
    is_pending o.status && not (exists_where (λ t. belongs o.id t.operation_id) db.tasks)

abbrev pub check_reservation : Db → Option Operation → Result (Unit {0})
check_reservation db none = err operation_missing
check_reservation db (some o) = fail_if (not (is_reservation db o)) not_unattached_reservation

abbrev pub require_created : Enqueued → Result Db
require_created e = if e.created then ok e.db else err dedupe_key_already_active

-- `AttachBackgroundTaskAndRevealOperation`
unfoldable pub attach_background_task_and_reveal_operation :
    ℕ → (String → Bool) → String → String → NewTask → Db → Result Db
attach_background_task_and_reveal_operation clock valid id json task db = do
  fail_if (id == "") operation_id_required
  db1 ← set_background_operation_checkpoint valid id json db
  check_reservation db1 (find_where (selects id any_operation) db1.operations)
  e ← enqueue_background_task clock alone (record task { operation_id = id }) db1
  db2 ← require_created e
  set_background_operation_visible id true db2
