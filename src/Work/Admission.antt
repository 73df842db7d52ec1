-- ===== src/Work/Admission.antt =====
-- New operations: `CreateBackgroundOperation` of internal/database/durable_work.go,
-- durable_work_admission.go and durable_work_producer_claim.go.
use gooru.Prelude.{
  ℕ, String, ◌==◌, Bool, true, false, not, ◌&&◌, ◌||◌, Option, none, [], ◌∷◌, ◌++◌, ltb, eqb,
  if◌then◌else◌, count_where, exists_where, update_where,
}
use gooru.Prelude.Int.{ℤ, pos, negsuc}
use gooru.Work.Schema.{
  pending, is_pending, text, Operation, Db, belongs, normalize_work_time, work_time_value,
}
use gooru.Work.Result.{
  Result, ok, err, ◌>>=◌, ◌>>◌, fail_if, operation_id_required, operation_kind_required,
  negative_progress_total, pending_limit_not_positive, constraint_violation,
}
use gooru.Work.Operations.{selects}

-- `NewBackgroundOperation`
pub record NewOperation : Type 0 where
  pub id : String
  pub kind : String
  pub visible : Bool
  pub progress_total : ℤ
  pub created_at : Option ℕ

abbrev pub is_negative : ℤ → Bool
is_negative (pos n) = false
is_negative (negsuc n) = true

abbrev pub magnitude : ℤ → ℕ
magnitude (pos n) = n
magnitude (negsuc n) = 0

abbrev pub pending_operation : ℕ → NewOperation → Operation
pending_operation clock op = record {
  id = op.id;
  kind = op.kind;
  visible = op.visible;
  status = pending;
  progress_total = magnitude op.progress_total;
  progress_completed = 0;
  progress_failed = 0;
  created_at = work_time_value (normalize_work_time clock op.created_at);
  started_at = none;
  finished_at = none;
  error_code = "";
  error_message = text "";
  result_json = "";
  checkpoint_json = "";
  attached_task_count = 0;
  producer_claimed = false;
}

-- INSERT INTO background_operations: the primary key must be new.
unfoldable pub insert_operation : Operation → Db → Result Db
insert_operation o db =
    if exists_where (λ r. r.id == o.id) db.operations
    then err constraint_violation
    else ok (record db { operations = db.operations ++ o ∷ [] })

-- `CreateBackgroundOperation`
unfoldable pub create_background_operation : ℕ → NewOperation → Db → Result Db
create_background_operation clock op db = do
  fail_if (op.id == "") operation_id_required
  fail_if (op.kind == "") operation_kind_required
  fail_if (is_negative op.progress_total) negative_progress_total
  insert_operation (pending_operation clock op) db

abbrev pub pending_of_kind : String → Operation → Bool
pending_of_kind kind o = o.kind == kind && is_pending o.status

-- INSERT ... SELECT ... WHERE (SELECT COUNT(*) ...) < max_pending
unfoldable pub admit_operation : ℕ → Operation → Db → Result (Bool × Db)
admit_operation max_pending o db =
    if ltb (count_where (pending_of_kind o.kind) db.operations) max_pending
    then (insert_operation o db >>= λ db'. ok (true, db'))
    else ok (false, db)

-- `createBackgroundOperationWithPendingLimit`; the Boolean is `created`
unfoldable pub create_background_operation_with_pending_limit :
    ℕ → NewOperation → ℤ → Db → Result (Bool × Db)
create_background_operation_with_pending_limit clock op max_pending db = do
  fail_if (op.id == "") operation_id_required
  fail_if (op.kind == "") operation_kind_required
  fail_if (is_negative op.progress_total) negative_progress_total
  fail_if (is_negative max_pending || eqb (magnitude max_pending) 0) pending_limit_not_positive
  admit_operation (magnitude max_pending)
      (record (pending_operation clock op) { created_at = work_time_value clock }) db

-- the WHERE clause of `ClaimBackgroundOperationProducer` behind the id
unfoldable pub is_unclaimed : Db → Operation → Bool
is_unclaimed db o =
    is_pending o.status
    && (not o.producer_claimed && not (exists_where (λ t. belongs o.id t.operation_id) db.tasks))

-- `ClaimBackgroundOperationProducer`
unfoldable pub claim_background_operation_producer : String → Db → Result (Bool × Db)
claim_background_operation_producer id db = do
  fail_if (id == "") operation_id_required
  ok (
    exists_where (selects id (is_unclaimed db)) db.operations,
    record db {
      operations =
          update_where (selects id (is_unclaimed db)) (λ o. record o { producer_claimed = true })
            db.operations;
    },
  )
