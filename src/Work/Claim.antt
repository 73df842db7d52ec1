-- ===== src/Work/Claim.antt =====
-- Claiming a task, and holding its lease: `ClaimNextBackgroundTask` of
-- internal/database/durable_work_lifecycle.go, and internal/database/durable_work_lease.go.
use Prim.Native.Nat.{Ordering}
use Prim.Native.String.{compare}
use gooru.Prelude.{
  ℕ, ◌+◌, String, ◌==◌, Bool, true, false, ◌&&◌, ◌||◌, Option, none, some, List, [], ◌∷◌, ◌++◌, ltb,
  leb, eqb, if◌then◌else◌, exists_where, Updated, update_one, first_by,
}
use gooru.Prelude.Int.{ltb_ℤ}
use gooru.Work.Schema.{
  running, is_pending, is_running, Outcome, Task, Attempt, Db, normalize_work_time, work_time_value,
  work_time, coalesce,
}
use gooru.Work.Result.{
  Result, ok, err, ◌>>=◌, ◌>>◌, fail_if, resource_class_required, worker_id_required,
  task_and_worker_required, lease_duration_not_positive, lease_lost, constraint_violation,
}
use gooru.Work.Operations.{mark_background_operation_started}

-- the inner WHERE clause of the claim
unfoldable pub is_claimable : String → ℕ → Task → Bool
is_claimable resource_class now t =
    t.resource_class == resource_class
    && (is_pending t.status
        && (leb t.available_at (work_time_value now) && ltb t.attempt_count t.max_attempts))

abbrev pub id_before : String → String → Bool
id_before a b = elim (compare a b) [ Ordering.lt ↦ true | _ ↦ false ]

-- ORDER BY priority DESC, created_at, id
unfoldable pub claimed_before : Task → Task → Bool
claimed_before s t =
    if ltb_ℤ t.priority s.priority
    then true
    else if ltb_ℤ s.priority t.priority
    then false
    else if ltb s.created_at t.created_at
    then true
    else if ltb t.created_at s.created_at
    then false
    else id_before s.id t.id

-- the SET clause of the claim
unfoldable pub claim_task : String → ℕ → ℕ → Task → Task
claim_task worker now expires t = record t {
  status = running;
  lease_owner = worker;
  lease_expires_at = some (work_time_value expires);
  started_at = coalesce t.started_at (work_time_value now);
  attempt_count = t.attempt_count + 1;
}

-- the outer WHERE clause: the row that the inner query chose, if it is still pending
abbrev pub is_chosen : String → Task → Bool
is_chosen id t = t.id == id && is_pending t.status

abbrev pub claim_chosen : String → ℕ → ℕ → List Task → Option Task → Option (Updated Task)
claim_chosen worker now expires tasks none = none
claim_chosen worker now expires tasks (some best) =
    update_one (is_chosen best.id) (claim_task worker now expires) tasks

abbrev pub is_attempt : String → ℕ → Attempt → Bool
is_attempt id n a = a.task_id == id && eqb a.attempt_number n

-- INSERT INTO background_task_attempts, whose key is (task_id, attempt_number)
unfoldable pub insert_attempt : Task → String → ℕ → Db → Result Db
insert_attempt t worker now db =
    if exists_where (is_attempt t.id t.attempt_count) db.attempts
    then err constraint_violation
    else ok (record db {
      attempts =
          db.attempts
          ++ record {
            task_id = t.id;
            attempt_number = t.attempt_count;
            worker_id = worker;
            started_at = work_time_value now;
            finished_at = none;
            outcome = Outcome.running;
            error_code = "";
            error_message = "";
          }
            ∷ [];
    })

abbrev pub claim_row : String → ℕ → Db → Option (Updated Task) → Result (Option Task × Db)
claim_row worker now db none = ok (none, db)
claim_row worker now db (some u) = do
  db1 ← insert_attempt u.row worker now (record db { tasks = u.rows })
  db2 ← mark_background_operation_started u.row.operation_id now db1
  ok (some u.row, db2)

-- `ClaimNextBackgroundTask`; durations are nanoseconds, and a negative one is cut to 0, which the
-- guard refuses in the same way
unfoldable pub claim_next_background_task :
    ℕ → String → String → Option ℕ → ℕ → Db → Result (Option Task × Db)
claim_next_background_task clock resource_class worker at lease db = do
  fail_if (resource_class == "") resource_class_required
  fail_if (worker == "") worker_id_required
  fail_if (eqb lease 0) lease_duration_not_positive
  let now = normalize_work_time clock at
  claim_row worker now db (
      claim_chosen worker now (now + lease) db.tasks
        (first_by claimed_before (is_claimable resource_class now) db.tasks))

-- lease_expires_at IS NOT NULL AND lease_expires_at > now
abbrev pub is_live : ℕ → Option ℕ → Bool
is_live now none = false
is_live now (some e) = ltb (work_time_value now) e

-- id = ? AND status = 'running' AND lease_owner = ? AND the lease is live
unfoldable pub holds_lease : String → String → ℕ → Task → Bool
holds_lease id worker now t =
    t.id == id
    && (is_running t.status && (t.lease_owner == worker && is_live now t.lease_expires_at))

abbrev pub renewed : ℕ → Db → Option (Updated Task) → Result (ℕ × Db)
renewed expires db none = err lease_lost
renewed expires db (some u) = ok (expires, record db { tasks = u.rows })

-- `RenewBackgroundTaskLease`, which returns the new expiry
unfoldable pub renew_background_task_lease :
    ℕ → String → String → Option ℕ → ℕ → Db → Result (ℕ × Db)
renew_background_task_lease clock id worker at lease db = do
  fail_if (id == "" || worker == "") task_and_worker_required
  fail_if (eqb lease 0) lease_duration_not_positive
  let now = normalize_work_time clock at
  let expires = work_time_value (now + lease)
  renewed (work_time expires) db (
      update_one (holds_lease id worker now) (λ t. record t { lease_expires_at = some expires })
        db.tasks)
