-- ===== src/Work/Queue/Cleanups.antt =====
-- What a stop of an operation with a cleanup task leaves in the table of tasks.
use mathlib.Core.Path.{subst}
use gooru.Prelude.Rows.{OnSome}
use gooru.Prelude.{
  Bool, ◌&&◌, ◌++◌, exists_where, update_where, refl, ℕ, ◌≤◌, ◌≡◌, ◌∙◌, sym, String, true, false,
  Option, none, some, List, [], ◌∷◌, All, inl, inr, Bool-cases,
}
use gooru.Work.Schema.{
  Operation, Task, Db, is_active, is_pending, belongs, normalize_work_time, work_time_value,
}
use gooru.Work.Result.{Ensures, Ensures-ok, Ensures-err, Ensures-guard, Ensures-then, Ensures-imp}
use gooru.Work.Operations.{child, children, update_operation}
use gooru.Work.Tasks.{NewTask, alone, pending_task, enqueue_background_task}
use gooru.Work.Finish.{enqueue_new}
use gooru.Work.Recover.{cancel_task}
use gooru.Work.Progress.Reconcile.{childless-idle}
use gooru.Prelude.Unique.{update_where-none}
use gooru.Work.Keeps.{keep-update_operation}
use gooru.Work.Queue.Delays.{running_lease, outlasted}
use gooru.Work.Queue.Dedupe.{enqueue-IsCreated}
use gooru.Work.Stops.{
  latest_running_lease, safe_at, delay_cleanup, revoke_children, enqueue_delayed, Stopped,
  revoke_and_clean, stop_with, can_stop, cancel_background_operation, fail_background_operation,
  cancel_background_operation_with_cleanup_task, fail_background_operation_with_cleanup_task,
}

-- The table of tasks behind a stop that enqueued its cleanup: the children are canceled, and the
-- cleanup is a new task that nobody can claim while a lease that the stop revoked would have lived.
abbrev pub IsCleaned : String → ℕ → String → String → NewTask → List Task → List Task → Type 0
IsCleaned id at code message cleanup before after =
    (c : Task) × (after
      ≡ update_where (child id is_active) (cancel_task at code message) before ++ c ∷ [])
    × (c.dedupe_key ≡ cleanup.dedupe_key)
    × (is_pending c.status ≡ true)
    × All (λ t. running_lease id t ≤ c.available_at) before

-- the same if the stop enqueues, and no change of the tasks if not
abbrev pub CleanedIf :
    Bool → String → ℕ → String → String → NewTask → List Task → List Task → Type 0
CleanedIf false id at code message cleanup before after = after ≡ before
CleanedIf true id at code message cleanup before after =
    IsCleaned id at code message cleanup before after

module _ (clock : ℕ) (id : String) (now : ℕ) (code message : String) (cleanup : NewTask) where
  enqueue_delayed-IsCleaned :
      (db : Db)
      → Ensures
          (λ (r : Db). IsCleaned id (work_time_value now) code message cleanup db.tasks r.tasks)
          (enqueue_delayed clock now
            (safe_at now (latest_running_lease id db.tasks))
            (revoke_children id (work_time_value now) code message db)
            (some cleanup))
  unfolding enqueue_new revoke_children
  enqueue_delayed-IsCleaned db =
      let latest : Option ℕ = latest_running_lease id db.tasks in
      let task : NewTask = delay_cleanup now (safe_at now latest) cleanup in
      let same_key : task.dedupe_key ≡ cleanup.dedupe_key = unfold delay_cleanup in refl in
      Ensures-then (enqueue_background_task clock alone task _) _ (enqueue-IsCreated clock task _)
        λ e h. elim (Bool-cases e.created) [
          | inl made ↦
              let (terminal, rows) = h made in
              rw made (
                Ensures-ok _ (
                  pending_task clock task terminal,
                  rows,
                  same_key,
                  refl,
                  outlasted clock now id cleanup db.tasks,
                ))
          | inr not_made ↦ rw not_made (Ensures-err _)
        ]

  -- what a stop returns that enqueues its cleanup
  abbrev Cleans : List Task → Stopped → Type 0
  Cleans before s =
      CleanedIf s.stopped id (work_time_value now) code message cleanup before s.db.tasks

  revoke_and_clean-Cleans :
      (db : Db)
      → Ensures (Cleans db.tasks) (revoke_and_clean clock id now code message (some cleanup) db)
  unfolding revoke_and_clean
  revoke_and_clean-Cleans db =
      Ensures-guard _ _ _
        λ _. Ensures-then _ _ (enqueue_delayed-IsCleaned db) λ db1 h. Ensures-ok _ h

  stop_with-Cleans :
      (db : Db) (o : Option Db)
      → OnSome (λ r. r.tasks ≡ db.tasks) o
      → Ensures (Cleans db.tasks) (stop_with clock id now code message (some cleanup) db o)
  stop_with-Cleans db none h = Ensures-ok _ refl
  stop_with-Cleans db (some r) h =
      subst
        (λ ts. Ensures (Cleans ts) (revoke_and_clean clock id now code message (some cleanup) r)) h
        (revoke_and_clean-Cleans r)

  -- a stop of an operation without children, and so without a cleanup
  revoke_and_clean-childless :
      (db : Db)
      → exists_where (λ t. belongs id t.operation_id) db.tasks ≡ false
      → Ensures
          (λ (s : Stopped). s.db.tasks ≡ db.tasks)
          (revoke_and_clean clock id now code message none db)
  unfolding revoke_and_clean revoke_children children
  revoke_and_clean-childless db h = Ensures-guard _ _ _ λ _.
      Ensures-then _ _
        (Ensures-ok {P = λ (r : Db). r.tasks ≡ db.tasks} _
          (update_where-none (child id is_active) _ db.tasks (childless-idle id db.tasks h)))
        λ db1 k. Ensures-ok _ k

  stop_with-childless :
      (db : Db) (o : Option Db)
      → exists_where (λ t. belongs id t.operation_id) db.tasks ≡ false
      → OnSome (λ r. r.tasks ≡ db.tasks) o
      → Ensures
          (λ (s : Stopped). s.db.tasks ≡ db.tasks)
          (stop_with clock id now code message none db o)
  stop_with-childless db none h same = Ensures-ok _ refl
  stop_with-childless db (some r) h same =
      Ensures-imp _
        (revoke_and_clean-childless r
          (subst (λ ts. exists_where (λ t. belongs id t.operation_id) ts ≡ false) (sym same) h))
        (λ s k. k ∙ same)

-- the UPDATE of the operation writes no task
same_tasks :
    (id : String) (set : Operation → Operation) (db : Db)
    → OnSome (λ r. r.tasks ≡ db.tasks) (update_operation id can_stop set db)
same_tasks id set db = keep-update_operation (λ ts. ts ≡ db.tasks) id can_stop set db refl

CleanedIf-and :
    (b c : Bool) (id : String) (at : ℕ) (code message : String) (cleanup : NewTask)
    (before after : List Task)
    → c ≡ true
    → CleanedIf b id at code message cleanup before after
    → CleanedIf (b && c) id at code message cleanup before after
CleanedIf-and true true id at code message cleanup before after e h = h
CleanedIf-and false true id at code message cleanup before after e h = h
CleanedIf-and b false id at code message cleanup before after e h = cc

CleanedIf-left :
    (b c : Bool) (id : String) (at : ℕ) (code message : String) (cleanup : NewTask)
    (before after : List Task)
    → c ≡ false
    → after ≡ before
    → CleanedIf (b && c) id at code message cleanup before after
CleanedIf-left true false id at code message cleanup before after e h = h
CleanedIf-left false c id at code message cleanup before after e h = h
CleanedIf-left true true id at code message cleanup before after e h = cc

fail-Cleans :
    (clock : ℕ) (id : String) (at : Option ℕ) (code message : String) (cleanup : NewTask) (db : Db)
    → let attached : Bool = exists_where (λ t. belongs id t.operation_id) db.tasks in
      Ensures
        (λ (s : Stopped).
          CleanedIf
            (s.stopped && attached)
            id
            (work_time_value (normalize_work_time clock at))
            code
            message
            cleanup
            db.tasks
            s.db.tasks)
        (fail_background_operation clock id at code message (some cleanup) db)
unfolding fail_background_operation
fail-Cleans clock id at code message cleanup db = Ensures-guard _ _ _ λ _.
    let now : ℕ = normalize_work_time clock at in
    elim (Bool-cases (exists_where (λ t. belongs id t.operation_id) db.tasks)) [
      | inl e ↦ rw e (
          Ensures-imp _
            (stop_with-Cleans clock id now code message cleanup db _ (same_tasks id _ db))
            (λ s h.
              CleanedIf-and s.stopped true id _ code message cleanup db.tasks s.db.tasks refl h))
      | inr e ↦ rw e (
          Ensures-imp _
            (stop_with-childless clock id now code message cleanup db _ e (same_tasks id _ db))
            (λ s h.
              CleanedIf-left s.stopped false id _ code message cleanup db.tasks s.db.tasks refl h))
    ]

-- Cancelling an operation with a cleanup task either leaves the tasks as they are, or cancels its children and
-- appends the cleanup as a pending task, which cannot be claimed before the lease of any child that
-- was running would have expired. Failing an operation that has children does the same.
pub cleanup_waits :
    (clock : ℕ) (id : String) (at : Option ℕ) (code message : String) (cleanup : NewTask) (db : Db)
    → let now : ℕ = normalize_work_time clock at in
      let attached : Bool = exists_where (λ t. belongs id t.operation_id) db.tasks in
      Ensures
        (λ (s : Stopped).
          CleanedIf s.stopped id (work_time_value now) "" "" cleanup db.tasks s.db.tasks)
        (cancel_background_operation_with_cleanup_task clock id at cleanup db)
      × Ensures
          (λ (s : Stopped).
            CleanedIf
              (s.stopped && attached)
              id
              (work_time_value now)
              code
              message
              cleanup
              db.tasks
              s.db.tasks)
          (fail_background_operation_with_cleanup_task clock id at code message cleanup db)
unfolding cancel_background_operation_with_cleanup_task fail_background_operation_with_cleanup_task
    cancel_background_operation
cleanup_waits clock id at code message cleanup db = (
  Ensures-guard _ _ _ λ _. Ensures-guard _ _ _ λ _.
      stop_with-Cleans clock id (normalize_work_time clock at) "" "" cleanup db _
        (same_tasks id _ db),
  Ensures-guard _ _ _ λ _. fail-Cleans clock id at code message cleanup db,
)
