-- ===== src/Work/Progress/Stops.antt =====
-- The progress of operations when one is stopped or its first task is attached.
use gooru.Prelude.{
  ℕ, ◌≤◌, String, ◌==◌, ◌≡◌, refl, true, false, Option, none, some, List, All, arith, update_where,
}
use gooru.Prelude.Rows.{
  OnSome, OnSome-both, All-update_where, count_where-update_where, count_where-update_where_le,
  count_where-update_where_zero,
}
use gooru.Work.Schema.{
  Status, canceled, failed, is_completed, is_failed, is_active, is_terminal, Message, text,
  Operation, Task, Db, work_time_value,
}
use gooru.Work.Result.{Ensures, Ensures-ok, Ensures-then, Ensures-guard}
use gooru.Work.Operations.{
  child, children, selects, any_operation, update_operation, is_drained_auxiliary,
  release_auxiliary,
}
use gooru.Work.Recover.{cancel_task}
use gooru.Work.Tasks.{NewTask}
use gooru.Work.Stops.{
  can_stop, stop_operation, revoke_children, Stopped, enqueue_delayed, delay_cleanup,
  revoke_and_clean, stop_with, cancel_background_operation, fail_background_operation,
}
use gooru.Work.Progress.{
  IsOwed, IsAnchored, IsAnchored-tasks, IsAnchored-operations, nothing, IsSettled,
}
use gooru.Work.Progress.Settle.{idle, same_id, IsAnchored-update_operation, All-update_operation}
use gooru.Work.Progress.Finish.{AllOwed-enqueue_new}

-- In between, the operation that was stopped still has its children.
record IsStopping (id : String) (tasks : List Task) (o : Operation) : Type 0 where
  named : (o.id == "") ≡ false
  completed_exact : o.progress_completed ≡ children o.id is_completed tasks
  failed_exact : o.progress_failed ≡ children o.id is_failed tasks
  drained : (o.id == id) ≡ false → is_terminal o.status ≡ true → children o.id is_active tasks ≡ 0

record AllStopping (id : String) (db : Db) : Type 0 where
  rows : All (IsStopping id db.tasks) db.operations
  anchored : IsAnchored db.operations db.tasks

module _ (id : String) where
  IsStopping-start :
      (tasks : List Task) (o : Operation) → IsOwed nothing nothing tasks o → IsStopping id tasks o
  IsStopping-start tasks o h = record {
    named = h.named;
    completed_exact = omega (arith, h.completed_exact);
    failed_exact = omega (arith, h.failed_exact);
    drained = λ e t. h.drained t;
  }

  IsStopping-stop :
      (status : Status) (at : ℕ) (code : String) (message : Message) (tasks : List Task)
      (o : Operation)
      → IsOwed nothing nothing tasks o
      → selects id can_stop o ≡ true
      → IsStopping id tasks (stop_operation status at code message o)
  unfolding stop_operation
  IsStopping-stop status at code message tasks o h s = record {
    named = h.named;
    completed_exact = omega (arith, h.completed_exact);
    failed_exact = omega (arith, h.failed_exact);
    drained = λ e t. cc (chosen);
  }
    where
      chosen : (o.id == id) ≡ true
      chosen = ground arith

  IsStopping-release :
      (db : Db) (producer : String) (at : Option ℕ) (o : Operation)
      → IsStopping id db.tasks o
      → is_drained_auxiliary db producer o ≡ true
      → IsStopping id db.tasks (release_auxiliary db at o)
  unfolding release_auxiliary is_drained_auxiliary
  IsStopping-release db producer at o h e = record {
    named = h.named;
    completed_exact = h.completed_exact;
    failed_exact = h.failed_exact;
    drained = λ n t. ground (arith, idle o.id db.tasks);
  }

-- the tasks after the children of one operation are canceled
module _ (id : String) (at : ℕ) (code message : String) (tasks : List Task) where
  abbrev revoked : List Task
  revoked = update_where (child id is_active) (cancel_task at code message) tasks

  children-revoked_completed :
      (x : String) → children x is_completed revoked ≡ children x is_completed tasks
  unfolding children
  children-revoked_completed x =
      count_where-update_where (child x is_completed) (child id is_active)
        (cancel_task at code message) tasks (λ t e. ground arith)

  children-revoked_failed : (x : String) → children x is_failed revoked ≡ children x is_failed tasks
  unfolding children
  children-revoked_failed x =
      count_where-update_where (child x is_failed) (child id is_active)
        (cancel_task at code message) tasks (λ t e. ground arith)

  children-revoked_active : (x : String) → children x is_active revoked ≤ children x is_active tasks
  unfolding children
  children-revoked_active x =
      count_where-update_where_le (child x is_active) (child id is_active)
        (cancel_task at code message) tasks (λ t e n. ground arith)

  children-revoked_none : children id is_active revoked ≡ 0
  unfolding children
  children-revoked_none =
      count_where-update_where_zero (child id is_active) (cancel_task at code message) tasks
        (λ t e. ground arith)

module _ (id : String) (at : ℕ) (code message : String) (db : Db) where
  -- The counters are refreshed, and no child is left active.
  IsOwed-revoked :
      (o : Operation)
      → IsStopping id db.tasks o
      → selects id any_operation o ≡ true
      → IsOwed nothing nothing (revoke_children id at code message db).tasks (record o {
        progress_completed = children id is_completed db.tasks;
        progress_failed = children id is_failed db.tasks;
      })
  unfolding revoke_children
  IsOwed-revoked o h s =
      let same : o.id ≡ id = same_id o.id id s in
      record {
        named = h.named;
        completed_exact =
            rw same (omega (arith, children-revoked_completed id at code message db.tasks id));
        failed_exact =
            rw same (omega (arith, children-revoked_failed id at code message db.tasks id));
        drained = λ t. rw same (children-revoked_none id at code message db.tasks);
      }

  IsOwed-unstopped :
      (o : Operation)
      → IsStopping id db.tasks o
      → selects id any_operation o ≡ false
      → IsOwed nothing nothing (revoke_children id at code message db).tasks o
  unfolding revoke_children
  IsOwed-unstopped o h s = record {
    named = h.named;
    completed_exact =
        omega
          (arith, h.completed_exact, children-revoked_completed id at code message db.tasks o.id);
    failed_exact =
        omega (arith, h.failed_exact, children-revoked_failed id at code message db.tasks o.id);
    drained = λ t.
        omega (arith, h.drained other t, children-revoked_active id at code message db.tasks o.id);
  }
    where
      other : (o.id == id) ≡ false
      other = ground arith

  IsSettled-revoke : AllStopping id db → IsSettled (revoke_children id at code message db)
  unfolding revoke_children
  IsSettled-revoke h = record {
    rows =
        All-update_where _ _ (selects id any_operation) _ db.operations
          (λ o k s. unfold revoke_children in IsOwed-revoked o k s)
          (λ o k s. unfold revoke_children in IsOwed-unstopped o k s) h.rows;
    anchored = λ x e.
        IsAnchored-tasks (child id is_active) (cancel_task at code message) _ db.tasks (λ t. refl)
          (IsAnchored-operations (selects id any_operation) _ db.operations db.tasks (λ o. refl)
            h.anchored)
          x e;
  }

abbrev pub StoppedWith : (Db → Type 0) → Stopped → Type 0
StoppedWith P s = P s.db

IsSettled-delayed :
    (clock now safe : ℕ) (db : Db) (cleanup : Option NewTask)
    → IsSettled db
    → Ensures IsSettled (enqueue_delayed clock now safe db cleanup)
IsSettled-delayed clock now safe db none h = Ensures-ok db h
IsSettled-delayed clock now safe db (some t) h =
    AllOwed-enqueue_new nothing nothing clock (delay_cleanup now safe t) db h

IsSettled-stop_with :
    (clock : ℕ) (id : String) (now : ℕ) (code message : String) (cleanup : Option NewTask) (db : Db)
    (found : Option Db)
    → OnSome (AllStopping id) found
    → IsSettled db
    → Ensures (StoppedWith IsSettled) (stop_with clock id now code message cleanup db found)
unfolding revoke_and_clean
IsSettled-stop_with clock id now code message cleanup db none h s = Ensures-ok _ s
IsSettled-stop_with clock id now code message cleanup db (some r) h s = Ensures-guard _ _ _ λ _.
    Ensures-then _ _
      (IsSettled-delayed clock now _ _ cleanup
        (IsSettled-revoke id (work_time_value now) code message r h))
      λ db1 h1. Ensures-ok _ h1

stopping :
    (id : String) (status : Status) (at : ℕ) (code : String) (message : Message) (db : Db)
    → IsSettled db
    → OnSome
        (AllStopping id)
        (update_operation id can_stop (stop_operation status at code message) db)
unfolding stop_operation
stopping id status at code message db h =
    OnSome-both (update_operation id can_stop (stop_operation status at code message) db)
      (λ r a b. record { rows = a; anchored = b })
      (All-update_operation (IsOwed nothing nothing) (IsStopping id) (IsStopping-release id) id
        can_stop (stop_operation status at code message) db
        (λ o s k. IsStopping-stop id status at code message db.tasks o k s)
        (λ o k. IsStopping-start id db.tasks o k) h.rows)
      (IsAnchored-update_operation id can_stop (stop_operation status at code message) db
        (λ o. refl) h.anchored)

pub IsSettled-cancel_operation :
    (clock : ℕ) (id : String) (at : Option ℕ) (cleanup : Option NewTask) (db : Db)
    → IsSettled db
    → Ensures (StoppedWith IsSettled) (cancel_background_operation clock id at cleanup db)
unfolding cancel_background_operation
IsSettled-cancel_operation clock id at cleanup db h = Ensures-guard _ _ _ λ _.
    IsSettled-stop_with clock id _ "" "" cleanup db _ (stopping id canceled _ "" (text "") db h) h

pub IsSettled-fail_operation :
    (clock : ℕ) (id : String) (at : Option ℕ) (code message : String) (cleanup : Option NewTask)
    (db : Db)
    → IsSettled db
    → Ensures
        (StoppedWith IsSettled)
        (fail_background_operation clock id at code message cleanup db)
unfolding fail_background_operation
IsSettled-fail_operation clock id at code message cleanup db h = Ensures-guard _ _ _ λ _.
    IsSettled-stop_with clock id _ code message _ db _
      (stopping id failed _ code (text message) db h) h
