-- ===== src/Work/Progress/Cancel.antt =====
-- The progress of operations when a task is canceled.
use gooru.Prelude.{ℕ, String, ◌==◌, ◌≡◌, true, ◌&&◌, Option, none, some, arith, Updated}
use gooru.Prelude.Rows.{OnSome}
use gooru.Work.Schema.{is_active, Task, Db}
use gooru.Work.Result.{Ensures, Ensures-ok, Ensures-then, Ensures-guard}
use gooru.Work.Recover.{cancel_task, finish_cancellation, cancel_background_task}
use gooru.Work.Progress.{nothing, IsChange, IsSettled}
use gooru.Work.Progress.Settle.{AllOwed-record}
use gooru.Work.Progress.Finish.{Next, Owes, AllOwed-update_one}

IsChange-cancel :
    (at : ℕ) (code message : String) (t : Task)
    → is_active t.status ≡ true
    → IsChange 0 0 t (cancel_task at code message t)
IsChange-cancel at code message t h = ground arith

IsSettled-cancellation :
    (now : ℕ) (db : Db) (o : Option (Updated Task))
    → OnSome (Owes (λ t. 0) (λ t. 0) db) o
    → IsSettled db
    → Ensures (Next IsSettled) (finish_cancellation now db o)
unfolding finish_cancellation
IsSettled-cancellation now db none h s = Ensures-ok _ s
IsSettled-cancellation now db (some u) h s =
    Ensures-then _ _
      (AllOwed-record nothing nothing u.row.operation_id now 0 0 _
        (record { rows = h.rows; anchored = h.anchored }))
      λ db1 h1. Ensures-ok _ h1

pub IsSettled-cancel_task :
    (clock : ℕ) (id : String) (at : Option ℕ) (db : Db)
    → IsSettled db
    → Ensures (Next IsSettled) (cancel_background_task clock id at db)
unfolding cancel_background_task
IsSettled-cancel_task clock id at db h = Ensures-guard _ _ _ λ _.
    IsSettled-cancellation _ db _
      (AllOwed-update_one _ _ (λ t. 0) (λ t. 0) db (λ t e. IsChange-cancel _ "" "" t (active t e))
        h)
      h
  where
    active : (t : Task) → (t.id == id && is_active t.status) ≡ true → is_active t.status ≡ true
    active t e = ground arith
