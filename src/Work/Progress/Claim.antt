-- ===== src/Work/Progress/Claim.antt =====
-- The progress of operations when a task is claimed or its lease renewed.
use gooru.Prelude.{ℕ, String, ◌≡◌, true, Option, none, some, arith, Updated, first_by}
use gooru.Prelude.Rows.{OnSome}
use gooru.Work.Schema.{Task, Db}
use gooru.Work.Result.{Ensures, Ensures-ok, Ensures-err, Ensures-then, Ensures-guard}
use gooru.Work.Claim.{
  is_chosen, claim_task, claim_chosen, claim_row, claim_next_background_task, holds_lease, renewed,
  renew_background_task_lease, claimed_before, is_claimable,
}
use gooru.Work.Progress.{nothing, IsChange, IsSettled}
use gooru.Work.Progress.Settle.{AllOwed-start}
use gooru.Work.Progress.Finish.{Next, AllOwed-attempt, IsSettled-update_one}

IsChange-claim :
    (id worker : String) (now expires : ℕ) (t : Task)
    → is_chosen id t ≡ true
    → IsChange 0 0 t (claim_task worker now expires t)
unfolding claim_task
IsChange-claim id worker now expires t h = ground arith

IsSettled-claim_row :
    (worker : String) (now : ℕ) (db : Db) (o : Option (Updated Task))
    → OnSome (λ u. IsSettled (record db { tasks = u.rows })) o
    → IsSettled db
    → Ensures (Next IsSettled) (claim_row worker now db o)
IsSettled-claim_row worker now db none h s = Ensures-ok _ s
IsSettled-claim_row worker now db (some u) h s =
    Ensures-then _ _ (AllOwed-attempt nothing nothing u.row worker now _ h) λ db1 h1.
      Ensures-then _ _ (AllOwed-start nothing nothing u.row.operation_id now db1 h1)
        λ db2 h2. Ensures-ok _ h2

IsSettled-claim_chosen :
    (worker : String) (now expires : ℕ) (db : Db) (best : Option Task)
    → IsSettled db
    → OnSome
        (λ u. IsSettled (record db { tasks = u.rows }))
        (claim_chosen worker now expires db.tasks best)
IsSettled-claim_chosen worker now expires db none h = tt
IsSettled-claim_chosen worker now expires db (some best) h =
    IsSettled-update_one _ _ db (λ t e. IsChange-claim best.id worker now expires t e) h

pub IsSettled-claim :
    (clock : ℕ) (class worker : String) (at : Option ℕ) (lease : ℕ) (db : Db)
    → IsSettled db
    → Ensures (Next IsSettled) (claim_next_background_task clock class worker at lease db)
unfolding claim_next_background_task
IsSettled-claim clock class worker at lease db h = Ensures-guard _ _ _ λ _. Ensures-guard _ _ _ λ _.
    Ensures-guard _ _ _ λ _.
      IsSettled-claim_row worker _ db _
        (IsSettled-claim_chosen worker _ _ db
          (first_by claimed_before (is_claimable class _) db.tasks) h)
        h

IsChange-renew :
    (id worker : String) (now e : ℕ) (t : Task)
    → holds_lease id worker now t ≡ true
    → IsChange 0 0 t (record t { lease_expires_at = some e })
IsChange-renew id worker now e t h = ground arith

IsSettled-renewed :
    (e : ℕ) (db : Db) (o : Option (Updated Task))
    → OnSome (λ u. IsSettled (record db { tasks = u.rows })) o
    → Ensures (Next IsSettled) (renewed e db o)
IsSettled-renewed e db none h = Ensures-err _
IsSettled-renewed e db (some u) h = Ensures-ok _ h

pub IsSettled-renew :
    (clock : ℕ) (id worker : String) (at : Option ℕ) (lease : ℕ) (db : Db)
    → IsSettled db
    → Ensures (Next IsSettled) (renew_background_task_lease clock id worker at lease db)
unfolding renew_background_task_lease
IsSettled-renew clock id worker at lease db h = Ensures-guard _ _ _ λ _. Ensures-guard _ _ _ λ _.
    IsSettled-renewed _ db _
      (IsSettled-update_one _ _ db (λ t e. IsChange-renew id worker _ _ t e) h)
