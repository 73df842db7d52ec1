-- ===== src/Work/Progress/Finish.antt =====
-- The progress of operations when a task completes or fails.
use gooru.Prelude.{
  ℕ, String, ◌==◌, ◌≡◌, Bool, true, Option, none, some, All-imp, inl, inr, arith, bit, Bool-cases,
  exists_where, find_where, update_one, count_where, Updated, eqb,
}
use gooru.Prelude.Rows.{OnSome, OnSome-imp, update_one-IsUpdate}
use gooru.Work.Schema.{is_running, is_failed, Cleanup, Task, Attempt, Db, work_time_value}
use gooru.Work.Result.{
  Ensures, Ensures-ok, Ensures-err, Ensures-bind, Ensures-then, Ensures-guard, required, no_rows,
}
use gooru.Work.Claim.{is_attempt, insert_attempt, holds_lease}
use gooru.Work.Finish.{
  Closing, close_one_attempt, complete_task, completion, finish_completion, holds_attempt,
  complete_background_task, complete_background_task_attempt, fail_task, enqueue_new,
  enqueue_cleanup, enqueue_background_task_terminal_cleanup, after_failure, after_attempt,
  finish_failure, fail_background_task,
}
use gooru.Work.Tasks.{NewTask, alone}
use gooru.Work.Progress.{
  AllOwed, AllOwed-map, IsAnchored-update, nothing, plus, IsChange, IsOwed-change, IsOwed-cong,
  plus-zero, IsSettled, IsSettled-change,
}
use gooru.Work.Progress.Settle.{AllOwed-record}
use gooru.Work.Progress.Insert.{AllOwed-enqueue}

-- A result with a value beside the next state.
abbrev pub Next {ℓ} : {A : Type ℓ} → (Db → Type 0) → A × Db → Type 0
Next P r = P r.1

module _ (c f : String → ℕ) where
  pub AllOwed-attempt :
      (t : Task) (worker : String) (now : ℕ) (db : Db)
      → AllOwed c f db
      → Ensures (AllOwed c f) (insert_attempt t worker now db)
  unfolding insert_attempt
  AllOwed-attempt t worker now db h =
      elim (Bool-cases (exists_where (is_attempt t.id t.attempt_count) db.attempts)) [
        | inl e ↦ rw e (Ensures-err _)
        | inr e ↦ rw e (Ensures-ok _ (record { rows = h.rows; anchored = h.anchored }))
      ]

  pub AllOwed-close :
      (p : Attempt → Bool) (cl : Closing) (db : Db)
      → AllOwed c f db
      → Ensures (AllOwed c f) (close_one_attempt p cl db)
  unfolding close_one_attempt
  AllOwed-close p cl db h = elim (Bool-cases (eqb (count_where p db.attempts) 1)) [
    | inl e ↦ rw e (Ensures-ok _ (record { rows = h.rows; anchored = h.anchored }))
    | inr e ↦ rw e (Ensures-err _)
  ]

-- What an UPDATE of one task leaves owed, from what it does to a row that it selects.
abbrev pub Owes : (n m : Task → ℕ) → Db → Updated Task → Type 0
Owes n m db u =
    AllOwed (plus nothing u.row.operation_id (n u.row)) (plus nothing u.row.operation_id (m u.row))
      (record db { tasks = u.rows })

module _ (p : Task → Bool) (g : Task → Task) (n m : Task → ℕ) where
  pub AllOwed-update_one :
      (db : Db)
      → ((t : Task) → p t ≡ true → IsChange (n (g t)) (m (g t)) t (g t))
      → IsSettled db
      → OnSome (Owes n m db) (update_one p g db.tasks)
  AllOwed-update_one db k h =
      OnSome-imp (update_one p g db.tasks)
        (λ u up.
          let change : IsChange (n u.row) (m u.row) u.old u.row =
            rw up.written (k u.old up.chosen) in
          record {
            rows = All-imp _ _ db.operations (IsOwed-change (n u.row) (m u.row) up change) h.rows;
            anchored = IsAnchored-update db.operations up change.parent h.anchored;
          })
        (update_one-IsUpdate p g db.tasks)

-- A task that neither completes nor fails leaves nothing owed.
pub IsSettled-update_one :
    (p : Task → Bool) (g : Task → Task) (db : Db)
    → ((t : Task) → p t ≡ true → IsChange 0 0 t (g t))
    → IsSettled db
    → OnSome (λ u. IsSettled (record db { tasks = u.rows })) (update_one p g db.tasks)
IsSettled-update_one p g db k h =
    OnSome-imp (update_one p g db.tasks)
      (λ u up. IsSettled-change db up (rw up.written (k u.old up.chosen)) h)
      (update_one-IsUpdate p g db.tasks)

-- ---- completions

holds_lease-running :
    (id worker : String) (now : ℕ) (t : Task)
    → holds_lease id worker now t ≡ true
    → is_running t.status ≡ true
unfolding holds_lease
holds_lease-running id worker now t e = ground arith

holds_attempt-running :
    (id : String) (n now : ℕ) (t : Task)
    → holds_attempt id n now t ≡ true
    → is_running t.status ≡ true
unfolding holds_attempt
holds_attempt-running id n now t e = ground arith

IsChange-complete :
    (at : ℕ) (t : Task) → is_running t.status ≡ true → IsChange 1 0 t (complete_task at t)
IsChange-complete at t h = ground arith

IsSettled-completion :
    (attempt : Task → Attempt → Bool) (now : ℕ) (db : Db) (o : Option (Updated Task))
    → OnSome (Owes (λ t. 1) (λ t. 0) db) o
    → Ensures IsSettled (finish_completion attempt now db o)
IsSettled-completion attempt now db none h = Ensures-err _
IsSettled-completion attempt now db (some u) h =
    Ensures-then _ _ (AllOwed-close _ _ (attempt u.row) (completion (work_time_value now)) _ h)
      λ db1 h1. AllOwed-record nothing nothing u.row.operation_id now 1 0 db1 h1

pub IsSettled-complete :
    (clock : ℕ) (id worker : String) (at : Option ℕ) (db : Db)
    → IsSettled db
    → Ensures IsSettled (complete_background_task clock id worker at db)
unfolding complete_background_task
IsSettled-complete clock id worker at db h = Ensures-guard _ _ _ λ _.
    IsSettled-completion _ _ db _ (
      AllOwed-update_one _ _ (λ t. 1) (λ t. 0) db
        (λ t e. IsChange-complete _ t (holds_lease-running id worker _ t e)) h)

pub IsSettled-complete_attempt :
    (clock : ℕ) (id : String) (n : ℕ) (at : Option ℕ) (db : Db)
    → IsSettled db
    → Ensures IsSettled (complete_background_task_attempt clock id n at db)
unfolding complete_background_task_attempt
IsSettled-complete_attempt clock id n at db h = Ensures-guard _ _ _ λ _.
    IsSettled-completion _ _ db _ (
      AllOwed-update_one _ _ (λ t. 1) (λ t. 0) db
        (λ t e. IsChange-complete _ t (holds_attempt-running id n _ t e)) h)

-- ---- failures

abbrev pub failed_bit : Task → ℕ
failed_bit t = bit (is_failed t.status)

IsChange-fail :
    (retry now : ℕ) (code message : String) (t : Task)
    → is_running t.status ≡ true
    → IsChange 0
        (failed_bit (fail_task retry now code message t))
        t
        (fail_task retry now code message t)
IsChange-fail retry now code message t h = ground arith

module _ (c f : String → ℕ) where
  pub AllOwed-enqueue_new :
      (clock : ℕ) (task : NewTask) (db : Db)
      → AllOwed c f db
      → Ensures (AllOwed c f) (enqueue_new clock task db)
  unfolding enqueue_new
  AllOwed-enqueue_new clock task db h =
      Ensures-then _ _ (AllOwed-enqueue c f alone (λ n d k. k) clock task db h) λ e k.
        elim (Bool-cases e.created) [ inl b ↦ rw b (Ensures-ok _ k) | inr b ↦ rw b (Ensures-err _) ]

  AllOwed-enqueue_cleanup :
      (clock : ℕ) (id : String) (at : ℕ) (db : Db) (o : Option Cleanup)
      → AllOwed c f db
      → Ensures (AllOwed c f) (enqueue_cleanup clock id at db o)
  AllOwed-enqueue_cleanup clock id at db none h = Ensures-ok _ h
  AllOwed-enqueue_cleanup clock id at db (some cl) h = AllOwed-enqueue_new clock _ db h

  AllOwed-terminal_cleanup :
      (clock : ℕ) (id : String) (at : ℕ) (db : Db)
      → AllOwed c f db
      → Ensures (AllOwed c f) (enqueue_background_task_terminal_cleanup clock id at db)
  unfolding enqueue_background_task_terminal_cleanup
  AllOwed-terminal_cleanup clock id at db h =
      Ensures-bind (required no_rows (find_where (λ t. t.id == id) db.tasks)) _
        λ t e. AllOwed-enqueue_cleanup clock id at db t.terminal_cleanup h

  AllOwed-after_failure :
      (clock now : ℕ) (t : Task) (db : Db)
      → AllOwed (plus c t.operation_id 0) (plus f t.operation_id 1) db
      → Ensures (AllOwed c f) (after_failure clock now t db)
  unfolding after_failure
  AllOwed-after_failure clock now t db h =
      Ensures-then _ _ (AllOwed-record c f t.operation_id now 0 1 db h)
        λ db1 h1. AllOwed-terminal_cleanup clock t.id now db1 h1

  -- the branch behind a task that went back to pending or failed for good
  pub AllOwed-failed :
      (clock now : ℕ) (t : Task) (db : Db)
      → AllOwed (plus c t.operation_id 0) (plus f t.operation_id (failed_bit t)) db
      → Ensures (AllOwed c f) (after_attempt clock now t db)
  unfolding after_attempt
  AllOwed-failed clock now t db h = elim (Bool-cases (is_failed t.status)) [
    | inl e ↦ rw e (AllOwed-after_failure clock now t db (rw e at h))
    | inr e ↦ rw e (
        Ensures-ok db (
          AllOwed-map db
            (λ o k.
              IsOwed-cong db.tasks o (plus-zero c t.operation_id o.id)
                (plus-zero f t.operation_id o.id) k)
            (rw e at h)))
  ]

IsSettled-failure :
    (clock : ℕ) (worker : String) (now : ℕ) (code message : String) (db : Db)
    (o : Option (Updated Task))
    → OnSome (Owes (λ t. 0) failed_bit db) o
    → Ensures (Next IsSettled) (finish_failure clock worker now code message db o)
unfolding finish_failure
IsSettled-failure clock worker now code message db none h = Ensures-err _
IsSettled-failure clock worker now code message db (some u) h =
    Ensures-then _ _ (AllOwed-close _ _ _ _ _ h) λ db1 h1.
      Ensures-then _ _ (AllOwed-failed nothing nothing clock now u.row db1 h1)
        λ db2 h2. Ensures-ok _ h2

pub IsSettled-fail :
    (clock : ℕ) (id worker : String) (at retry : Option ℕ) (code message : String) (db : Db)
    → IsSettled db
    → Ensures (Next IsSettled) (fail_background_task clock id worker at retry code message db)
unfolding fail_background_task
IsSettled-fail clock id worker at retry code message db h = Ensures-guard _ _ _ λ _.
    IsSettled-failure clock worker _ code message db _ (
      AllOwed-update_one _ _ (λ t. 0) failed_bit db
        (λ t e. IsChange-fail _ _ code message t (holds_lease-running id worker _ t e)) h)
