-- ===== src/Work/Keeps/Steps.antt =====
-- The steps of the methods, for any property of the list of tasks that survives a new pending task
-- and a change of an active one.
use gooru.Prelude.{
  ℕ, String, ◌==◌, ◌≡◌, Bool, true, Option, none, some, List, Updated, inl, inr, arith, Bool-cases,
  ltb, count_where, exists_where, update_where, update_one, first_by, eqb,
}
use gooru.Prelude.Rows.{OnSome, OnSome-imp, IsUpdate, update_one-IsUpdate}
use gooru.Work.Schema.{is_active, Operation, Task, Attempt, Db, normalize_work_time}
use gooru.Work.Result.{
  no_rows, Ensures, Ensures-ok, Ensures-err, Ensures-guard, Ensures-then, Ensures-required,
}
use gooru.Work.Operations.{mark_background_operation_started}
use gooru.Work.Admission.{insert_operation, admit_operation, pending_of_kind}
use gooru.Work.Tasks.{postponed}
use gooru.Work.Claim.{
  is_claimable, claimed_before, claim_task, is_chosen, claim_chosen, insert_attempt, claim_row,
  claim_next_background_task, renewed, is_attempt,
}
use gooru.Work.Finish.{Closing, close_one_attempt, finish_completion, finish_failure}
use gooru.Work.Recover.{
  is_expired, expire_task, recover_expired_background_task_leases, finish_cancellation,
}
use gooru.Work.Keeps.{
  Grows, Has, keep-update_operation, keep-record, keep-after_attempt, keep-settle_expired,
  keep-abandon,
}

-- An active row is replaced by a row with its id and its dedupe key.
abbrev pub IsRewrite : Task → Task → Type 0
IsRewrite old new =
    (new.id ≡ old.id) × (new.dedupe_key ≡ old.dedupe_key) × (is_active old.status ≡ true)

-- What a property of the tasks has to survive.
pub record Laws (P : List Task → Type 0) : Type 0 where
  pub grow : Grows P
  pub change_one :
      {p : Task → Bool} {g : Task → Task} (ts : List Task) (u : Updated Task)
      → IsUpdate p g ts u
      → IsRewrite u.old u.row
      → P ts
      → P u.rows
  pub change_all :
      (p : Task → Bool) (g : Task → Task) (ts : List Task)
      → ((t : Task) → p t ≡ true → IsRewrite t (g t))
      → P ts
      → P (update_where p g ts)

IsRewrite-claim :
    (id worker : String) (now expires : ℕ) (t : Task)
    → is_chosen id t ≡ true
    → IsRewrite t (claim_task worker now expires t)
unfolding claim_task
IsRewrite-claim id worker now expires t e = ground arith

IsRewrite-expire : (now : ℕ) (t : Task) → is_expired now t ≡ true → IsRewrite t (expire_task now t)
unfolding is_expired expire_task
IsRewrite-expire now t e = ground arith

module _ (P : List Task → Type 0) where
  abbrev pub Second : {A : Type 0} → A × Db → Type 0
  Second r = Has P r.1

  -- the rows that an UPDATE ... RETURNING leaves
  pub keep-close :
      (p : Attempt → Bool) (c : Closing) (db : Db)
      → Has P db
      → Ensures (Has P) (close_one_attempt p c db)
  unfolding close_one_attempt
  keep-close p c db h = elim (Bool-cases (eqb (count_where p db.attempts) 1)) [
    | inl e ↦ rw e (Ensures-ok _ h)
    | inr e ↦ rw e (Ensures-err _)
  ]

  pub keep-insert_operation :
      (o : Operation) (db : Db) → Has P db → Ensures (Has P) (insert_operation o db)
  unfolding insert_operation
  keep-insert_operation o db h =
      elim (Bool-cases (exists_where (λ r. r.id == o.id) db.operations)) [
        | inl e ↦ rw e (Ensures-err _)
        | inr e ↦ rw e (Ensures-ok _ h)
      ]

  pub keep-admit :
      (n : ℕ) (o : Operation) (db : Db) → Has P db → Ensures Second (admit_operation n o db)
  unfolding admit_operation
  keep-admit n o db h =
      elim (Bool-cases (ltb (count_where (pending_of_kind o.kind) db.operations) n)) [
        | inl e ↦ rw e (Ensures-then _ _ (keep-insert_operation o db h) λ db1 h1. Ensures-ok _ h1)
        | inr e ↦ rw e (Ensures-ok _ h)
      ]

  pub keep-attempt :
      (t : Task) (worker : String) (now : ℕ) (db : Db)
      → Has P db
      → Ensures (Has P) (insert_attempt t worker now db)
  unfolding insert_attempt
  keep-attempt t worker now db h =
      elim (Bool-cases (exists_where (is_attempt t.id t.attempt_count) db.attempts)) [
        | inl e ↦ rw e (Ensures-err _)
        | inr e ↦ rw e (Ensures-ok _ h)
      ]

  pub keep-start :
      (parent : Option String) (now : ℕ) (db : Db)
      → Has P db
      → Ensures (Has P) (mark_background_operation_started parent now db)
  unfolding mark_background_operation_started
  keep-start none now db h = Ensures-ok _ h
  keep-start (some id) now db h = elim (Bool-cases (id == "")) [
    | inl e ↦ rw e (Ensures-ok _ h)
    | inr e ↦ rw e (Ensures-required no_rows _ (keep-update_operation P _ _ _ db h))
  ]

module _ (P : List Task → Type 0) (laws : Laws P) where
  abbrev Left : Option (Updated Task) → Type 0
  Left o = OnSome (λ u. P u.rows) o

  pub changed :
      (p : Task → Bool) (g : Task → Task) (db : Db)
      → ((t : Task) → p t ≡ true → IsRewrite t (g t))
      → Has P db
      → Left (update_one p g db.tasks)
  changed p g db k h =
      OnSome-imp (update_one p g db.tasks)
        (λ u up. laws.change_one db.tasks u up (rw up.written (k u.old up.chosen)) h)
        (update_one-IsUpdate p g db.tasks)

  pub keep-postponed :
      (db : Db) (o : Option (Updated Task))
      → Left o
      → Has P db
      → Ensures (Second P) (postponed db o)
  keep-postponed db none k h = Ensures-ok _ h
  keep-postponed db (some u) k h = Ensures-ok _ k

  pub keep-claim_row :
      (worker : String) (now : ℕ) (db : Db) (o : Option (Updated Task))
      → Left o
      → Has P db
      → Ensures (Second P) (claim_row worker now db o)
  keep-claim_row worker now db none k h = Ensures-ok _ h
  keep-claim_row worker now db (some u) k h =
      Ensures-then _ _ (keep-attempt P u.row worker now _ k) λ db1 h1.
        Ensures-then _ _ (keep-start P u.row.operation_id now db1 h1) λ db2 h2. Ensures-ok _ h2

  pub keep-chosen :
      (worker : String) (now expires : ℕ) (db : Db) (best : Option Task)
      → Has P db
      → Left (claim_chosen worker now expires db.tasks best)
  keep-chosen worker now expires db none h = tt
  keep-chosen worker now expires db (some best) h =
      changed _ _ db (IsRewrite-claim best.id worker now expires) h

  pub keep-claim :
      (clock : ℕ) (class worker : String) (at : Option ℕ) (lease : ℕ) (db : Db)
      → Has P db
      → Ensures (Second P) (claim_next_background_task clock class worker at lease db)
  unfolding claim_next_background_task
  keep-claim clock class worker at lease db h = Ensures-guard _ _ _ λ _. Ensures-guard _ _ _ λ _.
      Ensures-guard _ _ _ λ _.
        keep-claim_row worker _ db _
          (keep-chosen worker _ _ db (first_by claimed_before (is_claimable class _) db.tasks) h) h

  pub keep-renewed :
      (e : ℕ) (db : Db) (o : Option (Updated Task)) → Left o → Ensures (Second P) (renewed e db o)
  keep-renewed e db none k = Ensures-err _
  keep-renewed e db (some u) k = Ensures-ok _ k

  pub keep-completion :
      (attempt : Task → Attempt → Bool) (now : ℕ) (db : Db) (o : Option (Updated Task))
      → Left o
      → Ensures (Has P) (finish_completion attempt now db o)
  keep-completion attempt now db none k = Ensures-err _
  keep-completion attempt now db (some u) k =
      Ensures-then _ _ (keep-close P _ _ _ k)
        λ db1 h1. keep-record P u.row.operation_id now 1 0 db1 h1

  pub keep-failure :
      (clock : ℕ) (worker : String) (now : ℕ) (code message : String) (db : Db)
      (o : Option (Updated Task))
      → Left o
      → Ensures (Second P) (finish_failure clock worker now code message db o)
  unfolding finish_failure
  keep-failure clock worker now code message db none k = Ensures-err _
  keep-failure clock worker now code message db (some u) k =
      Ensures-then _ _ (keep-close P _ _ _ k) λ db1 h1.
        Ensures-then _ _ (keep-after_attempt P laws.grow clock now u.row db1 h1)
          λ db2 h2. Ensures-ok _ h2

  pub keep-cancellation :
      (now : ℕ) (db : Db) (o : Option (Updated Task))
      → Left o
      → Has P db
      → Ensures (Second P) (finish_cancellation now db o)
  unfolding finish_cancellation
  keep-cancellation now db none k h = Ensures-ok _ h
  keep-cancellation now db (some u) k h =
      Ensures-then _ _ (keep-record P u.row.operation_id now 0 0 _ k) λ db1 h1. Ensures-ok _ h1

  pub keep-recover :
      (clock : ℕ) (at : Option ℕ) (db : Db)
      → Has P db
      → Ensures (Second P) (recover_expired_background_task_leases clock at db)
  unfolding recover_expired_background_task_leases
  keep-recover clock at db h =
      Ensures-then _ _
        (keep-abandon P _ _ _ (
          laws.change_all (is_expired (normalize_work_time clock at)) _ db.tasks
            (IsRewrite-expire _) h))
        λ db1 h1.
          Ensures-then _ _ (keep-settle_expired P laws.grow clock _ _ db1 h1)
            λ db2 h2. Ensures-ok _ h2
