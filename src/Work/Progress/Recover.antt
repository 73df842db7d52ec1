-- ===== src/Work/Progress/Recover.antt =====
-- The recovery of expired leases keeps every operation settled, although it finishes many tasks
-- before it turns to their operations.
use gooru.Prelude.{
  ℕ, ◌+◌, String, ◌≡◌, refl, sym, true, false, Option, List, [], ◌∷◌, All-imp, inl, inr, arith, bit,
  Bool-cases, update_where, count_where,
}
use gooru.Prelude.Rows.{count_where-update_where, count_where-update_where_le}
use gooru.Work.Schema.{is_completed, is_failed, is_active, Operation, Task, Db, normalize_work_time}
use gooru.Work.Result.{Ensures, Ensures-ok, Ensures-then}
use gooru.Work.Operations.{child, children}
use gooru.Work.Finish.{open_attempt}
use gooru.Work.Recover.{
  is_expired, expire_task, expired_rows, abandon_attempts, abandonment, settle_expired,
  recover_expired_background_task_leases,
}
use gooru.Work.Progress.{
  IsOwed, AllOwed, AllOwed-map, IsAnchored-tasks, nothing, plus, plus-zero, owed_to, IsOwed-cong,
  IsSettled,
}
use gooru.Work.Progress.Finish.{Next, failed_bit, AllOwed-close, AllOwed-failed}

-- what the rows that are still to be settled owe
abbrev owed_rows : List Task → String → ℕ
owed_rows [] = nothing
owed_rows (t ∷ ts) = plus (owed_rows ts) t.operation_id (failed_bit t)

module _ (now : ℕ) (id : String) where
  expire-completed :
      (t : Task)
      → is_expired now t ≡ true
      → child id is_completed (expire_task now t) ≡ child id is_completed t
  unfolding is_expired expire_task
  expire-completed t h = ground arith

  expire-active :
      (t : Task)
      → is_expired now t ≡ true
      → child id is_active t ≡ false
      → child id is_active (expire_task now t) ≡ false
  unfolding is_expired expire_task
  expire-active t h e = ground arith

  expire-failed :
      (t : Task)
      → is_expired now t ≡ true
      → bit (child id is_failed (expire_task now t))
        ≡ bit (child id is_failed t)
          + owed_to (expire_task now t).operation_id (failed_bit (expire_task now t)) id
  unfolding is_expired expire_task
  expire-failed t h = ground arith

  children-expired :
      (tasks : List Task)
      → children id is_failed (update_where (is_expired now) (expire_task now) tasks)
        ≡ children id is_failed tasks + owed_rows (expired_rows now tasks) id
  unfolding children count_where update_where expired_rows
  children-expired [] = refl
  children-expired (t ∷ ts) = elim (Bool-cases (is_expired now t)) [
    | inl e ↦ rw e (omega (arith, children-expired ts, expire-failed t e))
    | inr e ↦ rw e (omega (arith, children-expired ts))
  ]

expire-parent : (now : ℕ) (t : Task) → (expire_task now t).operation_id ≡ t.operation_id
unfolding expire_task
expire-parent now t = refl

IsOwed-expired :
    (now : ℕ) (tasks : List Task) (o : Operation)
    → IsOwed nothing nothing tasks o
    → IsOwed nothing
        (owed_rows (expired_rows now tasks))
        (update_where (is_expired now) (expire_task now) tasks)
        o
unfolding children
IsOwed-expired now tasks o h = record {
  named = h.named;
  completed_exact = omega (
    arith,
    h.completed_exact,
    count_where-update_where (child o.id is_completed) (is_expired now) (expire_task now) tasks
        (expire-completed now o.id),
  );
  failed_exact = omega (arith, h.failed_exact, children-expired now o.id tasks);
  drained = λ t. omega (
    arith,
    h.drained t,
    count_where-update_where_le (child o.id is_active) (is_expired now) (expire_task now) tasks
        (expire-active now o.id),
  );
}

AllOwed-abandon :
    (c f : String → ℕ) (now : ℕ) (rows : List Task) (db : Db)
    → AllOwed c f db
    → Ensures (AllOwed c f) (abandon_attempts now rows db)
unfolding abandon_attempts
AllOwed-abandon c f now [] db h = Ensures-ok db h
AllOwed-abandon c f now (t ∷ ts) db h =
    Ensures-then _ _ (AllOwed-close c f (open_attempt t.id t.attempt_count) (abandonment now) db h)
      λ db1 h1. AllOwed-abandon c f now ts db1 h1

IsSettled-settle_expired :
    (clock now : ℕ) (rows : List Task) (db : Db)
    → AllOwed nothing (owed_rows rows) db
    → Ensures IsSettled (settle_expired clock now rows db)
unfolding settle_expired
IsSettled-settle_expired clock now [] db h = Ensures-ok db h
IsSettled-settle_expired clock now (t ∷ ts) db h =
    Ensures-then _ _
      (AllOwed-failed nothing (owed_rows ts) clock now t db (
        AllOwed-map db
          (λ o k. IsOwed-cong db.tasks o (sym (plus-zero nothing t.operation_id o.id)) refl k) h))
      λ db1 h1. IsSettled-settle_expired clock now ts db1 h1

pub IsSettled-recover :
    (clock : ℕ) (at : Option ℕ) (db : Db)
    → IsSettled db
    → Ensures (Next IsSettled) (recover_expired_background_task_leases clock at db)
unfolding recover_expired_background_task_leases
IsSettled-recover clock at db h =
    let now : ℕ = normalize_work_time clock at in
    Ensures-then _ _
      (AllOwed-abandon nothing _ _ _ _ (record {
        rows = All-imp _ _ db.operations (λ o k. IsOwed-expired _ db.tasks o k) h.rows;
        anchored =
            IsAnchored-tasks (is_expired now) (expire_task now) db.operations db.tasks
              (expire-parent now) h.anchored;
      }))
      λ db1 h1.
        Ensures-then _ _ (IsSettled-settle_expired clock _ _ db1 h1) λ db2 h2. Ensures-ok _ h2
