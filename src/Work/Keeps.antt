-- ===== src/Work/Keeps.antt =====
-- What the methods of the queue do to the list of tasks, for any property of that list that
-- survives a new pending task: the enqueues inside a transaction, the statements on operations and
-- attempts, and the ends of a failed attempt.
pub mod Steps
pub mod Serve
use gooru.Prelude.{
  ℕ, zero, suc, eqb, ◌≤◌, String, ◌==◌, ◌≡◌, refl, Bool, true, false, not, ◌&&◌, ◌||◌, Option, none,
  some, List, [], ◌∷◌, ◌++◌, inl, inr, arith, Bool-cases, count_where, exists_where, find_where,
  update_where,
}
use gooru.Prelude.Rows.{
  OnSome, count_where-eq-zero, count_where-append, count_where-update_where_zero, update_one-none,
  count_where_mono,
}
use gooru.Work.Schema.{
  Status, pending, is_running, is_failed, Cleanup, is_active, is_terminal, Operation, Task, Db,
  normalize_work_time,
}
use gooru.Work.Result.{
  Result, err, ◌>>=◌, fail_if, required, no_rows, lease_lost, Ensures, Ensures-ok, Ensures-err,
  Ensures-bind, Ensures-guard, Ensures-then, Ensures-required, Ensures-imp,
}
use gooru.Work.Operations.{
  any_operation, selects, after_status_update, update_operation, stays_active, settle_operation,
  record_background_operation_task_terminal, advance_progress,
}
use gooru.Work.Tasks.{
  NewTask, Enqueued, alone, insert_task, existing_or, enqueue_rounds, enqueue_background_task,
  pending_task, encode_background_task_cleanup, parent_canceled, parent_exists, has_key,
}
use gooru.Work.Claim.{holds_lease}
use gooru.Work.Finish.{
  open_attempt, close_one_attempt, after_attempt, after_failure, enqueue_new, enqueue_cleanup,
  enqueue_background_task_terminal_cleanup, complete_background_task,
}
use gooru.Work.Recover.{
  is_expired, expire_task, abandon_attempts, settle_expired, recover_expired_background_task_leases,
}

-- `P` survives a pending row with an id that is new and a dedupe key that no active row has.
abbrev pub Grows : (List Task → Type 0) → Type 0
Grows P =
    (ts : List Task) (t : Task)
    → t.status ≡ pending
    → count_where (has_key t.dedupe_key) ts ≡ 0
    → exists_where (λ r. r.id == t.id) ts ≡ false
    → P ts
    → P (ts ++ t ∷ [])

module _ (P : List Task → Type 0) where
  abbrev pub Has : Db → Type 0
  Has db = P db.tasks

  pub keep-update_operation :
      (id : String) (guard : Operation → Bool) (g : Operation → Operation) (db : Db)
      → Has db
      → OnSome Has (update_operation id guard g db)
  unfolding update_operation
  keep-update_operation id guard g db h = go (find_where (selects id guard) db.operations)
    where
      updated : Db
      updated = record db { operations = update_where (selects id guard) g db.operations }

      go :
          (found : Option Operation)
          → OnSome Has (elim found [
            | none ↦ none
            | some old ↦ some (after_status_update old (g old) updated)
          ])
      go none = tt
      go (some old) =
          unfold after_status_update in
          elim (Bool-cases (is_active old.status && is_terminal (g old).status)) [
            | inl e ↦ rw e h
            | inr e ↦ rw e h
          ]

  pub keep-record :
      (parent : Option String) (now c f : ℕ) (db : Db)
      → Has db
      → Ensures Has (record_background_operation_task_terminal parent now c f db)
  unfolding record_background_operation_task_terminal settle_operation
  keep-record none now c f db h = Ensures-ok db h
  keep-record (some id) now c f db h = elim (Bool-cases (id == "")) [
    | inl e ↦ rw e (Ensures-ok db h)
    | inr e ↦ rw e (
        Ensures-bind (required no_rows (find_where (selects id any_operation) db.operations)) _
          (λ o k. settle o _ h))
  ]
    where
      settle :
          (o : Operation) (d : Db)
          → Has d
          → Ensures Has (settle_operation (advance_progress c f o) now d)
      settle o d k = elim (Bool-cases (stays_active (advance_progress c f o) d)) [
        | inl e ↦ rw e (Ensures-ok d k)
        | inr e ↦ rw e (Ensures-required no_rows _ (keep-update_operation _ _ _ d k))
      ]

  module _ (grow : Grows P) where
    pub keep-insert :
        (t : Task) (db : Db)
        → t.status ≡ pending
        → Has db
        → Ensures (λ r. Has r.1) (insert_task t db)
    unfolding insert_task
    keep-insert t db new h = elim (Bool-cases (parent_canceled t.operation_id db.operations)) [
      | inl e ↦ rw e (Ensures-err _)
      | inr e ↦ rw e (elim (Bool-cases (exists_where (has_key t.dedupe_key) db.tasks)) [
        | inl k ↦ rw k (Ensures-ok _ h)
        | inr k ↦
            rw k
              (elim (Bool-cases (
                exists_where (λ r. r.id == t.id) db.tasks
                || not (parent_exists t.operation_id db.operations))) [
                  | inl d ↦ rw d (Ensures-err _)
                  | inr d ↦ rw d (
                      Ensures-ok _ (
                        grow db.tasks t new (count_where-eq-zero (has_key t.dedupe_key) db.tasks k)
                          (ground arith) h))
                ])
      ])
    ]

    pub keep-existing :
        (found : Option Task) (db : Db) (again : Result Enqueued)
        → Has db
        → Ensures (λ e. Has e.db) again
        → Ensures (λ e. Has e.db) (existing_or found db again)
    keep-existing none db again h k = k
    keep-existing (some t) db again h k = Ensures-ok _ h

    pub keep-rounds :
        (n : ℕ) (t : Task) (db : Db)
        → t.status ≡ pending
        → Has db
        → Ensures (λ e. Has e.db) (enqueue_rounds n alone t db)
    unfolding enqueue_rounds
    keep-rounds zero t db new h = Ensures-err _
    keep-rounds (suc n) t db new h =
        Ensures-then (insert_task t db) _ (keep-insert t db new h) λ r k. elim (Bool-cases r.0) [
          | inl e ↦ rw e (Ensures-ok _ k)
          | inr e ↦ rw e (keep-existing _ r.1 _ k (keep-rounds n t r.1 new k))
        ]

    pub keep-enqueue :
        (clock : ℕ) (task : NewTask) (db : Db)
        → Has db
        → Ensures (λ e. Has e.db) (enqueue_background_task clock alone task db)
    unfolding enqueue_background_task
    keep-enqueue clock task db h = Ensures-guard _ _ _ λ _. Ensures-guard _ _ _ λ _.
        Ensures-guard _ _ _ λ _. Ensures-guard _ _ _ λ _.
          Ensures-bind (encode_background_task_cleanup task.terminal_failure_cleanup) _
            λ cleanup _. keep-rounds 8 (pending_task clock task cleanup) db refl h

    pub keep-enqueue_new :
        (clock : ℕ) (task : NewTask) (db : Db) → Has db → Ensures Has (enqueue_new clock task db)
    unfolding enqueue_new
    keep-enqueue_new clock task db h = Ensures-then _ _ (keep-enqueue clock task db h) λ e k.
        elim (Bool-cases e.created) [ inl b ↦ rw b (Ensures-ok _ k) | inr b ↦ rw b (Ensures-err _) ]

    pub keep-cleanup :
        (clock : ℕ) (id : String) (at : ℕ) (db : Db) (o : Option Cleanup)
        → Has db
        → Ensures Has (enqueue_cleanup clock id at db o)
    keep-cleanup clock id at db none h = Ensures-ok db h
    keep-cleanup clock id at db (some c) h = keep-enqueue_new clock _ db h

    pub keep-after_attempt :
        (clock now : ℕ) (t : Task) (db : Db) → Has db → Ensures Has (after_attempt clock now t db)
    unfolding after_attempt after_failure enqueue_background_task_terminal_cleanup
    keep-after_attempt clock now t db h = elim (Bool-cases (is_failed t.status)) [
      | inl e ↦ rw e (
          Ensures-then _ _ (keep-record t.operation_id now 0 1 db h) λ db1 h1.
            Ensures-bind (required no_rows (find_where (λ r. r.id == t.id) db1.tasks)) _
              λ r k. keep-cleanup clock t.id now db1 r.terminal_cleanup h1)
      | inr e ↦ rw e (Ensures-ok db h)
    ]

    pub keep-settle_expired :
        (clock now : ℕ) (rows : List Task) (db : Db)
        → Has db
        → Ensures Has (settle_expired clock now rows db)
    unfolding settle_expired
    keep-settle_expired clock now [] db h = Ensures-ok db h
    keep-settle_expired clock now (t ∷ ts) db h =
        Ensures-then _ _ (keep-after_attempt clock now t db h)
          λ db1 h1. keep-settle_expired clock now ts db1 h1

  pub keep-abandon :
      (now : ℕ) (rows : List Task) (db : Db) → Has db → Ensures Has (abandon_attempts now rows db)
  unfolding abandon_attempts close_one_attempt
  keep-abandon now [] db h = Ensures-ok db h
  keep-abandon now (t ∷ ts) db h =
      Ensures-then {P = Has} _ _
        (elim (Bool-cases (eqb (count_where (open_attempt t.id t.attempt_count) db.attempts) 1)) [
          | inl e ↦ rw e (Ensures-ok _ h)
          | inr e ↦ rw e (Ensures-err _)
        ])
        λ db1 h1. keep-abandon now ts db1 h1
