-- ===== src/Work/Progress/Attach.antt =====
-- Creating operations, and the statements that touch neither a status nor a counter, keep every
-- operation settled.
use gooru.Prelude.{
  ℕ, String, ◌==◌, ◌≡◌, refl, Bool, true, false, Option, none, some, List, [], ◌∷◌, ◌++◌, All-imp,
  All-append, inl, inr, arith, Bool-cases, update_where, count_where, ltb, exists_where, find_where,
  Updated,
}
use gooru.Prelude.Int.{ℤ}
use gooru.Prelude.Rows.{OnSome, All-update_where, count_where-update_where, exists_where-append}
use gooru.Work.Schema.{
  pending, is_completed, is_failed, is_active, Operation, Task, Db, Status, work_time_value,
}
use gooru.Work.Result.{Ensures, Ensures-ok, Ensures-err, Ensures-bind, Ensures-then, Ensures-guard}
use gooru.Work.Operations.{child, children, selects, any_operation}
use gooru.Work.Admission.{
  NewOperation, pending_operation, pending_of_kind, insert_operation, magnitude,
  create_background_operation, admit_operation, create_background_operation_with_pending_limit,
  is_unclaimed, claim_background_operation_producer,
}
use gooru.Work.Tasks.{NewTask, postpone_pending_background_task, postponed, alone, Enqueued}
use gooru.Work.Attach.{
  active_operation, active_task, checked_payload, set_background_operation_checkpoint,
  set_background_task_checkpoint, set_background_task_result, set_background_operation_visible,
  check_reservation, require_created, attach_background_task_and_reveal_operation,
}
use gooru.Work.Progress.{
  IsOwed, IsChange, nothing, IsAnchored, IsAnchored-operations, IsAnchored-tasks, has_id, links,
  IsSettled,
}
use gooru.Work.Progress.Insert.{AllOwed-enqueue}
use gooru.Work.Progress.Finish.{Next, IsSettled-update_one}

-- ---- creation

-- No child of an operation that does not exist.
children-zero :
    (id : String) (test : Status → Bool) (tasks : List Task)
    → count_where (links id) tasks ≡ 0
    → children id test tasks ≡ 0
unfolding children count_where
children-zero id test [] h = refl
children-zero id test (t ∷ ts) h = ground (arith, children-zero id test ts)

links-append :
    (o : Operation) (ops : List Operation) (tasks : List Task)
    → IsAnchored ops tasks
    → IsAnchored (ops ++ o ∷ []) tasks
links-append o ops tasks h id e =
    h id (ground (arith, exists_where-append (has_id id) ops (o ∷ [])))

-- An operation with zero counters is settled, as no task can name an id that is new.
IsSettled-insert :
    (o : Operation) (db : Db)
    → (o.id == "") ≡ false
    → (o.progress_completed ≡ 0) × (o.progress_failed ≡ 0) × (o.status ≡ pending)
    → IsSettled db
    → Ensures IsSettled (insert_operation o db)
unfolding insert_operation
IsSettled-insert o db named z h = elim (Bool-cases (exists_where (has_id o.id) db.operations)) [
  | inl e ↦ rw e (Ensures-err _)
  | inr e ↦
      let free : count_where (links o.id) db.tasks ≡ 0 = h.anchored o.id e in
      let new : IsOwed nothing nothing db.tasks o = record {
        named = named;
        completed_exact = omega (arith, z.0, children-zero o.id is_completed db.tasks free);
        failed_exact = omega (arith, z.1, children-zero o.id is_failed db.tasks free);
        drained = λ t. children-zero o.id is_active db.tasks free;
      } in
      rw e (
        Ensures-ok _ (record {
          rows = All-append _ db.operations (o ∷ []) h.rows (new, tt);
          anchored = links-append o db.operations db.tasks h.anchored;
        }))
]

pub IsSettled-create :
    (clock : ℕ) (op : NewOperation) (db : Db)
    → IsSettled db
    → Ensures IsSettled (create_background_operation clock op db)
unfolding create_background_operation
IsSettled-create clock op db h = Ensures-guard _ _ _ λ named. Ensures-guard _ _ _ λ _.
    Ensures-guard _ _ _
      λ _. IsSettled-insert (pending_operation clock op) db named (refl, refl, refl) h

pub IsSettled-admit :
    (clock : ℕ) (op : NewOperation) (n : ℤ) (db : Db)
    → IsSettled db
    → Ensures (Next IsSettled) (create_background_operation_with_pending_limit clock op n db)
unfolding create_background_operation_with_pending_limit admit_operation
IsSettled-admit clock op n db h = Ensures-guard _ _ _ λ named. Ensures-guard _ _ _ λ _.
    Ensures-guard _ _ _ λ _. Ensures-guard _ _ _ λ _.
      elim (Bool-cases (ltb (count_where (pending_of_kind op.kind) db.operations) (magnitude n))) [
        | inl e ↦ rw e (
            Ensures-then _ _
              (IsSettled-insert
                (record (pending_operation clock op) { created_at = work_time_value clock }) db
                named (refl, refl, refl) h)
              λ db1 h1. Ensures-ok _ h1)
        | inr e ↦ rw e (Ensures-ok _ h)
      ]

-- ---- statements that touch neither a status nor a counter

-- An UPDATE of operations that keeps what the invariant reads.
record IsQuiet (g : Operation → Operation) : Type 0 where
  id : (o : Operation) → (g o).id ≡ o.id
  status : (o : Operation) → (g o).status ≡ o.status
  completed : (o : Operation) → (g o).progress_completed ≡ o.progress_completed
  failed : (o : Operation) → (g o).progress_failed ≡ o.progress_failed

IsSettled-operations :
    (p : Operation → Bool) (g : Operation → Operation) (db : Db)
    → IsQuiet g
    → IsSettled db
    → IsSettled (record db { operations = update_where p g db.operations })
IsSettled-operations p g db q h = record {
  rows =
      All-update_where _ _ p g db.operations
        (λ o k s. record {
          named = rw (q.id o) k.named;
          completed_exact = rw (q.id o, q.completed o) k.completed_exact;
          failed_exact = rw (q.id o, q.failed o) k.failed_exact;
          drained = rw (q.id o, q.status o) k.drained;
        })
        (λ o k s. k) h.rows;
  anchored = IsAnchored-operations p g db.operations db.tasks q.id h.anchored;
}

-- An UPDATE of tasks that keeps their status and their operation.
IsSettled-tasks :
    (p : Task → Bool) (g : Task → Task) (db : Db)
    → ((t : Task) → (g t).operation_id ≡ t.operation_id)
    → ((t : Task) → (g t).status ≡ t.status)
    → IsSettled db
    → IsSettled (record db { tasks = update_where p g db.tasks })
IsSettled-tasks p g db l s h = record {
  rows =
      All-imp _ _ db.operations
        (λ o k. record {
          named = k.named;
          completed_exact = rw (same o.id is_completed) k.completed_exact;
          failed_exact = rw (same o.id is_failed) k.failed_exact;
          drained = rw (same o.id is_active) k.drained;
        })
        h.rows;
  anchored = IsAnchored-tasks p g db.operations db.tasks l h.anchored;
}
  where
    same :
        (id : String) (test : Status → Bool)
        → children id test (update_where p g db.tasks) ≡ children id test db.tasks
    same id test =
        unfold children in
        count_where-update_where (child id test) p g db.tasks (λ t e. rw (l t, s t))

pub IsSettled-claim_producer :
    (id : String) (db : Db)
    → IsSettled db
    → Ensures (Next IsSettled) (claim_background_operation_producer id db)
unfolding claim_background_operation_producer
IsSettled-claim_producer id db h = Ensures-guard _ _ _ λ _. Ensures-ok _ (
    IsSettled-operations (selects id (is_unclaimed db)) _ db
      (record { id = λ o. refl; status = λ o. refl; completed = λ o. refl; failed = λ o. refl }) h)

pub IsSettled-checkpoint :
    (valid : String → Bool) (id json : String) (db : Db)
    → IsSettled db
    → Ensures IsSettled (set_background_operation_checkpoint valid id json db)
unfolding set_background_operation_checkpoint
IsSettled-checkpoint valid id json db h = Ensures-guard _ _ _ λ _.
    Ensures-bind (checked_payload valid json) _ λ _ _. Ensures-guard _ _ _ λ _. Ensures-ok _ (
      IsSettled-operations (selects id active_operation) _ db
        (record { id = λ o. refl; status = λ o. refl; completed = λ o. refl; failed = λ o. refl })
        h)

pub IsSettled-task_checkpoint :
    (valid : String → Bool) (id json : String) (db : Db)
    → IsSettled db
    → Ensures IsSettled (set_background_task_checkpoint valid id json db)
unfolding set_background_task_checkpoint
IsSettled-task_checkpoint valid id json db h = Ensures-guard _ _ _ λ _.
    Ensures-bind (checked_payload valid json) _ λ _ _.
      Ensures-guard _ _ _
        λ _. Ensures-ok _ (IsSettled-tasks (active_task id) _ db (λ t. refl) (λ t. refl) h)

pub IsSettled-task_result :
    (valid : String → Bool) (id json : String) (db : Db)
    → IsSettled db
    → Ensures IsSettled (set_background_task_result valid id json db)
unfolding set_background_task_result
IsSettled-task_result valid id json db h = Ensures-guard _ _ _ λ _.
    Ensures-bind (checked_payload valid json) _ λ _ _.
      Ensures-guard _ _ _
        λ _. Ensures-ok _ (IsSettled-tasks (active_task id) _ db (λ t. refl) (λ t. refl) h)

pub IsSettled-visible :
    (id : String) (visible : Bool) (db : Db)
    → IsSettled db
    → Ensures IsSettled (set_background_operation_visible id visible db)
unfolding set_background_operation_visible
IsSettled-visible id visible db h = Ensures-guard _ _ _ λ _. Ensures-ok _ (
    IsSettled-operations (selects id any_operation) _ db
      (record { id = λ o. refl; status = λ o. refl; completed = λ o. refl; failed = λ o. refl }) h)

IsSettled-require : (e : Enqueued) → IsSettled e.db → Ensures IsSettled (require_created e)
IsSettled-require e h = elim (Bool-cases e.created) [
  | inl b ↦ rw b (Ensures-ok _ h)
  | inr b ↦ rw b (Ensures-err _)
]

pub IsSettled-attach :
    (clock : ℕ) (valid : String → Bool) (id json : String) (task : NewTask) (db : Db)
    → IsSettled db
    → Ensures IsSettled (attach_background_task_and_reveal_operation clock valid id json task db)
unfolding attach_background_task_and_reveal_operation
IsSettled-attach clock valid id json task db h = Ensures-guard _ _ _ λ _.
    Ensures-then _ _ (IsSettled-checkpoint valid id json db h) λ db1 h1.
      Ensures-bind (check_reservation db1 (find_where (selects id any_operation) db1.operations)) _
        λ _ _.
          Ensures-then _ _
            (AllOwed-enqueue nothing nothing alone (λ n d k. k) clock
              (record task { operation_id = id }) db1 h1)
            λ e k.
              Ensures-then _ _ (IsSettled-require e k) λ db2 h2. IsSettled-visible id true db2 h2

IsSettled-postponed :
    (db : Db) (o : Option (Updated Task))
    → OnSome (λ u. IsSettled (record db { tasks = u.rows })) o
    → IsSettled db
    → Ensures (Next IsSettled) (postponed db o)
IsSettled-postponed db none h s = Ensures-ok _ s
IsSettled-postponed db (some u) h s = Ensures-ok _ h

IsChange-postpone : (at : ℕ) (t : Task) → IsChange 0 0 t (record t { available_at = at })
IsChange-postpone at t = ground arith

pub IsSettled-postpone :
    (id : String) (at : ℕ) (db : Db)
    → IsSettled db
    → Ensures (Next IsSettled) (postpone_pending_background_task id at db)
unfolding postpone_pending_background_task
IsSettled-postpone id at db h = Ensures-guard _ _ _ λ _.
    IsSettled-postponed db _
      (IsSettled-update_one _ _ db (λ t e. IsChange-postpone (work_time_value at) t) h) h
