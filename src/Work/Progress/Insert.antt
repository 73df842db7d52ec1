-- ===== src/Work/Progress/Insert.antt =====
-- A new task under an operation: the triggers of migrations 024 and 034 keep what is owed.
use mathlib.Core.Path.{subst}
use gooru.Prelude.{
  ℕ, zero, suc, ◌+◌, ◌*◌, String, ◌==◌, ◌≡◌, refl, sym, ◌∙◌, Bool, true, false, ◌&&◌, ◌||◌, not,
  Option, none, some, List, [], ◌∷◌, ◌++◌, All, All-imp, inl, inr, arith, bit, Bool-cases,
  exists_where, find_where, count_where, eq_iff,
}
use gooru.Prelude.Rows.{All-update_unless, count_where-append, exists_where-update_where}
use gooru.Work.Schema.{
  Status, pending, is_active, is_completed, is_failed, is_canceled, Operation, Task, Db, belongs,
}
use gooru.Work.Result.{
  Result, Ensures, Ensures-ok, Ensures-err, Ensures-bind, Ensures-then, Ensures-guard,
}
use gooru.Work.Operations.{child, children, selects, any_operation}
use gooru.Work.Tasks.{
  NewTask, Enqueued, parent_canceled, parent_exists, attach_child, after_task_insert, has_key,
  insert_task, existing_or, enqueue_rounds, enqueue_background_task, pending_task,
  encode_background_task_cleanup,
}
use gooru.Work.Progress.{IsOwed, AllOwed, IsAnchored, has_id, links}

children-append :
    (id : String) (test : Status → Bool) (tasks : List Task) (t : Task)
    → children id test (tasks ++ t ∷ []) ≡ children id test tasks + bit (child id test t)
unfolding children count_where
children-append id test tasks t = omega (arith, count_where-append (child id test) tasks (t ∷ []))

child-new :
    (id : String) (test : Status → Bool) (tasks : List Task) (t : Task)
    → t.status ≡ pending
    → test pending ≡ false
    → children id test (tasks ++ t ∷ []) ≡ children id test tasks
child-new id test tasks t e h = rw (children-append id test tasks t, e, h) (ground arith)

module _ (c f : String → ℕ) (tasks : List Task) (t : Task) (is_new : t.status ≡ pending) where
  IsOwed-attach :
      (o : Operation)
      → IsOwed c f tasks o
      → is_canceled o.status ≡ false
      → IsOwed c f (tasks ++ t ∷ []) (attach_child o)
  unfolding attach_child
  IsOwed-attach o h e = record {
    named = h.named;
    completed_exact = rw (child-new o.id is_completed tasks t is_new refl) h.completed_exact;
    failed_exact = rw (child-new o.id is_failed tasks t is_new refl) h.failed_exact;
    drained = λ k. ground arith;
  }

  IsOwed-beside :
      (o : Operation)
      → IsOwed c f tasks o
      → belongs o.id t.operation_id ≡ false
      → IsOwed c f (tasks ++ t ∷ []) o
  IsOwed-beside o h e = record {
    named = h.named;
    completed_exact = rw (child-new o.id is_completed tasks t is_new refl) h.completed_exact;
    failed_exact = rw (child-new o.id is_failed tasks t is_new refl) h.failed_exact;
    drained = λ k. ground (arith, h.drained k, children-append o.id is_active tasks t);
  }

  after_insert :
      (parent : Option String) (ops : List Operation)
      → t.operation_id ≡ parent
      → parent_canceled parent ops ≡ false
      → All (IsOwed c f tasks) ops
      → All (IsOwed c f (tasks ++ t ∷ [])) (after_task_insert parent ops)
  unfolding parent_canceled after_task_insert
  after_insert none ops p e h = All-imp _ _ ops (λ o k. IsOwed-beside o k (rw p)) h
  after_insert (some id) ops p e h =
      All-update_unless (IsOwed c f tasks) (IsOwed c f (tasks ++ t ∷ []))
        (λ o. o.id == id && is_canceled o.status) (selects id any_operation) attach_child ops e
        (λ o k n s. IsOwed-attach o k (ground arith))
        (λ o k n s. IsOwed-beside o k (rw p (ground arith))) h

-- The foreign key holds of the new task too.
linked_parent :
    (ops : List Operation) (parent : Option String) (id : String)
    → parent_exists parent ops ≡ true
    → exists_where (has_id id) ops ≡ false
    → belongs id parent ≡ false
unfolding parent_exists
linked_parent ops none id k e = refl
linked_parent ops (some other) id k e = elim (Bool-cases (id == other)) [
  | inl s ↦ cc (k, subst (λ x. exists_where (has_id x) ops ≡ false) ((eq_iff id other).0 s) e)
  | inr n ↦ n
]

ids-after_task_insert :
    (parent : Option String) (ops : List Operation) (id : String)
    → exists_where (has_id id) (after_task_insert parent ops) ≡ exists_where (has_id id) ops
unfolding after_task_insert attach_child
ids-after_task_insert none ops id = refl
ids-after_task_insert (some other) ops id =
    exists_where-update_where (has_id id) (selects other any_operation) attach_child ops (λ o. refl)

IsAnchored-after_insert :
    (ops : List Operation) (tasks : List Task) (t : Task)
    → parent_exists t.operation_id ops ≡ true
    → IsAnchored ops tasks
    → IsAnchored (after_task_insert t.operation_id ops) (tasks ++ t ∷ [])
IsAnchored-after_insert ops tasks t k h id e =
    let free : exists_where (has_id id) ops ≡ false =
      sym (ids-after_task_insert t.operation_id ops id) ∙ e in
    rw (count_where-append (links id) tasks (t ∷ []), h id free)
      (unfold count_where in rw (linked_parent ops t.operation_id id k free))

-- The Boolean that says "inserted" is of no matter here.
abbrev pub Inserted : (Db → Type 0) → Bool × Db → Type 0
Inserted P r = P r.1

abbrev pub Queued : (Db → Type 0) → Enqueued → Type 0
Queued P e = P e.db

module _ (c f : String → ℕ) where
  pub AllOwed-insert_task :
      (t : Task) (db : Db)
      → t.status ≡ pending
      → AllOwed c f db
      → Ensures (Inserted (AllOwed c f)) (insert_task t db)
  unfolding insert_task
  AllOwed-insert_task t db new h =
      elim (Bool-cases (parent_canceled t.operation_id db.operations)) [
        | inl e ↦ rw e (Ensures-err _)
        | inr e ↦ rw e (elim (Bool-cases (exists_where (has_key t.dedupe_key) db.tasks)) [
          | inl k ↦ rw k (Ensures-ok _ h)
          | inr k ↦
              rw k
                (elim (Bool-cases (
                  exists_where (λ r. r.id == t.id) db.tasks
                  || not (parent_exists t.operation_id db.operations))) [
                    | inl d ↦ rw d (Ensures-err _)
                    | inr d ↦ rw d (
                        Ensures-ok _ (record {
                          rows =
                              after_insert c f db.tasks t new t.operation_id db.operations refl e
                                h.rows;
                          anchored =
                              IsAnchored-after_insert db.operations db.tasks t (ground arith)
                                h.anchored;
                        }))
                  ])
        ])
      ]

  AllOwed-existing_or :
      (found : Option Task) (db : Db) (again : Result Enqueued)
      → AllOwed c f db
      → Ensures (Queued (AllOwed c f)) again
      → Ensures (Queued (AllOwed c f)) (existing_or found db again)
  AllOwed-existing_or none db again h k = k
  AllOwed-existing_or (some t) db again h k = Ensures-ok _ h

  module _ (others : ℕ → Db → Db)
      (keep : (n : ℕ) (db : Db) → AllOwed c f db → AllOwed c f (others n db)) where
    AllOwed-rounds :
        (n : ℕ) (t : Task) (db : Db)
        → t.status ≡ pending
        → AllOwed c f db
        → Ensures (Queued (AllOwed c f)) (enqueue_rounds n others t db)
    unfolding enqueue_rounds
    AllOwed-rounds zero t db new h = Ensures-err _
    AllOwed-rounds (suc n) t db new h =
        Ensures-then (insert_task t db) _ (AllOwed-insert_task t db new h) (λ r k.
          elim (Bool-cases r.0) [
            | inl e ↦ rw e (Ensures-ok _ k)
            | inr e ↦
                let db2 = others (2 * n + 1) r.1 in
                let still : AllOwed c f db2 = keep (2 * n + 1) r.1 k in
                rw e (
                  AllOwed-existing_or (find_where (has_key t.dedupe_key) db2.tasks) db2 _ still
                    (AllOwed-rounds n t (others (2 * n) db2) new (keep (2 * n) db2 still)))
          ])

    -- An enqueue keeps what is owed, whatever other connections do that keep it.
    pub AllOwed-enqueue :
        (clock : ℕ) (task : NewTask) (db : Db)
        → AllOwed c f db
        → Ensures (Queued (AllOwed c f)) (enqueue_background_task clock others task db)
    unfolding enqueue_background_task
    AllOwed-enqueue clock task db h = Ensures-guard _ _ _ λ _. Ensures-guard _ _ _ λ _.
        Ensures-guard _ _ _ λ _. Ensures-guard _ _ _ λ _.
          Ensures-bind (encode_background_task_cleanup task.terminal_failure_cleanup) _
            λ cleanup _. AllOwed-rounds _ (pending_task clock task cleanup) db refl h
