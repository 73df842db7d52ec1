-- ===== src/Work/Progress/Reconcile.antt =====
-- The progress of operations in startup reconciliation.
use mathlib.Core.Path.{subst}
use gooru.Prelude.{
  ℕ, String, eq_iff, ◌≡◌, refl, ap, sym, ◌∙◌, Bool, All, Bool-cases, inl, inr, true, false, Option,
  none, some, List, [], ◌∷◌, arith, count_where, exists_where,
}
use gooru.Prelude.Rows.{OnSome, OnSome-both}
use gooru.Work.Schema.{is_active, Operation, Task, Db, belongs}
use gooru.Work.Result.{Ensures, Ensures-ok, Ensures-guard}
use gooru.Work.Operations.{children, selects, any_operation, update_operation}
use gooru.Work.Keeps.{keep-update_operation}
use gooru.Work.Reconcile.{
  is_childless, selected_ids, interrupt, or_same, interrupt_ids,
  cancel_unattached_hidden_background_operations, cancel_unattached_background_operation_ids,
}
use gooru.Work.Progress.{IsOwed, nothing, IsSettled}
use gooru.Work.Progress.Settle.{IsOwed-release, IsAnchored-update_operation, All-update_operation}
use gooru.Work.Progress.Finish.{Next}

pub childless-idle :
    (id : String) (tasks : List Task)
    → exists_where (λ t. belongs id t.operation_id) tasks ≡ false
    → children id is_active tasks ≡ 0
unfolding children count_where exists_where
childless-idle id [] h = refl
childless-idle id (t ∷ ts) h = ground (arith, childless-idle id ts)

-- the operation has no active task
abbrev IsIdle : List Task → String → Type 0
IsIdle tasks id = children id is_active tasks ≡ 0

IsOwed-interrupt :
    (id : String) (at : ℕ) (tasks : List Task) (o : Operation)
    → IsIdle tasks id
    → selects id any_operation o ≡ true
    → IsOwed nothing nothing tasks o
    → IsOwed nothing nothing tasks (interrupt at o)
unfolding interrupt
IsOwed-interrupt id at tasks o idle s h = record {
  named = h.named;
  completed_exact = h.completed_exact;
  failed_exact = h.failed_exact;
  drained = λ t. ap (λ k. children k is_active tasks) ((eq_iff o.id id).0 (ground arith)) ∙ idle;
}

IsSettled-interrupt :
    (id : String) (at : ℕ) (db : Db)
    → IsIdle db.tasks id
    → IsSettled db
    → OnSome IsSettled (update_operation id any_operation (interrupt at) db)
unfolding interrupt
IsSettled-interrupt id at db idle h =
    OnSome-both (update_operation id any_operation (interrupt at) db)
      (λ r a b. record { rows = a; anchored = b })
      (All-update_operation (IsOwed nothing nothing) (IsOwed nothing nothing)
        (IsOwed-release nothing nothing) id any_operation (interrupt at) db
        (λ o s k. IsOwed-interrupt id at db.tasks o idle s k) (λ o k. k) h.rows)
      (IsAnchored-update_operation id any_operation (interrupt at) db (λ o. refl) h.anchored)

or_same-IsSettled :
    (db : Db) (o : Option Db) → IsSettled db → OnSome IsSettled o → IsSettled (or_same db o)
or_same-IsSettled db none h k = h
or_same-IsSettled db (some next) h k = k

-- the rows of an operation are written, and no task
or_same-tasks :
    (id : String) (at : ℕ) (db : Db)
    → (or_same db (update_operation id any_operation (interrupt at) db)).tasks ≡ db.tasks
or_same-tasks id at db =
    go (update_operation id any_operation (interrupt at) db)
      (keep-update_operation (λ ts. ts ≡ db.tasks) id any_operation (interrupt at) db refl)
  where
    go : (o : Option Db) → OnSome (λ r. r.tasks ≡ db.tasks) o → (or_same db o).tasks ≡ db.tasks
    go none h = refl
    go (some next) h = h

interrupt_ids-IsSettled :
    (at : ℕ) (ids : List String) (db : Db)
    → All (IsIdle db.tasks) ids
    → IsSettled db
    → IsSettled (interrupt_ids at ids db)
unfolding interrupt_ids
interrupt_ids-IsSettled at [] db idle h = h
interrupt_ids-IsSettled at (id ∷ ids) db idle h =
    interrupt_ids-IsSettled at ids _
      (subst (λ ts. All (IsIdle ts) ids) (sym (or_same-tasks id at db)) idle.1)
      (or_same-IsSettled db _ h (IsSettled-interrupt id at db idle.0 h))

-- What a WHERE clause selects is idle if each row that it selects is.
selected_ids-IsIdle :
    (p : Operation → Bool) (tasks : List Task) (os : List Operation)
    → ((o : Operation) → p o ≡ true → is_childless tasks o ≡ true)
    → All (IsIdle tasks) (selected_ids p os)
unfolding selected_ids is_childless
selected_ids-IsIdle p tasks [] k = tt
selected_ids-IsIdle p tasks (o ∷ os) k = elim (Bool-cases (p o)) [
  | inl e ↦
      rw e ((childless-idle o.id tasks (ground (arith, k o e))), selected_ids-IsIdle p tasks os k)
  | inr e ↦ rw e (selected_ids-IsIdle p tasks os k)
]

-- Both cancellations of operations without tasks at startup, with the releases of auxiliaries that
-- they set off, keep every operation settled: its counters are the numbers of its completed and
-- failed tasks, it has no active task once it has ended, and no task names a missing operation.
pub cancel_unattached-IsSettled :
    (trim : String → String) (clock : ℕ) (kind : String) (db : Db)
    → IsSettled db
    → Ensures (Next IsSettled) (cancel_unattached_hidden_background_operations trim clock kind db)
      × Ensures (Next IsSettled) (cancel_unattached_background_operation_ids trim clock kind db)
unfolding cancel_unattached_hidden_background_operations cancel_unattached_background_operation_ids
cancel_unattached-IsSettled trim clock kind db h = (
  Ensures-guard _ _ _ (λ _. Ensures-ok _ (
      interrupt_ids-IsSettled _ _ db
        (selected_ids-IsIdle _ db.tasks db.operations (λ o e. ground arith)) h)),
  Ensures-guard _ _ _ (λ _. Ensures-ok _ (
      interrupt_ids-IsSettled _ _ db
        (selected_ids-IsIdle _ db.tasks db.operations (λ o e. ground arith)) h)),
)
