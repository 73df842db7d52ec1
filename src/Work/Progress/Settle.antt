-- ===== src/Work/Progress/Settle.antt =====
-- The UPDATEs of an operation, with the trigger of migration 040, keep what is owed; and
-- `recordBackgroundOperationTaskTerminal` pays it.
use gooru.Prelude.{
  ℕ, String, ◌==◌, ◌≡◌, refl, Bool, true, false, ◌&&◌, Option, none, some, List, All, inl, inr,
  arith, Bool-cases, find_where, update_where, eq_iff,
}
use gooru.Prelude.Rows.{OnSome, OnSome-both, All-update_where, count_where-eq-zero}
use gooru.Work.Schema.{Status, is_active, is_terminal, Operation, Task, Db}
use gooru.Work.Result.{required, Ensures, Ensures-required, Ensures-bind, Ensures-ok, no_rows}
use gooru.Work.Operations.{
  child, children, has_child, is_drained_auxiliary, release_auxiliary, after_status_update, selects,
  update_operation, any_operation, start_operation, mark_background_operation_started,
  advance_progress, finish_operation, settle_operation, record_background_operation_task_terminal,
  stays_active,
}
use gooru.Work.Progress.{
  IsOwed, AllOwed, AllOwed-map, IsAnchored, IsAnchored-operations, plus, IsOwed-cong,
}

-- no child is active, as a count
pub idle :
    (id : String) (tasks : List Task)
    → has_child id is_active tasks ≡ false
    → children id is_active tasks ≡ 0
unfolding has_child children
idle id tasks h = count_where-eq-zero (child id is_active) tasks h

pub same_id : (a b : String) → (a == b && true) ≡ true → a ≡ b
same_id a b h = (eq_iff a b).0 (ground arith)

settles :
    (o : Operation) (db : Db)
    → stays_active o db ≡ false
    → has_child o.id is_active db.tasks ≡ false
unfolding stays_active
settles o db e = ground arith

-- The UPDATE of one operation, for any property of an operation beside the tasks that the trigger
-- keeps.
module _ (P Q : List Task → Operation → Type 0)
    (release : (db : Db) (producer : String) (at : Option ℕ) (o : Operation)
      → Q db.tasks o
      → is_drained_auxiliary db producer o ≡ true
      → Q db.tasks (release_auxiliary db at o)) where
  All-after_status_update :
      (old new : Operation) (db : Db)
      → All (Q db.tasks) db.operations
      → All (Q (after_status_update old new db).tasks) (after_status_update old new db).operations
  unfolding after_status_update
  All-after_status_update old new db h =
      elim (Bool-cases (is_active old.status && is_terminal new.status)) [
        | inl e ↦ rw e (
            All-update_where (Q db.tasks) (Q db.tasks) (is_drained_auxiliary db new.id)
              (release_auxiliary db new.finished_at) db.operations
              (λ o k t. release db new.id new.finished_at o k t) (λ o k t. k) h)
        | inr e ↦ rw e h
      ]

  pub All-update_operation :
      (id : String) (guard : Operation → Bool) (g : Operation → Operation) (db : Db)
      → ((o : Operation) → selects id guard o ≡ true → P db.tasks o → Q db.tasks (g o))
      → ((o : Operation) → P db.tasks o → Q db.tasks o)
      → All (P db.tasks) db.operations
      → OnSome (λ (r : Db). All (Q r.tasks) r.operations) (update_operation id guard g db)
  unfolding update_operation
  All-update_operation id guard g db k l h = go (find_where (selects id guard) db.operations)
    where
      updated : Db
      updated = record db { operations = update_where (selects id guard) g db.operations }

      go :
          (found : Option Operation)
          → OnSome
              (λ (r : Db). All (Q r.tasks) r.operations)
              (elim found [
                | none ↦ none
                | some old ↦ some (after_status_update old (g old) updated)
              ])
      go none = tt
      go (some old) = All-after_status_update old (g old) updated (
          All-update_where _ _ (selects id guard) g db.operations (λ o a t. k o t a)
            (λ o a t. l o a) h)

-- The same statement keeps the foreign key.
IsAnchored-after_status_update :
    (old new : Operation) (db : Db)
    → IsAnchored db.operations db.tasks
    → let r = after_status_update old new db in IsAnchored r.operations r.tasks
unfolding after_status_update
IsAnchored-after_status_update old new db h =
    elim (Bool-cases (is_active old.status && is_terminal new.status)) [
      | inl e ↦ rw e (
          IsAnchored-operations (is_drained_auxiliary db new.id)
            (release_auxiliary db new.finished_at) db.operations db.tasks
            (λ o. unfold release_auxiliary in refl) h)
      | inr e ↦ rw e h
    ]

pub IsAnchored-update_operation :
    (id : String) (guard : Operation → Bool) (g : Operation → Operation) (db : Db)
    → ((o : Operation) → (g o).id ≡ o.id)
    → IsAnchored db.operations db.tasks
    → OnSome (λ (r : Db). IsAnchored r.operations r.tasks) (update_operation id guard g db)
unfolding update_operation
IsAnchored-update_operation id guard g db k h = go (find_where (selects id guard) db.operations)
  where
    updated : Db
    updated = record db { operations = update_where (selects id guard) g db.operations }

    go :
        (found : Option Operation)
        → OnSome
            (λ (r : Db). IsAnchored r.operations r.tasks)
            (elim found [ none ↦ none | some old ↦ some (after_status_update old (g old) updated) ])
    go none = tt
    go (some old) =
        IsAnchored-after_status_update old (g old) updated
          (IsAnchored-operations (selects id guard) g db.operations db.tasks k h)

module _ (c f : String → ℕ) where
  pub IsOwed-release :
      (db : Db) (producer : String) (at : Option ℕ) (o : Operation)
      → IsOwed c f db.tasks o
      → is_drained_auxiliary db producer o ≡ true
      → IsOwed c f db.tasks (release_auxiliary db at o)
  unfolding release_auxiliary is_drained_auxiliary
  IsOwed-release db producer at o h e = record {
    named = h.named;
    completed_exact = h.completed_exact;
    failed_exact = h.failed_exact;
    drained = λ t. ground (arith, idle o.id db.tasks);
  }

  -- What an UPDATE keeps at each row that it selects, the statement with its trigger keeps.
  pub AllOwed-update_operation :
      (id : String) (guard : Operation → Bool) (g : Operation → Operation) (db : Db)
      → ((o : Operation)
          → selects id guard o ≡ true
          → IsOwed c f db.tasks o
          → IsOwed c f db.tasks (g o))
      → ((o : Operation) → (g o).id ≡ o.id)
      → AllOwed c f db
      → OnSome (AllOwed c f) (update_operation id guard g db)
  AllOwed-update_operation id guard g db k l h =
      OnSome-both (update_operation id guard g db) (λ r a b. record { rows = a; anchored = b })
        (All-update_operation (IsOwed c f) (IsOwed c f) IsOwed-release id guard g db k (λ o a. a)
          h.rows)
        (IsAnchored-update_operation id guard g db l h.anchored)

  IsOwed-start :
      (now : ℕ) (tasks : List Task) (o : Operation)
      → IsOwed c f tasks o
      → IsOwed c f tasks (start_operation now o)
  unfolding start_operation
  IsOwed-start now tasks o h = record {
    named = h.named;
    completed_exact = h.completed_exact;
    failed_exact = h.failed_exact;
    drained = λ t. cc;
  }

  pub AllOwed-start :
      (parent : Option String) (now : ℕ) (db : Db)
      → AllOwed c f db
      → Ensures (AllOwed c f) (mark_background_operation_started parent now db)
  unfolding mark_background_operation_started
  AllOwed-start none now db h = Ensures-ok db h
  AllOwed-start (some id) now db h = elim (Bool-cases (id == "")) [
    | inl e ↦ rw e (Ensures-ok db h)
    | inr e ↦ rw e (
        Ensures-required no_rows _ (
          AllOwed-update_operation id any_operation (start_operation now) db
            (λ o s k. IsOwed-start now db.tasks o k) (λ o. unfold start_operation in refl) h))
  ]

  -- An operation without active children may end.
  IsOwed-finish :
      (now : ℕ) (status : Status) (n : ℕ) (tasks : List Task) (o : Operation)
      → children o.id is_active tasks ≡ 0
      → IsOwed c f tasks o
      → IsOwed c f tasks (finish_operation now status n o)
  unfolding finish_operation
  IsOwed-finish now status n tasks o e h = record {
    named = h.named;
    completed_exact = h.completed_exact;
    failed_exact = h.failed_exact;
    drained = λ t. e;
  }

  -- `settle_operation` ends the operation only where no child is active.
  pub AllOwed-settle :
      (o : Operation) (now : ℕ) (db : Db)
      → AllOwed c f db
      → Ensures (AllOwed c f) (settle_operation o now db)
  unfolding settle_operation finish_operation
  AllOwed-settle o now db h = elim (Bool-cases (stays_active o db)) [
    | inl e ↦ rw e (Ensures-ok db h)
    | inr e ↦ rw e (
        Ensures-required no_rows _ (
          AllOwed-update_operation o.id any_operation _ db
            (λ r s k.
              IsOwed-finish now _ _ db.tasks r
                (rw (same_id r.id o.id s) (idle o.id db.tasks (settles o db e))) k)
            (λ o. refl) h))
  ]

-- the counters advance by what was owed to the operation
module _ (c f : String → ℕ) (parent : String) (dc df : ℕ) where
  IsOwed-advance :
      (tasks : List Task) (o : Operation)
      → IsOwed (plus c (some parent) dc) (plus f (some parent) df) tasks o
      → selects parent any_operation o ≡ true
      → IsOwed c f tasks (advance_progress dc df o)
  unfolding advance_progress
  IsOwed-advance tasks o h s = record {
    named = h.named;
    completed_exact = ground (arith, h.completed_exact);
    failed_exact = ground (arith, h.failed_exact);
    drained = h.drained;
  }

  IsOwed-other :
      (tasks : List Task) (o : Operation)
      → IsOwed (plus c (some parent) dc) (plus f (some parent) df) tasks o
      → selects parent any_operation o ≡ false
      → IsOwed c f tasks o
  IsOwed-other tasks o h s = IsOwed-cong tasks o (ground arith) (ground arith) h

  AllOwed-record_some :
      (now : ℕ) (db : Db)
      → AllOwed (plus c (some parent) dc) (plus f (some parent) df) db
      → Ensures (AllOwed c f) (record_background_operation_task_terminal (some parent) now dc df db)
  unfolding record_background_operation_task_terminal
  AllOwed-record_some now db h = elim (Bool-cases (parent == "")) [
    | inl e ↦
        rw e (
          Ensures-ok db (AllOwed-map db (λ o k. IsOwed-other db.tasks o k (unnamed o k.named e)) h))
    | inr e ↦ rw e (
        Ensures-bind (required no_rows (find_where (selects parent any_operation) db.operations)) _
          (λ o e. AllOwed-settle c f (advance_progress dc df o) now _ (record {
            rows =
                All-update_where _ _ (selects parent any_operation) (advance_progress dc df)
                  db.operations (λ r k s. IsOwed-advance db.tasks r k s)
                  (λ r k s. IsOwed-other db.tasks r k s) h.rows;
            anchored =
                IsAnchored-operations (selects parent any_operation) (advance_progress dc df)
                  db.operations db.tasks (λ r. unfold advance_progress in refl) h.anchored;
          })))
  ]
    where
      unnamed :
          (o : Operation)
          → (o.id == "") ≡ false
          → (parent == "") ≡ true
          → selects parent any_operation o ≡ false
      unnamed o n e = ground (arith, eq_iff o.id parent, eq_iff parent "", eq_iff o.id "")

-- `recordBackgroundOperationTaskTerminal` pays exactly what its deltas say.
pub AllOwed-record :
    (c f : String → ℕ) (parent : Option String) (now dc df : ℕ) (db : Db)
    → AllOwed (plus c parent dc) (plus f parent df) db
    → Ensures (AllOwed c f) (record_background_operation_task_terminal parent now dc df db)
unfolding record_background_operation_task_terminal
AllOwed-record c f none now dc df db h =
    Ensures-ok db (AllOwed-map db (λ o k. IsOwed-cong db.tasks o (omega arith) (omega arith) k) h)
AllOwed-record c f (some parent) now dc df db h = AllOwed-record_some c f parent dc df now db h
