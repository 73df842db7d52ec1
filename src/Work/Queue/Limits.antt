-- ===== src/Work/Queue/Limits.antt =====
-- The pending limit of `createBackgroundOperationWithPendingLimit`.
use gooru.Prelude.{
  ℕ, ◌+◌, ◌≤◌, String, ◌==◌, ◌≡◌, refl, Bool, true, false, List, [], ◌∷◌, ◌++◌, inl, inr, arith,
  Bool-cases, count_where, exists_where, ltb, eq_refl,
}
use gooru.Prelude.Int.{ℤ}
use gooru.Prelude.Rows.{count_where-append}
use gooru.Work.Schema.{Operation, Db, work_time_value, pending}
use gooru.Work.Result.{Ensures, Ensures-ok, Ensures-err, Ensures-guard, Ensures-then}
use gooru.Work.Admission.{
  NewOperation, pending_operation, pending_of_kind, insert_operation, admit_operation, magnitude,
  create_background_operation_with_pending_limit,
}

-- the number of pending operations of a kind
abbrev pub pending_count : String → Db → ℕ
pending_count kind db = count_where (pending_of_kind kind) db.operations

-- An admission adds exactly one pending operation of its kind, below the limit; a refusal leaves
-- the tables as they were, with the limit reached.
abbrev pub IsAdmission : String → ℕ → Db → Bool × Db → Type 0
IsAdmission kind n db (true, r) =
    (pending_count kind r ≡ pending_count kind db + 1) × (pending_count kind r ≤ n)
IsAdmission kind n db (false, r) = (r ≡ db) × (n ≤ pending_count kind db)

inserted :
    (o : Operation) (db : Db)
    → o.status ≡ pending
    → Ensures (λ r. pending_count o.kind r ≡ pending_count o.kind db + 1) (insert_operation o db)
unfolding insert_operation
inserted o db new = elim (Bool-cases (exists_where (λ r. r.id == o.id) db.operations)) [
  | inl e ↦ rw e (Ensures-err _)
  | inr e ↦ rw e (Ensures-ok _ (count-append o db.operations new))
]
  where
    count-append :
        (o : Operation) (ops : List Operation)
        → o.status ≡ pending
        → count_where (pending_of_kind o.kind) (ops ++ o ∷ [])
          ≡ count_where (pending_of_kind o.kind) ops + 1
    count-append o ops new =
        rw (count_where-append (pending_of_kind o.kind) ops (o ∷ []))
          (unfold count_where in rw (eq_refl o.kind, new))

-- A successful call creates its operation exactly when fewer than the limit are pending: it then
-- adds one pending operation of the kind and the limit still holds; otherwise nothing changes.
pub pending_limit-IsAdmission :
    (clock : ℕ) (op : NewOperation) (max_pending : ℤ) (db : Db)
    → Ensures
        (IsAdmission op.kind (magnitude max_pending) db)
        (create_background_operation_with_pending_limit clock op max_pending db)
unfolding create_background_operation_with_pending_limit admit_operation
pending_limit-IsAdmission clock op max_pending db = Ensures-guard _ _ _ λ _.
    Ensures-guard _ _ _ λ _. Ensures-guard _ _ _ λ _. Ensures-guard _ _ _ λ _.
      elim (Bool-cases (ltb (pending_count op.kind db) (magnitude max_pending))) [
        | inl e ↦ rw e (
            Ensures-then _ _
              (inserted (record (pending_operation clock op) { created_at = work_time_value clock })
                db refl)
              λ db1 h. Ensures-ok _ (h, ground arith))
        | inr e ↦ rw e (Ensures-ok _ (refl, ground arith))
      ]
