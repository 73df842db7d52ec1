-- ===== src/Work/Queue/Dedupe.antt =====
-- The dedupe key of a task: `EnqueueBackgroundTask` inside a transaction.
use gooru.Prelude.{
  ℕ, suc, ◌<◌, String, ◌==◌, ◌≡◌, ◌≢◌, refl, ap, ◌∙◌, Bool, true, false, ◌||◌, not, Option, none,
  some, [], ◌∷◌, ◌++◌, inl, inr, arith, if◌then◌else◌, Bool-cases, count_where, exists_where,
  find_where, eq_refl,
}
use gooru.Prelude.Rows.{
  count_where-eq-zero, exists_where-pos, find_where-exists, find_where-selected,
}
use gooru.Work.Schema.{pending, Cleanup, Task, Db}
use gooru.Work.Result.{
  Error, Result, ok, err, error_of, ◌>>=◌, fail_if, Ensures, Ensures-ok, Ensures-err, Ensures-bind,
  Ensures-guard, Ensures-then, Ensures-imp, dedupe_state_kept_changing,
}
use gooru.Work.Tasks.{
  NewTask, Enqueued, alone, has_key, insert_task, existing_or, enqueue_rounds, parent_canceled,
  parent_exists, pending_task, encode_background_task_cleanup, enqueue_background_task,
}

-- what one INSERT does to the number of active tasks of its key
abbrev Counted : Task → Db → Bool × Db → Type 0
Counted t db (true, r) =
    (count_where (has_key t.dedupe_key) db.tasks ≡ 0) × (r.tasks ≡ db.tasks ++ t ∷ [])
Counted t db (false, r) = (0 < count_where (has_key t.dedupe_key) db.tasks) × (r ≡ db)

insert_task-Counted : (t : Task) (db : Db) → Ensures (Counted t db) (insert_task t db)
unfolding insert_task
insert_task-Counted t db = elim (Bool-cases (parent_canceled t.operation_id db.operations)) [
  | inl e ↦ rw e (Ensures-err _)
  | inr e ↦ rw e (elim (Bool-cases (exists_where (has_key t.dedupe_key) db.tasks)) [
    | inl k ↦ rw k (Ensures-ok _ (exists_where-pos (has_key t.dedupe_key) db.tasks k, refl))
    | inr k ↦
        rw k
          (elim (Bool-cases (
            exists_where (λ r. r.id == t.id) db.tasks
            || not (parent_exists t.operation_id db.operations))) [
              | inl d ↦ rw d (Ensures-err _)
              | inr d ↦
                  rw d (Ensures-ok _ (count_where-eq-zero (has_key t.dedupe_key) db.tasks k, refl))
            ])
  ])
]

insert_task-error : (t : Task) (db : Db) → insert_task t db ≢ err dedupe_state_kept_changing
unfolding insert_task
insert_task-error t db h = ground arith

-- One round is enough where no other connection writes in between.
abbrev pub IsDeduped : String → Db → Enqueued → Type 0
IsDeduped key db e =
    (e.created ≡ true
      → (count_where (has_key key) db.tasks ≡ 0)
        × (e.db.tasks ≡ db.tasks ++ e.task ∷ [])
        × (has_key key e.task ≡ true))
    × (e.created ≡ false
        → (e.db ≡ db)
          × (find_where (has_key key) db.tasks ≡ some e.task)
          × (has_key key e.task ≡ true))

abbrev Adds : Task → Db → Enqueued → Type 0
Adds t db e = IsDeduped t.dedupe_key db e × (e.created ≡ true → e.task ≡ t)

existing_or-Adds :
    (t : Task) (db : Db) (again : Result Enqueued)
    → 0 < count_where (has_key t.dedupe_key) db.tasks
    → Ensures (Adds t db) (existing_or (find_where (has_key t.dedupe_key) db.tasks) db again)
existing_or-Adds t db again h =
    let (x, found) = find_where-exists (has_key t.dedupe_key) db.tasks h in
    let selected = find_where-selected (has_key t.dedupe_key) db.tasks found in
    rw found (Ensures-ok _ (((λ c. cc), (λ c. (refl, found, selected))), (λ c. cc)))

rounds-Adds :
    (n : ℕ) (t : Task) (db : Db)
    → t.status ≡ pending
    → Ensures (Adds t db) (enqueue_rounds (suc n) alone t db)
unfolding enqueue_rounds
rounds-Adds n t db new =
    Ensures-then (insert_task t db) _ (insert_task-Counted t db) λ r k. go r.0 r.1 k
  where
    go :
        (inserted : Bool) (d : Db)
        → Counted t db (inserted, d)
        → Ensures (Adds t db) (
            if inserted
            then ok (record { task = t; created = true; db = d })
            else existing_or
                (find_where (has_key t.dedupe_key) d.tasks)
                d
                (enqueue_rounds n alone t d))
    go true d k =
        Ensures-ok _ (((λ c. (k.0, k.1, rw (eq_refl t.dedupe_key, new))), (λ c. cc)), (λ c. refl))
    go false d k = rw (k.1) (existing_or-Adds t db _ k.0)

-- Inside a transaction an enqueue either inserts its task, where no active task has the dedupe
-- key, and appends it as the one active task of that key; or it changes nothing and returns the
-- first task of the table that is active and has the key.
pub enqueue_dedupes :
    (clock : ℕ) (task : NewTask) (db : Db)
    → Ensures (IsDeduped task.dedupe_key db) (enqueue_background_task clock alone task db)
unfolding enqueue_background_task
enqueue_dedupes clock task db = Ensures-guard _ _ _ λ _. Ensures-guard _ _ _ λ _.
    Ensures-guard _ _ _ λ _. Ensures-guard _ _ _ λ _.
      Ensures-bind (encode_background_task_cleanup task.terminal_failure_cleanup) _ λ cleanup _.
        Ensures-imp _ (rounds-Adds 7 (pending_task clock task cleanup) db refl) (λ e h. h.0)

-- the row of a task that was created
abbrev pub IsCreated : ℕ → NewTask → Db → Enqueued → Type 0
IsCreated clock task db e =
    e.created ≡ true
    → (cleanup : Option Cleanup) × (e.db.tasks ≡ db.tasks ++ pending_task clock task cleanup ∷ [])

pub enqueue-IsCreated :
    (clock : ℕ) (task : NewTask) (db : Db)
    → Ensures (IsCreated clock task db) (enqueue_background_task clock alone task db)
unfolding enqueue_background_task
enqueue-IsCreated clock task db = Ensures-guard _ _ _ λ _. Ensures-guard _ _ _ λ _.
    Ensures-guard _ _ _ λ _. Ensures-guard _ _ _ λ _.
      Ensures-bind (encode_background_task_cleanup task.terminal_failure_cleanup) _ λ cleanup _.
        Ensures-imp _ (rounds-Adds 7 (pending_task clock task cleanup) db refl)
          (λ e h made. (cleanup, (h.0.0 made).1 ∙ ap (λ t. db.tasks ++ t ∷ []) (h.1 made)))

-- ---- the retries

bind-error {ℓ κ} :
    {A : Type ℓ} {B : Type κ} (e : Error) (m : Result A) (f : A → Result B)
    → m ≢ err e
    → ((a : A) → f a ≢ err e)
    → (m >>= f) ≢ err e
unfolding ◌>>=◌
bind-error e (ok a) f h k = k a
bind-error e (err x) f h k = λ p. h (ap err (ap (error_of e) p))

bind-error_at {ℓ κ} :
    {A : Type ℓ} {B : Type κ} (e : Error) (m : Result A) (f : A → Result B)
    → m ≢ err e
    → ((a : A) → m ≡ ok a → f a ≢ err e)
    → (m >>= f) ≢ err e
unfolding ◌>>=◌
bind-error_at e (ok a) f h k = k a refl
bind-error_at e (err x) f h k = λ p. h (ap err (ap (error_of e) p))

fail_if-error :
    (b : Bool) (e : Error)
    → e ≢ dedupe_state_kept_changing
    → fail_if b e ≢ err dedupe_state_kept_changing
unfolding fail_if
fail_if-error true e h = λ p. h (ap (error_of e) p)
fail_if-error false e h = λ p. cc

existing_or-error :
    (t : Task) (db : Db) (again : Result Enqueued)
    → 0 < count_where (has_key t.dedupe_key) db.tasks
    → existing_or (find_where (has_key t.dedupe_key) db.tasks) db again
      ≢ err dedupe_state_kept_changing
existing_or-error t db again h =
    let (x, found) = find_where-exists (has_key t.dedupe_key) db.tasks h in rw found (λ p. cc)

-- the body of one round, behind its INSERT
abbrev round : Task → Result Enqueued → Bool × Db → Result Enqueued
round t again (inserted, d) =
    if inserted
    then ok (record { task = t; created = true; db = d })
    else existing_or (find_where (has_key t.dedupe_key) d.tasks) d again

round-error :
    (t : Task) (db : Db) (again : Result Enqueued) (r : Bool × Db)
    → Counted t db r
    → round t again r ≢ err dedupe_state_kept_changing
round-error t db again (true, d) k = λ p. cc
round-error t db again (false, d) k = rw (k.1) (existing_or-error t db again k.0)

rounds-error :
    (n : ℕ) (t : Task) (db : Db)
    → enqueue_rounds (suc n) alone t db ≢ err dedupe_state_kept_changing
unfolding enqueue_rounds
rounds-error n t db =
    bind-error_at dedupe_state_kept_changing (insert_task t db) _ (insert_task-error t db)
      (λ r e. round-error t db _ r ((insert_task-Counted t db).at r e))

cleanup-error :
    (c : Option Cleanup) → encode_background_task_cleanup c ≢ err dedupe_state_kept_changing
unfolding encode_background_task_cleanup fail_if ◌>>=◌
cleanup-error none p = cc
cleanup-error (some c) p = ground arith

-- Inside a transaction the eight rounds of an enqueue are enough: it never gives up because the
-- active tasks kept changing.
pub enqueue_settles :
    (clock : ℕ) (task : NewTask) (db : Db)
    → enqueue_background_task clock alone task db ≢ err dedupe_state_kept_changing
unfolding enqueue_background_task
enqueue_settles clock task db = bind-error _ _ _ (fail_if-error _ _ (λ p. cc)) λ _.
    bind-error _ _ _ (fail_if-error _ _ (λ p. cc)) λ _.
      bind-error _ _ _ (fail_if-error _ _ (λ p. cc)) λ _.
        bind-error _ _ _ (fail_if-error _ _ (λ p. cc)) λ _.
          bind-error _ _ _ (cleanup-error task.terminal_failure_cleanup)
            λ cleanup. rounds-error 7 (pending_task clock task cleanup) db
