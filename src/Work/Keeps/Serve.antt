-- ===== src/Work/Keeps/Serve.antt =====
-- Every request, for any property of the list of tasks that survives a new pending task and a
-- change of an active one.
use gooru.Prelude.{
  ℕ, String, ◌≡◌, refl, Bool, true, Option, none, some, List, [], ◌∷◌, inl, inr, arith, Bool-cases,
  find_where, update_where,
}
use gooru.Prelude.Rows.{OnSome}
use gooru.Work.Schema.{is_active, Task, Db, work_time_value}
use gooru.Work.Result.{
  Result, ok, err, ◌>>=◌, Ensures, Ensures-ok, Ensures-err, Ensures-bind, Ensures-guard,
  Ensures-then,
}
use gooru.Work.Operations.{any_operation, selects, child}
use gooru.Work.Admission.{
  create_background_operation, create_background_operation_with_pending_limit,
  claim_background_operation_producer,
}
use gooru.Work.Tasks.{NewTask, Enqueued, postpone_pending_background_task}
use gooru.Work.Claim.{holds_lease, renew_background_task_lease}
use gooru.Work.Finish.{
  complete_background_task, holds_attempt, complete_background_task_attempt, fail_background_task,
}
use gooru.Work.Recover.{cancel_background_task}
use gooru.Work.Stops.{
  revoke_children, enqueue_delayed, revoke_and_clean, stop_with, cancel_background_operation,
  fail_background_operation,
}
use gooru.Work.Attach.{
  checked_payload, set_background_operation_checkpoint, active_task, set_background_task_checkpoint,
  set_background_task_result, set_background_operation_visible, check_reservation, require_created,
  attach_background_task_and_reveal_operation,
}
use gooru.Work.Associations.Slots.{associate-frame}
use gooru.Work.Requests.{Request, handle, or_unchanged, serve}
use gooru.Work.Keeps.{Has, keep-update_operation, keep-enqueue, keep-enqueue_new}
use gooru.Work.Keeps.Steps.{
  Laws, changed, keep-insert_operation, keep-admit, keep-postponed, keep-claim, keep-renewed,
  keep-completion, keep-failure, keep-cancellation, keep-recover,
}

holds_lease-active :
    (id worker : String) (now : ℕ) (t : Task)
    → holds_lease id worker now t ≡ true
    → is_active t.status ≡ true
unfolding holds_lease
holds_lease-active id worker now t e = ground arith

holds_attempt-active :
    (id : String) (n now : ℕ) (t : Task)
    → holds_attempt id n now t ≡ true
    → is_active t.status ≡ true
unfolding holds_attempt
holds_attempt-active id n now t e = ground arith

second {ℓ} :
    {A : Type ℓ} {Q : Db → Type 0} (m : Result (A × Db))
    → Ensures (λ r. Q r.1) m
    → Ensures Q (m >>= λ r. ok r.1)
second m h = Ensures-then m _ h λ r k. Ensures-ok _ k

module _ (P : List Task → Type 0) (laws : Laws P) where
  abbrev Kept : Result Db → Type 0
  Kept m = Ensures (Has P) m

  keep-revoke :
      (id : String) (at : ℕ) (code message : String) (db : Db)
      → Has P db
      → Has P (revoke_children id at code message db)
  unfolding revoke_children
  keep-revoke id at code message db h =
      laws.change_all (child id is_active) _ db.tasks (λ t e. (refl, refl, ground arith)) h

  keep-delayed :
      (clock now safe : ℕ) (db : Db) (cleanup : Option NewTask)
      → Has P db
      → Kept (enqueue_delayed clock now safe db cleanup)
  keep-delayed clock now safe db none h = Ensures-ok _ h
  keep-delayed clock now safe db (some t) h = keep-enqueue_new P laws.grow clock _ db h

  keep-stop :
      (clock : ℕ) (id : String) (now : ℕ) (code message : String) (cleanup : Option NewTask)
      (db : Db) (o : Option Db)
      → Has P db
      → OnSome (Has P) o
      → Ensures (λ r. Has P r.db) (stop_with clock id now code message cleanup db o)
  unfolding revoke_and_clean
  keep-stop clock id now code message cleanup db none h k = Ensures-ok _ h
  keep-stop clock id now code message cleanup db (some db1) h k = Ensures-guard _ _ _ λ _.
      Ensures-then _ _
        (keep-delayed clock now _ _ cleanup
          (keep-revoke id (work_time_value now) code message db1 k))
        λ db2 h2. Ensures-ok _ h2

  keep-checkpoint :
      (valid : String → Bool) (id json : String) (db : Db)
      → Has P db
      → Kept (set_background_operation_checkpoint valid id json db)
  unfolding set_background_operation_checkpoint
  keep-checkpoint valid id json db h = Ensures-guard _ _ _ λ _.
      Ensures-bind (checked_payload valid json) _ λ _ _. Ensures-guard _ _ _ λ _. Ensures-ok _ h

  keep-visible :
      (id : String) (visible : Bool) (db : Db)
      → Has P db
      → Kept (set_background_operation_visible id visible db)
  unfolding set_background_operation_visible
  keep-visible id visible db h = Ensures-guard _ _ _ λ _. Ensures-ok _ h

  keep-active :
      (id : String) (g : Task → Task) (db : Db)
      → ((t : Task) → ((g t).id ≡ t.id) × ((g t).dedupe_key ≡ t.dedupe_key))
      → Has P db
      → P (update_where (active_task id) g db.tasks)
  keep-active id g db same h =
      laws.change_all (active_task id) g db.tasks (λ t e. ((same t).0, (same t).1, active t e)) h
    where
      active : (t : Task) → active_task id t ≡ true → is_active t.status ≡ true
      active t e = ground arith

  keep-require : (e : Enqueued) → Has P e.db → Kept (require_created e)
  keep-require e h = elim (Bool-cases e.created) [
    | inl b ↦ rw b (Ensures-ok _ h)
    | inr b ↦ rw b (Ensures-err _)
  ]

  keep-attach :
      (clock : ℕ) (valid : String → Bool) (id json : String) (task : NewTask) (db : Db)
      → Has P db
      → Kept (attach_background_task_and_reveal_operation clock valid id json task db)
  unfolding attach_background_task_and_reveal_operation
  keep-attach clock valid id json task db h = Ensures-guard _ _ _ λ _.
      Ensures-then _ _ (keep-checkpoint valid id json db h) λ db1 h1.
        Ensures-bind (check_reservation db1 (find_where (selects id any_operation) db1.operations))
          _
          λ _ _.
            Ensures-then _ _
              (keep-enqueue P laws.grow clock (record task { operation_id = id }) db1 h1)
              λ e k. Ensures-then _ _ (keep-require e k) λ db2 h2. keep-visible id true db2 h2

  -- A request that succeeds keeps the property.
  pub keep-handle :
      (valid : String → Bool) (clock : ℕ) (r : Request) (db : Db)
      → Has P db
      → Kept (handle valid clock r db)
  unfolding handle create_background_operation create_background_operation_with_pending_limit
      claim_background_operation_producer postpone_pending_background_task
      renew_background_task_lease complete_background_task complete_background_task_attempt
      fail_background_task cancel_background_task cancel_background_operation
      fail_background_operation set_background_task_checkpoint set_background_task_result
  keep-handle valid clock (Request.create op) db h =
      Ensures-guard _ _ _
        λ _. Ensures-guard _ _ _ λ _. Ensures-guard _ _ _ λ _. keep-insert_operation P _ db h
  keep-handle valid clock (Request.admit op n) db h = second _ (
      Ensures-guard _ _ _ λ _.
        Ensures-guard _ _ _
          λ _. Ensures-guard _ _ _ λ _. Ensures-guard _ _ _ λ _. keep-admit P _ _ db h)
  keep-handle valid clock (Request.claim_producer id) db h =
      second _ (Ensures-guard _ _ _ λ _. Ensures-ok _ h)
  keep-handle valid clock (Request.enqueue task) db h =
      Ensures-then _ _ (keep-enqueue P laws.grow clock task db h) λ e k. Ensures-ok _ k
  keep-handle valid clock (Request.postpone id at) db h = second _ (
      Ensures-guard _ _ _ λ _.
        keep-postponed P laws db _ (changed P laws _ _ db (λ t e. (refl, refl, ground arith)) h) h)
  keep-handle valid clock (Request.claim class worker at lease) db h =
      second _ (keep-claim P laws clock class worker at lease db h)
  keep-handle valid clock (Request.renew id worker at lease) db h = second _ (
      Ensures-guard _ _ _ λ _. Ensures-guard _ _ _ λ _.
        keep-renewed P laws _ db _
          (changed P laws _ _ db (λ t e. (refl, refl, holds_lease-active id worker _ t e)) h))
  keep-handle valid clock (Request.complete id worker at) db h = Ensures-guard _ _ _ λ _.
      keep-completion P laws _ _ db _
        (changed P laws _ _ db (λ t e. (refl, refl, holds_lease-active id worker _ t e)) h)
  keep-handle valid clock (Request.complete_attempt id n at) db h = Ensures-guard _ _ _ λ _.
      keep-completion P laws _ _ db _
        (changed P laws _ _ db (λ t e. (refl, refl, holds_attempt-active id n _ t e)) h)
  keep-handle valid clock (Request.fail id worker at retry code message) db h = second _ (
      Ensures-guard _ _ _ λ _.
        keep-failure P laws clock worker _ code message db _
          (changed P laws _ _ db (λ t e. (refl, refl, holds_lease-active id worker _ t e)) h))
  keep-handle valid clock (Request.recover at) db h = second _ (keep-recover P laws clock at db h)
  keep-handle valid clock (Request.cancel_task id at) db h = second _ (
      Ensures-guard _ _ _ λ _.
        keep-cancellation P laws _ db _
          (changed P laws _ _ db (λ t e. (refl, refl, ground arith)) h) h)
  keep-handle valid clock (Request.cancel_operation id at cleanup) db h =
      Ensures-then _ _
        (Ensures-guard _ _ _
          λ _. keep-stop clock id _ "" "" cleanup db _ h (keep-update_operation P id _ _ db h))
        λ e k. Ensures-ok _ k
  keep-handle valid clock (Request.fail_operation id at code message cleanup) db h =
      Ensures-then _ _
        (Ensures-guard _ _ _
          λ _. keep-stop clock id _ code message _ db _ h (keep-update_operation P id _ _ db h))
        λ e k. Ensures-ok _ k
  keep-handle valid clock (Request.checkpoint id json) db h = keep-checkpoint valid id json db h
  keep-handle valid clock (Request.task_checkpoint id json) db h = Ensures-guard _ _ _ λ _.
      Ensures-bind (checked_payload valid json) _
        λ _ _. Ensures-guard _ _ _ λ _. Ensures-ok _ (keep-active id _ db (λ t. (refl, refl)) h)
  keep-handle valid clock (Request.task_result id json) db h = Ensures-guard _ _ _ λ _.
      Ensures-bind (checked_payload valid json) _
        λ _ _. Ensures-guard _ _ _ λ _. Ensures-ok _ (keep-active id _ db (λ t. (refl, refl)) h)
  keep-handle valid clock (Request.reveal id visible) db h = keep-visible id visible db h
  keep-handle valid clock (Request.attach id json task) db h =
      keep-attach clock valid id json task db h
  keep-handle valid clock (Request.associate producer kind auxiliary at) db h =
      associate-frame (Has P) clock producer kind auxiliary at db (λ rows. h)

  keep-or_unchanged : (db : Db) (m : Result Db) → Has P db → Kept m → Has P (or_unchanged db m)
  keep-or_unchanged db (ok next) h k = k.at next (λ i. ok next)
  keep-or_unchanged db (err e) h k = h

  -- So does any run of requests.
  pub keep-serve :
      (valid : String → Bool) (db : Db) (requests : List (ℕ × Request))
      → Has P db
      → Has P (serve valid db requests)
  unfolding serve
  keep-serve valid db [] h = h
  keep-serve valid db ((clock, r) ∷ rest) h =
      keep-serve valid (or_unchanged db (handle valid clock r db)) rest
        (keep-or_unchanged db _ h (keep-handle valid clock r db h))
