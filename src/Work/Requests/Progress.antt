-- ===== src/Work/Requests/Progress.antt =====
-- The progress of operations over any run of requests.
use gooru.Prelude.{
  ℕ, String, ◌≡◌, Bool, true, List, [], ◌∷◌, All, All-imp, refl, count_where, arith,
}
use gooru.Work.Schema.{Operation, Task, Db, empty, is_completed, is_failed, is_active, is_terminal}
use gooru.Work.Result.{Result, ok, err, ◌>>=◌, Ensures, Ensures-ok, Ensures-then}
use gooru.Work.Operations.{children}
use gooru.Work.Tasks.{alone}
use gooru.Work.Associations.Slots.{associate-frame}
use gooru.Work.Requests.{Request, handle, or_unchanged, serve}
use gooru.Work.Progress.{IsOwed, nothing, IsSettled}
use gooru.Work.Progress.Insert.{AllOwed-enqueue}
use gooru.Work.Progress.Finish.{
  Next, IsSettled-complete, IsSettled-complete_attempt, IsSettled-fail,
}
use gooru.Work.Progress.Cancel.{IsSettled-cancel_task}
use gooru.Work.Progress.Claim.{IsSettled-claim, IsSettled-renew}
use gooru.Work.Progress.Recover.{IsSettled-recover}
use gooru.Work.Progress.Stops.{IsSettled-cancel_operation, IsSettled-fail_operation}
use gooru.Work.Progress.Attach.{
  IsSettled-create, IsSettled-admit, IsSettled-claim_producer, IsSettled-checkpoint,
  IsSettled-task_checkpoint, IsSettled-task_result, IsSettled-visible, IsSettled-attach,
  IsSettled-postpone,
}

next {ℓ} :
    {A : Type ℓ} (m : Result (A × Db))
    → Ensures (Next IsSettled) m
    → Ensures IsSettled (m >>= λ r. ok r.1)
next m h = Ensures-then m _ h λ r k. Ensures-ok _ k

-- A request that succeeds keeps every operation settled: its counters are the numbers of its
-- completed and failed tasks, it has no active task once it has ended, and no task names an
-- operation that does not exist.
pub handle-IsSettled :
    (valid : String → Bool) (clock : ℕ) (r : Request) (db : Db)
    → IsSettled db
    → Ensures IsSettled (handle valid clock r db)
unfolding handle
handle-IsSettled valid clock (Request.create op) db h = IsSettled-create clock op db h
handle-IsSettled valid clock (Request.admit op n) db h = next _ (IsSettled-admit clock op n db h)
handle-IsSettled valid clock (Request.claim_producer id) db h =
    next _ (IsSettled-claim_producer id db h)
handle-IsSettled valid clock (Request.enqueue task) db h =
    Ensures-then _ _ (AllOwed-enqueue nothing nothing alone (λ n d k. k) clock task db h)
      λ e k. Ensures-ok _ k
handle-IsSettled valid clock (Request.postpone id at) db h = next _ (IsSettled-postpone id at db h)
handle-IsSettled valid clock (Request.claim class worker at lease) db h =
    next _ (IsSettled-claim clock class worker at lease db h)
handle-IsSettled valid clock (Request.renew id worker at lease) db h =
    next _ (IsSettled-renew clock id worker at lease db h)
handle-IsSettled valid clock (Request.complete id worker at) db h =
    IsSettled-complete clock id worker at db h
handle-IsSettled valid clock (Request.complete_attempt id n at) db h =
    IsSettled-complete_attempt clock id n at db h
handle-IsSettled valid clock (Request.fail id worker at retry code message) db h =
    next _ (IsSettled-fail clock id worker at retry code message db h)
handle-IsSettled valid clock (Request.recover at) db h = next _ (IsSettled-recover clock at db h)
handle-IsSettled valid clock (Request.cancel_task id at) db h =
    next _ (IsSettled-cancel_task clock id at db h)
handle-IsSettled valid clock (Request.cancel_operation id at cleanup) db h =
    Ensures-then _ _ (IsSettled-cancel_operation clock id at cleanup db h) λ e k. Ensures-ok _ k
handle-IsSettled valid clock (Request.fail_operation id at code message cleanup) db h =
    Ensures-then _ _ (IsSettled-fail_operation clock id at code message cleanup db h)
      λ e k. Ensures-ok _ k
handle-IsSettled valid clock (Request.checkpoint id json) db h =
    IsSettled-checkpoint valid id json db h
handle-IsSettled valid clock (Request.task_checkpoint id json) db h =
    IsSettled-task_checkpoint valid id json db h
handle-IsSettled valid clock (Request.task_result id json) db h =
    IsSettled-task_result valid id json db h
handle-IsSettled valid clock (Request.reveal id visible) db h = IsSettled-visible id visible db h
handle-IsSettled valid clock (Request.attach id json task) db h =
    IsSettled-attach clock valid id json task db h
handle-IsSettled valid clock (Request.associate producer kind auxiliary at) db h =
    associate-frame IsSettled clock producer kind auxiliary at db
      (λ rows. record { rows = h.rows; anchored = h.anchored })

or_unchanged-IsSettled :
    (db : Db) (m : Result Db) → IsSettled db → Ensures IsSettled m → IsSettled (or_unchanged db m)
or_unchanged-IsSettled db (ok next) h k = k.at next (λ i. ok next)
or_unchanged-IsSettled db (err e) h k = h

pub serve_keeps :
    (valid : String → Bool) (db : Db) (requests : List (ℕ × Request))
    → IsSettled db
    → IsSettled (serve valid db requests)
unfolding serve
serve_keeps valid db [] h = h
serve_keeps valid db ((clock, r) ∷ rest) h =
    serve_keeps valid (or_unchanged db (handle valid clock r db)) rest
      (or_unchanged-IsSettled db _ h (handle-IsSettled valid clock r db h))

-- What a reader of the tables can rely on, for one operation.
abbrev pub IsExact : List Task → Operation → Type 0
IsExact tasks o =
    (o.progress_completed ≡ children o.id is_completed tasks)
    × (o.progress_failed ≡ children o.id is_failed tasks)
    × (is_terminal o.status ≡ true → children o.id is_active tasks ≡ 0)

pub exact : (tasks : List Task) (o : Operation) → IsOwed nothing nothing tasks o → IsExact tasks o
exact tasks o h = (omega (arith, h.completed_exact), omega (arith, h.failed_exact), h.drained)

pub empty-IsSettled : IsSettled empty
unfolding count_where
empty-IsSettled = record { rows = tt; anchored = λ id e. refl }

-- Starting from empty tables, after any list of requests (each of which may fail, and is then
-- rolled back), every operation's progress_completed and progress_failed are the numbers of its
-- completed and failed tasks, and an operation that is completed, failed or canceled has no task
-- that is pending or running.
pub progress-IsExact :
    (valid : String → Bool) (requests : List (ℕ × Request))
    → let db = serve valid empty requests in All (IsExact db.tasks) db.operations
progress-IsExact valid requests =
    All-imp _ _ _ (exact _) (serve_keeps valid empty requests empty-IsSettled).rows
