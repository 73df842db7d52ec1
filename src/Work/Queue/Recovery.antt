-- ===== src/Work/Queue/Recovery.antt =====
-- What the recovery of expired leases leaves, and a worker whose lease was recovered.
use gooru.Prelude.{
  ℕ, ◌≤◌, String, ◌==◌, ◌≡◌, refl, Bool, true, false, not, ◌&&◌, ◌||◌, Option, List, [], ◌∷◌, arith,
  count_where, update_where,
}
use gooru.Prelude.Rows.{
  count_where-append, count_where-update_where_zero, update_one-none, count_where_mono,
}
use gooru.Work.Schema.{pending, is_running, Task, Db, normalize_work_time}
use gooru.Work.Result.{
  err, ◌>>=◌, fail_if, lease_lost, Ensures, Ensures-ok, Ensures-then, Ensures-imp,
}
use gooru.Work.Keeps.{Grows, keep-abandon, keep-settle_expired}
use gooru.Work.Claim.{holds_lease}
use gooru.Work.Finish.{complete_background_task}
use gooru.Work.Recover.{is_expired, expire_task, recover_expired_background_task_leases}

-- No task satisfies a test that no pending task satisfies.
abbrev None : (Task → Bool) → List Task → Type 0
None q ts = count_where q ts ≡ 0

None-grow : (q : Task → Bool) → ((t : Task) → t.status ≡ pending → q t ≡ false) → Grows (None q)
unfolding count_where
None-grow q k ts t new free fresh h = rw (count_where-append q ts (t ∷ []), k t new, h) refl

None-recover :
    (q : Task → Bool) (clock : ℕ) (at : Option ℕ) (db : Db)
    → ((t : Task) → t.status ≡ pending → q t ≡ false)
    → (let now = normalize_work_time clock at in
        None q (update_where (is_expired now) (expire_task now) db.tasks))
    → Ensures (λ r. None q r.1.tasks) (recover_expired_background_task_leases clock at db)
unfolding recover_expired_background_task_leases
None-recover q clock at db k h = Ensures-then _ _ (keep-abandon (None q) _ _ _ h) λ db1 h1.
    Ensures-then _ _ (keep-settle_expired (None q) (None-grow q k) clock _ _ db1 h1)
      λ db2 h2. Ensures-ok _ h2

expired-expire :
    (now : ℕ) (t : Task) → is_expired now t ≡ true → is_expired now (expire_task now t) ≡ false
unfolding is_expired expire_task
expired-expire now t h = ground arith

expired-pending : (now : ℕ) (t : Task) → t.status ≡ pending → is_expired now t ≡ false
unfolding is_expired
expired-pending now t h = ground arith

-- After a successful recovery at `now` no task is left that is running on a lease that has
-- expired by then, whatever the cleanups that the recovery enqueued.
pub recovery_complete :
    (clock : ℕ) (at : Option ℕ) (db : Db)
    → Ensures
        (λ r. count_where (is_expired (normalize_work_time clock at)) r.1.tasks ≡ 0)
        (recover_expired_background_task_leases clock at db)
recovery_complete clock at db =
    let now : ℕ = normalize_work_time clock at in
    None-recover (is_expired now) clock at db (expired-pending now) (
      count_where-update_where_zero (is_expired now) (expire_task now) db.tasks
        (expired-expire now))

-- ---- fencing

abbrev pub running_as : String → Task → Bool
running_as id t = t.id == id && is_running t.status

-- a row of this id that runs on a live lease
abbrev pub unexpired : String → ℕ → Task → Bool
unexpired id now t = running_as id t && not (is_expired now t)

none_running :
    (id : String) (now : ℕ) (tasks : List Task)
    → count_where (unexpired id now) tasks ≡ 0
    → count_where (running_as id) (update_where (is_expired now) (expire_task now) tasks) ≡ 0
unfolding count_where update_where is_expired expire_task
none_running id now [] h = refl
none_running id now (t ∷ ts) h = ground (arith, none_running id now ts)

holds-running :
    (id worker : String) (now : ℕ) (t : Task)
    → holds_lease id worker now t ≡ true
    → running_as id t ≡ true
unfolding holds_lease
holds-running id worker now t h = ground arith

lost_rows :
    (id worker : String) (now : ℕ) (tasks : List Task)
    → count_where (running_as id) tasks ≡ 0
    → count_where (holds_lease id worker now) tasks ≡ 0
lost_rows id worker now tasks h =
    let below : count_where (holds_lease id worker now) tasks ≤ count_where (running_as id) tasks =
      count_where_mono (holds_lease id worker now) (running_as id) tasks
        (holds-running id worker now) in
    omega arith

complete-lease_lost :
    (clock : ℕ) (id worker : String) (at : Option ℕ) (db : Db)
    → (id == "" || worker == "") ≡ false
    → count_where (running_as id) db.tasks ≡ 0
    → complete_background_task clock id worker at db ≡ err lease_lost
unfolding complete_background_task fail_if ◌>>=◌
complete-lease_lost clock id worker at db named h =
    let now : ℕ = normalize_work_time clock at in
    let lost : count_where (holds_lease id worker now) db.tasks ≡ 0 =
      lost_rows id worker now db.tasks h in
    rw (named, update_one-none (holds_lease id worker now) _ db.tasks lost) refl

-- A worker whose lease has expired and was recovered cannot complete its task any more: with
-- every running row of the task expired before a successful recovery, a completion by any worker
-- at any time reports the lost lease (until some worker claims the task again).
pub recovered-fenced :
    (clock clock' : ℕ) (at at' : Option ℕ) (id worker : String) (db : Db)
    → (id == "" || worker == "") ≡ false
    → count_where (unexpired id (normalize_work_time clock at)) db.tasks ≡ 0
    → Ensures
        (λ r. complete_background_task clock' id worker at' r.1 ≡ err lease_lost)
        (recover_expired_background_task_leases clock at db)
recovered-fenced clock clock' at at' id worker db named h =
    Ensures-imp _
      (None-recover (running_as id) clock at db (λ t new. ground arith)
        (none_running id (normalize_work_time clock at) db.tasks h))
      λ r k. complete-lease_lost clock' id worker at' r.1 named k
