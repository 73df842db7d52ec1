-- ===== src/Work/Examples.antt =====
-- A small run of the store: an import whose two tasks are claimed, completed and failed, a lease
-- that expires, and a canceled operation with its cleanup task.
use gooru.Prelude.{
  ℕ, ◌+◌, ◌*◌, ◌≤◌, ◌≡◌, ◌≢◌, refl, String, ◌==◌, Bool, true, false, ◌&&◌, none, some, List, [],
  arith, ◌∷◌, ◌++◌, map, All, count_where, exists_where, find_where, update_where, first_by,
  update_one,
}
use gooru.Prelude.Int.{pos}
use gooru.Work.Schema.{
  is_active, is_completed, Task, Status, Db, empty, belongs, normalize_work_time, work_time_value,
}
use gooru.Work.Result.{
  ok, err, ◌>>=◌, fail_if, required, Ensures, lease_lost, dedupe_state_kept_changing,
}
use gooru.Work.Operations.{
  mark_background_operation_started, start_operation, update_operation, after_status_update,
  record_background_operation_task_terminal, advance_progress, settle_operation, stays_active,
  finish_operation, children, has_child, active_producer, release_auxiliary, is_drained_auxiliary,
}
use gooru.Work.Admission.{
  NewOperation, create_background_operation, insert_operation,
  create_background_operation_with_pending_limit,
}
use gooru.Work.Tasks.{
  NewTask, alone, enqueue_background_task, encode_background_task_cleanup, enqueue_rounds,
  insert_task, parent_canceled, parent_exists, attach_child, after_task_insert,
}
use gooru.Work.Claim.{
  claim_next_background_task, is_claimable, claimed_before, claim_task, insert_attempt, holds_lease,
}
use gooru.Work.Finish.{
  complete_background_task, close_one_attempt, fail_background_task, finish_failure, after_attempt,
  after_failure, enqueue_background_task_terminal_cleanup,
}
use gooru.Work.Recover.{is_expired, recover_expired_background_task_leases}
use gooru.Work.Stops.{
  Stopped, cancel_background_operation_with_cleanup_task,
  fail_background_operation_with_cleanup_task,
}
use gooru.Work.Requests.{Request, handle, serve}
use gooru.Work.Progress.{IsSettled}
use gooru.Work.Requests.Progress.{IsExact, progress-IsExact, handle-IsSettled, serve_keeps}
use gooru.Work.Queue.Dedupe.{IsDeduped, enqueue_dedupes, enqueue_settles}
use gooru.Work.Queue.Priority.{TakesFirst, claim-TakesFirst}
use gooru.Work.Associations.{
  associate_background_operation, find_active_associated_background_operation_id,
}
use gooru.Work.Associations.Slots.{associate-find}
use gooru.Work.History.{clear_terminal_background_operations}
use gooru.Work.Queue.Clearing.{active_tasks_stay}
use gooru.Work.Queue.Leases.{IsRefused, claim_excludes}
use gooru.Work.Reconcile.{
  cancel_unattached_hidden_background_operations, cancel_unattached_background_operation_ids,
}
use gooru.Work.Progress.Finish.{Next}
use gooru.Work.Progress.Reconcile.{cancel_unattached-IsSettled}
use gooru.Work.Queue.Keys.{IsKeyed, serve-IsKeyed}
use gooru.Work.Queue.History.{ended_tasks_stay}
use gooru.Work.Queue.Limits.{IsAdmission, pending_limit-IsAdmission}
use gooru.Work.Queue.Cleanups.{CleanedIf, cleanup_waits}
use gooru.Work.Queue.Recovery.{unexpired, recovery_complete, recovered-fenced}

abbrev seconds : ℕ → ℕ
seconds n = n * 1000000000

abbrev import_operation : NewOperation
import_operation = record {
  id = "op-1";
  kind = "import";
  visible = true;
  progress_total = pos 2;
  created_at = none;
}

abbrev import_task : String → String → NewTask
import_task id key = record {
  id = id;
  operation_id = "op-1";
  dedupe_key = key;
  kind = "import.file";
  subject_kind = "file";
  subject_id = id;
  input_key = "";
  resource_class = "";
  priority = pos 0;
  available_at = none;
  created_at = none;
  max_attempts = pos 1;
  terminal_failure_cleanup = none;
}

abbrev any_json : String → Bool
any_json s = true

-- "t-3" has the dedupe key of "t-2", so that only two tasks are enqueued
abbrev run : List (ℕ × Request)
run =
    (seconds 1, Request.create import_operation)
    ∷ (seconds 1, Request.enqueue (import_task "t-1" "file:1"))
    ∷ (seconds 1, Request.enqueue (import_task "t-2" "file:2"))
    ∷ (seconds 1, Request.enqueue (import_task "t-3" "file:2"))
    ∷ (seconds 2, Request.claim "default" "w-1" none (seconds 30))
    ∷ (seconds 3, Request.complete "t-1" "w-1" none)
    ∷ (seconds 3, Request.claim "default" "w-1" none (seconds 30))
    ∷ []

abbrev leased : Db
leased = serve any_json empty run

-- the last task fails, which ends the operation
abbrev failed_run : List (ℕ × Request)
failed_run = run ++ (seconds 9, Request.fail "t-2" "w-1" none none "bad_file" "no data") ∷ []

abbrev statuses : Db → List Status × List Status
statuses db = (map (λ o. o.status) db.operations, map (λ t. t.status) db.tasks)

run-statuses : statuses leased ≡ (Status.running ∷ [], Status.completed ∷ Status.running ∷ [])
unfolding serve handle ◌>>=◌ fail_if required create_background_operation insert_operation
    enqueue_background_task encode_background_task_cleanup enqueue_rounds insert_task
    parent_canceled parent_exists attach_child after_task_insert claim_next_background_task
    is_claimable claimed_before claim_task insert_attempt mark_background_operation_started
    start_operation update_operation after_status_update complete_background_task close_one_attempt
    holds_lease record_background_operation_task_terminal advance_progress settle_operation
    stays_active finish_operation children has_child active_producer release_auxiliary
    is_drained_auxiliary count_where exists_where find_where update_where first_by update_one
run-statuses = refl

failed_run-statuses :
    statuses (serve any_json empty failed_run)
    ≡ (Status.failed ∷ [], Status.completed ∷ Status.failed ∷ [])
unfolding serve handle ◌>>=◌ fail_if required create_background_operation insert_operation
    enqueue_background_task encode_background_task_cleanup enqueue_rounds insert_task
    parent_canceled parent_exists attach_child after_task_insert claim_next_background_task
    is_claimable claimed_before claim_task insert_attempt mark_background_operation_started
    start_operation update_operation after_status_update complete_background_task close_one_attempt
    holds_lease record_background_operation_task_terminal advance_progress settle_operation
    stays_active finish_operation children has_child active_producer release_auxiliary
    is_drained_auxiliary count_where exists_where find_where update_where first_by update_one
    fail_background_task finish_failure after_attempt after_failure
    enqueue_background_task_terminal_cleanup
failed_run-statuses = refl

progress-IsExact_example :
    let db = serve any_json empty failed_run in All (IsExact db.tasks) db.operations
progress-IsExact_example = progress-IsExact any_json failed_run

empty-IsSettled : IsSettled empty
unfolding count_where
empty-IsSettled = record { rows = tt; anchored = λ id e. refl }

leased-IsSettled : IsSettled leased
leased-IsSettled = serve_keeps any_json empty run empty-IsSettled

handle-IsSettled_example :
    Ensures IsSettled
      (handle any_json (seconds 9) (Request.fail "t-2" "w-1" none none "bad_file" "no data") leased)
handle-IsSettled_example =
    handle-IsSettled any_json (seconds 9) (Request.fail "t-2" "w-1" none none "bad_file" "no data")
      leased leased-IsSettled

-- at 60 seconds the lease of "t-2", which ends at 33 seconds, has expired
recovery_complete_example :
    Ensures
      (λ r. count_where (is_expired (seconds 60)) r.1.tasks ≡ 0)
      (recover_expired_background_task_leases (seconds 60) none leased)
recovery_complete_example = recovery_complete (seconds 60) none leased

leased-expires : count_where (unexpired "t-2" (seconds 60)) leased.tasks ≡ 0
unfolding serve handle ◌>>=◌ fail_if required create_background_operation insert_operation
    enqueue_background_task encode_background_task_cleanup enqueue_rounds insert_task
    parent_canceled parent_exists attach_child after_task_insert claim_next_background_task
    is_claimable claimed_before claim_task insert_attempt mark_background_operation_started
    start_operation update_operation after_status_update complete_background_task close_one_attempt
    holds_lease record_background_operation_task_terminal advance_progress settle_operation
    stays_active finish_operation children has_child active_producer release_auxiliary
    is_drained_auxiliary count_where exists_where find_where update_where first_by update_one
    is_expired
leased-expires = refl

recovered-fenced_example :
    Ensures
      (λ r. complete_background_task (seconds 61) "t-2" "w-1" none r.1 ≡ err lease_lost)
      (recover_expired_background_task_leases (seconds 60) none leased)
recovered-fenced_example =
    recovered-fenced (seconds 60) (seconds 61) none none "t-2" "w-1" leased refl leased-expires

enqueue_dedupes_example :
    Ensures
      (IsDeduped "file:2" leased)
      (enqueue_background_task (seconds 4) alone (import_task "t-4" "file:2") leased)
enqueue_dedupes_example = enqueue_dedupes (seconds 4) (import_task "t-4" "file:2") leased

enqueue_settles_example :
    enqueue_background_task (seconds 4) alone (import_task "t-4" "file:2") leased
    ≢ err dedupe_state_kept_changing
enqueue_settles_example = enqueue_settles (seconds 4) (import_task "t-4" "file:2") leased

pending_limit-IsAdmission_example : Ensures (IsAdmission "import" 1 leased) (
    create_background_operation_with_pending_limit
      (seconds 4)
      (record import_operation { id = "op-2" })
      (pos 1)
      leased)
pending_limit-IsAdmission_example =
    pending_limit-IsAdmission (seconds 4) (record import_operation { id = "op-2" }) (pos 1) leased

abbrev remove_staged : NewTask
remove_staged = record (import_task "t-9" "cleanup") { operation_id = "" }

cleanup_waits_example :
    Ensures
      (λ (s : Stopped).
        CleanedIf s.stopped "op-1"
          (work_time_value (normalize_work_time (seconds 4) none))
          ""
          ""
          remove_staged
          leased.tasks
          s.db.tasks)
      (cancel_background_operation_with_cleanup_task (seconds 4) "op-1" none remove_staged leased)
    × Ensures
        (λ (s : Stopped).
          CleanedIf
            (s.stopped && exists_where (λ t. belongs "op-1" t.operation_id) leased.tasks)
            "op-1"
            (work_time_value (normalize_work_time (seconds 4) none))
            "lost"
            "no source"
            remove_staged
            leased.tasks
            s.db.tasks)
        (fail_background_operation_with_cleanup_task
          (seconds 4)
          "op-1"
          none
          "lost"
          "no source"
          remove_staged
          leased)
cleanup_waits_example =
    cleanup_waits (seconds 4) "op-1" none "lost" "no source" remove_staged leased

serve-IsKeyed_example : IsKeyed (serve any_json empty failed_run).tasks
serve-IsKeyed_example = serve-IsKeyed any_json failed_run

abbrev completed_once : Task → Bool
completed_once t = t.id == "t-1" && is_completed t.status

ended_tasks_stay_example :
    count_where completed_once leased.tasks
    ≤ count_where completed_once (serve any_json leased failed_run).tasks
ended_tasks_stay_example = ended_tasks_stay any_json completed_once leased failed_run not_active
  where
    not_active : (t : Task) → is_active t.status ≡ true → completed_once t ≡ false
    not_active t e = ground arith

abbrev queued : List (ℕ × Request)
queued =
    (seconds 1, Request.create import_operation)
    ∷ (seconds 1, Request.enqueue (import_task "t-1" "file:1"))
    ∷ (seconds 1, Request.enqueue (record (import_task "t-2" "file:2") { priority = pos 5 }))
    ∷ []

abbrev waiting : Db
waiting = serve any_json empty queued

claim-TakesFirst_example :
    Ensures
      (TakesFirst "default" "w-1" (seconds 2) (seconds 2 + seconds 30) waiting)
      (claim_next_background_task (seconds 2) "default" "w-1" none (seconds 30) waiting)
claim-TakesFirst_example =
    claim-TakesFirst (seconds 2) "default" "w-1" none (seconds 30) waiting
      (serve-IsKeyed any_json queued)

-- an import with an auxiliary operation that makes thumbnails
abbrev paired_run : List (ℕ × Request)
paired_run =
    (seconds 1, Request.create import_operation)
    ∷ (seconds 1, Request.create (record import_operation { id = "op-2"; kind = "thumbnails" }))
    ∷ []

abbrev paired : Db
paired = serve any_json empty paired_run

associate-find_example :
    Ensures
      (λ r. find_active_associated_background_operation_id "op-1" "thumbnails" r ≡ ok (some "op-2"))
      (associate_background_operation (seconds 4) "op-1" "thumbnails" "op-2" none paired)
associate-find_example = associate-find (seconds 4) "op-1" "thumbnails" "op-2" none paired

active_tasks_stay_example :
    count_where (λ t. is_active t.status) leased.tasks
    ≤ count_where (λ t. is_active t.status) (clear_terminal_background_operations leased).1.tasks
active_tasks_stay_example = active_tasks_stay (λ t. is_active t.status) leased (λ t e. e)

claim_excludes_example :
    Ensures
      (IsRefused "w-2" (seconds 3) none)
      (claim_next_background_task (seconds 2) "default" "w-1" none (seconds 30) waiting)
claim_excludes_example =
    claim_excludes (seconds 2) (seconds 3) "default" "w-1" "w-2" none none (seconds 30) waiting
      (serve-IsKeyed any_json queued) refl

cancel_unattached-IsSettled_example :
    Ensures
      (Next IsSettled)
      (cancel_unattached_hidden_background_operations (λ s. s) (seconds 5) "import" paired)
    × Ensures
        (Next IsSettled)
        (cancel_unattached_background_operation_ids (λ s. s) (seconds 5) "import" paired)
cancel_unattached-IsSettled_example =
    cancel_unattached-IsSettled (λ s. s) (seconds 5) "import" paired
      (serve_keeps any_json empty paired_run empty-IsSettled)
