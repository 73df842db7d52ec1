-- ===== src/Work/Requests.antt =====
-- The store as a server of requests, each with the clock that it reads and the arguments of its
-- caller: one constructor for each method of Work that changes the tables, but for
-- `ClearTerminalBackgroundOperations` and the reconciliation at startup. A method that returns an
-- error has rolled its transaction back.
pub mod Progress
use gooru.Prelude.{ℕ, String, Bool, true, false, Option, none, some, List, [], ◌∷◌}
use gooru.Prelude.Int.{ℤ}
use gooru.Work.Schema.{Db, empty}
use gooru.Work.Result.{Result, ok, err, ◌>>=◌}
use gooru.Work.Admission.{
  NewOperation, create_background_operation, create_background_operation_with_pending_limit,
  claim_background_operation_producer,
}
use gooru.Work.Tasks.{NewTask, alone, enqueue_background_task, postpone_pending_background_task}
use gooru.Work.Claim.{claim_next_background_task, renew_background_task_lease}
use gooru.Work.Finish.{
  complete_background_task, complete_background_task_attempt, fail_background_task,
}
use gooru.Work.Recover.{recover_expired_background_task_leases, cancel_background_task}
use gooru.Work.Stops.{cancel_background_operation, fail_background_operation}
use gooru.Work.Associations.{associate_background_operation}
use gooru.Work.Attach.{
  set_background_operation_checkpoint, set_background_task_checkpoint, set_background_task_result,
  set_background_operation_visible, attach_background_task_and_reveal_operation,
}

pub data Request : Type 0 where
  create : NewOperation → Request
  admit : NewOperation → ℤ → Request
  claim_producer : String → Request
  enqueue : NewTask → Request
  postpone : String → ℕ → Request
  claim : String → String → Option ℕ → ℕ → Request
  renew : String → String → Option ℕ → ℕ → Request
  complete : String → String → Option ℕ → Request
  complete_attempt : String → ℕ → Option ℕ → Request
  fail : String → String → Option ℕ → Option ℕ → String → String → Request
  recover : Option ℕ → Request
  cancel_task : String → Option ℕ → Request
  cancel_operation : String → Option ℕ → Option NewTask → Request
  fail_operation : String → Option ℕ → String → String → Option NewTask → Request
  checkpoint : String → String → Request
  task_checkpoint : String → String → Request
  task_result : String → String → Request
  reveal : String → Bool → Request
  attach : String → String → NewTask → Request
  associate : String → String → String → Option ℕ → Request

-- The state that a request leaves; `valid` is encoding/json's Valid.
unfoldable pub handle : (String → Bool) → ℕ → Request → Db → Result Db
handle valid clock (create op) db = create_background_operation clock op db
handle valid clock (admit op n) db =
    create_background_operation_with_pending_limit clock op n db >>= λ r. ok r.1
handle valid clock (claim_producer id) db =
    claim_background_operation_producer id db >>= λ r. ok r.1
handle valid clock (enqueue task) db = enqueue_background_task clock alone task db >>= λ r. ok r.db
handle valid clock (postpone id at) db = postpone_pending_background_task id at db >>= λ r. ok r.1
handle valid clock (claim class worker at lease) db =
    claim_next_background_task clock class worker at lease db >>= λ r. ok r.1
handle valid clock (renew id worker at lease) db =
    renew_background_task_lease clock id worker at lease db >>= λ r. ok r.1
handle valid clock (complete id worker at) db = complete_background_task clock id worker at db
handle valid clock (complete_attempt id n at) db = complete_background_task_attempt clock id n at db
handle valid clock (fail id worker at retry code message) db =
    fail_background_task clock id worker at retry code message db >>= λ r. ok r.1
handle valid clock (recover at) db =
    recover_expired_background_task_leases clock at db >>= λ r. ok r.1
handle valid clock (cancel_task id at) db = cancel_background_task clock id at db >>= λ r. ok r.1
handle valid clock (cancel_operation id at cleanup) db =
    cancel_background_operation clock id at cleanup db >>= λ r. ok r.db
handle valid clock (fail_operation id at code message cleanup) db =
    fail_background_operation clock id at code message cleanup db >>= λ r. ok r.db
handle valid clock (checkpoint id json) db = set_background_operation_checkpoint valid id json db
handle valid clock (task_checkpoint id json) db = set_background_task_checkpoint valid id json db
handle valid clock (task_result id json) db = set_background_task_result valid id json db
handle valid clock (reveal id visible) db = set_background_operation_visible id visible db
handle valid clock (attach id json task) db =
    attach_background_task_and_reveal_operation clock valid id json task db
handle valid clock (associate producer kind auxiliary at) db =
    associate_background_operation clock producer kind auxiliary at db

abbrev pub or_unchanged : Db → Result Db → Db
or_unchanged db (ok next) = next
or_unchanged db (err e) = db

-- The tables after a list of requests, each at its reading of the clock.
unfoldable pub serve : (String → Bool) → Db → List (ℕ × Request) → Db
serve valid db [] = db
serve valid db ((clock, r) ∷ rest) = serve valid (or_unchanged db (handle valid clock r db)) rest
