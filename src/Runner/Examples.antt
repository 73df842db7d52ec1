-- ===== src/Runner/Examples.antt =====
-- The theorems on the runner at a store that is contended for a number of calls.
use gooru.Prelude.{
  ℕ, zero, suc, ◌↔◌, ◌≡◌, ◌≢◌, refl, true, false, none, some, [], ◌∷◌, arith, exists_where,
}
use gooru.Prelude.Int.{pos}
use gooru.Prelude.Outcome.{ok, err}
use gooru.Work.Schema.{Task, Status}
use gooru.Runner.System.{contention, lease_lost, succeeded, tick, timer, Answer, System}
use gooru.Runner.Config.{RunnerConfig, Runner, IsReady, config_of, new_runner, new_runner-IsReady}
use gooru.Runner.Claimed.{run_claimed, complete_claimed, fail_claimed}
use gooru.Runner.Loop.{run}
use gooru.Runner.Logged.{logged}
use gooru.Runner.Outcomes.{IsQuiet}
use gooru.Runner.Fencing.{run_claimed-IsQuiet}
use gooru.Runner.Steady.{IsLeaseless, IsSteady, run-IsSteady}
use gooru.Runner.Ends.{Calms, UsesUp, IsFinished, outcome-IsFinished}

abbrev contended : {A : Type 0} → A → ℕ → Answer ℕ A
contended a zero = (ok a, zero)
contended a (suc n) = (err contention, n)

-- A store that stays contended for as many calls as the world says.
abbrev busy_store : System ℕ
busy_store = record {
  recover = λ now n. contended 0 n;
  claim = λ now n. contended none n;
  renew = λ id now n. contended tt n;
  complete = λ id now n. contended tt n;
  fail = λ id now retry_at code message n. contended true n;
  now = λ n. 1;
  wait = λ d n. (false, n);
  canceled = λ n. false;
  is_registered = λ kind. true;
  schedule = λ task n. tick ∷ timer ∷ [];
  handled = λ task n. succeeded;
}

busy_store-Calms : Calms busy_store (λ n. n)
busy_store-Calms = record {
  renews = λ id now n. uses n;
  completes = λ id now n. uses n;
  fails = λ id now retry_at code message n. uses_flag n;
  waits = λ d n. omega arith;
}
  where
    uses : (n : ℕ) → UsesUp (λ k. k) n (contended (tt {0}) n)
    uses zero = omega arith
    uses (suc n) = omega arith

    uses_flag : (n : ℕ) → UsesUp (λ k. k) n (contended true n)
    uses_flag zero = omega arith
    uses_flag (suc n) = omega arith

outcome-IsFinished_example :
    IsFinished (complete_claimed busy_store 1 1 3 "t-1" 2).0
    × IsFinished (fail_claimed busy_store 1 1 3 "t-1" "handler_failed" "no data" 2).0
outcome-IsFinished_example =
    outcome-IsFinished busy_store 1 1 (λ n. n) 3 "t-1" "handler_failed" "no data" 2 busy_store-Calms
      (omega arith)

abbrev task : Task
task = record {
  id = "t-1";
  operation_id = none;
  dedupe_key = "file:1";
  kind = "import_file";
  subject_kind = "file";
  subject_id = "1";
  input_key = "";
  resource_class = "default";
  priority = pos 0;
  status = Status.running;
  available_at = 0;
  lease_owner = "w-1";
  lease_expires_at = some 30000;
  created_at = 0;
  started_at = some 1;
  finished_at = none;
  attempt_count = 1;
  max_attempts = 2;
  last_error_code = "";
  last_error_message = "";
  terminal_cleanup = none;
  checkpoint_json = "";
  result_json = "";
}

run_claimed-IsQuiet_example : IsQuiet (run_claimed (logged busy_store) 1 1 5 task (2, [])).1.1
run_claimed-IsQuiet_example = run_claimed-IsQuiet busy_store 1 1 5 task 2

abbrev config : RunnerConfig
config = record {
  has_store = true;
  resource_class = "default";
  worker_id = "w-1";
  handlers = ("import_file", true) ∷ [];
  lease_duration = pos 0;
  poll_interval = pos 7;
  retry_delay = pos 0;
}

abbrev configured : Runner
configured = record {
  resource_class = "default";
  worker_id = "w-1";
  handlers = ("import_file", true) ∷ [];
  lease_duration = pos 30000000000;
  poll_interval = pos 7;
  retry_delay = pos 1000000000;
}

configured-new_runner : new_runner config ≡ ok configured
unfolding new_runner exists_where
configured-new_runner = refl

new_runner-IsReady_example :
    (((cfg : RunnerConfig) × (new_runner cfg ≡ ok configured)) ↔ IsReady configured)
    × (IsReady configured ↔ (new_runner (config_of configured) ≡ ok configured))
new_runner-IsReady_example = new_runner-IsReady configured

configured-IsReady : IsReady configured
configured-IsReady = new_runner-IsReady_example.0.0 (config, configured-new_runner)

contended-not_lost : {A : Type 0} (a : A) (n : ℕ) → (contended a n).0 ≢ err lease_lost
contended-not_lost a zero p = cc
contended-not_lost a (suc n) p = cc

busy_store-IsLeaseless : IsLeaseless busy_store
busy_store-IsLeaseless = record {
  recovers = λ now n. contended-not_lost 0 n;
  claims = λ now n. contended-not_lost none n;
}

run-IsSteady_example : IsSteady (run busy_store 1 1 2 5 3).0
run-IsSteady_example = run-IsSteady busy_store 1 1 2 5 3 busy_store-IsLeaseless
