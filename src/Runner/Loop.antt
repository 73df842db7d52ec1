-- ===== src/Runner/Loop.antt =====
-- Run: recovery at startup, and then one claimed task after another.
use gooru.Prelude.{ℕ, zero, suc, Bool, true, false, Option, none, some, if◌then◌else◌}
use gooru.Prelude.Outcome.{ok, err}
use gooru.Work.Schema.{Task}
use gooru.Runner.System.{lease_lost, contention, other_error, Answer, System}
use gooru.Runner.Claimed.{
  store_failure, context_ended, unfinished, Result, retry, wait_pause, run_claimed,
}

module _ {W : Type 0} (s : System W) (poll_interval retry_delay : ℕ) where
  abbrev pub continue_if : Bool × W → (W → Result W (Unit {0})) → Result W (Unit {0})
  continue_if (true, w) again = (ok tt, w)
  continue_if (false, w) again = again w

  abbrev pub after_task : Result W (Unit {0}) → (W → Result W (Unit {0})) → Result W (Unit {0})
  after_task (ok u, w) again = again w
  after_task (err e, w) again = (err e, w)

  -- The answer of a claim. Without a task the runner waits for the poll interval, or for less if
  -- it is woken.
  unfoldable pub on_claim :
      ℕ → Answer W (Option Task) → (W → Result W (Unit {0})) → Result W (Unit {0})
  on_claim bound (err contention, w) again = continue_if (s.wait poll_interval w) again
  on_claim bound (err lease_lost, w) again = (err (store_failure lease_lost), w)
  on_claim bound (err other_error, w) again = (err (store_failure other_error), w)
  on_claim bound (ok none, w) again = continue_if (s.wait poll_interval w) again
  on_claim bound (ok (some task), w) again =
      after_task (run_claimed s poll_interval retry_delay bound task w) again

  -- `rounds` iterations of the loop of Run, in which each inner loop has `bound`
  unfoldable pub claim_rounds : ℕ → ℕ → W → Result W (Unit {0})
  claim_rounds zero bound w = (err unfinished, w)
  claim_rounds (suc rounds) bound w =
      if s.canceled w
      then (ok tt, w)
      else on_claim bound (s.claim (s.now w) w) (λ next. claim_rounds rounds bound next)

  -- after the recovery at startup
  unfoldable pub after_startup : ℕ → ℕ → Result W ℕ → Result W (Unit {0})
  after_startup rounds bound (ok n, w) = claim_rounds rounds bound w
  after_startup rounds bound (err context_ended, w) = (ok tt, w)
  after_startup rounds bound (err (store_failure e), w) = (err (store_failure e), w)
  after_startup rounds bound (err unfinished, w) = (err unfinished, w)

  unfoldable pub run : ℕ → ℕ → W → Result W (Unit {0})
  run rounds bound w =
      after_startup rounds bound
        (retry (λ v. s.recover (s.now v) v) (wait_pause s poll_interval retry_delay) bound w)
