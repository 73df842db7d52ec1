-- ===== src/Runner/Outcomes.antt =====
-- The calls that write an outcome, and the log of them.
use gooru.Prelude.{
  ℕ, ◌+◌, ◌≤◌, ◌≡◌, String, Bool, true, false, List, arith, exists_where, count_where, Bool-cases,
  inl, inr,
}
use gooru.Prelude.Outcome.{Outcome, ok, err}
use gooru.Work.Schema.{Task}
use gooru.Runner.System.{
  lease_lost, contention, other_error, Handled, succeeded, finalized, failed, Answer, System,
}
use gooru.Runner.Claimed.{
  Failure, store_failure, context_ended, unfinished, Result, after_pause, wait_pause,
  renew_for_finalization, finalization_pause, complete_claimed, fail_claimed, recover_lease_loss,
  after_outcome, write_outcome,
}
use gooru.Runner.Rules.{OnAnswer, OnPause, Ends, retry-Ends}
use gooru.Runner.Logged.{Note, Log, with_note, without_note, logged, has_lost, accepted, IsFenced}

-- before an outcome is written: the lease is not known to be lost
pub record IsOpen (log : List Note) : Type 0 where
  pub fenced : IsFenced log
  pub kept : has_lost log ≡ false
  pub unwritten : accepted log ≡ 0

-- at any time
pub record IsQuiet (log : List Note) : Type 0 where
  pub fenced : IsFenced log
  pub once : accepted log ≤ 1

pub open-IsQuiet : (log : List Note) → IsOpen log → IsQuiet log
open-IsQuiet log h = record { fenced = h.fenced; once = omega (arith, h.unwritten) }

module _ {W : Type 0} where
  abbrev pub Open : Log W → Type 0
  Open v = IsOpen v.1

  abbrev pub Quiet : {A : Type 0} → Outcome Failure A → Log W → Type 0
  Quiet r v = IsQuiet v.1

  -- a renewal that succeeds keeps the lease
  abbrev pub OpenOrQuiet : {A : Type 0} → Outcome Failure A → Log W → Type 0
  OpenOrQuiet (ok a) v = IsOpen v.1
  OpenOrQuiet (err f) v = IsQuiet v.1

  outcome-answer :
      {A : Type 0} (a : Answer W A) (log : List Note)
      → IsOpen log
      → OnAnswer Open Quiet (with_note true log a)
  unfolding exists_where count_where
  outcome-answer (ok a, w) log h = record {
    fenced = ((λ e. h.kept), h.fenced);
    once = omega (arith, h.unwritten);
  }
  outcome-answer (err contention, w) log h = record {
    fenced = ((λ e. h.kept), h.fenced);
    kept = h.kept;
    unwritten = omega (arith, h.unwritten);
  }
  outcome-answer (err lease_lost, w) log h = record {
    fenced = ((λ e. h.kept), h.fenced);
    once = omega (arith, h.unwritten);
  }
  outcome-answer (err other_error, w) log h = record {
    fenced = ((λ e. h.kept), h.fenced);
    once = omega (arith, h.unwritten);
  }

  pub renewal-answer :
      (a : Answer W (Unit {0})) (log : List Note)
      → IsOpen log
      → OnAnswer Open OpenOrQuiet (with_note false log a)
  unfolding exists_where count_where
  renewal-answer (ok a, w) log h = record {
    fenced = ((λ e. cc), h.fenced);
    kept = h.kept;
    unwritten = omega (arith, h.unwritten);
  }
  renewal-answer (err contention, w) log h = record {
    fenced = ((λ e. cc), h.fenced);
    kept = h.kept;
    unwritten = omega (arith, h.unwritten);
  }
  renewal-answer (err lease_lost, w) log h = record {
    fenced = ((λ e. cc), h.fenced);
    once = omega (arith, h.unwritten);
  }
  renewal-answer (err other_error, w) log h = record {
    fenced = ((λ e. cc), h.fenced);
    once = omega (arith, h.unwritten);
  }

module _ {W : Type 0} (s : System W) (poll_interval retry_delay : ℕ) where
  wait_pause-OpenOrQuiet :
      (v : Log W)
      → IsOpen v.1
      → OnPause {A = Unit {0}} Open OpenOrQuiet (wait_pause (logged s) poll_interval retry_delay v)
  unfolding wait_pause
  wait_pause-OpenOrQuiet (w, log) h = elim (Bool-cases (s.wait poll_interval w).0) [
    | inl e ↦ rw e (open-IsQuiet log h)
    | inr e ↦ rw e h
  ]

  renew_for_finalization-Ends :
      (bound : ℕ) (id : String) (v : Log W)
      → IsOpen v.1
      → Ends Open OpenOrQuiet
          (renew_for_finalization (logged s) poll_interval retry_delay bound id v)
  unfolding renew_for_finalization
  renew_for_finalization-Ends bound id v h =
      retry-Ends Open OpenOrQuiet _ _ bound v
        (λ u k. renewal-answer (s.renew id (s.now u.0) u.0) u.1 k)
        (λ u k. wait_pause-OpenOrQuiet u k) (λ u k. open-IsQuiet u.1 k) h

  paused :
      (A : Type 0) (id : String) (p : Result (Log W) (Unit {0}))
      → Ends Open OpenOrQuiet p
      → OnPause {A = A} Open Quiet (
          after_pause
            (λ v. (logged s).renew id (s.now v.0) v)
            (wait_pause (logged s) poll_interval retry_delay)
            p
            (wait_pause (logged s) poll_interval retry_delay))
  unfolding after_pause wait_pause
  paused A id (ok u, (w, log)) h = elim (Bool-cases (s.wait poll_interval w).0) [
    | inl e ↦ rw e (open-IsQuiet log h)
    | inr e ↦ rw e h
  ]
  paused A id (err f, v) h = h

  finalization_pause-Quiet :
      (A : Type 0) (bound : ℕ) (id : String) (v : Log W)
      → IsOpen v.1
      → OnPause {A = A} Open Quiet
          (finalization_pause (logged s) poll_interval retry_delay bound id v)
  unfolding finalization_pause
  finalization_pause-Quiet A bound id v h = paused A id _ (renew_for_finalization-Ends bound id v h)

  complete_claimed-Quiet :
      (bound : ℕ) (id : String) (v : Log W)
      → IsOpen v.1
      → IsQuiet (complete_claimed (logged s) poll_interval retry_delay bound id v).1.1
  unfolding complete_claimed
  complete_claimed-Quiet bound id v h =
      retry-Ends Open Quiet _ _ bound v
        (λ u k. outcome-answer (s.complete id (s.now u.0) u.0) u.1 k)
        (λ u k. finalization_pause-Quiet (Unit {0}) bound id u k) (λ u k. open-IsQuiet u.1 k) h

  pub fail_claimed-Quiet :
      (bound : ℕ) (id code message : String) (v : Log W)
      → IsOpen v.1
      → IsQuiet (fail_claimed (logged s) poll_interval retry_delay bound id code message v).1.1
  unfolding fail_claimed
  fail_claimed-Quiet bound id code message v h =
      retry-Ends Open Quiet _ _ bound v
        (λ u k.
          outcome-answer (s.fail id (s.now u.0) (s.now u.0 + retry_delay) code message u.0) u.1 k)
        (λ u k. finalization_pause-Quiet Bool bound id u k) (λ u k. open-IsQuiet u.1 k) h

  recover-answer :
      (a : Answer W ℕ) (log : List Note)
      → IsQuiet log
      → OnAnswer (λ v. IsQuiet v.1) Quiet (without_note log a)
  recover-answer (ok n, w) log h = h
  recover-answer (err contention, w) log h = h
  recover-answer (err lease_lost, w) log h = h
  recover-answer (err other_error, w) log h = h

  Quiet-pause :
      (v : Log W)
      → IsQuiet v.1
      → OnPause {A = ℕ} (λ u. IsQuiet u.1) Quiet (wait_pause (logged s) poll_interval retry_delay v)
  unfolding wait_pause
  Quiet-pause (w, log) h = elim (Bool-cases (s.wait poll_interval w).0) [
    | inl e ↦ rw e h
    | inr e ↦ rw e h
  ]

  pub recover_lease_loss-Quiet :
      (bound : ℕ) (v : Log W)
      → IsQuiet v.1
      → IsQuiet (recover_lease_loss (logged s) poll_interval retry_delay bound v).1.1
  unfolding recover_lease_loss
  recover_lease_loss-Quiet bound (w, log) h = elim (Bool-cases (s.canceled w)) [
    | inl e ↦ rw e h
    | inr e ↦ rw e (
        retry-Ends (λ v. IsQuiet v.1) Quiet _ (wait_pause (logged s) poll_interval retry_delay)
          bound (w, log) (λ u k. recover-answer (s.recover (s.now u.0) u.0) u.1 k)
          (λ u k. Quiet-pause u k) (λ u k. k) h)
  ]

  pub after_outcome-Quiet :
      {A : Type 0} (bound : ℕ) (r : Outcome Failure A) (v : Log W)
      → IsQuiet v.1
      → IsQuiet (after_outcome (logged s) poll_interval retry_delay bound r v).1.1
  unfolding after_outcome
  after_outcome-Quiet bound (ok a) v h = h
  after_outcome-Quiet bound (err (store_failure lease_lost)) v h =
      recover_lease_loss-Quiet bound v h
  after_outcome-Quiet bound (err (store_failure contention)) v h = h
  after_outcome-Quiet bound (err (store_failure other_error)) v h = h
  after_outcome-Quiet bound (err context_ended) v h = h
  after_outcome-Quiet bound (err unfinished) v h = h

  pub write_outcome-Quiet :
      (bound : ℕ) (task : Task) (r : Handled) (v : Log W)
      → IsOpen v.1
      → IsQuiet (write_outcome (logged s) poll_interval retry_delay bound task r v).1.1
  unfolding write_outcome
  write_outcome-Quiet bound task finalized v h = open-IsQuiet v.1 h
  write_outcome-Quiet bound task succeeded (w, log) h = elim (Bool-cases (s.canceled w)) [
    | inl e ↦ rw e (open-IsQuiet log h)
    | inr e ↦ rw e (after_outcome-Quiet bound _ _ (complete_claimed-Quiet bound task.id (w, log) h))
  ]
  write_outcome-Quiet bound task (failed m) (w, log) h = elim (Bool-cases (s.canceled w)) [
    | inl e ↦ rw e (open-IsQuiet log h)
    | inr e ↦ rw e (
        after_outcome-Quiet bound _ _
          (fail_claimed-Quiet bound task.id "handler_failed" m (w, log) h))
  ]
