-- ===== src/Runner/Steady.antt =====
-- What may end Run: the errors that the retries and the recovery of leases leave over.
use gooru.Prelude.{
  ℕ, zero, suc, ◌≢◌, refl, Bool, true, false, Option, none, some, Bool-cases, inl, inr,
}
use gooru.Prelude.Outcome.{Outcome, ok, err}
use gooru.Work.Schema.{Task}
use gooru.Runner.System.{
  lease_lost, contention, other_error, Handled, succeeded, finalized, failed, Answer, System,
}
use gooru.Runner.Claimed.{
  Failure, store_failure, context_ended, unfinished, Result, Renewer, ticking, retrying, ended,
  renew_error, retry, wait_pause, recovery_result, recover_lease_loss, after_outcome, write_outcome,
  after_handler, run_handler, run_claimed,
}
use gooru.Runner.Loop.{continue_if, after_task, on_claim, claim_rounds, after_startup, run}
use gooru.Runner.Rules.{OnAnswer, OnPause, retry-Ends}
use gooru.Runner.Calm.{
  IsCalm, complete_claimed-IsCalm, fail_claimed-IsCalm, HasEnded, renew_lease-HasEnded,
}

-- neither contention nor the loss of a lease
abbrev pub IsSteady : {A : Type 0} → Outcome Failure A → Type 0
IsSteady (ok a) = Unit
IsSteady (err (store_failure contention)) = ⊥
IsSteady (err (store_failure lease_lost)) = ⊥
IsSteady (err (store_failure other_error)) = Unit
IsSteady (err context_ended) = Unit
IsSteady (err unfinished) = Unit

-- Only a call that is given a lease may answer that it is lost.
pub record IsLeaseless {W : Type 0} (s : System W) : Type 0 where
  pub recovers : (now : ℕ) (w : W) → (s.recover now w).0 ≢ err lease_lost
  pub claims : (now : ℕ) (w : W) → (s.claim now w).0 ≢ err lease_lost

module _ {W : Type 0} (s : System W) (poll_interval retry_delay : ℕ) where
  abbrev Any : W → Type 0
  Any w = Unit

  abbrev Steady : {A : Type 0} → Outcome Failure A → W → Type 0
  Steady r w = IsSteady r

  Steady-answer : {A : Type 0} (a : Answer W A) → a.0 ≢ err lease_lost → OnAnswer Any Steady a
  Steady-answer (ok a, w) h = tt
  Steady-answer (err contention, w) h = tt
  Steady-answer (err lease_lost, w) h = h refl
  Steady-answer (err other_error, w) h = tt

  Steady-wait :
      (A : Type 0) (w : W) → OnPause {A = A} Any Steady (wait_pause s poll_interval retry_delay w)
  unfolding wait_pause
  Steady-wait A w = elim (Bool-cases (s.wait poll_interval w).0) [
    | inl e ↦ rw e tt
    | inr e ↦ rw e tt
  ]

  module _ (leaseless : IsLeaseless s) where
    recover_startup-IsSteady :
        (bound : ℕ) (w : W)
        → IsSteady
            (retry (λ v. s.recover (s.now v) v) (wait_pause s poll_interval retry_delay) bound w).0
    recover_startup-IsSteady bound w =
        retry-Ends Any Steady _ (wait_pause s poll_interval retry_delay) bound w
          (λ v k. Steady-answer (s.recover (s.now v) v) (leaseless.recovers (s.now v) v))
          (λ v k. Steady-wait ℕ v) (λ v k. tt) tt

    recovery_result-IsSteady :
        (r : Outcome Failure ℕ)
        → IsSteady r
        → IsSteady (recovery_result s poll_interval retry_delay r)
    unfolding recovery_result
    recovery_result-IsSteady (ok n) h = tt
    recovery_result-IsSteady (err context_ended) h = tt
    recovery_result-IsSteady (err unfinished) h = tt
    recovery_result-IsSteady (err (store_failure contention)) h = h
    recovery_result-IsSteady (err (store_failure lease_lost)) h = h
    recovery_result-IsSteady (err (store_failure other_error)) h = tt

    recover_lease_loss-IsSteady :
        (bound : ℕ) (w : W) → IsSteady (recover_lease_loss s poll_interval retry_delay bound w).0
    unfolding recover_lease_loss
    recover_lease_loss-IsSteady bound w = elim (Bool-cases (s.canceled w)) [
      | inl e ↦ rw e tt
      | inr e ↦ rw e (recovery_result-IsSteady _ (recover_startup-IsSteady bound w))
    ]

    after_outcome-IsSteady :
        {A : Type 0} (bound : ℕ) (r : Outcome Failure A) (w : W)
        → IsCalm r
        → IsSteady (after_outcome s poll_interval retry_delay bound r w).0
    unfolding after_outcome
    after_outcome-IsSteady bound (ok a) w h = tt
    after_outcome-IsSteady bound (err (store_failure lease_lost)) w h =
        recover_lease_loss-IsSteady bound w
    after_outcome-IsSteady bound (err (store_failure contention)) w h = absurd h
    after_outcome-IsSteady bound (err (store_failure other_error)) w h =
        elim (Bool-cases (s.canceled w)) [ inl e ↦ rw e tt | inr e ↦ rw e tt ]
    after_outcome-IsSteady bound (err context_ended) w h = elim (Bool-cases (s.canceled w)) [
      | inl e ↦ rw e tt
      | inr e ↦ rw e tt
    ]
    after_outcome-IsSteady bound (err unfinished) w h = tt

    write_outcome-IsSteady :
        (bound : ℕ) (task : Task) (r : Handled) (w : W)
        → IsSteady (write_outcome s poll_interval retry_delay bound task r w).0
    unfolding write_outcome
    write_outcome-IsSteady bound task finalized w = tt
    write_outcome-IsSteady bound task succeeded w = elim (Bool-cases (s.canceled w)) [
      | inl e ↦ rw e tt
      | inr e ↦ rw e (
          after_outcome-IsSteady bound _ _
            (complete_claimed-IsCalm s poll_interval retry_delay bound task.id w))
    ]
    write_outcome-IsSteady bound task (failed m) w = elim (Bool-cases (s.canceled w)) [
      | inl e ↦ rw e tt
      | inr e ↦ rw e (
          after_outcome-IsSteady bound _ _
            (fail_claimed-IsCalm s poll_interval retry_delay bound task.id "handler_failed" m w))
    ]

    after_handler-IsSteady :
        (bound : ℕ) (task : Task) (renewer : Renewer) (r : Handled) (w : W)
        → HasEnded s poll_interval retry_delay renewer
        → IsSteady
            (after_handler s poll_interval retry_delay bound task
              (renew_error s poll_interval retry_delay renewer)
              r
              w).0
    unfolding after_handler
    after_handler-IsSteady bound task ticking r w h = write_outcome-IsSteady bound task r w
    after_handler-IsSteady bound task retrying r w h = write_outcome-IsSteady bound task r w
    after_handler-IsSteady bound task (ended none) r w h = write_outcome-IsSteady bound task r w
    after_handler-IsSteady bound task (ended (some lease_lost)) finalized w h = tt
    after_handler-IsSteady bound task (ended (some lease_lost)) succeeded w h =
        recover_lease_loss-IsSteady bound w
    after_handler-IsSteady bound task (ended (some lease_lost)) (failed m) w h =
        recover_lease_loss-IsSteady bound w
    after_handler-IsSteady bound task (ended (some contention)) r w h = absurd h
    after_handler-IsSteady bound task (ended (some other_error)) r w h = tt

    run_claimed-IsSteady :
        (bound : ℕ) (task : Task) (w : W)
        → IsSteady (run_claimed s poll_interval retry_delay bound task w).0
    unfolding run_claimed run_handler
    run_claimed-IsSteady bound task w = elim (Bool-cases (s.is_registered task.kind)) [
      | inl e ↦ rw e (
          after_handler-IsSteady bound task _ _ _ (
            renew_lease-HasEnded s poll_interval retry_delay task.id (s.schedule task w) ticking w
              tt))
      | inr e ↦ rw e (
          after_outcome-IsSteady bound _ _ (
            fail_claimed-IsCalm s poll_interval retry_delay bound task.id "unsupported_task_kind" _
              w))
    ]

    continue_if-IsSteady :
        (p : Bool × W) (again : W → Result W (Unit {0}))
        → ((v : W) → IsSteady (again v).0)
        → IsSteady (continue_if s poll_interval retry_delay p again).0
    continue_if-IsSteady (true, w) again k = tt
    continue_if-IsSteady (false, w) again k = k w

    after_task-IsSteady :
        (p : Result W (Unit {0})) (again : W → Result W (Unit {0}))
        → IsSteady p.0
        → ((v : W) → IsSteady (again v).0)
        → IsSteady (after_task s poll_interval retry_delay p again).0
    after_task-IsSteady (ok u, w) again h k = k w
    after_task-IsSteady (err e, w) again h k = h

    on_claim-IsSteady :
        (bound : ℕ) (a : Answer W (Option Task)) (again : W → Result W (Unit {0}))
        → a.0 ≢ err lease_lost
        → ((v : W) → IsSteady (again v).0)
        → IsSteady (on_claim s poll_interval retry_delay bound a again).0
    unfolding on_claim
    on_claim-IsSteady bound (err contention, w) again h k = continue_if-IsSteady _ again k
    on_claim-IsSteady bound (err lease_lost, w) again h k = absurd (h refl)
    on_claim-IsSteady bound (err other_error, w) again h k = tt
    on_claim-IsSteady bound (ok none, w) again h k = continue_if-IsSteady _ again k
    on_claim-IsSteady bound (ok (some task), w) again h k =
        after_task-IsSteady _ again (run_claimed-IsSteady bound task w) k

    claim_rounds-IsSteady :
        (rounds bound : ℕ) (w : W)
        → IsSteady (claim_rounds s poll_interval retry_delay rounds bound w).0
    unfolding claim_rounds
    claim_rounds-IsSteady zero bound w = tt
    claim_rounds-IsSteady (suc rounds) bound w = elim (Bool-cases (s.canceled w)) [
      | inl e ↦ rw e tt
      | inr e ↦ rw e (
          on_claim-IsSteady bound _ _ (leaseless.claims (s.now w) w)
            (λ v. claim_rounds-IsSteady rounds bound v))
    ]

    after_startup-IsSteady :
        (rounds bound : ℕ) (p : Result W ℕ)
        → IsSteady p.0
        → IsSteady (after_startup s poll_interval retry_delay rounds bound p).0
    unfolding after_startup
    after_startup-IsSteady rounds bound (ok n, w) h = claim_rounds-IsSteady rounds bound w
    after_startup-IsSteady rounds bound (err context_ended, w) h = tt
    after_startup-IsSteady rounds bound (err unfinished, w) h = tt
    after_startup-IsSteady rounds bound (err (store_failure contention), w) h = h
    after_startup-IsSteady rounds bound (err (store_failure lease_lost), w) h = h
    after_startup-IsSteady rounds bound (err (store_failure other_error), w) h = tt

-- Run is ended neither by contention of the store nor by the loss of a lease, whatever the store
-- answers, the handlers do and the schedule is, and however many rounds it makes, where only calls
-- that are given a lease answer that it is lost.
pub run-IsSteady :
    {W : Type 0} (s : System W) (poll_interval retry_delay rounds bound : ℕ) (w : W)
    → IsLeaseless s
    → IsSteady (run s poll_interval retry_delay rounds bound w).0
unfolding run
run-IsSteady s poll_interval retry_delay rounds bound w leaseless =
    after_startup-IsSteady s poll_interval retry_delay leaseless rounds bound _
      (recover_startup-IsSteady s poll_interval retry_delay leaseless bound w)
