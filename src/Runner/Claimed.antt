-- ===== src/Runner/Claimed.antt =====
-- runClaimed: a claimed task from its handler to its outcome, or to the loss of its lease.
use gooru.Prelude.{
  ℕ, zero, suc, ◌+◌, String, Bool, not, Option, none, some, List, [], ◌∷◌, if◌then◌else◌,
}
use Prim.Native.String.{◌++◌}
use gooru.Prelude.Outcome.{Outcome, ok, err}
use gooru.Work.Schema.{Task}
use gooru.Runner.System.{
  StoreError, lease_lost, contention, other_error, Handled, succeeded, finalized, failed, Event,
  act, tick, timer, context_done, System,
}

-- The error of a loop: the store's, the context's, or the end of the model's bound.
pub data Failure : Type 0 where
  store_failure : StoreError → Failure
  context_ended unfinished : Failure

abbrev pub Result : Type 0 → Type 0 → Type 0
Result W A = Outcome Failure A × W

-- the renewal goroutine: at its ticker, at the timer after contention, or ended with an error or none
pub data Renewer : Type 0 where
  ticking retrying : Renewer
  ended : Option StoreError → Renewer

-- The loops that repeat a call of the store while it answers contention, with a pause between
-- two calls; the first argument bounds the calls.
module _ {ℓ} {W : Type 0} {A : Type ℓ} (call : W → Outcome StoreError A × W)
    (pause : W → Outcome Failure (Unit {0}) × W) where
  -- after an answer, and after the pause that follows contention
  unfoldable pub after_pause :
      Outcome Failure (Unit {0}) × W → (W → Outcome Failure A × W) → Outcome Failure A × W
  after_pause (ok u, w) again = again w
  after_pause (err f, w) again = (err f, w)

  unfoldable pub on_answer :
      Outcome StoreError A × W → (W → Outcome Failure A × W) → Outcome Failure A × W
  on_answer (ok a, w) again = (ok a, w)
  on_answer (err contention, w) again = after_pause (pause w) again
  on_answer (err lease_lost, w) again = (err (store_failure lease_lost), w)
  on_answer (err other_error, w) again = (err (store_failure other_error), w)

  unfoldable pub retry : ℕ → W → Outcome Failure A × W
  retry zero w = (err unfinished, w)
  retry (suc bound) w = on_answer (call w) (λ next. retry bound next)

module _ {W : Type 0} (s : System W) (poll_interval retry_delay : ℕ) where
  -- after an answer of RenewBackgroundTaskLease
  abbrev pub renewed : Outcome StoreError (Unit {0}) → Renewer
  renewed (ok u) = ticking
  renewed (err contention) = retrying
  renewed (err lease_lost) = ended (some lease_lost)
  renewed (err other_error) = ended (some other_error)

  unfoldable pub renew_call : String → W → Renewer × W
  renew_call id w = let answer = s.renew id (s.now w) w in (renewed answer.0, answer.1)

  -- One event of `renewLease`, beside a handler that acts. A tick that fires during a retry is
  -- one that the ticker keeps for later.
  unfoldable pub renew_event : String → Event W → Renewer → W → Renewer × W
  renew_event id (act f) r w = (r, f w)
  renew_event id tick ticking w = renew_call id w
  renew_event id tick r w = (r, w)
  renew_event id timer retrying w = renew_call id w
  renew_event id timer r w = (r, w)
  renew_event id context_done (ended e) w = (ended e, w)
  renew_event id context_done r w = (ended none, w)

  unfoldable pub renew_lease : String → List (Event W) → Renewer → W → Renewer × W
  renew_lease id [] r w = (r, w)
  renew_lease id (e ∷ events) r w =
      let next = renew_event id e r w in renew_lease id events next.0 next.1

  -- `<-renewDone`
  abbrev pub renew_error : Renewer → Option StoreError
  renew_error (ended e) = e
  renew_error ticking = none
  renew_error retrying = none

  unfoldable pub wait_pause : W → Result W (Unit {0})
  wait_pause w =
      let waited = s.wait poll_interval w in
      (if waited.0 then err context_ended else ok tt, waited.1)

  unfoldable pub renew_for_finalization : ℕ → String → W → Result W (Unit {0})
  renew_for_finalization bound id w = retry (λ v. s.renew id (s.now v) v) wait_pause bound w

  -- the renewal of the lease, then the wait, between two attempts to write an outcome
  unfoldable pub finalization_pause : ℕ → String → W → Result W (Unit {0})
  finalization_pause bound id w =
      after_pause (λ v. s.renew id (s.now v) v) wait_pause (renew_for_finalization bound id w)
        wait_pause

  unfoldable pub complete_claimed : ℕ → String → W → Result W (Unit {0})
  complete_claimed bound id w =
      retry (λ v. s.complete id (s.now v) v) (finalization_pause bound id) bound w

  unfoldable pub fail_claimed : ℕ → String → String → String → W → Result W Bool
  fail_claimed bound id code message w =
      retry (λ v. s.fail id (s.now v) (s.now v + retry_delay) code message v)
        (finalization_pause bound id) bound w

  -- the end of the loop of `recoverLeaseLoss`
  unfoldable pub recovery_result : Outcome Failure ℕ → Outcome Failure (Unit {0})
  recovery_result (ok n) = ok tt
  recovery_result (err context_ended) = ok tt
  recovery_result (err (store_failure e)) = err (store_failure e)
  recovery_result (err unfinished) = err unfinished

  unfoldable pub recover_lease_loss : ℕ → W → Result W (Unit {0})
  recover_lease_loss bound w =
      let recovered = retry (λ v. s.recover (s.now v) v) wait_pause bound w in
      if s.canceled w then (ok tt, w) else (recovery_result recovered.0, recovered.1)

  -- after `completeClaimed` or `failClaimed`
  unfoldable pub after_outcome : {A : Type 0} → ℕ → Outcome Failure A → W → Result W (Unit {0})
  after_outcome bound (ok a) w = (ok tt, w)
  after_outcome bound (err (store_failure lease_lost)) w = recover_lease_loss bound w
  after_outcome bound (err (store_failure contention)) w =
      (if s.canceled w then ok tt else err (store_failure contention), w)
  after_outcome bound (err (store_failure other_error)) w =
      (if s.canceled w then ok tt else err (store_failure other_error), w)
  after_outcome bound (err context_ended) w = (if s.canceled w then ok tt else err context_ended, w)
  after_outcome bound (err unfinished) w = (err unfinished, w)

  -- what the handler returned, when the lease was kept
  unfoldable pub write_outcome : ℕ → Task → Handled → W → Result W (Unit {0})
  write_outcome bound task finalized w = (ok tt, w)
  write_outcome bound task succeeded w =
      let completed = complete_claimed bound task.id w in
      if s.canceled w then (ok tt, w) else after_outcome bound completed.0 completed.1
  write_outcome bound task (failed message) w =
      let written = fail_claimed bound task.id "handler_failed" message w in
      if s.canceled w then (ok tt, w) else after_outcome bound written.0 written.1

  -- what the renewal and the handler returned
  unfoldable pub after_handler : ℕ → Task → Option StoreError → Handled → W → Result W (Unit {0})
  after_handler bound task none handled w = write_outcome bound task handled w
  after_handler bound task (some lease_lost) finalized w = (ok tt, w)
  after_handler bound task (some lease_lost) handled w = recover_lease_loss bound w
  after_handler bound task (some contention) handled w = (err (store_failure contention), w)
  after_handler bound task (some other_error) handled w = (err (store_failure other_error), w)

  unfoldable pub run_handler : ℕ → Task → W → Result W (Unit {0})
  run_handler bound task w =
      let renewal = renew_lease task.id (s.schedule task w) ticking w in
      after_handler bound task (renew_error renewal.0) (s.handled task renewal.1) renewal.1

  unfoldable pub run_claimed : ℕ → Task → W → Result W (Unit {0})
  run_claimed bound task w =
      let refused =
        fail_claimed bound task.id "unsupported_task_kind"
          ("no handler registered for task kind " ++ task.kind) w in
      if not (s.is_registered task.kind)
      then after_outcome bound refused.0 refused.1
      else run_handler bound task w
