-- ===== src/Runner/Ends.antt =====
-- The end of the runner's retry loops.
use gooru.Prelude.{ℕ, zero, suc, ◌+◌, ◌≤◌, ◌<◌, String, Bool-cases, inl, inr, arith}
use gooru.Prelude.Outcome.{Outcome, ok, err}
use gooru.Runner.System.{lease_lost, contention, other_error, Answer, System}
use gooru.Runner.Claimed.{
  Failure, store_failure, context_ended, unfinished, Result, after_pause, on_answer, retry,
  wait_pause, renew_for_finalization, finalization_pause, complete_claimed, fail_claimed,
}

abbrev pub IsFinished : {A : Type 0} → Outcome Failure A → Type 0
IsFinished (ok a) = Unit
IsFinished (err (store_failure e)) = Unit
IsFinished (err context_ended) = Unit
IsFinished (err unfinished) = ⊥

module _ {W : Type 0} (left : W → ℕ) where
  -- a call that is contended uses up some of the contention that is left
  abbrev pub UsesUp : {A : Type 0} → W → Answer W A → Type 0
  UsesUp w (ok a, v) = left v ≤ left w
  UsesUp w (err contention, v) = left v < left w
  UsesUp w (err lease_lost, v) = left v ≤ left w
  UsesUp w (err other_error, v) = left v ≤ left w

  abbrev Finishes : {A : Type 0} → W → Result W A → Type 0
  Finishes w (r, v) = (left v ≤ left w) × IsFinished r

  module _ {A : Type 0} (call : W → Answer W A) (pause : W → Result W (Unit {0})) (limit : ℕ)
      (calls : (w : W) → UsesUp w (call w))
      (pauses : (w : W) → left w < limit → Finishes w (pause w)) where
    after_pause-Finishes :
        (w v : W) (p : Result W (Unit {0})) (again : W → Result W A)
        → left v < left w
        → Finishes v p
        → ((u : W) → left u < left w → Finishes u (again u))
        → Finishes w (after_pause call pause p again)
    unfolding after_pause
    after_pause-Finishes w v (ok t, u) again h p k =
        let ends = k u (omega (arith, h, p.0)) in (omega (arith, ends.0, h, p.0), ends.1)
    after_pause-Finishes w v (err (store_failure e), u) again h p k = (omega (arith, h, p.0), tt)
    after_pause-Finishes w v (err context_ended, u) again h p k = (omega (arith, h, p.0), tt)
    after_pause-Finishes w v (err unfinished, u) again h p k = absurd p.1

    on_answer-Finishes :
        (w : W) (a : Answer W A) (again : W → Result W A)
        → left w < limit
        → UsesUp w a
        → ((u : W) → left u < left w → Finishes u (again u))
        → Finishes w (on_answer call pause a again)
    unfolding on_answer
    on_answer-Finishes w (ok a, v) again l h k = (h, tt)
    on_answer-Finishes w (err contention, v) again l h k =
        after_pause-Finishes w v (pause v) again h (pauses v (omega (arith, l, h))) k
    on_answer-Finishes w (err lease_lost, v) again l h k = (h, tt)
    on_answer-Finishes w (err other_error, v) again l h k = (h, tt)

    retry-Finishes :
        (bound : ℕ) (w : W)
        → left w < bound
        → left w < limit
        → Finishes w (retry call pause bound w)
    unfolding retry
    retry-Finishes zero w b l = absurd (omega (arith, b))
    retry-Finishes (suc bound) w b l =
        on_answer-Finishes w (call w) _ l (calls w)
          (λ u h. retry-Finishes bound u (omega (arith, b, h)) (omega (arith, l, h)))

-- A system in which `left` is how often the store will still be contended.
pub record Calms {W : Type 0} (s : System W) (left : W → ℕ) : Type 0 where
  pub renews : (id : String) (now : ℕ) (w : W) → UsesUp left w (s.renew id now w)
  pub completes : (id : String) (now : ℕ) (w : W) → UsesUp left w (s.complete id now w)
  pub fails :
      (id : String) (now retry_at : ℕ) (code message : String) (w : W)
      → UsesUp left w (s.fail id now retry_at code message w)
  pub waits : (d : ℕ) (w : W) → left (s.wait d w).1 ≤ left w

module _ {W : Type 0} (s : System W) (poll_interval retry_delay : ℕ) (left : W → ℕ)
    (calms : Calms s left) where
  wait_pause-Finishes : (w : W) → Finishes left w (wait_pause s poll_interval retry_delay w)
  unfolding wait_pause
  wait_pause-Finishes w = elim (Bool-cases (s.wait poll_interval w).0) [
    | inl e ↦ rw e (calms.waits poll_interval w, tt)
    | inr e ↦ rw e (calms.waits poll_interval w, tt)
  ]

  renew_for_finalization-Finishes :
      (bound : ℕ) (id : String) (w : W)
      → left w < bound
      → Finishes left w (renew_for_finalization s poll_interval retry_delay bound id w)
  unfolding renew_for_finalization
  renew_for_finalization-Finishes bound id w h =
      retry-Finishes left _ _ bound (λ v. calms.renews id (s.now v) v)
        (λ v l. wait_pause-Finishes v) bound w h h

  then_wait :
      (id : String) (w : W) (p : Result W (Unit {0}))
      → Finishes left w p
      → Finishes left w (
          after_pause
            (λ v. s.renew id (s.now v) v)
            (wait_pause s poll_interval retry_delay)
            p
            (wait_pause s poll_interval retry_delay))
  unfolding after_pause
  then_wait id w (ok u, v) h =
      let waited = wait_pause-Finishes v in (omega (arith, h.0, waited.0), waited.1)
  then_wait id w (err f, v) h = h

  finalization_pause-Finishes :
      (bound : ℕ) (id : String) (w : W)
      → left w < bound
      → Finishes left w (finalization_pause s poll_interval retry_delay bound id w)
  unfolding finalization_pause
  finalization_pause-Finishes bound id w h =
      then_wait id w _ (renew_for_finalization-Finishes bound id w h)

-- When the store stays contended for fewer calls than the loops may make, writing the outcome of a
-- claimed task ends, with the store's answer or with the context: neither the loop nor the
-- renewals inside it are cut off, for a completion and for a failure.
pub outcome-IsFinished :
    {W : Type 0} (s : System W) (poll_interval retry_delay : ℕ) (left : W → ℕ) (bound : ℕ)
    (id code message : String) (w : W)
    → Calms s left
    → left w < bound
    → IsFinished (complete_claimed s poll_interval retry_delay bound id w).0
      × IsFinished (fail_claimed s poll_interval retry_delay bound id code message w).0
unfolding complete_claimed fail_claimed
outcome-IsFinished s poll_interval retry_delay left bound id code message w calms h = (
  (retry-Finishes left _ _ bound (λ v. calms.completes id (s.now v) v)
      (finalization_pause-Finishes s poll_interval retry_delay left calms bound id) bound w h h).1,
  (retry-Finishes left _ _ bound
      (λ v. calms.fails id (s.now v) (s.now v + retry_delay) code message v)
      (finalization_pause-Finishes s poll_interval retry_delay left calms bound id) bound w h h).1,
)
