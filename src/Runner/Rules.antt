-- ===== src/Runner/Rules.antt =====
-- The rule for the runner's retry loops: an invariant between calls, a condition at the end.
use gooru.Prelude.{ℕ, zero, suc}
use gooru.Prelude.Outcome.{Outcome, ok, err}
use gooru.Runner.System.{StoreError, lease_lost, contention, other_error}
use gooru.Runner.Claimed.{Failure, store_failure, unfinished, after_pause, on_answer, retry}

module _ {ℓ} {W A : Type 0} (I : W → Type ℓ) (Q : Outcome Failure A → W → Type ℓ) where
  -- what a call has to establish
  abbrev pub OnAnswer : Outcome StoreError A × W → Type ℓ
  OnAnswer (ok a, w) = Q (ok a) w
  OnAnswer (err contention, w) = I w
  OnAnswer (err lease_lost, w) = Q (err (store_failure lease_lost)) w
  OnAnswer (err other_error, w) = Q (err (store_failure other_error)) w

  -- what a pause has to establish
  abbrev pub OnPause : Outcome Failure (Unit {0}) × W → Type ℓ
  OnPause (ok u, w) = I w
  OnPause (err f, w) = Q (err f) w

  abbrev pub Ends : Outcome Failure A × W → Type ℓ
  Ends (r, w) = Q r w

  module _ (call : W → Outcome StoreError A × W) (pause : W → Outcome Failure (Unit {0}) × W) where
    pub after_pause-Ends :
        (p : Outcome Failure (Unit {0}) × W) (again : W → Outcome Failure A × W)
        → OnPause p
        → ((w : W) → I w → Ends (again w))
        → Ends (after_pause call pause p again)
    unfolding after_pause
    after_pause-Ends (ok u, w) again h k = k w h
    after_pause-Ends (err f, w) again h k = h

    on_answer-Ends :
        (a : Outcome StoreError A × W) (again : W → Outcome Failure A × W)
        → OnAnswer a
        → ((w : W) → I w → OnPause (pause w))
        → ((w : W) → I w → Ends (again w))
        → Ends (on_answer call pause a again)
    unfolding on_answer
    on_answer-Ends (ok a, w) again h p k = h
    on_answer-Ends (err contention, w) again h p k = after_pause-Ends (pause w) again (p w h) k
    on_answer-Ends (err lease_lost, w) again h p k = h
    on_answer-Ends (err other_error, w) again h p k = h

    pub retry-Ends :
        (bound : ℕ) (w : W)
        → ((w : W) → I w → OnAnswer (call w))
        → ((w : W) → I w → OnPause (pause w))
        → ((w : W) → I w → Q (err unfinished) w)
        → I w
        → Ends (retry call pause bound w)
    unfolding retry
    retry-Ends zero w c p u h = u w h
    retry-Ends (suc bound) w c p u h =
        on_answer-Ends (call w) _ (c w h) p (λ v i. retry-Ends bound v c p u i)
