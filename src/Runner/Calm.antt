-- ===== src/Runner/Calm.antt =====
-- Contention of the store, in the retry loops and in the renewal.
use gooru.Prelude.{ℕ, ◌+◌, String, Bool, none, some, List, [], ◌∷◌, Bool-cases, inl, inr}
use gooru.Prelude.Outcome.{Outcome, ok, err}
use gooru.Runner.System.{
  StoreError, lease_lost, contention, other_error, Event, act, tick, timer, context_done, Answer,
  System,
}
use gooru.Runner.Claimed.{
  Failure, store_failure, context_ended, unfinished, Result, Renewer, ticking, retrying, ended,
  renewed, renew_call, renew_event, renew_lease, after_pause, wait_pause, renew_for_finalization,
  finalization_pause, complete_claimed, fail_claimed,
}
use gooru.Runner.Rules.{OnAnswer, OnPause, retry-Ends}

-- no contention
abbrev pub IsCalm : {A : Type 0} → Outcome Failure A → Type 0
IsCalm (ok a) = Unit
IsCalm (err (store_failure contention)) = ⊥
IsCalm (err (store_failure lease_lost)) = Unit
IsCalm (err (store_failure other_error)) = Unit
IsCalm (err context_ended) = Unit
IsCalm (err unfinished) = Unit

module _ {W : Type 0} (s : System W) (poll_interval retry_delay : ℕ) where
  abbrev Any : W → Type 0
  Any w = Unit

  abbrev Calm : {A : Type 0} → Outcome Failure A → W → Type 0
  Calm r w = IsCalm r

  Calm-answer : {A : Type 0} (a : Answer W A) → OnAnswer Any Calm a
  Calm-answer (ok a, w) = tt
  Calm-answer (err contention, w) = tt
  Calm-answer (err lease_lost, w) = tt
  Calm-answer (err other_error, w) = tt

  Calm-wait :
      (A : Type 0) (w : W) → OnPause {A = A} Any Calm (wait_pause s poll_interval retry_delay w)
  unfolding wait_pause
  Calm-wait A w = elim (Bool-cases (s.wait poll_interval w).0) [ inl e ↦ rw e tt | inr e ↦ rw e tt ]

  renew_for_finalization-IsCalm :
      (bound : ℕ) (id : String) (w : W)
      → IsCalm (renew_for_finalization s poll_interval retry_delay bound id w).0
  unfolding renew_for_finalization
  renew_for_finalization-IsCalm bound id w =
      retry-Ends Any Calm _ _ bound w (λ v k. Calm-answer (s.renew id (s.now v) v))
        (λ v k. Calm-wait (Unit {0}) v) (λ v k. tt) tt

  paused :
      (A : Type 0) (id : String) (p : Result W (Unit {0}))
      → IsCalm p.0
      → OnPause {A = A} Any Calm (
          after_pause
            (λ v. s.renew id (s.now v) v)
            (wait_pause s poll_interval retry_delay)
            p
            (wait_pause s poll_interval retry_delay))
  unfolding after_pause
  paused A id (ok u, w) h = Calm-wait A w
  paused A id (err (store_failure contention), w) h = h
  paused A id (err (store_failure lease_lost), w) h = tt
  paused A id (err (store_failure other_error), w) h = tt
  paused A id (err context_ended, w) h = tt
  paused A id (err unfinished, w) h = tt

  finalization_pause-IsCalm :
      (A : Type 0) (bound : ℕ) (id : String) (w : W)
      → OnPause {A = A} Any Calm (finalization_pause s poll_interval retry_delay bound id w)
  unfolding finalization_pause
  finalization_pause-IsCalm A bound id w = paused A id _ (renew_for_finalization-IsCalm bound id w)

  pub complete_claimed-IsCalm :
      (bound : ℕ) (id : String) (w : W)
      → IsCalm (complete_claimed s poll_interval retry_delay bound id w).0
  unfolding complete_claimed
  complete_claimed-IsCalm bound id w =
      retry-Ends Any Calm _ _ bound w (λ v k. Calm-answer (s.complete id (s.now v) v))
        (λ v k. finalization_pause-IsCalm (Unit {0}) bound id v) (λ v k. tt) tt

  pub fail_claimed-IsCalm :
      (bound : ℕ) (id code message : String) (w : W)
      → IsCalm (fail_claimed s poll_interval retry_delay bound id code message w).0
  unfolding fail_claimed
  fail_claimed-IsCalm bound id code message w =
      retry-Ends Any Calm _ _ bound w
        (λ v k. Calm-answer (s.fail id (s.now v) (s.now v + retry_delay) code message v))
        (λ v k. finalization_pause-IsCalm Bool bound id v) (λ v k. tt) tt

  -- what the renewal leaves: no error of contention
  abbrev pub HasEnded : Renewer → Type 0
  HasEnded ticking = Unit
  HasEnded retrying = Unit
  HasEnded (ended none) = Unit
  HasEnded (ended (some contention)) = ⊥
  HasEnded (ended (some lease_lost)) = Unit
  HasEnded (ended (some other_error)) = Unit

  renewed-HasEnded :
      (a : Outcome StoreError (Unit {0})) → HasEnded (renewed s poll_interval retry_delay a)
  renewed-HasEnded (ok u) = tt
  renewed-HasEnded (err contention) = tt
  renewed-HasEnded (err lease_lost) = tt
  renewed-HasEnded (err other_error) = tt

  renew_event-HasEnded :
      (id : String) (e : Event W) (r : Renewer) (w : W)
      → HasEnded r
      → HasEnded (renew_event s poll_interval retry_delay id e r w).0
  unfolding renew_event renew_call
  renew_event-HasEnded id (act f) r w h = h
  renew_event-HasEnded id tick ticking w h = renewed-HasEnded (s.renew id (s.now w) w).0
  renew_event-HasEnded id tick retrying w h = h
  renew_event-HasEnded id tick (ended e) w h = h
  renew_event-HasEnded id timer ticking w h = h
  renew_event-HasEnded id timer retrying w h = renewed-HasEnded (s.renew id (s.now w) w).0
  renew_event-HasEnded id timer (ended e) w h = h
  renew_event-HasEnded id context_done ticking w h = h
  renew_event-HasEnded id context_done retrying w h = h
  renew_event-HasEnded id context_done (ended e) w h = h

  pub renew_lease-HasEnded :
      (id : String) (events : List (Event W)) (r : Renewer) (w : W)
      → HasEnded r
      → HasEnded (renew_lease s poll_interval retry_delay id events r w).0
  unfolding renew_lease
  renew_lease-HasEnded id [] r w h = h
  renew_lease-HasEnded id (e ∷ events) r w h =
      renew_lease-HasEnded id events _ _ (renew_event-HasEnded id e r w h)
