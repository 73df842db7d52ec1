-- ===== src/Runner/Logged.antt =====
-- A system that keeps a log of the runner's calls, newest first, beside its world.
use gooru.Prelude.{ℕ, ◌≡◌, Bool, true, false, List, [], ◌∷◌, exists_where, count_where}
use gooru.Prelude.Outcome.{Outcome, ok, err}
use gooru.Runner.System.{
  StoreError, lease_lost, contention, other_error, Event, act, tick, timer, context_done, Answer,
  System,
}

-- whether a call was to write an outcome, was told that the lease is lost, wrote an outcome
pub record Note : Type 0 where
  pub is_outcome : Bool
  pub is_lost : Bool
  pub is_accepted : Bool

abbrev pub note_of : {A : Type 0} → Bool → Outcome StoreError A → Note
note_of b (ok a) = record { is_outcome = b; is_lost = false; is_accepted = b }
note_of b (err lease_lost) = record { is_outcome = b; is_lost = true; is_accepted = false }
note_of b (err contention) = record { is_outcome = b; is_lost = false; is_accepted = false }
note_of b (err other_error) = record { is_outcome = b; is_lost = false; is_accepted = false }

abbrev pub Log : Type 0 → Type 0
Log W = W × List Note

abbrev pub with_note : {W A : Type 0} → Bool → List Note → Answer W A → Answer (Log W) A
with_note b log (a, w) = (a, (w, note_of b a ∷ log))

-- a call whose answers say nothing of the runner's lease
abbrev pub without_note : {W A : Type 0} → List Note → Answer W A → Answer (Log W) A
without_note log (a, w) = (a, (w, log))

abbrev pub logged_event : {W : Type 0} → Event W → Event (Log W)
logged_event (act f) = act (λ v. (f v.0, v.1))
logged_event tick = tick
logged_event timer = timer
logged_event context_done = context_done

abbrev pub logged_events : {W : Type 0} → List (Event W) → List (Event (Log W))
logged_events [] = []
logged_events (e ∷ events) = logged_event e ∷ logged_events events

abbrev pub logged : {W : Type 0} → System W → System (Log W)
logged s = record {
  recover = λ now v. without_note v.1 (s.recover now v.0);
  claim = λ now v. without_note v.1 (s.claim now v.0);
  renew = λ id now v. with_note false v.1 (s.renew id now v.0);
  complete = λ id now v. with_note true v.1 (s.complete id now v.0);
  fail = λ id now retry_at code message v.
      with_note true v.1 (s.fail id now retry_at code message v.0);
  now = λ v. s.now v.0;
  wait = λ d v. let waited = s.wait d v.0 in (waited.0, (waited.1, v.1));
  canceled = λ v. s.canceled v.0;
  is_registered = s.is_registered;
  schedule = λ task v. logged_events (s.schedule task v.0);
  handled = λ task v. s.handled task v.0;
}

abbrev pub has_lost : List Note → Bool
has_lost log = exists_where (λ n. n.is_lost) log

abbrev pub accepted : List Note → ℕ
accepted log = count_where (λ n. n.is_accepted) log

-- no outcome is written after the answer that the lease is lost
abbrev pub IsFenced : List Note → Type 0
IsFenced [] = Unit
IsFenced (n ∷ log) = (n.is_outcome ≡ true → has_lost log ≡ false) × IsFenced log
