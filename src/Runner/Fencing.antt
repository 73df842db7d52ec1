-- ===== src/Runner/Fencing.antt =====
-- The log of the calls for one claimed task.
use gooru.Prelude.{
  ℕ, refl, String, false, Option, none, some, List, [], ◌∷◌, exists_where, count_where, Bool-cases,
  inl, inr,
}
use gooru.Prelude.Outcome.{ok, err}
use gooru.Work.Schema.{Task}
use gooru.Runner.System.{
  StoreError, lease_lost, contention, other_error, Handled, succeeded, finalized, failed, Event,
  act, tick, timer, context_done, Answer, System,
}
use gooru.Runner.Claimed.{
  Renewer, ticking, retrying, ended, renewed, renew_call, renew_event, renew_lease, renew_error,
  after_handler, run_handler, run_claimed,
}
use gooru.Runner.Logged.{Note, Log, with_note, logged, logged_event, logged_events}
use gooru.Runner.Outcomes.{
  IsOpen, IsQuiet, renewal-answer, write_outcome-Quiet, fail_claimed-Quiet, after_outcome-Quiet,
  recover_lease_loss-Quiet,
}

module _ {W : Type 0} (s : System W) (poll_interval retry_delay : ℕ) where
  -- while the handler runs: the log is open until the renewal has ended with an error
  abbrev Renews : Renewer → List Note → Type 0
  Renews ticking log = IsOpen log
  Renews retrying log = IsOpen log
  Renews (ended none) log = IsOpen log
  Renews (ended (some e)) log = IsQuiet log

  renewed-Renews :
      (a : Answer W (Unit {0})) (log : List Note)
      → IsOpen log
      → Renews
          (renewed (logged s) poll_interval retry_delay (with_note false log a).0)
          (with_note false log a).1.1
  renewed-Renews (ok u, w) log h = renewal-answer (ok u, w) log h
  renewed-Renews (err contention, w) log h = renewal-answer (err contention, w) log h
  renewed-Renews (err lease_lost, w) log h = renewal-answer (err lease_lost, w) log h
  renewed-Renews (err other_error, w) log h = renewal-answer (err other_error, w) log h

  renew_event-Renews :
      (id : String) (e : Event W) (r : Renewer) (v : Log W)
      → Renews r v.1
      → Renews
          (renew_event (logged s) poll_interval retry_delay id (logged_event e) r v).0
          (renew_event (logged s) poll_interval retry_delay id (logged_event e) r v).1.1
  unfolding renew_event renew_call
  renew_event-Renews id (act f) r v h = h
  renew_event-Renews id tick ticking v h = renewed-Renews (s.renew id (s.now v.0) v.0) v.1 h
  renew_event-Renews id tick retrying v h = h
  renew_event-Renews id tick (ended e) v h = h
  renew_event-Renews id timer ticking v h = h
  renew_event-Renews id timer retrying v h = renewed-Renews (s.renew id (s.now v.0) v.0) v.1 h
  renew_event-Renews id timer (ended e) v h = h
  renew_event-Renews id context_done ticking v h = h
  renew_event-Renews id context_done retrying v h = h
  renew_event-Renews id context_done (ended e) v h = h

  renew_lease-Renews :
      (id : String) (events : List (Event W)) (r : Renewer) (v : Log W)
      → Renews r v.1
      → Renews
          (renew_lease (logged s) poll_interval retry_delay id (logged_events events) r v).0
          (renew_lease (logged s) poll_interval retry_delay id (logged_events events) r v).1.1
  unfolding renew_lease
  renew_lease-Renews id [] r v h = h
  renew_lease-Renews id (e ∷ events) r v h =
      renew_lease-Renews id events _ _ (renew_event-Renews id e r v h)

  -- The log when the handler has returned.
  abbrev Returned : Option StoreError → List Note → Type 0
  Returned none log = IsOpen log
  Returned (some e) log = IsQuiet log

  renew_error-Returned :
      (r : Renewer) (log : List Note)
      → Renews r log
      → Returned (renew_error (logged s) poll_interval retry_delay r) log
  renew_error-Returned ticking log h = h
  renew_error-Returned retrying log h = h
  renew_error-Returned (ended none) log h = h
  renew_error-Returned (ended (some e)) log h = h

  after_handler-Quiet :
      (bound : ℕ) (task : Task) (e : Option StoreError) (r : Handled) (v : Log W)
      → Returned e v.1
      → IsQuiet (after_handler (logged s) poll_interval retry_delay bound task e r v).1.1
  unfolding after_handler
  after_handler-Quiet bound task none r v h =
      write_outcome-Quiet s poll_interval retry_delay bound task r v h
  after_handler-Quiet bound task (some lease_lost) finalized v h = h
  after_handler-Quiet bound task (some lease_lost) succeeded v h =
      recover_lease_loss-Quiet s poll_interval retry_delay bound v h
  after_handler-Quiet bound task (some lease_lost) (failed m) v h =
      recover_lease_loss-Quiet s poll_interval retry_delay bound v h
  after_handler-Quiet bound task (some contention) r v h = h
  after_handler-Quiet bound task (some other_error) r v h = h

-- In the log of the calls for one claimed task, whatever the store answers, the handler does and
-- the schedule is, no outcome is written after an answer that the lease is lost, and the store
-- accepts one outcome at most.
pub run_claimed-IsQuiet :
    {W : Type 0} (s : System W) (poll_interval retry_delay bound : ℕ) (task : Task) (w : W)
    → IsQuiet (run_claimed (logged s) poll_interval retry_delay bound task (w, [])).1.1
unfolding run_claimed run_handler exists_where count_where
run_claimed-IsQuiet s poll_interval retry_delay bound task w =
    let start : IsOpen [] = record { fenced = tt; kept = refl; unwritten = refl } in
    elim (Bool-cases (s.is_registered task.kind)) [
      | inl e ↦ rw e (
          after_handler-Quiet s poll_interval retry_delay bound task _ _ _ (
            renew_error-Returned s poll_interval retry_delay _ _ (
              renew_lease-Renews s poll_interval retry_delay task.id (s.schedule task w) ticking
                (w, []) start)))
      | inr e ↦ rw e (
          after_outcome-Quiet s poll_interval retry_delay bound _ _ (
            fail_claimed-Quiet s poll_interval retry_delay bound task.id "unsupported_task_kind" _
              (w, []) start))
    ]
