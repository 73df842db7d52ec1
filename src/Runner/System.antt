-- ===== src/Runner/System.antt =====
-- What the runner stands on: TaskStore, the clock, the context, the handlers and their schedule.
use gooru.Prelude.{ℕ, String, Bool, Option, List}
use gooru.Prelude.Outcome.{Outcome}
use gooru.Work.Schema.{Task}

-- The errors of the store by what the runner tests: ErrBackgroundTaskLeaseLost,
-- IsTransientSQLiteContention, or neither.
pub data StoreError : Type 0 where
  lease_lost contention other_error : StoreError

-- how a handler returned: nil, ErrTaskFinalizedByHandler, or an error with its text
pub data Handled : Type 0 where
  succeeded finalized : Handled
  failed : String → Handled

-- What happens while a handler runs: the handler acts on the world, the ticker of the renewal or
-- the timer of its retry fires, or the context ends.
pub data Event (W : Type 0) : Type 0 where
  act : (W → W) → Event W
  tick timer context_done : Event W

-- An answer and the world after the call.
abbrev pub Answer : Type 0 → Type 0 → Type 0
Answer W A = Outcome StoreError A × W

-- `W` is everything outside the runner: the tables, the clock, the context and what other
-- processes do. `wait` returns true if the context ended first.
pub record System (W : Type 0) : Type 0 where
  pub recover : ℕ → W → Answer W ℕ
  pub claim : ℕ → W → Answer W (Option Task)
  pub renew : String → ℕ → W → Answer W (Unit {0})
  pub complete : String → ℕ → W → Answer W (Unit {0})
  pub fail : String → ℕ → ℕ → String → String → W → Answer W Bool
  pub now : W → ℕ
  pub wait : ℕ → W → Bool × W
  pub canceled : W → Bool
  pub is_registered : String → Bool
  pub schedule : Task → W → List (Event W)
  pub handled : Task → W → Handled
