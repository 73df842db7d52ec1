-- ===== src/Work/Schema.antt =====
-- The durable work tables: internal/database/durable_work.go, and the columns that
-- internal/database/migrations/023, 026, 027, 031, 034, 035, 036 and 040 declare.
-- A time.Time is a number of nanoseconds; the columns hold milliseconds.
use gooru.Prelude.{ℕ, ◌*◌, ◌/◌, String, ◌==◌, Bool, true, false, not, Option, none, some, List, []}
use gooru.Prelude.Int.{ℤ}

-- `BackgroundWorkStatus`, shared by operations and tasks
pub data Status : Type 0 where
  pending running completed failed canceled : Status

abbrev pub is_pending : Status → Bool
is_pending pending = true
is_pending _ = false

abbrev pub is_running : Status → Bool
is_running running = true
is_running _ = false

abbrev pub is_completed : Status → Bool
is_completed completed = true
is_completed _ = false

abbrev pub is_failed : Status → Bool
is_failed failed = true
is_failed _ = false

abbrev pub is_canceled : Status → Bool
is_canceled canceled = true
is_canceled _ = false

-- status IN ('pending', 'running')
abbrev pub is_active : Status → Bool
is_active pending = true
is_active running = true
is_active _ = false

-- status IN ('completed', 'failed', 'canceled')
abbrev pub is_terminal : Status → Bool
is_terminal s = not (is_active s)

pub data Outcome : Type 0 where
  running completed failed canceled abandoned : Outcome

abbrev pub outcome_running : Outcome → Bool
outcome_running Outcome.running = true
outcome_running _ = false

-- `error_message` of an operation: a caller's text, or "%d background task(s) failed", which is
-- kept as its number
pub data Message : Type 0 where
  text : String → Message
  tasks_failed : ℕ → Message

-- a row of background_operations
pub record Operation : Type 0 where
  pub id : String
  pub kind : String
  pub visible : Bool
  pub status : Status
  pub progress_total : ℕ
  pub progress_completed : ℕ
  pub progress_failed : ℕ
  pub created_at : ℕ
  pub started_at : Option ℕ
  pub finished_at : Option ℕ
  pub error_code : String
  pub error_message : Message
  pub result_json : String
  pub checkpoint_json : String
  pub attached_task_count : ℕ
  pub producer_claimed : Bool

-- `BackgroundTaskCleanup`; the column terminal_cleanup_json holds it, '' being `none`
pub record Cleanup : Type 0 where
  pub dedupe_key : String
  pub kind : String
  pub subject_kind : String
  pub subject_id : String
  pub input_key : String
  pub resource_class : String
  pub priority : ℤ
  pub max_attempts : ℤ

-- a row of background_tasks; `none` in `operation_id` is NULL
pub record Task : Type 0 where
  pub id : String
  pub operation_id : Option String
  pub dedupe_key : String
  pub kind : String
  pub subject_kind : String
  pub subject_id : String
  pub input_key : String
  pub resource_class : String
  pub priority : ℤ
  pub status : Status
  pub available_at : ℕ
  pub lease_owner : String
  pub lease_expires_at : Option ℕ
  pub created_at : ℕ
  pub started_at : Option ℕ
  pub finished_at : Option ℕ
  pub attempt_count : ℕ
  pub max_attempts : ℕ
  pub last_error_code : String
  pub last_error_message : String
  pub terminal_cleanup : Option Cleanup
  pub checkpoint_json : String
  pub result_json : String

-- a row of background_task_attempts
pub record Attempt : Type 0 where
  pub task_id : String
  pub attempt_number : ℕ
  pub worker_id : String
  pub started_at : ℕ
  pub finished_at : Option ℕ
  pub outcome : Outcome
  pub error_code : String
  pub error_message : String

-- a row of background_operation_associations
pub record Association : Type 0 where
  pub producer_operation_id : String
  pub auxiliary_kind : String
  pub auxiliary_operation_id : String
  pub created_at : ℕ

pub record Db : Type 0 where
  pub operations : List Operation
  pub tasks : List Task
  pub attempts : List Attempt
  pub associations : List Association

abbrev pub empty : Db
empty = record { operations = []; tasks = []; attempts = []; associations = [] }

-- WHERE operation_id = ?; NULL equals nothing
abbrev pub belongs : String → Option String → Bool
belongs id none = false
belongs id (some o) = id == o

-- `normalizeWorkTime`: the zero time is replaced by the clock
abbrev pub normalize_work_time : ℕ → Option ℕ → ℕ
normalize_work_time clock none = clock
normalize_work_time clock (some t) = t

-- `workTimeValue` and `workTime`
abbrev pub work_time_value : ℕ → ℕ
work_time_value t = t / 1000000

abbrev pub work_time : ℕ → ℕ
work_time v = v * 1000000

-- COALESCE(column, v)
abbrev pub coalesce : Option ℕ → ℕ → Option ℕ
coalesce none v = some v
coalesce (some t) v = some t
