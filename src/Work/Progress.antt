-- ===== src/Work/Progress.antt =====
-- The progress of an operation, against the tasks that are attached to it. `IsOwed` is what holds
-- inside a transaction, between the UPDATE of a task and the UPDATE of its operation.
pub mod Settle
pub mod Insert
pub mod Finish
pub mod Cancel
pub mod Claim
pub mod Recover
pub mod Stops
pub mod Attach
pub mod Reconcile
use gooru.Prelude.{
  ℕ, ◌+◌, ◌≤◌, String, ◌==◌, ◌≡◌, refl, Bool, true, false, ◌&&◌, ◌||◌, not, Option, none, some,
  List, [], ◌∷◌, ◌++◌, All, All-imp, Updated, inl, inr, arith, bit, count_where, exists_where,
  update_where, sym, ap, ◌∙◌, if◌then◌else◌, Bool-cases,
}
use gooru.Prelude.Rows.{IsUpdate, count_where-update_where, exists_where-update_where}
use gooru.Work.Schema.{
  Status, is_active, is_terminal, is_completed, is_failed, is_canceled, Operation, Task, Db,
  belongs,
}
use gooru.Work.Operations.{child, children}

-- `completions` and `failures` are the finished children that the counters do not count yet.
pub record IsOwed (completions failures : String → ℕ) (tasks : List Task) (o : Operation)
    : Type 0 where
  pub named : (o.id == "") ≡ false
  pub completed_exact : o.progress_completed + completions o.id ≡ children o.id is_completed tasks
  pub failed_exact : o.progress_failed + failures o.id ≡ children o.id is_failed tasks
  pub drained : is_terminal o.status ≡ true → children o.id is_active tasks ≡ 0

-- an operation with this id exists
abbrev pub has_id : String → Operation → Bool
has_id id o = o.id == id

abbrev pub links : String → Task → Bool
links id t = belongs id t.operation_id

-- The foreign key: no task names an operation that does not exist.
abbrev pub IsAnchored : List Operation → List Task → Type 0
IsAnchored ops tasks =
    (id : String) → exists_where (has_id id) ops ≡ false → count_where (links id) tasks ≡ 0

pub record AllOwed (c f : String → ℕ) (db : Db) : Type 0 where
  pub rows : All (IsOwed c f db.tasks) db.operations
  pub anchored : IsAnchored db.operations db.tasks

abbrev pub nothing : String → ℕ
nothing id = 0

-- Between two transactions nothing is owed: the counters are the numbers of completed and failed
-- children, and no operation that has ended has a child that is pending or running.
abbrev pub IsSettled : Db → Type 0
IsSettled db = AllOwed nothing nothing db

-- `n` for the operation that a task belongs to
abbrev pub owed_to : Option String → ℕ → String → ℕ
owed_to parent n id = if belongs id parent then n else 0

-- more owed to one operation
abbrev pub plus : (String → ℕ) → Option String → ℕ → String → ℕ
plus g parent n id = g id + owed_to parent n id

-- How a change of one task moves the counts of every operation.
pub record IsChange (c f : ℕ) (old new : Task) : Type 0 where
  pub parent : new.operation_id ≡ old.operation_id
  pub completion : bit (is_completed new.status) ≡ bit (is_completed old.status) + c
  pub failure : bit (is_failed new.status) ≡ bit (is_failed old.status) + f
  pub activity : bit (is_active new.status) ≤ bit (is_active old.status)

child-moves :
    (test : Status → Bool) (k : ℕ) (old new : Task) (id : String)
    → new.operation_id ≡ old.operation_id
    → bit (test new.status) ≡ bit (test old.status) + k
    → bit (child id test new) ≡ bit (child id test old) + owed_to new.operation_id k id
child-moves test k old new id e h = elim (Bool-cases (belongs id old.operation_id)) [
  | inl t ↦ rw (e, t) h
  | inr t ↦ rw (e, t)
]

child-falls :
    (old new : Task) (id : String)
    → new.operation_id ≡ old.operation_id
    → bit (is_active new.status) ≤ bit (is_active old.status)
    → bit (child id is_active new) ≤ bit (child id is_active old)
child-falls old new id e h = elim (Bool-cases (belongs id old.operation_id)) [
  | inl t ↦ rw (e, t) h
  | inr t ↦ rw (e, t) (omega arith)
]

module _ {c f : String → ℕ} where
  -- An UPDATE of one task leaves its operation owed for what the task finished.
  pub IsOwed-change :
      {p : Task → Bool} {g : Task → Task} {tasks : List Task} {u : Updated Task} (n m : ℕ)
      → IsUpdate p g tasks u
      → IsChange n m u.old u.row
      → (o : Operation) → IsOwed c f tasks o
      → IsOwed (plus c u.row.operation_id n) (plus f u.row.operation_id m) u.rows o
  unfolding children
  IsOwed-change {u = u} n m up ch o h = record {
    named = h.named;
    completed_exact = omega (
      arith,
      h.completed_exact,
      up.counts (child o.id is_completed),
      child-moves is_completed n u.old u.row o.id ch.parent ch.completion,
    );
    failed_exact = omega (
      arith,
      h.failed_exact,
      up.counts (child o.id is_failed),
      child-moves is_failed m u.old u.row o.id ch.parent ch.failure,
    );
    drained = λ t. omega (
      arith,
      h.drained t,
      up.counts (child o.id is_active),
      child-falls u.old u.row o.id ch.parent ch.activity,
    );
  }

  -- What is owed may be written in another way.
  pub IsOwed-cong :
      {c' f' : String → ℕ} (tasks : List Task) (o : Operation)
      → c o.id ≡ c' o.id
      → f o.id ≡ f' o.id
      → IsOwed c f tasks o
      → IsOwed c' f' tasks o
  IsOwed-cong tasks o p q h = record {
    named = h.named;
    completed_exact = omega (arith, h.completed_exact);
    failed_exact = omega (arith, h.failed_exact);
    drained = h.drained;
  }

pub plus-zero : (g : String → ℕ) (parent : Option String) (id : String) → plus g parent 0 id ≡ g id
plus-zero g parent id = ground arith

-- Statements that keep the ids of operations and the links of tasks keep the foreign key.
pub IsAnchored-operations :
    (p : Operation → Bool) (g : Operation → Operation) (ops : List Operation) (tasks : List Task)
    → ((o : Operation) → (g o).id ≡ o.id)
    → IsAnchored ops tasks
    → IsAnchored (update_where p g ops) tasks
IsAnchored-operations p g ops tasks k h id e = h id (
    sym (exists_where-update_where (has_id id) p g ops (λ o. ap (λ (x : String). x == id) (k o)))
    ∙ e)

pub IsAnchored-tasks :
    (p : Task → Bool) (g : Task → Task) (ops : List Operation) (tasks : List Task)
    → ((t : Task) → (g t).operation_id ≡ t.operation_id)
    → IsAnchored ops tasks
    → IsAnchored ops (update_where p g tasks)
IsAnchored-tasks p g ops tasks k h id e =
    count_where-update_where (links id) p g tasks (λ t s. ap (belongs id) (k t)) ∙ h id e

pub IsAnchored-update :
    {p : Task → Bool} {g : Task → Task} (ops : List Operation) {tasks : List Task}
    {u : Updated Task}
    → IsUpdate p g tasks u
    → u.row.operation_id ≡ u.old.operation_id
    → IsAnchored ops tasks
    → IsAnchored ops u.rows
IsAnchored-update ops {u = u} up k h id e =
    omega (arith, up.counts (links id), h id e, ap (λ (x : Option String). bit (belongs id x)) k)

pub AllOwed-map :
    {c f c' f' : String → ℕ} (db : Db)
    → ((o : Operation) → IsOwed c f db.tasks o → IsOwed c' f' db.tasks o)
    → AllOwed c f db
    → AllOwed c' f' db
AllOwed-map db k h = record { rows = All-imp _ _ db.operations k h.rows; anchored = h.anchored }

-- A task that neither completes nor fails leaves nothing owed.
pub IsSettled-change :
    {p : Task → Bool} {g : Task → Task} (db : Db) {u : Updated Task}
    → IsUpdate p g db.tasks u
    → IsChange 0 0 u.old u.row
    → IsSettled db
    → IsSettled (record db { tasks = u.rows })
IsSettled-change db {u} up ch h = record {
  rows =
      All-imp _ _ db.operations
        (λ o k.
          IsOwed-cong u.rows o (plus-zero nothing u.row.operation_id o.id)
            (plus-zero nothing u.row.operation_id o.id) (IsOwed-change 0 0 up ch o k))
        h.rows;
  anchored = IsAnchored-update db.operations up ch.parent h.anchored;
}
