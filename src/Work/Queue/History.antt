-- ===== src/Work/Queue/History.antt =====
-- The tasks that have ended, over any run of requests: no method but the clearing of history
-- writes their rows.
use gooru.Prelude.{
  ℕ, ◌+◌, ◌≤◌, String, ◌≡◌, Bool, true, false, List, [], ◌∷◌, arith, bit, Updated, count_where,
}
use gooru.Prelude.Rows.{count_where-append, count_where-update_where_ge}
use gooru.Work.Schema.{is_active, Task, Db}
use gooru.Work.Keeps.Steps.{Laws}
use gooru.Work.Keeps.Serve.{keep-serve}
use gooru.Work.Requests.{Request, serve}

-- at least `n` tasks satisfy the test
abbrev AtLeast : (Task → Bool) → ℕ → List Task → Type 0
AtLeast q n ts = n ≤ count_where q ts

AtLeast-Laws :
    (q : Task → Bool) (n : ℕ)
    → ((t : Task) → is_active t.status ≡ true → q t ≡ false)
    → Laws (AtLeast q n)
AtLeast-Laws q n ended = record {
  grow = λ ts t new free fresh h. omega (arith, count_where-append q ts (t ∷ []), h);
  change_one = λ ts u up k h. one ts u (up.counts q) (ended u.old k.2) h;
  change_all = λ p g ts k h.
      omega (arith, count_where-update_where_ge q p g ts (λ t e. ended t (k t e).2), h);
}
  where
    one :
        (ts : List Task) (u : Updated Task)
        → count_where q u.rows + bit (q u.old) ≡ count_where q ts + bit (q u.row)
        → q u.old ≡ false
        → n ≤ count_where q ts
        → n ≤ count_where q u.rows
    one ts u c e h = ground (arith, c, e, h)

-- No request writes or deletes the row of a task that has ended: for any test that only tasks
-- which are neither pending nor running can satisfy, at least as many tasks satisfy it after a
-- list of requests as before.
pub ended_tasks_stay :
    (valid : String → Bool) (q : Task → Bool) (db : Db) (requests : List (ℕ × Request))
    → ((t : Task) → is_active t.status ≡ true → q t ≡ false)
    → count_where q db.tasks ≤ count_where q (serve valid db requests).tasks
ended_tasks_stay valid q db requests ended =
    keep-serve (AtLeast q (count_where q db.tasks)) (AtLeast-Laws q (count_where q db.tasks) ended)
      valid db requests (omega arith)
