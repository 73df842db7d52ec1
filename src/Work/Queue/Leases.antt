-- ===== src/Work/Queue/Leases.antt =====
-- The lease that a claim gives, against other workers.
use gooru.Prelude.{
  ℕ, ◌+◌, ◌≤◌, String, ◌==◌, ◌≡◌, ap, Bool, false, Option, none, some, List, [], ◌∷◌, arith, bit,
  count_where, Updated, first_by, eq_iff, ◌∙◌,
}
use gooru.Prelude.Rows.{OnSome, IsUpdate, update_one-IsUpdate, update_one-none}
use gooru.Work.Schema.{Task, Db, normalize_work_time}
use gooru.Work.Result.{Ensures, Ensures-ok, Ensures-err, Ensures-guard, Ensures-then}
use gooru.Work.Claim.{
  claim_task, is_chosen, claim_chosen, claim_row, claim_next_background_task, is_claimable,
  claimed_before, holds_lease,
}
use gooru.Work.Finish.{complete_background_task}
use gooru.Work.Keeps.Steps.{keep-attempt, keep-start}
use gooru.Work.Queue.Keys.{IsKeyed, named}

-- The other worker cannot complete the task that was claimed.
abbrev pub IsRefused : String → ℕ → Option ℕ → Option Task × Db → Type 0
IsRefused other clock at (none, r) = Unit
IsRefused other clock at (some t, r) =
    Ensures (λ d. ⊥) (complete_background_task clock t.id other at r)

-- Two tests that exclude each other and imply a third.
count_where-disjoint :
    (p q r : Task → Bool) (ts : List Task)
    → ((t : Task) → bit (p t) + bit (q t) ≤ bit (r t))
    → count_where p ts + count_where q ts ≤ count_where r ts
unfolding count_where
count_where-disjoint p q r [] k = omega arith
count_where-disjoint p q r (t ∷ ts) k = omega (arith, k t, count_where-disjoint p q r ts k)

held_or_chosen :
    (id other : String) (now : ℕ) (t : Task)
    → bit (holds_lease id other now t) + bit (is_chosen id t) ≤ bit (named id t)
unfolding holds_lease
held_or_chosen id other now t = ground arith

-- no row of this id is leased to the other worker
abbrev Unheld : String → String → List Task → Type 0
Unheld id other ts = (now : ℕ) → count_where (holds_lease id other now) ts ≡ 0

claimed-Unheld :
    (id worker other : String) (now expires : ℕ) (ts : List Task) (u : Updated Task)
    → IsUpdate (is_chosen id) (claim_task worker now expires) ts u
    → count_where (named id) ts ≤ 1
    → (worker == other) ≡ false
    → Unheld id other u.rows
unfolding holds_lease claim_task
claimed-Unheld id worker other now expires ts u up unique differ at = omega (
  arith,
  unique,
  up.counts (holds_lease id other at),
  up.counts (is_chosen id),
  count_where-disjoint (holds_lease id other at) (is_chosen id) (named id) ts
      (held_or_chosen id other at),
  new_row,
  new_chosen,
  old_chosen,
)
  where
    new_row : bit (holds_lease id other at u.row) ≡ 0
    new_row = rw up.written (ground (arith, differ))

    new_chosen : bit (is_chosen id u.row) ≡ 0
    new_chosen = rw up.written (ground arith)

    old_chosen : bit (is_chosen id u.old) ≡ 1
    old_chosen = rw up.chosen

refused :
    (clock : ℕ) (id other : String) (at : Option ℕ) (db : Db)
    → Unheld id other db.tasks
    → Ensures (λ d. ⊥) (complete_background_task clock id other at db)
unfolding complete_background_task
refused clock id other at db h =
    let now : ℕ = normalize_work_time clock at in
    Ensures-guard _ _ _
      λ _. rw (update_one-none (holds_lease id other now) _ db.tasks (h now)) (Ensures-err _)

module _ (clock' : ℕ) (worker other : String) (at' : Option ℕ) where
  row_excludes :
      (now : ℕ) (db : Db) (u : Updated Task)
      → Unheld u.row.id other u.rows
      → Ensures (IsRefused other clock' at') (claim_row worker now db (some u))
  row_excludes now db u h =
      Ensures-then _ _
        (keep-attempt (Unheld u.row.id other) u.row worker now (record db { tasks = u.rows }) h)
        λ db1 h1.
          Ensures-then _ _ (keep-start (Unheld u.row.id other) u.row.operation_id now db1 h1)
            λ db2 h2. Ensures-ok _ (refused clock' u.row.id other at' db2 h2)

  chosen_excludes :
      (now expires : ℕ) (db : Db) (id : String) (o : Option (Updated Task))
      → IsKeyed db.tasks
      → (worker == other) ≡ false
      → OnSome (IsUpdate (is_chosen id) (claim_task worker now expires) db.tasks) o
      → Ensures (IsRefused other clock' at') (claim_row worker now db o)
  unfolding claim_task
  chosen_excludes now expires db id none keyed differ h = Ensures-ok _ tt
  chosen_excludes now expires db id (some u) keyed differ h =
      let same : u.row.id ≡ id =
        ap (λ (t : Task). t.id) h.written ∙ (eq_iff u.old.id id).0 (ground (arith, h.chosen)) in
      row_excludes now db u
        (rw same (claimed-Unheld id worker other now expires db.tasks u h (keyed.1 id) differ))

  best_excludes :
      (now expires : ℕ) (db : Db) (best : Option Task)
      → IsKeyed db.tasks
      → (worker == other) ≡ false
      → Ensures
          (IsRefused other clock' at')
          (claim_row worker now db (claim_chosen worker now expires db.tasks best))
  best_excludes now expires db none keyed differ = Ensures-ok _ tt
  best_excludes now expires db (some best) keyed differ =
      chosen_excludes now expires db best.id _ keyed differ
        (update_one-IsUpdate (is_chosen best.id) (claim_task worker now expires) db.tasks)

-- Where task ids are unique, no other worker can complete the task that a claim has given to a
-- worker, at any time, in the tables that the claim leaves.
pub claim_excludes :
    (clock clock' : ℕ) (class worker other : String) (at at' : Option ℕ) (lease : ℕ) (db : Db)
    → IsKeyed db.tasks
    → (worker == other) ≡ false
    → Ensures
        (IsRefused other clock' at')
        (claim_next_background_task clock class worker at lease db)
unfolding claim_next_background_task
claim_excludes clock clock' class worker other at at' lease db keyed differ =
    Ensures-guard _ _ _ λ _. Ensures-guard _ _ _ λ _. Ensures-guard _ _ _ λ _.
      best_excludes clock' worker other at' _ _ db
        (first_by claimed_before (is_claimable class _) db.tasks) keyed differ
