-- ===== src/Work/Queue/Priority.antt =====
-- Which task a claim takes: ORDER BY priority DESC, created_at of `ClaimNextBackgroundTask`.
use gooru.Prelude.{
  ℕ, ◌+◌, ◌≤◌, ◌<◌, String, ◌≡◌, refl, Bool, true, false, Option, none, some, List, [], ◌∷◌, inl,
  inr, arith, bit, Bool-cases, ltb, count_where, find_where, update_where, first_by, ap, sym, ◌∙◌,
  All, All-imp, if◌then◌else◌, eq_refl, better,
}
use gooru.Prelude.Int.{ℤ, pos, negsuc, ltb_ℤ}
use gooru.Prelude.Unique.{find_where-key, update_one-key}
use gooru.Work.Schema.{is_pending, Task, Db, normalize_work_time}
use gooru.Work.Result.{Ensures, Ensures-ok, Ensures-guard, Ensures-then}
use gooru.Work.Operations.{mark_background_operation_started}
use gooru.Work.Claim.{
  is_claimable, claimed_before, claim_task, is_chosen, claim_chosen, insert_attempt, claim_row,
  claim_next_background_task,
}
use gooru.Work.Keeps.Steps.{keep-attempt, keep-start}
use gooru.Work.Queue.Keys.{IsKeyed, named}

ltb_ℤ-asym : (a b : ℤ) → ltb_ℤ a b ≡ true → ltb_ℤ b a ≡ false
ltb_ℤ-asym (pos a) (pos b) h = ground arith
ltb_ℤ-asym (pos a) (negsuc b) h = cc
ltb_ℤ-asym (negsuc a) (pos b) h = refl
ltb_ℤ-asym (negsuc a) (negsuc b) h = ground arith

ltb_ℤ-between : (a b c : ℤ) → ltb_ℤ a b ≡ false → ltb_ℤ b c ≡ false → ltb_ℤ a c ≡ false
ltb_ℤ-between (pos a) (pos b) (pos c) h k = ground arith
ltb_ℤ-between (pos a) (pos b) (negsuc c) h k = refl
ltb_ℤ-between (pos a) (negsuc b) (pos c) h k = cc
ltb_ℤ-between (pos a) (negsuc b) (negsuc c) h k = refl
ltb_ℤ-between (negsuc a) (pos b) c h k = cc
ltb_ℤ-between (negsuc a) (negsuc b) (pos c) h k = cc
ltb_ℤ-between (negsuc a) (negsuc b) (negsuc c) h k = ground arith

-- higher in priority, or as high and created earlier
abbrev pub more_urgent : Task → Task → Bool
more_urgent s t =
    if ltb_ℤ t.priority s.priority
    then true
    else if ltb_ℤ s.priority t.priority
    then false
    else ltb s.created_at t.created_at

before-urgent : (y x : Task) → claimed_before y x ≡ true → more_urgent x y ≡ false
unfolding claimed_before
before-urgent y x h =
    ground (arith, ltb_ℤ-asym x.priority y.priority, ltb_ℤ-asym y.priority x.priority)

not_before-urgent : (y x : Task) → claimed_before y x ≡ false → more_urgent y x ≡ false
unfolding claimed_before
not_before-urgent y x h = ground arith

urgent-between :
    (s y x : Task) → more_urgent s y ≡ false → more_urgent y x ≡ false → more_urgent s x ≡ false
urgent-between s y x h k = ground (
  arith,
  ltb_ℤ-between x.priority y.priority s.priority,
  ltb_ℤ-between y.priority s.priority x.priority,
  ltb_ℤ-between s.priority x.priority y.priority,
  ltb_ℤ-between y.priority x.priority s.priority,
  ltb_ℤ-between s.priority y.priority x.priority,
  ltb_ℤ-between x.priority s.priority y.priority,
  h,
  k,
)

-- What the inner query of a claim returns.
record IsBest (q : Task → Bool) (ts : List Task) (b : Task) : Type 0 where
  eligible : q b ≡ true
  least : All (λ s. q s ≡ true → more_urgent s b ≡ false) ts
  present : 0 < count_where (named b.id) ts
  found : count_where (named b.id) ts ≤ 1 → find_where (is_chosen b.id) ts ≡ some b

abbrev Best : (Task → Bool) → List Task → Option Task → Type 0
Best q ts none = count_where q ts ≡ 0
Best q ts (some b) = IsBest q ts b

module _ (q : Task → Bool)
    (pending_only : (t : Task) → q t ≡ true → is_pending t.status ≡ true) where
  behind-IsBest :
      (x : Task) (ts : List Task) (y : Task)
      → (q x ≡ true → more_urgent x y ≡ false)
      → IsBest q ts y
      → IsBest q (x ∷ ts) y
  unfolding count_where find_where
  behind-IsBest x ts y c h = record {
    eligible = h.eligible;
    least = (c, h.least);
    present = omega (arith, h.present);
    found = λ k. rw (other k) (h.found (omega (arith, k)));
  }
    where
      other : bit (named y.id x) + count_where (named y.id) ts ≤ 1 → is_chosen y.id x ≡ false
      other k = ground (arith, k, h.present)

  ahead :
      (x : Task) (ts : List Task)
      → q x ≡ true
      → All (λ s. q s ≡ true → more_urgent s x ≡ false) ts
      → IsBest q (x ∷ ts) x
  unfolding count_where find_where
  ahead x ts e l = record {
    eligible = e;
    least = ((λ k. ground (arith, ltb_ℤ-asym x.priority x.priority)), l);
    present = rw (eq_refl x.id) (omega arith);
    found = λ k. rw (eq_refl x.id, pending_only x e) refl;
  }

  none_eligible :
      (x : Task) (ts : List Task)
      → count_where q ts ≡ 0
      → All (λ s. q s ≡ true → more_urgent s x ≡ false) ts
  unfolding count_where
  none_eligible x [] h = tt
  none_eligible x (t ∷ ts) h = ((λ e. absurd (clash e)), none_eligible x ts (ground (arith, h)))
    where
      clash : q t ≡ true → ⊥
      clash e = ground (arith, h)

  choose :
      (x : Task) (ts : List Task) (o : Option Task)
      → q x ≡ true
      → Best q ts o
      → Best q (x ∷ ts) (better claimed_before x o)
  choose x ts none e h = ahead x ts e (none_eligible x ts h)
  choose x ts (some y) e h = elim (Bool-cases (claimed_before y x)) [
    | inl c ↦ rw c (behind-IsBest x ts y (λ k. before-urgent y x c) h)
    | inr c ↦ rw c (
        ahead x ts e
          (All-imp _ _ ts (λ s l k. urgent-between s y x (l k) (not_before-urgent y x c)) h.least))
  ]

  skip :
      (x : Task) (ts : List Task) (o : Option Task) → q x ≡ false → Best q ts o → Best q (x ∷ ts) o
  unfolding count_where
  skip x ts none e h = ground (arith, e, h)
  skip x ts (some y) e h = behind-IsBest x ts y (λ k. cc) h

  first-Best : (ts : List Task) → Best q ts (first_by claimed_before q ts)
  unfolding first_by count_where
  first-Best [] = refl
  first-Best (x ∷ ts) = elim (Bool-cases (q x)) [
    | inl e ↦ rw e (choose x ts (first_by claimed_before q ts) e (first-Best ts))
    | inr e ↦ rw e (skip x ts (first_by claimed_before q ts) e (first-Best ts))
  ]

claimable-pending :
    (class : String) (now : ℕ) (t : Task)
    → is_claimable class now t ≡ true
    → is_pending t.status ≡ true
unfolding is_claimable
claimable-pending class now t h = ground arith

-- No task can be claimed, or the row of one is written that was eligible and of which no eligible
-- task was more urgent.
abbrev pub TakesFirst : String → String → ℕ → ℕ → Db → Option Task × Db → Type 0
TakesFirst class worker now expires db (none, r) =
    (count_where (is_claimable class now) db.tasks ≡ 0) × (r ≡ db)
TakesFirst class worker now expires db (some t, r) =
    (best : Task) × (t ≡ claim_task worker now expires best)
    × (is_claimable class now best ≡ true)
    × All (λ s. is_claimable class now s ≡ true → more_urgent s best ≡ false) db.tasks
    × (find_where (named best.id) db.tasks ≡ some best)
    × (r.tasks ≡ update_where (named best.id) (λ s. t) db.tasks)

claimed :
    (class worker : String) (now expires : ℕ) (db : Db) (o : Option Task)
    → IsKeyed db.tasks
    → Best (is_claimable class now) db.tasks o
    → Ensures
        (TakesFirst class worker now expires db)
        (claim_row worker now db (claim_chosen worker now expires db.tasks o))
claimed class worker now expires db none keyed h = Ensures-ok _ (h, refl)
claimed class worker now expires db (some b) keyed h =
    let found = h.found (keyed.1 b.id) in
    let by_id : (t : Task) → is_chosen b.id t ≡ true → named b.id t ≡ true = λ t c. ground arith in
    let (u, written, row, rows) =
      update_one-key (is_chosen b.id) (named b.id) by_id (claim_task worker now expires) db.tasks b
        found (keyed.1 b.id) in
    let same : List Task → Type 0 = λ ts. ts ≡ u.rows in
    rw written (
      Ensures-then (insert_attempt u.row worker now (record db { tasks = u.rows })) _
        (keep-attempt same u.row worker now (record db { tasks = u.rows }) refl)
        λ db1 k.
          Ensures-then (mark_background_operation_started u.row.operation_id now db1) _
            (keep-start same u.row.operation_id now db1 k)
            λ db2 l. Ensures-ok _ (
              b,
              row,
              h.eligible,
              h.least,
              find_where-key (is_chosen b.id) (named b.id) by_id db.tasks b found (keyed.1 b.id),
              l ∙ rows ∙ ap (λ t. update_where (named b.id) (λ s. t) db.tasks) (sym row),
            ))

-- Where task ids are unique, a successful claim takes a task of the table that was eligible (of the
-- resource class, pending, available and with attempts left) such that no eligible task has a higher
-- priority, nor the same priority and an earlier creation. It returns that task as it is running
-- under the worker's lease, writes it in the task's row, and leaves each other task as it was. It
-- takes none, and changes nothing, only where no task is eligible.
pub claim-TakesFirst :
    (clock : ℕ) (class worker : String) (at : Option ℕ) (lease : ℕ) (db : Db)
    → IsKeyed db.tasks
    → (let now = normalize_work_time clock at in
        Ensures
          (TakesFirst class worker now (now + lease) db)
          (claim_next_background_task clock class worker at lease db))
unfolding claim_next_background_task
claim-TakesFirst clock class worker at lease db keyed =
    let now : ℕ = normalize_work_time clock at in
    Ensures-guard _ _ _ λ _. Ensures-guard _ _ _ λ _. Ensures-guard _ _ _ λ _.
      claimed class worker now (now + lease) db _ keyed
        (first-Best (is_claimable class now) (claimable-pending class now) db.tasks)
