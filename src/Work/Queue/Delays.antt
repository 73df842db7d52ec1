-- ===== src/Work/Queue/Delays.antt =====
-- The delay of a cleanup that a stopped operation leaves behind.
use mathlib.Core.Path.{subst}
use gooru.Prelude.{
  if◌then◌else◌, refl, ℕ, ◌≤◌, ◌≡◌, ◌≢◌, ◌∙◌, sym, String, true, false, Option, none, some, List,
  [], ◌∷◌, All, All-imp, inl, inr, arith, Bool-cases,
}
use gooru.Work.Schema.{Task, is_running}
use gooru.Work.Operations.{child}
use gooru.Work.Tasks.{NewTask, pending_task}
use gooru.Work.Stops.{latest_running_lease, later_lease, safe_at, delay_cleanup}

abbrev Reaches : ℕ → Option ℕ → Type 0
Reaches e none = ⊥
Reaches e (some l) = e ≤ l

-- the lease of a running child is not after `latest`
abbrev IsCovered : String → Option ℕ → Task → Type 0
IsCovered id latest t =
    (e : ℕ) → child id is_running t ≡ true → t.lease_expires_at ≡ some e → Reaches e latest

Reaches-later : (e : ℕ) (a b : Option ℕ) → Reaches e b → Reaches e (later_lease a b)
Reaches-later e none b h = h
Reaches-later e (some a) none h = absurd h
Reaches-later e (some a) (some b) h = omega arith

Reaches-own : (e : ℕ) (b : Option ℕ) → Reaches e (later_lease (some e) b)
Reaches-own e none = omega arith
Reaches-own e (some b) = omega arith

latest-running :
    (id : String) (t : Task) (ts : List Task)
    → child id is_running t ≡ true
    → latest_running_lease id (t ∷ ts) ≡ later_lease t.lease_expires_at (latest_running_lease id ts)
unfolding latest_running_lease
latest-running id t ts r = rw r

latest-other :
    (id : String) (t : Task) (ts : List Task)
    → child id is_running t ≡ false
    → latest_running_lease id (t ∷ ts) ≡ latest_running_lease id ts
unfolding latest_running_lease
latest-other id t ts r = rw r

covered :
    (id : String) (tasks : List Task) → All (IsCovered id (latest_running_lease id tasks)) tasks
covered id [] = tt
covered id (t ∷ ts) = elim (Bool-cases (child id is_running t)) [
  | inl r ↦
      subst (λ l. All (IsCovered id l) (t ∷ ts)) (sym (latest-running id t ts r))
        (
          (λ e c l. rw l (Reaches-own e (latest_running_lease id ts))),
          All-imp _ _ ts
              (λ x h e c l.
                Reaches-later e t.lease_expires_at (latest_running_lease id ts) (h e c l))
              (covered id ts),
        )
  | inr r ↦
      subst (λ l. All (IsCovered id l) (t ∷ ts)) (sym (latest-other id t ts r))
        ((λ e c l. absurd (true≢false (sym c ∙ r))), covered id ts)
]
  where
    true≢false : true ≢ false
    true≢false p = cc

-- the claim time of the cleanup task that is enqueued with `safe`
abbrev pub cleanup_available : ℕ → ℕ → Option ℕ → NewTask → ℕ
cleanup_available clock now latest cleanup =
    (pending_task clock (delay_cleanup now (safe_at now latest) cleanup) none).available_at

available :
    (clock now : ℕ) (latest : Option ℕ) (cleanup : NewTask) (e : ℕ)
    → Reaches e latest
    → e ≤ cleanup_available clock now latest cleanup
unfolding delay_cleanup
available clock now none cleanup e h = absurd h
available clock now (some l) cleanup e h = ground arith

-- the instant at which the lease of a running child ends, 0 for any other task
abbrev pub running_lease : String → Task → ℕ
running_lease id t =
    if child id is_running t then (elim t.lease_expires_at [ none ↦ 0 | some e ↦ e ]) else 0

waits :
    (id : String) (t : Task) (latest : Option ℕ) (time : ℕ)
    → IsCovered id latest t
    → ((e : ℕ) → Reaches e latest → e ≤ time)
    → running_lease id t ≤ time
waits id t latest time h k = elim (Bool-cases (child id is_running t)) [
  | inl r ↦ rw r (go t.lease_expires_at (λ e l. k e (h e r l)))
  | inr r ↦ rw r (omega arith)
]
  where
    go :
        (o : Option ℕ)
        → ((e : ℕ) → o ≡ some e → e ≤ time)
        → (elim o [ none ↦ 0 | some e ↦ e ]) ≤ time
    go none l = omega arith
    go (some e) l = l e refl

-- the leases of the running children of `id` have ended at a time
abbrev pub Outlasts : String → ℕ → List Task → Type 0
Outlasts id time tasks = All (λ t. running_lease id t ≤ time) tasks

pub outlasted :
    (clock now : ℕ) (id : String) (cleanup : NewTask) (tasks : List Task)
    → Outlasts id (cleanup_available clock now (latest_running_lease id tasks) cleanup) tasks
outlasted clock now id cleanup tasks =
    let latest : Option ℕ = latest_running_lease id tasks in
    All-imp _ _ tasks (λ t h. waits id t latest _ h (λ e r. available clock now latest cleanup e r))
      (covered id tasks)
