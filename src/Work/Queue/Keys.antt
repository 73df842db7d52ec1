-- ===== src/Work/Queue/Keys.antt =====
-- The keys of background_tasks over any run of requests: the unique index of migration 023 and the
-- primary key, as the statements of the methods keep them.
use mathlib.Core.Path.{subst}
use gooru.Prelude.{
  ℕ, ◌≤◌, String, ◌==◌, ◌≡◌, ap, Bool, true, List, [], ◌∷◌, ◌++◌, inl, inr, arith, bit, Bool-cases,
  count_where, update_where, Updated, eq_iff,
}
use gooru.Prelude.Rows.{
  IsUpdate, count_where-append, count_where-eq-zero, count_where-update_where,
  count_where-update_where_le,
}
use gooru.Work.Schema.{Task, empty}
use gooru.Work.Tasks.{has_key}
use gooru.Work.Keeps.{Grows}
use gooru.Work.Keeps.Steps.{IsRewrite, Laws}
use gooru.Work.Keeps.Serve.{keep-serve}
use gooru.Work.Requests.{Request, serve}

abbrev pub named : String → Task → Bool
named id t = t.id == id

-- At most one task of each id, and at most one active task of each dedupe key.
abbrev pub IsKeyed : List Task → Type 0
IsKeyed ts =
    ((key : String) → count_where (has_key key) ts ≤ 1)
    × ((id : String) → count_where (named id) ts ≤ 1)

-- One more row, whose column has a value that the counted rows do not have.
one_more :
    (q : String → Task → Bool) (column : Task → String) (ts : List Task) (t : Task) (v : String)
    → (q v t ≡ true → column t ≡ v)
    → count_where (q (column t)) ts ≡ 0
    → count_where (q v) ts ≤ 1
    → count_where (q v) (ts ++ t ∷ []) ≤ 1
unfolding count_where
one_more q column ts t v same free h = elim (Bool-cases (q v t)) [
  | inl e ↦
      let none : count_where (q v) ts ≡ 0 = subst (λ x. count_where (q x) ts ≡ 0) (same e) free in
      rw (count_where-append (q v) ts (t ∷ []), none, e) (omega arith)
  | inr e ↦ rw (count_where-append (q v) ts (t ∷ []), e) (omega (arith, h))
]

IsKeyed-grow : Grows IsKeyed
IsKeyed-grow ts t new free fresh h = (
  (λ key.
      one_more has_key (λ x. x.dedupe_key) ts t key
        (λ e. (eq_iff t.dedupe_key key).0 (ground arith)) free (h.0 key)),
  (λ id.
      one_more named (λ x. x.id) ts t id (λ e. (eq_iff t.id id).0 e)
        (count_where-eq-zero (named t.id) ts fresh) (h.1 id)),
)

IsKeyed-one :
    {p : Task → Bool} {g : Task → Task} (ts : List Task) (u : Updated Task)
    → IsUpdate p g ts u
    → IsRewrite u.old u.row
    → IsKeyed ts
    → IsKeyed u.rows
IsKeyed-one ts u up k h = (
  (λ key. omega (arith, up.counts (has_key key), h.0 key, active_keys key)),
  (λ id. omega (arith, up.counts (named id), h.1 id, ap (λ (x : String). bit (x == id)) k.0)),
)
  where
    active_keys : (key : String) → bit (has_key key u.row) ≤ bit (has_key key u.old)
    active_keys key = rw (k.1, k.2) (ground arith)

IsKeyed-all :
    (p : Task → Bool) (g : Task → Task) (ts : List Task)
    → ((t : Task) → p t ≡ true → IsRewrite t (g t))
    → IsKeyed ts
    → IsKeyed (update_where p g ts)
IsKeyed-all p g ts k h = (
  (λ key.
      let below : count_where (has_key key) (update_where p g ts) ≤ count_where (has_key key) ts =
        count_where-update_where_le (has_key key) p g ts
          (λ t e f. rw ((k t e).1) (ground (arith, (k t e).2))) in
      omega (arith, h.0 key)),
  (λ id.
      let same : count_where (named id) (update_where p g ts) ≡ count_where (named id) ts =
        count_where-update_where (named id) p g ts
          (λ t e. ap (λ (x : String). x == id) (k t e).0) in
      omega (arith, h.1 id)),
)

IsKeyed-Laws : Laws IsKeyed
IsKeyed-Laws = record { grow = IsKeyed-grow; change_one = IsKeyed-one; change_all = IsKeyed-all }

-- Starting from empty tables, after any list of requests, no two tasks have the same id and no
-- two tasks that are pending or running have the same dedupe key.
pub serve-IsKeyed :
    (valid : String → Bool) (requests : List (ℕ × Request))
    → IsKeyed (serve valid empty requests).tasks
serve-IsKeyed valid requests = keep-serve IsKeyed IsKeyed-Laws valid empty requests empty-IsKeyed
  where
    empty-IsKeyed : IsKeyed []
    empty-IsKeyed =
        ((λ key. unfold count_where in omega arith), (λ id. unfold count_where in omega arith))
