-- ===== src/Work/Queue/Clearing.antt =====
-- Clearing terminal history, against the work that is still to be done.
use gooru.Prelude.{
  ◌≤◌, String, ◌==◌, ◌≡◌, refl, ap, Bool, true, false, ◌&&◌, Option, none, some, List, [], ◌∷◌, inl,
  inr, arith, Bool-cases, count_where, exists_where, update_where, delete_where, All, All-imp,
  if◌then◌else◌,
}
use gooru.Work.Schema.{is_active, Operation, Task, Db, belongs}
use gooru.Work.Operations.{child, has_child}
use gooru.Work.History.{
  is_clearable, attached_to_clearable, follows_up_clearable, delete_tasks, detach, is_cleared,
  delete_operations, clear_terminal_background_operations,
}

module _ {ℓ} {A : Type ℓ} where
  exists_where-All :
      (p : A → Bool) (xs : List A) → exists_where p xs ≡ false → All (λ x. p x ≡ false) xs
  unfolding exists_where
  exists_where-All p [] h = tt
  exists_where-All p (x ∷ xs) h = (ground arith, exists_where-All p xs (ground arith))

  exists_where-none :
      (p : A → Bool) (xs : List A) → ((x : A) → p x ≡ false) → exists_where p xs ≡ false
  unfolding exists_where
  exists_where-none p [] k = refl
  exists_where-none p (x ∷ xs) k = rw (k x) (exists_where-none p xs k)

  -- A DELETE that spares the counted rows.
  count_where-delete_where :
      (q p : A → Bool) (xs : List A)
      → All (λ x. q x ≡ true → p x ≡ false) xs
      → count_where q xs ≤ count_where q (delete_where p xs)
  unfolding count_where delete_where
  count_where-delete_where q p [] h = omega arith
  count_where-delete_where q p (x ∷ xs) h = elim (Bool-cases (p x)) [
    | inl e ↦ rw e (ground (arith, h.0, count_where-delete_where q p xs h.1))
    | inr e ↦ rw e (ground (arith, count_where-delete_where q p xs h.1))
  ]

  count_where-rewrite :
      (q p : A → Bool) (f : A → A) (xs : List A)
      → All (λ x. q x ≡ true → f x ≡ x) xs
      → count_where q xs ≤ count_where q (update_where p f xs)
  unfolding count_where update_where
  count_where-rewrite q p f [] h = omega arith
  count_where-rewrite q p f (x ∷ xs) h = elim (Bool-cases (q x)) [
    | inl e ↦ rw (h.0 e) (elim (Bool-cases (p x)) [
      | inl t ↦ rw t (ground (arith, count_where-rewrite q p f xs h.1))
      | inr t ↦ rw t (ground (arith, count_where-rewrite q p f xs h.1))
    ])
    | inr e ↦ ground (arith, count_where-rewrite q p f xs h.1)
  ]

-- No clearable operation has this task as an active child.
abbrev IsSpared : Db → Task → Type 0
IsSpared db t = (o : Operation) → is_clearable db o ≡ true → child o.id is_active t ≡ false

idle :
    (db : Db) (o : Operation)
    → is_clearable db o ≡ true
    → All (λ t. child o.id is_active t ≡ false) db.tasks
unfolding is_clearable has_child
idle db o e = exists_where-All (child o.id is_active) db.tasks (ground arith)

rows-IsSpared :
    (db : Db) (ts : List Task)
    → ((o : Operation) → is_clearable db o ≡ true → All (λ t. child o.id is_active t ≡ false) ts)
    → All (IsSpared db) ts
rows-IsSpared db [] h = tt
rows-IsSpared db (t ∷ ts) h = ((λ o e. (h o e).0), rows-IsSpared db ts (λ o e. (h o e).1))

All-IsSpared : (db : Db) → All (IsSpared db) db.tasks
All-IsSpared db = rows-IsSpared db db.tasks (idle db)

not_attached :
    (db : Db) (t : Task)
    → IsSpared db t
    → is_active t.status ≡ true
    → attached_to_clearable db t ≡ false
not_attached db t k a =
    exists_where-none (λ o. is_clearable db o && belongs o.id t.operation_id) db.operations
      (λ o. ground (arith, k o, a))

not_cleared :
    (db : Db) (t : Task) (id : String)
    → IsSpared db t
    → is_active t.status ≡ true
    → t.operation_id ≡ some id
    → is_cleared db id ≡ false
not_cleared db t id k a e =
    exists_where-none (λ o. o.id == id && is_clearable db o) db.operations
      (λ o. ground (arith, k o, a, e))

not_detached :
    (db : Db) (t : Task) → IsSpared db t → is_active t.status ≡ true → detach (is_cleared db) t ≡ t
not_detached db t k a =
    ap (λ (x : Option String). record t { operation_id = x }) (go t.operation_id refl)
  where
    go :
        (o : Option String)
        → t.operation_id ≡ o
        → (elim o [ none ↦ none | some id ↦ if is_cleared db id then none else some id ]) ≡ o
    go none e = refl
    go (some id) e = rw (not_cleared db t id k a e)

module _ (q : Task → Bool) (active : (t : Task) → q t ≡ true → is_active t.status ≡ true) where
  attached_stay :
      (db : Db)
      → count_where q db.tasks ≤ count_where q (delete_tasks (attached_to_clearable db) db).tasks
  unfolding delete_tasks
  attached_stay db =
      count_where-delete_where q (attached_to_clearable db) db.tasks
        (All-imp _ _ db.tasks (λ t k e. not_attached db t k (active t e)) (All-IsSpared db))

  followers_stay :
      (db : Db)
      → count_where q db.tasks ≤ count_where q (delete_tasks (follows_up_clearable db) db).tasks
  unfolding delete_tasks
  followers_stay db =
      count_where-delete_where q (follows_up_clearable db) db.tasks
        (All-imp (IsSpared db) _ db.tasks (λ t k e. ground (arith, active t e)) (All-IsSpared db))

  children_stay : (db : Db) → count_where q db.tasks ≤ count_where q (delete_operations db).tasks
  unfolding delete_operations
  children_stay db =
      count_where-rewrite q (λ t. true) (detach (is_cleared db)) db.tasks
        (All-imp _ _ db.tasks (λ t k e. not_detached db t k (active t e)) (All-IsSpared db))

-- Clearing history neither deletes nor changes a task that is pending or running: for any test
-- that only such tasks satisfy, at least as many tasks satisfy it afterwards as before.
pub active_tasks_stay :
    (q : Task → Bool) (db : Db)
    → ((t : Task) → q t ≡ true → is_active t.status ≡ true)
    → count_where q db.tasks ≤ count_where q (clear_terminal_background_operations db).1.tasks
unfolding clear_terminal_background_operations
active_tasks_stay q db active =
    let db1 : Db = delete_tasks (attached_to_clearable db) db in
    let db2 : Db = delete_tasks (follows_up_clearable db1) db1 in
    omega
      (arith, attached_stay q active db, followers_stay q active db1, children_stay q active db2)
