-- ===== src/Prelude/Rows.antt =====
-- The laws of the table statements: what an UPDATE does to a row count, and to a property of
-- every row.
use gooru.Prelude.Tests.{Bool-cases}
use gooru.Prelude.Lists.{All}
use gooru.Prelude.Tables.{
  bit, count_where, exists_where, find_where, update_where, Updated, update_one, behind,
}
use Prim.Native.Nat.{◌+◌, ◌≤◌, ◌<◌}
use mathlib.Core.Path.{◌≡◌, refl, ap, subst}
use mathlib.Core.Bool.{Bool, true, false, ◌||◌}
use mathlib.Core.Logic.{inl, inr}
use mathlib.Core.Option.{Option, none, some, some-injective}
use mathlib.Core.List.{List, [], ◌∷◌, ◌++◌}
use native.Mathlib.Omega.{arith}

module _ {ℓ} {A : Type ℓ} where
  pub count_where-append :
      (p : A → Bool) (xs ys : List A)
      → count_where p (xs ++ ys) ≡ count_where p xs + count_where p ys
  unfolding count_where
  count_where-append p [] ys = omega arith
  count_where-append p (x ∷ xs) ys = omega (arith, count_where-append p xs ys)

  pub count_where-eq-zero :
      (p : A → Bool) (xs : List A) → exists_where p xs ≡ false → count_where p xs ≡ 0
  unfolding count_where exists_where
  count_where-eq-zero p [] h = refl
  count_where-eq-zero p (x ∷ xs) h = ground (arith, count_where-eq-zero p xs)

  pub exists_where-false :
      (p : A → Bool) (xs : List A) → count_where p xs ≡ 0 → exists_where p xs ≡ false
  unfolding count_where exists_where
  exists_where-false p [] h = refl
  exists_where-false p (x ∷ xs) h = ground (arith, exists_where-false p xs)

  pub exists_where-pos :
      (p : A → Bool) (xs : List A) → exists_where p xs ≡ true → 0 < count_where p xs
  unfolding count_where exists_where
  exists_where-pos p [] h = cc
  exists_where-pos p (x ∷ xs) h = ground (arith, exists_where-pos p xs)

  -- A search succeeds where a row is counted.
  pub find_where-exists :
      (p : A → Bool) (xs : List A) → 0 < count_where p xs → (x : A) × (find_where p xs ≡ some x)
  unfolding count_where find_where
  find_where-exists p [] h = elim h [ ]
  find_where-exists p (x ∷ xs) h = elim (Bool-cases (p x)) [
    | inl e ↦ (x, rw e)
    | inr e ↦ rw e (find_where-exists p xs (ground arith))
  ]

  pub find_where-selected :
      (p : A → Bool) (xs : List A) {x : A} → find_where p xs ≡ some x → p x ≡ true
  unfolding find_where
  find_where-selected p [] h = cc
  find_where-selected p (y ∷ ys) {x} h = elim (Bool-cases (p y)) [
    | inl e ↦ subst (λ z. p z ≡ true) (some-injective y x (rw e at h)) e
    | inr e ↦ find_where-selected p ys (rw e at h)
  ]

  -- An UPDATE affects no row where no row is counted.
  pub update_one-none :
      (p : A → Bool) (f : A → A) (xs : List A) → count_where p xs ≡ 0 → update_one p f xs ≡ none
  unfolding count_where update_one
  update_one-none p f [] h = refl
  update_one-none p f (x ∷ xs) h = elim (Bool-cases (p x)) [
    | inl e ↦ absurd (ground arith)
    | inr e ↦ rw e (rw (update_one-none p f xs (ground arith)))
  ]

  -- An UPDATE ... RETURNING changes the row that a search with its WHERE clause finds.
  pub update_one-find :
      (p : A → Bool) (f : A → A) (xs : List A) (b : A)
      → find_where p xs ≡ some b
      → (u : Updated A) × (update_one p f xs ≡ some u) × (u.row ≡ f b)
  unfolding find_where update_one
  update_one-find p f [] b h = cc
  update_one-find p f (x ∷ xs) b h = elim (Bool-cases (p x)) [
    | inl e ↦ rw e (_, refl, ap f (some-injective x b (rw e at h)))
    | inr e ↦
        let (u, found, row) = update_one-find p f xs b (rw e at h) in rw (e, found) (_, refl, row)
  ]

  -- A test that implies another is counted less often.
  pub count_where_mono :
      (p q : A → Bool) (xs : List A)
      → ((x : A) → p x ≡ true → q x ≡ true)
      → count_where p xs ≤ count_where q xs
  unfolding count_where
  count_where_mono p q [] k = omega arith
  count_where_mono p q (x ∷ xs) k = ground (arith, k x, count_where_mono p q xs k)

  -- What the chosen row was, what it is, and how one count moves with it.
  pub record IsUpdate (p : A → Bool) (f : A → A) (xs : List A) (u : Updated A) : Type ℓ where
    pub chosen : p u.old ≡ true
    pub written : u.row ≡ f u.old
    pub counts :
        (q : A → Bool) → count_where q u.rows + bit (q u.old) ≡ count_where q xs + bit (q u.row)

-- a property of the value of an option, if it has one
abbrev pub OnSome {ℓ κ} : {A : Type ℓ} → (A → Type κ) → Option A → Type κ
OnSome P none = Unit
OnSome P (some a) = P a

pub OnSome-imp {ℓ κ μ} :
    {A : Type ℓ} {P : A → Type κ} {Q : A → Type μ} (o : Option A)
    → ((a : A) → P a → Q a)
    → OnSome P o
    → OnSome Q o
OnSome-imp none k h = tt
OnSome-imp (some a) k h = k a h

pub OnSome-both {ℓ κ μ ν} :
    {A : Type ℓ} {P : A → Type κ} {Q : A → Type μ} {R : A → Type ν} (o : Option A)
    → ((a : A) → P a → Q a → R a)
    → OnSome P o
    → OnSome Q o
    → OnSome R o
OnSome-both none k h l = tt
OnSome-both (some a) k h l = k a h l

module _ {ℓ} {A : Type ℓ} (p : A → Bool) (f : A → A) where
  IsUpdate-here :
      (x : A) (xs : List A)
      → p x ≡ true
      → IsUpdate p f (x ∷ xs) (record { old = x; row = f x; rows = f x ∷ xs })
  unfolding count_where
  IsUpdate-here x xs e = record { chosen = e; written = refl; counts = λ q. omega arith }

  IsUpdate-behind :
      (x : A) (xs : List A) (o : Option (Updated A))
      → OnSome (IsUpdate p f xs) o
      → OnSome (IsUpdate p f (x ∷ xs)) (behind x o)
  unfolding count_where
  IsUpdate-behind x xs none h = tt
  IsUpdate-behind x xs (some u) h = record {
    chosen = h.chosen;
    written = h.written;
    counts = λ q. omega (arith, h.counts q);
  }

  -- An UPDATE ... RETURNING changes one row that its WHERE clause selects.
  pub update_one-IsUpdate : (xs : List A) → OnSome (IsUpdate p f xs) (update_one p f xs)
  unfolding update_one
  update_one-IsUpdate [] = tt
  update_one-IsUpdate (x ∷ xs) = elim (Bool-cases (p x)) [
    | inl e ↦ rw e (IsUpdate-here x xs e)
    | inr e ↦ rw e (IsUpdate-behind x xs (update_one p f xs) (update_one-IsUpdate xs))
  ]

module _ {ℓ κ μ} {A : Type ℓ} (P : A → Type κ) (Q : A → Type μ) where
  -- A property of every row after UPDATE ... WHERE p.
  pub All-update_where :
      (p : A → Bool) (f : A → A) (xs : List A)
      → ((x : A) → P x → p x ≡ true → Q (f x))
      → ((x : A) → P x → p x ≡ false → Q x)
      → All P xs
      → All Q (update_where p f xs)
  unfolding update_where
  All-update_where p f [] yes_ no_ h = tt
  All-update_where p f (x ∷ xs) yes_ no_ h = (
    elim (Bool-cases (p x)) [ inl e ↦ rw e (yes_ x h.0 e) | inr e ↦ rw e (no_ x h.0 e) ],
    All-update_where p f xs yes_ no_ h.1,
  )

  -- The same, where no row satisfies a third test.
  pub All-update_unless :
      (r p : A → Bool) (f : A → A) (xs : List A)
      → exists_where r xs ≡ false
      → ((x : A) → P x → r x ≡ false → p x ≡ true → Q (f x))
      → ((x : A) → P x → r x ≡ false → p x ≡ false → Q x)
      → All P xs
      → All Q (update_where p f xs)
  unfolding update_where exists_where
  All-update_unless r p f [] e yes_ no_ h = tt
  All-update_unless r p f (x ∷ xs) e yes_ no_ h = elim (Bool-cases (r x)) [
    | inl t ↦ absurd (clash t)
    | inr n ↦ (
      elim (Bool-cases (p x)) [ inl t ↦ rw t (yes_ x h.0 n t) | inr t ↦ rw t (no_ x h.0 n t) ],
      All-update_unless r p f xs (ground arith) yes_ no_ h.1,
    )
  ]
    where
      clash : r x ≡ true → ⊥
      clash t = ground arith

module _ {ℓ κ} {A : Type ℓ} (P : A → Type κ) where
  -- The row that a search returns satisfies the test and the property.
  pub find_where-OnSome :
      (p : A → Bool) (xs : List A) → All P xs → OnSome (λ x. P x × (p x ≡ true)) (find_where p xs)
  unfolding find_where
  find_where-OnSome p [] h = tt
  find_where-OnSome p (x ∷ xs) h = elim (Bool-cases (p x)) [
    | inl e ↦ rw e (h.0, e)
    | inr e ↦ rw e (find_where-OnSome p xs h.1)
  ]

module _ {ℓ} {A : Type ℓ} (q : A → Bool) where
  -- An UPDATE that keeps a test at each row that it changes keeps the count.
  pub count_where-update_where :
      (p : A → Bool) (f : A → A) (xs : List A)
      → ((x : A) → p x ≡ true → q (f x) ≡ q x)
      → count_where q (update_where p f xs) ≡ count_where q xs
  unfolding count_where update_where
  count_where-update_where p f [] k = refl
  count_where-update_where p f (x ∷ xs) k = ground (arith, k x, count_where-update_where p f xs k)

  -- An UPDATE that makes the test true nowhere does not raise the count.
  pub count_where-update_where_le :
      (p : A → Bool) (f : A → A) (xs : List A)
      → ((x : A) → p x ≡ true → q x ≡ false → q (f x) ≡ false)
      → count_where q (update_where p f xs) ≤ count_where q xs
  unfolding count_where update_where
  count_where-update_where_le p f [] k = omega arith
  count_where-update_where_le p f (x ∷ xs) k =
      ground (arith, k x, count_where-update_where_le p f xs k)

  -- An UPDATE of rows at which the test is false does not lower the count.
  pub count_where-update_where_ge :
      (p : A → Bool) (f : A → A) (xs : List A)
      → ((x : A) → p x ≡ true → q x ≡ false)
      → count_where q xs ≤ count_where q (update_where p f xs)
  unfolding count_where update_where
  count_where-update_where_ge p f [] k = omega arith
  count_where-update_where_ge p f (x ∷ xs) k =
      ground (arith, k x, count_where-update_where_ge p f xs k)

  -- An UPDATE of all the rows that a test selects, to rows that it does not select.
  pub count_where-update_where_zero :
      (f : A → A) (xs : List A)
      → ((x : A) → q x ≡ true → q (f x) ≡ false)
      → count_where q (update_where q f xs) ≡ 0
  unfolding count_where update_where
  count_where-update_where_zero f [] k = refl
  count_where-update_where_zero f (x ∷ xs) k =
      ground (arith, k x, count_where-update_where_zero f xs k)

  pub exists_where-update_where :
      (p : A → Bool) (f : A → A) (xs : List A)
      → ((x : A) → q (f x) ≡ q x)
      → exists_where q (update_where p f xs) ≡ exists_where q xs
  unfolding exists_where update_where
  exists_where-update_where p f [] k = refl
  exists_where-update_where p f (x ∷ xs) k = ground (arith, k x, exists_where-update_where p f xs k)

  pub exists_where-append :
      (xs ys : List A) → exists_where q (xs ++ ys) ≡ (exists_where q xs || exists_where q ys)
  unfolding exists_where
  exists_where-append [] ys = refl
  exists_where-append (x ∷ xs) ys = ground (arith, exists_where-append xs ys)
