-- ===== src/Prelude/Tables.antt =====
-- The statements of a relational table, a list of rows in insertion order: which rows a WHERE
-- clause selects, what UPDATE changes, and the laws that the row counts obey.
use Prim.Native.Nat.{ℕ, ◌+◌}
use mathlib.Core.Bool.{Bool, true, false, ◌||◌}
use mathlib.Core.Option.{Option, none, some}
use mathlib.Core.List.{List, [], ◌∷◌}
use gooru.Prelude.Tests.{if◌then◌else◌}

-- A test as a number, for the counting laws.
abbrev pub bit : Bool → ℕ
bit true = 1
bit false = 0

module _ {ℓ} {A : Type ℓ} where
  -- SELECT count(*) ... WHERE p
  unfoldable pub count_where : (A → Bool) → List A → ℕ
  count_where p [] = 0
  count_where p (x ∷ xs) = bit (p x) + count_where p xs

  -- SELECT EXISTS(... WHERE p)
  unfoldable pub exists_where : (A → Bool) → List A → Bool
  exists_where p [] = false
  exists_where p (x ∷ xs) = p x || exists_where p xs

  -- The first row that a WHERE clause selects.
  unfoldable pub find_where : (A → Bool) → List A → Option A
  find_where p [] = none
  find_where p (x ∷ xs) = if p x then some x else find_where p xs

  -- UPDATE ... SET f WHERE p, over every row.
  unfoldable pub update_where : (A → Bool) → (A → A) → List A → List A
  update_where p f [] = []
  update_where p f (x ∷ xs) = (if p x then f x else x) ∷ update_where p f xs

  -- DELETE ... WHERE p
  unfoldable pub delete_where : (A → Bool) → List A → List A
  delete_where p [] = []
  delete_where p (x ∷ xs) = let rest = delete_where p xs in if p x then rest else x ∷ rest

  -- The first row of ORDER BY ... LIMIT 1, where `before x y` says that `x` is sorted before `y`.
  abbrev pub better : (A → A → Bool) → A → Option A → Option A
  better before x none = some x
  better before x (some y) = if before y x then some y else some x

  unfoldable pub first_by : (A → A → Bool) → (A → Bool) → List A → Option A
  first_by before p [] = none
  first_by before p (x ∷ xs) =
      let rest = first_by before p xs in if p x then better before x rest else rest

-- What UPDATE ... WHERE ... RETURNING gives for a WHERE clause that names the primary key:
-- the row before and after, and the new table.
pub record Updated {ℓ} (A : Type ℓ) : Type ℓ where
  pub old : A
  pub row : A
  pub rows : List A

module _ {ℓ} {A : Type ℓ} where
  abbrev pub behind : A → Option (Updated A) → Option (Updated A)
  behind x none = none
  behind x (some u) = some (record u { rows = x ∷ u.rows })

  unfoldable pub update_one : (A → Bool) → (A → A) → List A → Option (Updated A)
  update_one p f [] = none
  update_one p f (x ∷ xs) =
      let rest = behind x (update_one p f xs) in
      if p x then some (record { old = x; row = f x; rows = f x ∷ xs }) else rest
