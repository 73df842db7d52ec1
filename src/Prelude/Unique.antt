-- ===== src/Prelude/Unique.antt =====
-- Statements on a row whose key no other row has.
use gooru.Prelude.Tests.{Bool-cases}
use gooru.Prelude.Tables.{count_where, find_where, update_where, Updated, update_one}
use gooru.Prelude.Rows.{count_where_mono}
use Prim.Native.Nat.{◌≤◌, ◌<◌}
use mathlib.Core.Path.{◌≡◌, refl, ap}
use mathlib.Core.Bool.{Bool, true, false}
use mathlib.Core.Logic.{inl, inr}
use mathlib.Core.Option.{some, some-injective}
use mathlib.Core.List.{List, [], ◌∷◌}
use native.Mathlib.Omega.{arith}

module _ {ℓ} {A : Type ℓ} where
  -- An UPDATE whose WHERE clause counts no row changes none.
  pub update_where-none :
      (p : A → Bool) (f : A → A) (xs : List A) → count_where p xs ≡ 0 → update_where p f xs ≡ xs
  unfolding count_where update_where
  update_where-none p f [] h = refl
  update_where-none p f (x ∷ xs) h = elim (Bool-cases (p x)) [
    | inl e ↦ absurd (ground arith)
    | inr e ↦ rw (e, update_where-none p f xs (ground arith)) refl
  ]

  find_where-pos :
      (p : A → Bool) (xs : List A) (b : A) → find_where p xs ≡ some b → 0 < count_where p xs
  unfolding count_where find_where
  find_where-pos p [] b h = cc
  find_where-pos p (x ∷ xs) b h = elim (Bool-cases (p x)) [
    | inl e ↦ rw e (omega arith)
    | inr e ↦ rw e (omega (arith, find_where-pos p xs b (rw e at h)))
  ]

  -- `p` selects a row that is the only one of the key `q`.
  module _ (p q : A → Bool) (k : (x : A) → p x ≡ true → q x ≡ true) where
    alone_behind :
        (x : A) (xs : List A) (b : A)
        → p x ≡ false
        → find_where p xs ≡ some b
        → count_where q (x ∷ xs) ≤ 1
        → q x ≡ false
    unfolding count_where
    alone_behind x xs b e h one =
        let some_row = find_where-pos p xs b h in
        let fewer = count_where_mono p q xs k in ground (arith, one, some_row, fewer)

    pub find_where-key :
        (xs : List A) (b : A)
        → find_where p xs ≡ some b
        → count_where q xs ≤ 1
        → find_where q xs ≡ some b
    unfolding find_where count_where
    find_where-key [] b h one = cc
    find_where-key (x ∷ xs) b h one = elim (Bool-cases (p x)) [
      | inl e ↦ rw (k x e) (rw e at h)
      | inr e ↦
          let other = alone_behind x xs b e (rw e at h) one in
          rw other (find_where-key xs b (rw e at h) (omega (arith, one)))
    ]

    -- UPDATE ... RETURNING writes the row of the key, and no other.
    pub update_one-key :
        (f : A → A) (xs : List A) (b : A)
        → find_where p xs ≡ some b
        → count_where q xs ≤ 1
        → (u : Updated A) × (update_one p f xs ≡ some u)
          × (u.row ≡ f b)
          × (u.rows ≡ update_where q (λ x. f b) xs)
    unfolding find_where update_one update_where count_where
    update_one-key f [] b h one = cc
    update_one-key f (x ∷ xs) b h one = elim (Bool-cases (p x)) [
      | inl e ↦
          let same : f x ≡ f b = ap f (some-injective x b (rw e at h)) in
          let none_left : count_where q xs ≡ 0 = ground (arith, k x e, one) in
          rw (e, k x e, update_where-none q (λ x. f b) xs none_left)
            (_, refl, same, ap (λ y. y ∷ xs) same)
      | inr e ↦
          let other = alone_behind x xs b e (rw e at h) one in
          let (u, found, row, rows) = update_one-key f xs b (rw e at h) (ground (arith, one)) in
          rw (e, found, other) (_, refl, row, ap (λ ys. x ∷ ys) rows)
    ]
