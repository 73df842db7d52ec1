-- ===== src/Relink/Maps.antt =====
-- The laws of the planner's sorts, sets and maps.
use mathlib.Core.Path.{subst}
use gooru.Prelude.{
  ℕ, ◌+◌, ◌≤◌, ◌≡◌, ◌≢◌, refl, ◌∙◌, sym, String, ◌==◌, eq_iff, eq_refl, Bool, true, false, some,
  List, [], ◌∷◌, All, All-imp, arith, Bool-cases, inl, inr, count_where, bit,
}
use mathlib.Core.Option.{some-injective}
use gooru.Prelude.Rows.{count_where-append}
use gooru.Relink.Plan.{
  less, insert_by, sort_by, keys, mem, look_up, or_zero, values, reversed, sorted_location_keys,
  Map, LocationInfo,
}

module _ {ℓ} {A : Type ℓ} (q : A → Bool) (key : A → String) where
  count-insert_by :
      (a : A) (bs : List A) → count_where q (insert_by key a bs) ≡ bit (q a) + count_where q bs
  unfolding count_where insert_by
  count-insert_by a [] = refl
  count-insert_by a (b ∷ bs) = elim (Bool-cases (less (key b) (key a))) [
    | inl e ↦ rw e (omega (arith, count-insert_by a bs))
    | inr e ↦ rw e refl
  ]

  pub count-sort_by : (xs : List A) → count_where q (sort_by key xs) ≡ count_where q xs
  unfolding count_where sort_by
  count-sort_by [] = refl
  count-sort_by (x ∷ xs) = omega (arith, count-insert_by x (sort_by key xs), count-sort_by xs)

module _ {ℓ} {A : Type ℓ} (q : A → Bool) where
  pub count-reversed : (xs : List A) → count_where q (reversed xs) ≡ count_where q xs
  unfolding count_where
  count-reversed [] = refl
  count-reversed (x ∷ xs) =
      omega (arith, count_where-append q (reversed xs) (x ∷ []), count-reversed xs)

-- how often a path is in a list
abbrev pub occurrences : String → List String → ℕ
occurrences p paths = count_where (λ q. q == p) paths

pub occurrences-sorted :
    (p : String) (locations : Map LocationInfo)
    → occurrences p (sorted_location_keys locations) ≡ occurrences p (keys locations)
unfolding sorted_location_keys
occurrences-sorted p locations = count-sort_by (λ q. q == p) (λ k. k) (keys locations)

pub equal-path : (a b : String) → (a == b) ≡ true → a ≡ b
equal-path a b h = (eq_iff a b).0 h

pub mem-first : (p k : String) (ks : List String) → k ≡ p → mem p (k ∷ ks) ≡ true
unfolding mem
mem-first p k ks h = rw (h, eq_refl p) refl

pub mem-later : (p k : String) (ks : List String) → (k == p) ≡ false → mem p (k ∷ ks) ≡ mem p ks
unfolding mem
mem-later p k ks h = rw h refl

pub mem-more : (p k : String) (ks : List String) → mem p ks ≡ true → mem p (k ∷ ks) ≡ true
unfolding mem
mem-more p k ks h = elim (Bool-cases (k == p)) [ inl e ↦ rw e refl | inr e ↦ rw e h ]

module _ {ℓ κ} {A : Type ℓ} (P : A → Type κ) (key : A → String) where
  All-insert_by : (a : A) (bs : List A) → P a → All P bs → All P (insert_by key a bs)
  unfolding insert_by
  All-insert_by a [] ha h = (ha, tt)
  All-insert_by a (b ∷ bs) ha h = elim (Bool-cases (less (key b) (key a))) [
    | inl e ↦ rw e (h.0, All-insert_by a bs ha h.1)
    | inr e ↦ rw e (ha, h)
  ]

  pub All-sort_by : (xs : List A) → All P xs → All P (sort_by key xs)
  unfolding sort_by
  All-sort_by [] h = tt
  All-sort_by (x ∷ xs) h = All-insert_by x (sort_by key xs) h.0 (All-sort_by xs h.1)

-- an entry under the path of its location
abbrev pub IsOwn : (String × LocationInfo) → Type 0
IsOwn e = e.1.path ≡ e.0

look_up-IsOwn :
    (k : String) (entries : Map LocationInfo) (l : LocationInfo)
    → All IsOwn entries
    → look_up k entries ≡ some l
    → l.path ≡ k
unfolding look_up
look_up-IsOwn k [] l h e = cc
look_up-IsOwn k ((j, a) ∷ entries) l h e = elim (Bool-cases (j == k)) [
  | inl same ↦
      subst (λ (x : LocationInfo). x.path ≡ k) (some-injective a l (rw same at e))
        (h.0 ∙ equal-path j k same)
  | inr other ↦ look_up-IsOwn k entries l h.1 (rw other at e)
]

-- the location that a map holds under a key that it has
abbrev HasOwn : Map LocationInfo → String → Type 0
HasOwn entries k = (l : LocationInfo) × (look_up k entries ≡ some l)

keys-HasOwn : (entries : Map LocationInfo) → All (HasOwn entries) (keys entries)
unfolding look_up
keys-HasOwn [] = tt
keys-HasOwn ((j, a) ∷ entries) = (
  (a, rw (eq_refl j) refl),
  All-imp (HasOwn entries) _ (keys entries)
      (λ k held. elim (Bool-cases (j == k)) [
        | inl e ↦ (a, rw e refl)
        | inr e ↦ (held.0, rw e held.1)
      ])
      (keys-HasOwn entries),
)

-- Every key that the planner visits is the path of the location that it looks up.
pub visited-IsOwn :
    (entries : Map LocationInfo)
    → All IsOwn entries
    → All (λ k. (or_zero (look_up k entries)).path ≡ k) (sorted_location_keys entries)
unfolding sorted_location_keys
visited-IsOwn entries own =
    All-sort_by _ (λ k. k) (keys entries)
      (All-imp (HasOwn entries) _ (keys entries)
        (λ k held. rw held.1 (look_up-IsOwn k entries held.0 own held.1)) (keys-HasOwn entries))

path_equal : (p j : String) (l : LocationInfo) → l.path ≡ j → l.path ≡ p → (j == p) ≡ true
path_equal p j l own here = (eq_iff j p).1 (sym own ∙ here)

absent-key :
    (p : String) (entries : Map LocationInfo)
    → occurrences p (keys entries) ≡ 0
    → All IsOwn entries
    → All (λ (l : LocationInfo). l.path ≢ p) (values entries)
unfolding count_where
absent-key p [] h own = tt
absent-key p ((j, a) ∷ entries) h own =
    (λ here. absent (path_equal p j a own.0 here), absent-key p entries (ground arith) own.1)
  where
    absent : (j == p) ≡ true → ⊥
    absent e = ground arith

-- A map that has a path once holds one location of that path.
pub single-location :
    (p : String) (entries : Map LocationInfo)
    → occurrences p (keys entries) ≤ 1
    → All IsOwn entries
    → All (λ (l : LocationInfo). l.path ≡ p → look_up p entries ≡ some l) (values entries)
unfolding count_where look_up
single-location p [] h own = tt
single-location p ((j, a) ∷ entries) h own = elim (Bool-cases (j == p)) [
  | inl e ↦ rw e (
    (λ here. refl),
    All-imp (λ (l : LocationInfo). l.path ≢ p) _ (values entries) (λ l no here. absurd (no here))
        (absent-key p entries (ground arith) own.1),
  )
  | inr e ↦ (
    (λ here. absurd (true≢false (sym (path_equal p j a own.0 here) ∙ e))),
    All-imp (λ (l : LocationInfo). l.path ≡ p → look_up p entries ≡ some l) _ (values entries)
        (λ l f here. rw e (f here)) (single-location p entries (ground arith) own.1),
  )
]
  where
    true≢false : true ≢ false
    true≢false e = cc
