-- ===== src/Query/Nesting.antt =====
-- The depth of an expansion of saved searches.
use text.Mathlib.Text.{starts_with}
use gooru.Prelude.{
  ℕ, zero, suc, ◌≤◌, ◌<◌, String, ◌==◌, eq_iff, eq_refl, ◌≡◌, refl, Bool, true, false, not, ◌||◌,
  Option, none, some, List, [], ◌∷◌, if◌then◌else◌, exists_where, count_where, find_where, length,
  arith, Bool-cases, inl, inr,
}
use gooru.Prelude.Outcome.{Outcome, ok, err, ◌>>=◌, bind-inverse}
use gooru.Query.Ast.{Expression, no_or, or_term, AndTerm, no_and, and_term, Factor, tag, sub_expr}
use gooru.Query.Saved.{
  QueryError, nested_too_deep, not_a_meta_tag, meta_tag_requires_value, meta_tag_takes_no_value,
  unsupported_meta_tag, saved_search_cycle, unresolved_saved_search, unparsed_saved_search, Strings,
  stored_or_all, map_tags, map_and, map_factor, saved_search, stored_expression, expand_factor,
  expand_saved_searches, parse_meta_tag, meta_value, saved_name, meta_tag_definitions,
  MetaTagDefinition,
}

-- a result other than the end of the bound
abbrev pub IsShallow : {A : Type 0} → Outcome QueryError A → Type 0
IsShallow (ok a) = Unit
IsShallow (err nested_too_deep) = ⊥
IsShallow (err _) = Unit

IsShallow-bind :
    {A B : Type 0} (m : Outcome QueryError A) (k : A → Outcome QueryError B)
    → IsShallow m
    → ((a : A) → m ≡ ok a → IsShallow (k a))
    → IsShallow (m >>= k)
IsShallow-bind (ok a) k h f = f a refl
IsShallow-bind (err not_a_meta_tag) k h f = tt
IsShallow-bind (err meta_tag_requires_value) k h f = tt
IsShallow-bind (err meta_tag_takes_no_value) k h f = tt
IsShallow-bind (err unsupported_meta_tag) k h f = tt
IsShallow-bind (err saved_search_cycle) k h f = tt
IsShallow-bind (err unresolved_saved_search) k h f = tt
IsShallow-bind (err unparsed_saved_search) k h f = tt
IsShallow-bind (err nested_too_deep) k h f = absurd h

module _ (f : String → Outcome QueryError Factor) (tags : (t : String) → IsShallow (f t)) where
  mutual
    unfolding map_tags

    IsShallow-map_tags : (e : Expression) → IsShallow (map_tags f e)
    IsShallow-map_tags no_or = tt
    IsShallow-map_tags (or_term a e) =
        IsShallow-bind (map_and f a) _ (IsShallow-map_and a)
          (λ b h. IsShallow-bind (map_tags f e) _ (IsShallow-map_tags e) (λ r k. tt))

    IsShallow-map_and : (a : AndTerm) → IsShallow (map_and f a)
    IsShallow-map_and no_and = tt
    IsShallow-map_and (and_term negate x a) =
        IsShallow-bind (map_factor f x) _ (IsShallow-map_factor x)
          (λ y h. IsShallow-bind (map_and f a) _ (IsShallow-map_and a) (λ b k. tt))

    IsShallow-map_factor : (x : Factor) → IsShallow (map_factor f x)
    IsShallow-map_factor (tag t) = tags t
    IsShallow-map_factor (sub_expr e) =
        IsShallow-bind (map_tags f e) _ (IsShallow-map_tags e) (λ r k. tt)

-- the names that no search on the stack has
abbrev free : List String → List String → ℕ
free names stack = count_where (λ n. not (exists_where (λ active. active == n) stack)) names

free_mono :
    (names : List String) (key : String) (stack : List String)
    → free names (key ∷ stack) ≤ free names stack
unfolding count_where exists_where
free_mono [] key stack = omega arith
free_mono (n ∷ names) key stack = elim (Bool-cases (key == n)) [
  | inl e ↦ rw e (omega (arith, free_mono names key stack))
  | inr e ↦ rw e (omega (arith, free_mono names key stack))
]

-- A name goes on the stack once.
free-push :
    (names : List String) (key : String) (stack : List String)
    → exists_where (λ n. n == key) names ≡ true
    → exists_where (λ active. active == key) stack ≡ false
    → free names (key ∷ stack) < free names stack
unfolding count_where exists_where
free-push [] key stack known fresh = cc
free-push (n ∷ names) key stack known fresh = elim (Bool-cases (n == key)) [
  | inl e ↦
      let same : n ≡ key = (eq_iff n key).0 e in
      rw (same, eq_refl key, fresh) (omega (arith, free_mono names key stack))
  | inr e ↦
      let ih = free-push names key stack (rw e at known) fresh in
      elim (Bool-cases (key == n)) [
        | inl k ↦ rw k (omega (arith, ih))
        | inr k ↦ rw k (omega (arith, ih))
      ]
]

free-length : (names stack : List String) → free names stack ≤ length names
unfolding count_where
free-length [] stack = omega arith
free-length (n ∷ names) stack = elim (Bool-cases (exists_where (λ active. active == n) stack)) [
  | inl e ↦ rw e (omega (arith, free-length names stack))
  | inr e ↦ rw e (omega (arith, free-length names stack))
]

IsShallow-if_then :
    {A : Type 0} (b : Bool) (x y : Outcome QueryError A)
    → IsShallow x
    → (b ≡ false → IsShallow y)
    → IsShallow (if b then x else y)
IsShallow-if_then true x y hx hy = hx
IsShallow-if_then false x y hx hy = hy refl

module _ (str : Strings) (resolve : String → Outcome QueryError String)
    (parse : String → Outcome QueryError Expression) where
  meta_value-IsShallow :
      (d : Option MetaTagDefinition) (value : String) (has_value : Bool)
      → IsShallow (meta_value str d value has_value)
  unfolding meta_value
  meta_value-IsShallow none value has_value = tt
  meta_value-IsShallow (some d) value has_value = elim (Bool-cases d.requires_value) [
    | inl e ↦
        rw e (IsShallow-if_then (not has_value || (str.trim_space value == "")) _ _ tt (λ h. tt))
    | inr e ↦ rw e (IsShallow-if_then has_value _ _ tt (λ h. tt))
  ]

  saved_search-IsShallow : (t : String) → IsShallow (saved_search str resolve parse t)
  unfolding saved_search parse_meta_tag
  saved_search-IsShallow t =
      IsShallow-if_then {A = Option String} (not (starts_with (str.to_lower t) "@saved:")) (ok none)
        (parse_meta_tag str t >>= λ meta. ok (saved_name str resolve parse meta)) tt
        (λ h.
          IsShallow-bind (parse_meta_tag str t) (λ meta. ok (saved_name str resolve parse meta))
            (IsShallow-if_then (not (starts_with t "@")) (err not_a_meta_tag)
              (meta_value str
                (find_where
                  (λ d. d.name == str.to_lower (str.trim_space (str.cut (str.trim_at t)).0))
                  meta_tag_definitions)
                (str.cut (str.trim_at t)).1 (str.cut (str.trim_at t)).2)
              tt (λ k. meta_value-IsShallow _ _ _))
            (λ meta k. tt))

  module _ (names : List String) (resolves : (name : String) → IsShallow (resolve name))
      (parses : (text : String) → IsShallow (parse text))
      (known : (name stored : String)
        → resolve name ≡ ok stored
        → exists_where (λ n. n == str.to_lower name) names ≡ true) where
    expand_factor-IsShallow :
        (depth : ℕ) (stack : List String) (t : String)
        (inner : List String → Expression → Outcome QueryError Expression) (name : Option String)
        → free names stack < suc depth
        → ((s : List String) (e : Expression) → free names s < depth → IsShallow (inner s e))
        → IsShallow (expand_factor str resolve parse inner stack t name)
    unfolding expand_factor stored_expression
    expand_factor-IsShallow depth stack t inner none room k = tt
    expand_factor-IsShallow depth stack t inner (some name) room k =
        let key : String = str.to_lower name in
        IsShallow-if_then (exists_where (λ active. active == key) stack) _ _ tt (λ fresh.
          IsShallow-bind (resolve name >>= λ stored. parse (stored_or_all str stored)) _
            (IsShallow-bind (resolve name) _ (resolves name) (λ stored h. parses _))
            (λ sub h.
              let found = bind-inverse (resolve name) _ sub h in
              let less = free-push names key stack (known name found.0 found.1) fresh in
              IsShallow-bind (inner (key ∷ stack) sub) _
                (k (key ∷ stack) sub (omega (arith, less, room))) (λ r l. tt)))

    expand_stack-IsShallow :
        (depth : ℕ) (stack : List String) (e : Expression)
        → free names stack < depth
        → IsShallow (expand_saved_searches str resolve parse depth stack e)
    unfolding expand_saved_searches
    expand_stack-IsShallow zero stack e room = absurd (omega (arith, room))
    expand_stack-IsShallow (suc depth) stack e room =
        IsShallow-map_tags _
          (λ t.
            IsShallow-bind (saved_search str resolve parse t) _ (saved_search-IsShallow t)
              (λ name h.
                expand_factor-IsShallow depth stack t _ name room
                  (λ s x r. expand_stack-IsShallow depth s x r)))
          e

-- Where the resolver knows finitely many names, up to letter case, an expansion whose bound is above
-- their number does not meet it: it gives an expression or one of the source's errors, of which the
-- cycle is one. The resolver and the parser have errors of their own only.
pub expand_saved_searches-IsShallow :
    (str : Strings) (resolve : String → Outcome QueryError String)
    (parse : String → Outcome QueryError Expression) (names : List String) (e : Expression)
    → ((name : String) → IsShallow (resolve name))
    → ((text : String) → IsShallow (parse text))
    → ((name stored : String)
        → resolve name ≡ ok stored
        → exists_where (λ n. n == str.to_lower name) names ≡ true)
    → IsShallow (expand_saved_searches str resolve parse (suc (length names)) [] e)
expand_saved_searches-IsShallow str resolve parse names e resolves parses known =
    expand_stack-IsShallow str resolve parse names resolves parses known (suc (length names)) [] e
      (omega (arith, free-length names []))
