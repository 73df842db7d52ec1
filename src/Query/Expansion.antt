-- ===== src/Query/Expansion.antt =====
-- What an expression selects once its saved searches are expanded, and the tags it has.
use gooru.Prelude.{
  ℕ, zero, suc, String, ◌==◌, ◌≡◌, refl, ap, ◌∙◌, sym, Bool, true, false, ◌&&◌, ◌||◌, Option, none,
  some, List, ◌∷◌, exists_where,
}
use gooru.Prelude.Outcome.{Outcome, ok, err, ◌>>=◌, ok-injective, bind-inverse, guard-inverse}
use gooru.Query.Ast.{
  Expression, no_or, or_term, AndTerm, no_and, and_term, Factor, tag, sub_expr, negated_if, holds,
  holds_and, holds_factor, every, every_and, every_factor,
}
use gooru.Query.Saved.{
  QueryError, Strings, map_tags, map_and, map_factor, saved_search, stored_expression,
  expand_factor, expand_saved_searches, saved_search_cycle,
}

-- A rewriting that gives each tag a factor of its meaning keeps the meaning of the expression.
module _ (f : String → Outcome QueryError Factor) (v w : String → Bool)
    (tags : (t : String) (x : Factor) → f t ≡ ok x → holds_factor v x ≡ w t) where
  mutual
    unfolding map_tags holds

    map_tags-holds : (e r : Expression) → map_tags f e ≡ ok r → holds v r ≡ holds w e
    map_tags-holds no_or r h = ap (λ x. holds v x) (sym (ok-injective _ r h))
    map_tags-holds (or_term a e) r h =
        let first = bind-inverse (map_and f a) _ r h in
        let second = bind-inverse (map_tags f e) _ r first.2 in
        let same : holds v r ≡ (holds_and v first.0 || holds v second.0) =
          ap (λ x. holds v x) (sym (ok-injective _ r second.2)) in
        rw (same, map_and-holds a first.0 first.1, map_tags-holds e second.0 second.1) refl

    map_and-holds : (a b : AndTerm) → map_and f a ≡ ok b → holds_and v b ≡ holds_and w a
    map_and-holds no_and b h = ap (λ x. holds_and v x) (sym (ok-injective _ b h))
    map_and-holds (and_term negate x a) b h =
        let first = bind-inverse (map_factor f x) _ b h in
        let second = bind-inverse (map_and f a) _ b first.2 in
        let same : holds_and v b
            ≡ (negated_if negate (holds_factor v first.0) && holds_and v second.0) =
          ap (λ y. holds_and v y) (sym (ok-injective _ b second.2)) in
        rw (same, map_factor-holds x first.0 first.1, map_and-holds a second.0 second.1) refl

    map_factor-holds : (x y : Factor) → map_factor f x ≡ ok y → holds_factor v y ≡ holds_factor w x
    map_factor-holds (tag t) y h = tags t y h
    map_factor-holds (sub_expr e) y h =
        let inner = bind-inverse (map_tags f e) _ y h in
        ap (λ z. holds_factor v z) (sym (ok-injective _ y inner.2))
        ∙ map_tags-holds e inner.0 inner.1

-- A rewriting whose factors satisfy a test of tags gives an expression that does.
module _ (f : String → Outcome QueryError Factor) (p : String → Bool)
    (tags : (t : String) (x : Factor) → f t ≡ ok x → every_factor p x ≡ true) where
  mutual
    unfolding map_tags every

    map_tags-every : (e r : Expression) → map_tags f e ≡ ok r → every p r ≡ true
    map_tags-every no_or r h = ap (λ x. every p x) (sym (ok-injective _ r h))
    map_tags-every (or_term a e) r h =
        let first = bind-inverse (map_and f a) _ r h in
        let second = bind-inverse (map_tags f e) _ r first.2 in
        let same : every p r ≡ (every_and p first.0 && every p second.0) =
          ap (λ x. every p x) (sym (ok-injective _ r second.2)) in
        rw (same, map_and-every a first.0 first.1, map_tags-every e second.0 second.1) refl

    map_and-every : (a b : AndTerm) → map_and f a ≡ ok b → every_and p b ≡ true
    map_and-every no_and b h = ap (λ x. every_and p x) (sym (ok-injective _ b h))
    map_and-every (and_term negate x a) b h =
        let first = bind-inverse (map_factor f x) _ b h in
        let second = bind-inverse (map_and f a) _ b first.2 in
        let same : every_and p b ≡ (every_factor p first.0 && every_and p second.0) =
          ap (λ y. every_and p y) (sym (ok-injective _ b second.2)) in
        rw (same, map_factor-every x first.0 first.1, map_and-every a second.0 second.1) refl

    map_factor-every : (x y : Factor) → map_factor f x ≡ ok y → every_factor p y ≡ true
    map_factor-every (tag t) y h = tags t y h
    map_factor-every (sub_expr e) y h =
        let inner = bind-inverse (map_tags f e) _ y h in
        ap (λ z. every_factor p z) (sym (ok-injective _ y inner.2))
        ∙ map_tags-every e inner.0 inner.1

module _ (str : Strings) (resolve : String → Outcome QueryError String)
    (parse : String → Outcome QueryError Expression) where
  -- whether a tag is a saved search, whatever its name
  abbrev is_no_search : Outcome QueryError (Option String) → Bool
  is_no_search (ok none) = true
  is_no_search (ok (some name)) = false
  is_no_search (err e) = false

  abbrev pub is_plain : String → Bool
  is_plain t = is_no_search (saved_search str resolve parse t)

  -- what a stored expression selects
  abbrev selects_stored : (String → Bool) → Outcome QueryError Expression → Bool
  selects_stored w (ok e) = holds w e
  selects_stored w (err x) = false

  abbrev selects_name : (String → Bool) → Bool → Outcome QueryError (Option String) → Bool
  selects_name w plain (ok none) = plain
  selects_name w plain (ok (some name)) =
      selects_stored w (stored_expression str resolve parse name)
  selects_name w plain (err x) = false

  -- Whether a tag selects a file: a saved search does if its stored expression does, nested to a
  -- depth, and another tag if the file has it.
  unfoldable pub selects : ℕ → (String → Bool) → String → Bool
  selects zero v t = v t
  selects (suc depth) v t =
      selects_name (λ u. selects depth v u) (v t) (saved_search str resolve parse t)

  factor-selects :
      (v w : String → Bool) (t : String)
      (inner : List String → Expression → Outcome QueryError Expression) (stack : List String)
      (name : Outcome QueryError (Option String)) (x : Factor)
      → ((s : List String) (e r : Expression) → inner s e ≡ ok r → holds v r ≡ holds w e)
      → (name >>= λ n. expand_factor str resolve parse inner stack t n) ≡ ok x
      → holds_factor v x ≡ selects_name w (v t) name
  unfolding expand_factor holds
  factor-selects v w t inner stack (err e) x k h = cc
  factor-selects v w t inner stack (ok none) x k h =
      ap (λ y. holds_factor v y) (sym (ok-injective _ x h))
  factor-selects v w t inner stack (ok (some name)) x k h =
      let free =
        guard-inverse (exists_where (λ active. active == str.to_lower name) stack)
          saved_search_cycle _ x h in
      let stored = bind-inverse (stored_expression str resolve parse name) _ x free.1 in
      let expanded = bind-inverse (inner (str.to_lower name ∷ stack) stored.0) _ x stored.2 in
      ap (λ y. holds_factor v y) (sym (ok-injective _ x expanded.2))
      ∙ k (str.to_lower name ∷ stack) stored.0 expanded.0 expanded.1
      ∙ ap (λ o. selects_stored w o) (sym stored.1)

  -- An expansion that succeeds selects what the original does when a saved search selects what its
  -- stored expression does: it changes neither the precedence nor a negation around it.
  pub expand-selects :
      (depth : ℕ) (v : String → Bool) (stack : List String) (e r : Expression)
      → expand_saved_searches str resolve parse depth stack e ≡ ok r
      → holds v r ≡ holds (selects depth v) e
  unfolding expand_saved_searches selects
  expand-selects zero v stack e r h = cc
  expand-selects (suc depth) v stack e r h =
      map_tags-holds _ v (selects (suc depth) v)
        (λ t x k.
          factor-selects v (λ u. selects depth v u) t _ stack (saved_search str resolve parse t) x
            (λ s e' r' h'. expand-selects depth v s e' r' h') k)
        e r h

  factor-every :
      (t : String) (inner : List String → Expression → Outcome QueryError Expression)
      (stack : List String) (name : Outcome QueryError (Option String)) (x : Factor)
      → saved_search str resolve parse t ≡ name
      → ((s : List String) (e r : Expression) → inner s e ≡ ok r → every is_plain r ≡ true)
      → (name >>= λ n. expand_factor str resolve parse inner stack t n) ≡ ok x
      → every_factor is_plain x ≡ true
  unfolding expand_factor every
  factor-every t inner stack (err e) x same k h = cc
  factor-every t inner stack (ok none) x same k h =
      ap (λ y. every_factor is_plain y) (sym (ok-injective _ x h)) ∙ ap is_no_search same
  factor-every t inner stack (ok (some name)) x same k h =
      let free =
        guard-inverse (exists_where (λ active. active == str.to_lower name) stack)
          saved_search_cycle _ x h in
      let stored = bind-inverse (stored_expression str resolve parse name) _ x free.1 in
      let expanded = bind-inverse (inner (str.to_lower name ∷ stack) stored.0) _ x stored.2 in
      ap (λ y. every_factor is_plain y) (sym (ok-injective _ x expanded.2))
      ∙ k (str.to_lower name ∷ stack) stored.0 expanded.0 expanded.1

  -- An expansion that succeeds leaves no tag that names a saved search.
  pub expand-every :
      (depth : ℕ) (stack : List String) (e r : Expression)
      → expand_saved_searches str resolve parse depth stack e ≡ ok r
      → every is_plain r ≡ true
  unfolding expand_saved_searches
  expand-every zero stack e r h = cc
  expand-every (suc depth) stack e r h =
      map_tags-every _ is_plain
        (λ t x k.
          factor-every t _ stack (saved_search str resolve parse t) x refl
            (λ s e' r' h'. expand-every depth s e' r' h') k)
        e r h
