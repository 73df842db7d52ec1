-- ===== src/Query/Examples.antt =====
-- The theorems on saved searches at a search that negates a saved one, whose text names another.
use gooru.Prelude.{
  String, ◌==◌, eq_iff, ◌≡◌, refl, Bool, true, false, [], ◌∷◌, if◌then◌else◌, find_where,
  exists_where, Bool-cases, inl, inr,
}
use gooru.Prelude.Outcome.{Outcome, ok, err}
use gooru.Query.Ast.{
  Expression, no_or, or_term, AndTerm, no_and, and_term, Factor, tag, sub_expr, holds, every,
}
use gooru.Query.Saved.{
  QueryError, unresolved_saved_search, unparsed_saved_search, Strings, map_tags, saved_search,
  parse_meta_tag, meta_value, expand_factor, stored_expression, expand_saved_searches,
}
use gooru.Query.Expansion.{selects, is_plain, expand-selects, expand-every}
use gooru.Query.Nesting.{IsShallow, expand_saved_searches-IsShallow}

abbrev cut_at : String → (before : String) × (after : String) × Bool
cut_at t =
    if t == "saved:pets"
    then ("saved", "pets", true)
    else if t == "saved:cats"
    then ("saved", "cats", true)
    else (t, "", false)

abbrev trimmed_at : String → String
trimmed_at t =
    if t == "@saved:pets" then "saved:pets" else if t == "@saved:cats" then "saved:cats" else t

abbrev ascii : Strings
ascii = record { to_lower = λ t. t; trim_space = λ t. t; trim_at = trimmed_at; cut = cut_at }

-- pets are cats or dogs, and cats are tagged so
abbrev resolver : String → Outcome QueryError String
resolver name =
    if name == "pets"
    then ok "@saved:cats | dog"
    else if name == "cats"
    then ok "cat"
    else err unresolved_saved_search

abbrev one : Bool → Factor → AndTerm
one negate f = and_term negate f no_and

abbrev parser : String → Outcome QueryError Expression
parser text =
    if text == "@saved:cats | dog"
    then ok (or_term (one false (tag "@saved:cats")) (or_term (one false (tag "dog")) no_or))
    else if text == "cat"
    then ok (or_term (one false (tag "cat")) no_or)
    else err unparsed_saved_search

abbrev written : Expression
written = or_term (and_term false (tag "bird") (one true (tag "@saved:pets"))) no_or

abbrev expanded : Expression
expanded =
    let cats = or_term (one false (tag "cat")) no_or in
    let pets = or_term (one false (sub_expr cats)) (or_term (one false (tag "dog")) no_or) in
    or_term (and_term false (tag "bird") (one true (sub_expr pets))) no_or

written-expanded : expand_saved_searches ascii resolver parser 3 [] written ≡ ok expanded
unfolding expand_saved_searches map_tags saved_search parse_meta_tag meta_value expand_factor
    stored_expression exists_where find_where
written-expanded = refl

abbrev tagged_bird : String → Bool
tagged_bird t = t == "bird"

expand-selects_example :
    holds tagged_bird expanded ≡ holds (selects ascii resolver parser 3 tagged_bird) written
expand-selects_example =
    expand-selects ascii resolver parser 3 tagged_bird [] written expanded written-expanded

expand-every_example : every (is_plain ascii resolver parser) expanded ≡ true
expand-every_example = expand-every ascii resolver parser 3 [] written expanded written-expanded

resolver-IsShallow : (name : String) → IsShallow (resolver name)
resolver-IsShallow name = elim (Bool-cases (name == "pets")) [
  | inl e ↦ rw e tt
  | inr e ↦ rw e (elim (Bool-cases (name == "cats")) [ inl k ↦ rw k tt | inr k ↦ rw k tt ])
]

parser-IsShallow : (text : String) → IsShallow (parser text)
parser-IsShallow text = elim (Bool-cases (text == "@saved:cats | dog")) [
  | inl e ↦ rw e tt
  | inr e ↦ rw e (elim (Bool-cases (text == "cat")) [ inl k ↦ rw k tt | inr k ↦ rw k tt ])
]

unresolved-ok : (stored : String) → err unresolved_saved_search ≡ ok stored → ⊥
unresolved-ok stored h = cc

resolver-known :
    (name stored : String)
    → resolver name ≡ ok stored
    → exists_where (λ n. n == name) ("pets" ∷ "cats" ∷ []) ≡ true
unfolding exists_where
resolver-known name stored h = elim (Bool-cases (name == "pets")) [
  | inl e ↦ rw ((eq_iff name "pets").0 e) refl
  | inr e ↦ elim (Bool-cases (name == "cats")) [
    | inl k ↦ rw ((eq_iff name "cats").0 k) refl
    | inr k ↦ absurd (unresolved-ok stored (rw (e, k) at h))
  ]
]

expand_saved_searches-IsShallow_example :
    IsShallow (expand_saved_searches ascii resolver parser 3 [] written)
expand_saved_searches-IsShallow_example =
    expand_saved_searches-IsShallow ascii resolver parser ("pets" ∷ "cats" ∷ []) written
      resolver-IsShallow parser-IsShallow resolver-known
