-- ===== src/Query/Saved.antt =====
-- ParseMetaTag of metatags.go and ExpandSavedSearches of saved.go.
use text.Mathlib.Text.{starts_with}
use gooru.Prelude.{
  ℕ, zero, suc, String, ◌==◌, Bool, true, false, not, ◌||◌, Option, none, some, List, [], ◌∷◌,
  if◌then◌else◌, find_where, exists_where,
}
use gooru.Prelude.Outcome.{Outcome, ok, err, ◌>>=◌}
use gooru.Query.Ast.{Expression, no_or, or_term, AndTerm, no_and, and_term, Factor, tag, sub_expr}

pub data QueryError : Type 0 where
  not_a_meta_tag meta_tag_requires_value meta_tag_takes_no_value unsupported_meta_tag : QueryError
  saved_search_cycle unresolved_saved_search unparsed_saved_search : QueryError
  -- the end of the model's bound on nested saved searches
  nested_too_deep : QueryError

-- The functions of Go's strings that depend on Unicode tables or positions: ToLower, TrimSpace,
-- TrimPrefix(_, "@") and Cut(_, ":").
pub record Strings : Type 0 where
  pub to_lower : String → String
  pub trim_space : String → String
  pub trim_at : String → String
  pub cut : String → (before : String) × (after : String) × Bool

-- the name, and whether a value is required
pub record MetaTagDefinition : Type 0 where
  pub name : String
  pub requires_value : Bool

pub record ParsedMetaTag : Type 0 where
  pub definition : MetaTagDefinition
  pub value : String

abbrev pub meta_tag_saved : String
meta_tag_saved = "saved"

abbrev pub meta_tag_definitions : List MetaTagDefinition
meta_tag_definitions =
    record { name = "tagged"; requires_value = false }
    ∷ record { name = "filename_contains"; requires_value = true }
    ∷ record { name = "saved"; requires_value = true }
    ∷ record { name = "external"; requires_value = false }
    ∷ record { name = "in_target"; requires_value = true }
    ∷ []

module _ (str : Strings) where
  -- from the definition of the name
  unfoldable pub meta_value :
      Option MetaTagDefinition → String → Bool → Outcome QueryError ParsedMetaTag
  meta_value none value has_value = err unsupported_meta_tag
  meta_value (some d) value has_value =
      if d.requires_value
      then (if not has_value || (str.trim_space value == "")
          then err meta_tag_requires_value
          else ok (record { definition = d; value = value }))
      else if has_value
      then err meta_tag_takes_no_value
      else ok (record { definition = d; value = "" })

  unfoldable pub parse_meta_tag : String → Outcome QueryError ParsedMetaTag
  parse_meta_tag raw =
      let parts = str.cut (str.trim_at raw) in
      let name : String = str.to_lower (str.trim_space parts.0) in
      if not (starts_with raw "@")
      then err not_a_meta_tag
      else meta_value (find_where (λ d. d.name == name) meta_tag_definitions) parts.1 parts.2

-- Rewrites each tag; the first error ends the walk.
unfoldable mutual
  pub map_tags : (String → Outcome QueryError Factor) → Expression → Outcome QueryError Expression
  map_tags f no_or = ok no_or
  map_tags f (or_term a e) = map_and f a >>= λ b. map_tags f e >>= λ r. ok (or_term b r)

  pub map_and : (String → Outcome QueryError Factor) → AndTerm → Outcome QueryError AndTerm
  map_and f no_and = ok no_and
  map_and f (and_term negate x a) =
      map_factor f x >>= λ y. map_and f a >>= λ b. ok (and_term negate y b)

  pub map_factor : (String → Outcome QueryError Factor) → Factor → Outcome QueryError Factor
  map_factor f (tag t) = f t
  map_factor f (sub_expr e) = map_tags f e >>= λ r. ok (sub_expr r)

-- an empty saved search is every file
abbrev pub stored_or_all : Strings → String → String
stored_or_all str stored = if str.trim_space stored == "" then "(@tagged | -@tagged)" else stored

-- `resolve` and `parse` are the SavedSearchResolver and Parse.
module _ (str : Strings) (resolve : String → Outcome QueryError String)
    (parse : String → Outcome QueryError Expression) where
  -- the name that a factor asks for, if it is a saved search
  abbrev pub saved_name : ParsedMetaTag → Option String
  saved_name meta =
      if meta.definition.name == meta_tag_saved then some (str.trim_space meta.value) else none

  unfoldable pub saved_search : String → Outcome QueryError (Option String)
  saved_search t =
      if not (starts_with (str.to_lower t) "@saved:")
      then ok none
      else parse_meta_tag str t >>= λ meta. ok (saved_name meta)

  unfoldable pub stored_expression : String → Outcome QueryError Expression
  stored_expression name = resolve name >>= λ stored. parse (stored_or_all str stored)

  abbrev pub is_active : String → List String → Bool
  is_active key stack = exists_where (λ active. active == key) stack

  -- a tag that is no saved search stays; another becomes what `inner` makes of the stored expression
  unfoldable pub expand_factor :
      (List String → Expression → Outcome QueryError Expression)
      → List String
      → String
      → Option String
      → Outcome QueryError Factor
  expand_factor inner stack t none = ok (tag t)
  expand_factor inner stack t (some name) =
      let key : String = str.to_lower name in
      if is_active key stack
      then err saved_search_cycle
      else stored_expression name >>= λ sub. inner (key ∷ stack) sub >>= λ r. ok (sub_expr r)

  -- `expandSavedSearches`; the first argument bounds the depth to which saved searches are nested.
  unfoldable pub expand_saved_searches :
      ℕ → List String → Expression → Outcome QueryError Expression
  expand_saved_searches zero stack e = err nested_too_deep
  expand_saved_searches (suc depth) stack e =
      map_tags
        (λ t. saved_search t >>= λ name.
          expand_factor (λ s x. expand_saved_searches depth s x) stack t name)
        e
