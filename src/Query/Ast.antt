-- ===== src/Query/Ast.antt =====
-- The expressions of internal/query/parser.go: an OR of ANDs of factors, each negated or not.
use gooru.Prelude.{String, Bool, true, false, not, ◌&&◌, ◌||◌, if◌then◌else◌}

-- `Expression` is its list of AND terms, and an AND term its list of terms. The parser makes no nil
-- pointer, and no factor without a tag or a sub-expression.
mutual
  pub data Expression : Type 0 where
    no_or : Expression
    or_term : AndTerm → Expression → Expression

  pub data AndTerm : Type 0 where
    no_and : AndTerm
    and_term : Bool → Factor → AndTerm → AndTerm

  pub data Factor : Type 0 where
    tag : String → Factor
    sub_expr : Expression → Factor

abbrev pub negated_if : Bool → Bool → Bool
negated_if negate b = if negate then not b else b

-- Whether a file of which a tag holds or not is selected.
unfoldable mutual
  pub holds : (String → Bool) → Expression → Bool
  holds v no_or = false
  holds v (or_term a e) = holds_and v a || holds v e

  pub holds_and : (String → Bool) → AndTerm → Bool
  holds_and v no_and = true
  holds_and v (and_term negate f a) = negated_if negate (holds_factor v f) && holds_and v a

  pub holds_factor : (String → Bool) → Factor → Bool
  holds_factor v (tag t) = v t
  holds_factor v (sub_expr e) = holds v e

-- Whether a test is true of every tag.
unfoldable mutual
  pub every : (String → Bool) → Expression → Bool
  every p no_or = true
  every p (or_term a e) = every_and p a && every p e

  pub every_and : (String → Bool) → AndTerm → Bool
  every_and p no_and = true
  every_and p (and_term negate f a) = every_factor p f && every_and p a

  pub every_factor : (String → Bool) → Factor → Bool
  every_factor p (tag t) = p t
  every_factor p (sub_expr e) = every p e
