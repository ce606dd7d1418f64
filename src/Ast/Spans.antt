-- ===== src/Ast/Spans.antt =====
-- The lists of the syntax tree, and the spans of expressions and blocks: `expr_span` and
-- `get_expression_span` of crates/plat-parser/src/lib.rs.
use plat.Base.{ℕ, List, [], ◌∷◌, Option, none, some, Text}
use plat.Diags.{Span, new}
use plat.Ast.{
  Ty, Tys, no_tys, ty_cons, Expression, Literal, MaybeExpression, no_expression, an_expression,
  MaybeBlock, no_block, a_block, Expressions, no_expressions, expression_cons, Pairs, no_pairs,
  pair_cons, NamedArgs, no_args, arg_cons, MatchArms, no_arms, arm_cons, Pattern, Block, block_of,
  Statement, Statements, no_statements, statement_cons,
}

abbrev pub tys_of : List Ty → Tys
tys_of [] = no_tys
tys_of (t ∷ ts) = ty_cons t (tys_of ts)

module _ {F : Type 0} where
  abbrev pub expressions_of : List (Expression F) → Expressions F
  expressions_of [] = no_expressions
  expressions_of (e ∷ es) = expression_cons e (expressions_of es)

  abbrev pub pairs_of : List (Expression F × Expression F) → Pairs F
  pairs_of [] = no_pairs
  pairs_of ((k, v) ∷ ps) = pair_cons k v (pairs_of ps)

  abbrev pub args_of : List (Text × Expression F × Span) → NamedArgs F
  args_of [] = no_args
  args_of ((name, value, span) ∷ rest) = arg_cons name value span (args_of rest)

  abbrev pub arms_of : List (Pattern F × Expression F × Span) → MatchArms F
  arms_of [] = no_arms
  arms_of ((pattern, body, span) ∷ rest) = arm_cons pattern body span (arms_of rest)

  abbrev pub statements_of : List (Statement F) → Statements F
  statements_of [] = no_statements
  statements_of (s ∷ ss) = statement_cons s (statements_of ss)

  abbrev pub maybe_expression : Option (Expression F) → MaybeExpression F
  maybe_expression none = no_expression
  maybe_expression (some e) = an_expression e

  abbrev pub maybe_block : Option (Block F) → MaybeBlock F
  maybe_block none = no_block
  maybe_block (some b) = a_block b

  abbrev pub block_span : Block F → Span
  block_span (block_of body span) = span

  abbrev pub literal_span : Literal F → Span
  literal_span (Literal.bool b span) = span
  literal_span (Literal.integer n ty span) = span
  literal_span (Literal.float x ty span) = span
  literal_span (Literal.string s span) = span
  literal_span (Literal.interpolated_string parts span) = span
  literal_span (Literal.array es span) = span
  literal_span (Literal.dict ps span) = span
  literal_span (Literal.set es span) = span

  unfoldable pub expr_span : Expression F → Span
  expr_span (Expression.literal lit) = literal_span lit
  expr_span (Expression.identifier name span) = span
  expr_span (Expression.binary left op right span) = span
  expr_span (Expression.unary op operand span) = span
  expr_span (Expression.call function args span) = span
  expr_span (Expression.assignment target value span) = span
  expr_span (Expression.index object i span) = span
  expr_span (Expression.method_call object method args span) = span
  expr_span (Expression.block b) = block_span b
  expr_span (Expression.enum_constructor enum_name variant args span) = span
  expr_span (Expression.match_ value arms span) = span
  expr_span (Expression.try_ e span) = span
  expr_span (Expression.self_ span) = span
  expr_span (Expression.member_access object member span) = span
  expr_span (Expression.constructor_call class_name args span) = span
  expr_span (Expression.super_call method args span) = span
  expr_span (Expression.range start end inclusive span) = span
  expr_span (Expression.if_ condition then_branch else_branch span) = span
  expr_span (Expression.cast_ value target_type span) = span
  expr_span (Expression.spawn_ body span) = span

  -- The start is that of the expression, the end is given.
  unfoldable pub get_expression_span : Expression F → ℕ → Span
  unfolding expr_span
  get_expression_span e end = new (expr_span e).start end
