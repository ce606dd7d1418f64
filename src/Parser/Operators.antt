-- ===== src/Parser/Operators.antt =====
-- The rules from `parse_call` to `parse_assignment` of crates/plat-parser/src/lib.rs: one for each level of
-- precedence.
use plat.Base.{
  ℕ, zero, suc, Bool, true, false, ◌&&◌, List, [], ◌∷◌, Option, none, some, Text, codes, text_eq,
  stuck, length,
}
use plat.Diags.{Span, new}
use plat.Lexer.Token.{Token}
use plat.Ast.{Expression, BinaryOp, UnaryOp}
use plat.Ast.Spans.{args_of, expr_span, get_expression_span}
use plat.Parser.State.{Env, Parse, pure, ◌>>=◌, ◌>>◌, advance, match_tokens, previous_span}
use plat.Parser.Consume.{reject, consume, consume_identifier, if_matched, if_next}
use plat.Parser.Literals.{Calls, parse_named_arguments}
use plat.Parser.Primary.{parse_primary, begins_uppercase}

module _ {F : Type 0} (env : Env F) (k : Calls F) where
  -- Behind `(`: only an identifier can be called.
  abbrev pub called : Expression F → Parse (Expression F)
  called (Expression.identifier name span) = do
    args ← parse_named_arguments env k
    consume env Token.right_paren (codes "Expected ')' after arguments")
    end ← previous_span env
    pure (Expression.call name (args_of args) (new span.start end.end))
  called e =
      reject env (expr_span e) (codes "Cannot call this expression")
        (codes "this is not a function") (codes "Only functions and methods can be called with ()")

  -- Behind `[`.
  unfoldable pub indexed : Expression F → Parse (Expression F)
  unfolding consume previous_span get_expression_span
  indexed e = do
    i ← k.expression
    consume env Token.right_bracket (codes "Expected ']' after index")
    end ← previous_span env
    pure (Expression.index e i (new (get_expression_span e end.end).start end.end))

  -- The class and the start, where `Type.init(` calls a constructor.
  abbrev constructor_if : Text → Span → Bool → Option (Text × ℕ)
  constructor_if name span true = some (name, span.start)
  constructor_if name span false = none

  abbrev constructor_of : Expression F → Text → Option (Text × ℕ)
  constructor_of (Expression.identifier name span) member =
      constructor_if name span (text_eq member (codes "init") && begins_uppercase env k name)
  constructor_of e member = none

  abbrev pub method_of : Expression F → Text → Option (Text × ℕ) → Parse (Expression F)
  method_of e member (some (class_name, start)) = do
    args ← parse_named_arguments env k
    consume env Token.right_paren (codes "Expected ')' after constructor arguments")
    end ← previous_span env
    pure (Expression.constructor_call class_name (args_of args) (new start end.end))
  method_of e member none = do
    args ← parse_named_arguments env k
    consume env Token.right_paren (codes "Expected ')' after method arguments")
    end ← previous_span env
    pure (
        Expression.method_call e member (args_of args)
          (new (get_expression_span e end.end).start end.end))

  unfoldable pub accessed : Expression F → Text → Parse (Expression F)
  unfolding previous_span get_expression_span
  accessed e member = do
    end ← previous_span env
    pure (Expression.member_access e member (new (get_expression_span e end.end).start end.end))

  -- Behind `.`.
  unfoldable pub dotted : Expression F → Parse (Expression F)
  unfolding if_next advance consume_identifier if_matched text_eq parse_named_arguments consume
      previous_span get_expression_span accessed
  dotted e = do
    member ←
        if_next env Token.init_ (do advance env; pure (codes "init"))
          (consume_identifier env (codes "Expected member name after '.'"))
    if_matched env Token.left_paren (method_of e member (constructor_of e member))
        (accessed e member)

  -- Behind `?`.
  unfoldable pub tried : Expression F → Parse (Expression F)
  unfolding previous_span get_expression_span
  tried e = do
    end ← previous_span env
    pure (Expression.try_ e (new (get_expression_span e end.end).start end.end))

  -- The loop of `parse_call`.
  unfoldable pub postfix : ℕ → Expression F → Parse (Expression F)
  unfolding if_matched consume parse_named_arguments previous_span reject expr_span indexed dotted
      tried
  postfix zero e c = stuck
  postfix (suc fuel) e c =
      let more = postfix fuel in
      if_matched env Token.left_paren (called e >>= more)
        (if_matched env Token.left_bracket (indexed e >>= more) (
          if_matched env Token.dot (dotted e >>= more)
            (if_matched env Token.question (tried e >>= more) (pure e))))
        c

  unfoldable pub parse_call : Parse (Expression F)
  unfolding parse_primary postfix
  parse_call = do e ← parse_primary env k; postfix (length env.tokens) e

  abbrev pub unary_of : Option UnaryOp → Parse (Expression F)
  unary_of none = parse_call
  unary_of (some op) = do
    start ← previous_span env
    operand ← k.unary
    end ← previous_span env
    pure (Expression.unary op operand (new start.start end.end))

  unfoldable pub parse_unary : Parse (Expression F)
  unfolding match_tokens previous_span parse_call
  parse_unary = do
    op ← match_tokens env ((Token.not_, UnaryOp.not_) ∷ (Token.minus, UnaryOp.negate) ∷ [])
    unary_of op

  abbrev pub binary_step :
      Parse (Expression F)
      → (Expression F → Parse (Expression F))
      → Expression F
      → Option BinaryOp
      → Parse (Expression F)
  binary_step next more left none = pure left
  binary_step next more left (some op) = do
    right ← next
    end ← previous_span env
    more (Expression.binary left op right (get_expression_span left end.end))

  -- `while let Some(op) = self.match_tokens(ops) { .. }`
  unfoldable pub binary_loop :
      ℕ → List (Token F × BinaryOp) → Parse (Expression F) → Expression F → Parse (Expression F)
  unfolding match_tokens previous_span get_expression_span
  binary_loop zero ops next left c = stuck
  binary_loop (suc fuel) ops next left c =
      let more = binary_loop fuel ops next in
      (do op ← match_tokens env ops; binary_step next more left op) c

  -- A rule of left-associative operators over the next rule.
  unfoldable pub binary_level :
      List (Token F × BinaryOp) → Parse (Expression F) → Parse (Expression F)
  unfolding binary_loop
  binary_level ops next = do left ← next; binary_loop (length env.tokens) ops next left

  unfoldable pub parse_factor : Parse (Expression F)
  unfolding binary_level parse_unary
  parse_factor =
      binary_level
        ((Token.star, BinaryOp.multiply)
          ∷ (Token.slash, BinaryOp.divide)
          ∷ (Token.percent, BinaryOp.modulo)
          ∷ [])
        parse_unary

  unfoldable pub parse_term : Parse (Expression F)
  unfolding binary_level parse_factor
  parse_term =
      binary_level ((Token.plus, BinaryOp.add) ∷ (Token.minus, BinaryOp.subtract) ∷ []) parse_factor

  abbrev pub range_of : Expression F → Option Bool → Parse (Expression F)
  range_of start none = pure start
  range_of start (some inclusive) = do
    end_expr ← parse_term
    end ← previous_span env
    pure (Expression.range start end_expr inclusive (get_expression_span start end.end))

  unfoldable pub parse_range : Parse (Expression F)
  unfolding parse_term match_tokens previous_span get_expression_span
  parse_range = do
    start ← parse_term
    inclusive ← match_tokens env ((Token.dot_dot, false) ∷ (Token.dot_dot_eq, true) ∷ [])
    range_of start inclusive

  unfoldable pub parse_comparison : Parse (Expression F)
  unfolding binary_level parse_range
  parse_comparison =
      binary_level
        ((Token.greater, BinaryOp.greater)
          ∷ (Token.greater_eq, BinaryOp.greater_equal)
          ∷ (Token.less, BinaryOp.less)
          ∷ (Token.less_eq, BinaryOp.less_equal)
          ∷ [])
        parse_range

  unfoldable pub parse_equality : Parse (Expression F)
  unfolding binary_level parse_comparison
  parse_equality =
      binary_level ((Token.eq, BinaryOp.equal) ∷ (Token.not_eq, BinaryOp.not_equal) ∷ [])
        parse_comparison

  unfoldable pub parse_logical_and : Parse (Expression F)
  unfolding binary_level parse_equality
  parse_logical_and = binary_level ((Token.and_, BinaryOp.and_) ∷ []) parse_equality

  unfoldable pub parse_logical_or : Parse (Expression F)
  unfolding binary_level parse_logical_and
  parse_logical_or = binary_level ((Token.or_, BinaryOp.or_) ∷ []) parse_logical_and

  -- Behind an expression and `=`.
  abbrev pub assigned : Expression F → Parse (Expression F)
  assigned (Expression.identifier name span) = do
    value ← k.expression
    end ← previous_span env
    pure (Expression.assignment (Expression.identifier name span) value (new span.start end.end))
  assigned (Expression.member_access object member span) = do
    value ← k.expression
    end ← previous_span env
    pure (
        Expression.assignment (Expression.member_access object member span) value
          (new span.start end.end))
  assigned e =
      reject env (expr_span e) (codes "Invalid assignment target")
        (codes "cannot assign to this expression")
        (codes "Only identifiers (x = ...) and member access (obj.field = ...) can be assigned to")

  unfoldable pub parse_assignment : Parse (Expression F)
  unfolding parse_logical_or if_matched previous_span reject expr_span
  parse_assignment = do e ← parse_logical_or; if_matched env Token.assign (assigned e) (pure e)
