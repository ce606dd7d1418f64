-- ===== src/Parser/Statements.antt =====
-- The statements of crates/plat-parser/src/lib.rs, and the knot that ties the rules together.
use plat.Base.{
  ℕ, zero, suc, [], ◌∷◌, ◌++◌, Option, none, some, Text, codes, text_eq, stuck, panic, ok, length,
  if◌then◌else◌,
}
use plat.Diags.{Span, new}
use plat.Lexer.Token.{Token}
use plat.Ast.{Expression, Statement, Block, block_of, Ty}
use plat.Ast.Spans.{statements_of, maybe_block, maybe_expression, block_span}
use plat.Parser.State.{Env, Parse, pure, ◌>>=◌, ◌>>◌, previous_span}
use plat.Parser.Consume.{reject, consume, consume_identifier, if_matched, if_next, when_matched}
use plat.Parser.Types.{parse_type}
use plat.Parser.Literals.{Calls, parse_block}
use plat.Parser.Blocks.{parse_if_expression}
use plat.Parser.Primary.{parse_primary}
use plat.Parser.Operators.{parse_assignment, parse_unary}

module _ {F : Type 0} (env : Env F) (k : Calls F) where
  -- `parse_let_statement` and `parse_var_statement`, behind the keyword.
  unfoldable pub declaration :
      Text → Text → (Text → Ty → Expression F → Span → Statement F) → Parse (Statement F)
  unfolding previous_span consume_identifier consume parse_type
  declaration no_assign no_semicolon statement = do
    start ← previous_span env
    name ← consume_identifier env (codes "Expected variable name")
    consume env Token.colon (codes "Expected ':' after variable name (type annotation required)")
    ty ← parse_type env
    consume env Token.assign no_assign
    value ← k.expression
    consume env Token.semicolon no_semicolon
    end ← previous_span env
    pure (statement name ty value (new start.start end.end))

  abbrev pub some_of : {A : Type 0} → Parse A → Parse (Option A)
  some_of p = do a ← p; pure (some a)

  unfoldable pub parse_return_statement : Parse (Statement F)
  unfolding previous_span if_next consume
  parse_return_statement = do
    start ← previous_span env
    value ← if_next env Token.semicolon (pure none) (some_of k.expression)
    consume env Token.semicolon (codes "Expected ';' after return statement")
    end ← previous_span env
    pure (Statement.return_ (maybe_expression value) (new start.start end.end))

  -- The span of an `if` statement: `unreachable!()` for any other.
  abbrev pub statement_end : Statement F → Parse ℕ
  statement_end (Statement.if_statement condition then_branch else_branch span) c = ok (span.end, c)
  statement_end _ c = panic

  unfoldable pub else_if : Parse (Block F)
  unfolding previous_span
  else_if = do
    start ← previous_span env
    nested ← k.if_statement
    end ← statement_end nested
    pure (block_of (statements_of (nested ∷ [])) (new start.start end))

  abbrev end_of : Block F → Option (Block F) → ℕ
  end_of then_branch none = (block_span then_branch).end
  end_of then_branch (some b) = (block_span b).end

  -- Behind `if`.
  unfoldable pub parse_if_statement : Parse (Statement F)
  unfolding previous_span consume parse_block when_matched if_matched else_if
  parse_if_statement = do
    start ← previous_span env
    consume env Token.left_paren (codes "Expected '(' after 'if'")
    condition ← k.expression
    consume env Token.right_paren (codes "Expected ')' after condition")
    then_branch ← parse_block env k
    else_branch ←
        when_matched env Token.else_ (if_matched env Token.if_ else_if (parse_block env k))
    pure (
        Statement.if_statement condition then_branch (maybe_block else_branch)
          (new start.start (end_of then_branch else_branch)))

  unfoldable pub parse_while_statement : Parse (Statement F)
  unfolding previous_span consume parse_block
  parse_while_statement = do
    start ← previous_span env
    consume env Token.left_paren (codes "Expected '(' after 'while'")
    condition ← k.expression
    consume env Token.right_paren (codes "Expected ')' after condition")
    body ← parse_block env k
    pure (Statement.while_ condition body (new start.start (block_span body).end))

  unfoldable pub parse_for_statement : Parse (Statement F)
  unfolding previous_span consume consume_identifier parse_type parse_block
  parse_for_statement = do
    start ← previous_span env
    consume env Token.left_paren (codes "Expected '(' after 'for'")
    variable ← consume_identifier env (codes "Expected variable name in for loop")
    consume env Token.colon
        (codes "Expected ':' after for loop variable (type annotation required)")
    variable_type ← parse_type env
    consume env Token.in_ (codes "Expected 'in' after for loop variable type")
    iterable ← k.expression
    consume env Token.right_paren (codes "Expected ')' after for loop expression")
    body ← parse_block env k
    pure (
        Statement.for_ variable variable_type iterable body (new start.start (block_span body).end))

  unfoldable pub print_name : Text → Parse (Unit {0})
  unfolding text_eq previous_span reject
  print_name name = do
    span ← previous_span env
    (if text_eq name (codes "value")
        then pure tt
        else reject env span (codes "Expected parameter name 'value', found '" ++ name ++ codes "'")
            (codes "incorrect parameter name")
            (codes "print() requires a named argument: print(value = ...)"))

  unfoldable pub parse_print_statement : Parse (Statement F)
  unfolding previous_span consume consume_identifier print_name
  parse_print_statement = do
    start ← previous_span env
    consume env Token.left_paren (codes "Expected '(' after 'print'")
    name ← consume_identifier env (codes "Expected parameter name 'value'")
    print_name name
    consume env Token.assign (codes "Expected '=' after parameter name")
    value ← k.expression
    consume env Token.right_paren (codes "Expected ')' after print argument")
    consume env Token.semicolon (codes "Expected ';' after print statement")
    end ← previous_span env
    pure (Statement.print_ value (new start.start end.end))

  unfoldable pub parse_concurrent_statement : Parse (Statement F)
  unfolding previous_span parse_block
  parse_concurrent_statement = do
    start ← previous_span env
    body ← parse_block env k
    pure (Statement.concurrent_ body (new start.start (block_span body).end))

  unfoldable pub expression_statement : Parse (Statement F)
  unfolding parse_assignment consume
  expression_statement = do
    e ← parse_assignment env k
    consume env Token.semicolon (codes "Expected ';' after expression")
    pure (Statement.expression e)

  unfoldable pub parse_statement : Parse (Statement F)
  unfolding if_matched declaration parse_return_statement parse_if_statement parse_while_statement
      parse_for_statement parse_print_statement parse_concurrent_statement expression_statement
  parse_statement =
      if_matched env Token.let_
        (declaration (codes "Expected '=' in let statement")
          (codes "Expected ';' after let statement") Statement.let_)
        (if_matched env Token.var_
          (declaration (codes "Expected '=' in var statement")
            (codes "Expected ';' after var statement") Statement.var_)
          (if_matched env Token.return_ parse_return_statement (
            if_matched env Token.if_ parse_if_statement (
              if_matched env Token.while_ parse_while_statement (
                if_matched env Token.for_ parse_for_statement (
                  if_matched env Token.print_ parse_print_statement (
                    if_matched env Token.concurrent_ parse_concurrent_statement
                      expression_statement)))))))

module _ {F : Type 0} where
  -- The calls of a parser that has run out of fuel.
  abbrev pub no_calls : Calls F
  no_calls = record {
    expression = λ c. stuck;
    unary = λ c. stuck;
    primary = λ c. stuck;
    if_expression = λ c. stuck;
    statement = λ c. stuck;
    if_statement = λ c. stuck;
  }

  abbrev pub next_calls : Env F → Calls F → Calls F
  next_calls env k = record {
    expression = parse_assignment env k;
    unary = parse_unary env k;
    primary = parse_primary env k;
    if_expression = parse_if_expression env k;
    statement = parse_statement env k;
    if_statement = parse_if_statement env k;
  }

  -- The rules, nested at most as deep as the fuel says. Each nested call is behind a token more.
  unfoldable pub calls : Env F → ℕ → Calls F
  unfolding parse_assignment parse_unary parse_primary parse_if_expression parse_statement
      parse_if_statement
  calls env zero = no_calls
  calls env (suc fuel) = next_calls env (calls env fuel)

module _ {F : Type 0} (env : Env F) where
  abbrev pub all_calls : Calls F
  all_calls = calls env (length env.tokens)

  unfoldable pub parse_expression : Parse (Expression F)
  unfolding calls
  parse_expression = all_calls.expression
