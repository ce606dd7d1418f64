-- ===== src/Parser/Literals.antt =====
-- Arguments, literals and blocks of crates/plat-parser/src/lib.rs. The rules of expressions and statements
-- call one another: a rule takes as `k` the calls that it makes behind a token that it has passed.
use plat.Base.{ℕ, zero, suc, Bool, true, false, ◌||◌, List, [], ◌∷◌, Text, codes, panic, ok}
use plat.Diags.{Span, new}
use plat.Lexer.Token.{Token, StringPart}
use plat.Ast.{
  Expression, Literal, InterpolationParts, no_parts, text_part, expression_part, Statement, Block,
  block_of,
}
use plat.Ast.Spans.{expressions_of, pairs_of, statements_of}
use plat.Parser.State.{
  Env, Parse, pure, ◌>>=◌, ◌>>◌, lift, peek, advance, check, current_span, previous_span, is_at_end,
}
use plat.Parser.Consume.{syntax, consume, consume_identifier, items, body_of}

pub record Calls (F : Type 0) : Type 0 where
  pub expression : Parse (Expression F)
  pub unary : Parse (Expression F)
  pub primary : Parse (Expression F)
  pub if_expression : Parse (Expression F)
  pub statement : Parse (Statement F)
  pub if_statement : Parse (Statement F)

module _ {F : Type 0} (env : Env F) (k : Calls F) where
  unfoldable pub named_argument : Parse (Text × Expression F × Span)
  unfolding current_span consume_identifier consume previous_span
  named_argument = do
    start ← current_span env
    name ← consume_identifier env (codes "Expected parameter name")
    consume env Token.assign (codes "Expected '=' after parameter name")
    value ← k.expression
    end ← previous_span env
    pure (name, value, new start.start end.end)

  unfoldable pub parse_named_arguments : Parse (List (Text × Expression F × Span))
  unfolding items named_argument
  parse_named_arguments = items env Token.right_paren named_argument

  unfoldable pub parse_interpolated_string : List StringPart → Parse (InterpolationParts F)
  parse_interpolated_string [] = pure no_parts
  parse_interpolated_string (StringPart.text s ∷ parts) = do
    rest ← parse_interpolated_string parts
    pure (text_part s rest)
  parse_interpolated_string (StringPart.interpolation s ∷ parts) = do
    e ← lift (env.parse_interpolation s)
    rest ← parse_interpolated_string parts
    pure (expression_part e rest)

  abbrev pub key_at : Token F → Parse (Expression F)
  key_at (Token.string_literal s) = k.primary
  key_at (Token.ident s) = do
    name ← consume_identifier env (codes "Expected key")
    span ← previous_span env
    pure (Expression.literal (Literal.string name span))
  key_at _ = syntax env (codes "Expected string or identifier as dict key")

  unfoldable pub dict_pair : Parse (Expression F × Expression F)
  unfolding peek consume_identifier previous_span consume
  dict_pair = do
    t ← peek env
    key ← key_at t.token
    consume env Token.colon (codes "Expected ':' after dict key")
    value ← k.expression
    pure (key, value)

  unfoldable pub parse_dict_literal : Parse (Expression F)
  unfolding current_span consume items dict_pair previous_span
  parse_dict_literal = do
    start ← current_span env
    consume env Token.left_brace (codes "Expected '{'")
    pairs ← items env Token.right_brace dict_pair
    consume env Token.right_brace (codes "Expected '}' after dict elements")
    end ← previous_span env
    pure (Expression.literal (Literal.dict (pairs_of pairs) (new start.start end.end)))

  -- Behind the keyword `Set`.
  unfoldable pub parse_set_literal : Parse (Expression F)
  unfolding previous_span consume items
  parse_set_literal = do
    start ← previous_span env
    consume env Token.left_brace (codes "Expected '{' after 'Set'")
    elements ← items env Token.right_brace k.expression
    consume env Token.right_brace (codes "Expected '}' after set elements")
    end ← previous_span env
    pure (Expression.literal (Literal.set (expressions_of elements) (new start.start end.end)))

  -- Behind `[`.
  unfoldable pub array_literal : Parse (Expression F)
  unfolding previous_span consume items
  array_literal = do
    start ← previous_span env
    elements ← items env Token.right_bracket k.expression
    consume env Token.right_bracket (codes "Expected ']' after array elements")
    end ← previous_span env
    pure (Expression.literal (Literal.array (expressions_of elements) (new start.start end.end)))

  unfoldable pub parse_block : Parse (Block F)
  unfolding current_span consume previous_span
  parse_block = do
    start ← current_span env
    consume env Token.left_brace (codes "Expected '{'")
    statements ← body_of env k.statement
    consume env Token.right_brace (codes "Expected '}'")
    end ← previous_span env
    pure (block_of (statements_of statements) (new start.start end.end))

-- `self.current -= 1`
unfoldable pub back : Parse (Unit {0})
back zero = panic
back (suc c) = ok (tt, c)

-- `let saved = self.current`
abbrev pub position : Parse ℕ
position c = ok (c, c)

-- `self.current = saved`
abbrev pub restore : ℕ → Parse (Unit {0})
restore saved c = ok (tt, saved)

module _ {F : Type 0} (env : Env F) where
  abbrev pub key_like : Token F → Parse Bool
  key_like (Token.string_literal s) = do advance env; check env Token.colon
  key_like (Token.ident s) = do advance env; check env Token.colon
  key_like _ = pure false

  abbrev pub dict_like : Bool → Parse Bool
  dict_like true = pure true
  dict_like false = do t ← peek env; key_like t.token

  -- Behind `{`: nothing up to `}` is a dict.
  unfoldable pub is_dict_literal : Parse Bool
  unfolding is_at_end check peek advance
  is_dict_literal = do
    saved_current ← position
    end ← is_at_end env
    closed ← check env Token.right_brace
    looks_like_dict ← dict_like (end || closed)
    restore saved_current
    pure looks_like_dict
