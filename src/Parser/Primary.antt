-- ===== src/Parser/Primary.antt =====
-- `parse_primary` of crates/plat-parser/src/lib.rs and the other expressions that begin with a keyword.
use plat.Base.{
  ℕ, Bool, true, false, ◌&&◌, List, [], ◌∷◌, ◌++◌, Text, codes, text_eq, length, if◌then◌else◌,
}
use plat.Diags.{Span, new}
use plat.Lexer.Token.{Token}
use plat.Modules.Paths.{join}
use plat.Ast.{Expression, Literal}
use plat.Ast.Spans.{args_of, block_span}
use plat.Parser.State.{Env, Parse, pure, ◌>>=◌, ◌>>◌, peek, advance, match_token, previous_span}
use plat.Parser.Consume.{
  syntax, consume, consume_identifier, consume_module_name, if_matched, while_,
}
use plat.Parser.Types.{parse_type}
use plat.Parser.Literals.{
  Calls, parse_named_arguments, parse_interpolated_string, parse_dict_literal, parse_set_literal,
  array_literal, parse_block, back, is_dict_literal,
}
use plat.Parser.Blocks.{parse_match_expression, parse_if_expression}

module _ {F : Type 0} (env : Env F) (k : Calls F) where
  -- The name of a parameter that has to be the given one.
  unfoldable pub parameter_named : Text → Text → Text → Parse (Unit {0})
  unfolding text_eq
  parameter_named expected message found =
      if text_eq found expected then pure tt else syntax env (message ++ found ++ codes "'")

  -- Behind `cast`.
  unfoldable pub parse_cast_expression : Parse (Expression F)
  unfolding previous_span consume consume_identifier parameter_named parse_type
  parse_cast_expression = do
    start ← previous_span env
    consume env Token.left_paren (codes "Expected '(' after 'cast'")
    first ← consume_identifier env (codes "Expected 'value' parameter")
    parameter_named (codes "value") (codes "Expected 'value' as first parameter, found '") first
    consume env Token.assign (codes "Expected '=' after 'value'")
    value ← k.expression
    consume env Token.comma (codes "Expected ',' after value expression")
    second ← consume_identifier env (codes "Expected 'target' parameter")
    parameter_named (codes "target") (codes "Expected 'target' as second parameter, found '") second
    consume env Token.assign (codes "Expected '=' after 'target'")
    target_type ← parse_type env
    consume env Token.right_paren (codes "Expected ')' after cast arguments")
    end ← previous_span env
    pure (Expression.cast_ value target_type (new start.start end.end))

  -- Behind `spawn`.
  unfoldable pub parse_spawn_expression : Parse (Expression F)
  unfolding previous_span parse_block
  parse_spawn_expression = do
    start ← previous_span env
    body ← parse_block env k
    pure (Expression.spawn_ (Expression.block body) (new start.start (block_span body).end))

  -- Behind `super`.
  unfoldable pub super_call : Parse (Expression F)
  unfolding previous_span consume if_matched consume_identifier parse_named_arguments
  super_call = do
    start ← previous_span env
    consume env Token.dot (codes "Expected '.' after 'super'")
    method ←
        if_matched env Token.init_ (pure (codes "init"))
          (consume_identifier env (codes "Expected method name after 'super.'"))
    consume env Token.left_paren (codes "Expected '(' after super method name")
    args ← parse_named_arguments env k
    consume env Token.right_paren (codes "Expected ')' after super method arguments")
    end ← previous_span env
    pure (Expression.super_call method (args_of args) (new start.start end.end))

  abbrev pub begins_uppercase : Text → Bool
  begins_uppercase [] = false
  begins_uppercase (c ∷ cs) = env.is_uppercase c

  abbrev is_empty : List Text → Bool
  is_empty [] = true
  is_empty (s ∷ ss) = false

  unfoldable pub enum_constructor : ℕ → Text → Text → Parse (Expression F)
  unfolding if_matched parse_named_arguments consume previous_span
  enum_constructor start name variant =
      if_matched env Token.left_paren
        (do
          args ← parse_named_arguments env k
          consume env Token.right_paren (codes "Expected ')' after enum constructor arguments")
          end ← previous_span env
          pure (Expression.enum_constructor name variant (args_of args) (new start end.end)))
        (do
          end ← previous_span env
          pure (Expression.enum_constructor name variant (args_of []) (new start end.end)))

  unfoldable pub qualified : ℕ → List Text → Parse (Expression F)
  unfolding previous_span
  qualified start parts = do
    end ← previous_span env
    pure (Expression.identifier (join parts) (new start end.end))

  abbrev pub enum_or_name : ℕ → Text → Text → List Text → Bool → Parse (Expression F)
  enum_or_name start name second rest true = enum_constructor start name second
  enum_or_name start name second rest false = qualified start (name ∷ second ∷ rest)

  -- Behind an identifier and `::`.
  unfoldable pub path_expression : ℕ → Text → Parse (Expression F)
  unfolding consume_module_name while_ match_token enum_constructor qualified
  path_expression start name = do
    second ← consume_module_name env (codes "Expected identifier after '::'")
    rest ←
        while_ env (length env.tokens) (match_token env Token.double_colon)
          (consume_module_name env (codes "Expected identifier after '::'"))
    enum_or_name start name second rest (begins_uppercase name && is_empty rest)

  abbrev pub dict_or_block : Bool → Parse (Expression F)
  dict_or_block true = do back; parse_dict_literal env k
  dict_or_block false = do back; b ← parse_block env k; pure (Expression.block b)

  -- A literal of one token, with the token's span.
  abbrev one_token : (Span → Literal F) → Parse (Expression F)
  one_token lit = do advance env; span ← previous_span env; pure (Expression.literal (lit span))

  -- The tests of `parse_primary` on the current token exclude one another.
  abbrev pub primary_at : Token F → Parse (Expression F)
  primary_at Token.match_ = do advance env; parse_match_expression env k
  primary_at Token.if_ = do advance env; parse_if_expression env k
  primary_at Token.cast_ = do advance env; parse_cast_expression
  primary_at Token.spawn_ = do advance env; parse_spawn_expression
  primary_at Token.true_ = one_token (Literal.bool true)
  primary_at Token.false_ = one_token (Literal.bool false)
  primary_at (Token.int_literal n ty) = one_token (Literal.integer n ty)
  primary_at (Token.float_literal x ty) = one_token (Literal.float x ty)
  primary_at (Token.string_literal s) = one_token (Literal.string s)
  primary_at (Token.interpolated_string parts) = do
    advance env
    span ← previous_span env
    found ← parse_interpolated_string env k parts
    pure (Expression.literal (Literal.interpolated_string found span))
  primary_at Token.self_ = do advance env; span ← previous_span env; pure (Expression.self_ span)
  primary_at Token.super_ = do advance env; super_call
  primary_at (Token.ident name) = do
    advance env
    span ← previous_span env
    if_matched env Token.double_colon (path_expression span.start name)
        (pure (Expression.identifier name span))
  primary_at Token.set_ = do advance env; parse_set_literal env k
  primary_at Token.left_paren = do
    advance env
    e ← k.expression
    consume env Token.right_paren (codes "Expected ')' after expression")
    pure e
  primary_at Token.left_brace = do advance env; dict ← is_dict_literal env; dict_or_block dict
  primary_at Token.left_bracket = do advance env; array_literal env k
  primary_at _ = syntax env (codes "Expected expression")

  unfoldable pub parse_primary : Parse (Expression F)
  unfolding peek advance previous_span consume if_matched parse_match_expression parse_if_expression
      parse_cast_expression parse_spawn_expression parse_interpolated_string super_call
      path_expression parse_set_literal is_dict_literal back parse_dict_literal parse_block
      array_literal
  parse_primary = do t ← peek env; primary_at t.token
