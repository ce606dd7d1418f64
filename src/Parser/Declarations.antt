-- ===== src/Parser/Declarations.antt =====
-- The declarations of crates/plat-parser/src/lib.rs but for enums and classes: modules, uses, types, test
-- and benchmark blocks, functions and their parameters.
use plat.Base.{Bool, false, List, [], ◌∷◌, Text, codes, length}
use plat.Diags.{new}
use plat.Lexer.Token.{Token}
use plat.Ast.{Parameter, Function, PathDecl, TypeDecl, FunctionBlock}
use plat.Ast.Spans.{block_span}
use plat.Parser.State.{
  Env, Parse, pure, ◌>>=◌, ◌>>◌, peek, advance, match_token, current_span, previous_span,
}
use plat.Parser.Consume.{
  reject, consume, consume_identifier, consume_module_name, if_matched, when_matched, separated,
  items, while_, body_of,
}
use plat.Parser.Types.{parse_type}
use plat.Parser.Literals.{Calls, parse_block}

module _ {F : Type 0} (env : Env F) where
  unfoldable pub module_path : Parse (List Text)
  unfolding consume_module_name while_ match_token
  module_path = do
    first ← consume_module_name env (codes "Expected module name")
    rest ←
        while_ env (length env.tokens) (match_token env Token.double_colon)
          (consume_module_name env (codes "Expected module name after '::'"))
    pure (first ∷ rest)

  unfoldable pub parse_module_decl : Parse PathDecl
  unfolding current_span consume module_path previous_span
  parse_module_decl = do
    start ← current_span env
    consume env Token.mod_ (codes "Expected 'mod'")
    path ← module_path
    consume env Token.semicolon (codes "Expected ';' after module declaration")
    end ← previous_span env
    pure (record { path = path; span = new start.start end.end })

  unfoldable pub parse_use_decl : Parse PathDecl
  unfolding current_span consume module_path previous_span
  parse_use_decl = do
    start ← current_span env
    consume env Token.use_ (codes "Expected 'use'")
    path ← module_path
    consume env Token.semicolon (codes "Expected ';' after use declaration")
    end ← previous_span env
    pure (record { path = path; span = new start.start end.end })

  unfoldable pub parse_type_alias : Bool → Parse TypeDecl
  unfolding current_span consume consume_identifier parse_type previous_span
  parse_type_alias is_public = do
    start ← current_span env
    consume env Token.type_ (codes "Expected 'type'")
    name ← consume_identifier env (codes "Expected type alias name")
    consume env Token.assign (codes "Expected '=' after type alias name")
    ty ← parse_type env
    consume env Token.semicolon (codes "Expected ';' after type alias")
    end ← previous_span env
    pure (record { name = name; ty = ty; is_public = is_public; span = new start.start end.end })

  unfoldable pub parse_newtype : Bool → Parse TypeDecl
  unfolding current_span consume consume_identifier parse_type previous_span
  parse_newtype is_public = do
    start ← current_span env
    consume env Token.newtype_ (codes "Expected 'newtype'")
    name ← consume_identifier env (codes "Expected newtype name")
    consume env Token.assign (codes "Expected '=' after newtype name")
    underlying_type ← parse_type env
    consume env Token.semicolon (codes "Expected ';' after newtype declaration")
    end ← previous_span env
    pure (record {
      name = name;
      ty = underlying_type;
      is_public = is_public;
      span = new start.start end.end;
    })

  -- `<A, B>` behind a name, or nothing
  unfoldable pub type_parameters : Parse (List Text)
  unfolding if_matched separated consume_identifier consume
  type_parameters =
      if_matched env Token.less
        (do
          names ←
              separated env (length env.tokens) Token.comma
                (consume_identifier env (codes "Expected type parameter name"))
          consume env Token.greater (codes "Expected '>' after type parameters")
          pure names)
        (pure [])

  -- The name of a test or benchmark block.
  abbrev pub named_block : Text → Text → Token F → Parse Text
  named_block message help (Token.ident name) = do advance env; pure name
  named_block message help _ = do
    span ← current_span env
    reject env span message (codes "expected a snake_case identifier here") help

  unfoldable pub block_name : Text → Text → Parse Text
  unfolding peek advance current_span reject
  block_name message help = do t ← peek env; named_block message help t.token

module _ {F : Type 0} (env : Env F) (k : Calls F) where
  unfoldable pub parameter : Parse (Parameter F)
  unfolding current_span consume_identifier consume parse_type when_matched previous_span
  parameter = do
    start ← current_span env
    name ← consume_identifier env (codes "Expected parameter name")
    consume env Token.colon (codes "Expected ':' after parameter name")
    ty ← parse_type env
    default_value ← when_matched env Token.assign k.expression
    end ← previous_span env
    pure (record {
      name = name;
      ty = ty;
      default_value = default_value;
      span = new start.start end.end;
    })

  unfoldable pub parse_parameters : Parse (List (Parameter F))
  unfolding items parameter
  parse_parameters = items env Token.right_paren parameter

  unfoldable pub function_name : Parse Text
  unfolding if_matched consume consume_identifier
  function_name = if_matched env Token.init_ (pure (codes "init")) (do
    consume env Token.fn_ (codes "Expected 'fn' or 'init'")
    consume_identifier env (codes "Expected function name"))

  unfoldable pub parse_function : Bool → Parse (Function F)
  unfolding current_span match_token function_name type_parameters consume parse_parameters
      when_matched parse_type parse_block
  parse_function is_public = do
    start ← current_span env
    is_virtual ← match_token env Token.virtual_
    is_override ← match_token env Token.override_
    is_mutable ← match_token env Token.mut_
    name ← function_name
    type_params ← type_parameters env
    consume env Token.left_paren (codes "Expected '('")
    params ← parse_parameters
    consume env Token.right_paren (codes "Expected ')'")
    return_type ← when_matched env Token.arrow (parse_type env)
    body ← parse_block env k
    pure (record {
      name = name;
      type_params = type_params;
      params = params;
      return_type = return_type;
      body = body;
      is_mutable = is_mutable;
      is_virtual = is_virtual;
      is_override = is_override;
      is_public = is_public;
      span = new start.start (block_span body).end;
    })

  unfoldable pub parse_test_block : Parse (FunctionBlock F)
  unfolding current_span consume block_name parse_function previous_span
  parse_test_block = do
    start ← current_span env
    consume env Token.test_ (codes "Expected 'test'")
    name ←
        block_name env (codes "Expected identifier for test block name")
          (codes "Test blocks require a snake_case identifier: test my_test_block { ... }")
    consume env Token.left_brace (codes "Expected '{' after test block name")
    functions ← body_of env (parse_function false)
    consume env Token.right_brace (codes "Expected '}' after test block")
    end ← previous_span env
    pure (record { name = name; functions = functions; span = new start.start end.end })

  unfoldable pub parse_bench_block : Parse (FunctionBlock F)
  unfolding current_span consume block_name parse_function previous_span
  parse_bench_block = do
    start ← current_span env
    consume env Token.bench_ (codes "Expected 'bench'")
    name ←
        block_name env (codes "Expected identifier for bench block name")
          (codes "Benchmark blocks require a snake_case identifier: bench my_bench_block { ... }")
    consume env Token.left_brace (codes "Expected '{' after bench block name")
    functions ← body_of env (parse_function false)
    consume env Token.right_brace (codes "Expected '}' after bench block")
    end ← previous_span env
    pure (record { name = name; functions = functions; span = new start.start end.end })
