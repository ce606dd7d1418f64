-- ===== src/Parser/Types.antt =====
-- `parse_type` and `parse_pattern` of crates/plat-parser/src/lib.rs. The recursion of `parse_type` runs on
-- fuel, the number of tokens: it passes a token before it calls itself.
pub mod Grammar
pub mod Found
pub mod Complete
pub mod Sound
pub mod Exact
use plat.Base.{
  ℕ, zero, suc, Bool, true, false, List, [], ◌∷◌, Option, none, some, Text, codes, text_eq,
  if◌then◌else◌, length, stuck,
}
use plat.Diags.{new}
use plat.Lexer.Token.{Token}
use plat.Modules.Paths.{join}
use plat.Ast.{Ty, Pattern, enum_pattern, identifier_pattern, literal_pattern, Literal}
use plat.Ast.Spans.{tys_of}
use plat.Parser.State.{
  Env, Parse, pure, ◌>>=◌, ◌>>◌, peek, advance, check, match_token, current_span, previous_span,
}
use plat.Parser.Consume.{syntax, consume, consume_identifier, if_matched, separated, items, while_}

-- The `match` on a type's name, aliases included.
unfoldable pub builtin : Text → Option Ty
builtin name =
    if text_eq name (codes "Bool")
    then some Ty.bool
    else if text_eq name (codes "Int8")
    then some Ty.int8
    else if text_eq name (codes "Int16")
    then some Ty.int16
    else if text_eq name (codes "Int32")
    then some Ty.int32
    else if text_eq name (codes "Int64")
    then some Ty.int64
    else if text_eq name (codes "Int")
    then some Ty.int64
    else if text_eq name (codes "Float8")
    then some Ty.float8
    else if text_eq name (codes "Float16")
    then some Ty.float16
    else if text_eq name (codes "Float32")
    then some Ty.float32
    else if text_eq name (codes "Float64")
    then some Ty.float64
    else if text_eq name (codes "Float")
    then some Ty.float64
    else if text_eq name (codes "String")
    then some Ty.string
    else none

abbrev pub type_of_name : Text → Option Ty → Ty
type_of_name name none = Ty.named name (tys_of [])
type_of_name name (some ty) = ty

module _ {F : Type 0} (env : Env F) where
  abbrev pub open_bracket : Text → Bool → Parse (Unit {0})
  open_bracket message true = pure tt
  open_bracket message false = consume env Token.left_bracket message

  abbrev pub close_bracket : Text → Text → Bool → Parse (Unit {0})
  close_bracket angle square true = consume env Token.greater angle
  close_bracket angle square false = consume env Token.right_bracket square

  -- Both `List[T]` and `List<T>` are accepted; `name` is the word in the messages.
  unfoldable pub element_type : Text → Parse Ty → Parse Ty
  unfolding match_token consume
  element_type message type = do
    angle ← match_token env Token.less
    open_bracket message angle
    element ← type
    close_bracket (codes "Expected '>' after element type")
        (codes "Expected ']' after element type") angle
    pure element

  unfoldable pub dict_type : Parse Ty → Parse Ty
  unfolding match_token consume
  dict_type type = do
    angle ← match_token env Token.less
    open_bracket (codes "Expected '[' or '<' after 'Dict'") angle
    key_type ← type
    consume env Token.comma (codes "Expected ',' after key type")
    value_type ← type
    close_bracket (codes "Expected '>' after value type") (codes "Expected ']' after value type")
        angle
    pure (Ty.dict_ key_type value_type)

  -- `while self.check(&Token::DoubleColon) { self.advance(); .. }`
  unfoldable pub type_name : Parse Text
  unfolding consume_identifier while_ check advance
  type_name = do
    first ← consume_identifier env (codes "Expected type name")
    rest ←
        while_ env (length env.tokens) (check env Token.double_colon)
          (advance env >> consume_identifier env (codes "Expected type name after '::'"))
    pure (join (first ∷ rest))

  unfoldable pub named_type : Parse Ty → Parse Ty
  unfolding type_name if_matched separated consume builtin
  named_type type = do
    name ← type_name
    if_matched env Token.less
        (do
          type_params ← separated env (length env.tokens) Token.comma type
          consume env Token.greater (codes "Expected '>' after type parameters")
          pure (Ty.named name (tys_of type_params)))
        (pure (type_of_name name (builtin name)))

  -- One call of `parse_type`, given the recursive one.
  unfoldable pub type_level : Parse Ty → Parse Ty
  unfolding if_matched element_type dict_type named_type
  type_level type =
      if_matched env Token.list_
        (do
          element ← element_type (codes "Expected '[' or '<' after 'List'") type
          pure (Ty.list_ element))
        (if_matched env Token.dict_ (dict_type type) (
          if_matched env Token.set_
            (do
              element ← element_type (codes "Expected '[' or '<' after 'Set'") type
              pure (Ty.set_ element))
            (named_type type)))

  unfoldable pub type_on : ℕ → Parse Ty
  unfolding type_level
  type_on zero c = stuck
  type_on (suc fuel) c = type_level (type_on fuel) c

  unfoldable pub parse_type : Parse Ty
  unfolding type_on
  parse_type = type_on (length env.tokens)

  -- A binding of a pattern.
  unfoldable pub binding : Parse (Text × Ty)
  unfolding consume_identifier consume parse_type
  binding = do
    name ← consume_identifier env (codes "Expected binding name")
    consume env Token.colon (codes "Expected ':' after binding name (type annotation required)")
    ty ← parse_type
    pure (name, ty)

  unfoldable pub bindings : Parse (List (Text × Ty))
  unfolding items binding consume
  bindings = do
    found ← items env Token.right_paren binding
    consume env Token.right_paren (codes "Expected ')' after pattern bindings")
    pure found

  -- Behind an identifier: an enum variant with or without its enum, or the identifier itself.
  unfoldable pub name_pattern : ℕ → Text → Parse (Pattern F)
  unfolding if_matched consume_identifier bindings previous_span
  name_pattern start name =
      if_matched env Token.double_colon
        (do
          variant ← consume_identifier env (codes "Expected variant name after ':'")
          found ← if_matched env Token.left_paren bindings (pure [])
          end ← previous_span env
          pure (enum_pattern (some name) variant found (new start end.end)))
        (if_matched env Token.left_paren
          (do
            found ← bindings
            end ← previous_span env
            pure (enum_pattern none name found (new start end.end)))
          (do end ← previous_span env; pure (identifier_pattern name (new start end.end))))

  -- The tests of `parse_pattern` on the current token exclude one another.
  abbrev pub pattern_at : ℕ → Token F → Parse (Pattern F)
  pattern_at start Token.true_ = do
    advance env
    span ← previous_span env
    pure (literal_pattern (Literal.bool true span))
  pattern_at start Token.false_ = do
    advance env
    span ← previous_span env
    pure (literal_pattern (Literal.bool false span))
  pattern_at start (Token.int_literal n ty) = do
    advance env
    span ← previous_span env
    pure (literal_pattern (Literal.integer n ty span))
  pattern_at start (Token.string_literal s) = do
    advance env
    span ← previous_span env
    pure (literal_pattern (Literal.string s span))
  pattern_at start (Token.ident name) = do advance env; name_pattern start name
  pattern_at start _ = syntax env (codes "Expected pattern")

  unfoldable pub parse_pattern : Parse (Pattern F)
  unfolding current_span peek advance previous_span name_pattern
  parse_pattern = do start ← current_span env; t ← peek env; pattern_at start.start t.token
