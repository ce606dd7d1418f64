-- ===== src/Parser/Classes.antt =====
-- `parse_enum` and `parse_class` of crates/plat-parser/src/lib.rs. A loop over the members of a body gives
-- them in order; the source pushes each to the list of its kind.
use plat.Base.{Bool, true, false, ◌&&◌, ◌||◌, List, [], ◌∷◌, codes}
use plat.Diags.{new}
use plat.Lexer.Token.{Token}
use plat.Ast.{Function, EnumVariant, EnumDecl, FieldDecl, ClassDecl}
use plat.Parser.State.{
  Env, Parse, pure, ◌>>=◌, ◌>>◌, check, is_next, match_token, current_span, previous_span,
}
use plat.Parser.Consume.{
  syntax, consume, consume_identifier, if_matched, when_matched, items, body_of, branch,
}
use plat.Parser.Types.{parse_type}
use plat.Parser.Literals.{Calls}
use plat.Parser.Declarations.{type_parameters, parse_function}

-- A member of a body: a variant or a field, or a method.
pub data Member (F M : Type 0) : Type 0 where
  part : M → Member F M
  method : Function F → Member F M

abbrev pub parts : {F M : Type 0} → List (Member F M) → List M
parts [] = []
parts (Member.part m ∷ ms) = m ∷ parts ms
parts (Member.method f ∷ ms) = parts ms

abbrev pub methods : {F M : Type 0} → List (Member F M) → List (Function F)
methods [] = []
methods (Member.part m ∷ ms) = methods ms
methods (Member.method f ∷ ms) = f ∷ methods ms

module _ {F : Type 0} (env : Env F) where
  unfoldable pub enum_variant : Parse EnumVariant
  unfolding current_span consume_identifier if_matched items parse_type consume previous_span
      match_token
  enum_variant = do
    start ← current_span env
    name ← consume_identifier env (codes "Expected variant name")
    fields ←
        if_matched env Token.left_paren
          (do
            types ← items env Token.right_paren (parse_type env)
            consume env Token.right_paren (codes "Expected ')' after variant fields")
            pure types)
          (pure [])
    end ← previous_span env
    match_token env Token.comma
    pure (record { name = name; fields = fields; span = new start.start end.end })

  -- `let` or `var`, and whether it is `var`
  unfoldable pub field_keyword : Parse Bool
  unfolding if_matched consume
  field_keyword =
      if_matched env Token.var_ (pure true)
        (do consume env Token.let_ (codes "Expected 'let' or 'var'"); pure false)

  unfoldable pub class_field : Bool → Parse FieldDecl
  unfolding current_span field_keyword consume_identifier consume parse_type previous_span
  class_field is_public = do
    start ← current_span env
    is_mutable ← field_keyword
    name ← consume_identifier env (codes "Expected field name")
    consume env Token.colon (codes "Expected ':' after field name")
    ty ← parse_type env
    consume env Token.semicolon (codes "Expected ';' after field declaration")
    end ← previous_span env
    pure (record {
      name = name;
      ty = ty;
      is_mutable = is_mutable;
      is_public = is_public;
      span = new start.start end.end;
    })

  -- `check(first) || (check(before) && peek_next() == Some(last))`
  unfoldable pub either_check : Token F → Token F → Token F → Parse Bool
  unfolding check is_next
  either_check first before last = do
    found ← check env first
    other ← check env before
    next ← is_next env last
    pure (found || (other && next))

module _ {F : Type 0} (env : Env F) (k : Calls F) where
  abbrev method_of : Parse (Function F) → {M : Type 0} → Parse (Member F M)
  method_of p = do f ← p; pure (Member.method f)

  abbrev part_of : {M : Type 0} → Parse M → Parse (Member F M)
  part_of p = do m ← p; pure (Member.part m)

  unfoldable pub enum_member : Parse (Member F EnumVariant)
  unfolding either_check parse_function enum_variant
  enum_member = do
    found ← either_check env Token.fn_ Token.mut_ Token.fn_
    branch env (method_of (parse_function env k false)) (part_of (enum_variant env)) found

  unfoldable pub parse_enum : Bool → Parse (EnumDecl F)
  unfolding current_span consume consume_identifier type_parameters enum_member previous_span
  parse_enum is_public = do
    start ← current_span env
    consume env Token.enum_ (codes "Expected 'enum'")
    name ← consume_identifier env (codes "Expected enum name")
    type_params ← type_parameters env
    consume env Token.left_brace (codes "Expected '{' after enum name")
    members ← body_of env enum_member
    consume env Token.right_brace (codes "Expected '}' after enum body")
    end ← previous_span env
    pure (record {
      name = name;
      type_params = type_params;
      variants = parts members;
      methods = methods members;
      is_public = is_public;
      span = new start.start end.end;
    })

  unfoldable pub is_method : Parse Bool
  unfolding check either_check
  is_method = do
    is_init ← check env Token.init_
    is_virtual ← check env Token.virtual_
    is_override ← check env Token.override_
    other ← either_check env Token.fn_ Token.mut_ Token.fn_
    pure (is_init || is_virtual || is_override || other)

  unfoldable pub is_field : Parse Bool
  unfolding check
  is_field = do
    is_let ← check env Token.let_
    is_var ← check env Token.var_
    pure (is_let || is_var)

  abbrev pub field_or_error : Bool → Bool → Parse (Member F FieldDecl)
  field_or_error is_public found =
      branch env (part_of (class_field env is_public))
        (syntax env (
          codes
            "Expected field declaration ('let'/'var') or method declaration ('fn') in class body"))
        found

  unfoldable pub class_member : Parse (Member F FieldDecl)
  unfolding match_token is_method is_field parse_function class_field
  class_member = do
    is_public ← match_token env Token.pub_
    found ← is_method
    branch env (method_of (parse_function env k is_public))
        (do field ← is_field; field_or_error is_public field) found

  unfoldable pub parse_class : Bool → Parse (ClassDecl F)
  unfolding current_span consume consume_identifier type_parameters when_matched class_member
      previous_span
  parse_class is_public = do
    start ← current_span env
    consume env Token.class_ (codes "Expected 'class'")
    name ← consume_identifier env (codes "Expected class name")
    type_params ← type_parameters env
    parent_class ←
        when_matched env Token.colon
          (consume_identifier env (codes "Expected parent class name after ':'"))
    consume env Token.left_brace (codes "Expected '{' after class declaration")
    members ← body_of env class_member
    consume env Token.right_brace (codes "Expected '}' after class body")
    end ← previous_span env
    pure (record {
      name = name;
      type_params = type_params;
      parent_class = parent_class;
      fields = parts members;
      methods = methods members;
      is_public = is_public;
      span = new start.start end.end;
    })
