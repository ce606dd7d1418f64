-- ===== src/Lexer/Token.antt =====
-- crates/plat-lexer/src/token.rs: tokens and keywords. `F` is the type of an f64, which antt lacks.
-- A name of the source that antt reserves, or that a module shares with a Boolean, ends in `_`.
use plat.Base.{ℕ, Text, codes, List, [], ◌∷◌, Option, none, some, text_eq, if◌then◌else◌}
use plat.Diags.{Span}

pub data FloatType : Type 0 where
  f8 f16 f32 f64 : FloatType

pub data IntType : Type 0 where
  i8 i16 i32 i64 : IntType

pub data StringPart : Type 0 where
  text interpolation : Text → StringPart

pub data Token (F : Type 0) : Type 0 where
  -- keywords
  fn_ let_ var_ if_ else_ while_ for_ in_ return_ true_ false_ print_ list_ dict_ set_ : Token F
  enum_ match_ mut_ class_ init_ self_ virtual_ override_ super_ mod_ use_ type_ newtype_ : Token F
  test_ bench_ cast_ pub_ concurrent_ spawn_ : Token F
  -- identifiers and literals; an i64 literal is never negative, so its value is a number
  ident : Text → Token F
  int_literal : ℕ → IntType → Token F
  float_literal : F → FloatType → Token F
  string_literal : Text → Token F
  interpolated_string : List StringPart → Token F
  -- operators
  plus minus star slash percent and_ or_ not_ assign eq not_eq less less_eq greater : Token F
  greater_eq question dot_dot dot_dot_eq : Token F
  -- punctuation
  left_paren right_paren left_brace right_brace left_bracket right_bracket semicolon : Token F
  comma arrow colon dot double_colon : Token F
  eof : Token F

pub record TokenWithSpan (F : Type 0) : Type 0 where
  pub token : Token F
  pub span : Span

module _ {F : Type 0} where
  -- The arms of `keyword_from_str`, in order.
  abbrev pub keywords : List (Text × Token F)
  keywords =
      (codes "fn", Token.fn_)
      ∷ (codes "let", Token.let_)
      ∷ (codes "var", Token.var_)
      ∷ (codes "if", Token.if_)
      ∷ (codes "else", Token.else_)
      ∷ (codes "while", Token.while_)
      ∷ (codes "for", Token.for_)
      ∷ (codes "in", Token.in_)
      ∷ (codes "return", Token.return_)
      ∷ (codes "true", Token.true_)
      ∷ (codes "false", Token.false_)
      ∷ (codes "print", Token.print_)
      ∷ (codes "List", Token.list_)
      ∷ (codes "Dict", Token.dict_)
      ∷ (codes "Set", Token.set_)
      ∷ (codes "enum", Token.enum_)
      ∷ (codes "match", Token.match_)
      ∷ (codes "mut", Token.mut_)
      ∷ (codes "class", Token.class_)
      ∷ (codes "init", Token.init_)
      ∷ (codes "self", Token.self_)
      ∷ (codes "virtual", Token.virtual_)
      ∷ (codes "override", Token.override_)
      ∷ (codes "super", Token.super_)
      ∷ (codes "mod", Token.mod_)
      ∷ (codes "use", Token.use_)
      ∷ (codes "type", Token.type_)
      ∷ (codes "newtype", Token.newtype_)
      ∷ (codes "test", Token.test_)
      ∷ (codes "bench", Token.bench_)
      ∷ (codes "cast", Token.cast_)
      ∷ (codes "pub", Token.pub_)
      ∷ (codes "concurrent", Token.concurrent_)
      ∷ (codes "spawn", Token.spawn_)
      ∷ (codes "and", Token.and_)
      ∷ (codes "or", Token.or_)
      ∷ (codes "not", Token.not_)
      ∷ []

  unfoldable pub first_arm : Text → List (Text × Token F) → Option (Token F)
  first_arm s [] = none
  first_arm s ((word, token) ∷ arms) = if text_eq s word then some token else first_arm s arms

  unfoldable pub keyword_from_str : Text → Option (Token F)
  unfolding first_arm
  keyword_from_str s = first_arm s keywords
