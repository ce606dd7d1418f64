-- ===== src/Ast.antt =====
-- crates/plat-ast/src/lib.rs: the syntax tree. `F` is the type of an f64. A list or an optional part of
-- the tree that belongs to the recursion is a data type of its own, with the list it stands for given by
-- `expressions_of` and the like.
pub mod Spans
use plat.Base.{ℕ, Bool, List, [], ◌∷◌, Option, none, some, Text}
use plat.Diags.{Span}
use plat.Lexer.Token.{FloatType, IntType}

-- The enum `Type`.
mutual
  pub data Ty : Type 0 where
    bool int8 int16 int32 int64 float8 float16 float32 float64 string : Ty
    list_ set_ : Ty → Ty
    dict_ : Ty → Ty → Ty
    named : Text → Tys → Ty

  pub data Tys : Type 0 where
    no_tys : Tys
    ty_cons : Ty → Tys → Tys

pub data BinaryOp : Type 0 where
  add subtract multiply divide modulo equal not_equal less less_equal greater : BinaryOp
  greater_equal and_ or_ : BinaryOp

pub data UnaryOp : Type 0 where
  not_ negate : UnaryOp

mutual
  pub data Expression (F : Type 0) : Type 0 where
    literal : Literal F → Expression F
    identifier : Text → Span → Expression F
    binary : Expression F → BinaryOp → Expression F → Span → Expression F
    unary : UnaryOp → Expression F → Span → Expression F
    call : Text → NamedArgs F → Span → Expression F
    assignment : Expression F → Expression F → Span → Expression F
    index : Expression F → Expression F → Span → Expression F
    method_call : Expression F → Text → NamedArgs F → Span → Expression F
    block : Block F → Expression F
    enum_constructor : Text → Text → NamedArgs F → Span → Expression F
    match_ : Expression F → MatchArms F → Span → Expression F
    try_ : Expression F → Span → Expression F
    self_ : Span → Expression F
    member_access : Expression F → Text → Span → Expression F
    constructor_call : Text → NamedArgs F → Span → Expression F
    super_call : Text → NamedArgs F → Span → Expression F
    range : Expression F → Expression F → Bool → Span → Expression F
    if_ : Expression F → Expression F → MaybeExpression F → Span → Expression F
    cast_ : Expression F → Ty → Span → Expression F
    spawn_ : Expression F → Span → Expression F

  pub data MaybeExpression (F : Type 0) : Type 0 where
    no_expression : MaybeExpression F
    an_expression : Expression F → MaybeExpression F

  pub data Literal (F : Type 0) : Type 0 where
    bool : Bool → Span → Literal F
    integer : ℕ → IntType → Span → Literal F
    float : F → FloatType → Span → Literal F
    string : Text → Span → Literal F
    interpolated_string : InterpolationParts F → Span → Literal F
    array : Expressions F → Span → Literal F
    dict : Pairs F → Span → Literal F
    set : Expressions F → Span → Literal F

  pub data InterpolationParts (F : Type 0) : Type 0 where
    no_parts : InterpolationParts F
    text_part : Text → InterpolationParts F → InterpolationParts F
    expression_part : Expression F → InterpolationParts F → InterpolationParts F

  pub data Expressions (F : Type 0) : Type 0 where
    no_expressions : Expressions F
    expression_cons : Expression F → Expressions F → Expressions F

  pub data Pairs (F : Type 0) : Type 0 where
    no_pairs : Pairs F
    pair_cons : Expression F → Expression F → Pairs F → Pairs F

  -- name, value and span of each argument
  pub data NamedArgs (F : Type 0) : Type 0 where
    no_args : NamedArgs F
    arg_cons : Text → Expression F → Span → NamedArgs F → NamedArgs F

  -- pattern, body and span of each arm
  pub data MatchArms (F : Type 0) : Type 0 where
    no_arms : MatchArms F
    arm_cons : Pattern F → Expression F → Span → MatchArms F → MatchArms F

  pub data Pattern (F : Type 0) : Type 0 where
    enum_pattern : Option Text → Text → List (Text × Ty) → Span → Pattern F
    identifier_pattern : Text → Span → Pattern F
    literal_pattern : Literal F → Pattern F

  pub data Block (F : Type 0) : Type 0 where
    block_of : Statements F → Span → Block F

  pub data MaybeBlock (F : Type 0) : Type 0 where
    no_block : MaybeBlock F
    a_block : Block F → MaybeBlock F

  pub data Statements (F : Type 0) : Type 0 where
    no_statements : Statements F
    statement_cons : Statement F → Statements F → Statements F

  pub data Statement (F : Type 0) : Type 0 where
    let_ var_ : Text → Ty → Expression F → Span → Statement F
    expression : Expression F → Statement F
    return_ : MaybeExpression F → Span → Statement F
    if_statement : Expression F → Block F → MaybeBlock F → Span → Statement F
    while_ : Expression F → Block F → Span → Statement F
    for_ : Text → Ty → Expression F → Block F → Span → Statement F
    print_ : Expression F → Span → Statement F
    concurrent_ : Block F → Span → Statement F

pub record Parameter (F : Type 0) : Type 0 where
  pub name : Text
  pub ty : Ty
  pub default_value : Option (Expression F)
  pub span : Span

pub record Function (F : Type 0) : Type 0 where
  pub name : Text
  pub type_params : List Text
  pub params : List (Parameter F)
  pub return_type : Option Ty
  pub body : Block F
  pub is_mutable : Bool
  pub is_virtual : Bool
  pub is_override : Bool
  pub is_public : Bool
  pub span : Span

-- `ModuleDecl` and `UseDecl`
pub record PathDecl : Type 0 where
  pub path : List Text
  pub span : Span

-- `TypeAlias` and `NewtypeDecl`
pub record TypeDecl : Type 0 where
  pub name : Text
  pub ty : Ty
  pub is_public : Bool
  pub span : Span

-- `TestBlock` and `BenchBlock`
pub record FunctionBlock (F : Type 0) : Type 0 where
  pub name : Text
  pub functions : List (Function F)
  pub span : Span

pub record EnumVariant : Type 0 where
  pub name : Text
  pub fields : List Ty
  pub span : Span

pub record EnumDecl (F : Type 0) : Type 0 where
  pub name : Text
  pub type_params : List Text
  pub variants : List EnumVariant
  pub methods : List (Function F)
  pub is_public : Bool
  pub span : Span

pub record FieldDecl : Type 0 where
  pub name : Text
  pub ty : Ty
  pub is_mutable : Bool
  pub is_public : Bool
  pub span : Span

pub record ClassDecl (F : Type 0) : Type 0 where
  pub name : Text
  pub type_params : List Text
  pub parent_class : Option Text
  pub fields : List FieldDecl
  pub methods : List (Function F)
  pub is_public : Bool
  pub span : Span

pub record Program (F : Type 0) : Type 0 where
  pub module_decl : Option PathDecl
  pub use_decls : List PathDecl
  pub type_aliases : List TypeDecl
  pub newtypes : List TypeDecl
  pub test_blocks : List (FunctionBlock F)
  pub bench_blocks : List (FunctionBlock F)
  pub functions : List (Function F)
  pub enums : List (EnumDecl F)
  pub classes : List (ClassDecl F)
