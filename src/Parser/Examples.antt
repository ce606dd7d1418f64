-- ===== src/Parser/Examples.antt =====
-- Runs of the parser on concrete inputs, and its theorems at such inputs.
use plat.Base.{
  length, suc, ℕ, ok, ◌≡◌, ◌↔◌, refl, arith, Bool, List, [], ◌∷◌, Option, some, Text, codes, leb,
  ◌&&◌, Ensures, Returns, text_eq,
}
use plat.Diags.{new}
use plat.Lexer.Token.{Token, TokenWithSpan, IntType}
use plat.Lexer.State.{count_while}
use plat.Lexer.Chars.{is_whitespace}
use plat.Lexer.Tokenize.{tokenize_text}
use plat.Ast.{Expression, BinaryOp, Literal}
use plat.Ast.Spans.{expr_span}
use plat.Parser.State.{Env}
use plat.Parser.Literals.{is_dict_literal}
use plat.Parser.Total.Lookahead.{StartsDict, Decides}
use plat.Parser.Blocks.{parse_if_expression}
use plat.Parser.Statements.{all_calls}
use plat.Parser.Program.{parse, parse_program, interpolation}
use plat.Ast.{Ty, no_tys}
use plat.Modules.Paths.{join}
use plat.Parser.Types.{builtin, parse_type}
use plat.Parser.Types.Grammar.{IsType}
use plat.Parser.Types.Exact.{parse_type_iff}
use plat.Parser.Total.Input.{
  env_for, parse_total, parse_program-IsAtEof, parse_if_expression-EndsAtZero,
  is_dict_literal-StartsDict,
}

-- `parse::<f64>` instantiated by the text itself, `is_uppercase` by its ASCII part, `Debug` by nothing.
abbrev parse_f64 : Text → Option Text
parse_f64 s = some s

abbrev is_uppercase : ℕ → Bool
is_uppercase c = leb 65 c && leb c 90

abbrev debug : Token Text → Text
debug t = []

abbrev program : Text
program =
    codes
      "mod a::b; fn f<T>(x: List<Int32>) -> Int32 { if (x > 1) { return y.z(a = 1 + 2 * 3); } else if (b) {} let s: String = \"q${x + 1}\"; let m: Int = match x { Some(v: Int) -> if (v) { f(); v } else { 3 }, k -> -2 }; } pub class C { pub var i: Dict[Int,Set[Int]]; init() { } }"

parse_total_example : Returns (parse parse_f64 is_uppercase debug program)
parse_total_example = parse_total parse_f64 is_uppercase debug program

-- Multiplication binds tighter than addition.
precedence :
    interpolation parse_f64 is_uppercase debug 6 (codes "1+2*x")
    ≡ ok (
        Expression.binary
          (Expression.literal (Literal.integer 1 IntType.i32 (new 0 1)))
          BinaryOp.add
          (Expression.binary
            (Expression.literal (Literal.integer 2 IntType.i32 (new 2 3)))
            BinaryOp.multiply
            (Expression.identifier (codes "x") (new 4 5))
            (new 2 5))
          (new 0 5))
unfolding interpolation count_while is_whitespace
precedence = refl

abbrev input : Text
input = codes "fn f(){if(a){b}}"

abbrev at_span : Token Text → ℕ → ℕ → TokenWithSpan Text
at_span token start end = record { token = token; span = new start end }

abbrev tokens : List (TokenWithSpan Text)
tokens =
    at_span Token.fn_ 0 2
    ∷ at_span (Token.ident (codes "f")) 3 4
    ∷ at_span Token.left_paren 4 5
    ∷ at_span Token.right_paren 5 6
    ∷ at_span Token.left_brace 6 7
    ∷ at_span Token.if_ 7 9
    ∷ at_span Token.left_paren 9 10
    ∷ at_span (Token.ident (codes "a")) 10 11
    ∷ at_span Token.right_paren 11 12
    ∷ at_span Token.left_brace 12 13
    ∷ at_span (Token.ident (codes "b")) 13 14
    ∷ at_span Token.right_brace 14 15
    ∷ at_span Token.right_brace 15 16
    ∷ at_span Token.eof 16 16
    ∷ []

tokenized : tokenize_text parse_f64 input ≡ ok tokens
unfolding tokenize_text count_while is_whitespace text_eq
tokenized = refl

abbrev env : Env Text
env = env_for parse_f64 is_uppercase debug input tokens

parse_program-IsAtEof_example :
    Ensures (λ x. suc x.1 ≡ length tokens) (λ _. Unit {0}) (parse_program env (all_calls env) 0)
parse_program-IsAtEof_example =
    parse_program-IsAtEof parse_f64 is_uppercase debug input tokens tokenized

-- Behind the `if`.
parse_if_expression-EndsAtZero_example :
    Ensures
      (λ x. (expr_span x.0).end ≡ 0)
      (λ _. Unit {0})
      (parse_if_expression env (all_calls env) 6)
parse_if_expression-EndsAtZero_example =
    parse_if_expression-EndsAtZero parse_f64 is_uppercase debug input tokens 6 tokenized
      (omega arith) (omega arith)

-- Behind the `{` of the function.
is_dict_literal-StartsDict_example :
    (b : Bool) × (is_dict_literal env 5 ≡ ok (b, 5)) × Decides b (StartsDict env 5)
is_dict_literal-StartsDict_example =
    is_dict_literal-StartsDict parse_f64 is_uppercase debug input tokens 5 tokenized (omega arith)

-- A type with both kinds of brackets and a name with its module.
abbrev type_input : Text
type_input = codes "Dict[a::B, List<Int>]"

abbrev type_tokens : List (TokenWithSpan Text)
type_tokens =
    at_span Token.dict_ 0 4
    ∷ at_span Token.left_bracket 4 5
    ∷ at_span (Token.ident (codes "a")) 5 6
    ∷ at_span Token.double_colon 6 8
    ∷ at_span (Token.ident (codes "B")) 8 9
    ∷ at_span Token.comma 9 10
    ∷ at_span Token.list_ 11 15
    ∷ at_span Token.less 15 16
    ∷ at_span (Token.ident (codes "Int")) 16 19
    ∷ at_span Token.greater 19 20
    ∷ at_span Token.right_bracket 20 21
    ∷ at_span Token.eof 21 21
    ∷ []

type_tokenized : tokenize_text parse_f64 type_input ≡ ok type_tokens
unfolding tokenize_text count_while is_whitespace text_eq
type_tokenized = refl

abbrev type_env : Env Text
type_env = env_for parse_f64 is_uppercase debug type_input type_tokens

abbrev dict_of_lists : Ty
dict_of_lists = Ty.dict_ (Ty.named (codes "a::B") no_tys) (Ty.list_ Ty.int64)

dict_of_lists_parsed : parse_type type_env 0 ≡ ok (dict_of_lists, 11)
unfolding parse_type builtin text_eq join
dict_of_lists_parsed = refl

parse_type_iff_example :
    (parse_type type_env 0 ≡ ok (dict_of_lists, 11)) ↔ IsType type_env dict_of_lists 0 11
parse_type_iff_example =
    parse_type_iff parse_f64 is_uppercase debug type_input type_tokens type_tokenized 0
      (omega arith) dict_of_lists 11
