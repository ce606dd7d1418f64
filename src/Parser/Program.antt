-- ===== src/Parser/Program.antt =====
-- `Parser::new` and `Parser::parse` of crates/plat-parser/src/lib.rs.
use plat.Base.{
  ℕ, zero, suc, Bool, true, false, List, [], ◌∷◌, ◌++◌, Option, Text, codes, bind, ok, stuck,
  length,
}
use plat.Lexer.Token.{Token, TokenWithSpan}
use plat.Lexer.State.{Result}
use plat.Lexer.Tokenize.{tokenize_text}
use plat.Ast.{Expression, Program, Function, TypeDecl, EnumDecl, ClassDecl, FunctionBlock}
use plat.Parser.State.{Env, Parse, pure, ◌>>=◌, check, match_token, is_at_end, previous_span}
use plat.Parser.Consume.{reject, while_, if_next, optional}
use plat.Parser.Literals.{Calls}
use plat.Parser.Statements.{all_calls, parse_expression}
use plat.Parser.Declarations.{
  parse_module_decl, parse_use_decl, parse_type_alias, parse_newtype, parse_test_block,
  parse_bench_block, parse_function,
}
use plat.Parser.Classes.{parse_enum, parse_class, either_check}

-- What the loop of `parse` pushes to the list of its kind.
pub data Item (F : Type 0) : Type 0 where
  enum_item : EnumDecl F → Item F
  class_item : ClassDecl F → Item F
  type_alias_item newtype_item : TypeDecl → Item F
  test_item bench_item : FunctionBlock F → Item F
  function_item : Function F → Item F

module _ {F : Type 0} where
  unfoldable pub push : Program F → Item F → Program F
  push p (Item.enum_item d) = record p { enums = p.enums ++ d ∷ [] }
  push p (Item.class_item d) = record p { classes = p.classes ++ d ∷ [] }
  push p (Item.type_alias_item d) = record p { type_aliases = p.type_aliases ++ d ∷ [] }
  push p (Item.newtype_item d) = record p { newtypes = p.newtypes ++ d ∷ [] }
  push p (Item.test_item b) = record p { test_blocks = p.test_blocks ++ b ∷ [] }
  push p (Item.bench_item b) = record p { bench_blocks = p.bench_blocks ++ b ∷ [] }
  push p (Item.function_item f) = record p { functions = p.functions ++ f ∷ [] }

module _ {F : Type 0} (env : Env F) (k : Calls F) where
  abbrev pub as_item : {A : Type 0} → (A → Item F) → Parse A → Parse (Item F)
  as_item item p = do a ← p; pure (item a)

  -- A block that must not be public; `name` and `names` are its words in the message.
  abbrev pub unless_public : Text → Text → Parse (Item F) → Bool → Parse (Item F)
  unless_public message help p true = do
    span ← previous_span env
    reject env span message (codes "'pub' keyword not allowed here") help
  unless_public message help p false = p

  unfoldable pub item_at : Bool → Parse (Item F)
  unfolding if_next parse_enum parse_class parse_type_alias parse_newtype parse_test_block
      parse_bench_block parse_function previous_span reject
  item_at is_public =
      if_next env Token.enum_ (as_item Item.enum_item (parse_enum env k is_public)) (
        if_next env Token.class_ (as_item Item.class_item (parse_class env k is_public)) (
          if_next env Token.type_ (as_item Item.type_alias_item (parse_type_alias env is_public)) (
            if_next env Token.newtype_ (as_item Item.newtype_item (parse_newtype env is_public)) (
              if_next env Token.test_
                (unless_public (codes "Test blocks cannot be marked as public")
                  (codes "Remove the 'pub' keyword - test blocks are not exported")
                  (as_item Item.test_item (parse_test_block env k)) is_public)
                (if_next env Token.bench_
                  (unless_public (codes "Benchmark blocks cannot be marked as public")
                    (codes "Remove the 'pub' keyword - benchmark blocks are not exported")
                    (as_item Item.bench_item (parse_bench_block env k)) is_public)
                  (as_item Item.function_item (parse_function env k is_public)))))))

  abbrev pub next_item : Parse (Item F)
  next_item = do is_public ← match_token env Token.pub_; item_at is_public

  abbrev pub unless_end : (Program F → Parse (Program F)) → Program F → Bool → Parse (Program F)
  unless_end more p true = pure p
  unless_end more p false = do i ← next_item; more (push p i)

  unfoldable pub item_loop : ℕ → Program F → Parse (Program F)
  unfolding is_at_end match_token item_at push
  item_loop zero p c = stuck
  item_loop (suc fuel) p c =
      let more = item_loop fuel in (do end ← is_at_end env; unless_end more p end) c

  abbrev pub declared : {A : Type 0} → (Bool → Parse A) → Parse A
  declared p = do is_public ← match_token env Token.pub_; p is_public

  -- The declarations, in order.
  unfoldable pub parse_program : Parse (Program F)
  unfolding check match_token parse_module_decl parse_use_decl parse_type_alias parse_newtype while_
      either_check item_loop
  parse_program = do
    is_module ← check env Token.mod_
    module_decl ← optional env (parse_module_decl env) is_module
    use_decls ← while_ env (length env.tokens) (check env Token.use_) (parse_use_decl env)
    type_aliases ←
        while_ env (length env.tokens) (either_check env Token.type_ Token.pub_ Token.type_)
          (declared (parse_type_alias env))
    newtypes ←
        while_ env (length env.tokens) (either_check env Token.newtype_ Token.pub_ Token.newtype_)
          (declared (parse_newtype env))
    item_loop (length env.tokens) (record {
      module_decl = module_decl;
      use_decls = use_decls;
      type_aliases = type_aliases;
      newtypes = newtypes;
      test_blocks = [];
      bench_blocks = [];
      functions = [];
      enums = [];
      classes = [];
    })

-- The result of a method, without the final state.
abbrev pub result_of : {A : Type 0} → Result (A × ℕ) → Result A
result_of r = bind r λ (a, c). ok a

module _ {F : Type 0} (parse_f64 : Text → Option F) (is_uppercase : ℕ → Bool)
    (debug : Token F → Text) where
  abbrev pub env_of : (Text → Result (Expression F)) → Text → List (TokenWithSpan F) → Env F
  env_of nested filename tokens = record {
    tokens = tokens;
    filename = filename;
    parse_interpolation = nested;
    is_uppercase = is_uppercase;
    debug = debug;
  }

  -- The expression in an interpolation: `Parser::new(..)?.parse_expression()?`. An interpolation within
  -- it is within the text, so that the fuel is the length of the text.
  unfoldable pub interpolation : ℕ → Text → Result (Expression F)
  unfolding tokenize_text parse_expression
  interpolation zero text = stuck
  interpolation (suc fuel) text =
      let nested = interpolation fuel in
      bind (tokenize_text parse_f64 text)
        λ tokens. result_of (parse_expression (env_of nested (codes "<unknown>") tokens) 0)

  -- `Parser::with_filename(input, filename)?.parse()`. The lexer's errors name the file too.
  unfoldable pub parse_tokens :
      (Text → Result (Expression F)) → Text → List (TokenWithSpan F) → Result (Program F)
  unfolding parse_program
  parse_tokens nested filename tokens =
      let env = env_of nested filename tokens in result_of (parse_program env (all_calls env) 0)

  -- `Parser::new(input)?.parse()`
  unfoldable pub parse : Text → Result (Program F)
  unfolding tokenize_text parse_tokens interpolation
  parse input =
      bind (tokenize_text parse_f64 input)
        λ tokens. parse_tokens (interpolation (length input)) (codes "<unknown>") tokens
