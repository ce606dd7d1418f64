-- ===== src/Parser/Types/Exact.antt =====
-- `parse_type` of crates/plat-parser/src/lib.rs on the tokens of an input.
use plat.Base.{
  Ensures, Ensures-weaken, value_of, ok, ℕ, ◌<◌, ◌≡◌, ◌↔◌, Bool, List, Option, Text, arith, length,
}
use plat.Lexer.Token.{Token, TokenWithSpan}
use plat.Lexer.Tokenize.{tokenize_text}
use plat.Ast.{Ty}
use plat.Parser.Types.{parse_type}
use plat.Parser.Types.Grammar.{IsType}
use plat.Parser.Types.Complete.{parse_type-IsType}
use plat.Parser.Types.Sound.{parse_type-Gives}
use plat.Parser.Total.Input.{env_for, tokens_of-IsStream}

module _ {F : Type 0} (parse_f64 : Text → Option F) (is_uppercase : ℕ → Bool)
    (debug : Token F → Text) (input : Text) (tokens : List (TokenWithSpan F))
    (tokenized : tokenize_text parse_f64 input ≡ ok tokens) (c : ℕ)
    (inside : c < length tokens) where
  parse_type-Ensures :
      Ensures
        (λ x. IsType (env_for parse_f64 is_uppercase debug input tokens) x.0 c x.1)
        (λ _. Unit {0})
        (parse_type (env_for parse_f64 is_uppercase debug input tokens) c)
  parse_type-Ensures =
      let s = tokens_of-IsStream parse_f64 is_uppercase debug input tokens tokenized in
      Ensures-weaken (λ x m. m.0) (parse_type-Gives s c (omega (arith, s.size)))

  -- On the tokens of an input, `parse_type` at a position returns a type and a position exactly where the
  -- tokens between them spell the type by the grammar.
  pub parse_type_iff :
      (ty : Ty) (d : ℕ)
      → (parse_type (env_for parse_f64 is_uppercase debug input tokens) c ≡ ok (ty, d))
        ↔ IsType (env_for parse_f64 is_uppercase debug input tokens) ty c d
  parse_type_iff ty d = (
    λ e. value_of (rw e at parse_type-Ensures),
    λ h. parse_type-IsType (env_for parse_f64 is_uppercase debug input tokens) h,
  )
