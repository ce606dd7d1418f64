-- ===== src/Lexer/State.antt =====
-- The struct `Lexer` of crates/plat-lexer/src/lib.rs with its cursor operations.
use plat.Base.{
  ℕ, suc, ◌+◌, ◌-◌, Bool, false, not, List, [], ◌∷◌, ◌++◌, Option, none, some, Text, codes, err,
  leb, ◌==◌, if◌then◌else◌, length, get_elem?, take, drop,
}
use plat.Base
use plat.Diags.{Span, new, DiagnosticError, syntax_error, with_label, with_help}
use plat.Lexer.Token.{Token, TokenWithSpan}
use plat.Lexer.Chars.{is_whitespace}

abbrev pub Result {ℓ} : Type ℓ → Type ℓ
Result = Base.Result DiagnosticError

pub record Lexer (F : Type 0) : Type 0 where
  pub input : Text
  pub filename : Text
  pub current : ℕ
  pub tokens : List (TokenWithSpan F)

-- `Diagnostic::syntax_error(..).with_label(..).with_help(..)`, wrapped in `DiagnosticError::Rich`
unfoldable pub rich_error : Text → Span → Text → Text → Text → DiagnosticError
unfolding syntax_error with_label with_help
rich_error filename span message label help =
    DiagnosticError.rich (with_help help (with_label label (syntax_error filename span message)))

unfoldable pub fail {ℓ} : {A : Type ℓ} → Text → Span → Text → Text → Text → Result A
unfolding rich_error
fail filename span message label help = err (rich_error filename span message label help)

-- How many characters a `while` loop passes whose body is `self.advance()`.
unfoldable pub count_while : (ℕ → Bool) → Text → ℕ
count_while p [] = 0
count_while p (c ∷ cs) = if p c then suc (count_while p cs) else 0

module _ {F : Type 0} where
  -- `Lexer::with_filename`
  unfoldable pub with_filename : Text → Text → Lexer F
  with_filename input filename = record {
    input = input;
    filename = filename;
    current = 0;
    tokens = [];
  }

  -- `Lexer::new`
  unfoldable pub new_lexer : Text → Lexer F
  unfolding with_filename
  new_lexer input = with_filename input (codes "<unknown>")

  -- `self.input[self.current..]`
  abbrev pub rest : Lexer F → Text
  rest l = drop l.current l.input

  abbrev pub is_at_end : Lexer F → Bool
  is_at_end l = leb (length l.input) l.current

  -- `none` past the end, where `get_elem?` has no element
  abbrev pub peek : Lexer F → Option ℕ
  peek l = get_elem? l.input l.current

  abbrev pub peek_next : Lexer F → Option ℕ
  peek_next l = get_elem? l.input (l.current + 1)

  -- `advance`, whose character is read by `peek`
  abbrev pub advance : Lexer F → Lexer F
  advance l = record l { current = l.current + 1 }

  -- `while let Some(c) = self.peek() { if p(c) { self.advance(); } else { break; } }`
  unfoldable pub advance_while : (ℕ → Bool) → Lexer F → Lexer F
  advance_while p l = record l { current = l.current + count_while p (rest l) }

  unfoldable pub skip_whitespace : Lexer F → Lexer F
  unfolding advance_while
  skip_whitespace l = advance_while is_whitespace l

  unfoldable pub skip_line_comment : Lexer F → Lexer F
  unfolding advance_while
  skip_line_comment l = advance_while (λ c. not (c == b'\n')) l

  unfoldable pub add_token : Token F → ℕ → Lexer F → Lexer F
  add_token token start l = record l {
    tokens = l.tokens ++ record { token = token; span = new start l.current } ∷ [];
  }

  -- `self.input[start..self.current]`
  unfoldable pub lexeme : ℕ → Lexer F → Text
  lexeme start l = take (l.current - start) (drop start l.input)

-- `self.peek() == Some(c)`
abbrev pub is_char : Option ℕ → ℕ → Bool
is_char none c = false
is_char (some d) c = d == c

-- `self.peek().map(p).unwrap_or(false)`
abbrev pub is_some_and : Option ℕ → (ℕ → Bool) → Bool
is_some_and none p = false
is_some_and (some d) p = p d
