-- ===== src/Lexer/Tokenize.antt =====
-- `Lexer::tokenize` of crates/plat-lexer/src/lib.rs. The main loop runs on fuel, one more than the
-- characters of the input: each round passes at least one of them.
pub mod Progress
pub mod Layout
use plat.Base.{
  ok, stuck, ◌>>=◌, ℕ, zero, suc, ◌+◌, List, ◌∷◌, ◌++◌, Option, none, some, Text, codes, ◌==◌,
  if◌then◌else◌, length,
}
use plat.Diags.{new}
use plat.Lexer.Token.{Token, TokenWithSpan}
use plat.Lexer.Chars.{is_ascii_digit, is_identifier_start, len_utf8}
use plat.Lexer.State.{
  Result, Lexer, fail, new_lexer, peek, advance, skip_whitespace, skip_line_comment, add_token,
  is_char,
}
use plat.Lexer.Strings.{scan_string}
use plat.Lexer.Numbers.{scan_number, scan_identifier}

module _ {F : Type 0} where
  -- A token that another character may lengthen: `-` and `->`, `:` and `::`, `<` and `<=`.
  unfoldable pub one_or_two : ℕ → Token F → Token F → ℕ → Lexer F → Lexer F
  unfolding add_token
  one_or_two second long short start l =
      if is_char (peek l) second then add_token long start (advance l) else add_token short start l

  -- The arms of `.`, `..` and `..=`.
  unfoldable pub scan_dot : ℕ → Lexer F → Lexer F
  unfolding one_or_two add_token
  scan_dot start l =
      if is_char (peek l) b'.'
      then one_or_two b'=' Token.dot_dot_eq Token.dot_dot start (advance l)
      else add_token Token.dot start l

  -- The arm of `!`.
  unfoldable pub scan_bang : ℕ → Lexer F → Result (Lexer F)
  unfolding add_token fail
  scan_bang start l =
      if is_char (peek l) b'='
      then ok (add_token Token.not_eq start (advance l))
      else fail l.filename (new start (start + 1)) (codes "Unexpected character '!'")
          (codes "unexpected character") (codes "Did you mean '!=' for not equal?")

  -- The arms of the punctuation that stands for itself.
  unfoldable pub single : ℕ → Option (Token F)
  single c =
      if c == b'+'
      then some Token.plus
      else if c == b'*'
      then some Token.star
      else if c == b'%'
      then some Token.percent
      else if c == b'('
      then some Token.left_paren
      else if c == b')'
      then some Token.right_paren
      else if c == b'{'
      then some Token.left_brace
      else if c == b'}'
      then some Token.right_brace
      else if c == b'['
      then some Token.left_bracket
      else if c == b']'
      then some Token.right_bracket
      else if c == b';'
      then some Token.semicolon
      else if c == b','
      then some Token.comma
      else if c == b'?'
      then some Token.question
      else none

  -- The arms that look at the characters behind `c`; `l` stands behind `c`.
  unfoldable pub scan_longer : (Text → Option F) → ℕ → ℕ → Lexer F → Result (Lexer F)
  unfolding one_or_two scan_dot scan_bang add_token skip_line_comment scan_string scan_number
      scan_identifier is_ascii_digit is_identifier_start len_utf8 fail
  scan_longer parse_f64 c start l =
      if c == b'-'
      then ok (one_or_two b'>' Token.arrow Token.minus start l)
      else if c == b'/'
      then ok (if is_char (peek l) b'/' then skip_line_comment l else add_token Token.slash start l)
      else if c == b':'
      then ok (one_or_two b':' Token.double_colon Token.colon start l)
      else if c == b'.'
      then ok (scan_dot start l)
      else if c == b'='
      then ok (one_or_two b'=' Token.eq Token.assign start l)
      else if c == b'!'
      then scan_bang start l
      else if c == b'<'
      then ok (one_or_two b'=' Token.less_eq Token.less start l)
      else if c == b'>'
      then ok (one_or_two b'=' Token.greater_eq Token.greater start l)
      else if c == b'"'
      then scan_string start l
      else if is_ascii_digit c
      then scan_number parse_f64 start l
      else if is_identifier_start c
      then ok (scan_identifier start l)
      else fail l.filename (new start (start + len_utf8 c))
          (codes "Unexpected character '" ++ c ∷ codes "'") (codes "unexpected character")
          (codes "Remove this character or check your syntax")

  abbrev scan_arm : (Text → Option F) → Option (Token F) → ℕ → ℕ → Lexer F → Result (Lexer F)
  scan_arm parse_f64 none c start l = scan_longer parse_f64 c start l
  scan_arm parse_f64 (some token) c start l = ok (add_token token start l)

  -- The `match` on the character `c` at `start`; `l` stands behind it.
  unfoldable pub scan_char : (Text → Option F) → ℕ → ℕ → Lexer F → Result (Lexer F)
  unfolding single scan_longer add_token
  scan_char parse_f64 c start l = scan_arm parse_f64 (single c) c start l

  -- One round of the main loop from the next character on, and the rounds after it; `none` ends it.
  abbrev pub scan_next :
      (Text → Option F) → Option ℕ → Lexer F → (Lexer F → Result (Lexer F)) → Result (Lexer F)
  scan_next parse_f64 none l next = ok l
  scan_next parse_f64 (some c) l next = scan_char parse_f64 c l.current (advance l) >>= next

  -- `while !self.is_at_end()`
  unfoldable pub tokenize_loop : (Text → Option F) → ℕ → Lexer F → Result (Lexer F)
  unfolding skip_whitespace scan_char
  tokenize_loop parse_f64 zero l = stuck
  tokenize_loop parse_f64 (suc fuel) l =
      let l' = skip_whitespace l in scan_next parse_f64 (peek l') l' (tokenize_loop parse_f64 fuel)

  unfoldable pub tokenize : (Text → Option F) → Lexer F → Result (List (TokenWithSpan F))
  unfolding tokenize_loop add_token
  tokenize parse_f64 l = tokenize_loop parse_f64 (suc (length l.input)) l >>= λ l'.
      ok (add_token Token.eof l'.current l').tokens

  -- `Lexer::new(input).tokenize()`
  unfoldable pub tokenize_text : (Text → Option F) → Text → Result (List (TokenWithSpan F))
  unfolding tokenize new_lexer
  tokenize_text parse_f64 input = tokenize parse_f64 (new_lexer input)
